-- ===== src/Arm/Caches/Result.antt =====
-- What `cpuinfo_arm_decode_cache` returns has a whole number of sets.
use cpuinfo.Base.{
  ◌*◌, ◌/◌, ◌<◌, ◌⊎◌, inl, inr, Bool, true, false, List, [], ◌∷◌, ◌==◌, if◌then◌else◌, is_one_of,
  All, Bool-cases, ◌≡◌, arith, ◌++◌, All-append,
}
use cpuinfo.Arm.Caches.{CoreCache, CoreCaches, Asked, ArmTarget, with_sets, finish_caches}
use cpuinfo.Arm.Caches.Uarch.{uarch_xscale}
use native.Mathlib.Nat.{div-add-mod'}
use cpuinfo.Arm.Caches.Decode.{
  CoreCase, cases_before_v7, cases_before_v8, cases_always, cases_arm64, core_cases, find_core,
  decode_core_cache,
}
use cpuinfo.Arm.Caches.Whole.{
  Fits, Fit, Absent, arm11-Fit, cortex_a5-Fit, cortex_a7-Fit, cortex_a9-Fit, cortex_a15-Fit,
  cortex_a17-Fit, scorpion-Fit, krait-Fit, cortex_a35-Fit, cortex_a57-Fit, cortex_a65-Fit,
  cortex_a77-Fit, neoverse-Fit, denver-Fit, exynos_m1-Fit, exynos_m3-Fit, thunderx-Fit,
  taishan_v110-Fit,
}
use cpuinfo.Arm.Caches.Chosen.{
  KnownXscale, xscale-Fit, cortex_a8-Fit, cortex_a53-Fit, cortex_a55-Fit, cortex_a72-Fit,
  cortex_a73-Fit, cortex_a75-Fit, cortex_a76-Fit, kryo-Fit, generic-Fit,
}

-- The cache has ways, lines and sets, and their product is its size.
abbrev pub HasSets : CoreCache → Type 0
HasSets c =
    (0 < c.associativity * c.line_size)
    × (c.size ≡ c.associativity * c.partitions * c.sets * c.line_size)

abbrev pub AllHaveSets : CoreCaches → Type 0
AllHaveSets c =
    HasSets c.l1i
    × HasSets c.l1d
    × ((c.l2.size ≡ 0) ⊎ HasSets c.l2)
    × ((c.l3.size ≡ 0) ⊎ HasSets c.l3)

with_sets-HasSets : (c : CoreCache) → Fits c → HasSets (with_sets c)
with_sets-HasSets c (positive, whole) =
    let row = c.associativity * c.line_size in
    let product : c.size / row * row ≡ c.associativity * 1 * (c.size / row) * c.line_size =
      grind arith in
    (positive, omega (arith, div-add-mod' c.size row, product))

finish_caches-AllHaveSets : (c : CoreCaches) → Fit c → AllHaveSets (finish_caches c)
unfolding finish_caches
finish_caches-AllHaveSets c (l1i, l1d, l2, l3) = (
  with_sets-HasSets c.l1i l1i,
  with_sets-HasSets c.l1d l1d,
  elim (Bool-cases (c.l2.size == 0)) [
    | inl e ↦ rw e (inl (ground arith))
    | inr e ↦ rw e (elim l2 [
      | inl none_there ↦ absurd (ground arith)
      | inr fits ↦ inr (with_sets-HasSets c.l2 fits)
    ])
  ],
  elim l3 [
    | inl none_there ↦
        let e : (c.l3.size == 0) ≡ true = ground arith in
        elim (Bool-cases (c.l2.size == 0)) [
          | inl f ↦ rw (e, f) (inl none_there)
          | inr f ↦ rw (e, f) (inl none_there)
        ]
    | inr (some_l2, fits) ↦
        let f : (c.l2.size == 0) ≡ false = ground arith in
        elim (Bool-cases (c.l3.size == 0)) [
          | inl e ↦ rw (e, f) (inl (ground arith))
          | inr e ↦ rw (e, f) (inr (with_sets-HasSets c.l3 fits))
        ]
  ],
)

module _ (a : Asked) (c : CoreCaches) (absent : Absent c) where
  -- A case, where it is the one of the microarchitecture.
  abbrev CaseFits : CoreCase → Type 0
  CaseFits (labels, fill) = is_one_of a.uarch labels ≡ true → Fit (fill a c)

  find_core-Fit : (cases : List CoreCase) → All CaseFits cases → Fit (find_core a.uarch cases a c)
  unfolding find_core
  find_core-Fit [] _ = generic-Fit a c absent
  find_core-Fit ((labels, fill) ∷ cases) (here, rest) =
      elim (Bool-cases (is_one_of a.uarch labels)) [
        | inl e ↦ rw e (here e)
        | inr e ↦ rw e (find_core-Fit cases rest)
      ]

  before_v7-Fit : ((a.uarch == uarch_xscale) ≡ false) ⊎ KnownXscale a → All CaseFits cases_before_v7
  before_v7-Fit (inl other) = ((λ e. absurd (ground arith)), ((λ _. arm11-Fit a c absent), tt))
  before_v7-Fit (inr known) =
      ((λ _. xscale-Fit a c absent known), ((λ _. arm11-Fit a c absent), tt))

  before_v8-Fit : All CaseFits cases_before_v8
  before_v8-Fit = (
    (λ _. cortex_a5-Fit a c absent),
    (
      (λ _. cortex_a7-Fit a c absent),
      (
        (λ _. cortex_a8-Fit a c absent),
        (
          (λ _. cortex_a9-Fit a c absent),
          (
            (λ _. cortex_a15-Fit a c absent),
            (
              (λ _. cortex_a17-Fit a c absent),
              ((λ _. scorpion-Fit a c absent), ((λ _. krait-Fit a c absent), tt)),
            ),
          ),
        ),
      ),
    ),
  )

  always-Fit : All CaseFits cases_always
  always-Fit = (
    (λ _. cortex_a35-Fit a c absent),
    (
      (λ _. cortex_a53-Fit a c absent),
      (
        (λ _. cortex_a55-Fit a c absent),
        (
          (λ _. cortex_a57-Fit a c absent),
          (
            (λ _. cortex_a65-Fit a c absent),
            (
              (λ _. cortex_a72-Fit a c absent),
              (
                (λ _. cortex_a73-Fit a c absent),
                (
                  (λ _. cortex_a75-Fit a c absent),
                  (
                    (λ _. cortex_a76-Fit a c absent),
                    (
                      (λ _. cortex_a77-Fit a c absent),
                      (
                        (λ _. neoverse-Fit a c absent),
                        (
                          (λ _. kryo-Fit a c absent),
                          (
                            (λ _. denver-Fit a c absent),
                            (
                              (λ _. exynos_m1-Fit a c absent),
                              ((λ _. exynos_m3-Fit a c absent), tt),
                            ),
                          ),
                        ),
                      ),
                    ),
                  ),
                ),
              ),
            ),
          ),
        ),
      ),
    ),
  )

  arm64-Fit : All CaseFits cases_arm64
  arm64-Fit = ((λ _. thunderx-Fit a c absent), ((λ _. taishan_v110-Fit a c absent), tt))

  chosen :
      (b : Bool) (cases : List CoreCase)
      → All CaseFits cases
      → All CaseFits (if b then cases else [])
  chosen true cases h = h
  chosen false cases h = tt

  core_cases-Fit :
      (target : ArmTarget)
      → ((a.uarch == uarch_xscale) ≡ false) ⊎ KnownXscale a
      → All CaseFits (core_cases target)
  unfolding core_cases
  core_cases-Fit target known =
      let v7 : List CoreCase = if target.before_v7 then cases_before_v7 else [] in
      let v8 : List CoreCase = if target.before_v8 then cases_before_v8 else [] in
      let arm64 : List CoreCase = if target.arm64_no_android then cases_arm64 else [] in
      let last =
        All-append CaseFits cases_always arm64 always-Fit
          (chosen target.arm64_no_android cases_arm64 arm64-Fit) in
      let middle =
        All-append CaseFits v8 (cases_always ++ arm64)
          (chosen target.before_v8 cases_before_v8 before_v8-Fit) last in
      All-append CaseFits v7 (v8 ++ (cases_always ++ arm64))
        (chosen target.before_v7 cases_before_v7 (before_v7-Fit known)) middle

-- From a second and a third level that are not there: for every target and every microarchitecture, but
-- for XScale with a part that has no case, the two caches of the first level have a way and a line, so
-- that no division by 0 computes the sets, and their sizes are the products of ways, partitions, sets and
-- bytes of a line. The same holds for the second and the third level where their sizes are not 0.
pub decode_core_cache-AllHaveSets :
    (target : ArmTarget) (a : Asked) (c : CoreCaches)
    → Absent c
    → ((a.uarch == uarch_xscale) ≡ false) ⊎ KnownXscale a
    → AllHaveSets (decode_core_cache target a c)
unfolding decode_core_cache
decode_core_cache-AllHaveSets target a c absent known =
    finish_caches-AllHaveSets (find_core a.uarch (core_cases target) a c)
      (find_core-Fit a c absent (core_cases target) (core_cases-Fit a c absent target known))
