-- ===== src/Arm/Midr/Scores.antt =====
-- How the LITTLE core that is assumed for a big one compares with it.
use cpuinfo.Base.{
  ℕ, ◌≤◌, bit_and, Bool, true, false, List, [], ◌∷◌, ◌&&◌, ◌==◌, ==_iff, false≢true, if◌then◌else◌,
  ◌≡◌, refl, sym, ap, ◌∙◌, arith, All, Bool-cases, inl, inr,
}
use cpuinfo.Base.Bits.{bit_and_assoc}
use cpuinfo.Arm.Midr.{
  core_mask, core_and_architecture_mask, cortex_a7, cortex_a15, cortex_a17, cortex_a53, cortex_a55,
  cortex_a57, cortex_a72, cortex_a73, cortex_a75, kryo280_gold, kryo280_silver, kryo_gold,
  kryo_silver_820, exynos_m1_m2, denver2,
}
use cpuinfo.Arm.Midr.Cores.{
  Arch, arm, arm64, midr_score_core, score_of_core, little_core_of, midr_little_core_for_big,
  midr_is_kryo280_gold,
}

-- The big cores that have a case of their own, each with its LITTLE core.
abbrev big_little : List (ℕ × ℕ)
big_little =
    (cortex_a75, cortex_a55)
    ∷ (cortex_a73, cortex_a53)
    ∷ (cortex_a72, cortex_a53)
    ∷ (cortex_a57, cortex_a53)
    ∷ (exynos_m1_m2, cortex_a53)
    ∷ (cortex_a17, cortex_a7)
    ∷ (cortex_a15, cortex_a7)
    ∷ (kryo280_gold, kryo280_silver)
    ∷ (kryo_gold, kryo_silver_820)
    ∷ (denver2, cortex_a57)
    ∷ []

abbrev find_little : ℕ → List (ℕ × ℕ) → ℕ → ℕ
find_little core [] midr = midr
find_little core ((big, little) ∷ rest) midr =
    if core == big then little else find_little core rest midr

little_core_of-find_little :
    (core midr : ℕ) → little_core_of core midr ≡ find_little core big_little midr
unfolding little_core_of
little_core_of-find_little core midr = ground arith

-- Every LITTLE core of the table scores at most what its big core does.
abbrev FitsTable : Arch → List (ℕ × ℕ) → Type 0
FitsTable arch = All (λ p. midr_score_core arch p.1 ≤ score_of_core arch (bit_and p.0 core_mask))

find_little-le :
    (arch : Arch) (core midr : ℕ) (table : List (ℕ × ℕ))
    → midr_score_core arch midr ≡ score_of_core arch (bit_and core core_mask)
    → FitsTable arch table
    → midr_score_core arch (find_little core table midr)
      ≤ score_of_core arch (bit_and core core_mask)
find_little-le arch core midr [] same fits = omega arith
find_little-le arch core midr ((big, little) ∷ rest) same (fit, fits) =
    elim (Bool-cases (core == big)) [
      | inl hit ↦ rw hit (rw ((==_iff core big).0 hit) fit)
      | inr miss ↦ rw miss (find_little-le arch core midr rest same fits)
    ]

big_little-fits : (arch : Arch) → FitsTable arch big_little
unfolding midr_score_core score_of_core
big_little-fits arm = omega arith
big_little-fits arm64 = omega arith

masked_twice :
    (arch : Arch) (midr : ℕ)
    → midr_score_core arch midr
      ≡ score_of_core arch (bit_and (bit_and midr core_and_architecture_mask) core_mask)
unfolding midr_score_core
masked_twice arch midr =
    ap (score_of_core arch) (sym (bit_and_assoc midr core_and_architecture_mask core_mask))

-- The core that is assumed to be LITTLE beside a core never scores higher than that core, on both
-- architectures and for every register.
pub score-little-le :
    (arch : Arch) (midr : ℕ)
    → midr_score_core arch (midr_little_core_for_big midr) ≤ midr_score_core arch midr
unfolding midr_little_core_for_big
score-little-le arch midr =
    let core = bit_and midr core_and_architecture_mask in
    rw (little_core_of-find_little core midr) (
      omega (
        arith,
        masked_twice arch midr,
        find_little-le arch core midr big_little (masked_twice arch midr) (big_little-fits arch),
      ))

-- What the masked register of a Kryo 280 Gold core has in common with a core of the table.
abbrev could_be : ℕ → Bool
could_be big =
    bit_and big core_mask == bit_and kryo280_gold core_mask
    && bit_and big core_and_architecture_mask == big

find_little_misses :
    (core midr : ℕ) (table : List (ℕ × ℕ))
    → could_be core ≡ true
    → All (λ p. could_be p.0 ≡ false) table
    → find_little core table midr ≡ midr
find_little_misses core midr [] is_one none_is = refl
find_little_misses core midr ((big, little) ∷ rest) is_one (not_big, none_is) =
    elim (Bool-cases (core == big)) [
      | inl hit ↦
          absurd (false≢true (sym not_big ∙ ap could_be (sym ((==_iff core big).0 hit)) ∙ is_one))
      | inr miss ↦ rw miss (find_little_misses core midr rest is_one none_is)
    ]

no_big_is_one : All (λ p. could_be p.0 ≡ false) big_little
no_big_is_one = (refl, (refl, (refl, (refl, (refl, (refl, (refl, (refl, (refl, (refl, tt))))))))))

-- The case for Kryo 280 Gold is never taken: its label keeps the variant and the revision, which the
-- mask of the `switch` removes. So every register of such a core is its own LITTLE core.
pub little-kryo280_gold :
    (midr : ℕ) → midr_is_kryo280_gold midr ≡ true → midr_little_core_for_big midr ≡ midr
unfolding midr_little_core_for_big midr_is_kryo280_gold
little-kryo280_gold midr gold =
    let core = bit_and midr core_and_architecture_mask in
    let same_core : bit_and core core_mask ≡ bit_and kryo280_gold core_mask =
      bit_and_assoc midr core_and_architecture_mask core_mask
      ∙ (==_iff (bit_and midr core_mask) _).0 gold in
    let whole : bit_and core core_and_architecture_mask ≡ core =
      bit_and_assoc midr core_and_architecture_mask core_and_architecture_mask in
    let is_one : could_be core ≡ true = rw (same_core, whole) ((==_iff core core).1 refl) in
    little_core_of-find_little core midr
    ∙ find_little_misses core midr big_little is_one no_big_is_one
