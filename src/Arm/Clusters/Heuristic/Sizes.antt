-- ===== src/Arm/Clusters/Heuristic/Sizes.antt =====
-- The first pass of the heuristic never runs out of clusters, if the number of usable processors is
-- right.
use cpuinfo.Base.{
  ℕ, suc, ◌+◌, ◌≤◌, ◌<◌, ◌^◌, Bool, true, false, not, List, [], ◌∷◌, ◌==◌, ==_iff, if◌then◌else◌,
  has, bitmask_all, ◌≡◌, refl, arith, All,
}
use cpuinfo.Linux.Flags.{flag_valid, flag_package_cluster}
use cpuinfo.Arm.Processor.{Processor}
use cpuinfo.Arm.Clusters.Details.{Cluster, check_all, details}
use cpuinfo.Arm.Clusters.Heuristic.{
  VerifyState, Verdict, passed, contradicted, read_unset, decrement, start_with, verify_start,
  verify_reported, verify_assumed, verify_step, verify,
}

abbrev pub count_valid : List Processor → ℕ
count_valid [] = 0
count_valid (p ∷ ps) = (if bitmask_all p.flags flag_valid then 1 else 0) + count_valid ps

abbrev pub sum : List ℕ → ℕ
sum [] = 0
sum (n ∷ ns) = n + sum ns

-- A size that can be counted down.
abbrev pub IsSize : ℕ → Type 0
IsSize n = (1 ≤ n) × (n < 2 ^ 32)

-- There are places for `n` more processors.
abbrev pub Places : ℕ → VerifyState → Type 0
Places n s =
    (n ≤ s.expected_cluster_processors + sum s.sizes)
    × (s.expected_cluster_processors < 2 ^ 32)
    × All IsSize s.sizes

abbrev pub Leaves : ℕ → Verdict → Type 0
Leaves n (passed s) = Places n s
Leaves n contradicted = Unit
Leaves n read_unset = ⊥

Leaves-if :
    (n : ℕ) (b : Bool) (v w : Verdict) → Leaves n v → Leaves n w → Leaves n (if b then v else w)
Leaves-if n true v w f g = f
Leaves-if n false v w f g = g

start_with-Leaves :
    (n i : ℕ) (sizes : List ℕ) (reported : Bool) (c : Cluster)
    → suc n ≤ sum sizes
    → All IsSize sizes
    → Leaves n (start_with sizes i reported c)
unfolding start_with
start_with-Leaves n i [] reported c h a = absurd (omega arith)
start_with-Leaves n i (m ∷ sizes) reported c h a = (omega arith, omega arith, a.1)

verify_start-Leaves :
    (n i : ℕ) (p : Processor) (s : VerifyState)
    → suc n ≤ sum s.sizes
    → All IsSize s.sizes
    → Leaves n (verify_start i p s)
unfolding verify_start
verify_start-Leaves n i p s h a =
    Leaves-if n (has p.flags flag_package_cluster) _ _
      (Leaves-if n (not (p.package_leader_id == i)) _ _ tt
        (start_with-Leaves n i s.sizes true _ h a))
      (start_with-Leaves n i s.sizes false _ h a)

counted_down :
    (n : ℕ) (s : VerifyState)
    → Places (suc n) s
    → (s.expected_cluster_processors == 0) ≡ false
    → (n ≤ decrement s.expected_cluster_processors + sum s.sizes)
      × (decrement s.expected_cluster_processors < 2 ^ 32)
counted_down n s h e =
    let some_left : 1 ≤ s.expected_cluster_processors = ground arith in (omega arith, omega arith)

verify_member-Leaves :
    (n : ℕ) (p : Processor) (s : VerifyState)
    → Places (suc n) s
    → (s.expected_cluster_processors == 0) ≡ false
    → Leaves n (verify_reported p s) × Leaves n (verify_assumed p s)
unfolding verify_reported verify_assumed
verify_member-Leaves n p s h e =
    let (left, small) = counted_down n s h e in
    (
      Leaves-if n (not (has p.flags flag_package_cluster)) _ _ tt
          (Leaves-if n (not (p.package_leader_id == s.cluster_start)) _ _ tt (left, small, h.2)),
      Leaves-if n (has p.flags flag_package_cluster) _ _ tt
          (Leaves-if n (check_all details p s.known).1 _ _ (left, small, h.2) tt),
    )

Leaves-cases :
    (n i : ℕ) (p : Processor) (s : VerifyState) (valid first : Bool)
    → bitmask_all p.flags flag_valid ≡ valid
    → (s.expected_cluster_processors == 0) ≡ first
    → Places ((if valid then 1 else 0) + n) s
    → Leaves n (verify_step i p s)
unfolding verify_step
Leaves-cases n i p s false first v e h = rw v (omega arith, h.1, h.2)
Leaves-cases n i p s true true v e h =
    let empty = (==_iff s.expected_cluster_processors 0).0 e in
    rw (v, e) (verify_start-Leaves n i p s (omega arith) h.2)
Leaves-cases n i p s true false v e h =
    let more : suc n ≤ s.expected_cluster_processors + sum s.sizes = omega arith in
    let (reported, assumed) = verify_member-Leaves n p s (more, h.1, h.2) e in
    rw (v, e) (Leaves-if n s.expected_cluster_exists _ _ reported assumed)

verify_then-Leaves :
    (i : ℕ) (ps : List Processor) (v : Verdict)
    → Leaves (count_valid ps) v
    → ((s : VerifyState) → Places (count_valid ps) s → Leaves 0 (verify (i + 1) s ps))
    → Leaves 0 (elim v as (λ w. Verdict) [
      | passed t ↦ verify (i + 1) t ps
      | contradicted ↦ contradicted
      | read_unset ↦ read_unset
    ])
verify_then-Leaves i ps (passed t) f rest = rest t f
verify_then-Leaves i ps contradicted f rest = tt
verify_then-Leaves i ps read_unset f rest = f

-- With a place for every valid processor, no size is missing.
pub verify-Leaves :
    (ps : List Processor) (i : ℕ) (s : VerifyState)
    → Places (count_valid ps) s
    → Leaves 0 (verify i s ps)
unfolding verify
verify-Leaves [] i s h = (omega arith, h.1, h.2)
verify-Leaves (p ∷ ps) i s h =
    verify_then-Leaves i ps (verify_step i p s)
      (Leaves-cases (count_valid ps) i p s _ _ refl refl h) (verify-Leaves ps (i + 1))
