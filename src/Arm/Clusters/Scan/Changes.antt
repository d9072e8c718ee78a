-- ===== src/Arm/Clusters/Scan/Changes.antt =====
-- What the scan changes of a processor, and what it leaves.
use cpuinfo.Base.{
  ℕ, zero, suc, ◌<◌, bit_and, bit_or, Bool, true, false, List, has, ◌≡◌, refl, sym, ap, ◌∙◌, arith,
  false≢true, Bool-cases, inl, inr, ◌⊎◌, ==_iff, ◌*◌, ◌/◌, ◌%◌, ◌^◌,
}
use cpuinfo.Base.Bits.{bit_and-bit_or, bit_and_field}
use cpuinfo.Linux.Flags.{flag_valid, flag_package_cluster}
use cpuinfo.Arm.Processor.{Processor}
use cpuinfo.Arm.Clusters.Scan.{ScanState, is_unassigned, assign}
use cpuinfo.Arm.Clusters.Scan.Leaders.{Detected, Result, detect-assign, valid_cases}

-- The two flags, by their digits.
two_flags : (a b : ℕ) → a < 2 → b < 2 → bit_or (a * 4096) (b * 1024) ≡ 4096 → (a ≡ 1) × (b ≡ 0)
two_flags zero zero h k e = absurd (omega (arith, e))
two_flags zero (suc zero) h k e = absurd (omega (arith, e))
two_flags (suc zero) zero h k e = (refl, refl)
two_flags (suc zero) (suc zero) h k e = absurd (omega (arith, e))
two_flags (suc (suc a)) b h k e = absurd (omega arith)
two_flags zero (suc (suc b)) h k e = absurd (omega arith)
two_flags (suc zero) (suc (suc b)) h k e = absurd (omega arith)

unassigned_flags :
    (p : Processor)
    → is_unassigned p ≡ true
    → (has p.flags flag_valid ≡ true) × (has p.flags flag_package_cluster ≡ false)
unassigned_flags p h =
    let f = p.flags in
    let v : bit_and f flag_valid ≡ (f / 2 ^ 12 % 2) * 4096 = bit_and_field 12 1 f in
    let c : bit_and f flag_package_cluster ≡ (f / 2 ^ 10 % 2) * 1024 = bit_and_field 10 1 f in
    let both : bit_or ((f / 2 ^ 12 % 2) * 4096) ((f / 2 ^ 10 % 2) * 1024) ≡ 4096 =
      ap (λ (x : ℕ). bit_or x ((f / 2 ^ 10 % 2) * 1024)) (sym v)
      ∙ ap (bit_or (bit_and f flag_valid)) (sym c)
      ∙ sym (bit_and-bit_or f flag_valid flag_package_cluster)
      ∙ (==_iff _ _).0 h in
    let (one, zero_there) =
      two_flags (f / 2 ^ 12 % 2) (f / 2 ^ 10 % 2) (omega arith) (omega arith) both in
    let valid : bit_and f flag_valid ≡ 4096 = omega arith in
    let none_yet : bit_and f flag_package_cluster ≡ 0 = omega arith in (ground arith, ground arith)

left_flags :
    (p : Processor)
    → is_unassigned p ≡ false
    → (has p.flags flag_valid ≡ false) ⊎ (has p.flags flag_package_cluster ≡ true)
left_flags p h = elim (Bool-cases (has p.flags flag_valid)) [
  | inr other ↦ inl other
  | inl valid ↦ elim (valid_cases p.flags valid) [
    | inl u ↦ absurd (false≢true (sym h ∙ u))
    | inr c ↦ inr c
  ]
]

assigned_cases :
    (p p' : Processor) (unassigned : Bool)
    → is_unassigned p ≡ unassigned
    → Result p p'
    → ((p' ≡ p) × ((has p.flags flag_valid ≡ false) ⊎ (has p.flags flag_package_cluster ≡ true)))
      ⊎ ((has p.flags flag_valid ≡ true)
          × (has p.flags flag_package_cluster ≡ false)
          × (p' ≡ record p {
            package_leader_id = p'.package_leader_id;
            flags = bit_or p.flags flag_package_cluster;
          }))
unfolding assign
assigned_cases p p' true u r =
    let (valid, none_yet) = unassigned_flags p u in inr (valid, none_yet, r ∙ rw u refl)
assigned_cases p p' false u r = inl (r ∙ rw u refl, left_flags p u)

-- For every processor at an index, before and after the function: either it is not valid or had a
-- cluster, and nothing of it changes; or it is valid and had no cluster, and then it has the flag of a
-- cluster, its leader may have changed, and its other flags and members are as they were.
pub detect-changes :
    (unset : ScanState) (ps : List Processor) (k : ℕ) (p p' : Processor)
    → Detected unset ps k p p'
    → ((p' ≡ p) × ((has p.flags flag_valid ≡ false) ⊎ (has p.flags flag_package_cluster ≡ true)))
      ⊎ ((has p.flags flag_valid ≡ true)
          × (has p.flags flag_package_cluster ≡ false)
          × (p' ≡ record p {
            package_leader_id = p'.package_leader_id;
            flags = bit_or p.flags flag_package_cluster;
          }))
detect-changes unset ps k p p' h = assigned_cases p p' _ refl (detect-assign unset ps k p p' h)
