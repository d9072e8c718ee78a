-- ===== src/Arm/ClusterMidr/Detect/Counts.antt =====
-- The counts of valid processors and of clusters, by index.
use cpuinfo.Base.{
  ℕ, suc, ◌+◌, bit_or, Bool, List, [], ◌∷◌, ◌&&◌, ◌==◌, if◌then◌else◌, bitmask_all, length, get_or,
  count_below, count_below_first, ◌≡◌, refl, ap, fun_ext, arith,
}
use cpuinfo.Linux.Flags.{flag_valid}
use cpuinfo.Arm.Processor.{Processor, valid_midr}
use cpuinfo.Arm.ClusterMidr.Detect.{count_clusters_with_midr}
use cpuinfo.Arm.ClusterMidr.Detect.Learn.{is_valid}
use cpuinfo.Arm.ClusterMidr.Detect.Invariant.{valid_at}

-- A leader with a register, at an index of a part of the array that starts at processor `i`.
abbrev pub led_with_midr : Processor → ℕ → List Processor → ℕ → Bool
led_with_midr outside i ps j =
    let p = get_or ps j outside in
    bitmask_all p.flags (bit_or flag_valid valid_midr) && p.package_leader_id == i + j

pub count_clusters_with_midr-count_below :
    (outside : Processor) (i : ℕ) (ps : List Processor)
    → count_clusters_with_midr i ps ≡ count_below (led_with_midr outside i ps) (length ps)
unfolding count_clusters_with_midr
count_clusters_with_midr-count_below outside i [] = refl
count_clusters_with_midr-count_below outside i (p ∷ ps) =
    let rest = count_clusters_with_midr-count_below outside (suc i) ps in
    let first = count_below_first (led_with_midr outside i (p ∷ ps)) (length ps) in
    let shifted : led_with_midr outside (suc i) ps
        ≡ (λ k. led_with_midr outside i (p ∷ ps) (suc k)) =
      fun_ext (λ k.
        let index : suc i + k ≡ i + suc k = omega arith in
        ap
          (λ (n : ℕ).
            bitmask_all (get_or ps k outside).flags (bit_or flag_valid valid_midr)
            && (get_or ps k outside).package_leader_id == n)
          index) in
    let counts = ap (λ (test : ℕ → Bool). count_below test (length ps)) shifted in
    let here : i + 0 ≡ i = omega arith in
    let now : ◌≡◌ {A = ℕ} (if led_with_midr outside i (p ∷ ps) 0 then 1 else 0) (
        if bitmask_all p.flags (bit_or flag_valid valid_midr) && p.package_leader_id == i
        then 1
        else 0) =
      ap
        (λ (n : ℕ).
          if bitmask_all p.flags (bit_or flag_valid valid_midr) && p.package_leader_id == n
          then 1
          else 0)
        here in
    omega arith

-- The number of valid processors.
abbrev pub count_valid : List Processor → ℕ
count_valid [] = 0
count_valid (p ∷ ps) = (if is_valid p then 1 else 0) + count_valid ps

pub count_valid-count_below :
    (outside : Processor) (ps : List Processor)
    → count_valid ps ≡ count_below (valid_at outside ps) (length ps)
count_valid-count_below outside [] = refl
count_valid-count_below outside (p ∷ ps) = omega (
  arith,
  count_valid-count_below outside ps,
  count_below_first (valid_at outside (p ∷ ps)) (length ps),
)
