-- ===== src/Arm/ClusterMidr/Scan/Leaders.antt =====
-- The leaders of clusters after `cpuinfo_arm_linux_detect_cluster_midr_by_sequential_scan`.
use cpuinfo.Base.{
  ℕ, zero, suc, ◌+◌, ◌<◌, true, List, [], ◌∷◌, ◌==◌, ==_iff, bitmask_all, length, get_or, ◌≡◌, refl,
  ap, arith, Bool-cases, inl, inr,
}
use cpuinfo.Base.Bits.{bitmask_all-or_self}
use cpuinfo.Linux.Flags.{flag_valid}
use cpuinfo.Arm.Processor.{Processor, valid_midr}
use cpuinfo.Arm.ClusterMidr.Assigned.{midr_at}
use cpuinfo.Arm.ClusterMidr.Scan.{scan_leader, scan_leaders, detect_cluster_midr_by_sequential_scan}

scan_leader-midr :
    (midr i : ℕ) (p : Processor)
    → bitmask_all p.flags flag_valid ≡ true
    → p.package_leader_id ≡ i
    → bitmask_all (scan_leader midr i p).0.flags valid_midr ≡ true
unfolding scan_leader
scan_leader-midr midr i p v l =
    let leads : (p.package_leader_id == i) ≡ true = (==_iff _ _).1 l in
    elim (Bool-cases (bitmask_all p.flags valid_midr)) [
      | inl h ↦ rw (v, leads, h) h
      | inr h ↦ rw (v, leads, h) (bitmask_all-or_self p.flags valid_midr)
    ]

pub length-scan_leaders :
    (midr i : ℕ) (ps : List Processor) → length (scan_leaders midr i ps) ≡ length ps
unfolding scan_leaders
length-scan_leaders midr i [] = refl
length-scan_leaders midr i (p ∷ ps) =
    ap suc (length-scan_leaders (scan_leader midr i p).1 (suc i) ps)

scan_leaders-midr_at :
    (outside : Processor) (midr i k : ℕ) (ps : List Processor)
    → k < length ps
    → bitmask_all (get_or ps k outside).flags flag_valid ≡ true
    → (get_or ps k outside).package_leader_id ≡ i + k
    → midr_at outside (scan_leaders midr i ps) k ≡ true
unfolding scan_leaders
scan_leaders-midr_at outside midr i k [] b v l = absurd (omega arith)
scan_leaders-midr_at outside midr i zero (p ∷ ps) b v l = scan_leader-midr midr i p v (omega arith)
scan_leaders-midr_at outside midr i (suc k) (p ∷ ps) b v l =
    scan_leaders-midr_at outside (scan_leader midr i p).1 (suc i) k ps (omega arith) v (omega arith)

pub by_sequential_scan-midr_at :
    (outside : Processor) (midr k : ℕ) (ps : List Processor)
    → k < length ps
    → bitmask_all (get_or ps k outside).flags flag_valid ≡ true
    → (get_or ps k outside).package_leader_id ≡ k
    → midr_at outside (detect_cluster_midr_by_sequential_scan midr ps) k ≡ true
unfolding detect_cluster_midr_by_sequential_scan
by_sequential_scan-midr_at outside midr k ps b v l =
    scan_leaders-midr_at outside midr 0 k ps b v (omega arith)

pub length-by_sequential_scan :
    (midr : ℕ) (ps : List Processor)
    → length (detect_cluster_midr_by_sequential_scan midr ps) ≡ length ps
unfolding detect_cluster_midr_by_sequential_scan
length-by_sequential_scan midr ps = length-scan_leaders midr 0 ps
