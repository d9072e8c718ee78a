-- ===== src/Arm/ClusterMidr/Scan.antt =====
-- `cpuinfo_arm_linux_detect_cluster_midr_by_sequential_scan` of src/arm/linux/midr.c.
pub mod Leaders
use cpuinfo.Base.{ℕ, suc, List, [], ◌∷◌, ◌&&◌, ◌==◌, if◌then◌else◌, bitmask_all}
use cpuinfo.Linux.Flags.{flag_valid}
use cpuinfo.Arm.Processor.{Processor, valid_midr}
use cpuinfo.Arm.ClusterMidr.{put_midr}

-- The processor `i` afterwards, and `midr`.
unfoldable pub scan_leader : ℕ → ℕ → Processor → Processor × ℕ
scan_leader midr i p =
    if bitmask_all p.flags flag_valid && p.package_leader_id == i
    then (if bitmask_all p.flags valid_midr
        then (p, p.midr)
        else (put_midr midr valid_midr p, midr))
    else (p, midr)

-- The loop from processor `i` on. The body reads and writes no other processor.
unfoldable pub scan_leaders : ℕ → ℕ → List Processor → List Processor
unfolding scan_leader
scan_leaders midr i [] = []
scan_leaders midr i (p ∷ ps) =
    let (p', midr') = scan_leader midr i p in p' ∷ scan_leaders midr' (suc i) ps

unfoldable pub detect_cluster_midr_by_sequential_scan : ℕ → List Processor → List Processor
unfolding scan_leaders
detect_cluster_midr_by_sequential_scan default_midr processors =
    scan_leaders default_midr 0 processors
