-- ===== src/Arm/Clusters/Scan.antt =====
-- `cpuinfo_arm_linux_detect_core_clusters_by_sequential_scan` of src/arm/linux/clusters.c.
pub mod Steps
pub mod Agreement
pub mod Leaders
pub mod Changes
use cpuinfo.Base.{
  ℕ, ◌+◌, bit_and, bit_or, Bool, true, false, List, [], ◌∷◌, ◌==◌, if◌then◌else◌, u32,
}
use cpuinfo.Linux.Flags.{flag_valid, flag_package_cluster}
use cpuinfo.Arm.Processor.{Processor}
use cpuinfo.Arm.Clusters.Details.{Cluster, check_all, learn_known, details}

-- The variables of the loop. `cluster_start` and what is known of the cluster are not set before the
-- first cluster starts.
pub record ScanState : Type 0 where
  pub cluster : Cluster
  pub cluster_processors : ℕ
  pub cluster_start : ℕ

-- The processors that the scan assigns: valid ones with no cluster yet.
abbrev pub is_unassigned : Processor → Bool
is_unassigned p = bit_and p.flags (bit_or flag_valid flag_package_cluster) == flag_valid

-- A processor is assigned to the cluster that processor `leader` starts.
unfoldable pub assign : ℕ → Processor → Processor
assign leader p = record p {
  package_leader_id = leader;
  flags = bit_or p.flags flag_package_cluster;
}

-- The label `new_cluster`.
unfoldable pub new_cluster : ℕ → Processor → ScanState → Processor × ScanState
unfolding assign
new_cluster i p s = (
  assign i p,
  record {
    cluster = learn_known details (assign i p) (record (s.cluster) { flags = 0 });
    cluster_processors = 1;
    cluster_start = i;
  },
)

-- The processor goes to the preceding cluster.
unfoldable pub attach : Processor → ScanState → Cluster → Processor × ScanState
unfolding assign
attach p s c = (
  assign s.cluster_start p,
  record s { cluster = c; cluster_processors = u32 (s.cluster_processors + 1) },
)

-- The body of the loop for processor `i`.
unfoldable pub scan_step : ℕ → Processor → ScanState → Processor × ScanState
unfolding new_cluster attach
scan_step i p s =
    if is_unassigned p
    then (if s.cluster_processors == 0
        then new_cluster i p s
        else let (c, agrees) = check_all details p s.cluster in
          if agrees then attach p s c else new_cluster i p (record s { cluster = c }))
    else (p, s)

-- The loop from processor `i` on. The body reads and writes no other processor.
unfoldable pub scan : ℕ → ScanState → List Processor → List Processor
scan i s [] = []
scan i s (p ∷ ps) = let (p', s') = scan_step i p s in p' ∷ scan (i + 1) s' ps

-- What is known of the first cluster is `unset`.
unfoldable pub detect_core_clusters_by_sequential_scan : ScanState → List Processor → List Processor
unfolding scan
detect_core_clusters_by_sequential_scan unset processors =
    scan 0 (record unset { cluster = record (unset.cluster) { flags = 0 }; cluster_processors = 0 })
      processors
