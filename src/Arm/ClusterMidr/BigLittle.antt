-- ===== src/Arm/ClusterMidr/BigLittle.antt =====
-- `cpuinfo_arm_linux_detect_cluster_midr_by_big_little_heuristic` of src/arm/linux/midr.c. The result is
-- the array, or `none` where the function returns false: it changes nothing then.
pub mod Leaders
use cpuinfo.Base.{
  ℕ, bit_and, Bool, not, Option, none, some, List, ◌&&◌, ◌||◌, ◌==◌, ltb, if◌then◌else◌, has,
  bitmask_all, get_or, modify,
}
use cpuinfo.Linux.Flags.{flag_max_frequency}
use cpuinfo.Arm.Processor.{Processor, valid_midr}
use cpuinfo.Arm.Midr.Cores.{midr_little_core_for_big}
use cpuinfo.Arm.ClusterMidr.{agrees_with_midr, all_clusters, each_cluster, put_midr}

module _ (outside : Processor) (cluster_leaders : ℕ → ℕ) where
  -- The cluster with the lower frequency, if both are known; else the first.
  unfoldable pub little_cluster_leader : List Processor → ℕ
  little_cluster_leader processors =
      let first = get_or processors (cluster_leaders 0) outside in
      let other = get_or processors (cluster_leaders 1) outside in
      if has (bit_and first.flags other.flags) flag_max_frequency
        && ltb other.max_frequency first.max_frequency
      then cluster_leaders 1
      else cluster_leaders 0

  -- The register for the leader of a cluster.
  abbrev pub big_or_little : ℕ → ℕ → ℕ → ℕ
  big_or_little little_leader big_midr leader =
      if leader == little_leader then midr_little_core_for_big big_midr else big_midr

  -- A cluster with a register of its own is skipped.
  unfoldable pub guess_midr : ℕ → ℕ → ℕ → ℕ → List Processor → List Processor
  guess_midr little_leader big_midr midr_flags c processors =
      let leader = cluster_leaders c in
      if bitmask_all (get_or processors leader outside).flags valid_midr
      then processors
      else modify (put_midr (big_or_little little_leader big_midr leader) midr_flags) leader
          processors

  unfoldable pub detect_cluster_midr_by_big_little_heuristic :
      ℕ → ℕ → ℕ → List Processor → Bool → Option (List Processor)
  unfolding little_cluster_leader guess_midr
  detect_cluster_midr_by_big_little_heuristic clusters_count cluster_with_midr_count
        last_processor_with_midr processors verify_midr =
      let known =
        get_or processors (get_or processors last_processor_with_midr outside).package_leader_id
          outside in
      let midr_flags = bit_and known.flags valid_midr in
      let little_leader = little_cluster_leader processors in
      let agrees =
        all_clusters
          (λ cluster.
            agrees_with_midr (get_or processors (cluster_leaders cluster) outside)
              (big_or_little little_leader known.midr (cluster_leaders cluster)))
          clusters_count 0 in
      if not (clusters_count == 2) || not (cluster_with_midr_count == 1)
      then none
      else if verify_midr && not agrees
      then none
      else some (
          each_cluster (guess_midr little_leader known.midr midr_flags) clusters_count 0 processors)
