-- ===== src/Arm/ClusterMidr/Chipset.antt =====
-- `cpuinfo_arm_linux_detect_cluster_midr_by_chipset` of src/arm/linux/midr.c. The result is the array,
-- or `none` where the function returns false: it changes nothing then.
pub mod Leaders
pub mod Mt6592
use cpuinfo.Base.{
  ℕ, Bool, true, not, Option, none, some, List, [], ◌∷◌, ◌&&◌, ◌||◌, ◌==◌, leb, if◌then◌else◌,
  get_or, modify,
}
use cpuinfo.Arm.Chipset.{Chipset}
use cpuinfo.Arm.Processor.{Processor, valid_midr}
use cpuinfo.Arm.Midr.Cores.{Arch}
use cpuinfo.Arm.ClusterMidr.{clusters_max, agrees_with_midr, all_clusters, each_cluster, put_midr}
use cpuinfo.Arm.ClusterMidr.Configs.{ClusterConfig, cluster_configs}

abbrev pub config_cores : ClusterConfig → ℕ → ℕ
config_cores config cluster = get_or config.cluster_cores cluster 0

abbrev pub config_midr : ClusterConfig → ℕ → ℕ
config_midr config cluster = get_or config.cluster_midr cluster 0

module _ (outside : Processor) (clusters_count : ℕ) (cluster_leaders : ℕ → ℕ) where
  abbrev pub leader_of_cluster : List Processor → ℕ → Processor
  leader_of_cluster processors cluster = get_or processors (cluster_leaders cluster) outside

  -- The core cluster configuration matches expectation.
  unfoldable pub config_matches : ClusterConfig → List Processor → Bool
  config_matches config processors =
      all_clusters
        (λ cluster.
          config_cores config cluster
          == (leader_of_cluster processors cluster).package_processor_count)
        clusters_count 0

  -- The known parts of the registers match.
  unfoldable pub midr_matches : ClusterConfig → List Processor → Bool
  midr_matches config processors =
      all_clusters
        (λ cluster.
          agrees_with_midr (leader_of_cluster processors cluster) (config_midr config cluster))
        clusters_count 0

  unfoldable pub assign_config : ClusterConfig → List Processor → List Processor
  assign_config config =
      each_cluster
        (λ cluster.
          modify (put_midr (config_midr config cluster) valid_midr) (cluster_leaders cluster))
        clusters_count 0

  -- What follows once the line of the chipset is found.
  unfoldable pub use_config : ClusterConfig → ℕ → List Processor → Bool → Option (List Processor)
  unfolding config_matches midr_matches assign_config
  use_config config processors_count processors verify_midr =
      if not (config.cores == processors_count) || not (config.clusters == clusters_count)
      then none
      else if not (config_matches config processors)
      then none
      else if verify_midr && not (midr_matches config processors)
      then none
      else some (assign_config config processors)

  unfoldable pub search_configs :
      List ClusterConfig → Chipset → ℕ → List Processor → Bool → Option (List Processor)
  search_configs [] chipset processors_count processors verify_midr = none
  search_configs (config ∷ configs) chipset processors_count processors verify_midr =
      if config.model == chipset.model && config.series == chipset.series
      then use_config config processors_count processors verify_midr
      else search_configs configs chipset processors_count processors verify_midr

  unfoldable pub detect_cluster_midr_by_chipset :
      Arch → Chipset → ℕ → List Processor → Bool → Option (List Processor)
  detect_cluster_midr_by_chipset arch chipset processors_count processors verify_midr =
      if leb clusters_count clusters_max
      then search_configs (cluster_configs arch) chipset processors_count processors verify_midr
      else none
