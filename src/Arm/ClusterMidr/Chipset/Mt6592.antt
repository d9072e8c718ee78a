-- ===== src/Arm/ClusterMidr/Chipset/Mt6592.antt =====
-- The chipset MT6592, whose line of the table has fewer cores than its clusters have.
use mathlib.Core.Path.{subst}
use cpuinfo.Base.{
  ℕ, ◌+◌, Bool, false, not, none, List, [], ◌∷◌, ◌||◌, ◌==◌, leb, ◌≡◌, refl, ◌∙◌, arith, Bool-cases,
  inl, inr,
}
use cpuinfo.Arm.Chipset.{Chipset, series_mediatek_mt}
use cpuinfo.Arm.Processor.{Processor}
use cpuinfo.Arm.Midr.Cores.{arm}
use cpuinfo.Arm.ClusterMidr.{clusters_max}
use cpuinfo.Arm.ClusterMidr.Configs.{ClusterConfig, config, cluster_configs}
use cpuinfo.Arm.ClusterMidr.Chipset.{
  leader_of_cluster, config_matches, use_config, search_configs, detect_cluster_midr_by_chipset,
}

abbrev mt6592 : ClusterConfig
mt6592 = config 4 series_mediatek_mt 6592 2 (4 ∷ 4 ∷ 0 ∷ []) (0x410FC074 ∷ 0x410FC074 ∷ 0 ∷ [])

module _ (outside : Processor) (cluster_leaders : ℕ → ℕ) (ps : List Processor) where
  -- How many processors a cluster has.
  abbrev pub size_of_cluster : ℕ → ℕ
  size_of_cluster c = (leader_of_cluster outside 2 cluster_leaders ps c).package_processor_count

  -- Two clusters of four have eight processors.
  sizes_differ :
      size_of_cluster 0 + size_of_cluster 1 ≡ 4
      → config_matches outside 2 cluster_leaders mt6592 ps ≡ false
  unfolding config_matches
  sizes_differ h = ground arith

  refused :
      (n clusters_count : ℕ) (verify : Bool)
      → size_of_cluster 0 + size_of_cluster 1 ≡ n
      → use_config outside clusters_count cluster_leaders mt6592 n ps verify ≡ none
  unfolding use_config
  refused n clusters_count verify h =
      elim (Bool-cases (not (4 == n) || not (2 == clusters_count))) [
        | inl e ↦ rw e refl
        | inr e ↦
            let two : 2 ≡ clusters_count = ground arith in
            let sizes = sizes_differ (ground arith) in
            subst (λ (c : ℕ). use_config outside c cluster_leaders mt6592 n ps verify ≡ none) two
              (ground (arith, sizes))
      ]

  searched :
      (series model n clusters_count : ℕ) (suffix : List ℕ) (vendor : ℕ) (verify : Bool)
      → series ≡ series_mediatek_mt
      → model ≡ 6592
      → search_configs outside clusters_count cluster_leaders
          (cluster_configs arm)
          (record { vendor = vendor; series = series; model = model; suffix = suffix })
          n
          ps
          verify
        ≡ use_config outside clusters_count cluster_leaders mt6592 n ps verify
  unfolding search_configs cluster_configs
  searched series model n clusters_count suffix vendor verify s m = rw (s, m) refl

  -- For MT6592, compiled for 32-bit ARM: where the processors are those of the two clusters, the table
  -- is of no use, whatever their number.
  pub mt6592_unknown :
      (chipset : Chipset) (n clusters_count : ℕ) (verify : Bool)
      → chipset.series ≡ series_mediatek_mt
      → chipset.model ≡ 6592
      → size_of_cluster 0 + size_of_cluster 1 ≡ n
      → detect_cluster_midr_by_chipset outside clusters_count cluster_leaders arm chipset n ps
          verify
        ≡ none
  unfolding detect_cluster_midr_by_chipset
  mt6592_unknown chipset n clusters_count verify s m h =
      let found =
        searched chipset.series chipset.model n clusters_count chipset.suffix chipset.vendor verify
          s m
        ∙ refused n clusters_count verify h in
      elim (Bool-cases (leb clusters_count clusters_max)) [ inl e ↦ rw e found | inr e ↦ rw e refl ]
