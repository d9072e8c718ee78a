-- ===== src/Arm/Tests/ClusterMidr.antt =====
-- Runs of the functions that find the register of each cluster.
use cpuinfo.Base.{
  ℕ, ◌==◌, if◌then◌else◌, true, false, none, some, List, [], ◌∷◌, get_elem?, map, ◌≡◌, refl, arith,
}
use cpuinfo.Arm.Chipset.{Chipset, series_mediatek_mt}
use cpuinfo.Arm.Processor.{Processor}
use cpuinfo.Arm.Midr.Cores.{arm, arm64, midr_little_core_for_big, little_core_of}
use cpuinfo.Arm.ClusterMidr.Configs.{cluster_configs}
use cpuinfo.Arm.ClusterMidr.Chipset.{
  config_matches, midr_matches, assign_config, use_config, search_configs,
  detect_cluster_midr_by_chipset,
}
use cpuinfo.Arm.ClusterMidr.Chipset.Mt6592.{mt6592_unknown}
use cpuinfo.Arm.ClusterMidr.BigLittle.{
  little_cluster_leader, guess_midr, detect_cluster_midr_by_big_little_heuristic,
}
use cpuinfo.Arm.ClusterMidr.Detect.{
  learn_frequency, learn_midr, note_processor, note_cluster, find_step, find_clusters, fall_back,
  assign_unattributed, assign_midr, detect_cluster_midr,
}
use cpuinfo.Arm.ClusterMidr.Detect.Learn.{has_midr}
use cpuinfo.Arm.ClusterMidr.Detect.Leaders.{detected}
use cpuinfo.Arm.ClusterMidr.Detect.Result.{leaders-has_midr}

abbrev processor : ℕ → ℕ → ℕ → ℕ → Processor
processor known midr leader size = record {
  architecture_version = 0;
  features = 0;
  features2 = 0;
  midr = midr;
  vendor = 0;
  uarch = 0;
  uarch_index = 0;
  package_id = 0;
  package_leader_id = leader;
  package_processor_count = size;
  max_frequency = 0;
  min_frequency = 0;
  system_processor_id = 0;
  flags = known;
}

abbrev chipset : ℕ → ℕ → Chipset
chipset series model = record { vendor = 0; series = series; model = model; suffix = [] }

-- Two clusters of two, where /proc/cpuinfo tells the register of the last processor only.
abbrev four : List Processor
four =
    processor 0x201000 0 0 2
    ∷ processor 0x201000 0 0 2
    ∷ processor 0x201000 0 2 2
    ∷ processor 0x3f1000 0x410FD080 2 2
    ∷ []

abbrev nowhere : Processor
nowhere = processor 0xffffffff 99 99 99

abbrev unset : ℕ → ℕ
unset c = 99

abbrev midrs : List Processor → List ℕ
midrs ps = map (λ (p : Processor). p.midr) ps

-- By the table, the first cluster has a register of its own.
by_table :
    midrs (detect_cluster_midr nowhere unset arm64 (chipset series_mediatek_mt 8173) 4 four).1
    ≡ 0x410FD032 ∷ 0 ∷ 0x410FD080 ∷ 0x410FD080 ∷ []
unfolding detect_cluster_midr find_clusters find_step note_processor note_cluster learn_frequency
    learn_midr assign_midr assign_unattributed fall_back detect_cluster_midr_by_chipset
    search_configs use_config config_matches midr_matches assign_config cluster_configs
by_table = refl

-- By the heuristic, it is the LITTLE core for a Cortex-A72.
by_heuristic :
    midrs (detect_cluster_midr nowhere unset arm64 (chipset 0 0) 4 four).1
    ≡ 0x410FD030 ∷ 0 ∷ 0x410FD080 ∷ 0x410FD080 ∷ []
unfolding detect_cluster_midr find_clusters find_step note_processor note_cluster learn_frequency
    learn_midr assign_midr assign_unattributed fall_back detect_cluster_midr_by_chipset
    search_configs cluster_configs detect_cluster_midr_by_big_little_heuristic little_cluster_leader
    guess_midr midr_little_core_for_big little_core_of
by_heuristic = refl

leaders-has_midr_example :
    (p' : Processor) × (get_elem? (detected nowhere unset arm64 (chipset 0 0) 4 four) 0 ≡ some p')
    × (has_midr p' ≡ true)
leaders-has_midr_example =
    leaders-has_midr nowhere unset arm64 (chipset 0 0) 4 four
      ((λ _. omega arith), ((λ _. omega arith), ((λ _. omega arith), ((λ _. omega arith), tt))))
      ((λ _ k. cc), ((λ _ k. cc), ((λ _ k. cc), ((λ _ _. refl), tt)))) (omega arith) 3
      (processor 0x3f1000 0x410FD080 2 2) refl refl refl 0 (processor 0x201000 0 0 2) refl refl refl

-- Eight processors of an MT6592.
abbrev eight : List Processor
eight =
    processor 0x201000 0 0 4
    ∷ processor 0x201000 0 0 4
    ∷ processor 0x201000 0 0 4
    ∷ processor 0x201000 0 0 4
    ∷ processor 0x201000 0 4 4
    ∷ processor 0x201000 0 4 4
    ∷ processor 0x201000 0 4 4
    ∷ processor 0x3f1000 0x410FC074 4 4
    ∷ []

abbrev first_and_fifth : ℕ → ℕ
first_and_fifth c = if c == 0 then 0 else 4

mt6592_unknown_example :
    detect_cluster_midr_by_chipset nowhere 2 first_and_fifth arm
      (chipset series_mediatek_mt 6592)
      8
      eight
      false
    ≡ none
mt6592_unknown_example =
    mt6592_unknown nowhere first_and_fifth eight (chipset series_mediatek_mt 6592) 8 2 false refl
      refl refl
