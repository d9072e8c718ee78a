-- ===== src/Arm/Tests.antt =====
-- Runs of the functions of src/arm at concrete registers and processors.
mod ClusterMidr
mod Heuristic
mod Order
mod Caches
use cpuinfo.Base.{ℕ, ◌+◌, ◌≤◌, true, false, ◌⊎◌, ◌&&◌, List, [], ◌∷◌, ◌≡◌, refl, has}
use cpuinfo.Arm.Midr.{
  midr_set_implementer, midr_set_variant, midr_set_part, midr_set_revision, midr_copy_implementer,
  midr_copy_variant, midr_copy_architecture, midr_copy_part, midr_copy_revision,
  midr_get_implementer, midr_get_variant, midr_get_part, midr_get_revision, kryo280_gold,
  cortex_a72,
}
use cpuinfo.Arm.Midr.Fields.{fields, midr_get-midr_set, midr_get-midr_copy}
use cpuinfo.Arm.Midr.Cores.{
  arm64, midr_little_core_for_big, midr_score_core, midr_is_kryo280_gold, midr_is_cortex_a53,
}
use cpuinfo.Arm.Midr.Scores.{score-little-le, little-kryo280_gold}
use cpuinfo.Arm.Processor.{Processor, processor_equals, processor_not_equals}
use cpuinfo.Arm.Processor.Comparison.{equals-not_equals}
use cpuinfo.Arm.Clusters.Details.{max_frequency, processor_value, check_all, learn_known}
use cpuinfo.Arm.Clusters.Scan.{
  ScanState, is_unassigned, assign, new_cluster, attach, scan_step, scan,
  detect_core_clusters_by_sequential_scan,
}
use cpuinfo.Arm.Clusters.Scan.Changes.{detect-changes}
use cpuinfo.Arm.Clusters.Scan.Leaders.{
  Detected, same_cluster-processor_value, valid-has_cluster, leader-leads,
}

midr_get-midr_set_example :
    (fields (midr_set_implementer cortex_a72 0x151) ≡ (0x51, 0, 0xd08, 0))
    × (fields (midr_set_variant cortex_a72 0x151) ≡ (0x41, 1, 0xd08, 0))
    × (fields (midr_set_part cortex_a72 0x151) ≡ (0x41, 0, 0x151, 0))
    × (fields (midr_set_revision cortex_a72 0x151) ≡ (0x41, 0, 0xd08, 1))
unfolding midr_get_implementer midr_get_variant midr_get_part midr_get_revision
midr_get-midr_set_example = midr_get-midr_set cortex_a72 0x151

copied_fields :
    (fields (midr_copy_implementer cortex_a72 kryo280_gold) ≡ (0x51, 0, 0xd08, 0))
    × (fields (midr_copy_variant cortex_a72 kryo280_gold) ≡ (0x41, 10, 0xd08, 0))
    × (fields (midr_copy_architecture cortex_a72 kryo280_gold) ≡ (0x41, 0, 0xd08, 0))
    × (fields (midr_copy_part cortex_a72 kryo280_gold) ≡ (0x41, 0, 0x800, 0))
    × (fields (midr_copy_revision cortex_a72 kryo280_gold) ≡ (0x41, 0, 0xd08, 1))
unfolding midr_get_implementer midr_get_variant midr_get_part midr_get_revision
copied_fields = midr_get-midr_copy cortex_a72 kryo280_gold

score-little-le_example :
    midr_score_core arm64 (midr_little_core_for_big cortex_a72) ≤ midr_score_core arm64 cortex_a72
score-little-le_example = score-little-le arm64 cortex_a72

little-kryo280_gold_example : midr_little_core_for_big kryo280_gold ≡ kryo280_gold
unfolding midr_is_kryo280_gold
little-kryo280_gold_example = little-kryo280_gold kryo280_gold refl

-- A processor of which no more is known than its frequency, or not even that.
abbrev processor : ℕ → ℕ → Processor
processor khz known = record {
  architecture_version = 0;
  features = 0;
  features2 = 0;
  midr = 0;
  vendor = 0;
  uarch = 0;
  uarch_index = 0;
  package_id = 0;
  package_leader_id = 0;
  package_processor_count = 0;
  max_frequency = khz;
  min_frequency = 0;
  system_processor_id = 0;
  flags = known;
}

-- Valid ones of 1.8 GHz, of an unknown frequency, again of 1.8 GHz, and of 2.4 GHz.
abbrev four : List Processor
four =
    processor 1800000 0x1004
    ∷ processor 0 0x1000
    ∷ processor 1800000 0x1004
    ∷ processor 2400000 0x1004
    ∷ []

abbrev unset : ScanState
unset = record {
  cluster = record { flags = 99; midr = 99; max_frequency = 99; min_frequency = 99 };
  cluster_processors = 99;
  cluster_start = 99;
}

abbrev with_leader : ℕ → Processor → Processor
with_leader leader p = record p { package_leader_id = leader; flags = p.flags + 0x400 }

Detected-at_0 :
    Detected unset four 0 (processor 1800000 0x1004) (with_leader 0 (processor 1800000 0x1004))
unfolding detect_core_clusters_by_sequential_scan scan scan_step assign new_cluster attach check_all
    learn_known
Detected-at_0 = (refl, refl)

Detected-at_2 :
    Detected unset four 2 (processor 1800000 0x1004) (with_leader 0 (processor 1800000 0x1004))
unfolding detect_core_clusters_by_sequential_scan scan scan_step assign new_cluster attach check_all
    learn_known
Detected-at_2 = (refl, refl)

Detected-at_3 :
    Detected unset four 3 (processor 2400000 0x1004) (with_leader 3 (processor 2400000 0x1004))
unfolding detect_core_clusters_by_sequential_scan scan scan_step assign new_cluster attach check_all
    learn_known
Detected-at_3 = (refl, refl)

same_cluster-processor_value_example :
    processor_value max_frequency (processor 1800000 0x1004)
    ≡ processor_value max_frequency (processor 1800000 0x1004)
same_cluster-processor_value_example =
    same_cluster-processor_value unset four 0 2 (processor 1800000 0x1004)
      (with_leader 0 (processor 1800000 0x1004)) (processor 1800000 0x1004)
      (with_leader 0 (processor 1800000 0x1004)) max_frequency refl refl Detected-at_0 Detected-at_2
      refl refl refl

abbrev fast : Processor
fast = processor 2400000 0x1004

detect-changes_example :
    ((with_leader 3 fast ≡ fast) × ((has 0x1004 0x1000 ≡ false) ⊎ (has 0x1004 0x400 ≡ true)))
    ⊎ ((has 0x1004 0x1000 ≡ true)
        × (has 0x1004 0x400 ≡ false)
        × (with_leader 3 fast ≡ record fast { package_leader_id = 3; flags = 0x1404 }))
detect-changes_example = detect-changes unset four 3 fast (with_leader 3 fast) Detected-at_3

valid-has_cluster_example : has (with_leader 3 (processor 2400000 0x1004)).flags 0x400 ≡ true
valid-has_cluster_example =
    valid-has_cluster unset four 3 (processor 2400000 0x1004)
      (with_leader 3 (processor 2400000 0x1004)) refl Detected-at_3

leader-leads_example :
    (0 ≤ 2)
    × (q : Processor) × (q' : Processor) × (is_unassigned q ≡ true)
    × Detected unset four 0 q q'
    × (q'.package_leader_id ≡ 0)
leader-leads_example =
    leader-leads unset four 2 (processor 1800000 0x1004) (with_leader 0 (processor 1800000 0x1004))
      refl Detected-at_2

-- Frequencies and registers are known.
abbrev with_midr : ℕ → Processor
with_midr value = record (processor 1800000 0x3f000c) { midr = value }

equals-not_equals_example :
    (processor_equals (with_midr cortex_a72) (with_midr kryo280_gold) ≡ true)
    × (processor_not_equals (with_midr cortex_a72) (with_midr kryo280_gold) ≡ true)
    × ((processor_equals (with_midr cortex_a72) (with_midr kryo280_gold)
          && processor_not_equals (with_midr cortex_a72) (with_midr kryo280_gold))
        ≡ true)
unfolding midr_is_cortex_a53
equals-not_equals_example = equals-not_equals (with_midr cortex_a72) (with_midr kryo280_gold)
