-- ===== src/Arm/Tests/Heuristic.antt =====
-- Runs of the heuristic for clusters and of the count of their processors.
use cpuinfo.Base.{
  ℕ, Bool, true, false, Option, none, some, List, [], ◌∷◌, get_elem?, ◌≡◌, refl, map,
}
use cpuinfo.Arm.Processor.{Processor}
use cpuinfo.Arm.Clusters.Count.{count_at, count_cluster_processors}
use cpuinfo.Arm.Clusters.Count.Copies.{count-led_by}
use cpuinfo.Arm.Clusters.Details.{check_all, check, learn}
use cpuinfo.Arm.Clusters.Heuristic.{
  VerifyState, start_with, verify_start, verify_reported, verify_assumed, verify_step, verify,
  regroup_start, regroup_step, regroup, after_verify, by_sizes, detect_core_clusters_by_heuristic,
}
use cpuinfo.Arm.Clusters.Heuristic.Leaders.{heuristic-keeps_leader}

abbrev processor : ℕ → ℕ → ℕ → Processor
processor khz known leader = record {
  architecture_version = 0;
  features = 0;
  features2 = 0;
  midr = 0;
  vendor = 0;
  uarch = 0;
  uarch_index = 0;
  package_id = 0;
  package_leader_id = leader;
  package_processor_count = 0;
  max_frequency = khz;
  min_frequency = 0;
  system_processor_id = 0;
  flags = known;
}

-- Four processors that the kernel put together, and two of which it said nothing.
abbrev six : List Processor
six =
    processor 0 0x1400 0
    ∷ processor 0 0x1400 0
    ∷ processor 0 0x1400 0
    ∷ processor 0 0x1400 0
    ∷ processor 0 0x1000 4
    ∷ processor 0 0x1000 5
    ∷ []

abbrev unset : VerifyState
unset = record {
  sizes = [];
  expected_cluster_processors = 99;
  expected_cluster_exists = true;
  cluster_start = 99;
  known = record { flags = 99; midr = 99; max_frequency = 99; min_frequency = 99 };
}

heuristic-keeps_leader_example :
    (ps' : List Processor) × (status : Bool) × (p' : Processor) × (detect_core_clusters_by_heuristic
        unset 6 six
      ≡ some (ps', status))
    × (get_elem? ps' 3 ≡ some p')
    × (p'.package_leader_id ≡ 0)
heuristic-keeps_leader_example =
    heuristic-keeps_leader unset 6 six 3 (processor 0 0x1400 0) refl refl refl

abbrev leaders : Option (List Processor × Bool) → Option (List ℕ × Bool)
leaders none = none
leaders (some (ps, status)) = some (map (λ p. p.package_leader_id) ps, status)

-- The frequency of the processor that starts an assumed cluster is not compared with the others.
starts_unchecked :
    leaders (
      detect_core_clusters_by_heuristic unset 6 (
        processor 1800000 0x1004 0
        ∷ processor 2400000 0x1004 1
        ∷ processor 2400000 0x1004 2
        ∷ processor 2400000 0x1004 3
        ∷ processor 2400000 0x1004 4
        ∷ processor 2400000 0x1004 5
        ∷ []))
    ≡ some (0 ∷ 0 ∷ 0 ∷ 0 ∷ 4 ∷ 4 ∷ [], true)
unfolding detect_core_clusters_by_heuristic by_sizes after_verify verify verify_step verify_start
    verify_reported verify_assumed start_with check_all check learn regroup regroup_step
    regroup_start
starts_unchecked = refl

-- A difference between two others is found.
others_checked :
    leaders (
      detect_core_clusters_by_heuristic unset 6 (
        processor 1800000 0x1004 0
        ∷ processor 2400000 0x1004 1
        ∷ processor 1800000 0x1004 2
        ∷ processor 2400000 0x1004 3
        ∷ processor 2400000 0x1004 4
        ∷ processor 2400000 0x1004 5
        ∷ []))
    ≡ some (0 ∷ 1 ∷ 2 ∷ 3 ∷ 4 ∷ 5 ∷ [], false)
unfolding detect_core_clusters_by_heuristic by_sizes after_verify verify verify_step verify_start
    verify_reported verify_assumed start_with check_all check learn regroup regroup_step
    regroup_start
others_checked = refl

-- The cluster of four.
count-led_by_example : count_at (count_cluster_processors six) 2 ≡ 4
count-led_by_example =
    count-led_by six 2 0 (processor 0 0x1400 0) (processor 0 0x1400 0) refl refl refl refl refl refl
