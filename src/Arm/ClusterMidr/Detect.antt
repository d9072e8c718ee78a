-- ===== src/Arm/ClusterMidr/Detect.antt =====
-- `cpuinfo_arm_linux_detect_cluster_midr` of src/arm/linux/midr.c.
pub mod Learn
pub mod Steps
pub mod Invariant
pub mod Rounds
pub mod Counts
pub mod Leaders
pub mod Result
use cpuinfo.Base.{
  ℕ, zero, suc, ◌+◌, bit_and, bit_or, Bool, true, false, not, Option, none, some, List, [], ◌∷◌,
  ◌&&◌, ◌==◌, ltb, if◌then◌else◌, not32, has, bitmask_all, length, get_or, modify,
}
use cpuinfo.Linux.Flags.{flag_valid, flag_max_frequency}
use cpuinfo.Arm.Chipset
use cpuinfo.Arm.Chipset.{Chipset}
use cpuinfo.Arm.Processor.{Processor, valid_implementer, valid_part, valid_processor, valid_midr}
use cpuinfo.Arm.Midr.Cores.{Arch}
use cpuinfo.Arm.ClusterMidr.{clusters_max, put_midr}
use cpuinfo.Arm.ClusterMidr.Chipset.{detect_cluster_midr_by_chipset}
use cpuinfo.Arm.ClusterMidr.BigLittle.{detect_cluster_midr_by_big_little_heuristic}
use cpuinfo.Arm.ClusterMidr.Scan.{detect_cluster_midr_by_sequential_scan}

-- The variables of the first loop, and the array.
pub record Found : Type 0 where
  pub clusters_count : ℕ
  pub cluster_leaders : ℕ → ℕ
  pub last_processor_in_cpuinfo : ℕ
  pub last_processor_with_midr : ℕ
  pub processors_with_midr_count : ℕ
  pub processors : List Processor

-- What a cluster's leader learns of another processor of the cluster: the frequency, then the register.
unfoldable pub learn_frequency : Processor → Processor → Processor
learn_frequency p leader =
    if has (bit_and p.flags (not32 leader.flags)) flag_max_frequency
    then record leader {
      max_frequency = p.max_frequency;
      flags = bit_or leader.flags flag_max_frequency;
    }
    else leader

unfoldable pub learn_midr : Processor → Processor → Processor
learn_midr p leader =
    if not (bitmask_all leader.flags valid_midr) && bitmask_all p.flags valid_midr
    then put_midr p.midr valid_midr leader
    else leader

-- What the loop asks of a processor with a register: its implementer and its part are known.
abbrev pub names_core : Processor → Bool
names_core p = bitmask_all p.flags (bit_or valid_implementer valid_part)

-- The counts and the last indices, for the processor `i`.
unfoldable pub note_processor : ℕ → Processor → Found → Found
note_processor i p s = record s {
  last_processor_in_cpuinfo =
      if has p.flags valid_processor then i else s.last_processor_in_cpuinfo;
  last_processor_with_midr = if names_core p then i else s.last_processor_with_midr;
  processors_with_midr_count =
      if names_core p then s.processors_with_midr_count + 1 else s.processors_with_midr_count;
}

-- The leader of a cluster is noted, another processor tells its leader what it knows.
unfoldable pub note_cluster : ℕ → Processor → Found → Found
unfolding learn_frequency learn_midr
note_cluster i p s =
    if p.package_leader_id == i
    then record s {
      cluster_leaders = λ c.
          if ltb s.clusters_count clusters_max && c == s.clusters_count
          then i
          else s.cluster_leaders c;
      clusters_count = s.clusters_count + 1;
    }
    else record s {
      processors =
          modify (λ leader. learn_midr p (learn_frequency p leader)) p.package_leader_id
            s.processors;
    }

-- The variables before the first loop.
abbrev pub start : (ℕ → ℕ) → List Processor → Found
start unset processors = record {
  clusters_count = 0;
  cluster_leaders = unset;
  last_processor_in_cpuinfo = length processors;
  last_processor_with_midr = length processors;
  processors_with_midr_count = 0;
  processors = processors;
}

-- `clusters_with_midr_count`, from processor `i` on.
unfoldable pub count_clusters_with_midr : ℕ → List Processor → ℕ
count_clusters_with_midr i [] = 0
count_clusters_with_midr i (p ∷ ps) =
    (if bitmask_all p.flags (bit_or flag_valid valid_midr) && p.package_leader_id == i
      then 1
      else 0)
    + count_clusters_with_midr (suc i) ps

-- `if (f(…)) return …;` before what follows.
abbrev pub or_else : Option (List Processor) → List Processor → List Processor
or_else (some ps) rest = ps
or_else none rest = rest

module _ (outside : Processor) where
  unfoldable pub find_step : ℕ → Found → Found
  unfolding note_processor note_cluster
  find_step i s =
      let p = get_or s.processors i outside in
      if bitmask_all p.flags flag_valid then note_cluster i p (note_processor i p s) else s

  -- The loop from processor `i` on, of which `n` are left.
  unfoldable pub find_clusters : ℕ → ℕ → Found → Found
  unfolding find_step
  find_clusters zero i s = s
  find_clusters (suc n) i s = find_clusters n (suc i) (find_step i s)

  -- The processor whose register is given to clusters without one.
  abbrev pub leader_of_last : Found → Processor
  leader_of_last s =
      get_or s.processors (get_or s.processors s.last_processor_with_midr outside).package_leader_id
        outside

  -- The attempt behind that by the chipset: the heuristic, and the scan if it returns false. The second
  -- argument is what is passed for `cluster_with_midr_count`.
  unfoldable pub fall_back : Found → ℕ → Bool → List Processor
  fall_back s with_midr_count verify_midr =
      or_else
        (detect_cluster_midr_by_big_little_heuristic outside s.cluster_leaders s.clusters_count
          with_midr_count s.last_processor_with_midr s.processors verify_midr)
        (detect_cluster_midr_by_sequential_scan (leader_of_last s).midr s.processors)

  -- The first branch: the only register may be that of any processor.
  unfoldable pub assign_unattributed : Arch → Chipset → ℕ → Found → List Processor
  assign_unattributed arch chipset usable_processors s =
      or_else
        (detect_cluster_midr_by_chipset outside s.clusters_count s.cluster_leaders arch chipset
          usable_processors s.processors false)
        (fall_back s 1 false)

  -- The second branch: some clusters may have none.
  unfoldable pub assign_missing : Arch → Chipset → ℕ → ℕ → Found → List Processor
  assign_missing arch chipset max_processors usable_processors s =
      if ltb (count_clusters_with_midr 0 s.processors) s.clusters_count
      then or_else
          (detect_cluster_midr_by_chipset outside s.clusters_count s.cluster_leaders arch chipset
            usable_processors s.processors true)
          (if not (s.last_processor_with_midr == max_processors)
            then fall_back s s.processors_with_midr_count true
            else s.processors)
      else s.processors

  unfoldable pub assign_midr : Arch → Chipset → ℕ → ℕ → Found → List Processor
  assign_midr arch chipset max_processors usable_processors s =
      if s.processors_with_midr_count == 1
        && s.last_processor_in_cpuinfo == s.last_processor_with_midr
        && ltb 1 s.clusters_count
      then assign_unattributed arch chipset usable_processors s
      else if ltb s.processors_with_midr_count usable_processors
      then assign_missing arch chipset max_processors usable_processors s
      else s.processors

  -- The number of clusters, and the array.
  unfoldable pub detect_cluster_midr :
      (ℕ → ℕ) → Arch → Chipset → ℕ → List Processor → ℕ × List Processor
  detect_cluster_midr unset arch chipset usable_processors processors =
      let s = find_clusters (length processors) 0 (start unset processors) in
      (s.clusters_count, assign_midr arch chipset (length processors) usable_processors s)
