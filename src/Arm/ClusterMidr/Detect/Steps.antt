-- ===== src/Arm/ClusterMidr/Detect/Steps.antt =====
-- One round of the first loop of `cpuinfo_arm_linux_detect_cluster_midr`, variable by variable.
use cpuinfo.Base.{
  ℕ, ◌+◌, ◌<◌, Bool, true, false, not, ◌&&◌, ◌==◌, ==_iff, ltb, if◌then◌else◌, length, get_or,
  modify, length-modify, get_or-modify, ◌≡◌, refl, arith, Bool-cases, inl, inr,
}
use cpuinfo.Arm.Processor.{Processor}
use cpuinfo.Arm.ClusterMidr.{clusters_max}
use cpuinfo.Arm.ClusterMidr.Detect.{Found, names_core, note_processor, note_cluster, find_step}
use cpuinfo.Arm.ClusterMidr.Detect.Learn.{
  is_valid, has_midr, Kept, Kept-refl, IsComplete, learn, learn-Kept, learn-has_midr,
  learn-IsComplete,
}

if-Kept : {p q r : Processor} (b : Bool) → Kept p q → Kept p r → Kept p (if b then q else r)
if-Kept true h k = h
if-Kept false h k = k

if-IsComplete :
    (q r : Processor) (b : Bool) → IsComplete q → IsComplete r → IsComplete (if b then q else r)
if-IsComplete q r true h k = h
if-IsComplete q r false h k = k

module _ (outside : Processor) where
  abbrev pub processor_at : Found → ℕ → Processor
  processor_at s j = get_or s.processors j outside

  module _ (i : ℕ) (s : Found) where
    find_step-processors : (find_step outside i s).processors ≡ (
        if is_valid (processor_at s i) && not ((processor_at s i).package_leader_id == i)
        then modify (learn (processor_at s i)) (processor_at s i).package_leader_id s.processors
        else s.processors)
    unfolding find_step note_cluster note_processor
    find_step-processors = ground arith

    pub length-find_step : length (find_step outside i s).processors ≡ length s.processors
    length-find_step = ground (
      arith,
      find_step-processors,
      length-modify (learn (processor_at s i)) (processor_at s i).package_leader_id s.processors,
    )

    -- A processor learns something if it leads the cluster of another, processor `i`.
    pub find_step-processor_at :
        (j : ℕ)
        → j < length s.processors
        → processor_at (find_step outside i s) j ≡ (
            if (is_valid (processor_at s i) && not ((processor_at s i).package_leader_id == i))
              && (processor_at s i).package_leader_id == j
            then learn (processor_at s i) (processor_at s j)
            else processor_at s j)
    find_step-processor_at j h = ground (
      arith,
      find_step-processors,
      get_or-modify (learn (processor_at s i)) (processor_at s i).package_leader_id j s.processors
          outside h,
    )

    pub find_step-Kept :
        (j : ℕ)
        → j < length s.processors
        → Kept (processor_at s j) (processor_at (find_step outside i s) j)
    find_step-Kept j h = rw (find_step-processor_at j h) (
        if-Kept _ (learn-Kept (processor_at s i) (processor_at s j)) (Kept-refl (processor_at s j)))

    pub find_step-IsComplete :
        (j : ℕ)
        → j < length s.processors
        → IsComplete (processor_at s j)
        → IsComplete (processor_at (find_step outside i s) j)
    find_step-IsComplete j h c =
        rw (find_step-processor_at j h)
          (if-IsComplete _ _ _ (learn-IsComplete (processor_at s i) (processor_at s j) c) c)

    -- The leader of processor `i` has a register if the processor has.
    pub find_step-leader_has_midr :
        (processor_at s i).package_leader_id < length s.processors
        → i < length s.processors
        → is_valid (processor_at s i) ≡ true
        → has_midr (processor_at s i) ≡ true
        → has_midr (processor_at (find_step outside i s) (processor_at s i).package_leader_id)
          ≡ true
    find_step-leader_has_midr h b v m =
        elim (Bool-cases ((processor_at s i).package_leader_id == i)) [
          | inl e ↦
              let same : (processor_at s i).package_leader_id ≡ i = (==_iff _ _).0 e in
              rw same ((find_step-Kept i b).keeps_midr m)
          | inr e ↦
              let self : ((processor_at s i).package_leader_id
                    == (processor_at s i).package_leader_id)
                  ≡ true =
                (==_iff _ _).1 refl in
              rw (find_step-processor_at (processor_at s i).package_leader_id h, v, e, self)
                (learn-has_midr (processor_at s i) _ m)
        ]

    pub find_step-clusters_count : (find_step outside i s).clusters_count ≡ (
        if is_valid (processor_at s i) && (processor_at s i).package_leader_id == i
        then s.clusters_count + 1
        else s.clusters_count)
    unfolding find_step note_cluster note_processor
    find_step-clusters_count = ground arith

    pub find_step-cluster_leaders :
        (c : ℕ)
        → (find_step outside i s).cluster_leaders c ≡ (
            if (is_valid (processor_at s i) && (processor_at s i).package_leader_id == i)
              && (ltb s.clusters_count clusters_max && c == s.clusters_count)
            then i
            else s.cluster_leaders c)
    unfolding find_step note_cluster note_processor
    find_step-cluster_leaders c = ground arith

    pub find_step-last_processor_with_midr : (find_step outside i s).last_processor_with_midr ≡ (
        if is_valid (processor_at s i) && names_core (processor_at s i)
        then i
        else s.last_processor_with_midr)
    unfolding find_step note_cluster note_processor
    find_step-last_processor_with_midr = ground arith

    pub find_step-processors_with_midr_count :
        (find_step outside i s).processors_with_midr_count ≡ (
          if is_valid (processor_at s i) && names_core (processor_at s i)
          then s.processors_with_midr_count + 1
          else s.processors_with_midr_count)
    unfolding find_step note_cluster note_processor
    find_step-processors_with_midr_count = ground arith
