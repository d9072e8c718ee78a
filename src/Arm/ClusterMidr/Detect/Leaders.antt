-- ===== src/Arm/ClusterMidr/Detect/Leaders.antt =====
-- The registers that `cpuinfo_arm_linux_detect_cluster_midr` leaves.
use mathlib.Core.Path.{subst}
use cpuinfo.Base.{
  ℕ, ◌<◌, ◌≤◌, bit_or, Bool, true, false, Option, none, some, List, ◌&&◌, ◌==◌, ltb, length, get_or,
  count_below, count_below-le, ◌≡◌, refl, sym, ap, ◌∙◌, arith, Bool-cases, inl, inr, false≢true,
}
use cpuinfo.Base.Bits.{bitmask_all_part}
use cpuinfo.Linux.Flags.{flag_valid}
use cpuinfo.Arm.Chipset.{Chipset}
use cpuinfo.Arm.Processor.{Processor, valid_midr}
use cpuinfo.Arm.Midr.Cores.{Arch}
use cpuinfo.Arm.ClusterMidr.{clusters_max}
use cpuinfo.Arm.ClusterMidr.Assigned.{midr_at}
use cpuinfo.Arm.ClusterMidr.Chipset.{detect_cluster_midr_by_chipset}
use cpuinfo.Arm.ClusterMidr.Chipset.Leaders.{AllGiven, by_chipset-AllGiven}
use cpuinfo.Arm.ClusterMidr.BigLittle.Leaders.{by_big_little-AllGiven}
use cpuinfo.Arm.ClusterMidr.Scan.{detect_cluster_midr_by_sequential_scan}
use cpuinfo.Arm.ClusterMidr.Scan.Leaders.{by_sequential_scan-midr_at, length-by_sequential_scan}
use cpuinfo.Arm.ClusterMidr.Detect.{
  Found, names_core, find_clusters, start, count_clusters_with_midr, or_else, fall_back,
  assign_unattributed, assign_missing, assign_midr, detect_cluster_midr,
}
use cpuinfo.Arm.ClusterMidr.Detect.Steps.{processor_at}
use cpuinfo.Arm.ClusterMidr.Detect.Learn.{is_valid}
use cpuinfo.Arm.ClusterMidr.Detect.Invariant.{IsReady, leads, valid_at, LastHasMidr, Invariant}
use cpuinfo.Arm.ClusterMidr.Detect.Rounds.{find_clusters-Invariant}
use cpuinfo.Arm.ClusterMidr.Detect.Counts.{
  led_with_midr, count_clusters_with_midr-count_below, count_valid, count_valid-count_below,
}

module _ (outside : Processor) (ps : List Processor) (ready : IsReady outside ps) where
  -- The array has its length, and each leader of a cluster has a register.
  pub record IsAssigned (qs : List Processor) : Type 0 where
    pub size : length qs ≡ length ps
    pub leaders_have_midr :
        (j : ℕ) → j < length ps → leads outside ps j ≡ true → midr_at outside qs j ≡ true

  module _ (s : Found) (inv : Invariant outside ps (length ps) s)
      (last : LastHasMidr outside ps s) where
    open inv use {has_kept, clusters, listed, counted, all_counted}
    open has_kept use {size, kept, still_complete}

    -- The processor whose register is copied has one.
    model_has_midr :
        midr_at outside s.processors
          (get_or s.processors s.last_processor_with_midr outside).package_leader_id
        ≡ true
    model_has_midr =
        let same = (kept s.last_processor_with_midr (last.0)).same_leader in
        ap (λ (k : ℕ). midr_at outside s.processors k) same ∙ last.3

    AllGiven-IsAssigned :
        (qs : List Processor)
        → s.clusters_count ≤ clusters_max
        → AllGiven outside s.clusters_count s.cluster_leaders s.processors qs
        → IsAssigned qs
    AllGiven-IsAssigned qs few (gain, all_given) = record {
      size = gain.size ∙ size;
      leaders_have_midr = λ j b l.
          let (c, in_count, found) = listed j b l in
          let same : s.cluster_leaders c ≡ j = found few in
          subst (λ (k : ℕ). midr_at outside qs k ≡ true) same
            (all_given c in_count (omega (arith, size)));
    }

    scan-IsAssigned :
        (midr : ℕ) → IsAssigned (detect_cluster_midr_by_sequential_scan midr s.processors)
    scan-IsAssigned midr = record {
      size = length-by_sequential_scan midr s.processors ∙ size;
      leaders_have_midr = λ j b l.
          by_sequential_scan-midr_at outside midr j s.processors (omega (arith, size))
            ((kept j b).same_valid ∙ ground arith) ((kept j b).same_leader ∙ ground arith);
    }

    -- An attempt, and what follows if it returns false.
    or_else-IsAssigned :
        (attempt : Option (List Processor)) (rest : List Processor)
        → ((qs : List Processor) → attempt ≡ some qs → IsAssigned qs)
        → IsAssigned rest
        → IsAssigned (or_else attempt rest)
    or_else-IsAssigned none rest h k = k
    or_else-IsAssigned (some qs) rest h k = h qs refl

    fall_back-IsAssigned :
        (with_midr : ℕ) (verify : Bool) → IsAssigned (fall_back outside s with_midr verify)
    unfolding fall_back
    fall_back-IsAssigned with_midr verify =
        or_else-IsAssigned _ _
          (λ qs h.
            let (two, all_given) =
              by_big_little-AllGiven outside s.cluster_leaders s.clusters_count with_midr
                s.last_processor_with_midr s.processors qs verify model_has_midr h in
            AllGiven-IsAssigned qs (omega arith) all_given)
          (scan-IsAssigned _)

    by_chipset-IsAssigned :
        (arch : Arch) (chipset : Chipset) (n : ℕ) (verify : Bool) (rest : List Processor)
        → IsAssigned rest
        → IsAssigned (
            or_else
              (detect_cluster_midr_by_chipset outside s.clusters_count s.cluster_leaders arch
                chipset n s.processors verify)
              rest)
    by_chipset-IsAssigned arch chipset n verify rest k =
        or_else-IsAssigned _ _
          (λ qs h.
            let (few, all_given) =
              by_chipset-AllGiven outside s.clusters_count s.cluster_leaders arch chipset n
                s.processors qs verify h in
            AllGiven-IsAssigned qs few all_given)
          k

    led_with_midr-leads :
        (k : ℕ)
        → k < length ps
        → led_with_midr outside 0 s.processors k ≡ true
        → leads outside ps k ≡ true
    led_with_midr-leads k b t =
        let valid =
          bitmask_all_part (processor_at outside s k).flags (bit_or flag_valid valid_midr)
            flag_valid refl (ground arith) in
        ground (arith, (kept k b).same_valid, (kept k b).same_leader)

    -- As many clusters have a register as there are.
    enough_clusters :
        s.clusters_count ≤ count_clusters_with_midr 0 s.processors → IsAssigned s.processors
    enough_clusters h = record {
      size = size;
      leaders_have_midr = λ j b l.
          let within =
            λ (k : ℕ) (b' : k < length ps) (t : led_with_midr outside 0 s.processors k ≡ true).
              led_with_midr-leads k b' t in
          let counts : count_below (leads outside ps) (length ps)
              ≤ count_below (led_with_midr outside 0 s.processors) (length ps) =
            omega (
              arith,
              clusters,
              count_clusters_with_midr-count_below outside 0 s.processors,
              ap (count_below (led_with_midr outside 0 s.processors)) size,
            ) in
          let found : led_with_midr outside 0 s.processors j ≡ true =
            count_below-le (led_with_midr outside 0 s.processors) (leads outside ps) (length ps)
              within counts j b l in
          bitmask_all_part (processor_at outside s j).flags (bit_or flag_valid valid_midr)
            valid_midr refl (ground arith);
    }

    all_counted-IsAssigned :
        count_below (valid_at outside ps) (length ps) ≤ s.processors_with_midr_count
        → IsAssigned s.processors
    all_counted-IsAssigned h = record {
      size = size;
      leaders_have_midr = λ j b l. all_counted (omega (arith, counted)) j b (ground arith);
    }

    assign_missing-IsAssigned :
        (arch : Arch) (chipset : Chipset) (usable : ℕ)
        → IsAssigned (assign_missing outside arch chipset (length ps) usable s)
    unfolding assign_missing
    assign_missing-IsAssigned arch chipset usable =
        let reported : (s.last_processor_with_midr == length ps) ≡ false =
          let below = last.0 in ground arith in
        elim (Bool-cases (ltb (count_clusters_with_midr 0 s.processors) s.clusters_count)) [
          | inl fewer ↦
              rw (fewer, reported)
                (by_chipset-IsAssigned arch chipset usable true _ (fall_back-IsAssigned _ true))
          | inr enough ↦ rw enough (enough_clusters (ground arith))
        ]

    assign_midr-IsAssigned :
        (arch : Arch) (chipset : Chipset) (usable : ℕ)
        → count_below (valid_at outside ps) (length ps) ≤ usable
        → IsAssigned (assign_midr outside arch chipset (length ps) usable s)
    unfolding assign_midr assign_unattributed
    assign_midr-IsAssigned arch chipset usable h =
        elim (Bool-cases (
          s.processors_with_midr_count == 1
          && s.last_processor_in_cpuinfo == s.last_processor_with_midr
          && ltb 1 s.clusters_count)) [
            | inl one ↦
                rw one
                  (by_chipset-IsAssigned arch chipset usable false _ (fall_back-IsAssigned 1 false))
            | inr many ↦ elim (Bool-cases (ltb s.processors_with_midr_count usable)) [
              | inl some_missing ↦
                  rw (many, some_missing) (assign_missing-IsAssigned arch chipset usable)
              | inr none_missing ↦ rw (many, none_missing) (all_counted-IsAssigned (ground arith))
            ]
          ]

-- The array as the function leaves it.
abbrev pub detected : Processor → (ℕ → ℕ) → Arch → Chipset → ℕ → List Processor → List Processor
detected outside unset arch chipset usable ps =
    (detect_cluster_midr outside unset arch chipset usable ps).1

module _ (outside : Processor) (unset : ℕ → ℕ) (arch : Arch) (chipset : Chipset) (usable : ℕ)
    (ps : List Processor) where
  pub detect-IsAssigned :
      (ready : IsReady outside ps) (j : ℕ)
      → j < length ps
      → is_valid (get_or ps j outside) ≡ true
      → names_core (get_or ps j outside) ≡ true
      → count_valid ps ≤ usable
      → IsAssigned outside ps ready (detected outside unset arch chipset usable ps)
  unfolding detect_cluster_midr
  detect-IsAssigned ready j b v n h =
      let inv = find_clusters-Invariant outside ps ready unset in
      let s = find_clusters outside (length ps) 0 (start unset ps) in
      let last : LastHasMidr outside ps s = elim (inv.last) [
        | inl none_named ↦ absurd (false≢true (sym (none_named j b v) ∙ n))
        | inr found ↦ found
      ] in
      assign_midr-IsAssigned outside ps ready s inv last arch chipset usable
        (omega (arith, count_valid-count_below outside ps))
