-- ===== src/Arm/ClusterMidr/Detect/Rounds.antt =====
-- Each round of the first loop of `cpuinfo_arm_linux_detect_cluster_midr` keeps what holds of its
-- variables.
use mathlib.Core.Path.{subst}
use cpuinfo.Base.{
  ℕ, zero, suc, ◌+◌, ◌<◌, ◌≤◌, Bool, true, false, List, ◌&&◌, ◌==◌, ==_iff, length, count_below,
  ◌≡◌, refl, sym, ap, ◌∙◌, arith, Bool-cases, inl, inr, ◌⊎◌,
}
use cpuinfo.Arm.Processor.{Processor}
use cpuinfo.Arm.ClusterMidr.Detect.{Found, names_core, find_step, find_clusters, start}
use cpuinfo.Arm.ClusterMidr.Detect.Steps.{
  processor_at, length-find_step, find_step-Kept, find_step-IsComplete, find_step-leader_has_midr,
  find_step-clusters_count, find_step-cluster_leaders, find_step-last_processor_with_midr,
  find_step-processors_with_midr_count,
}
use cpuinfo.Arm.ClusterMidr.Detect.Learn.{is_valid, has_midr, Kept, Kept-refl, Kept-trans}
use cpuinfo.Arm.ClusterMidr.Detect.Invariant.{
  IsReady, given, leads, valid_at, HasKept, Listed, LastHasMidr, NoneNamed, Invariant,
}

module _ (outside : Processor) (ps : List Processor) (ready : IsReady outside ps) where
  open ready use {led, complete}

  start-Invariant : (unset : ℕ → ℕ) → Invariant outside ps 0 (start unset ps)
  start-Invariant unset = record {
    has_kept = record {
      size = refl;
      kept = λ j _. Kept-refl (given outside ps j);
      still_complete = complete;
    };
    clusters = refl;
    listed = λ j h. absurd (omega arith);
    last = inl (λ j h. absurd (omega arith));
    counted = omega arith;
    all_counted = λ _ j h. absurd (omega arith);
  }

  module _ (i : ℕ) (s : Found) (below : i < length ps) (inv : Invariant outside ps i s) where
    open inv use {has_kept, clusters, listed, last, counted, all_counted}
    open has_kept use {size, kept, still_complete}

    abbrev next : Found
    next = find_step outside i s

    -- Below the length the array is read as it was (given outside ps).
    same_valid_at : is_valid (processor_at outside s i) ≡ is_valid (given outside ps i)
    same_valid_at = (kept i below).same_valid

    same_leader_at :
        (processor_at outside s i).package_leader_id ≡ (given outside ps i).package_leader_id
    same_leader_at = (kept i below).same_leader

    same_leads :
        (is_valid (processor_at outside s i) && (processor_at outside s i).package_leader_id == i)
        ≡ (leads outside ps) i
    same_leads = rw (same_valid_at, same_leader_at) refl

    step-Kept :
        (j : ℕ) → j < length ps → Kept (processor_at outside s j) (processor_at outside next j)
    step-Kept j h = find_step-Kept outside i s j (omega (arith, size))

    step-HasKept : HasKept outside ps next
    step-HasKept = record {
      size = length-find_step outside i s ∙ size;
      kept = λ j h. Kept-trans _ _ _ (kept j h) (step-Kept j h);
      still_complete =
          λ j h. find_step-IsComplete outside i s j (omega (arith, size)) (still_complete j h);
    }

    step-clusters : next.clusters_count ≡ count_below (leads outside ps) (suc i)
    step-clusters = ground (arith, find_step-clusters_count outside i s, same_leads, clusters)

    step-Listed : (j : ℕ) → j < suc i → leads outside ps j ≡ true → Listed outside ps next j
    step-Listed j h l = elim (Bool-cases (j == i)) [
      | inl e ↦
          let same : j ≡ i = (==_iff _ _).0 e in
          let leads_i : leads outside ps i ≡ true = ap (leads outside ps) (sym same) ∙ l in
          (
            s.clusters_count,
            ground (arith, find_step-clusters_count outside i s, same_leads),
            λ few. ground (
              arith,
              find_step-clusters_count outside i s,
              find_step-cluster_leaders outside i s s.clusters_count,
              same_leads,
            ),
          )
      | inr e ↦
          let (c, below_count, found) = listed j (ground arith) l in
          (
            c,
            ground (arith, find_step-clusters_count outside i s),
            λ few. ground (
              arith,
              find_step-clusters_count outside i s,
              find_step-cluster_leaders outside i s c,
              found,
            ),
          )
    ]

    -- Processor `i` is counted.
    abbrev named : Bool
    named = is_valid (processor_at outside s i) && names_core (processor_at outside s i)

    named_valid : named ≡ true → is_valid (given outside ps i) ≡ true
    named_valid h = ground (arith, same_valid_at)

    named_midr : named ≡ true → has_midr (processor_at outside s i) ≡ true
    named_midr h = still_complete i below (ground arith) (ground arith)

    -- It is the last with a register, and so has its leader.
    named-LastHasMidr : named ≡ true → LastHasMidr outside ps next
    named-LastHasMidr h =
        let at_i : next.last_processor_with_midr ≡ i =
          find_step-last_processor_with_midr outside i s ∙ rw h refl in
        let in_array : (processor_at outside s i).package_leader_id < length s.processors =
          omega (arith, same_leader_at, size, led i below (named_valid h)) in
        let leader =
          find_step-leader_has_midr outside i s in_array (omega (arith, size))
            (same_valid_at ∙ named_valid h) (named_midr h) in
        let leader_i : has_midr (processor_at outside next (given outside ps i).package_leader_id)
            ≡ true =
          ap (λ (k : ℕ). has_midr (processor_at outside next k)) (sym same_leader_at) ∙ leader in
        (
          rw at_i below,
          rw at_i (named_valid h),
          rw at_i ((step-Kept i below).keeps_midr (named_midr h)),
          rw at_i leader_i,
        )

    unnamed :
        named ≡ false
        → is_valid (given outside ps i) ≡ true
        → names_core (given outside ps i) ≡ false
    unnamed h v = elim (Bool-cases (names_core (given outside ps i))) [
      | inl n ↦
          let there : named ≡ true = rw (same_valid_at, v, (kept i below).keeps_core n) refl in cc
      | inr n ↦ n
    ]

    other-NoneNamed : named ≡ false → NoneNamed outside ps i s → NoneNamed outside ps (suc i) next
    other-NoneNamed h none_named j b v = elim (Bool-cases (j == i)) [
      | inl e ↦
          let same : j ≡ i = (==_iff _ _).0 e in
          rw same (unnamed h (ap (valid_at outside ps) (sym same) ∙ v))
      | inr e ↦ none_named j (ground arith) v
    ]

    other-LastHasMidr : named ≡ false → LastHasMidr outside ps s → LastHasMidr outside ps next
    other-LastHasMidr h (b, v, m, l) =
        let at_last : next.last_processor_with_midr ≡ s.last_processor_with_midr =
          find_step-last_processor_with_midr outside i s ∙ rw h refl in
        (
          rw at_last b,
          rw at_last v,
          rw at_last ((step-Kept _ b).keeps_midr m),
          rw at_last ((step-Kept _ (led _ b v)).keeps_midr l),
        )

    step-last : NoneNamed outside ps (suc i) next ⊎ LastHasMidr outside ps next
    step-last = elim (Bool-cases named) [
      | inl h ↦ inr (named-LastHasMidr h)
      | inr h ↦ elim last [
        | inl none_named ↦ inl (other-NoneNamed h none_named)
        | inr found ↦ inr (other-LastHasMidr h found)
      ]
    ]

    step-counted : next.processors_with_midr_count ≤ count_below (valid_at outside ps) (suc i)
    step-counted =
        ground (arith, find_step-processors_with_midr_count outside i s, same_valid_at, counted)

    -- If every valid processor is counted, those before `i` are, and processor `i` is if it is valid.
    step-all_counted :
        next.processors_with_midr_count ≡ count_below (valid_at outside ps) (suc i)
        → (j : ℕ) → j < suc i
        → is_valid (given outside ps j) ≡ true
        → has_midr (processor_at outside next j) ≡ true
    step-all_counted all j b v = elim (Bool-cases (j == i)) [
      | inl e ↦
          let same : j ≡ i = (==_iff _ _).0 e in
          let valid_i : is_valid (given outside ps i) ≡ true =
            ap (valid_at outside ps) (sym same) ∙ v in
          let here : named ≡ true =
            ground
              (arith, find_step-processors_with_midr_count outside i s, same_valid_at, counted) in
          rw same ((step-Kept i below).keeps_midr (named_midr here))
      | inr e ↦
          let before : s.processors_with_midr_count ≡ count_below (valid_at outside ps) i =
            ground
              (arith, find_step-processors_with_midr_count outside i s, same_valid_at, counted) in
          (step-Kept j (ground arith)).keeps_midr (all_counted before j (ground arith) v)
    ]

    step-Invariant : Invariant outside ps (suc i) next
    step-Invariant = record {
      has_kept = step-HasKept;
      clusters = step-clusters;
      listed = step-Listed;
      last = step-last;
      counted = step-counted;
      all_counted = step-all_counted;
    }

  find_clusters-from :
      (n i : ℕ) (s : Found)
      → i + n ≡ length ps
      → Invariant outside ps i s
      → Invariant outside ps (length ps) (find_clusters outside n i s)
  unfolding find_clusters
  find_clusters-from zero i s e inv =
      let done : i ≡ length ps = omega arith in
      subst (λ (k : ℕ). (Invariant outside ps) k s) done inv
  find_clusters-from (suc n) i s e inv =
      find_clusters-from n (suc i) _ (omega arith) (step-Invariant i s (omega arith) inv)

  pub find_clusters-Invariant :
      (unset : ℕ → ℕ)
      → Invariant outside ps (length ps) (find_clusters outside (length ps) 0 (start unset ps))
  find_clusters-Invariant unset =
      find_clusters-from (length ps) 0 _ (omega arith) (start-Invariant unset)
