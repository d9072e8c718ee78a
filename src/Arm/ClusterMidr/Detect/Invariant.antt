-- ===== src/Arm/ClusterMidr/Detect/Invariant.antt =====
-- What holds of the variables after each round of the first loop of
-- `cpuinfo_arm_linux_detect_cluster_midr`.
use cpuinfo.Base.{
  ℕ, ◌<◌, ◌≤◌, Bool, true, false, List, ◌&&◌, ◌==◌, length, get_or, count_below, ◌≡◌, ◌⊎◌,
}
use cpuinfo.Arm.Processor.{Processor}
use cpuinfo.Arm.ClusterMidr.{clusters_max}
use cpuinfo.Arm.ClusterMidr.Detect.{Found, names_core}
use cpuinfo.Arm.ClusterMidr.Detect.Steps.{processor_at}
use cpuinfo.Arm.ClusterMidr.Detect.Learn.{is_valid, has_midr, Kept, IsComplete}

-- Every valid processor has its leader in the array, and is complete.
pub record IsReady (outside : Processor) (ps : List Processor) : Type 0 where
  pub led :
      (j : ℕ)
      → j < length ps
      → is_valid (get_or ps j outside) ≡ true
      → (get_or ps j outside).package_leader_id < length ps
  pub complete : (j : ℕ) → j < length ps → IsComplete (get_or ps j outside)

module _ (outside : Processor) (ps : List Processor) where
  abbrev pub given : ℕ → Processor
  given j = get_or ps j outside

  -- A valid processor that leads its cluster.
  abbrev pub leads : ℕ → Bool
  leads j = is_valid (given j) && (given j).package_leader_id == j

  abbrev pub valid_at : ℕ → Bool
  valid_at j = is_valid (given j)

  -- The array is as it was, but for what was added.
  pub record HasKept (s : Found) : Type 0 where
    pub size : length s.processors ≡ length ps
    pub kept : (j : ℕ) → j < length ps → Kept (given j) (processor_at outside s j)
    pub still_complete : (j : ℕ) → j < length ps → IsComplete (processor_at outside s j)

  -- A leader stands among the leaders of clusters, unless there are too many.
  abbrev pub Listed : Found → ℕ → Type 0
  Listed s j =
      (c : ℕ) × (c < s.clusters_count) × (s.clusters_count ≤ clusters_max → s.cluster_leaders c ≡ j)

  -- The last processor with a register, if any, and its leader have a register.
  abbrev pub LastHasMidr : Found → Type 0
  LastHasMidr s =
      (s.last_processor_with_midr < length ps)
      × (is_valid (given s.last_processor_with_midr) ≡ true)
      × (has_midr (processor_at outside s s.last_processor_with_midr) ≡ true)
      × (has_midr (processor_at outside s (given s.last_processor_with_midr).package_leader_id)
          ≡ true)

  abbrev pub NoneNamed : ℕ → Found → Type 0
  NoneNamed i s = (j : ℕ) → j < i → is_valid (given j) ≡ true → names_core (given j) ≡ false

  -- After the processors below `i`.
  pub record Invariant (i : ℕ) (s : Found) : Type 0 where
    pub has_kept : HasKept s
    pub clusters : s.clusters_count ≡ count_below leads i
    pub listed : (j : ℕ) → j < i → leads j ≡ true → Listed s j
    pub last : NoneNamed i s ⊎ LastHasMidr s
    pub counted : s.processors_with_midr_count ≤ count_below valid_at i
    pub all_counted :
        s.processors_with_midr_count ≡ count_below valid_at i
        → (j : ℕ) → j < i
        → is_valid (given j) ≡ true
        → has_midr (processor_at outside s j) ≡ true
