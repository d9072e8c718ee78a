-- ===== src/Arm/ClusterMidr/Chipset/Leaders.antt =====
-- The leaders of clusters after a successful `cpuinfo_arm_linux_detect_cluster_midr_by_chipset`.
use mathlib.Core.Path.{subst}
use mathlib.Core.Option.{none-ne-some, some-injective}
use cpuinfo.Base.{
  ℕ, ◌<◌, ◌≤◌, Bool, true, false, not, none, some, List, [], ◌∷◌, ◌&&◌, ◌||◌, ◌==◌, leb, leb→le,
  if◌then◌else◌, length, ◌≡◌, refl, arith, Bool-cases, inl, inr,
}
use cpuinfo.Arm.Chipset.{Chipset}
use cpuinfo.Arm.Processor.{Processor, valid_midr}
use cpuinfo.Arm.Midr.Cores.{Arch}
use cpuinfo.Arm.ClusterMidr.{clusters_max}
use cpuinfo.Arm.ClusterMidr.Assigned.{
  midr_at, IsGain, modify-IsGain, modify-midr_at, each_cluster-IsGain, each_cluster-midr_at,
}
use cpuinfo.Arm.ClusterMidr.Configs.{ClusterConfig, cluster_configs}
use cpuinfo.Arm.ClusterMidr.Chipset.{
  config_midr, config_matches, assign_config, use_config, search_configs,
  detect_cluster_midr_by_chipset,
}

-- A result that three tests let pass.
passed {ℓ} :
    {A : Type ℓ} (a b c : Bool) (x y : A)
    → (if a then none else if b then none else if c then none else some x) ≡ some y
    → (a ≡ false) × (b ≡ false) × (x ≡ y)
passed true b c x y h = absurd (none-ne-some _ h)
passed false true c x y h = absurd (none-ne-some _ h)
passed false false true x y h = absurd (none-ne-some _ h)
passed false false false x y h = (refl, refl, some-injective _ _ h)

module _ (outside : Processor) (clusters_count : ℕ) (cluster_leaders : ℕ → ℕ) where
  -- No register is lost, and the leaders of the clusters have one.
  abbrev pub AllGiven : List Processor → List Processor → Type 0
  AllGiven ps qs =
      IsGain outside ps qs
      × ((c : ℕ)
          → c < clusters_count
          → cluster_leaders c < length ps
          → midr_at outside qs (cluster_leaders c) ≡ true)

  assign_config-AllGiven :
      (config : ClusterConfig) (ps : List Processor)
      → AllGiven ps (assign_config outside clusters_count cluster_leaders config ps)
  unfolding assign_config
  assign_config-AllGiven config ps =
      let gains = λ (c : ℕ) (qs : List Processor).
        modify-IsGain outside (config_midr config c) valid_midr (cluster_leaders c) qs in
      let gives = λ (c : ℕ) (qs : List Processor) (b : cluster_leaders c < length qs).
        modify-midr_at outside (config_midr config c) (cluster_leaders c) qs b in
      (
        each_cluster-IsGain outside cluster_leaders _ gains gives clusters_count 0 ps,
        λ c b l.
            each_cluster-midr_at outside cluster_leaders _ gains gives clusters_count 0 c ps
              (omega arith) (omega arith) l,
      )

  -- What the line of the chipset agrees with, if it is used.
  pub use_config-some :
      (config : ClusterConfig) (n : ℕ) (ps qs : List Processor) (verify : Bool)
      → use_config outside clusters_count cluster_leaders config n ps verify ≡ some qs
      → ((not (config.cores == n) || not (config.clusters == clusters_count)) ≡ false)
        × (not (config_matches outside clusters_count cluster_leaders config ps) ≡ false)
        × (assign_config outside clusters_count cluster_leaders config ps ≡ qs)
  unfolding use_config
  use_config-some config n ps qs verify h = passed _ _ _ _ _ h

  search_configs-AllGiven :
      (configs : List ClusterConfig) (chipset : Chipset) (n : ℕ) (ps qs : List Processor)
      (verify : Bool)
      → search_configs outside clusters_count cluster_leaders configs chipset n ps verify ≡ some qs
      → AllGiven ps qs
  unfolding search_configs
  search_configs-AllGiven [] chipset n ps qs verify h = absurd (none-ne-some _ h)
  search_configs-AllGiven (config ∷ configs) chipset n ps qs verify h =
      elim (Bool-cases (config.model == chipset.model && config.series == chipset.series)) [
        | inl e ↦
            let (_, _, assigned) = use_config-some config n ps qs verify (rw e at h) in
            subst (λ (rs : List Processor). AllGiven ps rs) assigned
              (assign_config-AllGiven config ps)
        | inr e ↦ search_configs-AllGiven configs chipset n ps qs verify (rw e at h)
      ]

  pub by_chipset-AllGiven :
      (arch : Arch) (chipset : Chipset) (n : ℕ) (ps qs : List Processor) (verify : Bool)
      → detect_cluster_midr_by_chipset outside clusters_count cluster_leaders arch chipset n ps
          verify
        ≡ some qs
      → (clusters_count ≤ clusters_max) × AllGiven ps qs
  unfolding detect_cluster_midr_by_chipset
  by_chipset-AllGiven arch chipset n ps qs verify h =
      elim (Bool-cases (leb clusters_count clusters_max)) [
        | inl e ↦ (
          leb→le _ _ e,
          search_configs-AllGiven (cluster_configs arch) chipset n ps qs verify (rw e at h),
        )
        | inr e ↦ absurd (none-ne-some _ (rw e at h))
      ]
