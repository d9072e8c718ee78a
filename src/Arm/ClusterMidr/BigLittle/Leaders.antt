-- ===== src/Arm/ClusterMidr/BigLittle/Leaders.antt =====
-- The leaders of clusters after a successful
-- `cpuinfo_arm_linux_detect_cluster_midr_by_big_little_heuristic`.
use mathlib.Core.Path.{subst}
use mathlib.Core.Option.{none-ne-some, some-injective}
use cpuinfo.Base.{
  ℕ, ◌<◌, bit_and, Bool, true, false, none, some, List, ==_iff, if◌then◌else◌, length, get_or, ◌≡◌,
  refl, arith, Bool-cases, inl, inr,
}
use cpuinfo.Arm.Processor.{Processor, valid_midr}
use cpuinfo.Arm.ClusterMidr.Assigned.{
  midr_at, IsGain, IsGain-refl, modify-IsGain, modify-midr_at, each_cluster-IsGain,
  each_cluster-midr_at,
}
use cpuinfo.Arm.ClusterMidr.Chipset.Leaders.{AllGiven}
use cpuinfo.Arm.ClusterMidr.BigLittle.{
  little_cluster_leader, guess_midr, detect_cluster_midr_by_big_little_heuristic,
}

passed {ℓ} :
    {A : Type ℓ} (a b : Bool) (x y : A)
    → (if a then none else if b then none else some x) ≡ some y
    → (a ≡ false) × (x ≡ y)
passed true b x y h = absurd (none-ne-some _ h)
passed false true x y h = absurd (none-ne-some _ h)
passed false false x y h = (refl, some-injective _ _ h)

module _ (outside : Processor) (cluster_leaders : ℕ → ℕ) where
  guess_midr-IsGain :
      (little big flags c : ℕ) (ps : List Processor)
      → IsGain outside ps (guess_midr outside cluster_leaders little big flags c ps)
  unfolding guess_midr
  guess_midr-IsGain little big flags c ps =
      elim (Bool-cases (midr_at outside ps (cluster_leaders c))) [
        | inl h ↦ rw h (IsGain-refl outside ps)
        | inr h ↦ rw h (modify-IsGain outside _ flags (cluster_leaders c) ps)
      ]

  guess_midr-midr_at :
      (little big c : ℕ) (ps : List Processor)
      → cluster_leaders c < length ps
      → midr_at outside
          (guess_midr outside cluster_leaders little big valid_midr c ps)
          (cluster_leaders c)
        ≡ true
  unfolding guess_midr
  guess_midr-midr_at little big c ps b =
      elim (Bool-cases (midr_at outside ps (cluster_leaders c))) [
        | inl h ↦ rw h h
        | inr h ↦ rw h (modify-midr_at outside _ (cluster_leaders c) ps b)
      ]

  -- The flags that are copied are all there, if the leader that is taken as the model has a register.
  pub by_big_little-AllGiven :
      (count with_midr last : ℕ) (ps qs : List Processor) (verify : Bool)
      → midr_at outside ps (get_or ps last outside).package_leader_id ≡ true
      → detect_cluster_midr_by_big_little_heuristic outside cluster_leaders count with_midr last ps
          verify
        ≡ some qs
      → (count ≡ 2) × AllGiven outside count cluster_leaders ps qs
  unfolding detect_cluster_midr_by_big_little_heuristic
  by_big_little-AllGiven count with_midr last ps qs verify known h =
      let known_flags : bit_and (get_or ps (get_or ps last outside).package_leader_id outside).flags
            valid_midr
          ≡ valid_midr =
        (==_iff _ _).0 known in
      let (two, assigned) = passed _ _ _ _ h in
      let little = little_cluster_leader outside cluster_leaders ps in
      let big = (get_or ps (get_or ps last outside).package_leader_id outside).midr in
      let gains = λ (c : ℕ) (rs : List Processor). guess_midr-IsGain little big valid_midr c rs in
      let gives = λ (c : ℕ) (rs : List Processor) (b : cluster_leaders c < length rs).
        guess_midr-midr_at little big c rs b in
      let given : AllGiven outside count cluster_leaders ps _ = (
        each_cluster-IsGain outside cluster_leaders _ gains gives count 0 ps,
        λ c b l.
            each_cluster-midr_at outside cluster_leaders _ gains gives count 0 c ps (omega arith)
              (omega arith) l,
      ) in
      (
        ground arith,
        subst (λ (rs : List Processor). AllGiven outside count cluster_leaders ps rs)
            (rw known_flags at assigned) given,
      )
