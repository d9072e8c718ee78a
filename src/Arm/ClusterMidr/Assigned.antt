-- ===== src/Arm/ClusterMidr/Assigned.antt =====
-- Leaders of clusters that are given a register, by the loops over the clusters of
-- src/arm/linux/midr.c.
use cpuinfo.Base.{
  ℕ, zero, suc, ◌+◌, ◌<◌, ◌≤◌, Bool, true, List, ◌==◌, ==_iff, bitmask_all, length, get_or, modify,
  length-modify, get_or-modify, ◌≡◌, refl, ap, ◌∙◌, arith, Bool-cases, inl, inr,
}
use cpuinfo.Base.Bits.{bitmask_all-or_self, bitmask_all-or_mono}
use cpuinfo.Arm.Processor.{Processor, valid_midr}
use cpuinfo.Arm.ClusterMidr.{each_cluster, put_midr}

-- The processor at an index has a register.
abbrev pub midr_at : Processor → List Processor → ℕ → Bool
midr_at outside ps j = bitmask_all (get_or ps j outside).flags valid_midr

module _ (outside : Processor) where
  -- A change of the array that takes no register away.
  pub record IsGain (ps qs : List Processor) : Type 0 where
    pub size : length qs ≡ length ps
    pub keeps : (j : ℕ) → j < length ps → midr_at outside ps j ≡ true → midr_at outside qs j ≡ true

  pub IsGain-refl : (ps : List Processor) → IsGain ps ps
  IsGain-refl ps = record { size = refl; keeps = λ j b h. h }

  pub IsGain-trans : (ps qs rs : List Processor) → IsGain ps qs → IsGain qs rs → IsGain ps rs
  IsGain-trans ps qs rs g k = record {
    size = k.size ∙ g.size;
    keeps = λ j b h. k.keeps j (omega (arith, g.size)) (g.keeps j b h);
  }

  pub modify-IsGain :
      (midr flags leader : ℕ) (ps : List Processor)
      → IsGain ps (modify (put_midr midr flags) leader ps)
  modify-IsGain midr flags leader ps = record {
    size = length-modify (put_midr midr flags) leader ps;
    keeps = λ j b h.
        rw (get_or-modify (put_midr midr flags) leader j ps outside b)
          (elim (Bool-cases (leader == j)) [
            | inl e ↦ rw e (bitmask_all-or_mono (get_or ps j outside).flags flags valid_midr h)
            | inr e ↦ rw e h
          ]);
  }

  pub modify-midr_at :
      (midr leader : ℕ) (ps : List Processor)
      → leader < length ps
      → midr_at outside (modify (put_midr midr valid_midr) leader ps) leader ≡ true
  modify-midr_at midr leader ps b =
      let self : (leader == leader) ≡ true = (==_iff leader leader).1 refl in
      rw (get_or-modify (put_midr midr valid_midr) leader leader ps outside b, self)
        (bitmask_all-or_self (get_or ps leader outside).flags valid_midr)

  -- A loop whose body gives the leader of each cluster a register.
  module _ (cluster_leaders : ℕ → ℕ) (body : ℕ → List Processor → List Processor)
      (gains : (c : ℕ) (ps : List Processor) → IsGain ps (body c ps))
      (gives : (c : ℕ) (ps : List Processor)
        → cluster_leaders c < length ps
        → midr_at outside (body c ps) (cluster_leaders c) ≡ true) where
    pub each_cluster-IsGain : (n c : ℕ) (ps : List Processor) → IsGain ps (each_cluster body n c ps)
    each_cluster-IsGain zero c ps = IsGain-refl ps
    each_cluster-IsGain (suc n) c ps =
        IsGain-trans _ _ _ (gains c ps) (each_cluster-IsGain n (suc c) (body c ps))

    pub each_cluster-midr_at :
        (n c k : ℕ) (ps : List Processor)
        → c ≤ k
        → k < c + n
        → cluster_leaders k < length ps
        → midr_at outside (each_cluster body n c ps) (cluster_leaders k) ≡ true
    each_cluster-midr_at zero c k ps lo hi b = absurd (omega arith)
    each_cluster-midr_at (suc n) c k ps lo hi b =
        let same_size = (gains c ps).size in
        let b' : cluster_leaders k < length (body c ps) = omega arith in
        elim (Bool-cases (c == k)) [
          | inl e ↦
              let same : c ≡ k = (==_iff _ _).0 e in
              let now = gives k ps b in
              let given : midr_at outside (body c ps) (cluster_leaders k) ≡ true =
                ap (λ (m : ℕ). midr_at outside (body m ps) (cluster_leaders k)) same ∙ now in
              (each_cluster-IsGain n (suc c) (body c ps)).keeps (cluster_leaders k) b' given
          | inr e ↦ each_cluster-midr_at n (suc c) k (body c ps) (ground arith) (omega arith) b'
        ]
