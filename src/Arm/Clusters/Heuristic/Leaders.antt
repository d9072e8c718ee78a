-- ===== src/Arm/Clusters/Heuristic/Leaders.antt =====
-- What the heuristic does with clusters that the kernel reported.
use cpuinfo.Base.{
  ℕ, ◌+◌, Bool, true, false, Option, none, some, List, [], ◌∷◌, ◌==◌, ==_iff, has, bitmask_all,
  get_elem?, ◌≡◌, refl, sym, ap, ◌∙◌, arith, Bool-cases, inl, inr, All,
}
use cpuinfo.Linux.Flags.{flag_valid, flag_package_cluster}
use cpuinfo.Arm.Processor.{Processor}
use cpuinfo.Arm.Clusters.Heuristic.{
  cluster_sizes, VerifyState, Verdict, passed, contradicted, read_unset, verify, RegroupState,
  regroup_start, regroup_step, prepend, regroup, with_status, after_verify, by_sizes,
  detect_core_clusters_by_heuristic,
}
use cpuinfo.Arm.Clusters.Heuristic.Sizes.{count_valid, sum, IsSize, Leaves, verify-Leaves}
use cpuinfo.Arm.Clusters.Heuristic.Passes.{RegroupedAll, verify-RegroupedAll}

-- The sizes add up to the number of processors.
abbrev FitsCount : ℕ → Option (List ℕ) → Type 0
FitsCount usable none = Unit
FitsCount usable (some sizes) = (sum sizes ≡ usable) × All IsSize sizes

sizes_cases :
    (usable : ℕ) (ten eight six : Bool)
    → (usable == 10) ≡ ten
    → (usable == 8) ≡ eight
    → (usable == 6) ≡ six
    → FitsCount usable (cluster_sizes usable)
sizes_cases usable true eight six t e s =
    let is : usable ≡ 10 = (==_iff usable 10).0 t in
    rw t (
      omega arith,
      ((omega arith, omega arith), ((omega arith, omega arith), ((omega arith, omega arith), tt))),
    )
sizes_cases usable false true six t e s =
    let is : usable ≡ 8 = (==_iff usable 8).0 e in
    rw (t, e) (omega arith, ((omega arith, omega arith), ((omega arith, omega arith), tt)))
sizes_cases usable false false true t e s =
    let is : usable ≡ 6 = (==_iff usable 6).0 s in
    rw (t, e, s) (omega arith, ((omega arith, omega arith), ((omega arith, omega arith), tt)))
sizes_cases usable false false false t e s = rw (t, e, s) tt

-- Before the first cluster starts, the value of `cluster_start` has no part in the second pass.
abbrev before_first : List ℕ → ℕ → RegroupState
before_first sizes start = record {
  sizes = sizes;
  expected_cluster_processors = 0;
  cluster_start = start;
}

regroup-start :
    (i : ℕ) (sizes : List ℕ) (a b : ℕ) (p : Processor) (ps : List Processor)
    → bitmask_all p.flags flag_valid ≡ true
    → regroup i (before_first sizes a) (p ∷ ps) ≡ regroup i (before_first sizes b) (p ∷ ps)
unfolding regroup regroup_step regroup_start
regroup-start i [] a b p ps v = rw (v, regroup) refl
regroup-start i (n ∷ sizes) a b p ps v = rw (v, regroup) refl

regroup-left :
    (i : ℕ) (s : RegroupState) (p : Processor) (ps : List Processor)
    → bitmask_all p.flags flag_valid ≡ false
    → regroup i s (p ∷ ps) ≡ prepend p (regroup (i + 1) s ps)
unfolding regroup regroup_step
regroup-left i s p ps v = rw (v, regroup) refl

regroup_unset :
    (ps : List Processor) (i : ℕ) (sizes : List ℕ) (a b : ℕ)
    → regroup i (before_first sizes a) ps ≡ regroup i (before_first sizes b) ps
unfolding regroup
regroup_unset [] i sizes a b = refl
regroup_unset (p ∷ ps) i sizes a b = elim (Bool-cases (bitmask_all p.flags flag_valid)) [
  | inl v ↦ regroup-start i sizes a b p ps v
  | inr v ↦
      regroup-left i (before_first sizes a) p ps v
      ∙ ap (prepend p) (regroup_unset ps (i + 1) sizes a b)
      ∙ sym (regroup-left i (before_first sizes b) p ps v)
]

-- The state at the start of the first pass.
abbrev at_start : List ℕ → VerifyState → VerifyState
at_start sizes unset = record unset { sizes = sizes; expected_cluster_processors = 0 }

-- A result with the leader of a processor as it was.
abbrev KeepsLeader : Option (List Processor × Bool) → ℕ → Processor → Type 0
KeepsLeader result k p =
    (ps' : List Processor) × (status : Bool) × (p' : Processor) × (result ≡ some (ps', status))
    × (get_elem? ps' k ≡ some p')
    × (p'.package_leader_id ≡ p.package_leader_id)

passed-keeps :
    (sizes : List ℕ) (unset s : VerifyState) (ps : List Processor) (k : ℕ) (p : Processor)
    → get_elem? ps k ≡ some p
    → has p.flags flag_package_cluster ≡ true
    → RegroupedAll 0 (at_start sizes unset) ps
    → KeepsLeader (after_verify sizes ps (passed s)) k p
unfolding after_verify
passed-keeps sizes unset s ps k p f h all =
    let (p', found, leader) = all.kept k p f h in
    (
      all.afters,
      true,
      p',
      ap with_status (regroup_unset ps 0 sizes s.cluster_start unset.cluster_start ∙ all.result),
      found,
      leader,
    )

verdict-keeps :
    (sizes : List ℕ) (unset : VerifyState) (ps : List Processor) (k : ℕ) (p : Processor)
    (v : Verdict)
    → get_elem? ps k ≡ some p
    → has p.flags flag_package_cluster ≡ true
    → verify 0 (at_start sizes unset) ps ≡ v
    → Leaves 0 v
    → KeepsLeader (after_verify sizes ps v) k p
unfolding after_verify
verdict-keeps sizes unset ps k p (passed s) f h e places =
    passed-keeps sizes unset s ps k p f h (verify-RegroupedAll ps 0 (at_start sizes unset) s e)
verdict-keeps sizes unset ps k p contradicted f h e places = (ps, false, p, refl, f, refl)
verdict-keeps sizes unset ps k p read_unset f h e places = absurd places

sizes-keeps :
    (sizes : Option (List ℕ)) (unset : VerifyState) (ps : List Processor) (k : ℕ) (p : Processor)
    → FitsCount (count_valid ps) sizes
    → get_elem? ps k ≡ some p
    → has p.flags flag_package_cluster ≡ true
    → KeepsLeader (by_sizes sizes unset ps) k p
unfolding by_sizes after_verify
sizes-keeps none unset ps k p fits f h = (ps, false, p, refl, f, refl)
sizes-keeps (some sizes) unset ps k p fits f h =
    verdict-keeps sizes unset ps k p _ f h refl
      (verify-Leaves ps 0 (at_start sizes unset) (omega arith, omega arith, fits.1))

-- If the number of usable processors is right, the function returns, with no read of a cluster size
-- that is not set; and a processor that the kernel put into a cluster has the leader that it had,
-- whether the function assigns clusters or fails.
pub heuristic-keeps_leader :
    (unset : VerifyState) (usable : ℕ) (ps : List Processor) (k : ℕ) (p : Processor)
    → count_valid ps ≡ usable
    → get_elem? ps k ≡ some p
    → has p.flags flag_package_cluster ≡ true
    → (ps' : List Processor) × (status : Bool) × (p' : Processor)
      × (detect_core_clusters_by_heuristic unset usable ps ≡ some (ps', status))
      × (get_elem? ps' k ≡ some p')
      × (p'.package_leader_id ≡ p.package_leader_id)
unfolding detect_core_clusters_by_heuristic
heuristic-keeps_leader unset usable ps k p count f h = rw (sym count) (
    sizes-keeps (cluster_sizes (count_valid ps)) unset ps k p
      (sizes_cases (count_valid ps) _ _ _ refl refl refl) f h)
