-- ===== src/Arm/Clusters/Heuristic/Passes.antt =====
-- The two passes side by side: when the first passes, the second leaves what the kernel reported.
use mathlib.Core.Option.{none-ne-some, some-injective}
use cpuinfo.Base.{
  ℕ, zero, suc, ◌+◌, bit_or, Bool, true, false, some, List, [], ◌∷◌, ◌==◌, ==_iff, if◌then◌else◌,
  has, bitmask_all, get_elem?, ◌≡◌, refl, sym, ap, ◌∙◌, false≢true,
}
use cpuinfo.Linux.Flags.{flag_valid, flag_package_cluster}
use cpuinfo.Arm.Processor.{Processor}
use cpuinfo.Arm.Clusters.Details.{Cluster, check_all, details}
use cpuinfo.Arm.Clusters.Heuristic.{
  VerifyState, Verdict, passed, contradicted, read_unset, decrement, start_with, verify_start,
  verify_reported, verify_assumed, verify_step, verify, RegroupState, regroup_step, regroup,
}

-- The variables of the second pass where the first has the same.
abbrev pub synced : VerifyState → RegroupState
synced s = record {
  sizes = s.sizes;
  expected_cluster_processors = s.expected_cluster_processors;
  cluster_start = s.cluster_start;
}

-- What the second pass does with a processor that passed the first: the processor as it stays or
-- becomes, with the leader as it was if the kernel reported one.
record Regrouped (i : ℕ) (p : Processor) (s s' : VerifyState) : Type 0 where
  after : Processor
  result : regroup_step i p (synced s) ≡ some (after, synced s')
  kept : has p.flags flag_package_cluster ≡ true → after.package_leader_id ≡ p.package_leader_id

-- A step of the first pass that is passed is also one of the second.
abbrev Follows : ℕ → Processor → VerifyState → Verdict → Type 0
Follows i p s contradicted = Unit
Follows i p s read_unset = Unit
Follows i p s (passed s') = Regrouped i p s s'

start-Follows :
    (i : ℕ) (p : Processor) (s : VerifyState) (sizes : List ℕ) (reported : Bool) (c : Cluster)
    → s.sizes ≡ sizes
    → bitmask_all p.flags flag_valid ≡ true
    → (s.expected_cluster_processors == 0) ≡ true
    → Follows i p s (start_with sizes i reported c)
unfolding start_with regroup_step
start-Follows i p s [] reported c z v e = tt
start-Follows i p s (n ∷ sizes) reported c z v e = record {
  after = p;
  result = rw (v, e, z) refl;
  kept = λ h. refl;
}

left-Follows :
    (i : ℕ) (p : Processor) (s : VerifyState)
    → bitmask_all p.flags flag_valid ≡ false
    → Follows i p s (passed s)
unfolding regroup_step
left-Follows i p s v = record { after = p; result = rw v refl; kept = λ h. refl }

-- The processor is put into the cluster, and the kernel reported this leader or none.
moved-Follows :
    (i : ℕ) (p : Processor) (s : VerifyState) (c : Cluster)
    → bitmask_all p.flags flag_valid ≡ true
    → (s.expected_cluster_processors == 0) ≡ false
    → (has p.flags flag_package_cluster ≡ true → s.cluster_start ≡ p.package_leader_id)
    → Follows i p s (
        passed (record s {
          expected_cluster_processors = decrement s.expected_cluster_processors;
          known = c;
        }))
unfolding regroup_step
moved-Follows i p s c v e k = record {
  after = record p {
    package_leader_id = s.cluster_start;
    flags = bit_or p.flags flag_package_cluster;
  };
  result = rw (v, e) refl;
  kept = k;
}

verify_start-Follows :
    (i : ℕ) (p : Processor) (s : VerifyState) (reported leads : Bool)
    → bitmask_all p.flags flag_valid ≡ true
    → (s.expected_cluster_processors == 0) ≡ true
    → has p.flags flag_package_cluster ≡ reported
    → (p.package_leader_id == i) ≡ leads
    → Follows i p s (verify_start i p s)
unfolding verify_start
verify_start-Follows i p s false leads v e r l = rw r (start-Follows i p s _ false _ refl v e)
verify_start-Follows i p s true true v e r l = rw (r, l) (start-Follows i p s _ true _ refl v e)
verify_start-Follows i p s true false v e r l = rw (r, l) tt

verify_reported-Follows :
    (i : ℕ) (p : Processor) (s : VerifyState) (reported same : Bool)
    → bitmask_all p.flags flag_valid ≡ true
    → (s.expected_cluster_processors == 0) ≡ false
    → has p.flags flag_package_cluster ≡ reported
    → (p.package_leader_id == s.cluster_start) ≡ same
    → Follows i p s (verify_reported p s)
unfolding verify_reported
verify_reported-Follows i p s false same v e r l = rw r tt
verify_reported-Follows i p s true false v e r l = rw (r, l) tt
verify_reported-Follows i p s true true v e r l =
    rw (r, l) (moved-Follows i p s s.known v e (λ h. sym ((==_iff _ _).0 l)))

verify_assumed-Follows :
    (i : ℕ) (p : Processor) (s : VerifyState) (reported agrees : Bool)
    → bitmask_all p.flags flag_valid ≡ true
    → (s.expected_cluster_processors == 0) ≡ false
    → has p.flags flag_package_cluster ≡ reported
    → (check_all details p s.known).1 ≡ agrees
    → Follows i p s (verify_assumed p s)
unfolding verify_assumed
verify_assumed-Follows i p s true agrees v e r a = rw r tt
verify_assumed-Follows i p s false false v e r a = rw (r, a) tt
verify_assumed-Follows i p s false true v e r a =
    rw (r, a) (moved-Follows i p s _ v e (λ h. absurd (false≢true (sym r ∙ h))))

Follows-if :
    (i : ℕ) (p : Processor) (s : VerifyState) (b : Bool) (v w : Verdict)
    → Follows i p s v
    → Follows i p s w
    → Follows i p s (if b then v else w)
Follows-if i p s true v w f g = f
Follows-if i p s false v w f g = g

Follows-cases :
    (i : ℕ) (p : Processor) (s : VerifyState) (valid first : Bool)
    → bitmask_all p.flags flag_valid ≡ valid
    → (s.expected_cluster_processors == 0) ≡ first
    → Follows i p s (verify_step i p s)
unfolding verify_step
Follows-cases i p s false first v e = rw v (left-Follows i p s v)
Follows-cases i p s true true v e = rw (v, e) (verify_start-Follows i p s _ _ v e refl refl)
Follows-cases i p s true false v e =
    rw (v, e)
      (Follows-if i p s s.expected_cluster_exists _ _
        (verify_reported-Follows i p s _ _ v e refl refl)
        (verify_assumed-Follows i p s _ _ v e refl refl))

verify_step-Follows : (i : ℕ) (p : Processor) (s : VerifyState) → Follows i p s (verify_step i p s)
verify_step-Follows i p s = Follows-cases i p s _ _ refl refl

-- One list is what the second pass makes of the other.
pub record RegroupedAll (i : ℕ) (s : VerifyState) (ps : List Processor) : Type 0 where
  pub afters : List Processor
  pub result : regroup i (synced s) ps ≡ some afters
  pub kept :
      (k : ℕ) (p : Processor)
      → get_elem? ps k ≡ some p
      → has p.flags flag_package_cluster ≡ true
      → (p' : Processor) × (get_elem? afters k ≡ some p')
        × (p'.package_leader_id ≡ p.package_leader_id)

regroup_cons :
    (i : ℕ) (p p' : Processor) (s t : RegroupState) (ps ps' : List Processor)
    → regroup_step i p s ≡ some (p', t)
    → regroup (i + 1) t ps ≡ some ps'
    → regroup i s (p ∷ ps) ≡ some (p' ∷ ps')
unfolding regroup
regroup_cons i p p' s t ps ps' e r = rw (e, regroup) (rw (r, regroup) refl)

RegroupedAll-cons :
    (i : ℕ) (p : Processor) (s s' : VerifyState) (ps : List Processor)
    → Regrouped i p s s'
    → RegroupedAll (i + 1) s' ps
    → RegroupedAll i s (p ∷ ps)
RegroupedAll-cons i p s s' ps one rest = record {
  afters = one.after ∷ rest.afters;
  result = regroup_cons i p one.after (synced s) (synced s') ps rest.afters one.result rest.result;
  kept = kept_at;
}
  where
    kept_at :
        (k : ℕ) (q : Processor)
        → get_elem? (p ∷ ps) k ≡ some q
        → has q.flags flag_package_cluster ≡ true
        → (q' : Processor) × (get_elem? (one.after ∷ rest.afters) k ≡ some q')
          × (q'.package_leader_id ≡ q.package_leader_id)
    kept_at zero q f h =
        let before : p ≡ q = some-injective _ _ f in
        let leader =
          one.kept (ap (λ (r : Processor). has r.flags flag_package_cluster) before ∙ h) in
        (one.after, refl, leader ∙ ap (λ (r : Processor). r.package_leader_id) before)
    kept_at (suc k) q f h = rest.kept k q f h

abbrev is_passed : Verdict → Bool
is_passed (passed s) = true
is_passed contradicted = false
is_passed read_unset = false

verify_then :
    (i : ℕ) (p : Processor) (s s' : VerifyState) (ps : List Processor) (v : Verdict)
    → Follows i p s v
    → (elim v as (λ w. Verdict) [
      | passed t ↦ verify (i + 1) t ps
      | contradicted ↦ contradicted
      | read_unset ↦ read_unset
    ])
      ≡ passed s'
    → ((t : VerifyState) → verify (i + 1) t ps ≡ passed s' → RegroupedAll (i + 1) t ps)
    → RegroupedAll i s (p ∷ ps)
verify_then i p s s' ps (passed t) f e rest = RegroupedAll-cons i p s t ps f (rest t e)
verify_then i p s s' ps contradicted f e rest = absurd (false≢true (ap is_passed e))
verify_then i p s s' ps read_unset f e rest = absurd (false≢true (ap is_passed e))

pub verify-RegroupedAll :
    (ps : List Processor) (i : ℕ) (s s' : VerifyState)
    → verify i s ps ≡ passed s'
    → RegroupedAll i s ps
unfolding verify regroup
verify-RegroupedAll [] i s s' e = record {
  afters = [];
  result = refl;
  kept = λ k p f h. absurd (none-ne-some _ f);
}
verify-RegroupedAll (p ∷ ps) i s s' e =
    verify_then i p s s' ps (verify_step i p s) (verify_step-Follows i p s) e
      (λ t. verify-RegroupedAll ps (i + 1) t s')
