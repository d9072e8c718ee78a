-- ===== src/Arm/Clusters/Scan/Agreement.antt =====
-- What the scan does with all processors: whom it assigns, to whom, and what the processors of a
-- cluster have in common.
use mathlib.Core.Path.{subst}
use mathlib.Core.Option.{none-ne-some, some-injective}
use cpuinfo.Base.{
  ℕ, zero, suc, ◌+◌, ◌≤◌, ◌<◌, true, some, List, [], ◌∷◌, get_elem?, if◌then◌else◌, ◌≡◌, refl, sym,
  ap, ◌∙◌, arith, has, false≢true,
}
use cpuinfo.Arm.Processor.{Processor}
use cpuinfo.Arm.Clusters.Details.{Cluster, Detail, flag_of, processor_value}
use cpuinfo.Arm.Clusters.Details.Keeps.{Keeps, Keeps-refl, AgreesOn-Keeps, Agrees}
use cpuinfo.Arm.Clusters.Scan.{ScanState, is_unassigned, assign, scan_step, scan}
use cpuinfo.Arm.Clusters.Scan.Steps.{Step, left, attached, started, scan_step-Step}

-- The details that are known of both processors are the same.
abbrev pub Compatible : Processor → Processor → Type 0
Compatible p q =
    (d : Detail)
    → has p.flags (flag_of d) ≡ true
    → has q.flags (flag_of d) ≡ true
    → processor_value d p ≡ processor_value d q

pub Agrees-Compatible : (p q : Processor) (c : Cluster) → Agrees p c → Agrees q c → Compatible p q
Agrees-Compatible p q c a b d hp hq = sym ((a d hp).1) ∙ (b d hq).1

Agrees-Keeps : (p : Processor) (c c' : Cluster) → Keeps c c' → Agrees p c → Agrees p c'
Agrees-Keeps p c c' k a d = AgreesOn-Keeps d p c c' k (a d)

pub Compatible-sym : (p q : Processor) → Compatible p q → Compatible q p
Compatible-sym p q c d hq hp = sym (c d hp hq)

-- One step.
module _ {i : ℕ} {p : Processor} {s : ScanState} where
  pub Step-start :
      {r : Processor × ScanState}
      → Step i p s r
      → s.cluster_start ≤ i
      → (s.cluster_start ≤ r.1.cluster_start) × (r.1.cluster_start ≤ i)
  Step-start (left u) h = (omega arith, h)
  Step-start (attached s' u e k a) h = (omega arith, omega arith)
  Step-start (started s' u e a) h = (omega arith, omega arith)

  pub Step-leader :
      {r : Processor × ScanState}
      → Step i p s r
      → is_unassigned p ≡ true
      → (r.0.package_leader_id ≡ r.1.cluster_start) × Agrees p r.1.cluster
  unfolding assign
  Step-leader (left u) h = absurd (false≢true (sym u ∙ h))
  Step-leader (attached s' u e k a) h = (sym e, a)
  Step-leader (started s' u e a) h = (sym e, a)

  pub Step-Keeps :
      {r : Processor × ScanState}
      → Step i p s r
      → r.1.cluster_start ≡ s.cluster_start
      → s.cluster_start < i
      → Keeps s.cluster r.1.cluster
  Step-Keeps (left u) e h = Keeps-refl _
  Step-Keeps (attached s' u e k a) _ h = k
  Step-Keeps (started s' u e a) e' h = absurd (omega arith)

  pub Step-result :
      {r : Processor × ScanState}
      → Step i p s r
      → r.0 ≡ (if is_unassigned p then assign r.0.package_leader_id p else p)
  unfolding assign
  Step-result (left u) = rw u refl
  Step-result (attached s' u e k a) = rw u refl
  Step-result (started s' u e a) = rw u refl

-- A processor at an index, before and after the scan from processor `i` on.
abbrev pub Scanned : ℕ → ScanState → List Processor → ℕ → Processor → Processor → Type 0
Scanned i s ps k p p' = (get_elem? ps k ≡ some p) × (get_elem? (scan i s ps) k ≡ some p')

-- The first processor of a scan.
pub Scanned-head :
    (i : ℕ) (s : ScanState) (x : Processor) (ps : List Processor) (p p' : Processor)
    → Scanned i s (x ∷ ps) 0 p p'
    → (x ≡ p) × ((scan_step i x s).0 ≡ p')
unfolding scan
Scanned-head i s x ps p p' h = (some-injective _ _ h.0, some-injective _ _ h.1)

-- What a step does to a processor that it assigns.
pub head_leader :
    (i : ℕ) (s : ScanState) (x : Processor) (ps : List Processor) (p p' : Processor)
    → is_unassigned p ≡ true
    → Scanned i s (x ∷ ps) 0 p p'
    → (p'.package_leader_id ≡ (scan_step i x s).1.cluster_start)
      × Agrees p (scan_step i x s).1.cluster
head_leader i s x ps p p' u h =
    let (before, after) = Scanned-head i s x ps p p' h in
    let (leader, agrees) =
      Step-leader (scan_step-Step i x s) (ap (λ (q : Processor). is_unassigned q) before ∙ u) in
    (
      ap (λ (q : Processor). q.package_leader_id) (sym after) ∙ leader,
      subst (λ (q : Processor). Agrees q (scan_step i x s).1.cluster) before agrees,
    )

-- The leader of a processor that is assigned is no less than the start of the cluster before it,
-- and no greater than the processor.
pub leader_bounds :
    (ps : List Processor) (i : ℕ) (s : ScanState) (k : ℕ) (p p' : Processor)
    → s.cluster_start ≤ i
    → is_unassigned p ≡ true
    → Scanned i s ps k p p'
    → (s.cluster_start ≤ p'.package_leader_id) × (p'.package_leader_id ≤ i + k)
unfolding scan
leader_bounds [] i s k p p' h u g = absurd (none-ne-some _ g.0)
leader_bounds (x ∷ ps) i s zero p p' h u g =
    let start = Step-start (scan_step-Step i x s) h in
    let leader = (head_leader i s x ps p p' u g).0 in (omega arith, omega arith)
leader_bounds (x ∷ ps) i s (suc k) p p' h u g =
    let start = Step-start (scan_step-Step i x s) h in
    let rest = leader_bounds ps (i + 1) _ k p p' (omega arith) u g in (omega arith, omega arith)

-- A processor that the cluster agrees with and a later one that is assigned to the cluster.
pub later_Compatible :
    (ps : List Processor) (i : ℕ) (s : ScanState) (k : ℕ) (p q q' : Processor)
    → s.cluster_start < i
    → Agrees p s.cluster
    → is_unassigned q ≡ true
    → Scanned i s ps k q q'
    → q'.package_leader_id ≡ s.cluster_start
    → Compatible p q
unfolding scan
later_Compatible [] i s k p q q' h a u g l = absurd (none-ne-some _ g.0)
later_Compatible (x ∷ ps) i s zero p q q' h a u g l =
    let (leader, agrees) = head_leader i s x ps q q' u g in
    let keeps = Step-Keeps (scan_step-Step i x s) (omega arith) h in
    Agrees-Compatible p q _ (Agrees-Keeps p _ _ keeps a) agrees
later_Compatible (x ∷ ps) i s (suc k) p q q' h a u g l =
    let start = Step-start (scan_step-Step i x s) (omega arith) in
    let bounds = leader_bounds ps (i + 1) _ k q q' (omega arith) u g in
    let keeps = Step-Keeps (scan_step-Step i x s) (omega arith) h in
    later_Compatible ps (i + 1) _ k p q q' (omega arith) (Agrees-Keeps p _ _ keeps a) u g
      (omega arith)

pub same_leader :
    (ps : List Processor) (i : ℕ) (s : ScanState) (k l : ℕ) (p p' q q' : Processor)
    → s.cluster_start ≤ i
    → is_unassigned p ≡ true
    → is_unassigned q ≡ true
    → Scanned i s ps k p p'
    → Scanned i s ps l q q'
    → p'.package_leader_id ≡ q'.package_leader_id
    → Compatible p q
unfolding scan
same_leader [] i s k l p p' q q' h u v f g e = absurd (none-ne-some _ f.0)
same_leader (x ∷ ps) i s zero zero p p' q q' h u v f g e =
    let same : p ≡ q = some-injective _ _ (sym f.0 ∙ g.0) in
    subst (λ (r : Processor). Compatible p r) same (λ d hp hq. refl)
same_leader (x ∷ ps) i s zero (suc l) p p' q q' h u v f g e =
    let (leader, agrees) = head_leader i s x ps p p' u f in
    let start = Step-start (scan_step-Step i x s) h in
    later_Compatible ps (i + 1) _ l p q q' (omega arith) agrees v g (sym e ∙ leader)
same_leader (x ∷ ps) i s (suc k) zero p p' q q' h u v f g e =
    let (leader, agrees) = head_leader i s x ps q q' v g in
    let start = Step-start (scan_step-Step i x s) h in
    Compatible-sym q p
      (later_Compatible ps (i + 1) _ k q p p' (omega arith) agrees u f (e ∙ leader))
same_leader (x ∷ ps) i s (suc k) (suc l) p p' q q' h u v f g e =
    let start = Step-start (scan_step-Step i x s) h in
    same_leader ps (i + 1) _ k l p p' q q' (omega arith) u v f g e
