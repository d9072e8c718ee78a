-- ===== src/Arm/Clusters/Scan/Leaders.antt =====
-- The clusters that the scan leaves: every processor in use has one, its leader is the first of it,
-- and the processors of one cluster have the details in common that are known.
use mathlib.Core.Path.{subst}
use mathlib.Core.Option.{none-ne-some}
use cpuinfo.Base.{
  ℕ, zero, suc, ◌+◌, ◌≤◌, bit_and, bit_or, Bool, true, false, some, List, [], ◌∷◌, get_elem?,
  length, if◌then◌else◌, ◌≡◌, refl, sym, ap, ◌∙◌, arith, has, false≢true, Bool-cases, inl, inr, ◌⊎◌,
  ◌==◌, ==_iff, ◌*◌, ◌/◌, ◌%◌, ◌^◌,
}
use cpuinfo.Base.Bits.{has-or_self, bit_and-bit_or, bit_and_field, bit_or_comm, zero-bit_or}
use cpuinfo.Linux.Flags.{flag_valid, flag_package_cluster}
use cpuinfo.Arm.Processor.{Processor}
use cpuinfo.Arm.Clusters.Details.{Cluster, Detail, flag_of, processor_value}
use cpuinfo.Arm.Clusters.Scan.{
  ScanState, is_unassigned, assign, new_cluster, scan_step, scan,
  detect_core_clusters_by_sequential_scan,
}
use cpuinfo.Arm.Clusters.Scan.Steps.{Step, left, attached, started, scan_step-Step}
use cpuinfo.Arm.Clusters.Scan.Agreement.{
  Scanned, leader_bounds, same_leader, Step-result, Scanned-head, head_leader,
}

-- Before the first cluster starts, the value of `cluster_start` has no part in the result.
unset_step :
    (i : ℕ) (c : Cluster) (a b : ℕ) (x : Processor) (ps : List Processor) (unassigned : Bool)
    → is_unassigned x ≡ unassigned
    → scan (i + 1) (record { cluster = c; cluster_processors = 0; cluster_start = a }) ps
      ≡ scan (i + 1) (record { cluster = c; cluster_processors = 0; cluster_start = b }) ps
    → scan i (record { cluster = c; cluster_processors = 0; cluster_start = a }) (x ∷ ps)
      ≡ scan i (record { cluster = c; cluster_processors = 0; cluster_start = b }) (x ∷ ps)
unfolding scan scan_step new_cluster
unset_step i c a b x ps true u rest = rw u refl
unset_step i c a b x ps false u rest = rw u (ap (λ (l : List Processor). x ∷ l) rest)

scan_unset :
    (ps : List Processor) (i : ℕ) (c : Cluster) (a b : ℕ)
    → scan i (record { cluster = c; cluster_processors = 0; cluster_start = a }) ps
      ≡ scan i (record { cluster = c; cluster_processors = 0; cluster_start = b }) ps
unfolding scan
scan_unset [] i c a b = refl
scan_unset (x ∷ ps) i c a b = unset_step i c a b x ps _ refl (scan_unset ps (i + 1) c a b)

-- The state of the first iteration, with a `cluster_start`.
abbrev first : ScanState → ℕ → ScanState
first unset b = record {
  cluster = record (unset.cluster) { flags = 0 };
  cluster_processors = 0;
  cluster_start = b;
}

detect-scan :
    (unset : ScanState) (ps : List Processor) (b : ℕ)
    → detect_core_clusters_by_sequential_scan unset ps ≡ scan 0 (first unset b) ps
unfolding detect_core_clusters_by_sequential_scan
detect-scan unset ps b = scan_unset ps 0 _ _ b

-- A processor at an index, before and after the function.
abbrev pub Detected : ScanState → List Processor → ℕ → Processor → Processor → Type 0
Detected unset ps k p p' =
    (get_elem? ps k ≡ some p)
    × (get_elem? (detect_core_clusters_by_sequential_scan unset ps) k ≡ some p')

Detected-Scanned :
    (unset : ScanState) (ps : List Processor) (b k : ℕ) (p p' : Processor)
    → Detected unset ps k p p'
    → Scanned 0 (first unset b) ps k p p'
Detected-Scanned unset ps b k p p' h =
    (h.0, ap (λ (l : List Processor). get_elem? l k) (sym (detect-scan unset ps b)) ∙ h.1)

Scanned-Detected :
    (unset : ScanState) (ps : List Processor) (b k : ℕ) (p p' : Processor)
    → Scanned 0 (first unset b) ps k p p'
    → Detected unset ps k p p'
Scanned-Detected unset ps b k p p' h =
    (h.0, ap (λ (l : List Processor). get_elem? l k) (detect-scan unset ps b) ∙ h.1)

-- Two valid processors without a cluster that the function assigns to one leader have each detail
-- in common that is known of both: the frequencies and the four fields of the register.
pub same_cluster-processor_value :
    (unset : ScanState) (ps : List Processor) (k l : ℕ) (p p' q q' : Processor) (d : Detail)
    → is_unassigned p ≡ true
    → is_unassigned q ≡ true
    → Detected unset ps k p p'
    → Detected unset ps l q q'
    → p'.package_leader_id ≡ q'.package_leader_id
    → has p.flags (flag_of d) ≡ true
    → has q.flags (flag_of d) ≡ true
    → processor_value d p ≡ processor_value d q
same_cluster-processor_value unset ps k l p p' q q' d u v f g e =
    same_leader ps 0 (first unset 0) k l p p' q q' (omega arith) u v
      (Detected-Scanned unset ps 0 k p p' f) (Detected-Scanned unset ps 0 l q q' g) e d

-- What the scan does to one processor: its leader and the flag, or nothing.
abbrev pub Result : Processor → Processor → Type 0
Result p p' = p' ≡ (if is_unassigned p then assign p'.package_leader_id p else p)

scan-Result :
    (ps : List Processor) (i : ℕ) (s : ScanState) (k : ℕ) (p p' : Processor)
    → Scanned i s ps k p p'
    → Result p p'
unfolding scan
scan-Result [] i s k p p' h = absurd (none-ne-some _ h.0)
scan-Result (x ∷ ps) i s zero p p' h =
    let (before, after) = Scanned-head i s x ps p p' h in
    subst (λ (q : Processor). Result q p') before
      (subst (λ (q : Processor). Result x q) after (Step-result (scan_step-Step i x s)))
scan-Result (x ∷ ps) i s (suc k) p p' h = scan-Result ps (i + 1) _ k p p' h

-- The same of the whole function.
pub detect-assign :
    (unset : ScanState) (ps : List Processor) (k : ℕ) (p p' : Processor)
    → Detected unset ps k p p'
    → p' ≡ (if is_unassigned p then assign p'.package_leader_id p else p)
detect-assign unset ps k p p' h = scan-Result ps 0 _ k p p' (Detected-Scanned unset ps 0 k p p' h)

pub valid_cases :
    (f : ℕ)
    → has f flag_valid ≡ true
    → ((bit_and f (bit_or flag_valid flag_package_cluster) == flag_valid) ≡ true)
      ⊎ (has f flag_package_cluster ≡ true)
valid_cases f h = elim (Bool-cases (has f flag_package_cluster)) [
  | inl c ↦ inr c
  | inr c ↦
      let both = bit_and-bit_or f flag_valid flag_package_cluster in
      let valid : bit_and f flag_valid ≡ (f / 2 ^ 12 % 2) * 4096 = bit_and_field 12 1 f in
      let found : bit_and f flag_valid ≡ flag_valid = ground arith in
      let none_left : bit_and f flag_package_cluster ≡ 0 = ground arith in
      let alone = bit_or_comm (bit_and f flag_valid) 0 ∙ zero-bit_or (bit_and f flag_valid) in
      let right = ap (λ (x : ℕ). bit_or (bit_and f flag_valid) x) none_left in
      inl ((==_iff _ _).1 (both ∙ right ∙ alone ∙ found))
]

cluster_cases :
    (p p' : Processor) (unassigned : Bool)
    → is_unassigned p ≡ unassigned
    → has p.flags flag_valid ≡ true
    → Result p p'
    → has p'.flags flag_package_cluster ≡ true
unfolding assign
cluster_cases p p' true u v r =
    let r' : p' ≡ assign p'.package_leader_id p = r ∙ rw u refl in
    ap (λ (q : Processor). has q.flags flag_package_cluster) r'
    ∙ has-or_self p.flags flag_package_cluster (ground arith)
cluster_cases p p' false u v r =
    let r' : p' ≡ p = r ∙ rw u refl in
    elim (valid_cases p.flags v) [
      | inl t ↦ absurd (false≢true (sym u ∙ t))
      | inr c ↦ ap (λ (q : Processor). has q.flags flag_package_cluster) r' ∙ c
    ]

-- Every valid processor has a cluster in the end.
pub valid-has_cluster :
    (unset : ScanState) (ps : List Processor) (k : ℕ) (p p' : Processor)
    → has p.flags flag_valid ≡ true
    → Detected unset ps k p p'
    → has p'.flags flag_package_cluster ≡ true
valid-has_cluster unset ps k p p' v h =
    cluster_cases p p' _ refl v (detect-assign unset ps k p p' h)

length-scan : (ps : List Processor) (i : ℕ) (s : ScanState) → length (scan i s ps) ≡ length ps
unfolding scan
length-scan [] i s = refl
length-scan (x ∷ ps) i s = ap suc (length-scan ps (i + 1) _)

-- The leader of a processor: the cluster before it, or a processor that leads itself.
abbrev Leads : ℕ → ScanState → List Processor → ℕ → ℕ → Type 0
Leads i s ps k leader =
    (j : ℕ) × (q : Processor) × (q' : Processor) × (i + j ≡ leader)
    × (j ≤ k)
    × (is_unassigned q ≡ true)
    × Scanned i s ps j q q'
    × (q'.package_leader_id ≡ leader)

-- The cluster after a step is the one before it, or the processor starts it.
Step-origin :
    {i : ℕ} {p : Processor} {s : ScanState} {r : Processor × ScanState}
    → Step i p s r
    → (r.1.cluster_start ≡ s.cluster_start)
      ⊎ ((is_unassigned p ≡ true) × (r.1.cluster_start ≡ i) × (r.0.package_leader_id ≡ i))
unfolding assign
Step-origin (left u) = inl refl
Step-origin (attached s' u e k a) = inl e
Step-origin (started s' u e a) = inr (u, e, refl)

origin-Leads :
    (ps : List Processor) (i : ℕ) (s : ScanState) (x : Processor) (k leader : ℕ)
    → leader ≡ (scan_step i x s).1.cluster_start
    → (leader ≡ s.cluster_start) ⊎ Leads i s (x ∷ ps) k leader
unfolding scan
origin-Leads ps i s x k leader e = elim (Step-origin (scan_step-Step i x s)) [
  | inl same ↦ inl (e ∙ same)
  | inr (u, start, l) ↦
      inr
        (0, x, (scan_step i x s).0, omega arith, omega arith, u, (refl, refl), l ∙ sym (e ∙ start))
]

leader_cases :
    (ps : List Processor) (i : ℕ) (s : ScanState) (k : ℕ) (p p' : Processor)
    → is_unassigned p ≡ true
    → Scanned i s ps k p p'
    → (p'.package_leader_id ≡ s.cluster_start) ⊎ Leads i s ps k p'.package_leader_id
unfolding scan
leader_cases [] i s k p p' u h = absurd (none-ne-some _ h.0)
leader_cases (x ∷ ps) i s zero p p' u h =
    origin-Leads ps i s x 0 _ (head_leader i s x ps p p' u h).0
leader_cases (x ∷ ps) i s (suc k) p p' u h = elim (leader_cases ps (i + 1) _ k p p' u h) [
  | inl e ↦ origin-Leads ps i s x (suc k) _ e
  | inr (j, q, q', e, below, v, g, l) ↦ inr (suc j, q, q', omega arith, omega arith, v, g, l)
]

-- The leader of a processor that the function assigns is not after it, and it is a processor that the
-- function assigns to itself.
pub leader-leads :
    (unset : ScanState) (ps : List Processor) (k : ℕ) (p p' : Processor)
    → is_unassigned p ≡ true
    → Detected unset ps k p p'
    → (p'.package_leader_id ≤ k)
      × (q : Processor) × (q' : Processor) × (is_unassigned q ≡ true)
      × Detected unset ps p'.package_leader_id q q'
      × (q'.package_leader_id ≡ p'.package_leader_id)
leader-leads unset ps k p p' u h =
    let below =
      leader_bounds ps 0 (first unset 0) k p p' (omega arith) u
        (Detected-Scanned unset ps 0 k p p' h) in
    let cases =
      leader_cases ps 0 (first unset (k + 1)) k p p' u
        (Detected-Scanned unset ps (k + 1) k p p' h) in
    elim cases [
      | inl e ↦ absurd (omega arith)
      | inr (j, q, q', e, _, v, g, l) ↦
          let same : j ≡ p'.package_leader_id = omega arith in
          let found = Scanned-Detected unset ps (k + 1) j q q' g in
          (omega arith, q, q', v, subst (λ (m : ℕ). Detected unset ps m q q') same found, l)
    ]
