-- ===== src/Arm/Clusters/Scan/Steps.antt =====
-- The three things that the scan does with a processor: it leaves it, attaches it to the preceding
-- cluster, or starts a cluster with it.
use cpuinfo.Base.{ℕ, bit_or, Bool, true, false, ◌==◌, ◌≡◌, refl, ◌∙◌, has}
use cpuinfo.Base.Bits.{has-or_other}
use cpuinfo.Linux.Flags.{flag_package_cluster}
use cpuinfo.Arm.Processor.{Processor}
use cpuinfo.Arm.Clusters.Details.{
  Cluster, Detail, flag_of, check_all, details, min_frequency, max_frequency, implementer, variant,
  part, revision, processor_value,
}
use cpuinfo.Arm.Clusters.Details.Keeps.{Keeps, Agrees}
use cpuinfo.Arm.Clusters.Details.Checks.{check_all-Keeps, check_all-Agrees, learn_known-Agrees}
use cpuinfo.Arm.Clusters.Scan.{ScanState, is_unassigned, assign, new_cluster, attach, scan_step}

-- The processor and the state that a step leaves.
pub data Step (i : ℕ) (p : Processor) (s : ScanState) : Processor × ScanState → Type 0 where
  left : is_unassigned p ≡ false → Step i p s (p, s)
  attached :
      (s' : ScanState)
      → is_unassigned p ≡ true
      → s'.cluster_start ≡ s.cluster_start
      → Keeps s.cluster s'.cluster
      → Agrees p s'.cluster
      → Step i p s (assign s.cluster_start p, s')
  started :
      (s' : ScanState)
      → is_unassigned p ≡ true
      → s'.cluster_start ≡ i
      → Agrees p s'.cluster
      → Step i p s (assign i p, s')

cluster_flag-other :
    (d : Detail) (f : ℕ) → has (bit_or f flag_package_cluster) (flag_of d) ≡ has f (flag_of d)
cluster_flag-other min_frequency f = has-or_other f _ _ refl
cluster_flag-other max_frequency f = has-or_other f _ _ refl
cluster_flag-other implementer f = has-or_other f _ _ refl
cluster_flag-other variant f = has-or_other f _ _ refl
cluster_flag-other part f = has-or_other f _ _ refl
cluster_flag-other revision f = has-or_other f _ _ refl

assign_value :
    (d : Detail) (i : ℕ) (p : Processor) → processor_value d (assign i p) ≡ processor_value d p
unfolding assign
assign_value min_frequency i p = refl
assign_value max_frequency i p = refl
assign_value implementer i p = refl
assign_value variant i p = refl
assign_value part i p = refl
assign_value revision i p = refl

assign_flags :
    (d : Detail) (i : ℕ) (p : Processor)
    → has (assign i p).flags (flag_of d) ≡ has p.flags (flag_of d)
unfolding assign
assign_flags d i p = cluster_flag-other d p.flags

Agrees-assign : (i : ℕ) (p : Processor) (c : Cluster) → Agrees (assign i p) c → Agrees p c
Agrees-assign i p c a d h = let (k, v) = a d (assign_flags d i p ∙ h) in (k, v ∙ assign_value d i p)

starts :
    (i : ℕ) (p : Processor) (s s' : ScanState)
    → is_unassigned p ≡ true
    → Step i p s' (new_cluster i p s)
unfolding new_cluster
starts i p s s' h = started _ h refl (Agrees-assign i p _ (learn_known-Agrees (assign i p) _))

attaches :
    (i : ℕ) (p : Processor) (s : ScanState)
    → is_unassigned p ≡ true
    → (check_all details p s.cluster).1 ≡ true
    → Step i p s (attach p s (check_all details p s.cluster).0)
unfolding attach
attaches i p s h t =
    attached _ h refl (check_all-Keeps p s.cluster) (check_all-Agrees p s.cluster t)

Step-cases :
    (i : ℕ) (p : Processor) (s : ScanState) (unassigned first agrees : Bool)
    → is_unassigned p ≡ unassigned
    → (s.cluster_processors == 0) ≡ first
    → (check_all details p s.cluster).1 ≡ agrees
    → Step i p s (scan_step i p s)
unfolding scan_step
Step-cases i p s false first agrees h e t = rw h (left h)
Step-cases i p s true true agrees h e t = rw (h, e) (starts i p s s h)
Step-cases i p s true false true h e t = rw (h, e, t) (attaches i p s h t)
Step-cases i p s true false false h e t =
    rw (h, e, t) (starts i p (record s { cluster = (check_all details p s.cluster).0 }) s h)

pub scan_step-Step : (i : ℕ) (p : Processor) (s : ScanState) → Step i p s (scan_step i p s)
scan_step-Step i p s = Step-cases i p s _ _ _ refl refl refl
