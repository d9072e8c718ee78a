-- ===== src/Arm/ClusterMidr/Detect/Result.antt =====
-- What `cpuinfo_arm_linux_detect_cluster_midr` promises: every cluster has a register in the end.
use cpuinfo.Base.{
  ℕ, ◌<◌, ◌≤◌, true, some, List, ==_iff, length, get_elem?, get_or, get_or-get_elem?,
  get_elem?-get_or, All, All-get_or, ◌≡◌, ap, ◌∙◌, arith,
}
use cpuinfo.Arm.Chipset.{Chipset}
use cpuinfo.Arm.Processor.{Processor}
use cpuinfo.Arm.Midr.Cores.{Arch}
use cpuinfo.Arm.ClusterMidr.Detect.{names_core}
use cpuinfo.Arm.ClusterMidr.Detect.Learn.{is_valid, has_midr, IsComplete}
use cpuinfo.Arm.ClusterMidr.Detect.Invariant.{IsReady, leads}
use cpuinfo.Arm.ClusterMidr.Detect.Leaders.{detected, detect-IsAssigned}
use cpuinfo.Arm.ClusterMidr.Detect.Counts.{count_valid}

-- The leader of a valid processor stands in an array of `n`.
abbrev pub LedWithin : ℕ → Processor → Type 0
LedWithin n p = is_valid p ≡ true → p.package_leader_id < n

-- Where the leaders of valid processors stand in the array, the whole register is known of every valid
-- processor whose implementer and part are, there are no more valid processors than usable ones, and
-- the implementer and part are known of at least one valid processor: every valid processor that leads
-- a cluster has a register in the end.
pub leaders-has_midr :
    (outside : Processor) (unset : ℕ → ℕ) (arch : Arch) (chipset : Chipset) (usable : ℕ)
    (ps : List Processor)
    → All (LedWithin (length ps)) ps
    → All IsComplete ps
    → count_valid ps ≤ usable
    → (m : ℕ) (q : Processor) → get_elem? ps m ≡ some q
    → is_valid q ≡ true
    → names_core q ≡ true
    → (i : ℕ) (p : Processor) → get_elem? ps i ≡ some p
    → is_valid p ≡ true
    → p.package_leader_id ≡ i
    → (p' : Processor) × (get_elem? (detected outside unset arch chipset usable ps) i ≡ some p')
      × (has_midr p' ≡ true)
leaders-has_midr outside unset arch chipset usable ps led complete n m q at_m v k i p at_i u l =
    let (in_m, is_q) = get_or-get_elem? ps m q outside at_m in
    let (in_i, is_p) = get_or-get_elem? ps i p outside at_i in
    let ready : IsReady outside ps = record {
      led = λ j b. All-get_or (LedWithin (length ps)) ps j outside led b;
      complete = λ j b. All-get_or IsComplete ps j outside complete b;
    } in
    let assigned =
      detect-IsAssigned outside unset arch chipset usable ps ready m in_m (ap is_valid is_q ∙ v)
        (ap names_core is_q ∙ k) n in
    let leads_itself : leads outside ps i ≡ true =
      rw (is_p, u) ((==_iff p.package_leader_id i).1 l) in
    (
      get_or (detected outside unset arch chipset usable ps) i outside,
      get_elem?-get_or _ i outside (omega (arith, assigned.size)),
      assigned.leaders_have_midr i in_i leads_itself,
    )
