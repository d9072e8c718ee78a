-- ===== src/Arm/Processor/Comparison.antt =====
-- The two comparisons of processors side by side.
use cpuinfo.Base.{bit_and, Bool, not, ◌&&◌, ◌||◌, ◌==◌, has, ◌≡◌, arith}
use cpuinfo.Arm.Midr.Cores.{midr_is_cortex_a53}
use cpuinfo.Linux.Flags.{flag_max_frequency, flag_min_frequency}
use cpuinfo.Arm.Processor.{Processor, valid_midr, processor_equals, processor_not_equals}

-- What is known of both processors, by the flags of each.
abbrev pub both_know : Processor → Processor → Bool × Bool × Bool
both_know p q =
    let joint_flags = bit_and p.flags q.flags in
    (
      has joint_flags flag_max_frequency,
      has joint_flags flag_min_frequency,
      bit_and joint_flags valid_midr == valid_midr,
    )

-- For all pairs of processors, where a detail counts as known if it is known of both:
-- `cpuinfo_arm_linux_processor_equals` is true exactly where no known frequency differs, and either the
-- registers are known, the same, and not of a Cortex-A53, or both frequencies are known;
-- `cpuinfo_arm_linux_processor_not_equals` is true exactly where a known frequency or the known
-- registers differ; and both are true, and contradict each other, exactly where both frequencies are
-- known and the same and the registers are known and differ.
pub equals-not_equals :
    (p q : Processor)
    → let (max, min, midr) = both_know p q in
      let max_differs = max && not (p.max_frequency == q.max_frequency) in
      let min_differs = min && not (p.min_frequency == q.min_frequency) in
      let midr_differs = midr && not (p.midr == q.midr) in
      let midr_agrees = midr && (p.midr == q.midr && not (midr_is_cortex_a53 p.midr)) in
      (processor_equals p q ≡ (not (max_differs || min_differs) && (midr_agrees || (max && min))))
      × (processor_not_equals p q ≡ (max_differs || (min_differs || midr_differs)))
      × ((processor_equals p q && processor_not_equals p q)
          ≡ ((max && min) && (not (max_differs || min_differs) && midr_differs)))
unfolding processor_equals processor_not_equals
equals-not_equals p q = (ground arith, ground arith, ground arith)
