-- ===== src/Arm/Tests/Order.antt =====
-- Runs of the comparison of processors.
use cpuinfo.Base.{ℕ, [], ◌∷◌, ◌≡◌, refl}
use cpuinfo.Arm.Midr.{cortex_a53, cortex_a57}
use cpuinfo.Arm.Midr.Cores.{arm64, midr_score_core, score_of_core}
use cpuinfo.Arm.Processor.{Processor}
use cpuinfo.Arm.Order.{before, after, cmp, descending, usable_first, cmp_arm_linux_processor}
use cpuinfo.Arm.Order.Keys.{Says, cmp_arm_linux_processor-Says}
use cpuinfo.Arm.Order.Laws.{cmp_arm_linux_processor-flip, cmp_arm_linux_processor_trans}

-- A valid processor of a kind of core, with a frequency and a number.
abbrev core : ℕ → ℕ → ℕ → Processor
core register khz number = record {
  architecture_version = 0;
  features = 0;
  features2 = 0;
  midr = register;
  vendor = 0;
  uarch = 0;
  uarch_index = 0;
  package_id = 0;
  package_leader_id = 0;
  package_processor_count = 0;
  max_frequency = khz;
  min_frequency = 0;
  system_processor_id = number;
  flags = 0x1000;
}

-- The big core comes before the little one, though its frequency is lower.
cmp_arm_linux_processor-Says_example :
    Says before (1 ∷ 4 ∷ 1000000 ∷ 0 ∷ []) 4 (1 ∷ 2 ∷ 1500000 ∷ 0 ∷ []) 0
unfolding cmp_arm_linux_processor usable_first descending midr_score_core score_of_core
cmp_arm_linux_processor-Says_example =
    cmp_arm_linux_processor-Says arm64 (core cortex_a57 1000000 4) (core cortex_a53 1500000 0)

cmp_arm_linux_processor-flip_example :
    cmp_arm_linux_processor arm64 (core cortex_a53 1500000 0) (core cortex_a57 1000000 4) ≡ after
unfolding cmp_arm_linux_processor usable_first descending midr_score_core score_of_core
cmp_arm_linux_processor-flip_example =
    cmp_arm_linux_processor-flip arm64 (core cortex_a57 1000000 4) (core cortex_a53 1500000 0)

cmp_arm_linux_processor_trans_example :
    cmp_arm_linux_processor arm64 (core cortex_a57 1000000 4) (core cortex_a53 1500000 1) ≡ before
unfolding cmp_arm_linux_processor usable_first descending midr_score_core score_of_core cmp
cmp_arm_linux_processor_trans_example =
    cmp_arm_linux_processor_trans arm64 (core cortex_a57 1000000 4) (core cortex_a53 1500000 0)
      (core cortex_a53 1500000 1) refl refl
