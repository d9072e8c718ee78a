-- ===== src/Arm/Order.antt =====
-- The order in which src/arm/linux/init.c sorts the processors with `qsort`.
pub mod Keys
pub mod Laws
use cpuinfo.Base.{ℕ, Bool, true, false, ltb, ◌==◌, if◌then◌else◌, bitmask_all}
use cpuinfo.Linux.Flags.{flag_valid}
use cpuinfo.Arm.Midr.Cores.{Arch, midr_score_core}
use cpuinfo.Arm.Processor.{Processor}

-- The results -1, 0 and 1 of a comparison.
pub data Compare : Type 0 where
  before equal after : Compare

-- `cmp`
unfoldable pub cmp : ℕ → ℕ → Compare
cmp a b = if ltb b a then after else if ltb a b then before else equal

-- `if (a != b) { return a > b ? -1 : 1; }`, and what follows.
unfoldable pub descending : ℕ → ℕ → Compare → Compare
descending a b rest = if a == b then rest else if ltb b a then before else after

-- `if (usable_a != usable_b) { return (int) usable_b - (int) usable_a; }`, and what follows.
unfoldable pub usable_first : Bool → Bool → Compare → Compare
usable_first true false rest = before
usable_first false true rest = after
usable_first true true rest = rest
usable_first false false rest = rest

unfoldable pub cmp_arm_linux_processor : Arch → Processor → Processor → Compare
cmp_arm_linux_processor arch a b =
    let rest = descending a.max_frequency b.max_frequency (
      descending a.package_leader_id b.package_leader_id
        (cmp a.system_processor_id b.system_processor_id)) in
    usable_first (bitmask_all a.flags flag_valid) (bitmask_all b.flags flag_valid) (
      if a.midr == b.midr
      then rest
      else descending (midr_score_core arch a.midr) (midr_score_core arch b.midr) rest)
