-- ===== src/Arm/Processor.antt =====
-- src/arm/linux/api.h: what is known of a logical processor, as compiled for AArch64, and the flags that
-- say which parts of it are. `cpuinfo_vendor` and `cpuinfo_uarch` stand as their numbers.
pub mod Comparison
use cpuinfo.Base.{ℕ, bit_and, Bool, true, false, ◌&&◌, not, ◌==◌, has, if◌then◌else◌}
use cpuinfo.Linux.Flags.{flag_max_frequency, flag_min_frequency}
use cpuinfo.Arm.Midr.Cores.{midr_is_cortex_a53}

abbrev pub valid_implementer : ℕ
valid_implementer = 0x00020000

abbrev pub valid_variant : ℕ
valid_variant = 0x00040000

abbrev pub valid_part : ℕ
valid_part = 0x00080000

abbrev pub valid_revision : ℕ
valid_revision = 0x00100000

abbrev pub valid_processor : ℕ
valid_processor = 0x00200000

abbrev pub valid_midr : ℕ
valid_midr = 0x003f0000

pub record Processor : Type 0 where
  pub architecture_version : ℕ
  pub features : ℕ
  pub features2 : ℕ
  pub midr : ℕ
  pub vendor : ℕ
  pub uarch : ℕ
  pub uarch_index : ℕ
  pub package_id : ℕ
  pub package_leader_id : ℕ
  pub package_processor_count : ℕ
  pub max_frequency : ℕ
  pub min_frequency : ℕ
  pub system_processor_id : ℕ
  pub flags : ℕ

-- What the two comparisons do with a frequency: nothing where it is not known of both processors.
pub data Compared : Type 0 where
  unknown same different : Compared

abbrev pub compare_field : ℕ → ℕ → ℕ → ℕ → Compared
compare_field joint_flags flag a b =
    if has joint_flags flag then (if a == b then same else different) else unknown

abbrev pub is_same : Compared → Bool
is_same same = true
is_same unknown = false
is_same different = false

abbrev pub is_different : Compared → Bool
is_different different = true
is_different unknown = false
is_different same = false

-- `cpuinfo_arm_linux_processor_equals`
unfoldable pub processor_equals : Processor → Processor → Bool
processor_equals i j =
    let joint_flags = bit_and i.flags j.flags in
    let max = compare_field joint_flags flag_max_frequency i.max_frequency j.max_frequency in
    let min = compare_field joint_flags flag_min_frequency i.min_frequency j.min_frequency in
    if is_different max
    then false
    else if is_different min
    then false
    else if bit_and joint_flags valid_midr == valid_midr && i.midr == j.midr
    then (if midr_is_cortex_a53 i.midr then is_same min && is_same max else true)
    else is_same max && is_same min

-- `cpuinfo_arm_linux_processor_not_equals`
unfoldable pub processor_not_equals : Processor → Processor → Bool
processor_not_equals i j =
    let joint_flags = bit_and i.flags j.flags in
    let max = compare_field joint_flags flag_max_frequency i.max_frequency j.max_frequency in
    let min = compare_field joint_flags flag_min_frequency i.min_frequency j.min_frequency in
    if is_different max
    then true
    else if is_different min
    then true
    else if bit_and joint_flags valid_midr == valid_midr && not (i.midr == j.midr)
    then true
    else false
