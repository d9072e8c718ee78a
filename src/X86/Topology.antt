-- ===== src/X86/Topology.antt =====
-- src/x86/topology.c: which bits of the APIC ID tell the threads of a core and the cores of a package
-- apart. `cpuid` and `cpuidex`, which execute an instruction, are parameters.
pub mod Levels
pub mod Legacy
use cpuinfo.Base.{
  ℕ, zero, suc, ◌+◌, ◌-◌, ◌^◌, bit_and, Bool, false, not, Option, none, some, ◌&&◌, ◌==◌, leb,
  if◌then◌else◌, u32, ◌>>>◌, has,
}
use cpuinfo.X86.BitLength.{bit_length}
use cpuinfo.X86.Caches.{CpuidRegs}

pub record Topology : Type 0 where
  pub apic_id : ℕ
  pub thread_bits_offset : ℕ
  pub thread_bits_length : ℕ
  pub core_bits_offset : ℕ
  pub core_bits_length : ℕ

-- `enum topology_type`; other values of the field are ignored.
abbrev pub topology_type_invalid : ℕ
topology_type_invalid = 0

abbrev pub topology_type_smt : ℕ
topology_type_smt = 1

abbrev pub topology_type_core : ℕ
topology_type_core = 2

-- The fields of a subleaf of leaf 0xB.
abbrev pub level_type : CpuidRegs → ℕ
level_type leaf_b = bit_and (leaf_b.ecx >>> 8) 0x000000FF

abbrev pub level_shift : CpuidRegs → ℕ
level_shift leaf_b = bit_and leaf_b.eax 0x0000001F

-- The number of logical processors or of cores that leaf 1 names.
abbrev pub count_of_leaf_1 : CpuidRegs → ℕ
count_of_leaf_1 leaf_1 = bit_and (leaf_1.ebx >>> 16) 0x000000FF

-- The branch of AMD processors in legacy mode.
unfoldable pub cmp_legacy : (ℕ → CpuidRegs) → ℕ → CpuidRegs → Topology → Topology
cmp_legacy cpuid max_extended_index leaf_1 topology =
    if leb 0x80000008 max_extended_index
    then record topology {
      core_bits_length = bit_length (u32 (1 + bit_and (cpuid 0x80000008).ecx 0x000000FF));
    }
    else if not (count_of_leaf_1 leaf_1 == 0)
    then record topology { core_bits_length = bit_length (count_of_leaf_1 leaf_1) }
    else topology

-- The branch of the others.
unfoldable pub by_logical_processors : CpuidRegs → Topology → Topology
by_logical_processors leaf_1 topology =
    let log2_max_threads_per_core =
      u32 (bit_length (count_of_leaf_1 leaf_1) + 2 ^ 32 - topology.core_bits_length) in
    if not (count_of_leaf_1 leaf_1 == 0)
    then record topology {
      core_bits_offset = log2_max_threads_per_core;
      thread_bits_length = log2_max_threads_per_core;
    }
    else topology

abbrev pub has_htt : CpuidRegs → Bool
has_htt leaf_1 = has leaf_1.edx 0x10000000

abbrev pub has_cmp_legacy : (ℕ → CpuidRegs) → ℕ → Bool
has_cmp_legacy cpuid max_extended_index =
    leb 0x80000001 max_extended_index && has (cpuid 0x80000001).ecx 0x00000002

-- The first half of the function, and `apic_id` after it.
unfoldable pub by_leaf_1 : (ℕ → CpuidRegs) → ℕ → CpuidRegs → Topology → Topology × ℕ
unfolding cmp_legacy by_logical_processors
by_leaf_1 cpuid max_extended_index leaf_1 topology =
    if has_htt leaf_1
    then (
      if has_cmp_legacy cpuid max_extended_index
          then cmp_legacy cpuid max_extended_index leaf_1 topology
          else by_logical_processors leaf_1 topology,
      leaf_1.ebx >>> 24,
    )
    else (topology, 0)

-- The variables of the loop over the levels of leaf 0xB.
pub record LevelState : Type 0 where
  pub level : ℕ
  pub total_shift : ℕ
  pub apic_id : ℕ
  pub topology : Topology

-- The `switch`.
unfoldable pub store_level : CpuidRegs → ℕ → Topology → Topology
store_level leaf_b total_shift topology =
    if level_type leaf_b == topology_type_smt
    then record topology {
      thread_bits_offset = total_shift;
      thread_bits_length = level_shift leaf_b;
    }
    else if level_type leaf_b == topology_type_core
    then record topology { core_bits_offset = total_shift; core_bits_length = level_shift leaf_b }
    else topology

unfoldable pub level_step : CpuidRegs → LevelState → LevelState
unfolding store_level
level_step leaf_b s = record {
  level = u32 (s.level + 1);
  total_shift = u32 (s.total_shift + level_shift leaf_b);
  apic_id = leaf_b.edx;
  topology = store_level leaf_b s.total_shift s.topology;
}

-- The loop, with fuel; `none` means that the fuel ran out.
unfoldable pub walk_levels : (ℕ → CpuidRegs) → ℕ → LevelState → Option LevelState
unfolding level_step
walk_levels leaf_b zero s = none
walk_levels leaf_b (suc fuel) s =
    let rest = walk_levels leaf_b fuel (level_step (leaf_b s.level) s) in
    if level_type (leaf_b s.level) == 0 then some (level_step (leaf_b s.level) s) else rest

-- The variables before the loop.
abbrev pub first_level : ℕ → Topology → LevelState
first_level apic_id topology = record {
  level = 0;
  total_shift = 0;
  apic_id = apic_id;
  topology = record topology {
    thread_bits_offset = 0;
    thread_bits_length = 0;
    core_bits_offset = 0;
    core_bits_length = 0;
  };
}

abbrev pub has_x2apic : CpuidRegs → Bool
has_x2apic leaf_1 = has leaf_1.ecx 0x00200000

abbrev pub with_apic_id : Topology → ℕ → Topology
with_apic_id topology apic_id = record topology { apic_id = apic_id }

abbrev pub finish_levels : Option LevelState → Option Topology
finish_levels none = none
finish_levels (some s) = some (with_apic_id s.topology s.apic_id)

unfoldable pub detect_topology :
    ℕ → (ℕ → CpuidRegs) → (ℕ → ℕ → CpuidRegs) → ℕ → ℕ → CpuidRegs → Topology → Option Topology
unfolding by_leaf_1 walk_levels
detect_topology fuel cpuid cpuidex max_base_index max_extended_index leaf_1 topology =
    let (after_leaf_1, apic_id) = by_leaf_1 cpuid max_extended_index leaf_1 topology in
    if has_x2apic leaf_1 && leb 0xB max_base_index
    then finish_levels (walk_levels (cpuidex 0xB) fuel (first_level apic_id after_leaf_1))
    else some (with_apic_id after_leaf_1 apic_id)
