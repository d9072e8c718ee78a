-- ===== src/X86/Tests/Topology.antt =====
-- Runs of the detection of the bits of threads and cores.
use cpuinfo.Base.{true, false, ℕ, zero, suc, ◌<◌, ◌^◌, ◌-◌, ◌>>>◌, bit_and, ◌≡◌, some, refl, arith}
use cpuinfo.X86.BitLength.{bit_length, binary_length}
use cpuinfo.X86.Caches.{CpuidRegs}
use cpuinfo.X86.Topology.{
  Topology, store_level, level_step, walk_levels, cmp_legacy, by_logical_processors, by_leaf_1,
  detect_topology,
}
use cpuinfo.X86.Topology.Levels.{EndsAt, topology_of_levels, detect_topology-levels}
use cpuinfo.X86.Topology.Legacy.{Promises, detect_topology-Promises}

abbrev regs : ℕ → ℕ → ℕ → ℕ → CpuidRegs
regs eax ebx ecx edx = record { eax = eax; ebx = ebx; ecx = ecx; edx = edx }

abbrev no_leaf : ℕ → CpuidRegs
no_leaf leaf = regs 0 0 0 0

-- Two threads and up to sixteen cores, on the processor with x2APIC ID 5.
abbrev levels : ℕ → CpuidRegs
levels zero = regs 1 2 0x100 5
levels (suc zero) = regs 4 16 0x201 5
levels (suc (suc n)) = regs 0 0 0x2 5

abbrev leaf : ℕ → ℕ → CpuidRegs
leaf n k = levels k

abbrev nothing : Topology
nothing = record {
  apic_id = 0;
  thread_bits_offset = 0;
  thread_bits_length = 0;
  core_bits_offset = 0;
  core_bits_length = 6;
}

levels-EndsAt : EndsAt levels 2
levels-EndsAt = record { is_invalid = refl; valid_before = before; in_range = omega arith }
  where
    before : (k : ℕ) → k < 2 → (bit_and ((levels k).ecx >>> 8) 0x000000FF ≡ 0) → ⊥
    before zero h = omega arith
    before (suc zero) h = omega arith
    before (suc (suc k)) h = absurd (omega arith)

-- Leaf 1 with hyper-threading, sixteen logical processors and x2APIC; and without x2APIC.
abbrev with_x2apic : CpuidRegs
with_x2apic = regs 0 0x07100800 0x00200000 0x10000000

abbrev without_x2apic : CpuidRegs
without_x2apic = regs 0 0x07100800 0 0x10000000

detect_topology-levels_example :
    detect_topology 10 no_leaf leaf 0xB 0 with_x2apic nothing ≡ some (topology_of_levels levels 5 2)
detect_topology-levels_example =
    detect_topology-levels 10 no_leaf leaf 0xB 0 with_x2apic nothing 2 refl refl levels-EndsAt
      (omega arith)

-- The bit of a thread, and four of cores above it.
two_levels :
    detect_topology 10 no_leaf leaf 0xB 0 with_x2apic nothing
    ≡ some (record {
      apic_id = 5;
      thread_bits_offset = 0;
      thread_bits_length = 1;
      core_bits_offset = 1;
      core_bits_length = 4;
    })
unfolding detect_topology walk_levels level_step store_level by_leaf_1 cmp_legacy
    by_logical_processors bit_length binary_length
two_levels = refl

-- Four bits of logical processors are fewer than six of cores.
detect_topology-Promises_example :
    (t : Topology) × (detect_topology 0 no_leaf leaf 2 0 without_x2apic nothing ≡ some t)
    × (t.apic_id ≡ 7)
    × Promises true false false 16 1 nothing t
detect_topology-Promises_example =
    detect_topology-Promises 0 no_leaf leaf 2 0 without_x2apic nothing refl (omega arith)

wrapped_around :
    detect_topology 0 no_leaf leaf 2 0 without_x2apic nothing
    ≡ some (record {
      apic_id = 7;
      thread_bits_offset = 0;
      thread_bits_length = 2 ^ 32 - 2;
      core_bits_offset = 2 ^ 32 - 2;
      core_bits_length = 6;
    })
unfolding detect_topology walk_levels level_step store_level by_leaf_1 cmp_legacy
    by_logical_processors bit_length binary_length
wrapped_around = refl
