-- ===== src/X86/Caches.antt =====
-- src/x86/cache/deterministic.c: the description of a cache in a subleaf of CPUID leaf 4 of Intel,
-- and of leaf 0x8000001D of AMD.
pub mod Sizes
pub mod Stores
pub mod Descriptors
pub mod Detect
pub mod Encode
pub mod RoundTrip
use cpuinfo.Base.{
  ℕ, ◌+◌, ◌*◌, ◌%◌, bit_and, bit_or, Bool, true, false, ◌==◌, if◌then◌else◌, has, u32, ◌>>>◌,
}
use cpuinfo.X86.BitLength.{bit_length}

pub record CpuidRegs : Type 0 where
  pub eax : ℕ
  pub ebx : ℕ
  pub ecx : ℕ
  pub edx : ℕ

pub record Cache : Type 0 where
  pub size : ℕ
  pub associativity : ℕ
  pub sets : ℕ
  pub partitions : ℕ
  pub line_size : ℕ
  pub flags : ℕ
  pub apic_bits : ℕ

-- `trace` has the numbers of micro-operations and of ways.
pub record Caches : Type 0 where
  pub trace : ℕ × ℕ
  pub l1i : Cache
  pub l1d : Cache
  pub l2 : Cache
  pub l3 : Cache
  pub l4 : Cache
  pub prefetch_size : ℕ

-- `CPUINFO_CACHE_UNIFIED`, `CPUINFO_CACHE_INCLUSIVE` and `CPUINFO_CACHE_COMPLEX_INDEXING`.
abbrev pub cache_unified : ℕ
cache_unified = 0x00000001

abbrev pub cache_inclusive : ℕ
cache_inclusive = 0x00000002

abbrev pub cache_complex_indexing : ℕ
cache_complex_indexing = 0x00000004

-- `enum cache_type`; other values of the field have no name.
abbrev pub cache_type_none : ℕ
cache_type_none = 0

abbrev pub cache_type_data : ℕ
cache_type_data = 1

abbrev pub cache_type_instruction : ℕ
cache_type_instruction = 2

abbrev pub cache_type_unified : ℕ
cache_type_unified = 3

unfoldable pub field_type : CpuidRegs → ℕ
field_type regs = bit_and regs.eax 0x1f

unfoldable pub field_level : CpuidRegs → ℕ
field_level regs = bit_and (regs.eax >>> 5) 0x7

unfoldable pub field_cores : CpuidRegs → ℕ
field_cores regs = u32 (1 + (regs.eax >>> 26))

-- The number of processors that share the cache, or of cores.
unfoldable pub field_sharing : CpuidRegs → ℕ
field_sharing regs = u32 (1 + bit_and (regs.eax >>> 14) 0xfff)

unfoldable pub field_sets : CpuidRegs → ℕ
field_sets regs = u32 (1 + regs.ecx)

unfoldable pub field_line_size : CpuidRegs → ℕ
field_line_size regs = u32 (1 + bit_and regs.ebx 0xfff)

unfoldable pub field_partitions : CpuidRegs → ℕ
field_partitions regs = u32 (1 + bit_and (regs.ebx >>> 12) 0x3ff)

unfoldable pub field_associativity : CpuidRegs → ℕ
field_associativity regs = u32 (1 + (regs.ebx >>> 22))

-- What is put together for every case of the two `switch` statements.
unfoldable pub described : CpuidRegs → ℕ → Cache
described regs flags = record {
  size = u32 (
      u32 (u32 (field_associativity regs * field_partitions regs) * field_line_size regs)
      * field_sets regs);
  associativity = field_associativity regs;
  sets = field_sets regs;
  partitions = field_partitions regs;
  line_size = field_line_size regs;
  flags = flags;
  apic_bits = bit_length (field_sharing regs);
}

abbrev pub inclusive_flag : ℕ → ℕ
inclusive_flag edx = if has edx 0x2 then cache_inclusive else 0

abbrev pub complex_flag : ℕ → ℕ → ℕ
complex_flag edx flags = if has edx 0x4 then bit_or flags cache_complex_indexing else flags

-- The case of level 1.
unfoldable pub store_first : CpuidRegs → ℕ → Caches → Caches
store_first regs flags cache =
    if field_type regs == cache_type_unified
    then record cache {
      l1i = described regs (bit_or flags cache_unified);
      l1d = described regs (bit_or flags cache_unified);
    }
    else if field_type regs == cache_type_data
    then record cache { l1d = described regs flags }
    else if field_type regs == cache_type_instruction
    then record cache { l1i = described regs flags }
    else cache

-- The cases of the other levels, which differ in the member that they assign.
unfoldable pub store_other : CpuidRegs → ℕ → (Cache → Caches) → Caches → Caches
store_other regs flags put cache =
    if field_type regs == cache_type_unified
    then put (described regs (bit_or flags cache_unified))
    else if field_type regs == cache_type_data
    then put (described regs flags)
    else cache

-- The two functions return the caches, and whether there is one; the first also the number of cores.
unfoldable pub decode_deterministic_cache_parameters : CpuidRegs → Caches → ℕ → Caches × ℕ × Bool
decode_deterministic_cache_parameters regs cache package_cores_max =
    let flags = complex_flag regs.edx (inclusive_flag regs.edx) in
    if field_type regs == cache_type_none then (cache, package_cores_max, false) else (
      if field_level regs == 1
          then store_first regs flags cache
          else if field_level regs == 2
          then store_other regs flags (λ c. record cache { l2 = c }) cache
          else if field_level regs == 3
          then store_other regs flags (λ c. record cache { l3 = c }) cache
          else if field_level regs == 4
          then store_other regs flags (λ c. record cache { l4 = c }) cache
          else cache,
      field_cores regs,
      true,
    )

unfoldable pub decode_cache_properties : CpuidRegs → Caches → Caches × Bool
decode_cache_properties regs cache =
    let flags = inclusive_flag regs.edx in
    if field_type regs == cache_type_none then (cache, false) else (
      if field_level regs == 1
          then store_first regs flags cache
          else if field_level regs == 2
          then store_other regs flags (λ c. record cache { l2 = c }) cache
          else if field_level regs == 3
          then store_other regs flags (λ c. record cache { l3 = c }) cache
          else cache,
      true,
    )
