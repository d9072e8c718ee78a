-- ===== src/X86/Caches/Detect.antt =====
-- `cpuinfo_x86_detect_cache` of src/x86/cache/init.c. The instruction CPUID is a parameter; as it is
-- executed several times for leaf 2, that parameter is numbered by the executions.
pub mod Stored
pub mod Walks
pub mod Result
use cpuinfo.Base.{
  ℕ, zero, suc, ◌+◌, ◌/◌, ◌%◌, ◌^◌, bit_and, Bool, true, false, not, Option, none, some, List, [],
  ◌∷◌, ◌++◌, ◌&&◌, ◌==◌, leb, if◌then◌else◌, u32, ◌>>>◌,
}
use cpuinfo.X86.BitLength.{bit_length}
use cpuinfo.X86.Caches.{
  CpuidRegs, Caches, decode_deterministic_cache_parameters, decode_cache_properties,
}
use cpuinfo.X86.Caches.Stores.{ModelInfo, Target, vendor_amd, vendor_hygon}
use cpuinfo.X86.Caches.Descriptors.{Decoded, decode_cache_descriptor}

-- The bytes of a register, the lowest first, and of the four registers: `as_bytes`.
abbrev pub bytes_of_reg : ℕ → List ℕ
bytes_of_reg r =
    bit_and r 0xff ∷ bit_and (r >>> 8) 0xff ∷ bit_and (r >>> 16) 0xff ∷ bit_and (r >>> 24) 0xff ∷ []

abbrev pub descriptors_of : CpuidRegs → List ℕ
descriptors_of regs =
    (bit_and (regs.eax >>> 8) 0xff
      ∷ bit_and (regs.eax >>> 16) 0xff
      ∷ bit_and (regs.eax >>> 24) 0xff
      ∷ [])
    ++ bytes_of_reg regs.ebx
    ++ bytes_of_reg regs.ecx
    ++ bytes_of_reg regs.edx

-- Byte 0 of the first execution.
abbrev pub iterations_of : CpuidRegs → ℕ
iterations_of regs = bit_and regs.eax 0xff

module _ (target : Target) (vendor : ℕ) (model_info : ModelInfo) where
  -- The loop over the bytes from 1 on.
  unfoldable pub decode_descriptors : List ℕ → Decoded → Decoded
  decode_descriptors [] d = d
  decode_descriptors (descriptor ∷ descriptors) d = decode_descriptors descriptors (
      if not (descriptor == 0)
      then decode_cache_descriptor target vendor model_info descriptor d
      else d)

  -- `iterate_descriptors`, from execution `k` on, with the iterations that are left.
  unfoldable pub iterate_descriptors : (ℕ → CpuidRegs) → ℕ → ℕ → Decoded → Decoded
  unfolding decode_descriptors
  iterate_descriptors leaf_2 k zero d = d
  iterate_descriptors leaf_2 k (suc iterations) d =
      iterate_descriptors leaf_2 (suc k) iterations
        (decode_descriptors (descriptors_of (leaf_2 k)) d)

-- The loop over the subleaves of leaf 4, with fuel; `none` means that the fuel ran out.
unfoldable pub walk_leaf_4 : (ℕ → CpuidRegs) → ℕ → ℕ → Caches → ℕ → Option (Caches × ℕ)
walk_leaf_4 leaf_4 zero input_ecx cache package_cores_max = none
walk_leaf_4 leaf_4 (suc fuel) input_ecx cache package_cores_max =
    let decoded =
      decode_deterministic_cache_parameters (leaf_4 input_ecx) cache package_cores_max in
    let rest = walk_leaf_4 leaf_4 fuel (u32 (input_ecx + 1)) decoded.0 decoded.1 in
    if decoded.2 then rest else some (decoded.0, decoded.1)

-- The same for leaf 0x8000001D.
unfoldable pub walk_properties : (ℕ → CpuidRegs) → ℕ → ℕ → Caches → Option Caches
walk_properties leaf zero input_ecx cache = none
walk_properties leaf (suc fuel) input_ecx cache =
    let decoded = decode_cache_properties (leaf input_ecx) cache in
    let rest = walk_properties leaf fuel (u32 (input_ecx + 1)) decoded.0 in
    if decoded.1 then rest else some decoded.0

-- What the function changes: the caches and TLBs, and `log2_package_cores_max`.
pub record Detection : Type 0 where
  pub decoded : Decoded
  pub log2_package_cores_max : ℕ

abbrev pub with_caches : Detection → Caches → Detection
with_caches s cache = record s { decoded = record (s.decoded) { cache = cache } }

unfoldable pub after_leaf_4 : Detection → Option (Caches × ℕ) → Option Detection
after_leaf_4 s none = none
after_leaf_4 s (some (cache, package_cores_max)) = some (
    if not (package_cores_max == 0)
    then record (with_caches s cache) { log2_package_cores_max = bit_length package_cores_max }
    else with_caches s cache)

unfoldable pub after_properties : Detection → Option Caches → Option Detection
after_properties s none = none
after_properties s (some cache) = some (with_caches s cache)

-- The instruction: leaf 2 by the number of the execution, the other two leaves by the subleaf.
pub record Cpuid : Type 0 where
  pub leaf_2 : ℕ → CpuidRegs
  pub leaf_4 : ℕ → CpuidRegs
  pub leaf_8000001d : ℕ → CpuidRegs

unfoldable pub detect_by_basic_leaves :
    ℕ → Cpuid → Target → ℕ → ModelInfo → ℕ → Detection → Option Detection
unfolding iterate_descriptors walk_leaf_4 after_leaf_4
detect_by_basic_leaves fuel cpuid target vendor model_info max_base_index s =
    let decoded = record s {
      decoded =
          iterate_descriptors target vendor model_info cpuid.leaf_2 0
            (iterations_of (cpuid.leaf_2 0)) s.decoded;
    } in
    if not (leb 2 max_base_index)
    then some s
    else if (not (vendor == vendor_amd) && not (vendor == vendor_hygon)) && leb 4 max_base_index
    then after_leaf_4 decoded (walk_leaf_4 cpuid.leaf_4 fuel 0 decoded.decoded.cache 0)
    else some decoded

unfoldable pub detect_by_extended_leaf : ℕ → Cpuid → Bool → ℕ → Detection → Option Detection
unfolding walk_properties after_properties
detect_by_extended_leaf fuel cpuid amd_topology_extensions max_extended_index s =
    if amd_topology_extensions && leb 0x8000001D max_extended_index
    then after_properties s (walk_properties cpuid.leaf_8000001d fuel 0 s.decoded.cache)
    else some s

abbrev pub then_extended : Option Detection → (Detection → Option Detection) → Option Detection
then_extended none f = none
then_extended (some s) f = f s

unfoldable pub detect_cache :
    ℕ → Cpuid → Target → ℕ → ModelInfo → ℕ → ℕ → Bool → Detection → Option Detection
unfolding detect_by_basic_leaves detect_by_extended_leaf
detect_cache fuel cpuid target vendor model_info max_base_index max_extended_index
      amd_topology_extensions s =
    then_extended (detect_by_basic_leaves fuel cpuid target vendor model_info max_base_index s)
      (detect_by_extended_leaf fuel cpuid amd_topology_extensions max_extended_index)
