-- ===== src/X86/Tests/Detect.antt =====
-- Runs of the detection of the caches.
use cpuinfo.Base.{ℕ, zero, suc, ◌*◌, false, some, ◌≡◌, refl, arith}
use cpuinfo.X86.BitLength.{bit_length, binary_length}
use cpuinfo.X86.Caches.{
  CpuidRegs, Cache, Caches, cache_inclusive, field_type, field_level, field_cores, field_sharing,
  field_sets, field_line_size, field_partitions, field_associativity, described, store_first,
  store_other, decode_deterministic_cache_parameters,
}
use cpuinfo.X86.Caches.Sizes.{HaveSizes}
use cpuinfo.X86.Caches.Stores.{ModelInfo, x86_64, vendor_intel, plain_cache, plain_tlb}
use cpuinfo.X86.Caches.Descriptors.{
  perform, perform_all, find_case, descriptor_cases, decode_cache_descriptor,
}
use cpuinfo.X86.Caches.Detect.{
  Detection, Cpuid, decode_descriptors, iterate_descriptors, walk_leaf_4, walk_properties,
  after_leaf_4, after_properties, detect_by_basic_leaves, detect_by_extended_leaf, detect_cache,
}
use cpuinfo.X86.Caches.Detect.Walks.{EndsAt}
use cpuinfo.X86.Caches.Detect.Result.{detect_cache-HaveSizes}

abbrev regs : ℕ → ℕ → ℕ → ℕ → CpuidRegs
regs eax ebx ecx edx = record { eax = eax; ebx = ebx; ecx = ecx; edx = edx }

abbrev no_cache : Cache
no_cache = plain_cache 0 0 0 0 0 0

abbrev no_caches : Caches
no_caches = record {
  trace = (0, 0);
  l1i = no_cache;
  l1d = no_cache;
  l2 = no_cache;
  l3 = no_cache;
  l4 = no_cache;
  prefetch_size = 0;
}

abbrev nothing : Detection
nothing = record {
  decoded = record { cache = no_caches; tlbs = λ name. plain_tlb 0 0 0 };
  log2_package_cores_max = 0;
}

abbrev model : ModelInfo
model = record {
  model = 0;
  family = 0;
  base_model = 0;
  base_family = 0;
  stepping = 0;
  extended_model = 0;
  extended_family = 0;
  processor_type = 0;
}

-- Leaf 2 names a cache of data of 8 KB, with 64-byte lines; leaf 4 a second level of 256 KB for two
-- processors of a package of eight cores.
abbrev leaf_4 : ℕ → CpuidRegs
leaf_4 zero = regs 0x1C004143 0x01C0003F 0x1FF 0
leaf_4 (suc n) = regs 0 0 0 0

abbrev cpuid : Cpuid
cpuid = record {
  leaf_2 = λ k. regs 0x00006601 0 0 0;
  leaf_4 = leaf_4;
  leaf_8000001d = λ k. regs 0 0 0 0;
}

detected :
    detect_cache 5 cpuid x86_64 vendor_intel model 4 0x80000000 false nothing
    ≡ some (record {
      decoded = record {
        cache = record no_caches {
          l1d = plain_cache (8 * 1024) 4 32 1 64 0;
          l2 = record {
            size = 256 * 1024;
            associativity = 8;
            sets = 512;
            partitions = 1;
            line_size = 64;
            flags = 1;
            apic_bits = 1;
          };
        };
        tlbs = λ name. plain_tlb 0 0 0;
      };
      log2_package_cores_max = 3;
    })
unfolding detect_cache detect_by_basic_leaves detect_by_extended_leaf iterate_descriptors
    decode_descriptors walk_leaf_4 walk_properties after_leaf_4 after_properties
    decode_cache_descriptor perform_all perform find_case descriptor_cases
    decode_deterministic_cache_parameters store_first store_other described field_type field_level
    field_cores field_sharing field_sets field_line_size field_partitions field_associativity
    bit_length binary_length
detected = refl

-- Registers of zeros describe no cache.
zeros-EndsAt : EndsAt (λ k. regs 0 0 0 0) 0
unfolding field_type
zeros-EndsAt = record { is_none = refl; in_range = omega arith }

leaf_4-EndsAt : EndsAt leaf_4 1
unfolding field_type
leaf_4-EndsAt = record { is_none = refl; in_range = omega arith }

no_caches-HaveSizes : HaveSizes no_caches
no_caches-HaveSizes = record {
  l1i_size = refl;
  l1d_size = refl;
  l2_size = refl;
  l3_size = refl;
  l4_size = refl;
}

detect_cache-HaveSizes_example :
    (s' : Detection) × (detect_cache 5 cpuid x86_64 vendor_intel model 4 0x80000000 false nothing
      ≡ some s')
    × HaveSizes s'.decoded.cache
detect_cache-HaveSizes_example =
    detect_cache-HaveSizes 5 cpuid x86_64 vendor_intel model 4 0x80000000 false nothing 1 0
      leaf_4-EndsAt (omega arith) zeros-EndsAt (omega arith) (λ j. omega arith) no_caches-HaveSizes

-- Descriptor 0x1D stands for 128 KB in two ways; the missing `break` makes it 256 KB in eight.
falls_through :
    (decode_cache_descriptor x86_64 vendor_intel model 0x1D nothing.decoded).cache.l2
    ≡ plain_cache (256 * 1024) 8 512 1 64 cache_inclusive
unfolding decode_cache_descriptor perform_all perform find_case descriptor_cases
falls_through = refl

-- Descriptor 0xD2 stands for 2 MB.
too_large :
    (decode_cache_descriptor x86_64 vendor_intel model 0xD2 nothing.decoded).cache.l3
    ≡ plain_cache 4124672 4 8192 1 64 cache_inclusive
unfolding decode_cache_descriptor perform_all perform find_case descriptor_cases
too_large = refl
