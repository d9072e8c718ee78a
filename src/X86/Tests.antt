-- ===== src/X86/Tests.antt =====
-- Runs of the functions of src/x86 at concrete registers.
mod Detect
mod Topology
mod Objects
use cpuinfo.Base.{ℕ, ◌*◌, ◌≤◌, ◌<◌, ◌^◌, true, ◌≡◌, refl, arith}
use cpuinfo.X86.BitLength.{bit_length, binary_length}
use cpuinfo.X86.BitLength.Least.{bit_length_least}
use cpuinfo.X86.Caches.{
  Cache, Caches, decode_deterministic_cache_parameters, decode_cache_properties,
}
use cpuinfo.X86.Caches.Encode.{unified, third, Geometry, Fits, encode}
use cpuinfo.X86.Caches.RoundTrip.{decode-encode}

-- 12 things need 4 bits.
bit_length_least_example : (12 ≤ 2 ^ bit_length 12) × (2 ^ bit_length 12 < 2 * 12)
bit_length_least_example = bit_length_least 12 (omega arith) (omega arith)

twelve : bit_length 12 ≡ 4
unfolding bit_length binary_length
twelve = refl

abbrev no_cache : Cache
no_cache = record {
  size = 0;
  associativity = 0;
  sets = 0;
  partitions = 0;
  line_size = 0;
  flags = 0;
  apic_bits = 0;
}

abbrev no_caches : Caches
no_caches = record {
  trace = (0, 0);
  l1i = no_cache;
  l1d = no_cache;
  l2 = no_cache;
  l3 = no_cache;
  l4 = no_cache;
  prefetch_size = 0;
}

-- 8 MB that 16 processors share, inclusive and with complex indexing.
abbrev shared : Geometry
shared = record {
  kind = unified;
  level = third;
  sharing = 16;
  cores = 8;
  ways = 16;
  partitions = 1;
  line = 64;
  sets = 8192;
  properties = 6;
}

shared-Fits : Fits shared
shared-Fits = record {
  sharing_fits = (omega arith, omega arith);
  cores_fits = (omega arith, omega arith);
  ways_fits = (omega arith, omega arith);
  partitions_fits = (omega arith, omega arith);
  line_fits = (omega arith, omega arith);
  sets_fits = (omega arith, omega arith);
}

abbrev eight_megabytes : ℕ → Cache
eight_megabytes flags = record {
  size = 8388608;
  associativity = 16;
  sets = 8192;
  partitions = 1;
  line_size = 64;
  flags = flags;
  apic_bits = 4;
}

decode-encode_example :
    (decode_deterministic_cache_parameters (encode shared) no_caches 0
      ≡ (record no_caches { l3 = eight_megabytes 7 }, 8, true))
    × (decode_cache_properties (encode shared) no_caches
        ≡ (record no_caches { l3 = eight_megabytes 3 }, true))
unfolding bit_length binary_length
decode-encode_example = decode-encode shared no_caches 0 shared-Fits
