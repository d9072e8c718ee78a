-- ===== src/Arm/Caches.antt =====
-- src/arm/cache.c: the caches of a core by its microarchitecture (`cpuinfo_arm_decode_cache`). Uarch has
-- the values of `enum cpuinfo_uarch` that its cases name.
pub mod Uarch
pub mod Old
pub mod Cortex
pub mod Custom
pub mod Decode
pub mod Whole
pub mod Chosen
pub mod Result
use cpuinfo.Base.{ℕ, ◌*◌, ◌/◌, Bool, not, ◌==◌, if◌then◌else◌}
use cpuinfo.Arm.Chipset.{Chipset}

-- `struct cpuinfo_cache`, less the processors that share it.
pub record CoreCache : Type 0 where
  pub size : ℕ
  pub associativity : ℕ
  pub sets : ℕ
  pub partitions : ℕ
  pub line_size : ℕ
  pub flags : ℕ

-- The four caches that the function writes.
pub record CoreCaches : Type 0 where
  pub l1i : CoreCache
  pub l1d : CoreCache
  pub l2 : CoreCache
  pub l3 : CoreCache

-- The other parameters.
pub record Asked : Type 0 where
  pub uarch : ℕ
  pub cluster_cores : ℕ
  pub midr : ℕ
  pub chipset : Chipset
  pub cluster_id : ℕ
  pub arch_version : ℕ

-- The targets that the preprocessor tells apart: 32-bit ARM before version 7, and before version 8, and
-- 64-bit ARM without Android.
pub record ArmTarget : Type 0 where
  pub before_v7 : Bool
  pub before_v8 : Bool
  pub arm64_no_android : Bool

-- A structure with the members that are not named set to 0.
abbrev pub cache_of : ℕ → ℕ → ℕ → CoreCache
cache_of size associativity line_size = record {
  size = size;
  associativity = associativity;
  sets = 0;
  partitions = 0;
  line_size = line_size;
  flags = 0;
}

-- The same with `CPUINFO_CACHE_INCLUSIVE`.
abbrev pub inclusive_of : ℕ → ℕ → ℕ → CoreCache
inclusive_of size associativity line_size = record (cache_of size associativity line_size) {
  flags = 0x00000002;
}

-- A level after its sets are computed. C leaves a division by 0 undefined.
abbrev pub with_sets : CoreCache → CoreCache
with_sets c = record c { sets = c.size / (c.associativity * c.line_size); partitions = 1 }

-- The end of the function.
unfoldable pub finish_caches : CoreCaches → CoreCaches
finish_caches c = record {
  l1i = with_sets c.l1i;
  l1d = with_sets c.l1d;
  l2 = if not (c.l2.size == 0) then with_sets c.l2 else c.l2;
  l3 =
      if not (c.l2.size == 0)
      then (if not (c.l3.size == 0) then with_sets c.l3 else c.l3)
      else c.l3;
}
