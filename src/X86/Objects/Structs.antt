-- ===== src/X86/Objects/Structs.antt =====
-- The structures of include/cpuinfo.h that src/x86/linux/init.c fills, and the variables of its loop. A
-- pointer into an array is an index.
use cpuinfo.Base.{ℕ, Option, List}
use cpuinfo.X86.Caches.{Cache}

-- `struct cpuinfo_processor` and the structures it points to.
pub record CpuinfoProcessor : Type 0 where
  pub smt_id : ℕ
  pub core : ℕ
  pub cluster : ℕ
  pub package_index : ℕ
  pub linux_id : ℕ
  pub apic_id : ℕ
  pub l1i : ℕ
  pub l1d : ℕ
  pub l2 : ℕ
  pub l3 : ℕ
  pub l4 : ℕ

pub record CpuinfoCore : Type 0 where
  pub processor_start : ℕ
  pub processor_count : ℕ
  pub core_id : ℕ
  pub cluster : ℕ
  pub package_index : ℕ
  pub vendor : ℕ
  pub uarch : ℕ
  pub cpuid : ℕ

pub record CpuinfoCluster : Type 0 where
  pub processor_start : ℕ
  pub processor_count : ℕ
  pub core_start : ℕ
  pub core_count : ℕ
  pub cluster_id : ℕ
  pub package_index : ℕ
  pub vendor : ℕ
  pub uarch : ℕ
  pub cpuid : ℕ

-- The name of a package, which src/x86/name.c makes up, is left out.
pub record CpuinfoPackage : Type 0 where
  pub processor_start : ℕ
  pub processor_count : ℕ
  pub core_start : ℕ
  pub core_count : ℕ
  pub cluster_start : ℕ
  pub cluster_count : ℕ

-- `struct cpuinfo_cache`; `geometry` stands for the six members that are copied.
pub record CpuinfoCache : Type 0 where
  pub geometry : Cache
  pub processor_start : ℕ
  pub processor_count : ℕ

-- The array of the caches of a level, its index and the last identifier.
pub record CacheFill : Type 0 where
  pub items : List CpuinfoCache
  pub index : ℕ
  pub last_id : ℕ

-- The variables of the loop.
pub record Fill : Type 0 where
  pub processors : List CpuinfoProcessor
  pub processor_index : ℕ
  pub smt_id : ℕ
  pub cores : List CpuinfoCore
  pub core_index : ℕ
  pub core_id : ℕ
  pub last_core_id : ℕ
  pub clusters : List CpuinfoCluster
  pub cluster_index : ℕ
  pub cluster_id : ℕ
  pub last_cluster_id : ℕ
  pub packages : List CpuinfoPackage
  pub package_index : ℕ
  pub last_package_id : ℕ
  pub l1i : CacheFill
  pub l1d : CacheFill
  pub l2 : CacheFill
  pub l3 : CacheFill
  pub l4 : CacheFill
  pub processor_map : List (Option ℕ)
  pub core_map : List (Option ℕ)
