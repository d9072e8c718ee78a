-- ===== src/X86/Objects/Init.antt =====
-- `cpuinfo_x86_linux_init`, from the processors that /proc/cpuinfo has filled in to the arrays that it
-- commits. `qsort` is a parameter, and every allocation succeeds.
use cpuinfo.Base.{uint32_max, ℕ, zero, suc, none, List, [], ◌∷◌, map, length}
use cpuinfo.X86.Caches.{Cache}
use cpuinfo.X86.Objects.{
  LinuxProcessor, X86Processor, Counts, processors_and_mask, mark_valid, number_valid, count_usable,
  llc_bits, no_counts, count_objects,
}
use cpuinfo.X86.Objects.Structs.{
  CpuinfoProcessor, CpuinfoCore, CpuinfoCluster, CpuinfoPackage, CpuinfoCache, CacheFill, Fill,
}
use cpuinfo.X86.Objects.Fill.{fill_objects}

abbrev pub calloc {ℓ} : {A : Type ℓ} → A → ℕ → List A
calloc x zero = []
calloc x (suc n) = x ∷ calloc x n

abbrev zero_processor : CpuinfoProcessor
zero_processor = record {
  smt_id = 0;
  core = 0;
  cluster = 0;
  package_index = 0;
  linux_id = 0;
  apic_id = 0;
  l1i = 0;
  l1d = 0;
  l2 = 0;
  l3 = 0;
  l4 = 0;
}

abbrev zero_core : CpuinfoCore
zero_core = record {
  processor_start = 0;
  processor_count = 0;
  core_id = 0;
  cluster = 0;
  package_index = 0;
  vendor = 0;
  uarch = 0;
  cpuid = 0;
}

abbrev zero_cluster : CpuinfoCluster
zero_cluster = record {
  processor_start = 0;
  processor_count = 0;
  core_start = 0;
  core_count = 0;
  cluster_id = 0;
  package_index = 0;
  vendor = 0;
  uarch = 0;
  cpuid = 0;
}

abbrev zero_package : CpuinfoPackage
zero_package = record {
  processor_start = 0;
  processor_count = 0;
  core_start = 0;
  core_count = 0;
  cluster_start = 0;
  cluster_count = 0;
}

abbrev zero_cache : Cache
zero_cache = record {
  size = 0;
  associativity = 0;
  sets = 0;
  partitions = 0;
  line_size = 0;
  flags = 0;
  apic_bits = 0;
}

abbrev pub zero_shared : CpuinfoCache
zero_shared = record { geometry = zero_cache; processor_start = 0; processor_count = 0 }

-- The array for the caches of a level, which is not allocated where there are none.
abbrev pub no_cache_yet : ℕ → CacheFill
no_cache_yet count = record {
  items = calloc zero_shared count;
  index = uint32_max;
  last_id = uint32_max;
}

-- The variables before the loop.
unfoldable pub allocate : ℕ → ℕ → Counts → Fill
allocate x86_linux_processors_count processors_count n = record {
  processors = calloc zero_processor processors_count;
  processor_index = uint32_max;
  smt_id = 0;
  cores = calloc zero_core n.cores.count;
  core_index = uint32_max;
  core_id = 0;
  last_core_id = uint32_max;
  clusters = calloc zero_cluster n.clusters.count;
  cluster_index = uint32_max;
  cluster_id = 0;
  last_cluster_id = uint32_max;
  packages = calloc zero_package n.packages.count;
  package_index = uint32_max;
  last_package_id = uint32_max;
  l1i = no_cache_yet n.l1i.count;
  l1d = no_cache_yet n.l1d.count;
  l2 = no_cache_yet n.l2.count;
  l3 = no_cache_yet n.l3.count;
  l4 = no_cache_yet n.l4.count;
  processor_map = calloc none x86_linux_processors_count;
  core_map = calloc none x86_linux_processors_count;
}

-- The numbers of objects and the arrays, for the array of processors after it is sorted.
unfoldable pub init_sorted : X86Processor → ℕ → ℕ → List LinuxProcessor → Counts × Fill
unfolding allocate
init_sorted x86 valid_processor_mask processors_count sorted =
    let n = count_objects x86 (llc_bits x86.cache) valid_processor_mask sorted no_counts in
    (
      n,
      fill_objects x86 (llc_bits x86.cache) 0 sorted (allocate (length sorted) processors_count n),
    )

-- The function, from the three numbers of processors.
unfoldable pub x86_linux_init :
    (List LinuxProcessor → List LinuxProcessor)
    → X86Processor
    → ℕ
    → ℕ
    → ℕ
    → List LinuxProcessor
    → Counts × Fill
unfolding init_sorted
x86_linux_init qsort x86 max_processors max_possible max_present ps =
    let mask = (processors_and_mask max_processors max_possible max_present).1 in
    let marked = map (mark_valid mask) ps in
    init_sorted x86 mask (count_usable marked 0) (qsort (number_valid 0 marked))
