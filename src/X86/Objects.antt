-- ===== src/X86/Objects.antt =====
-- The first part of src/x86/linux/init.c: which processors are usable, the order that they are sorted
-- by, and `cpuinfo_x86_count_objects`. Shifts by 32 bits or more, which C leaves undefined, give 0 here.
pub mod Structs
pub mod Fill
pub mod Runs
pub mod Allocated
pub mod Project
pub mod Stores
pub mod Steps
pub mod Init
pub mod Counted
pub mod Usable
pub mod Arrays
pub mod Whole
use cpuinfo.Base.{
  uint32_max, ℕ, zero, suc, ◌+◌, ◌-◌, ◌^◌, bit_and, bit_or, Bool, not, List, [], ◌∷◌, map, ◌==◌,
  ltb, if◌then◌else◌, u32, not32, ◌<<<◌, bitmask_all,
}
use cpuinfo.Linux.Flags.{flag_present, flag_possible, flag_proc_cpuinfo, flag_valid}
use cpuinfo.X86.Caches.{Cache, Caches}
use cpuinfo.X86.Topology.{Topology}

-- `struct cpuinfo_x86_linux_processor`.
pub record LinuxProcessor : Type 0 where
  pub apic_id : ℕ
  pub linux_id : ℕ
  pub flags : ℕ

-- The members of `struct cpuinfo_x86_processor` that are read.
pub record X86Processor : Type 0 where
  pub cpuid : ℕ
  pub vendor : ℕ
  pub uarch : ℕ
  pub cache : Caches
  pub topology : Topology

abbrev pub bit_mask : ℕ → ℕ
bit_mask bits = u32 ((1 <<< bits) + 2 ^ 32 - 1)

-- The signs of an `int`.
pub data Sign : Type 0 where
  negative : Sign
  same : Sign
  positive : Sign

unfoldable pub cmp_uint32 : ℕ → ℕ → Sign
cmp_uint32 a b = if ltb b a then positive else if ltb a b then negative else same

unfoldable pub cmp_x86_linux_processor : LinuxProcessor → LinuxProcessor → Sign
unfolding cmp_uint32
cmp_x86_linux_processor a b =
    if bitmask_all a.flags flag_valid
    then (if bitmask_all b.flags flag_valid then cmp_uint32 a.apic_id b.apic_id else negative)
    else (if bitmask_all b.flags flag_valid then positive else cmp_uint32 a.apic_id b.apic_id)

abbrev pub smaller : ℕ → ℕ → ℕ
smaller a b = if ltb a b then a else b

-- `x86_linux_processors_count` and `valid_processor_mask`, from the three numbers of processors.
abbrev pub with_present : ℕ → ℕ → ℕ × ℕ
with_present max_processors max_present =
    if not (max_present == 0)
    then (smaller max_processors max_present, flag_present)
    else (max_processors, flag_proc_cpuinfo)

unfoldable pub processors_and_mask : ℕ → ℕ → ℕ → ℕ × ℕ
processors_and_mask max_processors max_possible max_present =
    let (count, mask) = with_present max_processors max_present in
    if not (max_possible == 0)
    then (smaller count max_possible, bit_or mask flag_possible)
    else (count, mask)

unfoldable pub mark_valid : ℕ → LinuxProcessor → LinuxProcessor
mark_valid valid_processor_mask p =
    if bitmask_all p.flags valid_processor_mask
    then record p { flags = bit_or p.flags flag_valid }
    else p

-- The loop that sets `linux_id`, from processor `i` on.
unfoldable pub number_valid : ℕ → List LinuxProcessor → List LinuxProcessor
number_valid i [] = []
number_valid i (p ∷ ps) =
    (if bitmask_all p.flags flag_valid then record p { linux_id = i } else p)
    ∷ number_valid (suc i) ps

-- `processors_count` of that loop.
unfoldable pub count_usable : List LinuxProcessor → ℕ → ℕ
count_usable [] n = n
count_usable (p ∷ ps) n =
    count_usable ps (if bitmask_all p.flags flag_valid then u32 (n + 1) else n)

-- `llc_apic_bits`.
unfoldable pub llc_bits : Caches → ℕ
llc_bits c =
    if not (c.l4.size == 0)
    then c.l4.apic_bits
    else if not (c.l3.size == 0)
    then c.l3.apic_bits
    else if not (c.l2.size == 0)
    then c.l2.apic_bits
    else if not (c.l1d.size == 0)
    then c.l1d.apic_bits
    else 0

-- `core_apic_mask`, `package_apic_mask` and `cluster_apic_mask`.
unfoldable pub core_apic_mask : Topology → ℕ
core_apic_mask t = not32 (bit_mask t.thread_bits_length <<< t.thread_bits_offset)

unfoldable pub package_apic_mask : Topology → ℕ
unfolding core_apic_mask
package_apic_mask t =
    bit_and (core_apic_mask t) (not32 (bit_mask t.core_bits_length <<< t.core_bits_offset))

unfoldable pub cluster_apic_mask : Topology → ℕ → ℕ
unfolding package_apic_mask
cluster_apic_mask t llc_apic_bits = bit_or (package_apic_mask t) (not32 (bit_mask llc_apic_bits))

-- `~bit_mask(apic_bits)` of a cache.
unfoldable pub cache_mask : Cache → ℕ
cache_mask c = not32 (bit_mask c.apic_bits)

-- A number of objects, and the last identifier.
pub record Counter : Type 0 where
  pub count : ℕ
  pub last_id : ℕ

unfoldable pub count_id : ℕ → Counter → Counter
count_id id c =
    if not (id == c.last_id) then record { count = u32 (c.count + 1); last_id = id } else c

unfoldable pub count_cache : Cache → ℕ → Counter → Counter
unfolding count_id cache_mask
count_cache cache apic_id c =
    if not (cache.size == 0) then count_id (bit_and apic_id (cache_mask cache)) c else c

-- The variables of the loop.
pub record Counts : Type 0 where
  pub cores : Counter
  pub packages : Counter
  pub clusters : Counter
  pub l1i : Counter
  pub l1d : Counter
  pub l2 : Counter
  pub l3 : Counter
  pub l4 : Counter

abbrev pub no_objects : Counter
no_objects = record { count = 0; last_id = uint32_max }

abbrev pub no_counts : Counts
no_counts = record {
  cores = no_objects;
  packages = no_objects;
  clusters = no_objects;
  l1i = no_objects;
  l1d = no_objects;
  l2 = no_objects;
  l3 = no_objects;
  l4 = no_objects;
}

module _ (processor : X86Processor) (llc_apic_bits : ℕ) where
  -- The body of the loop for a usable processor.
  unfoldable pub count_processor : ℕ → Counts → Counts
  unfolding count_id count_cache core_apic_mask package_apic_mask cluster_apic_mask
  count_processor apic_id n = record {
    cores = count_id (bit_and apic_id (core_apic_mask processor.topology)) n.cores;
    packages = count_id (bit_and apic_id (package_apic_mask processor.topology)) n.packages;
    clusters =
        count_id (bit_and apic_id (cluster_apic_mask processor.topology llc_apic_bits)) n.clusters;
    l1i = count_cache processor.cache.l1i apic_id n.l1i;
    l1d = count_cache processor.cache.l1d apic_id n.l1d;
    l2 = count_cache processor.cache.l2 apic_id n.l2;
    l3 = count_cache processor.cache.l3 apic_id n.l3;
    l4 = count_cache processor.cache.l4 apic_id n.l4;
  }

  unfoldable pub count_objects : ℕ → List LinuxProcessor → Counts → Counts
  unfolding count_processor
  count_objects valid_processor_mask [] n = n
  count_objects valid_processor_mask (p ∷ ps) n =
      count_objects valid_processor_mask ps
        (if bitmask_all p.flags valid_processor_mask then count_processor p.apic_id n else n)
