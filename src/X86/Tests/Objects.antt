-- ===== src/X86/Tests/Objects.antt =====
-- Runs of the start on x86 Linux, with two packages of two cores of two threads.
use cpuinfo.Base.{
  ℕ, ◌+◌, Bool, true, false, List, [], ◌∷◌, map, All, if◌then◌else◌, ◌≡◌, refl, ap, ◌∙◌, arith,
}
use cpuinfo.Linux.Flags.{flag_valid}
use cpuinfo.X86.Caches.{Cache}
use cpuinfo.X86.Objects.{
  LinuxProcessor, X86Processor, Sign, positive, negative, same, cmp_uint32, cmp_x86_linux_processor,
  processors_and_mask, mark_valid, number_valid, count_usable, llc_bits, core_apic_mask,
  package_apic_mask, cluster_apic_mask, cache_mask, count_id, count_cache, count_processor,
  count_objects,
}
use cpuinfo.X86.Objects.Structs.{CpuinfoProcessor, Fill}
use cpuinfo.X86.Objects.Fill.{
  fill_cache, advance, store_processor, store_core, store_cluster, store_package, store_maps,
  store_caches, fill_processor, fill_objects,
}
use cpuinfo.X86.Objects.Init.{allocate, init_sorted, x86_linux_init}
use cpuinfo.X86.Objects.Project.{core_run}
use cpuinfo.X86.Objects.Counted.{tally, usable_count}
use cpuinfo.X86.Objects.Usable.{Reorders, Parsed}
use cpuinfo.X86.Objects.Whole.{Grouped, sorted_processors, x86_linux_init-Grouped}

-- A sort by the comparison.
abbrev is_after : Sign → Bool
is_after positive = true
is_after same = false
is_after negative = false

insert_processor : LinuxProcessor → List LinuxProcessor → List LinuxProcessor
insert_processor p [] = p ∷ []
insert_processor p (q ∷ qs) =
    let later = insert_processor p qs in
    if is_after (cmp_x86_linux_processor p q) then q ∷ later else p ∷ q ∷ qs

sort_processors : List LinuxProcessor → List LinuxProcessor
sort_processors [] = []
sort_processors (p ∷ ps) = insert_processor p (sort_processors ps)

insert_processor-tally :
    (test : LinuxProcessor → Bool) (p : LinuxProcessor) (ps : List LinuxProcessor)
    → tally test (insert_processor p ps) ≡ tally test (p ∷ ps)
unfolding insert_processor
insert_processor-tally test p [] = refl
insert_processor-tally test p (q ∷ qs) = ground (arith, insert_processor-tally test p qs)

sort_processors-Reorders : Reorders sort_processors
unfolding sort_processors
sort_processors-Reorders test [] = refl
sort_processors-Reorders test (p ∷ ps) =
    insert_processor-tally test p (sort_processors ps)
    ∙ ap (λ (n : ℕ). (if test p then 1 else 0) + n) (sort_processors-Reorders test ps)

abbrev cache_of : ℕ → ℕ → Cache
cache_of size bits = record {
  size = size;
  associativity = 8;
  sets = 64;
  partitions = 1;
  line_size = 64;
  flags = 0;
  apic_bits = bits;
}

-- The first level is shared by the threads of a core, the second by a package; there are no others.
abbrev two_by_two : X86Processor
two_by_two = record {
  cpuid = 0x306A9;
  vendor = 1;
  uarch = 0x00100205;
  cache = record {
    trace = (0, 0);
    l1i = cache_of 32768 1;
    l1d = cache_of 32768 1;
    l2 = cache_of 262144 2;
    l3 = cache_of 0 0;
    l4 = cache_of 0 0;
    prefetch_size = 0;
  };
  topology = record {
    apic_id = 0;
    thread_bits_offset = 0;
    thread_bits_length = 1;
    core_bits_offset = 1;
    core_bits_length = 1;
  };
}

-- Present and possible, or not present.
abbrev with_apic_id : ℕ → ℕ → LinuxProcessor
with_apic_id flags apic_id = record { apic_id = apic_id; linux_id = 0; flags = flags }

abbrev mixed : List LinuxProcessor
mixed =
    with_apic_id 3 4
    ∷ with_apic_id 3 0
    ∷ with_apic_id 3 6
    ∷ with_apic_id 2 7
    ∷ with_apic_id 3 3
    ∷ with_apic_id 3 5
    ∷ with_apic_id 3 1
    ∷ with_apic_id 3 2
    ∷ []

mixed-Parsed : All Parsed mixed
mixed-Parsed = (
  (refl, omega arith),
  (
    (refl, omega arith),
    (
      (refl, omega arith),
      (
        (refl, omega arith),
        (
          (refl, omega arith),
          ((refl, omega arith), ((refl, omega arith), ((refl, omega arith), tt))),
        ),
      ),
    ),
  ),
)

x86_linux_init-Grouped_example :
    (usable_count flag_valid (sorted_processors sort_processors 3 mixed) ≡ usable_count 3 mixed)
    × Grouped two_by_two
        (sorted_processors sort_processors 3 mixed)
        (x86_linux_init sort_processors two_by_two 8 8 8 mixed).1
unfolding processors_and_mask
x86_linux_init-Grouped_example =
    x86_linux_init-Grouped sort_processors two_by_two 8 8 8 mixed sort_processors-Reorders
      mixed-Parsed (omega arith)

-- The processor that is not present is left out, and so the core of APIC IDs 6 and 7 has one thread.
abbrev arrays : Fill
arrays = (x86_linux_init sort_processors two_by_two 8 8 8 mixed).1

four_cores : map core_run arrays.cores ≡ (0, 2) ∷ (2, 2) ∷ (4, 2) ∷ (6, 1) ∷ []
unfolding x86_linux_init init_sorted allocate processors_and_mask mark_valid number_valid
    count_usable llc_bits count_objects count_processor count_cache count_id core_apic_mask
    package_apic_mask cluster_apic_mask cache_mask fill_objects fill_processor advance
    store_processor store_core store_cluster store_package store_maps store_caches fill_cache
    sort_processors insert_processor cmp_x86_linux_processor cmp_uint32
four_cores = refl

-- The numbers of threads in their cores, and the processors that Linux knows them by.
abbrev place : CpuinfoProcessor → ℕ × ℕ × ℕ
place p = (p.core, p.smt_id, p.linux_id)

threads_of_cores :
    map place arrays.processors
    ≡ (0, 0, 1) ∷ (0, 1, 6) ∷ (1, 0, 7) ∷ (1, 1, 4) ∷ (2, 0, 0) ∷ (2, 1, 5) ∷ (3, 0, 2) ∷ []
unfolding x86_linux_init init_sorted allocate processors_and_mask mark_valid number_valid
    count_usable llc_bits count_objects count_processor count_cache count_id core_apic_mask
    package_apic_mask cluster_apic_mask cache_mask fill_objects fill_processor advance
    store_processor store_core store_cluster store_package store_maps store_caches fill_cache
    sort_processors insert_processor cmp_x86_linux_processor cmp_uint32
threads_of_cores = refl
