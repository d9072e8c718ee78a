-- ===== src/X86/Objects/Whole.antt =====
-- The arrays that `cpuinfo_x86_linux_init` commits hold the usable processors in groups, in order.
use cpuinfo.Base.{uint32_max, ℕ, ◌^◌, ◌<◌, true, not, List, map, length, All, ◌≡◌, sym, ◌∙◌, arith}
use cpuinfo.Linux.Flags.{flag_valid}
use cpuinfo.X86.Objects.{
  LinuxProcessor, X86Processor, llc_bits, core_apic_mask, cluster_apic_mask, package_apic_mask,
  processors_and_mask, mark_valid, number_valid, count_usable,
}
use cpuinfo.X86.Objects.Structs.{Fill}
use cpuinfo.X86.Objects.Init.{init_sorted, x86_linux_init}
use cpuinfo.X86.Objects.Runs.{Groups}
use cpuinfo.X86.Objects.Project.{core_run, cluster_run, package_run, cache_run}
use cpuinfo.X86.Objects.Counted.{Usable, usable_count}
use cpuinfo.X86.Objects.Usable.{
  Reorders, Parsed, mask-without_valid, marks-Usable, marks-count, numbers-Usable, numbers-count,
  is_usable, tally-Usable, Usable-tally, length-tally, length-numbers, length-marks,
}
use cpuinfo.X86.Objects.Arrays.{
  masked_ids, cache_ids, cores-Groups, clusters-Groups, packages-Groups, all_caches-Groups,
}

-- Each array holds the groups of the processors, by their identifiers.
abbrev pub Grouped : X86Processor → List LinuxProcessor → Fill → Type 0
Grouped x86 ps s =
    Groups uint32_max 0 (masked_ids (core_apic_mask x86.topology) ps) (map core_run s.cores)
    × Groups uint32_max 0 (masked_ids (cluster_apic_mask x86.topology (llc_bits x86.cache)) ps)
        (map cluster_run s.clusters)
    × Groups uint32_max 0 (masked_ids (package_apic_mask x86.topology) ps)
        (map package_run s.packages)
    × Groups uint32_max 0 (cache_ids x86.cache.l1i ps) (map cache_run s.l1i.items)
    × Groups uint32_max 0 (cache_ids x86.cache.l1d ps) (map cache_run s.l1d.items)
    × Groups uint32_max 0 (cache_ids x86.cache.l2 ps) (map cache_run s.l2.items)
    × Groups uint32_max 0 (cache_ids x86.cache.l3 ps) (map cache_run s.l3.items)
    × Groups uint32_max 0 (cache_ids x86.cache.l4 ps) (map cache_run s.l4.items)

init_sorted-Grouped :
    (x86 : X86Processor) (mask processors_count : ℕ) (ps : List LinuxProcessor)
    → All (Usable mask) ps
    → length ps < 2 ^ 32
    → Grouped x86 ps (init_sorted x86 mask processors_count ps).1
init_sorted-Grouped x86 mask processors_count ps usable few =
    let (l1i, l1d, l2, l3, l4) = all_caches-Groups x86 mask processors_count ps usable few in
    (
      cores-Groups x86 mask processors_count ps usable few,
      clusters-Groups x86 mask processors_count ps usable few,
      packages-Groups x86 mask processors_count ps usable few,
      l1i,
      l1d,
      l2,
      l3,
      l4,
    )

-- The array of processors as it is sorted.
abbrev pub sorted_processors :
    (List LinuxProcessor → List LinuxProcessor) → ℕ → List LinuxProcessor → List LinuxProcessor
sorted_processors qsort mask ps = qsort (number_valid 0 (map (mark_valid mask) ps))

-- For a `qsort` that changes the order only, and for fewer than 2 ^ 32 processors that are not yet marked
-- and whose APIC IDs are below the largest uint32_t: the usable processors of the sorted array are as
-- many as those that have the flags of the mask, and after the loop the cores are the groups of
-- neighbours among them whose APIC IDs agree under the mask of cores. Each core starts at the processor
-- where the one before it ends, has as many processors as agree, and differs from the one before it.
-- So do the clusters and the packages, with their masks, and the caches of each level that has a size;
-- there are no caches of the other levels.
pub x86_linux_init-Grouped :
    (qsort : List LinuxProcessor → List LinuxProcessor) (x86 : X86Processor)
    (max_processors max_possible max_present : ℕ) (ps : List LinuxProcessor)
    → Reorders qsort
    → All Parsed ps
    → length ps < 2 ^ 32
    → let mask = (processors_and_mask max_processors max_possible max_present).1 in
      (usable_count flag_valid (sorted_processors qsort mask ps) ≡ usable_count mask ps)
      × Grouped x86
          (sorted_processors qsort mask ps)
          (x86_linux_init qsort x86 max_processors max_possible max_present ps).1
unfolding x86_linux_init
x86_linux_init-Grouped qsort x86 max_processors max_possible max_present ps sorts parsed few =
    let mask = (processors_and_mask max_processors max_possible max_present).1 in
    let outside = mask-without_valid max_processors max_possible max_present in
    let marked = map (mark_valid mask) ps in
    let numbered = number_valid 0 marked in
    let usable = numbers-Usable mask 0 marked (marks-Usable mask outside ps parsed) in
    let fails = λ (p : LinuxProcessor). not (is_usable mask p) in
    let usable_sorted =
      Usable-tally mask (qsort numbered)
        (sorts fails numbered ∙ tally-Usable mask numbered usable) in
    let same_length =
      sym (length-tally (qsort numbered))
      ∙ sorts (λ _. true) numbered
      ∙ length-tally numbered
      ∙ length-numbers 0 marked
      ∙ length-marks mask ps in
    (
      sorts _ numbered ∙ numbers-count 0 marked ∙ marks-count mask outside ps parsed,
      init_sorted-Grouped x86 mask (count_usable marked 0) (qsort numbered) usable_sorted
          (omega (arith, same_length)),
    )
