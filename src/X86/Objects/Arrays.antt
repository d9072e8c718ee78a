-- ===== src/X86/Objects/Arrays.antt =====
-- The arrays after the loop hold the groups of the processors, by their identifiers.
use cpuinfo.Base.{
  uint32_max, ℕ, zero, suc, ◌+◌, ◌^◌, ◌<◌, bit_and, true, List, [], ◌∷◌, map, ◌==◌, if◌then◌else◌,
  u32, length, All, ◌≡◌, refl, sym, ap, ◌∙◌, arith, Bool-cases, inl, inr,
}
use mathlib.Core.Path.{subst}
use cpuinfo.X86.Caches.{Cache}
use cpuinfo.X86.Objects.{
  LinuxProcessor, X86Processor, Counter, Counts, core_apic_mask, package_apic_mask,
  cluster_apic_mask, cache_mask, llc_bits, no_objects, no_counts, count_objects, count_id,
  count_cache, count_processor,
}
use cpuinfo.X86.Objects.Structs.{CacheFill, Fill}
use cpuinfo.X86.Objects.Fill.{fill_cache, fill_processor}
use cpuinfo.X86.Objects.Init.{calloc, zero_shared, no_cache_yet, allocate, init_sorted}
use cpuinfo.X86.Objects.Runs.{Run, Part, Groups, part_step, part_steps, zeros}
use cpuinfo.X86.Objects.Allocated.{allocated, part_steps-Groups, count_ids, count_ids_all}
use cpuinfo.X86.Objects.Project.{
  core_run, cluster_run, package_run, cache_run, core_part, cluster_part, package_part, cache_part,
  fill_cache-step, fill_cache-none,
}
use cpuinfo.X86.Objects.Steps.{
  valid_ids, core_part-filled, cluster_part-filled, package_part-filled, part-fill_objects,
  kept-fill_objects, caches-filled,
}
use cpuinfo.X86.Objects.Counted.{
  Usable, part-count_objects, kept-count_objects, count_cache-id, count_cache-none, valid_ids-new,
  valid_ids-le,
}

-- The identifiers of the usable processors for a mask, and for a cache, if there is one.
abbrev pub masked_ids : ℕ → List LinuxProcessor → List ℕ
masked_ids m ps = valid_ids (λ a. bit_and a m) ps

abbrev pub cache_ids : Cache → List LinuxProcessor → List ℕ
cache_ids cache ps = if cache.size == 0 then [] else masked_ids (cache_mask cache) ps

map-calloc {ℓ} :
    {A : Type ℓ} (g : A → Run) (x : A) (n : ℕ) → g x ≡ (0, 0) → map g (calloc x n) ≡ zeros n
map-calloc g x zero h = refl
map-calloc g x (suc n) h =
    ap (λ r. r ∷ map g (calloc x n)) h ∙ ap (λ t. (0, 0) ∷ t) (map-calloc g x n h)

module _ (x86 : X86Processor) (mask processors_count : ℕ) (ps : List LinuxProcessor)
    (usable : All (Usable mask) ps) (few : length ps < 2 ^ 32) where
  abbrev llc : ℕ
  llc = llc_bits x86.cache

  -- The steps of an array that starts with as many objects as are counted.
  steps-Groups :
      (m : ℕ)
      → Groups uint32_max 0
          (masked_ids m ps)
          (part_steps 0
            (masked_ids m ps)
            (allocated (count_ids (masked_ids m ps) no_objects).count)).items
  steps-Groups m =
      let ids = masked_ids m ps in
      let short : length ids < 2 ^ 32 = omega (arith, valid_ids-le (λ a. bit_and a m) ps) in
      subst (λ (n : ℕ). Groups uint32_max 0 ids (part_steps 0 ids (allocated n)).items)
        (sym (count_ids_all ids short))
        (part_steps-Groups ids (valid_ids-new mask m ps usable) short)

  module _ (part : Fill → Part) (counter : Counts → Counter) (m : ℕ)
      (fills : (i : ℕ) (p : LinuxProcessor) (s : Fill)
        → part (fill_processor x86 llc i p s)
          ≡ part_step (u32 (s.processor_index + 1)) (bit_and p.apic_id m) (part s))
      (counts : (a : ℕ) (n : Counts)
        → counter (count_processor x86 llc a n) ≡ count_id (bit_and a m) (counter n))
      (starts : (n : Counts)
        → part (allocate (length ps) processors_count n) ≡ allocated (counter n).count)
      (none_yet : counter no_counts ≡ no_objects) where
    pub array-Groups :
        Groups uint32_max 0
          (masked_ids m ps)
          (part (init_sorted x86 mask processors_count ps).1).items
    unfolding init_sorted
    array-Groups =
        let ids = masked_ids m ps in
        let n = count_objects x86 llc mask ps no_counts in
        let counted =
          part-count_objects x86 llc mask counter (λ a. bit_and a m) counts ps no_counts usable
          ∙ ap (count_ids ids) none_yet in
        let filled =
          part-fill_objects x86 llc part (λ a. bit_and a m) fills 0 0 ps
            (allocate (length ps) processors_count n) refl in
        subst (λ p. Groups uint32_max 0 ids p.items)
          (sym (filled ∙ ap (part_steps 0 ids) (starts n ∙ ap (λ c. allocated c.count) counted)))
          (steps-Groups m)

  pub cores-Groups :
      Groups uint32_max 0
        (masked_ids (core_apic_mask x86.topology) ps)
        (core_part (init_sorted x86 mask processors_count ps).1).items
  unfolding allocate count_processor
  cores-Groups =
      array-Groups core_part (λ n. n.cores) (core_apic_mask x86.topology) (core_part-filled x86 llc)
        (λ a n. refl)
        (λ n.
          ap (λ l. record { items = l; index = uint32_max; last_id = uint32_max })
            (map-calloc core_run _ n.cores.count refl))
        refl

  pub clusters-Groups :
      Groups uint32_max 0
        (masked_ids (cluster_apic_mask x86.topology llc) ps)
        (cluster_part (init_sorted x86 mask processors_count ps).1).items
  unfolding allocate count_processor
  clusters-Groups =
      array-Groups cluster_part (λ n. n.clusters) (cluster_apic_mask x86.topology llc)
        (cluster_part-filled x86 llc) (λ a n. refl)
        (λ n.
          ap (λ l. record { items = l; index = uint32_max; last_id = uint32_max })
            (map-calloc cluster_run _ n.clusters.count refl))
        refl

  pub packages-Groups :
      Groups uint32_max 0
        (masked_ids (package_apic_mask x86.topology) ps)
        (package_part (init_sorted x86 mask processors_count ps).1).items
  unfolding allocate count_processor
  packages-Groups =
      array-Groups package_part (λ n. n.packages) (package_apic_mask x86.topology)
        (package_part-filled x86 llc) (λ a n. refl)
        (λ n.
          ap (λ l. record { items = l; index = uint32_max; last_id = uint32_max })
            (map-calloc package_run _ n.packages.count refl))
        refl

  module _ (get : Fill → CacheFill) (counter : Counts → Counter) (cache : Cache)
      (fills : (i : ℕ) (p : LinuxProcessor) (s : Fill)
        → get (fill_processor x86 llc i p s)
          ≡ fill_cache cache p.apic_id (u32 (s.processor_index + 1)) (get s))
      (counts : (a : ℕ) (n : Counts)
        → counter (count_processor x86 llc a n) ≡ count_cache cache a (counter n))
      (starts : (n : Counts)
        → get (allocate (length ps) processors_count n) ≡ no_cache_yet (counter n).count)
      (none_yet : counter no_counts ≡ no_objects) where
    start-part :
        (n : Counts)
        → cache_part (get (allocate (length ps) processors_count n)) ≡ allocated (counter n).count
    start-part n =
        ap cache_part (starts n)
        ∙ ap (λ l. record { items = l; index = uint32_max; last_id = uint32_max })
            (map-calloc cache_run zero_shared (counter n).count refl)

    no_caches-Groups :
        (cache.size == 0) ≡ true
        → Groups uint32_max 0 []
            (cache_part (get (init_sorted x86 mask processors_count ps).1)).items
    unfolding init_sorted
    no_caches-Groups h =
        let n = count_objects x86 llc mask ps no_counts in
        let counted =
          kept-count_objects x86 llc mask counter
            (λ a n. counts a n ∙ count_cache-none cache a (counter n) h) ps no_counts
          ∙ none_yet in
        let filled =
          kept-fill_objects x86 llc (λ s. (get s).items)
            (λ i p s.
              ap (λ c. c.items) (fills i p s)
              ∙ fill_cache-none cache p.apic_id (u32 (s.processor_index + 1)) (get s) h)
            0 ps (allocate (length ps) processors_count n) in
        subst (λ l. Groups uint32_max 0 [] l)
          (sym (
            ap (map cache_run) filled
            ∙ ap (λ q. q.items) (start-part n)
            ∙ ap (λ c. zeros c.count) counted))
          refl

    pub caches-Groups :
        Groups uint32_max 0
          (cache_ids cache ps)
          (cache_part (get (init_sorted x86 mask processors_count ps).1)).items
    caches-Groups = elim (Bool-cases (cache.size == 0)) [
      | inl h ↦ rw h (no_caches-Groups h)
      | inr h ↦ rw h (
          array-Groups (λ s. cache_part (get s)) counter (cache_mask cache)
            (λ i p s.
              ap cache_part (fills i p s)
              ∙ fill_cache-step cache p.apic_id (u32 (s.processor_index + 1)) (get s) h)
            (λ a n. counts a n ∙ count_cache-id cache a (counter n) h) start-part none_yet)
    ]

  -- The arrays of the five levels.
  pub all_caches-Groups :
      let after = (init_sorted x86 mask processors_count ps).1 in
      Groups uint32_max 0 (cache_ids x86.cache.l1i ps) (cache_part after.l1i).items
      × Groups uint32_max 0 (cache_ids x86.cache.l1d ps) (cache_part after.l1d).items
      × Groups uint32_max 0 (cache_ids x86.cache.l2 ps) (cache_part after.l2).items
      × Groups uint32_max 0 (cache_ids x86.cache.l3 ps) (cache_part after.l3).items
      × Groups uint32_max 0 (cache_ids x86.cache.l4 ps) (cache_part after.l4).items
  unfolding allocate count_processor
  all_caches-Groups = (
    caches-Groups (λ s. s.l1i) (λ n. n.l1i) x86.cache.l1i (λ i p s. (caches-filled x86 llc i p s).0)
        (λ a n. refl) (λ n. refl) refl,
    caches-Groups (λ s. s.l1d) (λ n. n.l1d) x86.cache.l1d (λ i p s. (caches-filled x86 llc i p s).1)
        (λ a n. refl) (λ n. refl) refl,
    caches-Groups (λ s. s.l2) (λ n. n.l2) x86.cache.l2 (λ i p s. (caches-filled x86 llc i p s).2)
        (λ a n. refl) (λ n. refl) refl,
    caches-Groups (λ s. s.l3) (λ n. n.l3) x86.cache.l3 (λ i p s. (caches-filled x86 llc i p s).3)
        (λ a n. refl) (λ n. refl) refl,
    caches-Groups (λ s. s.l4) (λ n. n.l4) x86.cache.l4 (λ i p s. (caches-filled x86 llc i p s).4)
        (λ a n. refl) (λ n. refl) refl,
  )
