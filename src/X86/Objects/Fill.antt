-- ===== src/X86/Objects/Fill.antt =====
-- The last part of src/x86/linux/init.c: the loop that fills the arrays of processors, cores, clusters,
-- packages and caches. A pointer into an array is an index; a write out of bounds changes nothing.
use cpuinfo.Base.{
  uint32_max, ℕ, suc, ◌+◌, bit_and, not, some, List, [], ◌∷◌, ◌==◌, if◌then◌else◌, u32, bitmask_all,
  modify, set,
}
use cpuinfo.Linux.Flags.{flag_valid}
use cpuinfo.X86.Caches.{Cache}
use cpuinfo.X86.Objects.Structs.{CacheFill, Fill}
use cpuinfo.X86.Objects.{
  LinuxProcessor, X86Processor, core_apic_mask, package_apic_mask, cluster_apic_mask, cache_mask,
}

-- The block for the caches of a level.
unfoldable pub fill_cache : Cache → ℕ → ℕ → CacheFill → CacheFill
unfolding cache_mask
fill_cache cache apic_id processor_index c =
    let id = bit_and apic_id (cache_mask cache) in
    if not (cache.size == 0)
    then (if not (id == c.last_id)
        then record {
          last_id = id;
          index = u32 (c.index + 1);
          items =
              modify
                (λ _. record {
                  geometry = cache;
                  processor_start = processor_index;
                  processor_count = 1;
                })
                (u32 (c.index + 1)) c.items;
        }
        else record c {
          items =
              modify (λ s. record s { processor_count = u32 (s.processor_count + 1) }) c.index
                c.items;
        })
    else record c { last_id = uint32_max }

-- The pointer to a cache that a processor gets.
abbrev pub point_to : Cache → ℕ → ℕ → ℕ
point_to cache index before = if not (cache.size == 0) then index else before

module _ (x86 : X86Processor) (llc_apic_bits : ℕ) where
  -- The indices and identifiers, which the body of the loop sets first.
  unfoldable pub advance : ℕ → Fill → Fill
  unfolding core_apic_mask package_apic_mask cluster_apic_mask
  advance apic_id s =
      let new_core = not (bit_and apic_id (core_apic_mask x86.topology) == s.last_core_id) in
      let new_cluster =
        not (bit_and apic_id (cluster_apic_mask x86.topology llc_apic_bits) == s.last_cluster_id) in
      let new_package =
        not (bit_and apic_id (package_apic_mask x86.topology) == s.last_package_id) in
      record s {
        processor_index = u32 (s.processor_index + 1);
        smt_id = if new_core then 0 else u32 (s.smt_id + 1);
        core_index = if new_core then u32 (s.core_index + 1) else s.core_index;
        core_id = if new_package then 0 else if new_core then u32 (s.core_id + 1) else s.core_id;
        cluster_index = if new_cluster then u32 (s.cluster_index + 1) else s.cluster_index;
        cluster_id =
            if new_package then 0 else if new_cluster then u32 (s.cluster_id + 1) else s.cluster_id;
        package_index = if new_package then u32 (s.package_index + 1) else s.package_index;
      }

  unfoldable pub store_processor : LinuxProcessor → Fill → Fill
  store_processor p s = record s {
    processors =
        modify
          (λ q. record q {
            smt_id = s.smt_id;
            core = s.core_index;
            cluster = s.cluster_index;
            package_index = s.package_index;
            linux_id = p.linux_id;
            apic_id = p.apic_id;
          })
          s.processor_index s.processors;
  }

  unfoldable pub store_core : ℕ → Fill → Fill
  unfolding core_apic_mask
  store_core apic_id s =
      let id = bit_and apic_id (core_apic_mask x86.topology) in
      if not (id == s.last_core_id)
      then record s {
        cores =
            modify
              (λ _. record {
                processor_start = s.processor_index;
                processor_count = 1;
                core_id = s.core_id;
                cluster = s.cluster_index;
                package_index = s.package_index;
                vendor = x86.vendor;
                uarch = x86.uarch;
                cpuid = x86.cpuid;
              })
              s.core_index s.cores;
        clusters =
            modify (λ c. record c { core_count = u32 (c.core_count + 1) }) s.cluster_index
              s.clusters;
        packages =
            modify (λ k. record k { core_count = u32 (k.core_count + 1) }) s.package_index
              s.packages;
        last_core_id = id;
      }
      else record s {
        cores =
            modify (λ c. record c { processor_count = u32 (c.processor_count + 1) }) s.core_index
              s.cores;
      }

  unfoldable pub store_cluster : ℕ → Fill → Fill
  unfolding cluster_apic_mask
  store_cluster apic_id s =
      let id = bit_and apic_id (cluster_apic_mask x86.topology llc_apic_bits) in
      if not (id == s.last_cluster_id)
      then record s {
        clusters =
            modify
              (λ c. record c {
                processor_start = s.processor_index;
                processor_count = 1;
                core_start = s.core_index;
                cluster_id = s.cluster_id;
                package_index = s.package_index;
                vendor = x86.vendor;
                uarch = x86.uarch;
                cpuid = x86.cpuid;
              })
              s.cluster_index s.clusters;
        packages =
            modify (λ k. record k { cluster_count = u32 (k.cluster_count + 1) }) s.package_index
              s.packages;
        last_cluster_id = id;
      }
      else record s {
        clusters =
            modify (λ c. record c { processor_count = u32 (c.processor_count + 1) }) s.cluster_index
              s.clusters;
      }

  unfoldable pub store_package : ℕ → Fill → Fill
  unfolding package_apic_mask
  store_package apic_id s =
      let id = bit_and apic_id (package_apic_mask x86.topology) in
      if not (id == s.last_package_id)
      then record s {
        packages =
            modify
              (λ k. record k {
                processor_start = s.processor_index;
                processor_count = 1;
                core_start = s.core_index;
                cluster_start = s.cluster_index;
              })
              s.package_index s.packages;
        last_package_id = id;
      }
      else record s {
        packages =
            modify (λ k. record k { processor_count = u32 (k.processor_count + 1) }) s.package_index
              s.packages;
      }

  -- The maps, the caches, and the pointers to caches, at index `i` of `processors`.
  unfoldable pub store_maps : ℕ → Fill → Fill
  store_maps linux_id s = record s {
    processor_map = set s.processor_map linux_id (some s.processor_index);
    core_map = set s.core_map linux_id (some s.core_index);
  }

  unfoldable pub store_caches : ℕ → ℕ → Fill → Fill
  unfolding fill_cache
  store_caches i apic_id s =
      let l1i = fill_cache x86.cache.l1i apic_id s.processor_index s.l1i in
      let l1d = fill_cache x86.cache.l1d apic_id s.processor_index s.l1d in
      let l2 = fill_cache x86.cache.l2 apic_id s.processor_index s.l2 in
      let l3 = fill_cache x86.cache.l3 apic_id s.processor_index s.l3 in
      let l4 = fill_cache x86.cache.l4 apic_id s.processor_index s.l4 in
      record s {
        l1i = l1i;
        l1d = l1d;
        l2 = l2;
        l3 = l3;
        l4 = l4;
        processors =
            modify
              (λ q. record q {
                l1i = point_to x86.cache.l1i l1i.index q.l1i;
                l1d = point_to x86.cache.l1d l1d.index q.l1d;
                l2 = point_to x86.cache.l2 l2.index q.l2;
                l3 = point_to x86.cache.l3 l3.index q.l3;
                l4 = point_to x86.cache.l4 l4.index q.l4;
              })
              i s.processors;
      }

  unfoldable pub fill_processor : ℕ → LinuxProcessor → Fill → Fill
  unfolding advance store_processor store_core store_cluster store_package store_maps store_caches
  fill_processor i p s = store_caches i p.apic_id (
      store_maps p.linux_id (
        store_package p.apic_id (
          store_cluster p.apic_id
            (store_core p.apic_id (store_processor p (advance p.apic_id s))))))

  -- The loop, from processor `i` on.
  unfoldable pub fill_objects : ℕ → List LinuxProcessor → Fill → Fill
  unfolding fill_processor
  fill_objects i [] s = s
  fill_objects i (p ∷ ps) s =
      fill_objects (suc i) ps (if bitmask_all p.flags flag_valid then fill_processor i p s else s)
