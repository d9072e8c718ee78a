-- ===== src/X86/Objects/Steps.antt =====
-- The body of the loop, and the loop, seen from each array.
use cpuinfo.Base.{
  ℕ, suc, ◌+◌, List, [], ◌∷◌, if◌then◌else◌, u32, bitmask_all, ◌≡◌, refl, ap, ◌∙◌, arith,
  Bool-cases, inl, inr,
}
use cpuinfo.Linux.Flags.{flag_valid}
use cpuinfo.X86.Caches.{Cache}
use cpuinfo.X86.Objects.{LinuxProcessor, X86Processor}
use cpuinfo.X86.Objects.Structs.{CacheFill, Fill}
use cpuinfo.X86.Objects.Fill.{
  fill_cache, advance, store_processor, store_core, store_cluster, store_package, store_maps,
  store_caches, fill_processor, fill_objects,
}
use cpuinfo.X86.Objects.Runs.{Part, part_step, part_steps}
use cpuinfo.X86.Objects.Project.{finish_part, finish-advance, core_part, cluster_part, package_part}
use cpuinfo.X86.Objects.Stores.{
  core_of, cluster_of, package_of, store_core_lem, store_cluster_lem, store_package_lem,
}

-- The identifiers of the usable processors.
abbrev pub valid_ids : (ℕ → ℕ) → List LinuxProcessor → List ℕ
valid_ids id_of [] = []
valid_ids id_of (p ∷ ps) =
    if bitmask_all p.flags flag_valid
    then id_of p.apic_id ∷ valid_ids id_of ps
    else valid_ids id_of ps

module _ (x86 : X86Processor) (llc_apic_bits : ℕ) where
  module _ (i : ℕ) (p : LinuxProcessor) (s : Fill) where
    abbrev at : ℕ
    at = u32 (s.processor_index + 1)

    abbrev filled : Fill
    filled = fill_processor x86 llc_apic_bits i p s

    abbrev s0 : Fill
    s0 = store_processor x86 llc_apic_bits p (advance x86 llc_apic_bits p.apic_id s)

    abbrev s1 : Fill
    s1 = store_core x86 llc_apic_bits p.apic_id s0

    abbrev s2 : Fill
    s2 = store_cluster x86 llc_apic_bits p.apic_id s1

    abbrev s3 : Fill
    s3 = store_package x86 llc_apic_bits p.apic_id s2

    index-s3 : s3.processor_index ≡ at
    unfolding advance store_processor
    index-s3 =
        (store_package_lem x86 llc_apic_bits p.apic_id s2).0.0
        ∙ (store_cluster_lem x86 llc_apic_bits p.apic_id s1).0.0
        ∙ (store_core_lem x86 llc_apic_bits p.apic_id s0).0.0

    pub index-filled : filled.processor_index ≡ at
    unfolding fill_processor store_maps store_caches
    index-filled = index-s3

    pub core_part-filled :
        core_part filled ≡ part_step at (core_of x86 llc_apic_bits p.apic_id) (core_part s)
    unfolding fill_processor store_maps store_caches advance store_processor
    core_part-filled =
        (store_package_lem x86 llc_apic_bits p.apic_id s2).1
        ∙ (store_cluster_lem x86 llc_apic_bits p.apic_id s1).1
        ∙ (store_core_lem x86 llc_apic_bits p.apic_id s0).1
        ∙ finish-advance at (core_of x86 llc_apic_bits p.apic_id) (core_part s)

    pub cluster_part-filled :
        cluster_part filled ≡ part_step at (cluster_of x86 llc_apic_bits p.apic_id) (cluster_part s)
    unfolding fill_processor store_maps store_caches advance store_processor
    cluster_part-filled =
        let id = cluster_of x86 llc_apic_bits p.apic_id in
        let (kept1, _, same1, _) = store_core_lem x86 llc_apic_bits p.apic_id s0 in
        (store_package_lem x86 llc_apic_bits p.apic_id s2).2
        ∙ (store_cluster_lem x86 llc_apic_bits p.apic_id s1).2
        ∙ ap (λ (k : ℕ). finish_part k id (cluster_part s1)) kept1.0
        ∙ ap (λ q. finish_part at id q) same1
        ∙ finish-advance at id (cluster_part s)

    pub package_part-filled :
        package_part filled ≡ part_step at (package_of x86 llc_apic_bits p.apic_id) (package_part s)
    unfolding fill_processor store_maps store_caches advance store_processor
    package_part-filled =
        let id = package_of x86 llc_apic_bits p.apic_id in
        let (kept1, _, _, same1) = store_core_lem x86 llc_apic_bits p.apic_id s0 in
        let (kept2, _, _, same2) = store_cluster_lem x86 llc_apic_bits p.apic_id s1 in
        (store_package_lem x86 llc_apic_bits p.apic_id s2).3
        ∙ ap (λ (k : ℕ). finish_part k id (package_part s2)) (kept2.0 ∙ kept1.0)
        ∙ ap (λ q. finish_part at id q) (same2 ∙ same1)
        ∙ finish-advance at id (package_part s)

    -- The cache of a level after the three stores, and after the block for that level.
    refill :
        (cache : Cache) {before after : CacheFill}
        → after ≡ before
        → fill_cache cache p.apic_id s3.processor_index after ≡ fill_cache cache p.apic_id at before
    refill cache {before} {after} e =
        ap (λ (k : ℕ). fill_cache cache p.apic_id k after) index-s3
        ∙ ap (fill_cache cache p.apic_id at) e

    pub caches-filled :
        (filled.l1i ≡ fill_cache x86.cache.l1i p.apic_id at s.l1i)
        × (filled.l1d ≡ fill_cache x86.cache.l1d p.apic_id at s.l1d)
        × (filled.l2 ≡ fill_cache x86.cache.l2 p.apic_id at s.l2)
        × (filled.l3 ≡ fill_cache x86.cache.l3 p.apic_id at s.l3)
        × (filled.l4 ≡ fill_cache x86.cache.l4 p.apic_id at s.l4)
    unfolding fill_processor store_maps store_caches advance store_processor
    caches-filled =
        let kept1 = (store_core_lem x86 llc_apic_bits p.apic_id s0).0 in
        let kept2 = (store_cluster_lem x86 llc_apic_bits p.apic_id s1).0 in
        let kept3 = (store_package_lem x86 llc_apic_bits p.apic_id s2).0 in
        (
          refill x86.cache.l1i (kept3.1 ∙ kept2.1 ∙ kept1.1),
          refill x86.cache.l1d (kept3.2 ∙ kept2.2 ∙ kept1.2),
          refill x86.cache.l2 (kept3.3 ∙ kept2.3 ∙ kept1.3),
          refill x86.cache.l3 (kept3.4 ∙ kept2.4 ∙ kept1.4),
          refill x86.cache.l4 (kept3.5 ∙ kept2.5 ∙ kept1.5),
        )

  -- An array whose part of the body is a step of Runs.
  module _ (part : Fill → Part) (id_of : ℕ → ℕ)
      (step : (i : ℕ) (p : LinuxProcessor) (s : Fill)
        → part (fill_processor x86 llc_apic_bits i p s)
          ≡ part_step (u32 (s.processor_index + 1)) (id_of p.apic_id) (part s)) where
    pub part-fill_objects :
        (i k : ℕ) (ps : List LinuxProcessor) (s : Fill)
        → u32 (s.processor_index + 1) ≡ u32 k
        → part (fill_objects x86 llc_apic_bits i ps s) ≡ part_steps k (valid_ids id_of ps) (part s)
    unfolding fill_objects
    part-fill_objects i k [] s h = refl
    part-fill_objects i k (p ∷ ps) s h = elim (Bool-cases (bitmask_all p.flags flag_valid)) [
      | inl e ↦
          let next = fill_processor x86 llc_apic_bits i p s in
          let index : u32 (next.processor_index + 1) ≡ u32 (suc k) =
            omega (arith, index-filled i p s) in
          let here = step i p s ∙ ap (λ (n : ℕ). part_step n (id_of p.apic_id) (part s)) h in
          rw e (
            part-fill_objects (suc i) (suc k) ps next index
            ∙ ap (part_steps (suc k) (valid_ids id_of ps)) here)
      | inr e ↦ rw e (part-fill_objects (suc i) k ps s h)
    ]

  -- What no step changes.
  module _ {ℓ} {A : Type ℓ} (view : Fill → A)
      (step : (i : ℕ) (p : LinuxProcessor) (s : Fill)
        → view (fill_processor x86 llc_apic_bits i p s) ≡ view s) where
    pub kept-fill_objects :
        (i : ℕ) (ps : List LinuxProcessor) (s : Fill)
        → view (fill_objects x86 llc_apic_bits i ps s) ≡ view s
    unfolding fill_objects
    kept-fill_objects i [] s = refl
    kept-fill_objects i (p ∷ ps) s = elim (Bool-cases (bitmask_all p.flags flag_valid)) [
      | inl e ↦
          rw e (kept-fill_objects (suc i) ps (fill_processor x86 llc_apic_bits i p s) ∙ step i p s)
      | inr e ↦ rw e (kept-fill_objects (suc i) ps s)
    ]
