-- ===== src/X86/Objects/Project.antt =====
-- The loop that fills the arrays, seen from one array: it makes the steps of Runs.
use cpuinfo.Base.{
  ℕ, zero, suc, ◌+◌, bit_and, true, false, not, List, [], ◌∷◌, map, ◌==◌, if◌then◌else◌, u32,
  modify, ◌≡◌, refl, ap, Bool-cases, inl, inr,
}
use cpuinfo.X86.Caches.{Cache}
use cpuinfo.X86.Objects.{cache_mask}
use cpuinfo.X86.Objects.Structs.{
  CpuinfoCore, CpuinfoCluster, CpuinfoPackage, CpuinfoCache, CacheFill, Fill,
}
use cpuinfo.X86.Objects.Fill.{fill_cache}
use cpuinfo.X86.Objects.Runs.{Run, Part, one_more, part_step}

module _ {ℓ} {A : Type ℓ} where
  pub map-modify :
      (g : A → Run) (f : A → A) (f2 : Run → Run)
      → ((a : A) → g (f a) ≡ f2 (g a))
      → (i : ℕ) (xs : List A) → map g (modify f i xs) ≡ modify f2 i (map g xs)
  map-modify g f f2 h i [] = refl
  map-modify g f f2 h zero (x ∷ xs) = ap (λ r. r ∷ map g xs) (h x)
  map-modify g f f2 h (suc i) (x ∷ xs) = ap (λ t. g x ∷ t) (map-modify g f f2 h i xs)

  pub map-modify_same :
      (g : A → Run) (f : A → A)
      → ((a : A) → g (f a) ≡ g a)
      → (i : ℕ) (xs : List A) → map g (modify f i xs) ≡ map g xs
  map-modify_same g f h i [] = refl
  map-modify_same g f h zero (x ∷ xs) = ap (λ r. r ∷ map g xs) (h x)
  map-modify_same g f h (suc i) (x ∷ xs) = ap (λ t. g x ∷ t) (map-modify_same g f h i xs)

-- A step in the two halves that the loop makes of it for cores, clusters and packages.
abbrev pub advance_part : ℕ → Part → Part
advance_part id p = record p {
  index = if not (id == p.last_id) then u32 (p.index + 1) else p.index;
}

abbrev pub finish_part : ℕ → ℕ → Part → Part
finish_part at id p =
    if not (id == p.last_id)
    then record p { items = modify (λ _. (at, 1)) p.index p.items; last_id = id }
    else record p { items = modify one_more p.index p.items }

pub finish-advance :
    (at id : ℕ) (p : Part) → finish_part at id (advance_part id p) ≡ part_step at id p
unfolding part_step
finish-advance at id p = elim (Bool-cases (id == p.last_id)) [
  | inl e ↦ rw e refl
  | inr e ↦ rw e refl
]

-- The runs in the arrays.
abbrev pub core_run : CpuinfoCore → Run
core_run c = (c.processor_start, c.processor_count)

abbrev pub cluster_run : CpuinfoCluster → Run
cluster_run c = (c.processor_start, c.processor_count)

abbrev pub package_run : CpuinfoPackage → Run
package_run k = (k.processor_start, k.processor_count)

abbrev pub cache_run : CpuinfoCache → Run
cache_run c = (c.processor_start, c.processor_count)

abbrev pub core_part : Fill → Part
core_part s = record {
  items = map core_run s.cores;
  index = s.core_index;
  last_id = s.last_core_id;
}

abbrev pub cluster_part : Fill → Part
cluster_part s = record {
  items = map cluster_run s.clusters;
  index = s.cluster_index;
  last_id = s.last_cluster_id;
}

abbrev pub package_part : Fill → Part
package_part s = record {
  items = map package_run s.packages;
  index = s.package_index;
  last_id = s.last_package_id;
}

abbrev pub cache_part : CacheFill → Part
cache_part c = record { items = map cache_run c.items; index = c.index; last_id = c.last_id }

pub fill_cache-step :
    (cache : Cache) (apic_id at : ℕ) (c : CacheFill)
    → (cache.size == 0) ≡ false
    → cache_part (fill_cache cache apic_id at c)
      ≡ part_step at (bit_and apic_id (cache_mask cache)) (cache_part c)
unfolding fill_cache part_step
fill_cache-step cache apic_id at c h =
    elim (Bool-cases (bit_and apic_id (cache_mask cache) == c.last_id)) [
      | inl e ↦
          rw (h, e)
            (ap (λ l. record { items = l; index = c.index; last_id = c.last_id })
              (map-modify cache_run
                (λ (s : CpuinfoCache). record s { processor_count = u32 (s.processor_count + 1) })
                one_more (λ a. refl) c.index c.items))
      | inr e ↦
          rw (h, e)
            (ap
              (λ l. record {
                items = l;
                index = u32 (c.index + 1);
                last_id = bit_and apic_id (cache_mask cache);
              })
              (map-modify cache_run
                (λ (_ : CpuinfoCache). record {
                  geometry = cache;
                  processor_start = at;
                  processor_count = 1;
                })
                (λ _. (at, 1)) (λ a. refl) (u32 (c.index + 1)) c.items))
    ]

pub fill_cache-none :
    (cache : Cache) (apic_id at : ℕ) (c : CacheFill)
    → (cache.size == 0) ≡ true
    → (fill_cache cache apic_id at c).items ≡ c.items
unfolding fill_cache
fill_cache-none cache apic_id at c h = rw h refl
