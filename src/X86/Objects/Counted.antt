-- ===== src/X86/Objects/Counted.antt =====
-- The counting loop, seen from one kind of object, and the loops' identifiers beside each other.
use cpuinfo.Base.{
  uint32_max, ℕ, ◌+◌, ◌<◌, ◌≤◌, bit_and, Bool, true, false, List, [], ◌∷◌, if◌then◌else◌,
  bitmask_all, length, All, ◌≡◌, ◌≢◌, refl, sym, ap, ◌∙◌, arith, Bool-cases, inl, inr, ◌==◌,
}
use cpuinfo.Base.Bits.{bit_and-le}
use cpuinfo.Linux.Flags.{flag_valid}
use cpuinfo.X86.Caches.{Cache}
use cpuinfo.X86.Objects.{
  LinuxProcessor, X86Processor, Counter, Counts, cache_mask, count_id, count_cache, count_processor,
  count_objects,
}
use cpuinfo.X86.Objects.Allocated.{count_ids}
use cpuinfo.X86.Objects.Steps.{valid_ids}

-- The mask tells the processors apart that the flag tells apart, and the APIC ID is not the number that
-- the loops start from.
abbrev pub Usable : ℕ → LinuxProcessor → Type 0
Usable mask p =
    (bitmask_all p.flags flag_valid ≡ bitmask_all p.flags mask) × (p.apic_id < uint32_max)

module _ (x86 : X86Processor) (llc_apic_bits mask : ℕ) where
  module _ (part : Counts → Counter) (id_of : ℕ → ℕ)
      (step : (a : ℕ) (n : Counts)
        → part (count_processor x86 llc_apic_bits a n) ≡ count_id (id_of a) (part n)) where
    pub part-count_objects :
        (ps : List LinuxProcessor) (n : Counts)
        → All (Usable mask) ps
        → part (count_objects x86 llc_apic_bits mask ps n) ≡ count_ids (valid_ids id_of ps) (part n)
    unfolding count_objects
    part-count_objects [] n _ = refl
    part-count_objects (p ∷ ps) n ((same, _), rest) =
        elim (Bool-cases (bitmask_all p.flags flag_valid)) [
          | inl e ↦
              rw (e, sym same ∙ e)
                (part-count_objects ps (count_processor x86 llc_apic_bits p.apic_id n) rest
                  ∙ ap (count_ids (valid_ids id_of ps)) (step p.apic_id n))
          | inr e ↦ rw (e, sym same ∙ e) (part-count_objects ps n rest)
        ]

  module _ (part : Counts → Counter)
      (step : (a : ℕ) (n : Counts) → part (count_processor x86 llc_apic_bits a n) ≡ part n) where
    pub kept-count_objects :
        (ps : List LinuxProcessor) (n : Counts)
        → part (count_objects x86 llc_apic_bits mask ps n) ≡ part n
    unfolding count_objects
    kept-count_objects [] n = refl
    kept-count_objects (p ∷ ps) n = elim (Bool-cases (bitmask_all p.flags mask)) [
      | inl e ↦
          rw e (
            kept-count_objects ps (count_processor x86 llc_apic_bits p.apic_id n)
            ∙ step p.apic_id n)
      | inr e ↦ rw e (kept-count_objects ps n)
    ]

pub count_cache-id :
    (cache : Cache) (a : ℕ) (c : Counter)
    → (cache.size == 0) ≡ false
    → count_cache cache a c ≡ count_id (bit_and a (cache_mask cache)) c
unfolding count_cache
count_cache-id cache a c h = rw h refl

pub count_cache-none :
    (cache : Cache) (a : ℕ) (c : Counter) → (cache.size == 0) ≡ true → count_cache cache a c ≡ c
unfolding count_cache
count_cache-none cache a c h = rw h refl

-- Masked APIC IDs are not the number that the loops start from.
pub valid_ids-new :
    (valid_mask m : ℕ) (ps : List LinuxProcessor)
    → All (Usable valid_mask) ps
    → All (λ id. id ≢ uint32_max) (valid_ids (λ a. bit_and a m) ps)
valid_ids-new valid_mask m [] _ = tt
valid_ids-new valid_mask m (p ∷ ps) ((_, below), rest) =
    let others = valid_ids-new valid_mask m ps rest in
    elim (Bool-cases (bitmask_all p.flags flag_valid)) [
      | inl e ↦ rw e ((λ same. omega (arith, bit_and-le p.apic_id m, same)), others)
      | inr e ↦ rw e others
    ]

pub valid_ids-le :
    (id_of : ℕ → ℕ) (ps : List LinuxProcessor) → length (valid_ids id_of ps) ≤ length ps
valid_ids-le id_of [] = omega arith
valid_ids-le id_of (p ∷ ps) = ground (arith, valid_ids-le id_of ps)

-- How many processors pass a test, and how many are usable.
abbrev pub tally : (LinuxProcessor → Bool) → List LinuxProcessor → ℕ
tally test [] = 0
tally test (p ∷ ps) = (if test p then 1 else 0) + tally test ps

abbrev pub usable_count : ℕ → List LinuxProcessor → ℕ
usable_count mask ps = tally (λ p. bitmask_all p.flags mask) ps

pub length-valid_ids :
    (id_of : ℕ → ℕ) (ps : List LinuxProcessor)
    → length (valid_ids id_of ps) ≡ usable_count flag_valid ps
length-valid_ids id_of [] = refl
length-valid_ids id_of (p ∷ ps) = ground (arith, length-valid_ids id_of ps)
