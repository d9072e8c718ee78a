-- ===== src/X86/Caches/RoundTrip.antt =====
-- What the two functions make of a description that fits the registers.
use cpuinfo.Base.{ℕ, bit_or, true, false, ◌==◌, ◌≡◌, refl, ap, ◌∙◌}
use cpuinfo.X86.Caches.{
  CpuidRegs, Cache, Caches, cache_unified, field_type, field_level, field_cores, described,
  inclusive_flag, complex_flag, store_first, store_other, decode_deterministic_cache_parameters,
  decode_cache_properties,
}
use cpuinfo.X86.Caches.Encode.{
  Kind, of_data, of_instructions, unified, Level, first, second, third, fourth, number_of_kind,
  number_of_level, Geometry, Fits, encode, cache_of, type_of, level_of, cores_of, described_of,
}

-- Where a cache is stored. A cache of instructions behind the first level is ignored.
abbrev pub put : Level → Kind → Cache → Caches → Caches
put first of_data c caches = record caches { l1d = c }
put first of_instructions c caches = record caches { l1i = c }
put first unified c caches = record caches { l1i = c; l1d = c }
put second of_data c caches = record caches { l2 = c }
put second of_instructions c caches = caches
put second unified c caches = record caches { l2 = c }
put third of_data c caches = record caches { l3 = c }
put third of_instructions c caches = caches
put third unified c caches = record caches { l3 = c }
put fourth of_data c caches = record caches { l4 = c }
put fourth of_instructions c caches = caches
put fourth unified c caches = record caches { l4 = c }

abbrev pub kind_flags : Kind → ℕ → ℕ
kind_flags of_data flags = flags
kind_flags of_instructions flags = flags
kind_flags unified flags = bit_or flags cache_unified

-- The second function has no fourth level.
abbrev pub put_below_fourth : Level → Kind → Cache → Caches → Caches
put_below_fourth first k c caches = put first k c caches
put_below_fourth second k c caches = put second k c caches
put_below_fourth third k c caches = put third k c caches
put_below_fourth fourth k c caches = caches

named : (k : Kind) → (number_of_kind k == 0) ≡ false
named of_data = refl
named of_instructions = refl
named unified = refl

module _ (regs : CpuidRegs) (flags : ℕ) (caches : Caches) where
  store_first-put :
      (k : Kind)
      → field_type regs ≡ number_of_kind k
      → store_first regs flags caches ≡ put first k (described regs (kind_flags k flags)) caches
  unfolding store_first
  store_first-put of_data t = rw t refl
  store_first-put of_instructions t = rw t refl
  store_first-put unified t = rw t refl

  other_case : Kind → (Cache → Caches) → Caches
  other_case of_data p = p (described regs flags)
  other_case of_instructions p = caches
  other_case unified p = p (described regs (bit_or flags cache_unified))

  store_other-case :
      (k : Kind) (p : Cache → Caches)
      → field_type regs ≡ number_of_kind k
      → store_other regs flags p caches ≡ other_case k p
  unfolding store_other other_case
  store_other-case of_data p t = rw t refl
  store_other-case of_instructions p t = rw t refl
  store_other-case unified p t = rw t refl

  other-put :
      (k : Kind)
      → (other_case k (λ c. record caches { l2 = c })
          ≡ put second k (described regs (kind_flags k flags)) caches)
        × (other_case k (λ c. record caches { l3 = c })
            ≡ put third k (described regs (kind_flags k flags)) caches)
        × (other_case k (λ c. record caches { l4 = c })
            ≡ put fourth k (described regs (kind_flags k flags)) caches)
  unfolding other_case
  other-put of_data = (refl, refl, refl)
  other-put of_instructions = (refl, refl, refl)
  other-put unified = (refl, refl, refl)

deterministic_cases :
    (regs : CpuidRegs) (caches : Caches) (old : ℕ) (l : Level) (k : Kind)
    → field_type regs ≡ number_of_kind k
    → field_level regs ≡ number_of_level l
    → decode_deterministic_cache_parameters regs caches old ≡ (
      put l k
          (described regs (kind_flags k (complex_flag regs.edx (inclusive_flag regs.edx))))
          caches,
      field_cores regs,
      true,
    )
unfolding decode_deterministic_cache_parameters
deterministic_cases regs caches old first k t l =
    rw (t, named k, l)
      (ap (λ (c : Caches). (c, field_cores regs, true)) (store_first-put regs _ caches k t))
deterministic_cases regs caches old second k t l =
    rw (t, named k, l)
      (ap (λ (c : Caches). (c, field_cores regs, true))
        (store_other-case regs _ caches k _ t ∙ (other-put regs _ caches k).0))
deterministic_cases regs caches old third k t l =
    rw (t, named k, l)
      (ap (λ (c : Caches). (c, field_cores regs, true))
        (store_other-case regs _ caches k _ t ∙ (other-put regs _ caches k).1))
deterministic_cases regs caches old fourth k t l =
    rw (t, named k, l)
      (ap (λ (c : Caches). (c, field_cores regs, true))
        (store_other-case regs _ caches k _ t ∙ (other-put regs _ caches k).2))

properties_cases :
    (regs : CpuidRegs) (caches : Caches) (l : Level) (k : Kind)
    → field_type regs ≡ number_of_kind k
    → field_level regs ≡ number_of_level l
    → decode_cache_properties regs caches ≡ (
      put_below_fourth l k (described regs (kind_flags k (inclusive_flag regs.edx))) caches,
      true,
    )
unfolding decode_cache_properties
properties_cases regs caches first k t l =
    rw (t, named k, l) (ap (λ (c : Caches). (c, true)) (store_first-put regs _ caches k t))
properties_cases regs caches second k t l =
    rw (t, named k, l)
      (ap (λ (c : Caches). (c, true))
        (store_other-case regs _ caches k _ t ∙ (other-put regs _ caches k).0))
properties_cases regs caches third k t l =
    rw (t, named k, l)
      (ap (λ (c : Caches). (c, true))
        (store_other-case regs _ caches k _ t ∙ (other-put regs _ caches k).1))
properties_cases regs caches fourth k t l = rw (t, named k, l) refl

-- A description that fits the registers is read back: the cache, with its size modulo 2 ^ 32, is
-- stored for its level and kind, the flags are those that EDX and the kind ask for, and the first
-- function also returns the number of cores. The second ignores a fourth level.
pub decode-encode :
    (g : Geometry) (caches : Caches) (old : ℕ)
    → Fits g
    → (decode_deterministic_cache_parameters (encode g) caches old ≡ (
      put g.level g.kind
          (cache_of g (kind_flags g.kind (complex_flag g.properties (inclusive_flag g.properties))))
          caches,
      g.cores,
      true,
    ))
      × (decode_cache_properties (encode g) caches ≡ (
        put_below_fourth g.level g.kind
            (cache_of g (kind_flags g.kind (inclusive_flag g.properties)))
            caches,
        true,
      ))
decode-encode g caches old f = (
  deterministic_cases (encode g) caches old g.level g.kind (type_of g f) (level_of g f)
      ∙ rw (described_of g f, cores_of g f) refl,
  properties_cases (encode g) caches g.level g.kind (type_of g f) (level_of g f)
      ∙ rw (described_of g f) refl,
)
