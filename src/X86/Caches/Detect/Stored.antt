-- ===== src/X86/Caches/Detect/Stored.antt =====
-- The caches that one subleaf leaves have the size that their parts have together.
use cpuinfo.Base.{ℕ, ◌*◌, bit_or, ◌==◌, u32, ap, ◌∙◌, Bool-cases, inl, inr}
use cpuinfo.X86.Caches.{
  CpuidRegs, Cache, Caches, cache_unified, cache_type_none, field_type, field_level,
  field_associativity, field_partitions, field_line_size, field_sets, described, inclusive_flag,
  complex_flag, store_first, store_other, decode_deterministic_cache_parameters,
  decode_cache_properties,
}
use cpuinfo.X86.Caches.Encode.{u32_product}
use cpuinfo.X86.Caches.Sizes.{
  HasSize, HaveSizes, if-HaveSizes, put_l1i-HaveSizes, put_l1d-HaveSizes, put_l2-HaveSizes,
  put_l3-HaveSizes, put_l4-HaveSizes,
}

pub described-HasSize : (regs : CpuidRegs) (flags : ℕ) → HasSize (described regs flags)
unfolding described
described-HasSize regs flags =
    let ways = field_associativity regs in
    let parts = field_partitions regs in
    let line = field_line_size regs in
    let sets = field_sets regs in
    ap (λ (t : ℕ). u32 (t * sets)) (u32_product (ways * parts) line)
    ∙ u32_product (ways * parts * line) sets

module _ (regs : CpuidRegs) (cache : Caches) (k : HaveSizes cache) where
  store_first-HaveSizes : (flags : ℕ) → HaveSizes (store_first regs flags cache)
  unfolding store_first
  store_first-HaveSizes flags =
      let unified = described-HasSize regs (bit_or flags cache_unified) in
      let plain = described-HasSize regs flags in
      if-HaveSizes _ _ _ (put_l1i-HaveSizes _ _ unified (put_l1d-HaveSizes _ _ unified k)) (
        if-HaveSizes _ _ _ (put_l1d-HaveSizes _ _ plain k)
          (if-HaveSizes _ _ _ (put_l1i-HaveSizes _ _ plain k) k))

  -- Wherever a cache of the right size may be put.
  store_other-HaveSizes :
      (flags : ℕ) (put : Cache → Caches)
      → ((c : Cache) → HasSize c → HaveSizes (put c))
      → HaveSizes (store_other regs flags put cache)
  unfolding store_other
  store_other-HaveSizes flags put h =
      if-HaveSizes _ _ _ (h _ (described-HasSize regs (bit_or flags cache_unified)))
        (if-HaveSizes _ _ _ (h _ (described-HasSize regs flags)) k)

  pub deterministic-HaveSizes :
      (n : ℕ) → HaveSizes (decode_deterministic_cache_parameters regs cache n).0
  unfolding decode_deterministic_cache_parameters
  deterministic-HaveSizes n =
      let flags = complex_flag regs.edx (inclusive_flag regs.edx) in
      let stored = if-HaveSizes _ _ (field_level regs == 1) (store_first-HaveSizes flags) (
        if-HaveSizes _ _ (field_level regs == 2)
          (store_other-HaveSizes flags _ (λ c h. put_l2-HaveSizes c cache h k))
          (if-HaveSizes _ _ (field_level regs == 3)
            (store_other-HaveSizes flags _ (λ c h. put_l3-HaveSizes c cache h k))
            (if-HaveSizes _ _ (field_level regs == 4)
              (store_other-HaveSizes flags _ (λ c h. put_l4-HaveSizes c cache h k)) k))) in
      elim (Bool-cases (field_type regs == cache_type_none)) [
        | inl e ↦ rw e k
        | inr e ↦ rw e stored
      ]

  pub properties-HaveSizes : HaveSizes (decode_cache_properties regs cache).0
  unfolding decode_cache_properties
  properties-HaveSizes =
      let flags = inclusive_flag regs.edx in
      let stored = if-HaveSizes _ _ (field_level regs == 1) (store_first-HaveSizes flags) (
        if-HaveSizes _ _ (field_level regs == 2)
          (store_other-HaveSizes flags _ (λ c h. put_l2-HaveSizes c cache h k))
          (if-HaveSizes _ _ (field_level regs == 3)
            (store_other-HaveSizes flags _ (λ c h. put_l3-HaveSizes c cache h k)) k)) in
      elim (Bool-cases (field_type regs == cache_type_none)) [
        | inl e ↦ rw e k
        | inr e ↦ rw e stored
      ]
