-- ===== src/X86/Caches/Detect/Walks.antt =====
-- The walks over the subleaves of leaf 4 and of leaf 0x8000001D.
use cpuinfo.Base.{
  ℕ, zero, suc, ◌+◌, ◌<◌, ◌≤◌, ◌^◌, true, false, not, some, ◌==◌, u32, ◌≡◌, ◌≢◌, refl, ap, ◌∙◌,
  arith, Bool-cases, inl, inr,
}
use cpuinfo.X86.Caches.{
  CpuidRegs, Caches, cache_type_none, field_type, decode_deterministic_cache_parameters,
  decode_cache_properties,
}
use cpuinfo.X86.Caches.Sizes.{HaveSizes}
use cpuinfo.X86.Caches.Detect.{walk_leaf_4, walk_properties}
use cpuinfo.X86.Caches.Detect.Stored.{deterministic-HaveSizes, properties-HaveSizes}

deterministic_goes_on :
    (regs : CpuidRegs) (cache : Caches) (n : ℕ)
    → (decode_deterministic_cache_parameters regs cache n).2
      ≡ not (field_type regs == cache_type_none)
unfolding decode_deterministic_cache_parameters
deterministic_goes_on regs cache n = elim (Bool-cases (field_type regs == cache_type_none)) [
  | inl e ↦ rw e refl
  | inr e ↦ rw e refl
]

properties_goes_on :
    (regs : CpuidRegs) (cache : Caches)
    → (decode_cache_properties regs cache).1 ≡ not (field_type regs == cache_type_none)
unfolding decode_cache_properties
properties_goes_on regs cache = elim (Bool-cases (field_type regs == cache_type_none)) [
  | inl e ↦ rw e refl
  | inr e ↦ rw e refl
]

-- Subleaf `last` describes no cache.
pub record EndsAt (leaf : ℕ → CpuidRegs) (last : ℕ) : Type 0 where
  pub is_none : (field_type (leaf last) == cache_type_none) ≡ true
  pub in_range : last < 2 ^ 32

-- A subleaf that describes a cache is followed by the next one.
walk_leaf_4-next :
    (leaf : ℕ → CpuidRegs) (fuel n : ℕ) (cache : Caches) (cores : ℕ)
    → (field_type (leaf n) == cache_type_none) ≡ false
    → u32 (n + 1) ≡ suc n
    → walk_leaf_4 leaf (suc fuel) n cache cores
      ≡ walk_leaf_4 leaf fuel
          (suc n)
          (decode_deterministic_cache_parameters (leaf n) cache cores).0
          (decode_deterministic_cache_parameters (leaf n) cache cores).1
unfolding walk_leaf_4
walk_leaf_4-next leaf fuel n cache cores goes_on next =
    rw (deterministic_goes_on (leaf n) cache cores, goes_on, next) refl

walk_properties-next :
    (leaf : ℕ → CpuidRegs) (fuel n : ℕ) (cache : Caches)
    → (field_type (leaf n) == cache_type_none) ≡ false
    → u32 (n + 1) ≡ suc n
    → walk_properties leaf (suc fuel) n cache
      ≡ walk_properties leaf fuel (suc n) (decode_cache_properties (leaf n) cache).0
unfolding walk_properties
walk_properties-next leaf fuel n cache goes_on next =
    rw (properties_goes_on (leaf n) cache, goes_on, next) refl

pub walk_leaf_4-HaveSizes :
    (leaf : ℕ → CpuidRegs) (last : ℕ) (e : EndsAt leaf last) (fuel n : ℕ) (cache : Caches)
    (cores : ℕ)
    → n ≤ last
    → last < n + fuel
    → HaveSizes cache
    → (r : Caches × ℕ) × (walk_leaf_4 leaf fuel n cache cores ≡ some r) × HaveSizes r.0
unfolding walk_leaf_4
walk_leaf_4-HaveSizes leaf last e zero n cache cores below h k = absurd (omega arith)
walk_leaf_4-HaveSizes leaf last e (suc fuel) n cache cores below h k =
    let decoded = decode_deterministic_cache_parameters (leaf n) cache cores in
    let sizes = deterministic-HaveSizes (leaf n) cache k cores in
    let more = deterministic_goes_on (leaf n) cache cores in
    elim (Bool-cases (field_type (leaf n) == cache_type_none)) [
      | inl ends ↦ ((decoded.0, decoded.1), rw (more, ends) refl, sizes)
      | inr goes_on ↦
          let before : n ≢ last = λ at_end.
            let ends : (field_type (leaf n) == cache_type_none) ≡ true =
              ap (λ (j : ℕ). field_type (leaf j) == cache_type_none) at_end ∙ e.is_none in
            cc in
          let small = e.in_range in
          let step = walk_leaf_4-next leaf fuel n cache cores goes_on (omega arith) in
          let (r, found, right) =
            walk_leaf_4-HaveSizes leaf last e fuel (suc n) decoded.0 decoded.1 (omega arith)
              (omega arith) sizes in
          (r, step ∙ found, right)
    ]

pub walk_properties-HaveSizes :
    (leaf : ℕ → CpuidRegs) (last : ℕ) (e : EndsAt leaf last) (fuel n : ℕ) (cache : Caches)
    → n ≤ last
    → last < n + fuel
    → HaveSizes cache
    → (r : Caches) × (walk_properties leaf fuel n cache ≡ some r) × HaveSizes r
unfolding walk_properties
walk_properties-HaveSizes leaf last e zero n cache below h k = absurd (omega arith)
walk_properties-HaveSizes leaf last e (suc fuel) n cache below h k =
    let decoded = decode_cache_properties (leaf n) cache in
    let sizes = properties-HaveSizes (leaf n) cache k in
    let more = properties_goes_on (leaf n) cache in
    elim (Bool-cases (field_type (leaf n) == cache_type_none)) [
      | inl ends ↦ (decoded.0, rw (more, ends) refl, sizes)
      | inr goes_on ↦
          let before : n ≢ last = λ at_end.
            let ends : (field_type (leaf n) == cache_type_none) ≡ true =
              ap (λ (j : ℕ). field_type (leaf j) == cache_type_none) at_end ∙ e.is_none in
            cc in
          let small = e.in_range in
          let step = walk_properties-next leaf fuel n cache goes_on (omega arith) in
          let (r, found, right) =
            walk_properties-HaveSizes leaf last e fuel (suc n) decoded.0 (omega arith) (omega arith)
              sizes in
          (r, step ∙ found, right)
    ]
