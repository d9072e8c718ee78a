-- ===== src/X86/Caches/Encode.antt =====
-- Caches whose description fits the registers, as the manuals of the processors lay it out, and what
-- the two functions read from it.
use native.Mathlib.Nat.{add-mul, mul_assoc, div-add-mod, mul-add-mod_self_left}
use cpuinfo.Base.{ℕ, ◌+◌, ◌-◌, ◌*◌, ◌/◌, ◌^◌, ◌≤◌, ◌<◌, u32, ◌>>>◌, ◌≡◌, sym, ap, ◌∙◌, arith}
use cpuinfo.Base.Bits.{bit_and_low}
use cpuinfo.X86.BitLength.{bit_length}
use cpuinfo.X86.Caches.{
  CpuidRegs, Cache, field_type, field_level, field_cores, field_sharing, field_sets,
  field_line_size, field_partitions, field_associativity, described,
}

-- A remainder may be taken before a product or after it.
pub u32_product : (a b : ℕ) → u32 (u32 a * b) ≡ u32 (a * b)
u32_product a b =
    let whole : a * b ≡ 2 ^ 32 * (a / 2 ^ 32 * b) + u32 a * b =
      ap (λ (t : ℕ). t * b) (sym (div-add-mod a (2 ^ 32)))
      ∙ add-mul (2 ^ 32 * (a / 2 ^ 32)) (u32 a) b
      ∙ ap (λ (t : ℕ). t + u32 a * b) (mul_assoc (2 ^ 32) (a / 2 ^ 32) b) in
    sym (ap u32 whole ∙ mul-add-mod_self_left (2 ^ 32) (a / 2 ^ 32 * b) (u32 a * b))

-- What a cache holds, and how near it is to the core.
pub data Kind : Type 0 where
  of_data of_instructions unified : Kind

pub data Level : Type 0 where
  first second third fourth : Level

abbrev pub number_of_kind : Kind → ℕ
number_of_kind of_data = 1
number_of_kind of_instructions = 2
number_of_kind unified = 3

abbrev pub number_of_level : Level → ℕ
number_of_level first = 1
number_of_level second = 2
number_of_level third = 3
number_of_level fourth = 4

-- A cache, who shares it, and how many cores there are at most.
pub record Geometry : Type 0 where
  pub kind : Kind
  pub level : Level
  pub sharing : ℕ
  pub cores : ℕ
  pub ways : ℕ
  pub partitions : ℕ
  pub line : ℕ
  pub sets : ℕ
  pub properties : ℕ

-- Every number fits its field.
pub record Fits (g : Geometry) : Type 0 where
  pub sharing_fits : (1 ≤ g.sharing) × (g.sharing ≤ 2 ^ 12)
  pub cores_fits : (1 ≤ g.cores) × (g.cores ≤ 2 ^ 6)
  pub ways_fits : (1 ≤ g.ways) × (g.ways ≤ 2 ^ 10)
  pub partitions_fits : (1 ≤ g.partitions) × (g.partitions ≤ 2 ^ 10)
  pub line_fits : (1 ≤ g.line) × (g.line ≤ 2 ^ 12)
  pub sets_fits : (1 ≤ g.sets) × (g.sets < 2 ^ 32)

-- Numbers from 1 on are stored less one.
abbrev pub encode : Geometry → CpuidRegs
encode g = record {
  eax =
      number_of_kind g.kind
      + 2 ^ 5 * number_of_level g.level
      + 2 ^ 14 * (g.sharing - 1)
      + 2 ^ 26 * (g.cores - 1);
  ebx = (g.line - 1) + 2 ^ 12 * (g.partitions - 1) + 2 ^ 22 * (g.ways - 1);
  ecx = g.sets - 1;
  edx = g.properties;
}

abbrev pub cache_of : Geometry → ℕ → Cache
cache_of g flags = record {
  size = u32 (g.ways * g.partitions * g.line * g.sets);
  associativity = g.ways;
  sets = g.sets;
  partitions = g.partitions;
  line_size = g.line;
  flags = flags;
  apic_bits = bit_length g.sharing;
}

kind_small : (k : Kind) → number_of_kind k < 2 ^ 5
kind_small of_data = omega arith
kind_small of_instructions = omega arith
kind_small unified = omega arith

level_small : (l : Level) → number_of_level l < 2 ^ 3
level_small first = omega arith
level_small second = omega arith
level_small third = omega arith
level_small fourth = omega arith

module _ (g : Geometry) (f : Fits g) where
  open f use {sharing_fits, cores_fits, ways_fits, partitions_fits, line_fits, sets_fits}

  pub type_of : field_type (encode g) ≡ number_of_kind g.kind
  unfolding field_type
  type_of =
      let low = bit_and_low 5 ((encode g).eax) in
      let kind = kind_small g.kind in let level = level_small g.level in omega arith

  pub level_of : field_level (encode g) ≡ number_of_level g.level
  unfolding field_level
  level_of =
      let low = bit_and_low 3 ((encode g).eax >>> 5) in
      let kind = kind_small g.kind in let level = level_small g.level in omega arith

  pub cores_of : field_cores (encode g) ≡ g.cores
  unfolding field_cores
  cores_of = let kind = kind_small g.kind in let level = level_small g.level in omega arith

  sharing_of : field_sharing (encode g) ≡ g.sharing
  unfolding field_sharing
  sharing_of =
      let low = bit_and_low 12 ((encode g).eax >>> 14) in
      let kind = kind_small g.kind in let level = level_small g.level in omega arith

  sets_of : field_sets (encode g) ≡ g.sets
  unfolding field_sets
  sets_of = omega arith

  line_of : field_line_size (encode g) ≡ g.line
  unfolding field_line_size
  line_of = let low = bit_and_low 12 ((encode g).ebx) in omega arith

  partitions_of : field_partitions (encode g) ≡ g.partitions
  unfolding field_partitions
  partitions_of = let low = bit_and_low 10 ((encode g).ebx >>> 12) in omega arith

  ways_of : field_associativity (encode g) ≡ g.ways
  unfolding field_associativity
  ways_of = omega arith

  size_of :
      u32 (u32 (u32 (g.ways * g.partitions) * g.line) * g.sets)
      ≡ u32 (g.ways * g.partitions * g.line * g.sets)
  size_of =
      ap (λ (t : ℕ). u32 (t * g.sets)) (u32_product (g.ways * g.partitions) g.line)
      ∙ u32_product (g.ways * g.partitions * g.line) g.sets

  pub described_of : (flags : ℕ) → described (encode g) flags ≡ cache_of g flags
  unfolding described
  described_of flags =
      rw (ways_of, partitions_of, line_of, sets_of, sharing_of)
        (ap (λ (n : ℕ). record (cache_of g flags) { size = n }) size_of)
