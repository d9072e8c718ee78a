-- ===== src/X86/Objects/Usable.antt =====
-- What the marks, the numbers and the sorting do before the counting loop.
use cpuinfo.Base.{
  uint32_max, ℕ, suc, ◌+◌, ◌<◌, bit_and, Bool, true, false, not, List, [], ◌∷◌, map, ◌&&◌, ◌==◌,
  ltb, if◌then◌else◌, bitmask_all, length, All, ◌≡◌, refl, sym, ap, ◌∙◌, arith, Bool-cases, inl,
  inr,
}
use cpuinfo.Base.Bits.{bitmask_all-or_self, bitmask_all-or_other}
use cpuinfo.Linux.Flags.{flag_valid}
use cpuinfo.X86.Objects.{LinuxProcessor, processors_and_mask, mark_valid, number_valid}
use cpuinfo.X86.Objects.Counted.{Usable, tally, usable_count}

-- What a sort promises: it changes the order only.
abbrev pub Reorders : (List LinuxProcessor → List LinuxProcessor) → Type 0
Reorders sort =
    (test : LinuxProcessor → Bool) (ps : List LinuxProcessor) → tally test (sort ps) ≡ tally test ps

-- A processor as /proc/cpuinfo is parsed: not marked, with an APIC ID below the largest uint32_t.
abbrev pub Parsed : LinuxProcessor → Type 0
Parsed p = (bitmask_all p.flags flag_valid ≡ false) × (p.apic_id < uint32_max)

pub mask-without_valid :
    (max_processors max_possible max_present : ℕ)
    → bit_and flag_valid (processors_and_mask max_processors max_possible max_present).1 ≡ 0
unfolding processors_and_mask
mask-without_valid max_processors max_possible max_present = elim (Bool-cases (max_present == 0)) [
  | inl e ↦ elim (Bool-cases (max_possible == 0)) [
    | inl f ↦ rw (e, f) refl
    | inr f ↦ rw (e, f) refl
  ]
  | inr e ↦ elim (Bool-cases (max_possible == 0)) [
    | inl f ↦ rw (e, f) refl
    | inr f ↦ rw (e, f) refl
  ]
]

module _ (mask : ℕ) (outside : bit_and flag_valid mask ≡ 0) where
  -- The mark says what the mask says, of a processor before and after.
  marked_flags :
      (p : LinuxProcessor)
      → Parsed p
      → (bitmask_all (mark_valid mask p).flags flag_valid ≡ bitmask_all p.flags mask)
        × (bitmask_all (mark_valid mask p).flags mask ≡ bitmask_all p.flags mask)
        × ((mark_valid mask p).apic_id ≡ p.apic_id)
  unfolding mark_valid
  marked_flags p (fresh, _) = elim (Bool-cases (bitmask_all p.flags mask)) [
    | inl e ↦ rw e (
      bitmask_all-or_self p.flags flag_valid,
      bitmask_all-or_other p.flags flag_valid mask outside ∙ e,
      refl,
    )
    | inr e ↦ rw e (fresh, e, refl)
  ]

  pub marks-Usable :
      (ps : List LinuxProcessor) → All Parsed ps → All (Usable mask) (map (mark_valid mask) ps)
  marks-Usable [] _ = tt
  marks-Usable (p ∷ ps) (parsed, rest) =
      let (valid, masked, id) = marked_flags p parsed in
      ((valid ∙ sym masked, rw id (parsed.1)), marks-Usable ps rest)

  pub marks-count :
      (ps : List LinuxProcessor)
      → All Parsed ps
      → usable_count flag_valid (map (mark_valid mask) ps) ≡ usable_count mask ps
  marks-count [] _ = refl
  marks-count (p ∷ ps) (parsed, rest) =
      let (valid, _, _) = marked_flags p parsed in
      ap (λ (b : Bool). (if b then 1 else 0) + usable_count flag_valid (map (mark_valid mask) ps))
        valid
      ∙ ap (λ (n : ℕ). (if bitmask_all p.flags mask then 1 else 0) + n) (marks-count ps rest)

pub numbers-Usable :
    (mask i : ℕ) (ps : List LinuxProcessor)
    → All (Usable mask) ps
    → All (Usable mask) (number_valid i ps)
unfolding number_valid
numbers-Usable mask i [] _ = tt
numbers-Usable mask i (p ∷ ps) (usable, rest) = elim (Bool-cases (bitmask_all p.flags flag_valid)) [
  | inl e ↦ rw e (usable, numbers-Usable mask (suc i) ps rest)
  | inr e ↦ rw e (usable, numbers-Usable mask (suc i) ps rest)
]

pub numbers-count :
    (i : ℕ) (ps : List LinuxProcessor)
    → usable_count flag_valid (number_valid i ps) ≡ usable_count flag_valid ps
unfolding number_valid
numbers-count i [] = refl
numbers-count i (p ∷ ps) = ground (arith, numbers-count (suc i) ps)

-- `Usable` as a test, that every processor of a list passes if none fails.
abbrev pub is_usable : ℕ → LinuxProcessor → Bool
is_usable mask p =
    (if bitmask_all p.flags flag_valid
      then bitmask_all p.flags mask
      else not (bitmask_all p.flags mask))
    && ltb p.apic_id uint32_max

pub tally-Usable :
    (mask : ℕ) (ps : List LinuxProcessor)
    → All (Usable mask) ps
    → tally (λ p. not (is_usable mask p)) ps ≡ 0
tally-Usable mask [] _ = refl
tally-Usable mask (p ∷ ps) ((same, below), rest) = ground (arith, tally-Usable mask ps rest)

pub Usable-tally :
    (mask : ℕ) (ps : List LinuxProcessor)
    → tally (λ p. not (is_usable mask p)) ps ≡ 0
    → All (Usable mask) ps
Usable-tally mask [] _ = tt
Usable-tally mask (p ∷ ps) none_fails =
    ((ground arith, ground arith), Usable-tally mask ps (ground arith))

pub length-tally : (ps : List LinuxProcessor) → tally (λ _. true) ps ≡ length ps
length-tally [] = refl
length-tally (p ∷ ps) = omega (arith, length-tally ps)

pub length-numbers : (i : ℕ) (ps : List LinuxProcessor) → length (number_valid i ps) ≡ length ps
unfolding number_valid
length-numbers i [] = refl
length-numbers i (p ∷ ps) = ap suc (length-numbers (suc i) ps)

pub length-marks :
    (mask : ℕ) (ps : List LinuxProcessor) → length (map (mark_valid mask) ps) ≡ length ps
length-marks mask [] = refl
length-marks mask (p ∷ ps) = ap suc (length-marks mask ps)
