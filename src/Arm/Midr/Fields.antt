-- ===== src/Arm/Midr/Fields.antt =====
-- Setting, reading and copying the fields of the register.
use cpuinfo.Base.{ℕ, ◌%◌, ◌^◌, ◌≡◌, refl, ap, ◌∙◌, arith, bit_and, bit_or, not32, ◌<<<◌, ◌>>>◌}
use cpuinfo.Base.Bits.{
  bit_and_field, bit_and_or, bit_and_assoc, bit_or_comm, zero-bit_or, bit_and_zero,
}
use cpuinfo.Arm.Midr.{
  implementer_mask, variant_mask, architecture_mask, part_mask, revision_mask, midr_set_implementer,
  midr_set_variant, midr_set_part, midr_set_revision, midr_get_implementer, midr_get_variant,
  midr_get_part, midr_get_revision, midr_copy_implementer, midr_copy_variant,
  midr_copy_architecture, midr_copy_part, midr_copy_revision,
}

-- The bits of `other` under a mask, and all other bits of `midr`.
abbrev pub merge : ℕ → ℕ → ℕ → ℕ
merge mask midr other = bit_or (bit_and midr (not32 mask)) (bit_and other mask)

pub merge_under :
    (mask n midr other : ℕ)
    → bit_and (not32 mask) n ≡ 0
    → bit_and mask n ≡ n
    → bit_and (merge mask midr other) n ≡ bit_and other n
merge_under mask n midr other h k =
    bit_and_or (bit_and midr (not32 mask)) (bit_and other mask) n
    ∙ rw (bit_and_assoc, h, bit_and_zero, zero-bit_or, bit_and_assoc) (rw k)

pub merge_beside :
    (mask n midr other : ℕ)
    → bit_and (not32 mask) n ≡ n
    → bit_and mask n ≡ 0
    → bit_and (merge mask midr other) n ≡ bit_and midr n
merge_beside mask n midr other h k =
    bit_and_or (bit_and midr (not32 mask)) (bit_and other mask) n
    ∙ rw (bit_and_assoc, h) (rw (bit_and_assoc, k, bit_and_zero, bit_or_comm) (zero-bit_or _))

implementer_shifted : (value : ℕ) → bit_and (value <<< 24) implementer_mask >>> 24 ≡ value % 2 ^ 8
implementer_shifted value = omega (arith, bit_and_field 24 8 (value <<< 24))

variant_shifted : (value : ℕ) → bit_and (value <<< 20) variant_mask >>> 20 ≡ value % 2 ^ 4
variant_shifted value = omega (arith, bit_and_field 20 4 (value <<< 20))

part_shifted : (value : ℕ) → bit_and (value <<< 4) part_mask >>> 4 ≡ value % 2 ^ 12
part_shifted value = omega (arith, bit_and_field 4 12 (value <<< 4))

revision_shifted : (value : ℕ) → bit_and (value <<< 0) revision_mask >>> 0 ≡ value % 2 ^ 4
revision_shifted value = omega (arith, bit_and_field 0 4 (value <<< 0))

-- What the four functions read.
abbrev pub fields : ℕ → ℕ × ℕ × ℕ × ℕ
fields midr =
    (midr_get_implementer midr, midr_get_variant midr, midr_get_part midr, midr_get_revision midr)

four_equal :
    {a a' b b' c c' d d' : ℕ}
    → a ≡ a'
    → b ≡ b'
    → c ≡ c'
    → d ≡ d'
    → ◌≡◌ {A = ℕ × ℕ × ℕ × ℕ} (a, b, c, d) (a', b', c', d')
four_equal p q r s = rw (p, q, r, s) refl

-- A field that is set is read back, cut to its width, and the other three are as before.
pub midr_get-midr_set :
    (midr value : ℕ)
    → (fields (midr_set_implementer midr value)
        ≡ (value % 2 ^ 8, midr_get_variant midr, midr_get_part midr, midr_get_revision midr))
      × (fields (midr_set_variant midr value)
          ≡ (midr_get_implementer midr, value % 2 ^ 4, midr_get_part midr, midr_get_revision midr))
      × (fields (midr_set_part midr value) ≡ (
        midr_get_implementer midr,
        midr_get_variant midr,
        value % 2 ^ 12,
        midr_get_revision midr,
      ))
      × (fields (midr_set_revision midr value)
          ≡ (midr_get_implementer midr, midr_get_variant midr, midr_get_part midr, value % 2 ^ 4))
unfolding midr_set_implementer midr_set_variant midr_set_part midr_set_revision midr_get_implementer
    midr_get_variant midr_get_part midr_get_revision
midr_get-midr_set midr value = (
  four_equal
      (ap (λ (x : ℕ). x >>> 24)
          (merge_under implementer_mask implementer_mask midr (value <<< 24) refl refl)
        ∙ implementer_shifted value)
      (ap (λ (x : ℕ). x >>> 20)
        (merge_beside implementer_mask variant_mask midr (value <<< 24) refl refl))
      (ap (λ (x : ℕ). x >>> 4)
        (merge_beside implementer_mask part_mask midr (value <<< 24) refl refl))
      (ap (λ (x : ℕ). x >>> 0)
        (merge_beside implementer_mask revision_mask midr (value <<< 24) refl refl)),
  four_equal
      (ap (λ (x : ℕ). x >>> 24)
        (merge_beside variant_mask implementer_mask midr (value <<< 20) refl refl))
      (ap (λ (x : ℕ). x >>> 20)
          (merge_under variant_mask variant_mask midr (value <<< 20) refl refl)
        ∙ variant_shifted value)
      (ap (λ (x : ℕ). x >>> 4) (merge_beside variant_mask part_mask midr (value <<< 20) refl refl))
      (ap (λ (x : ℕ). x >>> 0)
        (merge_beside variant_mask revision_mask midr (value <<< 20) refl refl)),
  four_equal
      (ap (λ (x : ℕ). x >>> 24)
        (merge_beside part_mask implementer_mask midr (value <<< 4) refl refl))
      (ap (λ (x : ℕ). x >>> 20) (merge_beside part_mask variant_mask midr (value <<< 4) refl refl))
      (ap (λ (x : ℕ). x >>> 4) (merge_under part_mask part_mask midr (value <<< 4) refl refl)
        ∙ part_shifted value)
      (ap (λ (x : ℕ). x >>> 0) (merge_beside part_mask revision_mask midr (value <<< 4) refl refl)),
  four_equal
      (ap (λ (x : ℕ). x >>> 24)
        (merge_beside revision_mask implementer_mask midr (value <<< 0) refl refl))
      (ap (λ (x : ℕ). x >>> 20)
        (merge_beside revision_mask variant_mask midr (value <<< 0) refl refl))
      (ap (λ (x : ℕ). x >>> 4) (merge_beside revision_mask part_mask midr (value <<< 0) refl refl))
      (ap (λ (x : ℕ). x >>> 0)
          (merge_under revision_mask revision_mask midr (value <<< 0) refl refl)
        ∙ revision_shifted value),
)

-- A field that is copied is that of the other register, and the fields that are not copied are as
-- before.
pub midr_get-midr_copy :
    (midr other : ℕ)
    → (fields (midr_copy_implementer midr other) ≡ (
      midr_get_implementer other,
      midr_get_variant midr,
      midr_get_part midr,
      midr_get_revision midr,
    ))
      × (fields (midr_copy_variant midr other) ≡ (
        midr_get_implementer midr,
        midr_get_variant other,
        midr_get_part midr,
        midr_get_revision midr,
      ))
      × (fields (midr_copy_architecture midr other) ≡ (
        midr_get_implementer midr,
        midr_get_variant midr,
        midr_get_part midr,
        midr_get_revision midr,
      ))
      × (fields (midr_copy_part midr other) ≡ (
        midr_get_implementer midr,
        midr_get_variant midr,
        midr_get_part other,
        midr_get_revision midr,
      ))
      × (fields (midr_copy_revision midr other) ≡ (
        midr_get_implementer midr,
        midr_get_variant midr,
        midr_get_part midr,
        midr_get_revision other,
      ))
unfolding midr_copy_implementer midr_copy_variant midr_copy_architecture midr_copy_part
    midr_copy_revision midr_get_implementer midr_get_variant midr_get_part midr_get_revision
midr_get-midr_copy midr other = (
  four_equal
      (ap (λ (x : ℕ). x >>> 24)
        (merge_under implementer_mask implementer_mask midr other refl refl))
      (ap (λ (x : ℕ). x >>> 20) (merge_beside implementer_mask variant_mask midr other refl refl))
      (ap (λ (x : ℕ). x >>> 4) (merge_beside implementer_mask part_mask midr other refl refl))
      (ap (λ (x : ℕ). x >>> 0) (merge_beside implementer_mask revision_mask midr other refl refl)),
  four_equal
      (ap (λ (x : ℕ). x >>> 24) (merge_beside variant_mask implementer_mask midr other refl refl))
      (ap (λ (x : ℕ). x >>> 20) (merge_under variant_mask variant_mask midr other refl refl))
      (ap (λ (x : ℕ). x >>> 4) (merge_beside variant_mask part_mask midr other refl refl))
      (ap (λ (x : ℕ). x >>> 0) (merge_beside variant_mask revision_mask midr other refl refl)),
  four_equal
      (ap (λ (x : ℕ). x >>> 24)
        (merge_beside architecture_mask implementer_mask midr other refl refl))
      (ap (λ (x : ℕ). x >>> 20) (merge_beside architecture_mask variant_mask midr other refl refl))
      (ap (λ (x : ℕ). x >>> 4) (merge_beside architecture_mask part_mask midr other refl refl))
      (ap (λ (x : ℕ). x >>> 0) (merge_beside architecture_mask revision_mask midr other refl refl)),
  four_equal
      (ap (λ (x : ℕ). x >>> 24) (merge_beside part_mask implementer_mask midr other refl refl))
      (ap (λ (x : ℕ). x >>> 20) (merge_beside part_mask variant_mask midr other refl refl))
      (ap (λ (x : ℕ). x >>> 4) (merge_under part_mask part_mask midr other refl refl))
      (ap (λ (x : ℕ). x >>> 0) (merge_beside part_mask revision_mask midr other refl refl)),
  four_equal
      (ap (λ (x : ℕ). x >>> 24) (merge_beside revision_mask implementer_mask midr other refl refl))
      (ap (λ (x : ℕ). x >>> 20) (merge_beside revision_mask variant_mask midr other refl refl))
      (ap (λ (x : ℕ). x >>> 4) (merge_beside revision_mask part_mask midr other refl refl))
      (ap (λ (x : ℕ). x >>> 0) (merge_under revision_mask revision_mask midr other refl refl)),
)
