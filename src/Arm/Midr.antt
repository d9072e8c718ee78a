-- ===== src/Arm/Midr.antt =====
-- src/arm/midr.h: the Main ID Register of a core, as a uint32_t of five fields.
pub mod Fields
pub mod Cores
pub mod Scores
use cpuinfo.Base.{
  ℕ, ◌-◌, bit_and, bit_or, Bool, [], ◌∷◌, ◌==◌, ◌||◌, if◌then◌else◌, not32, ◌<<<◌, ◌>>>◌, is_one_of,
}

abbrev pub implementer_mask : ℕ
implementer_mask = 0xff000000

abbrev pub implementer_offset : ℕ
implementer_offset = 24

abbrev pub variant_mask : ℕ
variant_mask = 0x00f00000

abbrev pub variant_offset : ℕ
variant_offset = 20

abbrev pub architecture_mask : ℕ
architecture_mask = 0x000f0000

abbrev pub architecture_offset : ℕ
architecture_offset = 16

abbrev pub part_mask : ℕ
part_mask = 0x0000fff0

abbrev pub part_offset : ℕ
part_offset = 4

abbrev pub revision_mask : ℕ
revision_mask = 0x0000000f

abbrev pub revision_offset : ℕ
revision_offset = 0

-- The parts of a register by which a core is recognised.
abbrev pub core_mask : ℕ
core_mask = bit_or implementer_mask part_mask

abbrev pub core_and_architecture_mask : ℕ
core_and_architecture_mask = bit_or (bit_or implementer_mask architecture_mask) part_mask

abbrev pub arm1156 : ℕ
arm1156 = 0x410fb560

abbrev pub cortex_a7 : ℕ
cortex_a7 = 0x410fc070

abbrev pub cortex_a9 : ℕ
cortex_a9 = 0x410fc090

abbrev pub cortex_a15 : ℕ
cortex_a15 = 0x410fc0f0

abbrev pub cortex_a17 : ℕ
cortex_a17 = 0x410fc0e0

abbrev pub cortex_a35 : ℕ
cortex_a35 = 0x410fd040

abbrev pub cortex_a53 : ℕ
cortex_a53 = 0x410fd030

abbrev pub cortex_a55 : ℕ
cortex_a55 = 0x410fd050

abbrev pub cortex_a57 : ℕ
cortex_a57 = 0x410fd070

abbrev pub cortex_a72 : ℕ
cortex_a72 = 0x410fd080

abbrev pub cortex_a73 : ℕ
cortex_a73 = 0x410fd090

abbrev pub cortex_a75 : ℕ
cortex_a75 = 0x410fd0a0

abbrev pub kryo280_gold : ℕ
kryo280_gold = 0x51af8001

abbrev pub kryo280_silver : ℕ
kryo280_silver = 0x51af8014

abbrev pub kryo385_gold : ℕ
kryo385_gold = 0x518f802d

abbrev pub kryo385_silver : ℕ
kryo385_silver = 0x518f803c

abbrev pub kryo_silver_821 : ℕ
kryo_silver_821 = 0x510f2010

abbrev pub kryo_gold : ℕ
kryo_gold = 0x510f2050

abbrev pub kryo_silver_820 : ℕ
kryo_silver_820 = 0x510f2110

abbrev pub exynos_m1_m2 : ℕ
exynos_m1_m2 = 0x530f0010

abbrev pub denver2 : ℕ
denver2 = 0x4e0f0030

unfoldable pub midr_set_implementer : ℕ → ℕ → ℕ
midr_set_implementer midr implementer =
    bit_or (bit_and midr (not32 implementer_mask))
      (bit_and (implementer <<< implementer_offset) implementer_mask)

unfoldable pub midr_set_variant : ℕ → ℕ → ℕ
midr_set_variant midr variant =
    bit_or (bit_and midr (not32 variant_mask)) (bit_and (variant <<< variant_offset) variant_mask)

unfoldable pub midr_set_architecture : ℕ → ℕ → ℕ
midr_set_architecture midr architecture =
    bit_or (bit_and midr (not32 architecture_mask))
      (bit_and (architecture <<< architecture_offset) architecture_mask)

unfoldable pub midr_set_part : ℕ → ℕ → ℕ
midr_set_part midr part =
    bit_or (bit_and midr (not32 part_mask)) (bit_and (part <<< part_offset) part_mask)

unfoldable pub midr_set_revision : ℕ → ℕ → ℕ
midr_set_revision midr revision =
    bit_or (bit_and midr (not32 revision_mask))
      (bit_and (revision <<< revision_offset) revision_mask)

unfoldable pub midr_get_variant : ℕ → ℕ
midr_get_variant midr = bit_and midr variant_mask >>> variant_offset

unfoldable pub midr_get_implementer : ℕ → ℕ
midr_get_implementer midr = bit_and midr implementer_mask >>> implementer_offset

unfoldable pub midr_get_part : ℕ → ℕ
midr_get_part midr = bit_and midr part_mask >>> part_offset

unfoldable pub midr_get_revision : ℕ → ℕ
midr_get_revision midr = bit_and midr revision_mask >>> revision_offset

unfoldable pub midr_copy_implementer : ℕ → ℕ → ℕ
midr_copy_implementer midr other_midr =
    bit_or (bit_and midr (not32 implementer_mask)) (bit_and other_midr implementer_mask)

unfoldable pub midr_copy_variant : ℕ → ℕ → ℕ
midr_copy_variant midr other_midr =
    bit_or (bit_and midr (not32 variant_mask)) (bit_and other_midr variant_mask)

unfoldable pub midr_copy_architecture : ℕ → ℕ → ℕ
midr_copy_architecture midr other_midr =
    bit_or (bit_and midr (not32 architecture_mask)) (bit_and other_midr architecture_mask)

unfoldable pub midr_copy_part : ℕ → ℕ → ℕ
midr_copy_part midr other_midr =
    bit_or (bit_and midr (not32 part_mask)) (bit_and other_midr part_mask)

unfoldable pub midr_copy_revision : ℕ → ℕ → ℕ
midr_copy_revision midr other_midr =
    bit_or (bit_and midr (not32 revision_mask)) (bit_and other_midr revision_mask)
