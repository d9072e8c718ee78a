-- ===== src/Arm/Midr/Cores.antt =====
-- The tests of src/arm/midr.h for known cores, the score of a core and the LITTLE core for a big one.
use cpuinfo.Base.{
  ℕ, bit_and, bit_or, Bool, true, false, [], ◌∷◌, ◌++◌, ◌==◌, if◌then◌else◌, is_one_of,
}
use cpuinfo.Arm.Midr.{
  implementer_mask, core_mask, core_and_architecture_mask, arm1156, cortex_a7, cortex_a9,
  cortex_a15, cortex_a17, cortex_a53, cortex_a55, cortex_a57, cortex_a72, cortex_a73, cortex_a75,
  kryo280_gold, kryo280_silver, kryo385_silver, kryo_silver_821, kryo_gold, kryo_silver_820,
  exynos_m1_m2, denver2,
}

-- `CPUINFO_ARCH_ARM` and `CPUINFO_ARCH_ARM64`, for which the code is compiled.
pub data Arch : Type 0 where
  arm arm64 : Arch

abbrev pub on_arm : Arch → Bool
on_arm arm = true
on_arm arm64 = false

abbrev pub on_arm64 : Arch → Bool
on_arm64 arm = false
on_arm64 arm64 = true

unfoldable pub midr_is_arm1156 : ℕ → Bool
midr_is_arm1156 midr = bit_and midr core_mask == bit_and arm1156 core_mask

unfoldable pub midr_is_arm11 : ℕ → Bool
midr_is_arm11 midr = bit_and midr (bit_or implementer_mask 0x0000f000) == 0x4100b000

unfoldable pub midr_is_cortex_a9 : ℕ → Bool
midr_is_cortex_a9 midr = bit_and midr core_mask == bit_and cortex_a9 core_mask

unfoldable pub midr_is_scorpion : ℕ → Bool
midr_is_scorpion midr = is_one_of (bit_and midr core_mask) (0x510000f0 ∷ 0x510002d0 ∷ [])

unfoldable pub midr_is_krait : ℕ → Bool
midr_is_krait midr = is_one_of (bit_and midr core_mask) (0x510004d0 ∷ 0x510006f0 ∷ [])

unfoldable pub midr_is_cortex_a53 : ℕ → Bool
midr_is_cortex_a53 midr = bit_and midr core_mask == bit_and cortex_a53 core_mask

unfoldable pub midr_is_qualcomm_cortex_a53_silver : ℕ → Bool
midr_is_qualcomm_cortex_a53_silver midr = bit_and midr core_mask == bit_and kryo280_silver core_mask

unfoldable pub midr_is_qualcomm_cortex_a55_silver : ℕ → Bool
midr_is_qualcomm_cortex_a55_silver midr = bit_and midr core_mask == bit_and kryo385_silver core_mask

unfoldable pub midr_is_kryo280_gold : ℕ → Bool
midr_is_kryo280_gold midr = bit_and midr core_mask == bit_and kryo280_gold core_mask

unfoldable pub midr_is_kryo_silver : ℕ → Bool
midr_is_kryo_silver midr =
    is_one_of (bit_and midr core_and_architecture_mask) (kryo_silver_820 ∷ kryo_silver_821 ∷ [])

unfoldable pub midr_is_kryo_gold : ℕ → Bool
midr_is_kryo_gold midr = bit_and midr core_mask == bit_and kryo_gold core_mask

-- The score by the masked register: the groups of cases of the `switch`.
unfoldable pub score_of_core : Arch → ℕ → ℕ
score_of_core arch core =
    if is_one_of core (0x53000030 ∷ 0x53000040 ∷ 0x4100d440 ∷ 0x4100d480 ∷ 0x4100d4e0 ∷ [])
    then 6
    else if is_one_of core (
        (0x4100d080 ∷ 0x4100d090 ∷ 0x4100d0a0 ∷ 0x4100d0b0 ∷ 0x4100d0d0 ∷ 0x4100d0e0 ∷ 0x4100d410
          ∷ 0x4100d470 ∷ 0x4100d4d0 ∷ 0x4800d400 ∷ 0x4e000030 ∷ 0x51002050 ∷ 0x51008000 ∷ 0x51008020
          ∷ 0x51008040 ∷ 0x53000010 ∷ 0x53000020 ∷ [])
        ++ (if on_arm arch then 0x4100c0f0 ∷ 0x4100c0e0 ∷ 0x4100c0d0 ∷ 0x4100c0c0 ∷ [] else []))
    then 5
    else if is_one_of core (0x4100d070 ∷ [])
    then 4
    else if is_one_of core (
        (if on_arm64 arch then 0x4100d060 ∷ [] else [])
        ++ 0x4100d030 ∷ 0x4100d050 ∷ 0x4100d460 ∷ [])
    then 2
    else if is_one_of core (
        0x4100d040 ∷ (if on_arm arch then 0x4100c070 ∷ [] else [])
        ++ 0x51008050 ∷ 0x51008030 ∷ 0x51008010 ∷ 0x51002110 ∷ 0x51002010 ∷ [])
    then 1
    else 3

unfoldable pub midr_score_core : Arch → ℕ → ℕ
midr_score_core arch midr = score_of_core arch (bit_and midr core_mask)

-- The LITTLE core by the masked register; the register itself stands for the default case.
unfoldable pub little_core_of : ℕ → ℕ → ℕ
little_core_of core midr =
    if core == cortex_a75
    then cortex_a55
    else if is_one_of core (cortex_a73 ∷ cortex_a72 ∷ cortex_a57 ∷ exynos_m1_m2 ∷ [])
    then cortex_a53
    else if is_one_of core (cortex_a17 ∷ cortex_a15 ∷ [])
    then cortex_a7
    else if core == kryo280_gold
    then kryo280_silver
    else if core == kryo_gold
    then kryo_silver_820
    else if core == denver2
    then cortex_a57
    else midr

unfoldable pub midr_little_core_for_big : ℕ → ℕ
midr_little_core_for_big midr = little_core_of (bit_and midr core_and_architecture_mask) midr
