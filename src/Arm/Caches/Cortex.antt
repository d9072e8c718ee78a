-- ===== src/Arm/Caches/Cortex.antt =====
-- The cases of src/arm/cache.c for the Cortex cores of version 8.
use cpuinfo.Base.{
  ℕ, ◌*◌, bit_and, bit_or, Bool, ◌&&◌, not, ◌==◌, if◌then◌else◌, u32, ◌>>>◌, is_one_of, [], ◌∷◌,
}
use cpuinfo.Arm.Midr.{implementer_mask, part_mask, kryo280_silver, kryo385_silver}
use cpuinfo.Arm.Chipset.{
  series_qualcomm_msm, series_qualcomm_apq, series_qualcomm_snapdragon, series_mediatek_mt,
  series_samsung_exynos, series_hisilicon_hi, series_hisilicon_kirin, series_broadcom_bcm,
  series_rockchip_rk,
}
use cpuinfo.Arm.Caches.{CoreCaches, Asked, cache_of, inclusive_of}

-- Functions of src/arm/midr.h.
unfoldable pub midr_is_qualcomm_cortex_a53_silver : ℕ → Bool
midr_is_qualcomm_cortex_a53_silver midr =
    let uarch_mask = bit_or implementer_mask part_mask in
    bit_and midr uarch_mask == bit_and kryo280_silver uarch_mask

unfoldable pub midr_is_qualcomm_cortex_a55_silver : ℕ → Bool
midr_is_qualcomm_cortex_a55_silver midr =
    let uarch_mask = bit_or implementer_mask part_mask in
    bit_and midr uarch_mask == bit_and kryo385_silver uarch_mask

unfoldable pub cortex_a35 : Asked → CoreCaches → CoreCaches
cortex_a35 a c = record c {
  l1i = cache_of (16 * 1024) 2 64;
  l1d = cache_of (16 * 1024) 4 64;
  l2 = cache_of (256 * 1024) 8 64;
}

-- The Cortex-A53 of Qualcomm.
unfoldable pub silver_l2_size : Asked → ℕ
silver_l2_size a =
    if a.chipset.series == series_qualcomm_msm
    then (if a.chipset.model == 8998 then 1024 * 1024 else 512 * 1024)
    else if a.chipset.series == series_qualcomm_snapdragon
    then (if a.chipset.model == 630
        then (if a.cluster_id == 0 then 1024 * 1024 else 512 * 1024)
        else if is_one_of a.chipset.model (636 ∷ 660 ∷ [])
        then 1024 * 1024
        else 512 * 1024)
    else 512 * 1024

-- `l1_size` and `l2_size` of the standard Cortex-A53.
unfoldable pub a53_l1_size : Asked → ℕ
a53_l1_size a =
    let s = a.chipset.series in
    if is_one_of s (
      series_qualcomm_msm ∷ series_qualcomm_apq ∷ series_qualcomm_snapdragon ∷ series_hisilicon_hi
      ∷ series_hisilicon_kirin ∷ [])
    then 32 * 1024
    else if s == series_mediatek_mt
    then (if a.chipset.model == 8173 then 32 * 1024 else 16 * 1024)
    else if is_one_of s (series_rockchip_rk ∷ series_samsung_exynos ∷ [])
    then 32 * 1024
    else 16 * 1024

unfoldable pub a53_l2_size : Asked → ℕ
a53_l2_size a =
    let s = a.chipset.series in
    let model = a.chipset.model in
    if s == series_qualcomm_msm
    then (if is_one_of model (8937 ∷ 8940 ∷ 8953 ∷ [])
        then (if a.cluster_id == 0 then 1024 * 1024 else 512 * 1024)
        else if model == 8952
        then (if not (a.cluster_id == 0) then 256 * 1024 else 512 * 1024)
        else 512 * 1024)
    else if s == series_qualcomm_apq
    then 512 * 1024
    else if s == series_qualcomm_snapdragon
    then (if (model == 450) && (a.cluster_id == 0) then 1024 * 1024 else 512 * 1024)
    else if s == series_hisilicon_hi
    then 512 * 1024
    else if s == series_hisilicon_kirin
    then (if model == 970 then 1024 * 1024 else 512 * 1024)
    else if s == series_mediatek_mt
    then (if model == 8173 then 512 * 1024 else 256 * 1024)
    else if s == series_rockchip_rk
    then (if (model == 3368) && (a.cluster_id == 0) then 512 * 1024 else 256 * 1024)
    else if s == series_broadcom_bcm
    then (if model == 2837 then 512 * 1024 else 256 * 1024)
    else 256 * 1024

unfoldable pub cortex_a53 : Asked → CoreCaches → CoreCaches
unfolding midr_is_qualcomm_cortex_a53_silver silver_l2_size a53_l1_size a53_l2_size
cortex_a53 a c =
    if midr_is_qualcomm_cortex_a53_silver a.midr
    then record c {
      l1i = cache_of (32 * 1024) 2 64;
      l1d = cache_of (32 * 1024) 4 64;
      l2 = cache_of (silver_l2_size a) 16 64;
    }
    else record c {
      l1i = cache_of (a53_l1_size a) 2 64;
      l1d = cache_of (a53_l1_size a) 4 64;
      l2 = cache_of (a53_l2_size a) 16 64;
    }

-- `l3_size` of Cortex-A55 and Cortex-A75 of Qualcomm, and of Cortex-A55 and Cortex-A76.
unfoldable pub l3_size_snapdragon : Asked → ℕ
l3_size_snapdragon a =
    if a.chipset.series == series_qualcomm_snapdragon
    then (if a.chipset.model == 845 then 2 * 1024 * 1024 else 1024 * 1024)
    else 1024 * 1024

unfoldable pub l3_size_kirin : Asked → ℕ
l3_size_kirin a =
    if a.chipset.series == series_hisilicon_kirin
    then (if a.chipset.model == 980 then 4 * 1024 * 1024 else 1024 * 1024)
    else 1024 * 1024

unfoldable pub cortex_a55 : Asked → CoreCaches → CoreCaches
unfolding midr_is_qualcomm_cortex_a55_silver l3_size_snapdragon l3_size_kirin
cortex_a55 a c =
    if midr_is_qualcomm_cortex_a55_silver a.midr
    then record c {
      l1i = cache_of (32 * 1024) 4 64;
      l1d = cache_of (32 * 1024) 4 64;
      l2 = cache_of (128 * 1024) 4 64;
      l3 = cache_of (l3_size_snapdragon a) 16 64;
    }
    else if a.chipset.series == series_samsung_exynos
    then record c {
      l1i = cache_of (32 * 1024) 4 64;
      l1d = cache_of (32 * 1024) 4 64;
      l2 = cache_of (512 * 1024) 16 64;
    }
    else record c {
      l1i = cache_of (32 * 1024) 4 64;
      l1d = cache_of (32 * 1024) 4 64;
      l2 = cache_of (128 * 1024) 4 64;
      l3 = cache_of (l3_size_kirin a) 16 64;
    }

unfoldable pub cortex_a57 : Asked → CoreCaches → CoreCaches
cortex_a57 a c = record c {
  l1i = cache_of (48 * 1024) 3 64;
  l1d = cache_of (32 * 1024) 2 64;
  l2 = inclusive_of (u32 (a.cluster_cores * 512 * 1024)) 16 64;
}

unfoldable pub cortex_a65 : Asked → CoreCaches → CoreCaches
cortex_a65 a c = record c {
  l1i = cache_of (32 * 1024) 4 64;
  l1d = cache_of (32 * 1024) 4 64;
  l2 = inclusive_of (128 * 1024) 4 64;
  l3 = cache_of (512 * 1024) 16 64;
}

unfoldable pub cortex_a72 : Asked → CoreCaches → CoreCaches
cortex_a72 a c = record c {
  l1i = cache_of (48 * 1024) 3 64;
  l1d = cache_of (32 * 1024) 2 64;
  l2 =
      inclusive_of
        (if a.chipset.series == series_hisilicon_kirin then 2 * 1024 * 1024 else 1024 * 1024) 16 64;
}

-- `l1d_size` and `l2_size` of Cortex-A73.
unfoldable pub a73_l1d_size : Asked → ℕ
a73_l1d_size a =
    if is_one_of a.chipset.series (series_hisilicon_kirin ∷ series_mediatek_mt ∷ [])
    then 64 * 1024
    else if is_one_of a.midr (0x51AF8001 ∷ 0x51AF8002 ∷ [])
    then 64 * 1024
    else 32 * 1024

unfoldable pub a73_l2_size : Asked → ℕ
a73_l2_size a =
    if a.chipset.series == series_hisilicon_kirin
    then 2 * 1024 * 1024
    else if a.chipset.series == series_mediatek_mt
    then 1 * 1024 * 1024
    else if a.midr == 0x51AF8001
    then 2 * 1024 * 1024
    else if a.midr == 0x51AF8002
    then 1 * 1024 * 1024
    else 512 * 1024

unfoldable pub cortex_a73 : Asked → CoreCaches → CoreCaches
unfolding a73_l1d_size a73_l2_size
cortex_a73 a c = record c {
  l1i = cache_of (64 * 1024) 4 64;
  l1d = cache_of (a73_l1d_size a) (a73_l1d_size a >>> 12) 64;
  l2 = inclusive_of (a73_l2_size a) 16 64;
}

unfoldable pub cortex_a75 : Asked → CoreCaches → CoreCaches
unfolding l3_size_snapdragon
cortex_a75 a c = record c {
  l1i = cache_of (64 * 1024) 4 64;
  l1d = cache_of (64 * 1024) 16 64;
  l2 = cache_of (256 * 1024) 8 64;
  l3 = cache_of (l3_size_snapdragon a) 16 64;
}

unfoldable pub a76_l2_size : Asked → ℕ
a76_l2_size a =
    if a.chipset.series == series_hisilicon_kirin
    then (if a.chipset.model == 980 then 512 * 1024 else 256 * 1024)
    else 256 * 1024

unfoldable pub cortex_a76 : Asked → CoreCaches → CoreCaches
unfolding a76_l2_size l3_size_kirin
cortex_a76 a c = record c {
  l1i = cache_of (64 * 1024) 4 64;
  l1d = cache_of (64 * 1024) 4 64;
  l2 = inclusive_of (a76_l2_size a) 8 64;
  l3 = cache_of (l3_size_kirin a) 16 64;
}

unfoldable pub cortex_a77 : Asked → CoreCaches → CoreCaches
cortex_a77 a c = record c {
  l1i = cache_of (64 * 1024) 4 64;
  l1d = cache_of (64 * 1024) 4 64;
  l2 = inclusive_of (256 * 1024) 8 64;
  l3 = cache_of (1024 * 1024) 16 64;
}
