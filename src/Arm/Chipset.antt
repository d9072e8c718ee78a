-- ===== src/Arm/Chipset.antt =====
-- src/arm/api.h: the name of a chipset. `cpuinfo_arm_chipset_vendor` and `cpuinfo_arm_chipset_series`
-- stand as their numbers.
use cpuinfo.Base.{ℕ, List}

pub record Chipset : Type 0 where
  pub vendor : ℕ
  pub series : ℕ
  pub model : ℕ
  pub suffix : List ℕ

abbrev pub series_qualcomm_msm : ℕ
series_qualcomm_msm = 2

abbrev pub series_mediatek_mt : ℕ
series_mediatek_mt = 5

abbrev pub series_samsung_exynos : ℕ
series_samsung_exynos = 6

abbrev pub series_hisilicon_kirin : ℕ
series_hisilicon_kirin = 9

abbrev pub series_actions_atm : ℕ
series_actions_atm = 10

abbrev pub series_rockchip_rk : ℕ
series_rockchip_rk = 25

-- `cpuinfo_arm_chipset_vendor_samsung`.
abbrev pub vendor_samsung : ℕ
vendor_samsung = 3

abbrev pub series_qualcomm_apq : ℕ
series_qualcomm_apq = 3

abbrev pub series_qualcomm_snapdragon : ℕ
series_qualcomm_snapdragon = 4

abbrev pub series_hisilicon_hi : ℕ
series_hisilicon_hi = 8

abbrev pub series_broadcom_bcm : ℕ
series_broadcom_bcm = 14
