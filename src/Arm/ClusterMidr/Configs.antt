-- ===== src/Arm/ClusterMidr/Configs.antt =====
-- `cluster_configs` of src/arm/linux/midr.c, in its order: the chipsets whose kernels do not always
-- report every core. An element that an initialiser of C leaves out is 0.
use cpuinfo.Base.{ℕ, List, [], ◌∷◌, ◌++◌, if◌then◌else◌}
use cpuinfo.Arm.Chipset.{
  series_qualcomm_msm, series_mediatek_mt, series_samsung_exynos, series_hisilicon_kirin,
  series_actions_atm, series_rockchip_rk,
}
use cpuinfo.Arm.Midr.Cores.{Arch, on_arm, on_arm64}

-- `cluster_cores` and `cluster_midr` have three elements.
pub record ClusterConfig : Type 0 where
  pub cores : ℕ
  pub series : ℕ
  pub model : ℕ
  pub clusters : ℕ
  pub cluster_cores : List ℕ
  pub cluster_midr : List ℕ

-- A line of the table.
abbrev pub config : ℕ → ℕ → ℕ → ℕ → List ℕ → List ℕ → ClusterConfig
config cores series model clusters cluster_cores cluster_midr = record {
  cores = cores;
  series = series;
  model = model;
  clusters = clusters;
  cluster_cores = cluster_cores;
  cluster_midr = cluster_midr;
}

-- What `#if CPUINFO_ARCH_ARM` and `#if CPUINFO_ARCH_ARM64` enclose.
abbrev pub if_arm : Arch → List ClusterConfig → List ClusterConfig
if_arm arch configs = if on_arm arch then configs else []

abbrev pub if_arm64 : Arch → List ClusterConfig → List ClusterConfig
if_arm64 arch configs = if on_arm64 arch then configs else []

abbrev pub configs_qualcomm : Arch → List ClusterConfig
configs_qualcomm arch =
    if_arm arch (
      config 4 series_qualcomm_msm 8916 1 (4 ∷ 0 ∷ 0 ∷ []) (0x410FD030 ∷ 0 ∷ 0 ∷ [])
      ∷ config 8 series_qualcomm_msm 8939 2 (4 ∷ 4 ∷ 0 ∷ []) (0x410FD034 ∷ 0x410FD034 ∷ 0 ∷ [])
      ∷ [])
    ++ (config 6 series_qualcomm_msm 8956 2 (4 ∷ 2 ∷ 0 ∷ []) (0x410FD034 ∷ 0x410FD080 ∷ 0 ∷ [])
        ∷ config 8 series_qualcomm_msm 8976 2 (4 ∷ 4 ∷ 0 ∷ []) (0x410FD034 ∷ 0x410FD080 ∷ 0 ∷ [])
        ∷ config 6 series_qualcomm_msm 8992 2 (4 ∷ 2 ∷ 0 ∷ []) (0x410FD033 ∷ 0x411FD072 ∷ 0 ∷ [])
        ∷ config 8 series_qualcomm_msm 8994 2 (4 ∷ 4 ∷ 0 ∷ []) (0x410FD032 ∷ 0x411FD071 ∷ 0 ∷ [])
        ∷ [])

abbrev pub configs_samsung : Arch → List ClusterConfig
configs_samsung arch =
    if_arm arch (
      config 8 series_samsung_exynos 5422 2 (4 ∷ 4 ∷ 0 ∷ []) (0x410FC073 ∷ 0x412FC0F3 ∷ 0 ∷ [])
      ∷ config 8 series_samsung_exynos 5430 2 (4 ∷ 4 ∷ 0 ∷ []) (0x410FC074 ∷ 0x413FC0F3 ∷ 0 ∷ [])
      ∷ [])
    ++ (config 8 series_samsung_exynos 5433 2 (4 ∷ 4 ∷ 0 ∷ []) (0x410FD031 ∷ 0x411FD070 ∷ 0 ∷ [])
        ∷ config 8 series_samsung_exynos 7420 2 (4 ∷ 4 ∷ 0 ∷ []) (0x410FD032 ∷ 0x411FD070 ∷ 0 ∷ [])
        ∷ config 8 series_samsung_exynos 8890 2 (4 ∷ 4 ∷ 0 ∷ []) (0x410FD034 ∷ 0x531F0011 ∷ 0 ∷ [])
        ∷ [])

abbrev pub configs_hisilicon : Arch → List ClusterConfig
configs_hisilicon arch =
    if_arm arch (
      config 8 series_hisilicon_kirin 920 2 (4 ∷ 4 ∷ 0 ∷ []) (0x410FC075 ∷ 0x413FC0F3 ∷ 0 ∷ [])
      ∷ config 8 series_hisilicon_kirin 925 2 (4 ∷ 4 ∷ 0 ∷ []) (0x410FC075 ∷ 0x413FC0F3 ∷ 0 ∷ [])
      ∷ config 8 series_hisilicon_kirin 928 2 (4 ∷ 4 ∷ 0 ∷ []) (0x410FC075 ∷ 0x413FC0F3 ∷ 0 ∷ [])
      ∷ [])
    ++ (config 8 series_hisilicon_kirin 950 2 (4 ∷ 4 ∷ 0 ∷ []) (0x410FD034 ∷ 0x410FD080 ∷ 0 ∷ [])
        ∷ config 8 series_hisilicon_kirin 955 2 (4 ∷ 4 ∷ 0 ∷ []) (0x410FD034 ∷ 0x410FD080 ∷ 0 ∷ [])
        ∷ [])

abbrev pub configs_mediatek : Arch → List ClusterConfig
configs_mediatek arch =
    if_arm arch
      (config 4 series_mediatek_mt 8135 2 (2 ∷ 2 ∷ 0 ∷ []) (0x410FC073 ∷ 0x413FC0F2 ∷ 0 ∷ []) ∷ [])
    ++ (config 4 series_mediatek_mt 8173 2 (2 ∷ 2 ∷ 0 ∷ []) (0x410FD032 ∷ 0x410FD080 ∷ 0 ∷ [])
        ∷ config 6 series_mediatek_mt 8176 2 (4 ∷ 2 ∷ 0 ∷ []) (0x410FD032 ∷ 0x410FD080 ∷ 0 ∷ [])
        ∷ [])
    ++ if_arm64 arch
        (config 4 series_mediatek_mt 8735 1 (4 ∷ 0 ∷ 0 ∷ []) (0x410FD034 ∷ 0 ∷ 0 ∷ []) ∷ [])
    ++ if_arm arch (
        config 4 series_mediatek_mt 6592 2 (4 ∷ 4 ∷ 0 ∷ []) (0x410FC074 ∷ 0x410FC074 ∷ 0 ∷ [])
        ∷ config 8 series_mediatek_mt 6595 2 (4 ∷ 4 ∷ 0 ∷ []) (0x410FC075 ∷ 0x410FC0E0 ∷ 0 ∷ [])
        ∷ [])
    ++ (config 10 series_mediatek_mt 6797 3 (4 ∷ 4 ∷ 2 ∷ [])
          (0x410FD034 ∷ 0x410FD034 ∷ 0x410FD081 ∷ [])
        ∷ config 10 series_mediatek_mt 6799 3 (4 ∷ 4 ∷ 2 ∷ [])
            (0x410FD041 ∷ 0x410FD034 ∷ 0x410FD092 ∷ [])
        ∷ [])

abbrev pub configs_others : Arch → List ClusterConfig
configs_others arch =
    (config 6 series_rockchip_rk 3399 2 (4 ∷ 2 ∷ 0 ∷ []) (0x410FD034 ∷ 0x410FD082 ∷ 0 ∷ []) ∷ [])
    ++ if_arm arch
        (config 4 series_actions_atm 7029 1 (4 ∷ 0 ∷ 0 ∷ []) (0x410FC051 ∷ 0 ∷ 0 ∷ []) ∷ [])

unfoldable pub cluster_configs : Arch → List ClusterConfig
cluster_configs arch =
    configs_qualcomm arch
    ++ configs_samsung arch
    ++ configs_hisilicon arch
    ++ configs_mediatek arch
    ++ configs_others arch
