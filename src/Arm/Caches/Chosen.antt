-- ===== src/Arm/Caches/Chosen.antt =====
-- The cases of src/arm/cache.c that depend on the chipset, the register or the version.
use cpuinfo.Base.{
  ◌*◌, ◌⊎◌, inl, inr, true, [], ◌∷◌, ◌==◌, leb, ◌>>>◌, is_one_of, Bool-cases, ◌≡◌, arith,
}
use cpuinfo.Arm.Chipset.{vendor_samsung, series_samsung_exynos, series_hisilicon_kirin}
use cpuinfo.Arm.Midr.{midr_get_part}
use cpuinfo.Arm.Caches.{CoreCaches, Asked}
use cpuinfo.Arm.Caches.Old.{xscale, cortex_a8}
use cpuinfo.Arm.Caches.Cortex.{
  midr_is_qualcomm_cortex_a53_silver, midr_is_qualcomm_cortex_a55_silver, a73_l1d_size, cortex_a53,
  cortex_a55, cortex_a72, cortex_a73, cortex_a75, cortex_a76,
}
use cpuinfo.Arm.Caches.Custom.{midr_is_kryo_silver, kryo, generic}
use cpuinfo.Arm.Caches.Whole.{Fit, Absent, if-Fit, sizes_lem}

-- The parts of XScale that have a case.
abbrev pub KnownXscale : Asked → Type 0
KnownXscale a = is_one_of (midr_get_part a.midr >>> 8) (2 ∷ 4 ∷ 6 ∷ []) ≡ true

pub xscale-Fit : (a : Asked) (c : CoreCaches) → Absent c → KnownXscale a → Fit (xscale a c)
unfolding xscale
xscale-Fit a c absent known = elim (Bool-cases (midr_get_part a.midr >>> 8 == 2)) [
  | inl e ↦ rw e (omega arith)
  | inr e ↦ elim (Bool-cases (midr_get_part a.midr >>> 8 == 4)) [
    | inl f ↦ rw (e, f) (omega arith)
    | inr f ↦
        let third : (midr_get_part a.midr >>> 8 == 6) ≡ true = ground arith in
        rw (e, f, third) (omega arith)
  ]
]

pub cortex_a8-Fit : (a : Asked) (c : CoreCaches) → Absent c → Fit (cortex_a8 a c)
unfolding cortex_a8
cortex_a8-Fit a c absent = elim (Bool-cases (a.chipset.vendor == vendor_samsung)) [
  | inl e ↦ rw e (omega arith)
  | inr e ↦ rw e (omega arith)
]

pub cortex_a53-Fit : (a : Asked) (c : CoreCaches) → Absent c → Fit (cortex_a53 a c)
unfolding cortex_a53
cortex_a53-Fit a c absent =
    let (silver, l1, l2, _, _, _, _, _) = sizes_lem a in
    if-Fit (midr_is_qualcomm_cortex_a53_silver a.midr) _ _ (omega arith) (omega arith)

pub cortex_a55-Fit : (a : Asked) (c : CoreCaches) → Absent c → Fit (cortex_a55 a c)
unfolding cortex_a55
cortex_a55-Fit a c absent =
    let (_, _, _, snapdragon, kirin, _, _, _) = sizes_lem a in
    if-Fit (midr_is_qualcomm_cortex_a55_silver a.midr) _ _ (omega arith)
      (if-Fit (a.chipset.series == series_samsung_exynos) _ _ (omega arith) (omega arith))

pub cortex_a72-Fit : (a : Asked) (c : CoreCaches) → Absent c → Fit (cortex_a72 a c)
unfolding cortex_a72
cortex_a72-Fit a c absent = elim (Bool-cases (a.chipset.series == series_hisilicon_kirin)) [
  | inl e ↦ rw e (omega arith)
  | inr e ↦ rw e (omega arith)
]

a73_l1d_size-cases : (a : Asked) → (a73_l1d_size a ≡ 64 * 1024) ⊎ (a73_l1d_size a ≡ 32 * 1024)
unfolding a73_l1d_size
a73_l1d_size-cases a = ground arith

pub cortex_a73-Fit : (a : Asked) (c : CoreCaches) → Absent c → Fit (cortex_a73 a c)
unfolding cortex_a73
cortex_a73-Fit a c absent =
    let (_, _, _, _, _, l2, _, _) = sizes_lem a in
    elim (a73_l1d_size-cases a) [ inl e ↦ rw e (omega arith) | inr e ↦ rw e (omega arith) ]

pub cortex_a75-Fit : (a : Asked) (c : CoreCaches) → Absent c → Fit (cortex_a75 a c)
unfolding cortex_a75
cortex_a75-Fit a c absent = let (_, _, _, snapdragon, _, _, _, _) = sizes_lem a in omega arith

pub cortex_a76-Fit : (a : Asked) (c : CoreCaches) → Absent c → Fit (cortex_a76 a c)
unfolding cortex_a76
cortex_a76-Fit a c absent = let (_, _, _, _, kirin, _, l2, some_l2) = sizes_lem a in omega arith

pub kryo-Fit : (a : Asked) (c : CoreCaches) → Absent c → Fit (kryo a c)
unfolding kryo
kryo-Fit a c absent = elim (Bool-cases (midr_is_kryo_silver a.midr)) [
  | inl e ↦ rw e (omega arith)
  | inr e ↦ rw e (omega arith)
]

pub generic-Fit : (a : Asked) (c : CoreCaches) → Absent c → Fit (generic a c)
unfolding generic
generic-Fit a c absent =
    if-Fit (leb 8 a.arch_version) _ _ (omega arith)
      (if-Fit (leb 7 a.arch_version) _ _ (omega arith) (omega arith))
