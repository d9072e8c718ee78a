-- ===== src/Arm/Caches/Decode.antt =====
-- The `switch` of `cpuinfo_arm_decode_cache`, and the function.
use cpuinfo.Base.{ℕ, List, [], ◌∷◌, ◌++◌, if◌then◌else◌, is_one_of}
use cpuinfo.Arm.Caches.{CoreCaches, Asked, ArmTarget, finish_caches}
use cpuinfo.Arm.Caches.Uarch.{
  uarch_xscale, uarch_arm11, uarch_cortex_a5, uarch_cortex_a7, uarch_cortex_a8, uarch_cortex_a9,
  uarch_cortex_a15, uarch_cortex_a17, uarch_cortex_a35, uarch_cortex_a53, uarch_cortex_a55r0,
  uarch_cortex_a55, uarch_cortex_a57, uarch_cortex_a65, uarch_cortex_a72, uarch_cortex_a73,
  uarch_cortex_a75, uarch_cortex_a76, uarch_cortex_a77, uarch_neoverse_n1, uarch_neoverse_v1,
  uarch_neoverse_n2, uarch_scorpion, uarch_krait, uarch_kryo, uarch_denver, uarch_denver2,
  uarch_exynos_m1, uarch_exynos_m2, uarch_exynos_m3, uarch_thunderx, uarch_taishan_v110,
}
use cpuinfo.Arm.Caches.Old.{
  xscale, arm11, cortex_a5, cortex_a7, cortex_a8, cortex_a9, cortex_a15, cortex_a17, scorpion,
  krait,
}
use cpuinfo.Arm.Caches.Cortex.{
  cortex_a35, cortex_a53, cortex_a55, cortex_a57, cortex_a65, cortex_a72, cortex_a73, cortex_a75,
  cortex_a76, cortex_a77,
}
use cpuinfo.Arm.Caches.Custom.{
  neoverse, kryo, denver, exynos_m1, exynos_m3, thunderx, taishan_v110, generic,
}

-- The labels of a case, and what it does.
abbrev pub CoreCase : Type 0
CoreCase = List ℕ × (Asked → CoreCaches → CoreCaches)

abbrev pub cases_before_v7 : List CoreCase
cases_before_v7 = (uarch_xscale ∷ [], xscale) ∷ (uarch_arm11 ∷ [], arm11) ∷ []

abbrev pub cases_before_v8 : List CoreCase
cases_before_v8 =
    (uarch_cortex_a5 ∷ [], cortex_a5)
    ∷ (uarch_cortex_a7 ∷ [], cortex_a7)
    ∷ (uarch_cortex_a8 ∷ [], cortex_a8)
    ∷ (uarch_cortex_a9 ∷ [], cortex_a9)
    ∷ (uarch_cortex_a15 ∷ [], cortex_a15)
    ∷ (uarch_cortex_a17 ∷ [], cortex_a17)
    ∷ (uarch_scorpion ∷ [], scorpion)
    ∷ (uarch_krait ∷ [], krait)
    ∷ []

abbrev pub cases_always : List CoreCase
cases_always =
    (uarch_cortex_a35 ∷ [], cortex_a35)
    ∷ (uarch_cortex_a53 ∷ [], cortex_a53)
    ∷ (uarch_cortex_a55r0 ∷ uarch_cortex_a55 ∷ [], cortex_a55)
    ∷ (uarch_cortex_a57 ∷ [], cortex_a57)
    ∷ (uarch_cortex_a65 ∷ [], cortex_a65)
    ∷ (uarch_cortex_a72 ∷ [], cortex_a72)
    ∷ (uarch_cortex_a73 ∷ [], cortex_a73)
    ∷ (uarch_cortex_a75 ∷ [], cortex_a75)
    ∷ (uarch_cortex_a76 ∷ [], cortex_a76)
    ∷ (uarch_cortex_a77 ∷ [], cortex_a77)
    ∷ (uarch_neoverse_n1 ∷ uarch_neoverse_v1 ∷ uarch_neoverse_n2 ∷ [], neoverse)
    ∷ (uarch_kryo ∷ [], kryo)
    ∷ (uarch_denver ∷ uarch_denver2 ∷ [], denver)
    ∷ (uarch_exynos_m1 ∷ uarch_exynos_m2 ∷ [], exynos_m1)
    ∷ (uarch_exynos_m3 ∷ [], exynos_m3)
    ∷ []

abbrev pub cases_arm64 : List CoreCase
cases_arm64 = (uarch_thunderx ∷ [], thunderx) ∷ (uarch_taishan_v110 ∷ [], taishan_v110) ∷ []

-- The cases of a target; no two have a label in common, so their order does not matter.
unfoldable pub core_cases : ArmTarget → List CoreCase
core_cases target =
    (if target.before_v7 then cases_before_v7 else [])
    ++ ((if target.before_v8 then cases_before_v8 else [])
        ++ (cases_always ++ (if target.arm64_no_android then cases_arm64 else [])))

unfoldable pub find_core : ℕ → List CoreCase → Asked → CoreCaches → CoreCaches
find_core uarch [] = generic
find_core uarch ((labels, fill) ∷ cases) =
    if is_one_of uarch labels then fill else find_core uarch cases

unfoldable pub decode_core_cache : ArmTarget → Asked → CoreCaches → CoreCaches
unfolding core_cases find_core finish_caches
decode_core_cache target a c = finish_caches (find_core a.uarch (core_cases target) a c)
