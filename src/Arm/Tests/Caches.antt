-- ===== src/Arm/Tests/Caches.antt =====
-- Runs of the choice of caches by the microarchitecture.
use cpuinfo.Base.{true, false, [], ◌≡◌, refl, inl}
use cpuinfo.Arm.Midr.{midr_get_part}
use cpuinfo.Arm.Chipset.{Chipset, series_hisilicon_kirin}
use cpuinfo.Arm.Caches.{CoreCache, CoreCaches, Asked, ArmTarget, finish_caches}
use cpuinfo.Arm.Caches.Uarch.{uarch_cortex_a76, uarch_xscale}
use cpuinfo.Arm.Caches.Old.{xscale}
use cpuinfo.Arm.Caches.Cortex.{cortex_a76, a76_l2_size, l3_size_kirin}
use cpuinfo.Arm.Caches.Decode.{core_cases, find_core, decode_core_cache}
use cpuinfo.Arm.Caches.Result.{AllHaveSets, decode_core_cache-AllHaveSets}

abbrev empty : CoreCache
empty = record { size = 0; associativity = 0; sets = 0; partitions = 0; line_size = 0; flags = 0 }

abbrev four_empty : CoreCaches
four_empty = record { l1i = empty; l1d = empty; l2 = empty; l3 = empty }

abbrev kirin_980 : Chipset
kirin_980 = record { vendor = 4; series = series_hisilicon_kirin; model = 980; suffix = [] }

-- The big cores of Kirin 980.
abbrev big_980 : Asked
big_980 = record {
  uarch = uarch_cortex_a76;
  cluster_cores = 2;
  midr = 0x481FD400;
  chipset = kirin_980;
  cluster_id = 0;
  arch_version = 8;
}

abbrev arm64_android : ArmTarget
arm64_android = record { before_v7 = false; before_v8 = false; arm64_no_android = false }

decode_core_cache-AllHaveSets_example :
    AllHaveSets (decode_core_cache arm64_android big_980 four_empty)
decode_core_cache-AllHaveSets_example =
    decode_core_cache-AllHaveSets arm64_android big_980 four_empty (refl, refl) (inl refl)

third_level : (decode_core_cache arm64_android big_980 four_empty).l3.sets ≡ 4096
unfolding decode_core_cache core_cases find_core finish_caches cortex_a76 a76_l2_size l3_size_kirin
third_level = refl

-- An XScale core with a part that has no case: nothing is set, and C divides by 0.
abbrev other_xscale : Asked
other_xscale = record big_980 { uarch = uarch_xscale; midr = 0x69050000 }

abbrev old_arm : ArmTarget
old_arm = record { before_v7 = true; before_v8 = true; arm64_no_android = false }

no_line : (decode_core_cache old_arm other_xscale four_empty).l1i.line_size ≡ 0
unfolding decode_core_cache core_cases find_core finish_caches xscale midr_get_part
no_line = refl
