-- ===== src/Arm/Caches/Whole.antt =====
-- Every case of src/arm/cache.c names sizes that are whole numbers of sets.
use cpuinfo.Base.{◌*◌, ◌%◌, ◌<◌, ◌⊎◌, Bool, true, false, if◌then◌else◌, ◌≡◌, arith}
use cpuinfo.Arm.Caches.{CoreCache, CoreCaches, Asked}
use cpuinfo.Arm.Caches.Old.{
  arm11, cortex_a5, cortex_a7, cortex_a9, cortex_a15, cortex_a17, scorpion, krait,
}
use cpuinfo.Arm.Caches.Cortex.{
  silver_l2_size, a53_l1_size, a53_l2_size, l3_size_snapdragon, l3_size_kirin, a73_l2_size,
  a76_l2_size, cortex_a35, cortex_a57, cortex_a65, cortex_a77,
}
use cpuinfo.Arm.Caches.Custom.{neoverse, denver, exynos_m1, exynos_m3, thunderx, taishan_v110}

-- The size is a whole number of sets, and there is a way and a byte in a line.
abbrev pub Fits : CoreCache → Type 0
Fits c = (0 < c.associativity * c.line_size) × (c.size % (c.associativity * c.line_size) ≡ 0)

abbrev pub Fit : CoreCaches → Type 0
Fit c =
    Fits c.l1i
    × Fits c.l1d
    × ((c.l2.size ≡ 0) ⊎ Fits c.l2)
    × ((c.l3.size ≡ 0) ⊎ ((0 < c.l2.size) × Fits c.l3))

-- No second and third level are there before.
abbrev pub Absent : CoreCaches → Type 0
Absent c = (c.l2.size ≡ 0) × (c.l3.size ≡ 0)

pub if-Fit : (b : Bool) (c d : CoreCaches) → Fit c → Fit d → Fit (if b then c else d)
if-Fit true c d h k = h
if-Fit false c d h k = k

pub sizes_lem :
    (a : Asked)
    → (silver_l2_size a % 1024 ≡ 0)
      × (a53_l1_size a % 256 ≡ 0)
      × (a53_l2_size a % 1024 ≡ 0)
      × (l3_size_snapdragon a % 1024 ≡ 0)
      × (l3_size_kirin a % 1024 ≡ 0)
      × (a73_l2_size a % 1024 ≡ 0)
      × (a76_l2_size a % 512 ≡ 0)
      × (0 < a76_l2_size a)
unfolding silver_l2_size a53_l1_size a53_l2_size l3_size_snapdragon l3_size_kirin a73_l2_size
    a76_l2_size
sizes_lem a = (
  ground arith,
  ground arith,
  ground arith,
  ground arith,
  ground arith,
  ground arith,
  ground arith,
  ground arith,
)

pub arm11-Fit : (a : Asked) (c : CoreCaches) → Absent c → Fit (arm11 a c)
unfolding arm11
arm11-Fit a c absent = omega arith

pub cortex_a5-Fit : (a : Asked) (c : CoreCaches) → Absent c → Fit (cortex_a5 a c)
unfolding cortex_a5
cortex_a5-Fit a c absent = omega arith

pub cortex_a7-Fit : (a : Asked) (c : CoreCaches) → Absent c → Fit (cortex_a7 a c)
unfolding cortex_a7
cortex_a7-Fit a c absent = omega arith

pub cortex_a9-Fit : (a : Asked) (c : CoreCaches) → Absent c → Fit (cortex_a9 a c)
unfolding cortex_a9
cortex_a9-Fit a c absent = omega arith

pub cortex_a15-Fit : (a : Asked) (c : CoreCaches) → Absent c → Fit (cortex_a15 a c)
unfolding cortex_a15
cortex_a15-Fit a c absent = omega arith

pub cortex_a17-Fit : (a : Asked) (c : CoreCaches) → Absent c → Fit (cortex_a17 a c)
unfolding cortex_a17
cortex_a17-Fit a c absent = omega arith

pub scorpion-Fit : (a : Asked) (c : CoreCaches) → Absent c → Fit (scorpion a c)
unfolding scorpion
scorpion-Fit a c absent = omega arith

pub krait-Fit : (a : Asked) (c : CoreCaches) → Absent c → Fit (krait a c)
unfolding krait
krait-Fit a c absent = omega arith

pub cortex_a35-Fit : (a : Asked) (c : CoreCaches) → Absent c → Fit (cortex_a35 a c)
unfolding cortex_a35
cortex_a35-Fit a c absent = omega arith

pub cortex_a57-Fit : (a : Asked) (c : CoreCaches) → Absent c → Fit (cortex_a57 a c)
unfolding cortex_a57
cortex_a57-Fit a c absent = omega arith

pub cortex_a65-Fit : (a : Asked) (c : CoreCaches) → Absent c → Fit (cortex_a65 a c)
unfolding cortex_a65
cortex_a65-Fit a c absent = omega arith

pub cortex_a77-Fit : (a : Asked) (c : CoreCaches) → Absent c → Fit (cortex_a77 a c)
unfolding cortex_a77
cortex_a77-Fit a c absent = omega arith

pub neoverse-Fit : (a : Asked) (c : CoreCaches) → Absent c → Fit (neoverse a c)
unfolding neoverse
neoverse-Fit a c absent = omega arith

pub denver-Fit : (a : Asked) (c : CoreCaches) → Absent c → Fit (denver a c)
unfolding denver
denver-Fit a c absent = omega arith

pub exynos_m1-Fit : (a : Asked) (c : CoreCaches) → Absent c → Fit (exynos_m1 a c)
unfolding exynos_m1
exynos_m1-Fit a c absent = omega arith

pub exynos_m3-Fit : (a : Asked) (c : CoreCaches) → Absent c → Fit (exynos_m3 a c)
unfolding exynos_m3
exynos_m3-Fit a c absent = omega arith

pub thunderx-Fit : (a : Asked) (c : CoreCaches) → Absent c → Fit (thunderx a c)
unfolding thunderx
thunderx-Fit a c absent = omega arith

pub taishan_v110-Fit : (a : Asked) (c : CoreCaches) → Absent c → Fit (taishan_v110 a c)
unfolding taishan_v110
taishan_v110-Fit a c absent = omega arith
