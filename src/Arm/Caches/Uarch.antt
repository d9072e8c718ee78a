-- ===== src/Arm/Caches/Uarch.antt =====
-- The values of `enum cpuinfo_uarch` of include/cpuinfo.h that src/arm/cache.c names.
use cpuinfo.Base.{ℕ}

abbrev pub uarch_xscale : ℕ
uarch_xscale = 0x00100600

abbrev pub uarch_arm11 : ℕ
uarch_arm11 = 0x00300102

abbrev pub uarch_cortex_a5 : ℕ
uarch_cortex_a5 = 0x00300205

abbrev pub uarch_cortex_a7 : ℕ
uarch_cortex_a7 = 0x00300207

abbrev pub uarch_cortex_a8 : ℕ
uarch_cortex_a8 = 0x00300208

abbrev pub uarch_cortex_a9 : ℕ
uarch_cortex_a9 = 0x00300209

abbrev pub uarch_cortex_a15 : ℕ
uarch_cortex_a15 = 0x00300215

abbrev pub uarch_cortex_a17 : ℕ
uarch_cortex_a17 = 0x00300217

abbrev pub uarch_cortex_a35 : ℕ
uarch_cortex_a35 = 0x00300335

abbrev pub uarch_cortex_a53 : ℕ
uarch_cortex_a53 = 0x00300353

abbrev pub uarch_cortex_a55r0 : ℕ
uarch_cortex_a55r0 = 0x00300354

abbrev pub uarch_cortex_a55 : ℕ
uarch_cortex_a55 = 0x00300355

abbrev pub uarch_cortex_a57 : ℕ
uarch_cortex_a57 = 0x00300357

abbrev pub uarch_cortex_a65 : ℕ
uarch_cortex_a65 = 0x00300365

abbrev pub uarch_cortex_a72 : ℕ
uarch_cortex_a72 = 0x00300372

abbrev pub uarch_cortex_a73 : ℕ
uarch_cortex_a73 = 0x00300373

abbrev pub uarch_cortex_a75 : ℕ
uarch_cortex_a75 = 0x00300375

abbrev pub uarch_cortex_a76 : ℕ
uarch_cortex_a76 = 0x00300376

abbrev pub uarch_cortex_a77 : ℕ
uarch_cortex_a77 = 0x00300377

abbrev pub uarch_neoverse_n1 : ℕ
uarch_neoverse_n1 = 0x00300400

abbrev pub uarch_neoverse_v1 : ℕ
uarch_neoverse_v1 = 0x00300402

abbrev pub uarch_neoverse_n2 : ℕ
uarch_neoverse_n2 = 0x00300403

abbrev pub uarch_scorpion : ℕ
uarch_scorpion = 0x00400100

abbrev pub uarch_krait : ℕ
uarch_krait = 0x00400101

abbrev pub uarch_kryo : ℕ
uarch_kryo = 0x00400102

abbrev pub uarch_denver : ℕ
uarch_denver = 0x00500100

abbrev pub uarch_denver2 : ℕ
uarch_denver2 = 0x00500101

abbrev pub uarch_exynos_m1 : ℕ
uarch_exynos_m1 = 0x00600100

abbrev pub uarch_exynos_m2 : ℕ
uarch_exynos_m2 = 0x00600101

abbrev pub uarch_exynos_m3 : ℕ
uarch_exynos_m3 = 0x00600102

abbrev pub uarch_thunderx : ℕ
uarch_thunderx = 0x00800100

abbrev pub uarch_taishan_v110 : ℕ
uarch_taishan_v110 = 0x00C00100
