-- ===== src/Arm/Caches/Custom.antt =====
-- The cases of src/arm/cache.c for Neoverse, for cores of other makers, and for the others.
use cpuinfo.Base.{ℕ, ◌*◌, bit_and, bit_or, Bool, leb, if◌then◌else◌, u32, is_one_of, [], ◌∷◌}
use cpuinfo.Arm.Midr.{
  implementer_mask, architecture_mask, part_mask, kryo_silver_820, kryo_silver_821,
}
use cpuinfo.Arm.Caches.{CoreCaches, Asked, cache_of, inclusive_of}

-- A function of src/arm/midr.h.
unfoldable pub midr_is_kryo_silver : ℕ → Bool
midr_is_kryo_silver midr =
    let uarch_mask = bit_or (bit_or implementer_mask architecture_mask) part_mask in
    is_one_of (bit_and midr uarch_mask) (kryo_silver_820 ∷ kryo_silver_821 ∷ [])

unfoldable pub neoverse : Asked → CoreCaches → CoreCaches
neoverse a c = record c {
  l1i = cache_of (64 * 1024) 4 64;
  l1d = cache_of (64 * 1024) 4 64;
  l2 = inclusive_of (256 * 1024) 8 64;
  l3 = cache_of (0 * 1024) 16 64;
}

unfoldable pub kryo : Asked → CoreCaches → CoreCaches
unfolding midr_is_kryo_silver
kryo a c = record c {
  l1i = cache_of (32 * 1024) 4 64;
  l1d = cache_of (24 * 1024) 3 64;
  l2 =
      if midr_is_kryo_silver a.midr
      then cache_of (512 * 1024) 8 128
      else cache_of (1024 * 1024) 8 128;
}

unfoldable pub denver : Asked → CoreCaches → CoreCaches
denver a c = record c {
  l1i = cache_of (128 * 1024) 4 64;
  l1d = cache_of (64 * 1024) 4 64;
  l2 = cache_of (2 * 1024 * 1024) 16 64;
}

unfoldable pub exynos_m1 : Asked → CoreCaches → CoreCaches
exynos_m1 a c = record c {
  l1i = cache_of (64 * 1024) 4 128;
  l1d = cache_of (32 * 1024) 8 64;
  l2 = cache_of (2 * 1024 * 1024) 16 64;
}

unfoldable pub exynos_m3 : Asked → CoreCaches → CoreCaches
exynos_m3 a c = record c {
  l1i = cache_of (64 * 1024) 4 128;
  l1d = cache_of (64 * 1024) 8 64;
  l2 = cache_of (512 * 1024) 16 64;
  l3 = cache_of (4 * 1024 * 1024) 16 64;
}

unfoldable pub thunderx : Asked → CoreCaches → CoreCaches
thunderx a c = record c {
  l1i = cache_of (78 * 1024) 4 64;
  l1d = cache_of (32 * 1024) 4 64;
  l2 = cache_of (16 * 1024 * 1024) 8 64;
}

unfoldable pub taishan_v110 : Asked → CoreCaches → CoreCaches
taishan_v110 a c = record c {
  l1i = cache_of (64 * 1024) 4 128;
  l1d = cache_of (64 * 1024) 4 128;
  l2 = inclusive_of (512 * 1024) 8 128;
  l3 = cache_of (u32 (a.cluster_cores * 1024 * 1024)) 16 128;
}

-- The parameters where no case fits.
unfoldable pub generic : Asked → CoreCaches → CoreCaches
generic a c =
    if leb 8 a.arch_version
    then record c {
      l1i = cache_of (32 * 1024) 4 64;
      l1d = cache_of (32 * 1024) 4 64;
      l2 = cache_of (u32 (a.cluster_cores * 256 * 1024)) 8 64;
    }
    else if leb 7 a.arch_version
    then record c {
      l1i = cache_of (16 * 1024) 4 32;
      l1d = cache_of (16 * 1024) 4 32;
      l2 = cache_of (u32 (a.cluster_cores * 128 * 1024)) 8 32;
    }
    else record c { l1i = cache_of (16 * 1024) 4 32; l1d = cache_of (16 * 1024) 4 32 }
