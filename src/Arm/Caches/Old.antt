-- ===== src/Arm/Caches/Old.antt =====
-- The cases of src/arm/cache.c for 32-bit cores.
use cpuinfo.Base.{◌*◌, ◌==◌, if◌then◌else◌, u32, ◌>>>◌}
use cpuinfo.Arm.Midr.{midr_get_part}
use cpuinfo.Arm.Chipset.{vendor_samsung}
use cpuinfo.Arm.Caches.{CoreCaches, Asked, cache_of}

unfoldable pub xscale : Asked → CoreCaches → CoreCaches
xscale a c =
    let part = midr_get_part a.midr >>> 8 in
    if part == 2
    then record c { l1i = cache_of (16 * 1024) 32 32; l1d = cache_of (16 * 1024) 4 64 }
    else if part == 4
    then record c { l1i = cache_of (32 * 1024) 32 32; l1d = cache_of (32 * 1024) 32 32 }
    else if part == 6
    then record c {
      l1i = cache_of (32 * 1024) 4 32;
      l1d = cache_of (32 * 1024) 4 32;
      l2 = cache_of (256 * 1024) 8 32;
    }
    else c

unfoldable pub arm11 : Asked → CoreCaches → CoreCaches
arm11 a c = record c { l1i = cache_of (16 * 1024) 4 32; l1d = cache_of (16 * 1024) 4 32 }

unfoldable pub cortex_a5 : Asked → CoreCaches → CoreCaches
cortex_a5 a c = record c {
  l1i = cache_of (32 * 1024) 2 32;
  l1d = cache_of (32 * 1024) 4 32;
  l2 = cache_of (256 * 1024) 8 32;
}

unfoldable pub cortex_a7 : Asked → CoreCaches → CoreCaches
cortex_a7 a c = record c {
  l1i = cache_of (32 * 1024) 2 32;
  l1d = cache_of (32 * 1024) 4 64;
  l2 = cache_of (u32 (128 * 1024 * a.cluster_cores)) 8 64;
}

unfoldable pub cortex_a8 : Asked → CoreCaches → CoreCaches
cortex_a8 a c = record c {
  l1i = cache_of (32 * 1024) 4 64;
  l1d = cache_of (32 * 1024) 4 64;
  l2 = cache_of (if a.chipset.vendor == vendor_samsung then 512 * 1024 else 256 * 1024) 8 64;
}

unfoldable pub cortex_a9 : Asked → CoreCaches → CoreCaches
cortex_a9 a c = record c {
  l1i = cache_of (32 * 1024) 4 32;
  l1d = cache_of (32 * 1024) 4 32;
  l2 = cache_of (1024 * 1024) 16 32;
}

unfoldable pub cortex_a15 : Asked → CoreCaches → CoreCaches
cortex_a15 a c = record c {
  l1i = cache_of (32 * 1024) 2 64;
  l1d = cache_of (32 * 1024) 2 64;
  l2 = cache_of (u32 (a.cluster_cores * 512 * 1024)) 16 64;
}

unfoldable pub cortex_a17 : Asked → CoreCaches → CoreCaches
cortex_a17 a c = record c {
  l1i = cache_of (32 * 1024) 4 64;
  l1d = cache_of (32 * 1024) 4 64;
  l2 = cache_of (u32 (a.cluster_cores * 512 * 1024)) 16 64;
}

unfoldable pub scorpion : Asked → CoreCaches → CoreCaches
scorpion a c = record c {
  l1i = cache_of (32 * 1024) 4 32;
  l1d = cache_of (32 * 1024) 4 32;
  l2 = cache_of (u32 (a.cluster_cores * 256 * 1024)) 4 128;
}

unfoldable pub krait : Asked → CoreCaches → CoreCaches
krait a c = record c {
  l1i = cache_of (16 * 1024) 4 64;
  l1d = cache_of (16 * 1024) 4 64;
  l2 = cache_of (u32 (a.cluster_cores * 512 * 1024)) 8 128;
}
