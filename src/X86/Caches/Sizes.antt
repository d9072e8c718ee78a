-- ===== src/X86/Caches/Sizes.antt =====
-- The sizes of the caches of x86, beside their other parts.
use cpuinfo.Base.{ℕ, ◌*◌, Bool, true, false, if◌then◌else◌, u32, ◌≡◌}
use cpuinfo.X86.Caches.{Cache, Caches}

-- The size of a cache is the product of its parts, in uint32_t.
abbrev pub HasSize : Cache → Type 0
HasSize c = c.size ≡ u32 (c.associativity * c.partitions * c.line_size * c.sets)

pub record HaveSizes (c : Caches) : Type 0 where
  pub l1i_size : HasSize c.l1i
  pub l1d_size : HasSize c.l1d
  pub l2_size : HasSize c.l2
  pub l3_size : HasSize c.l3
  pub l4_size : HasSize c.l4

pub if-HaveSizes :
    (c d : Caches) (b : Bool) → HaveSizes c → HaveSizes d → HaveSizes (if b then c else d)
if-HaveSizes c d true h k = h
if-HaveSizes c d false h k = k

-- A cache of the right size is put in a place.
module _ (c : Cache) (caches : Caches) (h : HasSize c) (k : HaveSizes caches) where
  pub put_l1i-HaveSizes : HaveSizes (record caches { l1i = c })
  put_l1i-HaveSizes = record {
    l1i_size = h;
    l1d_size = k.l1d_size;
    l2_size = k.l2_size;
    l3_size = k.l3_size;
    l4_size = k.l4_size;
  }

  pub put_l1d-HaveSizes : HaveSizes (record caches { l1d = c })
  put_l1d-HaveSizes = record {
    l1i_size = k.l1i_size;
    l1d_size = h;
    l2_size = k.l2_size;
    l3_size = k.l3_size;
    l4_size = k.l4_size;
  }

  pub put_l2-HaveSizes : HaveSizes (record caches { l2 = c })
  put_l2-HaveSizes = record {
    l1i_size = k.l1i_size;
    l1d_size = k.l1d_size;
    l2_size = h;
    l3_size = k.l3_size;
    l4_size = k.l4_size;
  }

  pub put_l3-HaveSizes : HaveSizes (record caches { l3 = c })
  put_l3-HaveSizes = record {
    l1i_size = k.l1i_size;
    l1d_size = k.l1d_size;
    l2_size = k.l2_size;
    l3_size = h;
    l4_size = k.l4_size;
  }

  pub put_l4-HaveSizes : HaveSizes (record caches { l4 = c })
  put_l4-HaveSizes = record {
    l1i_size = k.l1i_size;
    l1d_size = k.l1d_size;
    l2_size = k.l2_size;
    l3_size = k.l3_size;
    l4_size = h;
  }

-- The trace cache and the prefetch size do not matter.
pub put_trace-HaveSizes :
    (uops ways : ℕ) (caches : Caches)
    → HaveSizes caches
    → HaveSizes (record caches { trace = (uops, ways) })
put_trace-HaveSizes uops ways caches k = record {
  l1i_size = k.l1i_size;
  l1d_size = k.l1d_size;
  l2_size = k.l2_size;
  l3_size = k.l3_size;
  l4_size = k.l4_size;
}

pub put_prefetch_size-HaveSizes :
    (n : ℕ) (caches : Caches) → HaveSizes caches → HaveSizes (record caches { prefetch_size = n })
put_prefetch_size-HaveSizes n caches k = record {
  l1i_size = k.l1i_size;
  l1d_size = k.l1d_size;
  l2_size = k.l2_size;
  l3_size = k.l3_size;
  l4_size = k.l4_size;
}
