-- ===== src/X86/Caches/Descriptors/High.antt =====
-- The cases 0x80 to 0xF1 of `cpuinfo_x86_decode_cache_descriptor` of src/x86/cache/descriptor.c.
use cpuinfo.Base.{ℕ, List, [], ◌∷◌, ◌*◌, bit_or, if◌then◌else◌, ◌&&◌}
use cpuinfo.X86.Caches.{cache_inclusive, cache_unified}
use cpuinfo.X86.Caches.Stores.{
  Case, Target, plain_cache, plain_tlb, page_4kb, page_2mb, page_4mb, page_1gb, is_x86_elsewhere,
  is_cyrix_or_nsc, dtlb_2mb, dtlb_4kb, dtlb_4mb, itlb_2mb, itlb_4kb, itlb_4mb, l1d, l1i, l2, l3,
  prefetch, stlb2_1gb, stlb2_2mb, stlb2_4kb, tlb,
}

abbrev pub cases_80 : Target → ℕ → List Case
cases_80 target vendor =
    (
      0x80,
      if is_x86_elsewhere target && is_cyrix_or_nsc vendor
          then l1d (plain_cache (16 * 1024) 4 256 1 16 cache_unified)
            ∷ l1i (plain_cache (16 * 1024) 4 256 1 16 cache_unified)
            ∷ []
          else l2 (plain_cache (512 * 1024) 8 1024 1 64 cache_inclusive) ∷ [],
    )
    ∷ (0x82, l2 (plain_cache (256 * 1024) 4 2048 1 32 cache_inclusive) ∷ [])
    ∷ (0x83, l2 (plain_cache (512 * 1024) 8 2048 1 32 cache_inclusive) ∷ [])
    ∷ (0x84, l2 (plain_cache (1024 * 1024) 8 4096 1 32 cache_inclusive) ∷ [])
    ∷ (0x85, l2 (plain_cache (2 * 1024 * 1024) 8 8192 1 32 cache_inclusive) ∷ [])
    ∷ (0x86, l2 (plain_cache (512 * 1024) 4 2048 1 64 cache_inclusive) ∷ [])
    ∷ (0x87, l2 (plain_cache (1024 * 1024) 8 2048 1 64 cache_inclusive) ∷ [])
    ∷ (0xA0, tlb dtlb_4kb (plain_tlb 32 32 page_4kb) ∷ [])
    ∷ []

abbrev pub cases_b0 : List Case
cases_b0 =
    (0xB0, tlb itlb_4kb (plain_tlb 128 4 page_4kb) ∷ [])
    ∷ (
      0xB1,
      tlb itlb_2mb (plain_tlb 8 4 (bit_or page_2mb page_4mb))
          ∷ tlb itlb_4mb (plain_tlb 4 4 (bit_or page_2mb page_4mb))
          ∷ [],
    )
    ∷ (0xB2, tlb itlb_4kb (plain_tlb 64 4 page_4kb) ∷ [])
    ∷ (0xB3, tlb dtlb_4kb (plain_tlb 128 4 page_4kb) ∷ [])
    ∷ (0xB4, tlb dtlb_4kb (plain_tlb 256 4 page_4kb) ∷ [])
    ∷ (0xB5, tlb itlb_4kb (plain_tlb 64 8 page_4kb) ∷ [])
    ∷ (0xB6, tlb itlb_4kb (plain_tlb 128 8 page_4kb) ∷ [])
    ∷ (0xBA, tlb itlb_4kb (plain_tlb 64 4 page_4kb) ∷ [])
    ∷ (
      0xC0,
      tlb itlb_4mb (plain_tlb 8 4 (bit_or page_4kb page_4mb))
          ∷ tlb itlb_4kb (plain_tlb 8 4 (bit_or page_4kb page_4mb))
          ∷ [],
    )
    ∷ (
      0xC1,
      tlb stlb2_2mb (plain_tlb 1024 8 (bit_or page_4kb page_2mb))
          ∷ tlb stlb2_4kb (plain_tlb 1024 8 (bit_or page_4kb page_2mb))
          ∷ [],
    )
    ∷ (
      0xC2,
      tlb dtlb_2mb (plain_tlb 16 4 (bit_or page_4kb page_2mb))
          ∷ tlb dtlb_4kb (plain_tlb 16 4 (bit_or page_4kb page_2mb))
          ∷ [],
    )
    ∷ []

abbrev pub cases_c3 : List Case
cases_c3 =
    (
      0xC3,
      tlb stlb2_2mb (plain_tlb 1536 6 (bit_or page_4kb page_2mb))
          ∷ tlb stlb2_4kb (plain_tlb 1536 6 (bit_or page_4kb page_2mb))
          ∷ tlb stlb2_1gb (plain_tlb 16 4 page_1gb)
          ∷ [],
    )
    ∷ (
      0xC4,
      tlb dtlb_4mb (plain_tlb 32 4 (bit_or page_2mb page_4mb))
          ∷ tlb dtlb_2mb (plain_tlb 32 4 (bit_or page_2mb page_4mb))
          ∷ [],
    )
    ∷ (0xCA, tlb stlb2_4kb (plain_tlb 512 4 page_4kb) ∷ [])
    ∷ (0xD0, l3 (plain_cache (512 * 1024) 4 2048 1 64 cache_inclusive) ∷ [])
    ∷ (0xD1, l3 (plain_cache (1024 * 1024) 4 4096 1 64 cache_inclusive) ∷ [])
    ∷ (0xD2, l3 (plain_cache (2 * 1024 * 2014) 4 8192 1 64 cache_inclusive) ∷ [])
    ∷ (0xD6, l3 (plain_cache (1024 * 1024) 8 2048 1 64 cache_inclusive) ∷ [])
    ∷ (0xD7, l3 (plain_cache (2 * 1024 * 1024) 8 4096 1 64 cache_inclusive) ∷ [])
    ∷ (0xD8, l3 (plain_cache (4 * 1024 * 1024) 8 8192 1 64 cache_inclusive) ∷ [])
    ∷ []

abbrev pub cases_dc : List Case
cases_dc =
    (0xDC, l3 (plain_cache (3 * 512 * 1024) 12 2048 1 64 cache_inclusive) ∷ [])
    ∷ (0xDD, l3 (plain_cache (3 * 1024 * 1024) 12 4096 1 64 cache_inclusive) ∷ [])
    ∷ (0xDE, l3 (plain_cache (6 * 1024 * 1024) 12 8192 1 64 cache_inclusive) ∷ [])
    ∷ (0xE2, l3 (plain_cache (2 * 1024 * 1024) 16 2048 1 64 cache_inclusive) ∷ [])
    ∷ (0xE3, l3 (plain_cache (4 * 1024 * 1024) 16 4096 1 64 cache_inclusive) ∷ [])
    ∷ (0xE4, l3 (plain_cache (8 * 1024 * 1024) 16 8192 1 64 cache_inclusive) ∷ [])
    ∷ (0xEA, l3 (plain_cache (12 * 1024 * 1024) 24 8192 1 64 cache_inclusive) ∷ [])
    ∷ (0xEB, l3 (plain_cache (18 * 1024 * 1024) 24 12288 1 64 cache_inclusive) ∷ [])
    ∷ (0xEC, l3 (plain_cache (24 * 1024 * 1024) 24 16384 1 64 cache_inclusive) ∷ [])
    ∷ []

abbrev pub cases_f0 : List Case
cases_f0 = (0xF0, prefetch 64 ∷ []) ∷ (0xF1, prefetch 128 ∷ []) ∷ []
