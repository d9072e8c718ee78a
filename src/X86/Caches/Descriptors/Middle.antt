-- ===== src/X86/Caches/Descriptors/Middle.antt =====
-- The cases 0x4A to 0x7F of `cpuinfo_x86_decode_cache_descriptor` of src/x86/cache/descriptor.c.
use cpuinfo.Base.{ℕ, List, [], ◌∷◌, ◌*◌, bit_or, if◌then◌else◌, ◌&&◌}
use cpuinfo.X86.Caches.{cache_inclusive}
use cpuinfo.X86.Caches.Stores.{
  Case, Target, plain_cache, plain_tlb, page_4kb, page_2mb, page_4mb, page_1gb, is_cyrix_or_nsc,
  is_x86, dtlb0_2mb, dtlb0_4kb, dtlb0_4mb, dtlb_1gb, dtlb_2mb, dtlb_4kb, dtlb_4mb, itlb_2mb,
  itlb_4kb, itlb_4mb, l1d, l2, l3, tlb, trace,
}

abbrev pub cases_4a : List Case
cases_4a =
    (0x4A, l3 (plain_cache (6 * 1024 * 1024) 12 8192 1 64 cache_inclusive) ∷ [])
    ∷ (0x4B, l3 (plain_cache (8 * 1024 * 1024) 16 8192 1 64 cache_inclusive) ∷ [])
    ∷ (0x4C, l3 (plain_cache (12 * 1024 * 1024) 12 16384 1 64 cache_inclusive) ∷ [])
    ∷ (0x4D, l3 (plain_cache (16 * 1024 * 1024) 16 16384 1 64 cache_inclusive) ∷ [])
    ∷ (0x4E, l2 (plain_cache (6 * 1024 * 1024) 24 4096 1 64 cache_inclusive) ∷ [])
    ∷ (0x4F, tlb itlb_4kb (plain_tlb 32 32 page_4kb) ∷ [])
    ∷ (
      0x50,
      tlb itlb_4mb (plain_tlb 64 64 (bit_or (bit_or page_4kb page_2mb) page_4mb))
          ∷ tlb itlb_2mb (plain_tlb 64 64 (bit_or (bit_or page_4kb page_2mb) page_4mb))
          ∷ tlb itlb_4kb (plain_tlb 64 64 (bit_or (bit_or page_4kb page_2mb) page_4mb))
          ∷ [],
    )
    ∷ (
      0x51,
      tlb itlb_4mb (plain_tlb 128 128 (bit_or (bit_or page_4kb page_2mb) page_4mb))
          ∷ tlb itlb_2mb (plain_tlb 128 128 (bit_or (bit_or page_4kb page_2mb) page_4mb))
          ∷ tlb itlb_4kb (plain_tlb 128 128 (bit_or (bit_or page_4kb page_2mb) page_4mb))
          ∷ [],
    )
    ∷ (
      0x52,
      tlb itlb_4mb (plain_tlb 256 256 (bit_or (bit_or page_4kb page_2mb) page_4mb))
          ∷ tlb itlb_2mb (plain_tlb 256 256 (bit_or (bit_or page_4kb page_2mb) page_4mb))
          ∷ tlb itlb_4kb (plain_tlb 256 256 (bit_or (bit_or page_4kb page_2mb) page_4mb))
          ∷ [],
    )
    ∷ (
      0x55,
      tlb itlb_4mb (plain_tlb 7 7 (bit_or page_2mb page_4mb))
          ∷ tlb itlb_2mb (plain_tlb 7 7 (bit_or page_2mb page_4mb))
          ∷ [],
    )
    ∷ []

abbrev pub cases_56 : List Case
cases_56 =
    (0x56, tlb dtlb0_4mb (plain_tlb 16 4 page_4mb) ∷ [])
    ∷ (0x57, tlb dtlb0_4kb (plain_tlb 16 4 page_4kb) ∷ [])
    ∷ (0x59, tlb dtlb0_4kb (plain_tlb 16 16 page_4kb) ∷ [])
    ∷ (
      0x5A,
      tlb dtlb0_4mb (plain_tlb 32 4 (bit_or page_2mb page_4mb))
          ∷ tlb dtlb0_2mb (plain_tlb 32 4 (bit_or page_2mb page_4mb))
          ∷ [],
    )
    ∷ (
      0x5B,
      tlb dtlb_4mb (plain_tlb 64 64 (bit_or page_4kb page_4mb))
          ∷ tlb dtlb_4kb (plain_tlb 64 64 (bit_or page_4kb page_4mb))
          ∷ [],
    )
    ∷ (
      0x5C,
      tlb dtlb_4mb (plain_tlb 128 128 (bit_or page_4kb page_4mb))
          ∷ tlb dtlb_4kb (plain_tlb 128 128 (bit_or page_4kb page_4mb))
          ∷ [],
    )
    ∷ (
      0x5D,
      tlb dtlb_4mb (plain_tlb 256 256 (bit_or page_4kb page_4mb))
          ∷ tlb dtlb_4kb (plain_tlb 256 256 (bit_or page_4kb page_4mb))
          ∷ [],
    )
    ∷ (0x60, l1d (plain_cache (16 * 1024) 8 32 1 64 0) ∷ [])
    ∷ (0x61, tlb itlb_4kb (plain_tlb 48 48 page_4kb) ∷ [])
    ∷ (
      0x63,
      tlb dtlb_4mb (plain_tlb 32 4 (bit_or page_2mb page_4mb))
          ∷ tlb dtlb_2mb (plain_tlb 32 4 (bit_or page_2mb page_4mb))
          ∷ tlb dtlb_1gb (plain_tlb 4 4 page_1gb)
          ∷ [],
    )
    ∷ (0x64, tlb dtlb_4kb (plain_tlb 512 4 page_4kb) ∷ [])
    ∷ []

abbrev pub cases_66 : Target → ℕ → List Case
cases_66 target vendor =
    (0x66, l1d (plain_cache (8 * 1024) 4 32 1 64 0) ∷ [])
    ∷ (0x67, l1d (plain_cache (16 * 1024) 4 64 1 64 0) ∷ [])
    ∷ (0x68, l1d (plain_cache (32 * 1024) 4 128 1 64 0) ∷ [])
    ∷ (0x6A, tlb dtlb_4kb (plain_tlb 64 8 page_4kb) ∷ [])
    ∷ (0x6B, tlb dtlb_4kb (plain_tlb 256 8 page_4kb) ∷ [])
    ∷ (
      0x6C,
      tlb dtlb_4mb (plain_tlb 128 8 (bit_or page_2mb page_4mb))
          ∷ tlb dtlb_2mb (plain_tlb 128 8 (bit_or page_2mb page_4mb))
          ∷ [],
    )
    ∷ (0x6D, tlb dtlb_1gb (plain_tlb 16 16 page_1gb) ∷ [])
    ∷ (
      0x70,
      if is_x86 target && is_cyrix_or_nsc vendor
          then tlb itlb_4kb (plain_tlb 32 4 page_4kb) ∷ tlb dtlb_4kb (plain_tlb 32 4 page_4kb) ∷ []
          else trace (12 * 1024) 8 ∷ [],
    )
    ∷ (0x71, trace (16 * 1024) 8 ∷ [])
    ∷ (0x72, trace (32 * 1024) 8 ∷ [])
    ∷ (0x73, trace (64 * 1024) 8 ∷ [])
    ∷ []

abbrev pub cases_76 : List Case
cases_76 =
    (
      0x76,
      tlb itlb_4mb (plain_tlb 8 8 (bit_or page_2mb page_4mb))
          ∷ tlb itlb_2mb (plain_tlb 8 8 (bit_or page_2mb page_4mb))
          ∷ [],
    )
    ∷ (0x78, l2 (plain_cache (1024 * 1024) 4 4096 1 64 cache_inclusive) ∷ [])
    ∷ (0x79, l2 (plain_cache (128 * 1024) 8 256 1 64 cache_inclusive) ∷ [])
    ∷ (0x7A, l2 (plain_cache (256 * 1024) 8 512 1 64 cache_inclusive) ∷ [])
    ∷ (0x7B, l2 (plain_cache (512 * 1024) 8 1024 1 64 cache_inclusive) ∷ [])
    ∷ (0x7C, l2 (plain_cache (1024 * 1024) 8 2048 1 64 cache_inclusive) ∷ [])
    ∷ (0x7D, l2 (plain_cache (2 * 1024 * 1024) 8 4096 1 64 cache_inclusive) ∷ [])
    ∷ (0x7F, l2 (plain_cache (512 * 1024) 2 4096 1 64 cache_inclusive) ∷ [])
    ∷ []
