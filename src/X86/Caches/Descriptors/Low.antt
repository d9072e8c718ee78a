-- ===== src/X86/Caches/Descriptors/Low.antt =====
-- The cases 0x01 to 0x49 of `cpuinfo_x86_decode_cache_descriptor` of src/x86/cache/descriptor.c.
use cpuinfo.Base.{ℕ, List, [], ◌∷◌, ◌*◌, if◌then◌else◌}
use cpuinfo.X86.Caches.{cache_inclusive}
use cpuinfo.X86.Caches.Stores.{
  Case, ModelInfo, plain_cache, plain_tlb, page_4kb, page_4mb, is_model_49, dtlb_4kb, dtlb_4mb,
  itlb_4kb, itlb_4mb, l1d, l1i, l2, l3, tlb,
}

abbrev pub cases_01 : List Case
cases_01 =
    (0x01, tlb itlb_4kb (plain_tlb 32 4 page_4kb) ∷ [])
    ∷ (0x02, tlb itlb_4mb (plain_tlb 2 2 page_4mb) ∷ [])
    ∷ (0x03, tlb dtlb_4kb (plain_tlb 64 4 page_4kb) ∷ [])
    ∷ (0x04, tlb dtlb_4mb (plain_tlb 8 4 page_4mb) ∷ [])
    ∷ (0x05, tlb dtlb_4mb (plain_tlb 32 4 page_4mb) ∷ [])
    ∷ (0x06, l1i (plain_cache (8 * 1024) 4 64 1 32 0) ∷ [])
    ∷ (0x08, l1i (plain_cache (16 * 1024) 4 128 1 32 0) ∷ [])
    ∷ (0x09, l1i (plain_cache (32 * 1024) 4 128 1 64 0) ∷ [])
    ∷ (0x0A, l1d (plain_cache (8 * 1024) 2 128 1 32 0) ∷ [])
    ∷ (0x0B, tlb itlb_4mb (plain_tlb 4 4 page_4mb) ∷ [])
    ∷ []

abbrev pub cases_0c : List Case
cases_0c =
    (0x0C, l1d (plain_cache (16 * 1024) 4 128 1 32 0) ∷ [])
    ∷ (0x0D, l1d (plain_cache (16 * 1024) 4 64 1 64 0) ∷ [])
    ∷ (0x0E, l1d (plain_cache (24 * 1024) 6 64 1 64 0) ∷ [])
    ∷ (
      0x1D,
      l2 (plain_cache (128 * 1024) 2 1024 1 64 cache_inclusive)
          ∷ l2 (plain_cache (256 * 1024) 8 512 1 64 cache_inclusive)
          ∷ [],
    )
    ∷ (0x21, l2 (plain_cache (256 * 1024) 8 512 1 64 cache_inclusive) ∷ [])
    ∷ (0x22, l3 (plain_cache (512 * 1024) 4 2048 1 64 cache_inclusive) ∷ [])
    ∷ (0x23, l3 (plain_cache (1024 * 1024) 8 2048 1 64 cache_inclusive) ∷ [])
    ∷ (0x24, l2 (plain_cache (1024 * 1024) 16 1024 1 64 cache_inclusive) ∷ [])
    ∷ (0x25, l3 (plain_cache (2 * 1024 * 1024) 8 4096 1 64 cache_inclusive) ∷ [])
    ∷ []

abbrev pub cases_29 : List Case
cases_29 =
    (0x29, l3 (plain_cache (4 * 1024 * 1024) 8 8192 1 64 cache_inclusive) ∷ [])
    ∷ (0x2C, l1d (plain_cache (32 * 1024) 8 64 1 64 0) ∷ [])
    ∷ (0x30, l1i (plain_cache (32 * 1024) 8 64 1 64 0) ∷ [])
    ∷ (0x39, l2 (plain_cache (128 * 1024) 4 512 1 64 cache_inclusive) ∷ [])
    ∷ (0x3A, l2 (plain_cache (192 * 1024) 6 512 1 64 cache_inclusive) ∷ [])
    ∷ (0x3B, l2 (plain_cache (128 * 1024) 2 1024 1 64 cache_inclusive) ∷ [])
    ∷ (0x3C, l2 (plain_cache (256 * 1024) 4 1024 1 64 cache_inclusive) ∷ [])
    ∷ (0x3D, l2 (plain_cache (384 * 1024) 6 1024 1 64 cache_inclusive) ∷ [])
    ∷ (0x3E, l2 (plain_cache (512 * 1024) 4 2048 1 64 cache_inclusive) ∷ [])
    ∷ (0x40, [])
    ∷ (0x41, l2 (plain_cache (128 * 1024) 4 1024 1 32 cache_inclusive) ∷ [])
    ∷ []

abbrev pub cases_42 : ℕ → ModelInfo → List Case
cases_42 vendor model_info =
    (0x42, l2 (plain_cache (256 * 1024) 4 2048 1 32 cache_inclusive) ∷ [])
    ∷ (0x43, l2 (plain_cache (512 * 1024) 4 4096 1 32 cache_inclusive) ∷ [])
    ∷ (0x44, l2 (plain_cache (1024 * 1024) 4 8192 1 32 cache_inclusive) ∷ [])
    ∷ (0x45, l2 (plain_cache (2 * 1024 * 1024) 4 16384 1 32 cache_inclusive) ∷ [])
    ∷ (0x46, l3 (plain_cache (4 * 1024 * 1024) 4 16384 1 64 cache_inclusive) ∷ [])
    ∷ (0x47, l3 (plain_cache (8 * 1024 * 1024) 8 16384 1 64 cache_inclusive) ∷ [])
    ∷ (0x48, l2 (plain_cache (3 * 1024 * 1024) 12 4096 1 64 cache_inclusive) ∷ [])
    ∷ (
      0x49,
      if is_model_49 vendor model_info
          then l3 (plain_cache (4 * 1024 * 1024) 16 4096 1 64 cache_inclusive) ∷ []
          else l2 (plain_cache (4 * 1024 * 1024) 16 4096 1 64 cache_inclusive) ∷ [],
    )
    ∷ []
