-- ===== src/X86/Caches/Descriptors.antt =====
-- `cpuinfo_x86_decode_cache_descriptor` of src/x86/cache/descriptor.c. The `switch` is a table of its
-- labels, each with the assignments that follow it, those of the next label included where a `break` is missing.
pub mod Low
pub mod Middle
pub mod High
pub mod Sizes
use cpuinfo.Base.{ℕ, Bool, List, [], ◌∷◌, ◌++◌, ◌==◌, if◌then◌else◌}
use cpuinfo.X86.Caches.{Cache, Caches}
use cpuinfo.X86.Caches.Stores.{
  Tlb, TlbName, ModelInfo, Target, Store, Case, l1i, l1d, l2, l3, trace, prefetch, tlb, itlb_4kb,
  itlb_2mb, itlb_4mb, dtlb0_4kb, dtlb0_2mb, dtlb0_4mb, dtlb_4kb, dtlb_2mb, dtlb_4mb, dtlb_1gb,
  stlb2_4kb, stlb2_2mb, stlb2_1gb,
}
use cpuinfo.X86.Caches.Descriptors.Low.{cases_01, cases_0c, cases_29, cases_42}
use cpuinfo.X86.Caches.Descriptors.Middle.{cases_4a, cases_56, cases_66, cases_76}
use cpuinfo.X86.Caches.Descriptors.High.{cases_80, cases_b0, cases_c3, cases_dc, cases_f0}

-- What the pointers point to.
pub record Decoded : Type 0 where
  pub cache : Caches
  pub tlbs : TlbName → Tlb

abbrev pub tlb_index : TlbName → ℕ
tlb_index itlb_4kb = 0
tlb_index itlb_2mb = 1
tlb_index itlb_4mb = 2
tlb_index dtlb0_4kb = 3
tlb_index dtlb0_2mb = 4
tlb_index dtlb0_4mb = 5
tlb_index dtlb_4kb = 6
tlb_index dtlb_2mb = 7
tlb_index dtlb_4mb = 8
tlb_index dtlb_1gb = 9
tlb_index stlb2_4kb = 10
tlb_index stlb2_2mb = 11
tlb_index stlb2_1gb = 12

unfoldable pub perform : Store → Decoded → Decoded
perform (l1i c) d = record d { cache = record (d.cache) { l1i = c } }
perform (l1d c) d = record d { cache = record (d.cache) { l1d = c } }
perform (l2 c) d = record d { cache = record (d.cache) { l2 = c } }
perform (l3 c) d = record d { cache = record (d.cache) { l3 = c } }
perform (trace uops ways) d = record d { cache = record (d.cache) { trace = (uops, ways) } }
perform (prefetch n) d = record d { cache = record (d.cache) { prefetch_size = n } }
perform (tlb name t) d = record d {
  tlbs = λ other. if tlb_index other == tlb_index name then t else d.tlbs other;
}

unfoldable pub perform_all : List Store → Decoded → Decoded
unfolding perform
perform_all [] d = d
perform_all (s ∷ stores) d = perform_all stores (perform s d)

-- The assignments for a label; a value without a label has none.
unfoldable pub find_case : ℕ → List Case → List Store
find_case descriptor [] = []
find_case descriptor ((label, stores) ∷ cases) =
    if label == descriptor then stores else find_case descriptor cases

unfoldable pub descriptor_cases : Target → ℕ → ModelInfo → List Case
descriptor_cases target vendor model_info =
    cases_01
    ++ cases_0c
    ++ cases_29
    ++ cases_42 vendor model_info
    ++ cases_4a
    ++ cases_56
    ++ cases_66 target vendor
    ++ cases_76
    ++ cases_80 target vendor
    ++ cases_b0
    ++ cases_c3
    ++ cases_dc
    ++ cases_f0

unfoldable pub decode_cache_descriptor : Target → ℕ → ModelInfo → ℕ → Decoded → Decoded
unfolding perform_all find_case descriptor_cases
decode_cache_descriptor target vendor model_info descriptor d =
    perform_all (find_case descriptor (descriptor_cases target vendor model_info)) d
