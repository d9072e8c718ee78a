-- ===== src/X86/Caches/Descriptors/Sizes.antt =====
-- The sizes of the caches that the descriptors stand for.
use cpuinfo.Base.{
  ℕ, ◌*◌, Bool, true, List, [], ◌∷◌, ◌++◌, ◌&&◌, ◌||◌, ◌==◌, ==_iff, u32, ◌≡◌, ◌≢◌, refl, arith,
  Bool-cases, inl, inr,
}
use cpuinfo.X86.Caches.{Cache}
use cpuinfo.X86.Caches.Sizes.{
  HaveSizes, put_l1i-HaveSizes, put_l1d-HaveSizes, put_l2-HaveSizes, put_l3-HaveSizes,
  put_trace-HaveSizes, put_prefetch_size-HaveSizes,
}
use cpuinfo.X86.Caches.Stores.{
  ModelInfo, Target, is_x86, is_x86_elsewhere, is_cyrix_or_nsc, is_model_49, Store, Case, l1i, l1d,
  l2, l3, trace, prefetch, tlb,
}
use cpuinfo.X86.Caches.Descriptors.{
  Decoded, perform, perform_all, find_case, descriptor_cases, decode_cache_descriptor,
}
use cpuinfo.X86.Caches.Descriptors.Low.{cases_01, cases_0c, cases_29, cases_42}
use cpuinfo.X86.Caches.Descriptors.Middle.{cases_4a, cases_56, cases_66, cases_76}
use cpuinfo.X86.Caches.Descriptors.High.{cases_80, cases_b0, cases_c3, cases_dc, cases_f0}

-- The test of a cache, of an assignment and of a case.
has_size : Cache → Bool
has_size c = c.size == u32 (c.associativity * c.partitions * c.line_size * c.sets)

store_has_size : Store → Bool
store_has_size (l1i c) = has_size c
store_has_size (l1d c) = has_size c
store_has_size (l2 c) = has_size c
store_has_size (l3 c) = has_size c
store_has_size (trace uops ways) = true
store_has_size (prefetch n) = true
store_has_size (tlb name t) = true

stores_have_sizes : List Store → Bool
stores_have_sizes [] = true
stores_have_sizes (s ∷ stores) = store_has_size s && stores_have_sizes stores

-- Descriptor 0xD2 is left out.
cases_have_sizes : List Case → Bool
cases_have_sizes [] = true
cases_have_sizes ((label, stores) ∷ cases) =
    (label == 0xD2 || stores_have_sizes stores) && cases_have_sizes cases

cases_have_sizes-append :
    (xs ys : List Case)
    → cases_have_sizes xs ≡ true
    → cases_have_sizes ys ≡ true
    → cases_have_sizes (xs ++ ys) ≡ true
unfolding cases_have_sizes
cases_have_sizes-append [] ys h k = k
cases_have_sizes-append ((label, stores) ∷ xs) ys h k =
    ground (arith, cases_have_sizes-append xs ys)

low_sizes :
    (vendor : ℕ) (model_info : ModelInfo)
    → cases_have_sizes (cases_01 ++ cases_0c ++ cases_29 ++ cases_42 vendor model_info) ≡ true
unfolding cases_have_sizes stores_have_sizes store_has_size has_size
low_sizes vendor model_info = elim (Bool-cases (is_model_49 vendor model_info)) [
  | inl h ↦ rw h refl
  | inr h ↦ rw h refl
]

middle_sizes :
    (target : Target) (vendor : ℕ)
    → cases_have_sizes (cases_4a ++ cases_56 ++ cases_66 target vendor ++ cases_76) ≡ true
unfolding cases_have_sizes stores_have_sizes store_has_size has_size
middle_sizes target vendor = elim (Bool-cases (is_x86 target && is_cyrix_or_nsc vendor)) [
  | inl h ↦ rw h refl
  | inr h ↦ rw h refl
]

high_sizes :
    (target : Target) (vendor : ℕ)
    → cases_have_sizes (cases_80 target vendor ++ cases_b0 ++ cases_c3 ++ cases_dc ++ cases_f0)
      ≡ true
unfolding cases_have_sizes stores_have_sizes store_has_size has_size
high_sizes target vendor = elim (Bool-cases (is_x86_elsewhere target && is_cyrix_or_nsc vendor)) [
  | inl h ↦ rw h refl
  | inr h ↦ rw h refl
]

descriptor_cases_sizes :
    (target : Target) (vendor : ℕ) (model_info : ModelInfo)
    → cases_have_sizes (descriptor_cases target vendor model_info) ≡ true
unfolding descriptor_cases
descriptor_cases_sizes target vendor model_info =
    cases_have_sizes-append (cases_01 ++ cases_0c ++ cases_29 ++ cases_42 vendor model_info)
      (cases_4a
        ++ cases_56
        ++ cases_66 target vendor
        ++ cases_76
        ++ cases_80 target vendor
        ++ cases_b0
        ++ cases_c3
        ++ cases_dc
        ++ cases_f0)
      (low_sizes vendor model_info)
      (cases_have_sizes-append (cases_4a ++ cases_56 ++ cases_66 target vendor ++ cases_76)
        (cases_80 target vendor ++ cases_b0 ++ cases_c3 ++ cases_dc ++ cases_f0)
        (middle_sizes target vendor) (high_sizes target vendor))

find_case_sizes :
    (descriptor : ℕ) (cases : List Case)
    → descriptor ≢ 0xD2
    → cases_have_sizes cases ≡ true
    → stores_have_sizes (find_case descriptor cases) ≡ true
unfolding find_case cases_have_sizes stores_have_sizes
find_case_sizes descriptor [] n h = refl
find_case_sizes descriptor ((label, stores) ∷ cases) n h =
    ground (arith, find_case_sizes descriptor cases n)

perform-HaveSizes :
    (s : Store) (d : Decoded)
    → store_has_size s ≡ true
    → HaveSizes d.cache
    → HaveSizes (perform s d).cache
unfolding perform store_has_size has_size
perform-HaveSizes (l1i c) d h k = put_l1i-HaveSizes c d.cache ((==_iff _ _).0 h) k
perform-HaveSizes (l1d c) d h k = put_l1d-HaveSizes c d.cache ((==_iff _ _).0 h) k
perform-HaveSizes (l2 c) d h k = put_l2-HaveSizes c d.cache ((==_iff _ _).0 h) k
perform-HaveSizes (l3 c) d h k = put_l3-HaveSizes c d.cache ((==_iff _ _).0 h) k
perform-HaveSizes (trace uops ways) d h k = put_trace-HaveSizes uops ways d.cache k
perform-HaveSizes (prefetch n) d h k = put_prefetch_size-HaveSizes n d.cache k
perform-HaveSizes (tlb name t) d h k = k

perform_all-HaveSizes :
    (stores : List Store) (d : Decoded)
    → stores_have_sizes stores ≡ true
    → HaveSizes d.cache
    → HaveSizes (perform_all stores d).cache
unfolding perform_all stores_have_sizes
perform_all-HaveSizes [] d h k = k
perform_all-HaveSizes (s ∷ stores) d h k =
    perform_all-HaveSizes stores (perform s d) (ground arith)
      (perform-HaveSizes s d (ground arith) k)

-- A descriptor other than 0xD2 keeps the size of each cache the product of its parts.
pub decode_cache_descriptor-HaveSizes :
    (target : Target) (vendor : ℕ) (model_info : ModelInfo) (descriptor : ℕ) (d : Decoded)
    → descriptor ≢ 0xD2
    → HaveSizes d.cache
    → HaveSizes (decode_cache_descriptor target vendor model_info descriptor d).cache
unfolding decode_cache_descriptor
decode_cache_descriptor-HaveSizes target vendor model_info descriptor d n k =
    perform_all-HaveSizes (find_case descriptor (descriptor_cases target vendor model_info)) d
      (find_case_sizes descriptor _ n (descriptor_cases_sizes target vendor model_info)) k
