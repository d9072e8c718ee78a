-- ===== src/X86/Caches/Detect/Result.antt =====
-- `cpuinfo_x86_detect_cache` ends, and every cache has the size that its parts have together.
use mathlib.Core.Path.{subst}
use mathlib.Core.Option.{none-ne-some, some-injective}
use cpuinfo.Base.{
  ℕ, zero, suc, ◌<◌, Bool, true, false, not, Option, none, some, List, [], ◌∷◌, ◌==◌, if◌then◌else◌,
  All, ◌≡◌, ◌≢◌, refl, sym, arith, Bool-cases, inl, inr,
}
use cpuinfo.X86.BitLength.{bit_length}
use cpuinfo.X86.Caches.{CpuidRegs, Caches}
use cpuinfo.X86.Caches.Sizes.{HaveSizes}
use cpuinfo.X86.Caches.Stores.{ModelInfo, Target}
use cpuinfo.X86.Caches.Descriptors.{Decoded}
use cpuinfo.X86.Caches.Descriptors.Sizes.{decode_cache_descriptor-HaveSizes}
use cpuinfo.X86.Caches.Detect.{
  descriptors_of, decode_descriptors, iterate_descriptors, iterations_of, Detection, with_caches,
  after_leaf_4, after_properties, Cpuid, detect_by_basic_leaves, detect_by_extended_leaf,
  then_extended, detect_cache,
}
use cpuinfo.X86.Caches.Detect.Walks.{EndsAt, walk_leaf_4-HaveSizes, walk_properties-HaveSizes}

module _ (target : Target) (vendor : ℕ) (model_info : ModelInfo) where
  decode_descriptors-HaveSizes :
      (descriptors : List ℕ) (d : Decoded)
      → All (λ n. n ≢ 0xD2) descriptors
      → HaveSizes d.cache
      → HaveSizes (decode_descriptors target vendor model_info descriptors d).cache
  unfolding decode_descriptors
  decode_descriptors-HaveSizes [] d a k = k
  decode_descriptors-HaveSizes (n ∷ descriptors) d (n_known, a) k =
      let known = decode_cache_descriptor-HaveSizes target vendor model_info n d n_known k in
      decode_descriptors-HaveSizes descriptors _ a
        (elim (Bool-cases (not (n == 0))) [ inl e ↦ rw e known | inr e ↦ rw e k ])

  iterate_descriptors-HaveSizes :
      (leaf_2 : ℕ → CpuidRegs) (n k : ℕ) (d : Decoded)
      → ((j : ℕ) → All (λ b. b ≢ 0xD2) (descriptors_of (leaf_2 j)))
      → HaveSizes d.cache
      → HaveSizes (iterate_descriptors target vendor model_info leaf_2 k n d).cache
  unfolding iterate_descriptors
  iterate_descriptors-HaveSizes leaf_2 zero k d a h = h
  iterate_descriptors-HaveSizes leaf_2 (suc n) k d a h =
      iterate_descriptors-HaveSizes leaf_2 n (suc k) _ a
        (decode_descriptors-HaveSizes (descriptors_of (leaf_2 k)) d (a k) h)

-- A result, whose caches have their sizes.
abbrev pub Detects : Option Detection → Type 0
Detects r = (s : Detection) × (r ≡ some s) × HaveSizes s.decoded.cache

if-Detects :
    (o p : Option Detection) (b : Bool) → Detects o → Detects p → Detects (if b then o else p)
if-Detects o p true h k = h
if-Detects o p false h k = k

after_leaf_4-Detects :
    (s : Detection) (o : Option (Caches × ℕ)) (r : Caches × ℕ)
    → o ≡ some r
    → HaveSizes r.0
    → Detects (after_leaf_4 s o)
unfolding after_leaf_4
after_leaf_4-Detects s o (cache, cores) e k = elim (Bool-cases (not (cores == 0))) [
  | inl h ↦ (
    record (with_caches s cache) { log2_package_cores_max = bit_length cores },
    rw (e, after_leaf_4, h) refl,
    k,
  )
  | inr h ↦ (with_caches s cache, rw (e, after_leaf_4, h) refl, k)
]

after_properties-Detects :
    (s : Detection) (o : Option Caches) (r : Caches)
    → o ≡ some r
    → HaveSizes r
    → Detects (after_properties s o)
unfolding after_properties
after_properties-Detects s o r e k = (with_caches s r, rw (e, after_properties) refl, k)

module _ (fuel : ℕ) (cpuid : Cpuid) (s : Detection) (k : HaveSizes s.decoded.cache) where
  basic_leaves-Detects :
      (target : Target) (vendor : ℕ) (model_info : ModelInfo) (max_base_index last : ℕ)
      → ((j : ℕ) → All (λ b. b ≢ 0xD2) (descriptors_of (cpuid.leaf_2 j)))
      → EndsAt cpuid.leaf_4 last
      → last < fuel
      → Detects (detect_by_basic_leaves fuel cpuid target vendor model_info max_base_index s)
  unfolding detect_by_basic_leaves
  basic_leaves-Detects target vendor model_info max_base_index last known e h =
      let iterated =
        iterate_descriptors-HaveSizes target vendor model_info cpuid.leaf_2
          (iterations_of (cpuid.leaf_2 0)) 0 s.decoded known k in
      let decoded : Detection = record s {
        decoded =
            iterate_descriptors target vendor model_info cpuid.leaf_2 0
              (iterations_of (cpuid.leaf_2 0)) s.decoded;
      } in
      let (r, walked, sizes) =
        walk_leaf_4-HaveSizes cpuid.leaf_4 last e fuel 0 decoded.decoded.cache 0 (omega arith)
          (omega arith) iterated in
      if-Detects _ _ _ (s, refl, k)
        (if-Detects _ _ _ (after_leaf_4-Detects decoded _ r walked sizes) (decoded, refl, iterated))

  extended_leaf-Detects :
      (amd_topology_extensions : Bool) (max_extended_index last : ℕ)
      → EndsAt cpuid.leaf_8000001d last
      → last < fuel
      → Detects (detect_by_extended_leaf fuel cpuid amd_topology_extensions max_extended_index s)
  unfolding detect_by_extended_leaf
  extended_leaf-Detects amd_topology_extensions max_extended_index last e h =
      let (r, walked, sizes) =
        walk_properties-HaveSizes cpuid.leaf_8000001d last e fuel 0 s.decoded.cache (omega arith)
          (omega arith) k in
      if-Detects _ _ _ (after_properties-Detects s _ r walked sizes) (s, refl, k)

then_extended-Detects :
    (o : Option Detection) (f : Detection → Option Detection)
    → Detects o
    → ((s : Detection) → HaveSizes s.decoded.cache → Detects (f s))
    → Detects (then_extended o f)
then_extended-Detects none f (s, e, k) h = absurd (none-ne-some _ e)
then_extended-Detects (some t) f (s, e, k) h =
    h t (subst (λ (u : Detection). HaveSizes u.decoded.cache) (sym (some-injective _ _ e)) k)

-- Where leaf 4 and leaf 0x8000001D end at some subleaf below the fuel, no byte of leaf 2 is 0xD2, and
-- every cache has a size that is the product of its parts modulo 2 ^ 32, as a structure of zeros has:
-- the function ends, on every processor, and every cache has such a size afterwards.
pub detect_cache-HaveSizes :
    (fuel : ℕ) (cpuid : Cpuid) (target : Target) (vendor : ℕ) (model_info : ModelInfo)
    (max_base_index max_extended_index : ℕ) (amd_topology_extensions : Bool) (s : Detection)
    (last last_extended : ℕ)
    → EndsAt cpuid.leaf_4 last
    → last < fuel
    → EndsAt cpuid.leaf_8000001d last_extended
    → last_extended < fuel
    → ((j : ℕ) → All (λ b. b ≢ 0xD2) (descriptors_of (cpuid.leaf_2 j)))
    → HaveSizes s.decoded.cache
    → (s' : Detection) × (detect_cache fuel cpuid target vendor model_info max_base_index
          max_extended_index amd_topology_extensions s
        ≡ some s')
      × HaveSizes s'.decoded.cache
unfolding detect_cache
detect_cache-HaveSizes fuel cpuid target vendor model_info max_base_index max_extended_index
      amd_topology_extensions s last last_extended e h e' h' known k =
    then_extended-Detects _ _
      (basic_leaves-Detects fuel cpuid s k target vendor model_info max_base_index last known e h)
      (λ t kt.
        extended_leaf-Detects fuel cpuid t kt amd_topology_extensions max_extended_index
          last_extended e' h')
