-- ===== src/Linux/File/Memory.antt =====
-- A file system in memory that meets the laws of the interface, for runs at concrete files: a read
-- stores at most `suc most` bytes, so that files come in chunks.
use cpuinfo.Base.{
  ℕ, suc, ◌≤◌, Option, [], ◌∷◌, ◌++◌, Bytes, length, length-take, take, drop, take-append-drop, min,
  ◌⊎◌, inl, inr, ◌≡◌, refl, sym, ap, ◌∙◌, arith,
}
use cpuinfo.Linux.File.{FileSystem, ReadResult, read_error, bytes_read, ReadsSucceed}

abbrev stored : {F : Type 0} → ReadResult F → Bytes
stored (read_error _) = []
stored (bytes_read bs _) = bs

abbrev remains : ReadResult Bytes → Bytes
remains (read_error g) = g
remains (bytes_read _ g) = g

module _ (most : ℕ) where
  abbrev pub read_memory : Bytes → ℕ → ReadResult Bytes
  read_memory f n = bytes_read (take (min n (suc most)) f) (drop (min n (suc most)) f)

  pub memory_in_order :
      (f g : Bytes) (n : ℕ) (bs : Bytes)
      → read_memory f n ≡ bytes_read bs g
      → (f ≡ bs ++ g) × (length bs ≤ n)
  memory_in_order f g n bs e =
      let came = ap stored e in
      let left = ap remains e in
      (
        sym (take-append-drop (min n (suc most)) f) ∙ rw (came, left),
        omega (arith, ap length came, length-take (min n (suc most)) f),
      )

  pub memory_zero : (f g : Bytes) (n : ℕ) → read_memory f n ≡ bytes_read [] g → (n ≡ 0) ⊎ (f ≡ [])
  memory_zero [] g n e = inr refl
  memory_zero (c ∷ f) g n e =
      inl (omega (arith, ap length (ap stored e), length-take (min n (suc most)) (c ∷ f)))

-- The files are given by their texts.
abbrev pub memory : (Bytes → Option Bytes) → ℕ → FileSystem
memory files most = record {
  File = Bytes;
  open_file = files;
  read = read_memory most;
  contents = λ f. f;
  read_in_order = memory_in_order most;
  read_zero = memory_zero most;
}

pub memory-ReadsSucceed :
    (files : Bytes → Option Bytes) (most : ℕ) → ReadsSucceed (memory files most)
memory-ReadsSucceed files most f n = tt
