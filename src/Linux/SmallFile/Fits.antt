-- ===== src/Linux/SmallFile/Fits.antt =====
-- What `cpuinfo_linux_parse_small_file` does, by the length of the file.
use cpuinfo.Base.{
  ℕ, zero, suc, ◌-◌, ◌≤◌, ◌<◌, Bool, true, false, Option, some, [], ◌∷◌, ◌++◌, append_assoc, Bytes,
  length, length-append, leb, ltb, leb→le, ◌≡◌, refl, sym, ap, ◌∙◌, arith, ◌⊎◌, inl, inr,
  Bool-cases, if◌then◌else◌,
}
use cpuinfo.Linux.File.{FileSystem, ReadResult, read_error, bytes_read, Succeeds, ReadsSucceed}
use cpuinfo.Linux.SmallFile.{fill_buffer, parse_small_file}

module _ (fs : FileSystem) {S : Type 0} (buffer_size : ℕ) (callback : Bytes → S → S × Bool)
    (context : S) where
  open fs use {File, open_file, read, contents, read_in_order, read_zero}

  -- The whole text goes to the callback if it is shorter than the buffer, and nothing if not.
  abbrev pub by_length : Bytes → Option (S × Bool)
  by_length text =
      if ltb (length text) buffer_size then some (callback text context) else some (context, false)

  by_length_long :
      (text : Bytes) → buffer_size ≤ length text → by_length text ≡ some (context, false)
  by_length_long text h = let long : ltb (length text) buffer_size ≡ false = ground arith in rw long

  pub by_length_short :
      (text : Bytes) → length text < buffer_size → by_length text ≡ some (callback text context)
  by_length_short text h =
      let short : ltb (length text) buffer_size ≡ true = ground arith in rw short

  abbrev ByLength : ℕ → Type 0
  ByLength fuel =
      (f : File) (buffer : Bytes)
      → length (contents f) < fuel
      → (length buffer < buffer_size) ⊎ (buffer ≡ [])
      → fill_buffer fs buffer_size callback fuel f buffer context ≡ by_length (buffer ++ contents f)

  round-ByLength :
      (fuel : ℕ) (f : File) (buffer : Bytes) (r : ReadResult File)
      → ByLength fuel
      → read f (buffer_size - length buffer) ≡ r
      → Succeeds r
      → length (contents f) < suc fuel
      → (length buffer < buffer_size) ⊎ (buffer ≡ [])
      → fill_buffer fs buffer_size callback (suc fuel) f buffer context
        ≡ by_length (buffer ++ contents f)
  unfolding fill_buffer
  round-ByLength fuel f buffer (read_error g) ih e ok short room = absurd ok
  round-ByLength fuel f buffer (bytes_read [] g) ih e ok short room =
      elim (Bool-cases (leb buffer_size (length (buffer ++ [])))) [
        | inl full ↦
            rw (e, fill_buffer)
              (rw (full, fill_buffer)
                (sym (
                  by_length_long _ (
                    omega (
                      arith,
                      leb→le _ _ full,
                      length-append buffer (contents f),
                      length-append buffer [],
                    )))))
        | inr fits ↦
            rw (e, fill_buffer)
              (rw (fits, fill_buffer)
                (let below : length (buffer ++ []) < buffer_size = ground arith in
                  let empty : contents f ≡ [] = elim (read_zero f g _ e) [
                    | inl none_asked ↦ absurd (omega (arith, length-append buffer []))
                    | inr empty ↦ empty
                  ] in
                  rw empty (sym (by_length_short (buffer ++ []) below))))
      ]
  round-ByLength fuel f buffer (bytes_read (b ∷ bs) g) ih e ok short room =
      let order = (read_in_order f g _ (b ∷ bs) e).0 in
      elim (Bool-cases (leb buffer_size (length (buffer ++ b ∷ bs)))) [
        | inl full ↦
            rw (e, fill_buffer)
              (rw (full, fill_buffer)
                (sym (
                  by_length_long _ (
                    omega (
                      arith,
                      leb→le _ _ full,
                      ap length order,
                      length-append buffer (contents f),
                      length-append buffer (b ∷ bs),
                      length-append (b ∷ bs) (contents g),
                    )))))
        | inr fits ↦
            rw (e, fill_buffer)
              (rw (fits, fill_buffer)
                (let below : length (buffer ++ b ∷ bs) < buffer_size = ground arith in
                  ih g (buffer ++ b ∷ bs)
                    (omega (arith, ap length order, length-append (b ∷ bs) (contents g)))
                    (inl below)
                  ∙ ap by_length (
                      append_assoc buffer (b ∷ bs) (contents g)
                      ∙ ap (λ (t : Bytes). buffer ++ t) (sym order))))
      ]

  fill_buffer-ByLength : ReadsSucceed fs → (fuel : ℕ) → ByLength fuel
  fill_buffer-ByLength ok zero f buffer = λ short. absurd (omega arith)
  fill_buffer-ByLength ok (suc fuel) f buffer =
      round-ByLength fuel f buffer _ (fill_buffer-ByLength ok fuel) refl
        (ok f (buffer_size - length buffer))

  -- However the reads cut a file that is opened, where none fails and the fuel exceeds the length
  -- of the file: a file shorter than the buffer goes to the callback as a whole, whose status is
  -- returned; any other file fails, and the callback is not called.
  pub parse_small_file-by_length :
      ReadsSucceed fs
      → (fuel : ℕ) (filename : Bytes) (f : File) → open_file filename ≡ some f
      → length (contents f) < fuel
      → parse_small_file fs fuel filename buffer_size callback context ≡ by_length (contents f)
  unfolding parse_small_file
  parse_small_file-by_length ok fuel filename f opened enough =
      rw opened (fill_buffer-ByLength ok fuel f [] enough (inr refl))
