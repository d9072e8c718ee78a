-- ===== src/Linux/Chunks/Reads.antt =====
-- The reading loop against the text of the file: it hands over the pieces of the text, however the
-- reads cut it, as long as each piece is shorter than the buffer; and it stops at the first piece
-- that fills the buffer.
use cpuinfo.Base.{
  ℕ, zero, suc, ◌-◌, ◌≤◌, ◌<◌, List, [], ◌∷◌, ◌++◌, append_assoc, Bytes, length, length-append,
  take, inl, inr, ◌≡◌, ◌∙◌, refl, sym, ap, arith, All, take-append_length, All-take-append, Lacks,
}
use cpuinfo.Linux.File.{FileSystem, ReadResult, read_error, bytes_read, Succeeds, ReadsSucceed}
use cpuinfo.Linux.Chunks.{
  Flow, Drained, unfinished, left_early, Outcome, aborted, at_end, drain, read_loop,
}
use cpuinfo.Linux.Chunks.Pieces.{
  pieces_from, handle_pieces, Scanned, drain-Scanned, drain-Lacks, pieces_from-append,
  length-pieces_from, handle_pieces_last,
}

module _ (fs : FileSystem) {S : Type 0} (sep : ℕ) (capacity : ℕ) (handle : Bytes → S → Flow S) where
  open fs use {File, read, contents, read_in_order, read_zero}

  abbrev continue_with : ℕ → File → Drained S → Outcome S
  continue_with fuel g (unfinished cur s) = read_loop fs sep capacity handle fuel g cur s
  continue_with fuel g (left_early s) = aborted s

  read_loop-zero :
      (fuel : ℕ) (f g : File) (p : Bytes) (s : S)
      → read f (capacity - length p) ≡ bytes_read [] g
      → read_loop fs sep capacity handle (suc fuel) f p s ≡ at_end (handle p s)
  unfolding read_loop
  read_loop-zero fuel f g p s e = rw (e, read_loop)

  read_loop-more :
      (fuel : ℕ) (f g : File) (p : Bytes) (b : ℕ) (bs : Bytes) (s : S) (d : Drained S)
      → read f (capacity - length p) ≡ bytes_read (b ∷ bs) g
      → drain sep handle (p ++ b ∷ bs) [] s ≡ d
      → read_loop fs sep capacity handle (suc fuel) f p s ≡ continue_with fuel g d
  unfolding read_loop
  read_loop-more fuel f g p b bs s (unfinished cur s') e h = rw (e, read_loop) (rw (h, read_loop))
  read_loop-more fuel f g p b bs s (left_early s') e h = rw (e, read_loop) (rw (h, read_loop))

  -- The loop with this fuel hands over the pieces of the text that is left.
  abbrev HandsOver : ℕ → Type 0
  HandsOver fuel =
      (f : File) (p : Bytes) (s : S)
      → length (contents f) < fuel
      → Lacks sep p
      → All (λ q. length q < capacity) (pieces_from sep p (contents f))
      → read_loop fs sep capacity handle fuel f p s
        ≡ handle_pieces handle (pieces_from sep p (contents f)) s

  -- What a scan has left over is handed over by the rounds to come.
  Scanned-HandsOver :
      (fuel : ℕ) (g : File) (ps : List Bytes) (s : S) (d : Drained S)
      → HandsOver fuel
      → length (contents g) < fuel
      → All (λ q. length q < capacity) ps
      → Scanned sep handle ps (contents g) s d
      → continue_with fuel g d ≡ handle_pieces handle ps s
  Scanned-HandsOver fuel g ps s (unfinished cur s') ih short fits h =
      ih g cur s' short h.1 (h.2 capacity fits) ∙ sym h.0
  Scanned-HandsOver fuel g ps s (left_early s') ih short fits h = sym h

  round-HandsOver :
      (fuel : ℕ) (f : File) (p : Bytes) (s : S) (r : ReadResult File)
      → HandsOver fuel
      → read f (capacity - length p) ≡ r
      → Succeeds r
      → length (contents f) < suc fuel
      → Lacks sep p
      → All (λ q. length q < capacity) (pieces_from sep p (contents f))
      → read_loop fs sep capacity handle (suc fuel) f p s
        ≡ handle_pieces handle (pieces_from sep p (contents f)) s
  unfolding pieces_from
  round-HandsOver fuel f p s (read_error g) ih e ok short lacks fits = absurd ok
  round-HandsOver fuel f p s (bytes_read [] g) ih e ok short lacks fits =
      let room = length-pieces_from sep capacity p (contents f) fits in
      elim (read_zero f g _ e) [
        | inl none_asked ↦ absurd (omega arith)
        | inr empty ↦
            read_loop-zero fuel f g p s e
            ∙ rw (empty, pieces_from) (sym (handle_pieces_last sep handle p s _ refl))
      ]
  round-HandsOver fuel f p s (bytes_read (b ∷ bs) g) ih e ok short lacks fits =
      let order = (read_in_order f g _ (b ∷ bs) e).0 in
      let same : pieces_from sep p (contents f) ≡ pieces_from sep [] ((p ++ b ∷ bs) ++ contents g) =
        rw (order, append_assoc) (sym (pieces_from-append sep p _ [] lacks)) in
      read_loop-more fuel f g p b bs s _ e refl
      ∙ Scanned-HandsOver fuel g _ s _ ih
          (omega (arith, ap length order, length-append bs (contents g))) (rw same at fits)
          (drain-Scanned sep handle (p ++ b ∷ bs) (contents g) [] s tt)
      ∙ ap (λ (ps : List Bytes). handle_pieces handle ps s) (sym same)

  pub read_loop-pieces : ReadsSucceed fs → (fuel : ℕ) → HandsOver fuel
  read_loop-pieces ok zero f p s = λ short. absurd (omega arith)
  read_loop-pieces ok (suc fuel) f p s =
      round-HandsOver fuel f p s _ (read_loop-pieces ok fuel) refl (ok f (capacity - length p))

  -- The loop with this fuel stops at a piece that fills the buffer.
  abbrev StopsAtFull : ℕ → Type 0
  StopsAtFull fuel =
      (f : File) (p : Bytes) (s : S)
      → length (contents f) < fuel
      → length p ≤ capacity
      → capacity ≤ length (p ++ contents f)
      → Lacks sep (take capacity (p ++ contents f))
      → read_loop fs sep capacity handle fuel f p s
        ≡ at_end (handle (take capacity (p ++ contents f)) s)

  round-StopsAtFull :
      (fuel : ℕ) (f : File) (p : Bytes) (s : S) (r : ReadResult File)
      → StopsAtFull fuel
      → read f (capacity - length p) ≡ r
      → Succeeds r
      → length (contents f) < suc fuel
      → length p ≤ capacity
      → capacity ≤ length (p ++ contents f)
      → Lacks sep (take capacity (p ++ contents f))
      → read_loop fs sep capacity handle (suc fuel) f p s
        ≡ at_end (handle (take capacity (p ++ contents f)) s)
  round-StopsAtFull fuel f p s (read_error g) ih e ok short room full lacks = absurd ok
  round-StopsAtFull fuel f p s (bytes_read [] g) ih e ok short room full lacks =
      let filled : length p ≡ capacity = elim (read_zero f g _ e) [
        | inl none_asked ↦ omega arith
        | inr empty ↦ omega (arith, ap length empty, length-append p (contents f))
      ] in
      read_loop-zero fuel f g p s e ∙ rw (← filled) (rw take-append_length)
  round-StopsAtFull fuel f p s (bytes_read (b ∷ bs) g) ih e ok short room full lacks =
      let (order, most) = read_in_order f g _ (b ∷ bs) e in
      let same : p ++ contents f ≡ (p ++ b ∷ bs) ++ contents g = rw (order, append_assoc) in
      let fits : length (p ++ b ∷ bs) ≤ capacity = omega (arith, length-append p (b ∷ bs)) in
      let clean : Lacks sep (p ++ b ∷ bs) =
        All-take-append _ capacity (p ++ b ∷ bs) (contents g) fits (rw same at lacks) in
      read_loop-more fuel f g p b bs s (unfinished (p ++ b ∷ bs) s) e
        (drain-Lacks sep handle (p ++ b ∷ bs) [] s clean)
      ∙ ih g (p ++ b ∷ bs) s (omega (arith, ap length order, length-append bs (contents g))) fits
          (rw same at full) (rw same at lacks)
      ∙ rw same

  pub read_loop_full : ReadsSucceed fs → (fuel : ℕ) → StopsAtFull fuel
  read_loop_full ok zero f p s = λ short. absurd (omega arith)
  read_loop_full ok (suc fuel) f p s =
      round-StopsAtFull fuel f p s _ (read_loop_full ok fuel) refl (ok f (capacity - length p))
