-- ===== src/Linux/Chunks/Pieces.antt =====
-- The pieces of a text between separators, and what `drain` makes of a text that comes in parts.
use cpuinfo.Base.{
  ℕ, ◌<◌, true, false, List, [], ◌∷◌, ◌++◌, append_assoc, append-nil, Bytes, length, length-append,
  ◌==◌, Bool-cases, inl, inr, ◌≡◌, ◌∙◌, refl, arith, All, All-append, Lacks,
}
use cpuinfo.Linux.Chunks.{
  Flow, go_on, leave, Drained, unfinished, left_early, Outcome, finished, aborted, drain, at_end,
}

-- The pieces of a text, the last one included; `cur` is the beginning of the first piece.
unfoldable pub pieces_from : ℕ → Bytes → Bytes → List Bytes
pieces_from sep cur [] = cur ∷ []
pieces_from sep cur (c ∷ rest) = elim (c == sep) [
  | true ↦ cur ∷ pieces_from sep [] rest
  | false ↦ pieces_from sep (cur ++ c ∷ []) rest
]

-- Hand the pieces to the handler, one after the other.
unfoldable pub handle_pieces : {S : Type 0} → (Bytes → S → Flow S) → List Bytes → S → Outcome S
handle_pieces handle [] s = finished s
handle_pieces handle (p ∷ ps) s = elim (handle p s) [
  | go_on s' ↦ handle_pieces handle ps s'
  | leave s' ↦ aborted s'
]

module _ (sep : ℕ) where
  pub pieces_from-append :
      (p rest cur : Bytes)
      → Lacks sep p
      → pieces_from sep cur (p ++ rest) ≡ pieces_from sep (cur ++ p) rest
  unfolding pieces_from
  pieces_from-append [] rest cur h = rw append-nil
  pieces_from-append (c ∷ p) rest cur (hc, hp) =
      ground (arith, pieces_from-append p rest (cur ++ c ∷ []) hp, append_assoc cur (c ∷ []) p)

  -- The first piece begins with `cur`.
  pub length-pieces_from :
      (n : ℕ) (cur rest : Bytes)
      → All (λ p. length p < n) (pieces_from sep cur rest)
      → length cur < n
  unfolding pieces_from
  length-pieces_from n cur [] h = h.0
  length-pieces_from n cur (c ∷ rest) h =
      ground (arith, length-pieces_from n (cur ++ c ∷ []) rest, length-append cur (c ∷ []))

pub drain-Lacks :
    {S : Type 0} (sep : ℕ) (handle : Bytes → S → Flow S) (p cur : Bytes) (s : S)
    → Lacks sep p
    → drain sep handle p cur s ≡ unfinished (cur ++ p) s
unfolding drain
drain-Lacks sep handle [] cur s h = rw append-nil
drain-Lacks sep handle (c ∷ p) cur s (hc, hp) =
    ground (arith, drain-Lacks sep handle p (cur ++ c ∷ []) s hp, append_assoc cur (c ∷ []) p)

module _ {S : Type 0} (handle : Bytes → S → Flow S) where
  pub handle_pieces-go_on :
      (p : Bytes) (ps : List Bytes) (s s' : S)
      → handle p s ≡ go_on s'
      → handle_pieces handle (p ∷ ps) s ≡ handle_pieces handle ps s'
  unfolding handle_pieces
  handle_pieces-go_on p ps s s' e = rw (e, handle_pieces)

  pub handle_pieces-leave :
      (p : Bytes) (ps : List Bytes) (s s' : S)
      → handle p s ≡ leave s'
      → handle_pieces handle (p ∷ ps) s ≡ aborted s'
  unfolding handle_pieces
  handle_pieces-leave p ps s s' e = rw (e, handle_pieces)

module _ {S : Type 0} (sep : ℕ) (handle : Bytes → S → Flow S) where
  -- What a scan that begins in state `s`, with the pieces `ps` and behind them the text `rest` to
  -- come, has done: if it ends with an unfinished piece, the rest of the work is that piece with
  -- the further text, and no piece of that work is new; otherwise the handler has left.
  abbrev pub Scanned : List Bytes → Bytes → S → Drained S → Type 0
  Scanned ps rest s (unfinished cur' s') =
      (handle_pieces handle ps s ≡ handle_pieces handle (pieces_from sep cur' rest) s')
      × Lacks sep cur'
      × ((n : ℕ) → All (λ p. length p < n) ps → All (λ p. length p < n) (pieces_from sep cur' rest))
  Scanned ps rest s (left_early s') = handle_pieces handle ps s ≡ aborted s'

  -- The handler has taken one piece more.
  Scanned-cons :
      (p : Bytes) (ps : List Bytes) (rest : Bytes) (s s' : S) (d : Drained S)
      → handle p s ≡ go_on s'
      → Scanned ps rest s' d
      → Scanned (p ∷ ps) rest s d
  Scanned-cons p ps rest s s' (unfinished cur' t) e h =
      (handle_pieces-go_on handle p ps s s' e ∙ h.0, h.1, λ n a. h.2 n a.1)
  Scanned-cons p ps rest s s' (left_early t) e h = handle_pieces-go_on handle p ps s s' e ∙ h

  handled :
      (xs rest cur : Bytes) (s : S) (fl : Flow S)
      → handle cur s ≡ fl
      → ((s' : S) → Scanned (pieces_from sep [] (xs ++ rest)) rest s' (drain sep handle xs [] s'))
      → Scanned
          (cur ∷ pieces_from sep [] (xs ++ rest))
          rest
          s
          (elim fl [ go_on s' ↦ drain sep handle xs [] s' | leave s' ↦ left_early s' ])
  handled xs rest cur s (go_on s') e ih = Scanned-cons cur _ rest s s' _ e (ih s')
  handled xs rest cur s (leave s') e ih = handle_pieces-leave handle cur _ s s' e

  pub drain-Scanned :
      (xs rest cur : Bytes) (s : S)
      → Lacks sep cur
      → Scanned (pieces_from sep cur (xs ++ rest)) rest s (drain sep handle xs cur s)
  unfolding drain pieces_from
  drain-Scanned [] rest cur s h = (refl, h, λ n a. a)
  drain-Scanned (c ∷ xs) rest cur s h = elim (Bool-cases (c == sep)) [
    | inl same ↦
        rw (same, drain, pieces_from)
          (handled xs rest cur s (handle cur s) refl (λ s'. drain-Scanned xs rest [] s' tt))
    | inr other ↦
        rw (other, drain, pieces_from)
          (drain-Scanned xs rest (cur ++ c ∷ []) s
            (All-append _ cur (c ∷ []) h (λ e. ground arith, tt)))
  ]

  pub handle_pieces_last :
      (p : Bytes) (s : S) (fl : Flow S)
      → handle p s ≡ fl
      → handle_pieces handle (p ∷ []) s ≡ at_end fl
  handle_pieces_last p s (go_on s') e =
      handle_pieces-go_on handle p [] s s' e ∙ unfold handle_pieces in refl
  handle_pieces_last p s (leave s') e = handle_pieces-leave handle p [] s s' e
