-- ===== src/Linux/Cpulist/Entry.antt =====
-- What `parse_entry` makes of an entry: blanks round a processor number or a range.
use cpuinfo.Base.{
  ℕ, ◌+◌, ◌^◌, ◌≤◌, ◌<◌, Bool, true, false, Option, none, some, [], ◌∷◌, ◌++◌, append_assoc,
  append-nil, reverse, reverse-append, reverse-reverse, Bytes, length, length-append, ltb, ◌==◌,
  if◌then◌else◌, ◌≡◌, ◌≢◌, refl, sym, ap, ◌∙◌, arith, All, All-append,
}
use cpuinfo.Linux.Number.{u32, is_whitespace, widen_signed, parse_number}
use cpuinfo.Linux.Number.Digits.{
  IsDigit, value, parse_number-lt, parse_number_digits, widen_signed-Widens,
}
use cpuinfo.Linux.Cpulist.{skip_whitespace, trim, parse_second, parse_range, call, parse_entry}

abbrev pub IsBlank : ℕ → Type 0
IsBlank c = is_whitespace c ≡ true

-- A text that begins with no blank.
abbrev IsSolid : Bytes → Type 0
IsSolid [] = ⊥
IsSolid (c ∷ rest) = is_whitespace c ≡ false

skip_whitespace-blanks :
    (ws rest : Bytes) → All IsBlank ws → skip_whitespace (ws ++ rest) ≡ skip_whitespace rest
unfolding skip_whitespace
skip_whitespace-blanks [] rest h = refl
skip_whitespace-blanks (c ∷ ws) rest (hc, hw) = rw (hc) (skip_whitespace-blanks ws rest hw)

skip_whitespace-IsSolid : (e : Bytes) → IsSolid e → skip_whitespace e ≡ e
unfolding skip_whitespace
skip_whitespace-IsSolid [] h = absurd h
skip_whitespace-IsSolid (c ∷ rest) h = rw h

IsSolid-append : (e rest : Bytes) → IsSolid e → IsSolid (e ++ rest)
IsSolid-append [] rest h = absurd h
IsSolid-append (c ∷ e) rest h = h

All-reverse : (P : ℕ → Type 0) (xs : Bytes) → All P xs → All P (reverse xs)
All-reverse P [] h = tt
All-reverse P (x ∷ xs) (hx, h) =
    rw (reverse-append (x ∷ []) xs)
      (All-append P (reverse xs) (x ∷ []) (All-reverse P xs h) (hx, tt))

-- Blanks before and behind a text are taken away.
trim_lem :
    (ws e ws' : Bytes)
    → All IsBlank ws
    → All IsBlank ws'
    → IsSolid e
    → IsSolid (reverse e)
    → trim (ws ++ (e ++ ws')) ≡ e
unfolding trim
trim_lem ws e ws' h h' first last =
    ap (λ (t : Bytes). reverse (skip_whitespace (reverse t)))
      (skip_whitespace-blanks ws (e ++ ws') h
        ∙ skip_whitespace-IsSolid (e ++ ws') (IsSolid-append e ws' first))
    ∙ ap (λ (t : Bytes). reverse (skip_whitespace t)) (reverse-append e ws')
    ∙ ap reverse (
        skip_whitespace-blanks (reverse ws') (reverse e) (All-reverse _ ws' h')
        ∙ skip_whitespace-IsSolid (reverse e) last)
    ∙ reverse-reverse e

-- What an entry holds between the blanks: a number, or two with a dash between them.
pub data Span : Type 0 where
  single : Bytes → Span
  range : Bytes → Bytes → Span

abbrev pub IsNumber : Bytes → Type 0
IsNumber ds = (ds ≢ []) × All IsDigit ds

abbrev pub IsSpan : Span → Type 0
IsSpan (single ds) = IsNumber ds
IsSpan (range ds es) = IsNumber ds × IsNumber es

abbrev pub span_text : Span → Bytes
span_text (single ds) = ds
span_text (range ds es) = ds ++ b'-' ∷ es

-- The half-open range that a span stands for; numbers are uint32_t, and a range that runs down
-- stands for none.
abbrev pub span_meaning : Span → Option (ℕ × ℕ)
span_meaning (single ds) = some (u32 (value ds), u32 (u32 (value ds) + 1))
span_meaning (range ds es) =
    if ltb (u32 (value es)) (u32 (value ds))
    then none
    else some (u32 (value ds), u32 (u32 (value es) + 1))

digit_IsSolid : (c : ℕ) → IsDigit c → is_whitespace c ≡ false
unfolding is_whitespace
digit_IsSolid c h = ground arith

IsNumber-IsSolid : (ds rest : Bytes) → IsNumber ds → IsSolid (ds ++ rest)
IsNumber-IsSolid [] rest h = absurd (h.0 refl)
IsNumber-IsSolid (c ∷ ds) rest h = digit_IsSolid c h.1.0

reverse-IsNumber : (ds : Bytes) → IsNumber ds → IsNumber (reverse ds)
reverse-IsNumber ds h =
    (λ e. h.0 (sym (reverse-reverse ds) ∙ ap reverse e), All-reverse IsDigit ds h.1)

reverse-IsSolid : (pre ds : Bytes) → IsNumber ds → IsSolid (reverse (pre ++ ds))
reverse-IsSolid pre ds h =
    rw (reverse-append pre ds) (IsNumber-IsSolid (reverse ds) (reverse pre) (reverse-IsNumber ds h))

span_IsSolid : (x : Span) → IsSpan x → IsSolid (span_text x) × IsSolid (reverse (span_text x))
span_IsSolid (single ds) h = (rw append-nil at (IsNumber-IsSolid ds [] h), reverse-IsSolid [] ds h)
span_IsSolid (range ds es) h = (
  IsNumber-IsSolid ds (b'-' ∷ es) h.0,
  rw append_assoc at (reverse-IsSolid (ds ++ b'-' ∷ []) es h.1),
)

length-IsNumber : (ds : Bytes) → IsNumber ds → 0 < length ds
length-IsNumber [] h = absurd (h.0 refl)
length-IsNumber (c ∷ ds) h = omega arith

parse_range-single : (ds : Bytes) → IsNumber ds → parse_range ds ≡ span_meaning (single ds)
unfolding parse_range parse_second
parse_range-single ds h =
    let reads : parse_number widen_signed ds ≡ (u32 (value ds), []) =
      rw append-nil at (parse_number_digits widen_signed-Widens ds [] h.1 tt) in
    let some_text = length-IsNumber ds h in
    let not_empty : (length ds == 0) ≡ false = ground arith in
    let moved : (0 == length ds) ≡ false = ground arith in rw (reads, not_empty, moved)

parse_range-range :
    (ds es : Bytes)
    → IsNumber ds
    → IsNumber es
    → parse_range (ds ++ b'-' ∷ es) ≡ span_meaning (range ds es)
unfolding parse_range parse_second
parse_range-range ds es h k =
    let first : parse_number widen_signed (ds ++ b'-' ∷ es) ≡ (u32 (value ds), b'-' ∷ es) =
      parse_number_digits widen_signed-Widens ds (b'-' ∷ es) h.1 (omega arith) in
    let second : parse_number widen_signed es ≡ (u32 (value es), []) =
      rw append-nil at (parse_number_digits widen_signed-Widens es [] k.1 tt) in
    let len = length-append ds (b'-' ∷ es) in
    let some_text = length-IsNumber ds h in
    let more_text = length-IsNumber es k in
    let not_empty : (length (ds ++ b'-' ∷ es) == 0) ≡ false = ground arith in
    let moved : (length (b'-' ∷ es) == length (ds ++ b'-' ∷ es)) ≡ false = ground arith in
    let moved_on : (0 == length es) ≡ false = ground arith in
    rw (first, not_empty, moved, parse_second) (rw (second, moved_on, first))

parse_range-span : (x : Span) → IsSpan x → parse_range (span_text x) ≡ span_meaning x
parse_range-span (single ds) h = parse_range-single ds h
parse_range-span (range ds es) h = parse_range-range ds es h.0 h.1

-- An entry of blanks, a number or a range, and blanks: the callback is called once, with what the
-- entry stands for, and its status is the entry's; a range that runs down is refused with no call.
pub parse_entry-span :
    {S : Type 0} (callback : ℕ → ℕ → S → S × Bool) (ws : Bytes) (x : Span) (ws' : Bytes)
    (context : S)
    → All IsBlank ws
    → All IsBlank ws'
    → IsSpan x
    → parse_entry callback (ws ++ (span_text x ++ ws')) context
      ≡ call callback (span_meaning x) context
unfolding parse_entry
parse_entry-span callback ws x ws' context h h' hx =
    let (first, last) = span_IsSolid x hx in
    ap (λ (t : Bytes). call callback (parse_range t) context)
      (trim_lem ws (span_text x) ws' h h' first last)
    ∙ ap (λ (r : Option (ℕ × ℕ)). call callback r context) (parse_range-span x hx)

parse_second_sound :
    (first : ℕ) (text : Bytes) (a b : ℕ)
    → first < 2 ^ 32
    → parse_second first text ≡ some (a, b)
    → (l : ℕ) × (a ≤ l) × (l < 2 ^ 32) × (b ≡ u32 (l + 1))
unfolding parse_second
parse_second_sound first [] a b h e = (first, ground arith, ground arith, ground arith)
parse_second_sound first (c ∷ text) a b h e =
    let l = (parse_number widen_signed text).0 in
    let small : l < 2 ^ 32 = parse_number-lt widen_signed text in
    (l, ground arith, ground arith, ground arith)

-- Whatever the entry, a range that reaches the callback runs up, and both its ends are uint32_t:
-- it goes from `a` to some `l` at or behind `a`, and its end is `l + 1` taken modulo 2 ^ 32.
pub parse_range_sound :
    (entry : Bytes) (a b : ℕ)
    → parse_range entry ≡ some (a, b)
    → (l : ℕ) × (a ≤ l) × (l < 2 ^ 32) × (b ≡ u32 (l + 1))
unfolding parse_range
parse_range_sound entry a b e =
    parse_second_sound (parse_number widen_signed entry).0 (parse_number widen_signed entry).1 a b
      (parse_number-lt widen_signed entry) (ground arith)

pub blank_ne_comma : (c : ℕ) → IsBlank c → c ≢ b','
unfolding is_whitespace
blank_ne_comma c h e = ground arith
