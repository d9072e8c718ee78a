-- ===== src/Linux/Number/Digits.antt =====
-- What `parse_number` reads.
use cpuinfo.Base.{
  ℕ, ◌+◌, ◌-◌, ◌*◌, ◌^◌, ◌≤◌, ◌<◌, false, [], ◌∷◌, ◌++◌, Bytes, leb, ◌≡◌, refl, ap, ◌∙◌, arith, All,
}
use cpuinfo.Linux.Number.{u32, widen_signed, widen_unsigned, parse_number_from, parse_number}

abbrev pub IsDigit : ℕ → Type 0
IsDigit c = (b'0' ≤ c) × (c ≤ b'9')

-- The number that a text of digits spells behind `n`, with no bound.
abbrev pub value_from : ℕ → Bytes → ℕ
value_from n [] = n
value_from n (c ∷ ds) = value_from (n * 10 + (c - b'0')) ds

abbrev pub value : Bytes → ℕ
value ds = value_from 0 ds

-- A text that no number begins.
abbrev pub NoDigit : Bytes → Type 0
NoDigit [] = Unit
NoDigit (c ∷ rest) = ¬ IsDigit c × (c < 256)

-- A way to widen a `char` that keeps the digits, and gives no other byte the value of one.
pub record Widens (widen : ℕ → ℕ) : Type 0 where
  pub on_digits : (c : ℕ) → IsDigit c → widen c ≡ c
  pub off_digits : (c : ℕ) → c < 256 → ¬ IsDigit c → 10 ≤ u32 (widen c + 2 ^ 32 - b'0')

pub widen_signed-Widens : Widens widen_signed
widen_signed-Widens = record { on_digits = λ c h. ground arith; off_digits = λ c h k. ground arith }

pub widen_unsigned-Widens : Widens widen_unsigned
widen_unsigned-Widens = record { on_digits = λ c h. refl; off_digits = λ c h k. ground arith }

value_from_mod :
    (n m : ℕ) (ds : Bytes) → u32 n ≡ u32 m → u32 (value_from n ds) ≡ u32 (value_from m ds)
value_from_mod n m [] h = h
value_from_mod n m (c ∷ ds) h =
    value_from_mod (n * 10 + (c - b'0')) (m * 10 + (c - b'0')) ds (omega arith)

module _ {widen : ℕ → ℕ} (w : Widens widen) where
  stops : (n : ℕ) (rest : Bytes) → NoDigit rest → parse_number_from widen n rest ≡ (n, rest)
  unfolding parse_number_from
  stops n [] h = refl
  stops n (c ∷ rest) h = ground (arith, w.off_digits c h.1 h.0)

  reads_digit :
      (n c : ℕ) (rest : Bytes)
      → IsDigit c
      → parse_number_from widen n (c ∷ rest)
        ≡ parse_number_from widen (u32 (n * 10 + (c - b'0'))) rest
  unfolding parse_number_from
  reads_digit n c rest h =
      let digit : u32 (widen c + 2 ^ 32 - b'0') ≡ c - b'0' = rw (w.on_digits c h) (omega arith) in
      let small : leb 10 (c - b'0') ≡ false = ground arith in ground arith

  -- Digits are read to their value, taken modulo 2 ^ 32.
  pub parse_number_from_digits :
      (n : ℕ) (ds rest : Bytes)
      → n < 2 ^ 32
      → All IsDigit ds
      → NoDigit rest
      → parse_number_from widen n (ds ++ rest) ≡ (u32 (value_from n ds), rest)
  unfolding parse_number_from
  parse_number_from_digits n [] rest h hd hr = ground (arith, stops n rest hr)
  parse_number_from_digits n (c ∷ ds) rest h (hc, hd) hr =
      let next = u32 (n * 10 + (c - b'0')) in
      reads_digit n c (ds ++ rest) hc
      ∙ parse_number_from_digits next ds rest (omega arith) hd hr
      ∙ ap (λ (k : ℕ). (k, rest)) (value_from_mod next (n * 10 + (c - b'0')) ds (omega arith))

  -- At the start of a text, for a way to widen bytes that tells digits from other bytes: the
  -- digits up to the first byte that is none, by their value modulo 2 ^ 32, and that byte with all
  -- behind it as the rest.
  pub parse_number_digits :
      (ds rest : Bytes)
      → All IsDigit ds
      → NoDigit rest
      → parse_number widen (ds ++ rest) ≡ (u32 (value ds), rest)
  unfolding parse_number
  parse_number_digits ds rest = parse_number_from_digits 0 ds rest (omega arith)

parse_number_from-lt :
    (widen : ℕ → ℕ) (n : ℕ) (text : Bytes)
    → n < 2 ^ 32
    → (parse_number_from widen n text).0 < 2 ^ 32
unfolding parse_number_from
parse_number_from-lt widen n [] h = h
parse_number_from-lt widen n (c ∷ rest) h =
    let next = u32 (n * 10 + u32 (widen c + 2 ^ 32 - b'0')) in
    ground (arith, parse_number_from-lt widen next rest (omega arith))

pub parse_number-lt : (widen : ℕ → ℕ) (text : Bytes) → (parse_number widen text).0 < 2 ^ 32
unfolding parse_number
parse_number-lt widen text = parse_number_from-lt widen 0 text (omega arith)
