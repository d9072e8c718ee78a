-- ===== src/Linux/Number/Print.antt =====
-- `printf` of C for an unsigned number in decimal (`%PRIu32`), which src/linux/processors.c calls to
-- write file names, and `parse_number` as its inverse.
use native.Mathlib.Nat.{pow-suc}
use cpuinfo.Base.{
  ℕ, zero, suc, ◌+◌, ◌-◌, ◌*◌, ◌/◌, ◌%◌, ◌^◌, ◌≤◌, ◌<◌, [], ◌∷◌, ◌++◌, append_assoc, append-nil,
  Bytes, length, length-append, ltb, if◌then◌else◌, ◌≡◌, ◌≢◌, refl, sym, ap, ◌∙◌, arith, All,
  All-append, Bool-cases, inl, inr, true, false, ltb→lt,
}
use cpuinfo.Linux.Number.{parse_number}
use cpuinfo.Linux.Number.Digits.{IsDigit, value_from, value, NoDigit, Widens, parse_number_digits}

-- The digits of `n` before the text `text`: with `k` for fuel, all of them if `n` is below 10 ^ k.
pub decimal_before : ℕ → ℕ → Bytes → Bytes
decimal_before zero n text = text
decimal_before (suc k) n text =
    let rest = decimal_before k (n / 10) ((n % 10 + b'0') ∷ text) in
    if ltb n 10 then (n + b'0') ∷ text else rest

-- Ten digits are enough for a uint32_t.
unfoldable pub decimal : ℕ → Bytes
unfolding decimal_before
decimal n = decimal_before 10 n []

value_from-append :
    (n : ℕ) (ds : Bytes) (c : ℕ) → value_from n (ds ++ c ∷ []) ≡ value_from n ds * 10 + (c - b'0')
value_from-append n [] c = refl
value_from-append n (d ∷ ds) c = value_from-append (n * 10 + (d - b'0')) ds c

-- A text is the digits of `n` before another text.
pub record IsDecimal (k n : ℕ) (text whole : Bytes) : Type 0 where
  pub digits : Bytes
  pub before : whole ≡ digits ++ text
  pub all_digits : All IsDigit digits
  pub some_digit : digits ≢ []
  pub worth : value digits ≡ n
  pub few : length digits ≤ k

one_digit :
    (k n : ℕ) (text : Bytes) → n < 10 → IsDecimal (suc k) n text (decimal_before (suc k) n text)
one_digit k n text h =
    let one : ltb n 10 ≡ true = ground arith in
    record {
      digits = (n + b'0') ∷ [];
      before = unfold decimal_before in rw one;
      all_digits = (omega arith, tt);
      some_digit = cc;
      worth = omega arith;
      few = omega arith;
    }

more_digits :
    (k n : ℕ) (text : Bytes)
    → ltb n 10 ≡ false
    → IsDecimal k
        (n / 10)
        ((n % 10 + b'0') ∷ text)
        (decimal_before k (n / 10) ((n % 10 + b'0') ∷ text))
    → IsDecimal (suc k) n text (decimal_before (suc k) n text)
more_digits k n text more d = record {
  digits = d.digits ++ (n % 10 + b'0') ∷ [];
  before =
      unfold decimal_before in
      rw more (d.before ∙ sym (append_assoc d.digits ((n % 10 + b'0') ∷ []) text));
  all_digits = All-append IsDigit d.digits ((n % 10 + b'0') ∷ []) d.all_digits ((omega arith, tt));
  some_digit =
      λ e. absurd (omega (arith, ap length e, length-append d.digits ((n % 10 + b'0') ∷ [])));
  worth = value_from-append 0 d.digits (n % 10 + b'0') ∙ omega (arith, d.worth);
  few = omega (arith, d.few, length-append d.digits ((n % 10 + b'0') ∷ []));
}

decimal_before-IsDecimal :
    (k n : ℕ) (text : Bytes)
    → n < 10 ^ suc k
    → IsDecimal (suc k) n text (decimal_before (suc k) n text)
decimal_before-IsDecimal zero n text h = one_digit zero n text (omega arith)
decimal_before-IsDecimal (suc k) n text h = elim (Bool-cases (ltb n 10)) [
  | inl one ↦ one_digit (suc k) n text (ltb→lt n 10 one)
  | inr more ↦ more_digits (suc k) n text more (
      decimal_before-IsDecimal k (n / 10) ((n % 10 + b'0') ∷ text)
        (omega (arith, pow-suc 10 (suc k))))
]

pub decimal-IsDecimal : (n : ℕ) → n < 2 ^ 32 → IsDecimal 10 n [] (decimal n)
unfolding decimal
decimal-IsDecimal n h = decimal_before-IsDecimal 9 n [] (omega arith)

-- A uint32_t that is printed in decimal is read back, whatever text that begins with no digit
-- follows, for a way to widen bytes that tells digits from other bytes.
pub parse_number-decimal :
    {widen : ℕ → ℕ} (w : Widens widen) (n : ℕ) (rest : Bytes)
    → n < 2 ^ 32
    → NoDigit rest
    → parse_number widen (decimal n ++ rest) ≡ (n, rest)
parse_number-decimal w n rest h hr =
    let d = decimal-IsDecimal n h in
    let text : decimal n ≡ d.digits = d.before ∙ append-nil d.digits in
    rw text (
      parse_number_digits w d.digits rest d.all_digits hr
      ∙ ap (λ (v : ℕ). (v, rest)) (omega (arith, d.worth)))
