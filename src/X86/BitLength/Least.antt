-- ===== src/X86/BitLength/Least.antt =====
-- `bit_length` is the logarithm to the base 2, rounded up.
use native.Mathlib.Nat.{pow-suc}
use cpuinfo.Base.{
  ℕ, zero, suc, ◌+◌, ◌-◌, ◌*◌, ◌/◌, ◌^◌, ◌<◌, ◌≤◌, ◌==◌, if◌then◌else◌, u32, Bool, true, false, ◌≡◌,
  refl, sym, ap, ◌∙◌, arith, max, Bool-cases, inl, inr,
}
use cpuinfo.X86.BitLength.{binary_length, bit_length}

-- The powers of 2 round a number.
abbrev Between : ℕ → ℕ → Type 0
Between n k = (n < 2 ^ k) × (2 ^ k ≤ max 1 (2 * n))

binary_length-zero : (k n : ℕ) → (n == 0) ≡ true → binary_length (suc k) n ≡ 0
unfolding binary_length
binary_length-zero k n z = rw z refl

binary_length-suc :
    (k n : ℕ) → (n == 0) ≡ false → binary_length (suc k) n ≡ suc (binary_length k (n / 2))
unfolding binary_length
binary_length-suc k n p = rw p (omega arith)

binary_length-Between : (k n : ℕ) → n < 2 ^ k → Between n (binary_length k n)
unfolding binary_length
binary_length-Between zero n h = (omega arith, omega arith)
binary_length-Between (suc k) n h =
    let double = pow-suc 2 k in
    let half = binary_length-Between k (n / 2) (omega arith) in
    elim (Bool-cases (n == 0)) [
      | inl z ↦
          let none : 2 ^ binary_length (suc k) n ≡ 1 =
            ap (λ (m : ℕ). 2 ^ m) (binary_length-zero k n z) in
          let empty : n ≡ 0 = ground arith in (omega arith, omega arith)
      | inr p ↦
          let more = pow-suc 2 (binary_length k (n / 2)) in
          let longer = ap (λ (m : ℕ). 2 ^ m) (binary_length-suc k n p) in
          let some_left : 1 ≤ n = ground arith in (omega arith, omega arith)
    ]

length_cases :
    (m : ℕ) (none : Bool)
    → (m == 0) ≡ none
    → (if m == 0 then 0 else binary_length 32 m) ≡ binary_length 32 m
length_cases m true z = rw z (sym (binary_length-zero 31 m z))
length_cases m false z = rw z refl

bit_length-binary_length : (n : ℕ) → 1 ≤ n → n < 2 ^ 32 → bit_length n ≡ binary_length 32 (n - 1)
unfolding bit_length
bit_length-binary_length n h small =
    let before : u32 (n + 2 ^ 32 - 1) ≡ n - 1 = omega arith in
    ap (λ (m : ℕ). if m == 0 then 0 else binary_length 32 m) before ∙ length_cases (n - 1) _ refl

-- For a uint32_t other than 0: that many bits tell `n` things apart, and with one bit fewer they
-- would not, unless there is only one thing and no bit.
pub bit_length_least :
    (n : ℕ) → 1 ≤ n → n < 2 ^ 32 → (n ≤ 2 ^ bit_length n) × (2 ^ bit_length n < 2 * n)
bit_length_least n h small =
    let power = ap (λ (m : ℕ). 2 ^ m) (bit_length-binary_length n h small) in
    let between = binary_length-Between 32 (n - 1) (omega arith) in (omega arith, omega arith)
