-- ===== src/Base/Bits/Digit.antt =====
-- The binary digits of a number, and how `&` and `|` act on them.
use Prim.Native.Nat.{ℕ, zero, suc, ◌/◌, ◌%◌, ◌≤◌, ◌<◌, min, max, bit_and, bit_or}
use mathlib.Core.Path.{◌≡◌, refl, ap, ◌∙◌}
use native.Mathlib.Omega.{arith}
use cpuinfo.Base.Bits.Step.{bit_or_step, bit_and_step}

-- Digit `k`, the lowest being digit 0.
pub bit : ℕ → ℕ → ℕ
bit zero a = a % 2
bit (suc k) a = bit k (a / 2)

pub bit-lt : (k a : ℕ) → bit k a < 2
unfolding bit
bit-lt zero a = omega arith
bit-lt (suc k) a = bit-lt k (a / 2)

half-bit_or : (a b : ℕ) → bit_or a b / 2 ≡ bit_or (a / 2) (b / 2)
half-bit_or a b = omega (arith, bit_or_step a b)

half-bit_and : (a b : ℕ) → bit_and a b / 2 ≡ bit_and (a / 2) (b / 2)
half-bit_and a b = omega (arith, bit_and_step a b)

pub bit-bit_or : (k a b : ℕ) → bit k (bit_or a b) ≡ max (bit k a) (bit k b)
unfolding bit
bit-bit_or zero a b = omega (arith, bit_or_step a b)
bit-bit_or (suc k) a b = ap (bit k) (half-bit_or a b) ∙ bit-bit_or k (a / 2) (b / 2)

pub bit-bit_and : (k a b : ℕ) → bit k (bit_and a b) ≡ min (bit k a) (bit k b)
unfolding bit
bit-bit_and zero a b = omega (arith, bit_and_step a b)
bit-bit_and (suc k) a b = ap (bit k) (half-bit_and a b) ∙ bit-bit_and k (a / 2) (b / 2)

bit_ext_below : (n a b : ℕ) → a ≤ n → b ≤ n → ((k : ℕ) → bit k a ≡ bit k b) → a ≡ b
unfolding bit
bit_ext_below zero a b p q h = omega arith
bit_ext_below (suc n) a b p q h =
    omega (arith, h 0, bit_ext_below n (a / 2) (b / 2) (omega arith) (omega arith) (λ k. h (suc k)))

-- Numbers with the same digits are equal.
pub bit_ext : (a b : ℕ) → ((k : ℕ) → bit k a ≡ bit k b) → a ≡ b
bit_ext a b h = bit_ext_below (max a b) a b (omega arith) (omega arith) h

pub bit_or_twice : (a f : ℕ) → bit_or (bit_or a f) f ≡ bit_or a f
bit_or_twice a f = bit_ext _ _ (λ k. omega (arith, bit-bit_or k (bit_or a f) f, bit-bit_or k a f))

bit_of_zero : (k : ℕ) → bit k 0 ≡ 0
unfolding bit
bit_of_zero zero = refl
bit_of_zero (suc k) = bit_of_zero k

pub bit_and_zero : (a : ℕ) → bit_and a 0 ≡ 0
bit_and_zero a = bit_ext _ _ (λ k. omega (arith, bit-bit_and k a 0, bit_of_zero k))

pub zero-bit_or : (a : ℕ) → bit_or 0 a ≡ a
zero-bit_or a = bit_ext _ _ λ k. omega (arith, bit-bit_or k 0 a, bit_of_zero k)

pub zero-bit_and : (a : ℕ) → bit_and 0 a ≡ 0
zero-bit_and a = bit_ext _ _ λ k. omega (arith, bit-bit_and k 0 a, bit_of_zero k)
