-- ===== src/Base/Bits/Step.antt =====
-- The native bit operations by their lowest digit. They are recursions on digits with fuel, of which
-- only as much counts as the first number needs.
use Prim.Native.Nat.{
  ℕ, zero, suc, ◌+◌, ◌*◌, ◌-◌, ◌/◌, ◌%◌, ◌≤◌, min, max, bit_and, bit_or, digits, bitwise,
  bit_and-bitwise, bit_or-bitwise,
}
use mathlib.Core.Path.{◌≡◌, refl, ap, ◌∙◌}
use native.Mathlib.Omega.{arith}

module _ (above : ℕ → ℕ) (digit : ℕ → ℕ → ℕ) where
  abbrev from : ℕ → ℕ → ℕ → ℕ
  from fuel x y = digits above digit fuel x y

  one_spare : (fuel x y : ℕ) → x ≤ fuel → from (suc fuel) x y ≡ from fuel x y
  one_spare zero zero y h = refl
  one_spare zero (suc x) y h = absurd (omega arith)
  one_spare (suc fuel) zero y h = refl
  one_spare (suc fuel) (suc x) y h =
      let halved : suc x / 2 ≤ fuel = omega arith in rw (one_spare fuel (suc x / 2) (y / 2) halved)

  all_spare : (spare fuel x y : ℕ) → x ≤ fuel → from (spare + fuel) x y ≡ from fuel x y
  all_spare zero fuel x y h =
      let same : 0 + fuel ≡ fuel = omega arith in ap (λ (n : ℕ). from n x y) same
  all_spare (suc spare) fuel x y h =
      let same : suc spare + fuel ≡ suc (spare + fuel) = omega arith in
      ap (λ (n : ℕ). from n x y) same
      ∙ one_spare (spare + fuel) x y (omega arith)
      ∙ all_spare spare fuel x y h

  lowest :
      (x y : ℕ)
      → bitwise above digit (suc x) y
        ≡ bitwise above digit (suc x / 2) (y / 2) * 2 + digit (suc x % 2) (y % 2)
  lowest x y =
      let half = suc x / 2 in
      let fuel : x ≡ (x - half) + half = omega arith in
      let enough = all_spare (x - half) half half (y / 2) (omega arith) in
      let rest = ap (λ (n : ℕ). from n half (y / 2)) fuel ∙ enough in omega (arith, rest)

pub bit_and_step : (x y : ℕ) → bit_and x y ≡ min (x % 2) (y % 2) + 2 * bit_and (x / 2) (y / 2)
bit_and_step zero y = simp bit_and-bitwise (omega arith)
bit_and_step (suc x) y = let half = lowest (λ n. 0) min x y in simp bit_and-bitwise (omega arith)

pub bit_or_step : (x y : ℕ) → bit_or x y ≡ max (x % 2) (y % 2) + 2 * bit_or (x / 2) (y / 2)
bit_or_step zero y = simp bit_or-bitwise (omega arith)
bit_or_step (suc x) y = let half = lowest (λ n. n) max x y in simp bit_or-bitwise (omega arith)
