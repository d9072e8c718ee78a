-- ===== src/Base/Bits/Field.antt =====
-- `&` with a mask of neighbouring ones, and the laws of `&` over `|`, at variables.
use Prim.Native.Nat.{ℕ, zero, suc, ◌+◌, ◌-◌, ◌*◌, ◌/◌, ◌%◌, ◌^◌, ◌≤◌, ◌<◌, bit_and, bit_or}
use native.Mathlib.Nat.{pow-suc, one-le-pow, div-add-mod', mod-lt, div-div-eq-div-mul}
use mathlib.Core.Path.{◌≡◌, sym, ap, ◌∙◌}
use native.Mathlib.Omega.{arith}
use mathlib.Core.Logic.{◌≢◌}
use mathlib.Core.Bool.{true}
use cpuinfo.Base.Words.{has}
use cpuinfo.Base.Bits.Step.{bit_and_step, bit_or_step}
use cpuinfo.Base.Bits.Digit.{bit_ext, bit-bit_and, bit-bit_or, bit_and_zero, zero-bit_or}

mod_unique : (m b q r : ℕ) → b ≡ q * m + r → r < m → b % m ≡ r
mod_unique m b q r e h = grind arith

-- The `w` lowest digits.
pub bit_and_low : (w a : ℕ) → bit_and a (2 ^ w - 1) ≡ a % 2 ^ w
bit_and_low zero a = omega (arith, bit_and_zero a)
bit_and_low (suc w) a = omega (
  arith,
  pow-suc 2 w,
  one-le-pow w 2,
  bit_and_step a (2 ^ suc w - 1),
  ap (bit_and (a / 2)) (half_mask w),
  bit_and_low w (a / 2),
  low_suc w a,
)
  where
    half_mask : (v : ℕ) → (2 ^ suc v - 1) / 2 ≡ 2 ^ v - 1
    half_mask v = omega (arith, pow-suc 2 v, one-le-pow v 2)

    low_suc : (v b : ℕ) → b % 2 ^ suc v ≡ (b / 2 % 2 ^ v) * 2 + b % 2
    low_suc v b =
        let q = b / 2 / 2 ^ v in
        let doubled = pow-suc 2 v in
        let product = ap (λ (t : ℕ). q * t) doubled in
        let split = div-add-mod' (b / 2) (2 ^ v) in
        let below = mod-lt (b / 2) (one-le-pow v 2 (omega arith)) in
        mod_unique (2 ^ suc v) b q ((b / 2 % 2 ^ v) * 2 + b % 2) (omega arith) (omega arith)

pub bit_and_or : (a b m : ℕ) → bit_and (bit_or a b) m ≡ bit_or (bit_and a m) (bit_and b m)
bit_and_or a b m = bit_ext _ _ λ k. omega (
  arith,
  bit-bit_and k (bit_or a b) m,
  bit-bit_or k a b,
  bit-bit_or k (bit_and a m) (bit_and b m),
  bit-bit_and k a m,
  bit-bit_and k b m,
)

pub bit_and-bit_or : (m a b : ℕ) → bit_and m (bit_or a b) ≡ bit_or (bit_and m a) (bit_and m b)
bit_and-bit_or m a b = bit_ext _ _ λ k. omega (
  arith,
  bit-bit_and k m (bit_or a b),
  bit-bit_or k a b,
  bit-bit_or k (bit_and m a) (bit_and m b),
  bit-bit_and k m a,
  bit-bit_and k m b,
)

pub bit_and_assoc : (a b c : ℕ) → bit_and (bit_and a b) c ≡ bit_and a (bit_and b c)
bit_and_assoc a b c = bit_ext _ _ λ k. omega (
  arith,
  bit-bit_and k (bit_and a b) c,
  bit-bit_and k a b,
  bit-bit_and k a (bit_and b c),
  bit-bit_and k b c,
)

pub bit_or_comm : (a b : ℕ) → bit_or a b ≡ bit_or b a
bit_or_comm a b = bit_ext _ _ λ k. omega (arith, bit-bit_or k a b, bit-bit_or k b a)

-- A mask of `w` ones, `o` places up, cuts a field out.
pub bit_and_field : (o w a : ℕ) → bit_and a ((2 ^ w - 1) * 2 ^ o) ≡ (a / 2 ^ o % 2 ^ w) * 2 ^ o
bit_and_field zero w a =
    let one_place : (2 ^ w - 1) * 2 ^ 0 ≡ 2 ^ w - 1 = omega arith in
    let unshifted : a / 2 ^ 0 ≡ a = omega arith in
    rw (one_place, unshifted) (omega (arith, bit_and_low w a))
bit_and_field (suc o) w a =
    let mask = (2 ^ w - 1) * 2 ^ o in
    let doubled = pow-suc 2 o in
    let twice : (2 ^ w - 1) * 2 ^ suc o ≡ mask * 2 =
      omega (arith, ap (λ (t : ℕ). (2 ^ w - 1) * t) doubled) in
    let half : mask * 2 / 2 ≡ mask = omega arith in
    let shifted : a / 2 ^ suc o ≡ a / 2 / 2 ^ o =
      ap (λ (t : ℕ). a / t) (omega (arith, doubled)) ∙ sym (div-div-eq-div-mul a 2 (2 ^ o)) in
    let f = a / 2 / 2 ^ o % 2 ^ w in
    rw (twice, shifted)
      (omega (
        arith,
        bit_and_step a (mask * 2),
        ap (bit_and (a / 2)) half,
        bit_and_field o w (a / 2),
        ap (λ (t : ℕ). f * t) doubled,
      ))

le-bit_or_below : (n f g : ℕ) → g ≤ n → g ≤ bit_or f g
le-bit_or_below zero f g h = omega arith
le-bit_or_below (suc n) f g h =
    omega (arith, bit_or_step f g, le-bit_or_below n (f / 2) (g / 2) (omega arith))

pub le-bit_or : (f g : ℕ) → g ≤ bit_or f g
le-bit_or f g = le-bit_or_below g f g (omega arith)

pub bit_and_self : (g : ℕ) → bit_and g g ≡ g
bit_and_self g = bit_ext _ _ λ k. omega (arith, bit-bit_and k g g)

-- Setting flags: those that are set are there, and no others are touched.
pub has-or_self : (f g : ℕ) → g ≢ 0 → has (bit_or f g) g ≡ true
has-or_self f g h =
    let found = bit_and_or f g g in
    let self = bit_and_self g in let above = le-bit_or (bit_and f g) (bit_and g g) in ground arith

pub has-or_other : (f g m : ℕ) → bit_and g m ≡ 0 → has (bit_or f g) m ≡ has f m
has-or_other f g m h =
    let found : bit_and (bit_or f g) m ≡ bit_and f m =
      bit_and_or f g m ∙ rw (h, bit_or_comm) (zero-bit_or _) in
    rw found
