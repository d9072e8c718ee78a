-- ===== src/Base/Words.antt =====
-- uint32_t as native numbers, and C's `switch` over such.
use Prim.Native.Nat.{ℕ, ◌-◌, ◌*◌, ◌/◌, ◌%◌, ◌^◌, bit_and}
use mathlib.Core.Bool.{Bool, false, not, ◌||◌}
use mathlib.Core.List.{List, [], ◌∷◌}
use cpuinfo.Base.Tests.{◌==◌}

abbrev pub u32 : ℕ → ℕ
u32 n = n % 2 ^ 32

-- `UINT32_MAX`.
abbrev pub uint32_max : ℕ
uint32_max = 2 ^ 32 - 1

-- `~x` and `x << k`.
abbrev pub not32 : ℕ → ℕ
not32 x = 2 ^ 32 - 1 - x

infixl 75 ◌<<<◌ ◌>>>◌
abbrev pub ◌<<<◌ : ℕ → ℕ → ℕ
x <<< k = u32 (x * 2 ^ k)

abbrev pub ◌>>>◌ : ℕ → ℕ → ℕ
x >>> k = x / 2 ^ k

-- `flags & mask` as a condition, and `bitmask_all`.
abbrev pub has : ℕ → ℕ → Bool
has flags mask = not (bit_and flags mask == 0)

abbrev pub bitmask_all : ℕ → ℕ → Bool
bitmask_all bitfield mask = bit_and bitfield mask == mask

-- The labels of a case.
abbrev pub is_one_of : ℕ → List ℕ → Bool
is_one_of x [] = false
is_one_of x (y ∷ ys) = x == y || is_one_of x ys
