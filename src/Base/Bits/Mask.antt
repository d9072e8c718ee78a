-- ===== src/Base/Bits/Mask.antt =====
-- `bitmask_all` where flags are added.
use Prim.Native.Nat.{ℕ, zero, suc, ◌/◌, ◌≤◌, bit_and, bit_or}
use mathlib.Core.Path.{◌≡◌, sym, ap, ◌∙◌}
use mathlib.Core.Bool.{true}
use native.Mathlib.Omega.{arith}
use cpuinfo.Base.Tests.{◌==◌, ==_iff}
use cpuinfo.Base.Words.{bitmask_all}
use cpuinfo.Base.Bits.Step.{bit_and_step}
use cpuinfo.Base.Bits.Digit.{bit_ext, bit-bit_and, bit-bit_or, zero-bit_or, zero-bit_and}
use cpuinfo.Base.Bits.Field.{bit_and_or, bit_or_comm, bit_and_assoc}

bit_or_absorb : (f m : ℕ) → bit_or (bit_and f m) m ≡ m
bit_or_absorb f m = bit_ext _ _ λ k. omega (arith, bit-bit_or k (bit_and f m) m, bit-bit_and k f m)

bit_and_idem : (m : ℕ) → bit_and m m ≡ m
bit_and_idem m = bit_ext _ _ λ k. omega (arith, bit-bit_and k m m)

pub bitmask_all-or_self : (f m : ℕ) → bitmask_all (bit_or f m) m ≡ true
bitmask_all-or_self f m =
    (==_iff _ _).1 (
      bit_and_or f m m
      ∙ ap (λ (t : ℕ). bit_or (bit_and f m) t) (bit_and_idem m)
      ∙ bit_or_absorb f m)

-- A mask that is there stays there.
pub bitmask_all-or_mono : (f g m : ℕ) → bitmask_all f m ≡ true → bitmask_all (bit_or f g) m ≡ true
bitmask_all-or_mono f g m h = (==_iff _ _).1 (
    bit_and_or f g m
    ∙ ap (λ (t : ℕ). bit_or t (bit_and g m)) ((==_iff _ _).0 h)
    ∙ bit_or_comm m (bit_and g m)
    ∙ bit_or_absorb g m)

-- Flags outside of the mask do not matter.
pub bitmask_all-or_other :
    (f g m : ℕ) → bit_and g m ≡ 0 → bitmask_all (bit_or f g) m ≡ bitmask_all f m
bitmask_all-or_other f g m h =
    ap (λ (t : ℕ). t == m)
      (bit_and_or f g m
        ∙ ap (λ (t : ℕ). bit_or (bit_and f m) t) h
        ∙ bit_or_comm (bit_and f m) 0
        ∙ zero-bit_or (bit_and f m))

-- A mask that is there has its parts there.
pub bitmask_all_part :
    (f whole part : ℕ)
    → bit_and whole part ≡ part
    → bitmask_all f whole ≡ true
    → bitmask_all f part ≡ true
bitmask_all_part f whole part within h = (==_iff _ _).1 (
    ap (λ (t : ℕ). bit_and f t) (sym within)
    ∙ sym (bit_and_assoc f whole part)
    ∙ ap (λ (t : ℕ). bit_and t part) ((==_iff _ _).0 h)
    ∙ within)

bit_and-le_below : (fuel x m : ℕ) → x ≤ fuel → bit_and x m ≤ x
bit_and-le_below fuel zero m h = omega (arith, zero-bit_and m)
bit_and-le_below zero (suc x) m h = absurd (omega arith)
bit_and-le_below (suc fuel) (suc x) m h =
    omega (arith, bit_and_step (suc x) m, bit_and-le_below fuel (suc x / 2) (m / 2))

pub bit_and-le : (x m : ℕ) → bit_and x m ≤ x
bit_and-le x m = bit_and-le_below x x m (omega arith)
