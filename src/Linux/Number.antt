-- ===== src/Linux/Number.antt =====
-- Decimal numbers and blanks in the text of the kernel's files: `parse_number` and `is_whitespace`,
-- which src/linux/cpulist.c and src/linux/processors.c both have. The two copies of `parse_number`
-- widen a `char` differently.
pub mod Digits
pub mod Print
pub use cpuinfo.Base.{u32}
use cpuinfo.Base.{
  ℕ, ◌+◌, ◌-◌, ◌*◌, ◌%◌, ◌^◌, Bool, true, false, ◌||◌, [], ◌∷◌, Bytes, ltb, leb, ◌==◌,
  if◌then◌else◌,
}

unfoldable pub is_whitespace : ℕ → Bool
is_whitespace c = c == b' ' || c == b'\t' || c == b'\n' || c == b'\r'

-- `(uint32_t) c` for a `char` that is signed.
abbrev pub widen_signed : ℕ → ℕ
widen_signed c = if ltb c 128 then c else c + 2 ^ 32 - 256

-- `(uint32_t) (uint8_t) c`.
abbrev pub widen_unsigned : ℕ → ℕ
widen_unsigned c = c

-- The loop, over `widen`: the number read so far is `number`, and what is returned is the number and
-- the text that it stopped at. Numbers are uint32_t, and wrap around.
pub parse_number_from : (ℕ → ℕ) → ℕ → Bytes → ℕ × Bytes
parse_number_from widen number [] = (number, [])
parse_number_from widen number (c ∷ rest) =
    let digit = u32 (widen c + 2 ^ 32 - b'0') in
    elim (leb 10 digit) [
      | true ↦ (number, c ∷ rest)
      | false ↦ parse_number_from widen (u32 (number * 10 + digit)) rest
    ]

unfoldable pub parse_number : (ℕ → ℕ) → Bytes → ℕ × Bytes
unfolding parse_number_from
parse_number widen text = parse_number_from widen 0 text
