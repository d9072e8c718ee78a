-- ===== src/X86/BitLength.antt =====
-- `bit_length` of src/cpuinfo/utils.h: how many bits tell `n` things apart.
pub mod Least
use cpuinfo.Base.{ℕ, zero, suc, ◌+◌, ◌-◌, ◌/◌, ◌^◌, ◌==◌, if◌then◌else◌, u32}

-- `32 - __builtin_clz(n)` for a uint32_t that is not 0, with the number of binary digits as fuel.
unfoldable pub binary_length : ℕ → ℕ → ℕ
binary_length zero n = 0
binary_length (suc k) n = let rest = binary_length k (n / 2) in if n == 0 then 0 else rest + 1

unfoldable pub bit_length : ℕ → ℕ
bit_length n =
    let n_minus_1 = u32 (n + 2 ^ 32 - 1) in if n_minus_1 == 0 then 0 else binary_length 32 n_minus_1
