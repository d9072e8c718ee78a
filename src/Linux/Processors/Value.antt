-- ===== src/Linux/Processors/Value.antt =====
-- The functions of src/linux/processors.c that read one number from a file of the kernel.
pub mod Reads
pub mod Contents
use cpuinfo.Base.{
  ℕ, ◌+◌, Bool, true, false, Option, none, some, [], ◌∷◌, Bytes, length, ◌==◌, if◌then◌else◌,
}
use cpuinfo.Linux.File.{FileSystem}
use cpuinfo.Linux.Number.{u32, widen_unsigned, parse_number}
use cpuinfo.Linux.SmallFile.{parse_small_file}
use cpuinfo.Linux.Processors.Filename.{
  kernel_max_filename, max_frequency_suffix, min_frequency_suffix, package_id_suffix,
  core_id_suffix, format_filename,
}

-- `KERNEL_MAX_FILESIZE`, `FREQUENCY_FILESIZE`, `PACKAGE_ID_FILESIZE` and `CORE_ID_FILESIZE`.
abbrev pub value_filesize : ℕ
value_filesize = 32

-- The state behind `context` is the number. What follows the number in the file is only logged.
unfoldable pub uint32_parser : Bytes → ℕ → ℕ × Bool
uint32_parser [] context = (context, false)
uint32_parser (c ∷ text) context =
    let (kernel_max, parsed_end) = parse_number widen_unsigned (c ∷ text) in
    if length parsed_end == length (c ∷ text) then (context, false) else (kernel_max, true)

-- The number in a file, where there is one; the outer `none` stands for fuel that was too little.
-- The number that the callers pass to hold the result is not set before.
unfoldable pub parsed_value : Option (ℕ × Bool) → Option (Option ℕ)
parsed_value none = none
parsed_value (some (value, true)) = some (some value)
parsed_value (some (value, false)) = some none

module _ (fs : FileSystem) (fuel : ℕ) where
  unfoldable pub read_value : Bytes → Option (Option ℕ)
  read_value name = parsed_value (parse_small_file fs fuel name value_filesize uint32_parser 0)

  unfoldable pub read_value_of : Option Bytes → Option (Option ℕ)
  read_value_of none = some none
  read_value_of (some name) = read_value name

  -- `default_max_processors_count` is CPU_SETSIZE of the C library.
  unfoldable pub get_max_processors_count : ℕ → Option ℕ
  get_max_processors_count default_max_processors_count = elim (read_value kernel_max_filename) [
    | none ↦ none
    | some none ↦ some default_max_processors_count
    | some (some kernel_max) ↦ some (u32 (kernel_max + 1))
  ]

  -- The two frequencies are 0 where they are not known.
  or_zero : Option (Option ℕ) → Option ℕ
  or_zero none = none
  or_zero (some none) = some 0
  or_zero (some (some value)) = some value

  unfoldable pub get_processor_max_frequency : ℕ → Option ℕ
  unfolding or_zero
  get_processor_max_frequency processor =
      or_zero (read_value_of (format_filename max_frequency_suffix processor))

  unfoldable pub get_processor_min_frequency : ℕ → Option ℕ
  unfolding or_zero
  get_processor_min_frequency processor =
      or_zero (read_value_of (format_filename min_frequency_suffix processor))

  -- The two IDs are left as they are where they are not known, and false is returned.
  or_kept : Option (Option ℕ) → ℕ → Option (ℕ × Bool)
  or_kept none id = none
  or_kept (some none) id = some (id, false)
  or_kept (some (some value)) id = some (value, true)

  unfoldable pub get_processor_core_id : ℕ → ℕ → Option (ℕ × Bool)
  unfolding or_kept
  get_processor_core_id processor core_id =
      or_kept (read_value_of (format_filename core_id_suffix processor)) core_id

  unfoldable pub get_processor_package_id : ℕ → ℕ → Option (ℕ × Bool)
  unfolding or_kept
  get_processor_package_id processor package_id =
      or_kept (read_value_of (format_filename package_id_suffix processor)) package_id
