-- ===== src/Linux/Processors/Value/Reads.antt =====
-- What the functions return for a file that holds a printed number.
use cpuinfo.Base.{
  ℕ, ◌+◌, ◌≤◌, ◌<◌, ◌^◌, true, false, some, [], ◌∷◌, ◌++◌, append-nil, Bytes, length, length-append,
  length-ne-nil, ◌==◌, ◌≡◌, ap, ◌∙◌, arith,
}
use cpuinfo.Linux.File.{FileSystem, ReadsSucceed}
use cpuinfo.Linux.Number.{u32, widen_unsigned, parse_number}
use cpuinfo.Linux.Number.Digits.{widen_unsigned-Widens}
use cpuinfo.Linux.Number.Print.{decimal, decimal-IsDecimal, parse_number-decimal}
use cpuinfo.Linux.SmallFile.{parse_small_file}
use cpuinfo.Linux.SmallFile.Fits.{parse_small_file-by_length, by_length_short}
use cpuinfo.Linux.Processors.Filename.{
  kernel_max_filename, max_frequency_suffix, min_frequency_suffix, package_id_suffix,
  core_id_suffix, filename, format_filename, format_filename-fits,
}
use cpuinfo.Linux.Processors.Value.{
  value_filesize, parsed_value, uint32_parser, read_value, read_value_of, get_max_processors_count,
  get_processor_max_frequency, get_processor_min_frequency, get_processor_core_id,
  get_processor_package_id,
}

-- A file as the kernel writes a number: in decimal, and a newline.
abbrev pub value_text : ℕ → Bytes
value_text v = decimal v ++ b'\n' ∷ []

uint32_parser-cons :
    (text : Bytes) (v : ℕ) (rest : Bytes) (context : ℕ)
    → length rest < length text
    → parse_number widen_unsigned text ≡ (v, rest)
    → uint32_parser text context ≡ (v, true)
unfolding uint32_parser
uint32_parser-cons [] v rest context h e = absurd (omega arith)
uint32_parser-cons (c ∷ text) v rest context h e =
    let moved : (length rest == length (c ∷ text)) ≡ false = ground arith in
    rw (uint32_parser, e, moved)

some_length : (v : ℕ) → v < 2 ^ 32 → 1 < length (value_text v)
some_length v fits =
    let d = decimal-IsDecimal v fits in
    let size = length-append (decimal v) (b'\n' ∷ []) in
    let some_digits : 0 < length (decimal v) =
      rw (d.before ∙ append-nil d.digits) (length-ne-nil d.digits d.some_digit) in
    omega arith

-- What is assumed of a file that holds a number.
pub record HoldsValue (fs : FileSystem) (fuel : ℕ) (name : Bytes) (v : ℕ) : Type 0 where
  pub file : fs.File
  pub opened : fs.open_file name ≡ some file
  pub text : fs.contents file ≡ value_text v
  pub enough : length (fs.contents file) < fuel
  pub fits : v < 2 ^ 32

module _ (fs : FileSystem) (reads : ReadsSucceed fs) (fuel : ℕ) where
  read_value-HoldsValue :
      (name : Bytes) (v : ℕ) → HoldsValue fs fuel name v → read_value fs fuel name ≡ some (some v)
  unfolding read_value parsed_value
  read_value-HoldsValue name v h =
      let d = decimal-IsDecimal v h.fits in
      let few : length (decimal v) ≤ 10 = rw (d.before ∙ append-nil d.digits) d.few in
      let size = length-append (decimal v) (b'\n' ∷ []) in
      let small : length (value_text v) < value_filesize = omega arith in
      let parses : uint32_parser (value_text v) 0 ≡ (v, true) =
        uint32_parser-cons (value_text v) v (b'\n' ∷ []) 0 (some_length v h.fits)
          (parse_number-decimal widen_unsigned-Widens v (b'\n' ∷ []) h.fits (omega arith)) in
      let whole : parse_small_file fs fuel name value_filesize uint32_parser 0 ≡ some (v, true) =
        parse_small_file-by_length fs value_filesize uint32_parser 0 reads fuel name h.file h.opened
          h.enough
        ∙ rw h.text (
            by_length_short fs value_filesize uint32_parser 0 (value_text v) small
            ∙ ap some parses) in
      ap parsed_value whole

  -- Where no read fails and the kernel's file holds its highest processor number, the number of
  -- processors is one more, in uint32_t; the platform's default is not used.
  pub get_max_processors_count-value_text :
      (v : ℕ)
      → HoldsValue fs fuel kernel_max_filename v
      → (default_count : ℕ) → get_max_processors_count fs fuel default_count ≡ some (u32 (v + 1))
  unfolding get_max_processors_count
  get_max_processors_count-value_text v h default_count =
      rw (get_max_processors_count, read_value-HoldsValue kernel_max_filename v h)

  read_value_of-HoldsValue :
      (processor : ℕ)
      → processor < 2 ^ 32
      → (suffix : Bytes) (v : ℕ) → HoldsValue fs fuel (filename suffix processor) v
      → read_value_of fs fuel (format_filename suffix processor) ≡ some (some v)
  unfolding read_value_of
  read_value_of-HoldsValue processor small suffix v h =
      ap (read_value_of fs fuel) (format_filename-fits suffix processor small)
      ∙ read_value-HoldsValue (filename suffix processor) v h

  -- Where no read fails and the kernel's files of a processor hold printed numbers, the four
  -- functions return these numbers, and those for the IDs also return true.
  pub processor_values-value_text :
      (processor : ℕ)
      → processor < 2 ^ 32
      → (max_khz min_khz core package_id : ℕ)
      → HoldsValue fs fuel (filename max_frequency_suffix processor) max_khz
      → HoldsValue fs fuel (filename min_frequency_suffix processor) min_khz
      → HoldsValue fs fuel (filename core_id_suffix processor) core
      → HoldsValue fs fuel (filename package_id_suffix processor) package_id
      → (old : ℕ)
      → (get_processor_max_frequency fs fuel processor ≡ some max_khz)
        × (get_processor_min_frequency fs fuel processor ≡ some min_khz)
        × (get_processor_core_id fs fuel processor old ≡ some (core, true))
        × (get_processor_package_id fs fuel processor old ≡ some (package_id, true))
  unfolding get_processor_max_frequency get_processor_min_frequency get_processor_core_id
      get_processor_package_id
  processor_values-value_text processor small a b c d ha hb hc hd old = (
    rw (read_value_of-HoldsValue processor small max_frequency_suffix a ha),
    rw (read_value_of-HoldsValue processor small min_frequency_suffix b hb),
    rw (read_value_of-HoldsValue processor small core_id_suffix c hc),
    rw (read_value_of-HoldsValue processor small package_id_suffix d hd),
  )
