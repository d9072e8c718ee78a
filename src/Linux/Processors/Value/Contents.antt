-- ===== src/Linux/Processors/Value/Contents.antt =====
-- What the functions return for every content of the files, and for files that are not there.
use cpuinfo.Base.{
  ℕ, ◌+◌, ◌<◌, ◌^◌, Bool, true, false, Option, none, some, [], ◌∷◌, ◌++◌, Bytes, length,
  length-append, All, ◌==◌, ◌&&◌, ltb, leb, if◌then◌else◌, ◌≡◌, refl, sym, ap, ◌∙◌, arith,
  Bool-cases, inl, inr,
}
use cpuinfo.Linux.File.{FileSystem, ReadsSucceed}
use cpuinfo.Linux.Number.{u32, widen_unsigned, parse_number}
use cpuinfo.Linux.Number.Digits.{
  widen_unsigned-Widens, IsDigit, NoDigit, value, parse_number_digits,
}
use cpuinfo.Linux.SmallFile.{parse_small_file}
use cpuinfo.Linux.SmallFile.Fits.{parse_small_file-by_length, by_length}
use cpuinfo.Linux.Processors.Filename.{
  kernel_max_filename, max_frequency_suffix, min_frequency_suffix, package_id_suffix,
  core_id_suffix, filename, format_filename, format_filename-fits,
}
use cpuinfo.Linux.Processors.Value.{
  value_filesize, parsed_value, uint32_parser, read_value, read_value_of, get_max_processors_count,
  get_processor_max_frequency, get_processor_min_frequency, get_processor_core_id,
  get_processor_package_id,
}

abbrev pub is_digit : ℕ → Bool
is_digit c = leb b'0' c && leb c b'9'

-- The digits that a text begins with, and the text behind them.
abbrev pub leading : Bytes → Bytes
leading [] = []
leading (c ∷ cs) = let more = leading cs in if is_digit c then c ∷ more else []

abbrev behind : Bytes → Bytes
behind [] = []
behind (c ∷ cs) = let more = behind cs in if is_digit c then more else c ∷ cs

leading-behind :
    (text : Bytes)
    → All (λ c. c < 256) text
    → (leading text ++ behind text ≡ text) × All IsDigit (leading text) × NoDigit (behind text)
leading-behind [] _ = (refl, tt, tt)
leading-behind (c ∷ cs) (byte, bytes) =
    let (whole, digits, stops) = leading-behind cs bytes in
    elim (Bool-cases (is_digit c)) [
      | inl e ↦
          let digit : IsDigit c = (ground arith, ground arith) in
          rw e (ap (λ (l : Bytes). c ∷ l) whole, (digit, digits), stops)
      | inr e ↦ rw e (refl, tt, ((λ digit. ground arith), byte))
    ]

-- The number of a text: that of its leading digits, modulo 2 ^ 32, if there are any.
abbrev spelled : Bytes → Option ℕ
spelled [] = none
spelled (d ∷ ds) = some (u32 (value (d ∷ ds)))

-- The number in a file: one that is there, shorter than 32 bytes, and begins with a digit.
abbrev pub number_in : Option Bytes → Option ℕ
number_in none = none
number_in (some text) = if ltb (length text) 32 then spelled (leading text) else none

-- A file with a text of bytes and fewer of them than the fuel, or none.
abbrev pub Holds : FileSystem → ℕ → Bytes → Option Bytes → Type 0
Holds fs fuel name none = fs.open_file name ≡ none
Holds fs fuel name (some text) =
    (file : fs.File) × (fs.open_file name ≡ some file)
    × (fs.contents file ≡ text)
    × (length text < fuel)
    × All (λ c. c < 256) text

-- What the callback reports of a text that splits into digits and a rest.
split_text :
    (text ds rest : Bytes)
    → ds ++ rest ≡ text
    → All IsDigit ds
    → NoDigit rest
    → parsed_value (some (uint32_parser text 0)) ≡ some (spelled ds)
unfolding uint32_parser parsed_value
split_text [] [] rest e digits stops = refl
split_text [] (d ∷ ds) rest e digits stops = absurd (omega (arith, ap length e))
split_text (c ∷ text) [] rest e digits stops =
    let read : parse_number widen_unsigned (c ∷ text) ≡ (0, rest) =
      ap (parse_number widen_unsigned) (sym e)
      ∙ parse_number_digits widen_unsigned-Widens [] rest digits stops in
    let all_left : (length rest == length (c ∷ text)) ≡ true = ground (arith, ap length e) in
    rw (uint32_parser, read, all_left) refl
split_text (c ∷ text) (d ∷ ds) rest e digits stops =
    let read : parse_number widen_unsigned (c ∷ text) ≡ (u32 (value (d ∷ ds)), rest) =
      ap (parse_number widen_unsigned) (sym e)
      ∙ parse_number_digits widen_unsigned-Widens (d ∷ ds) rest digits stops in
    let moved : (length rest == length (c ∷ text)) ≡ false =
      ground (arith, ap length e, length-append (d ∷ ds) rest) in
    rw (uint32_parser, read, moved) refl

module _ (fs : FileSystem) (reads : ReadsSucceed fs) (fuel : ℕ) where
  read_value-number_in :
      (name : Bytes) (text : Option Bytes)
      → Holds fs fuel name text
      → read_value fs fuel name ≡ some (number_in text)
  unfolding read_value parsed_value parse_small_file
  read_value-number_in name none h = rw h
  read_value-number_in name (some text) (file, opened, same, enough, bytes) =
      let short : length (fs.contents file) < fuel = omega (arith, ap length same) in
      let whole =
        parse_small_file-by_length fs value_filesize uint32_parser 0 reads fuel name file opened
          short
        ∙ ap (by_length fs value_filesize uint32_parser 0) same in
      let (parts, digits, stops) = leading-behind text bytes in
      ap parsed_value whole ∙ elim (Bool-cases (ltb (length text) 32)) [
        | inl fits ↦ rw fits (split_text text (leading text) (behind text) parts digits stops)
        | inr long ↦ rw long refl
      ]

  read_value_of-number_in :
      (processor : ℕ)
      → processor < 2 ^ 32
      → (suffix : Bytes) (text : Option Bytes) → Holds fs fuel (filename suffix processor) text
      → read_value_of fs fuel (format_filename suffix processor) ≡ some (number_in text)
  unfolding read_value_of
  read_value_of-number_in processor small suffix text h =
      ap (read_value_of fs fuel) (format_filename-fits suffix processor small)
      ∙ read_value-number_in (filename suffix processor) text h

-- One more than the highest number, or the default; 0 where no frequency is there; and an ID with true,
-- or the one before with false.
abbrev pub one_more_or : ℕ → Option ℕ → ℕ
one_more_or default_count none = default_count
one_more_or default_count (some v) = u32 (v + 1)

abbrev pub number_or_zero : Option ℕ → ℕ
number_or_zero none = 0
number_or_zero (some v) = v

abbrev pub number_or_old : ℕ → Option ℕ → ℕ × Bool
number_or_old old none = (old, false)
number_or_old old (some v) = (v, true)

module _ (fs : FileSystem) (fuel : ℕ) where
  count_lem :
      (o : Option ℕ) (default_count : ℕ)
      → read_value fs fuel kernel_max_filename ≡ some o
      → get_max_processors_count fs fuel default_count ≡ some (one_more_or default_count o)
  unfolding get_max_processors_count
  count_lem none default_count h = rw (get_max_processors_count, h)
  count_lem (some v) default_count h = rw (get_max_processors_count, h)

  frequency_lem :
      (processor : ℕ) (o : Option ℕ)
      → (read_value_of fs fuel (format_filename max_frequency_suffix processor) ≡ some o
          → get_processor_max_frequency fs fuel processor ≡ some (number_or_zero o))
        × (read_value_of fs fuel (format_filename min_frequency_suffix processor) ≡ some o
            → get_processor_min_frequency fs fuel processor ≡ some (number_or_zero o))
  unfolding get_processor_max_frequency get_processor_min_frequency
  frequency_lem processor none = ((λ h. rw h), (λ h. rw h))
  frequency_lem processor (some v) = ((λ h. rw h), (λ h. rw h))

  id_lem :
      (processor : ℕ) (o : Option ℕ) (old : ℕ)
      → (read_value_of fs fuel (format_filename core_id_suffix processor) ≡ some o
          → get_processor_core_id fs fuel processor old ≡ some (number_or_old old o))
        × (read_value_of fs fuel (format_filename package_id_suffix processor) ≡ some o
            → get_processor_package_id fs fuel processor old ≡ some (number_or_old old o))
  unfolding get_processor_core_id get_processor_package_id
  id_lem processor none old = ((λ h. rw h), (λ h. rw h))
  id_lem processor (some v) old = ((λ h. rw h), (λ h. rw h))

-- Where no read fails, for a uint32_t processor, whatever the five files hold, in bytes and fewer of
-- them than the fuel, and whether they are there or not: a file counts if it is there, is shorter than
-- 32 bytes and begins with a digit, and its number is that of its leading digits modulo 2 ^ 32. The
-- number of processors is one more than the kernel's, in uint32_t, or the platform's default where that
-- file does not count; a frequency is the number of its file, or 0; and an ID is the number of its file,
-- with true, or is left as it was, with false.
pub values-number_in :
    (fs : FileSystem) (fuel processor : ℕ)
    → ReadsSucceed fs
    → processor < 2 ^ 32
    → (highest max_khz min_khz core package_id : Option Bytes)
    → Holds fs fuel kernel_max_filename highest
    → Holds fs fuel (filename max_frequency_suffix processor) max_khz
    → Holds fs fuel (filename min_frequency_suffix processor) min_khz
    → Holds fs fuel (filename core_id_suffix processor) core
    → Holds fs fuel (filename package_id_suffix processor) package_id
    → (default_count old : ℕ)
    → (get_max_processors_count fs fuel default_count
        ≡ some (one_more_or default_count (number_in highest)))
      × (get_processor_max_frequency fs fuel processor ≡ some (number_or_zero (number_in max_khz)))
      × (get_processor_min_frequency fs fuel processor ≡ some (number_or_zero (number_in min_khz)))
      × (get_processor_core_id fs fuel processor old ≡ some (number_or_old old (number_in core)))
      × (get_processor_package_id fs fuel processor old
          ≡ some (number_or_old old (number_in package_id)))
values-number_in fs fuel processor reads small highest max_khz min_khz core package_id hk ha hb hc
      hd default_count old =
    let of = read_value_of-number_in fs reads fuel processor small in
    (
      count_lem fs fuel (number_in highest) default_count
          (read_value-number_in fs reads fuel kernel_max_filename highest hk),
      (frequency_lem fs fuel processor (number_in max_khz)).0 (of max_frequency_suffix max_khz ha),
      (frequency_lem fs fuel processor (number_in min_khz)).1 (of min_frequency_suffix min_khz hb),
      (id_lem fs fuel processor (number_in core) old).0 (of core_id_suffix core hc),
      (id_lem fs fuel processor (number_in package_id) old).1 (of package_id_suffix package_id hd),
    )
