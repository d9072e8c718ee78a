-- ===== src/Linux/SmallFile.antt =====
-- src/linux/smallfile.c: a file that has to fit a buffer, as a whole.
pub mod Fits
use cpuinfo.Base.{
  ℕ, zero, suc, ◌-◌, Bool, true, false, Option, none, some, [], ◌∷◌, ◌++◌, Bytes, length, leb,
  if◌then◌else◌,
}
use cpuinfo.Linux.File.{FileSystem, ReadResult, read_error, bytes_read}

module _ (fs : FileSystem) {S : Type 0} (buffer_size : ℕ) (callback : Bytes → S → S × Bool) where
  open fs use {File, open_file, read}

  -- The loop, with the text that is in the buffer, and the call behind it. `none` stands for fuel
  -- that was too little.
  pub fill_buffer : ℕ → File → Bytes → S → Option (S × Bool)
  fill_buffer zero file buffer context = none
  fill_buffer (suc fuel) file buffer context = elim (read file (buffer_size - length buffer)) [
    | read_error file' ↦ some (context, false)
    | bytes_read bs file' ↦ elim (leb buffer_size (length (buffer ++ bs))) [
      | true ↦ some (context, false)
      | false ↦ elim bs [
        | [] ↦ some (callback (buffer ++ []) context)
        | b ∷ rest ↦ fill_buffer fuel file' (buffer ++ b ∷ rest) context
      ]
    ]
  ]

  unfoldable pub parse_opened_small_file : ℕ → Option File → S → Option (S × Bool)
  unfolding fill_buffer
  parse_opened_small_file fuel none context = some (context, false)
  parse_opened_small_file fuel (some file) context = fill_buffer fuel file [] context

-- `cpuinfo_linux_parse_small_file`, with fuel for its loop.
unfoldable pub parse_small_file :
    (fs : FileSystem) {S : Type 0} → ℕ → Bytes → ℕ → (Bytes → S → S × Bool) → S → Option (S × Bool)
unfolding parse_opened_small_file
parse_small_file fs fuel filename buffer_size callback context =
    parse_opened_small_file fs buffer_size callback fuel (fs.open_file filename) context
