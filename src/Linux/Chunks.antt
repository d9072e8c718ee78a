-- ===== src/Linux/Chunks.antt =====
-- The reading loop that src/linux/cpulist.c and src/linux/multiline.c share: read into a buffer
-- of fixed capacity behind the piece that is not finished, hand every finished piece to a
-- handler, and move the unfinished rest to the front. The pieces end at a separator, which is
-- a comma in one file and a newline in the other.
pub mod Pieces
pub mod Reads
use cpuinfo.Base.{ℕ, zero, suc, ◌-◌, Bool, true, false, List, [], ◌∷◌, ◌++◌, Bytes, length, ◌==◌}
use cpuinfo.Linux.File.{FileSystem, ReadResult, read_error, bytes_read}

-- What a handler asks for: go on with the loop, or leave it (`goto cleanup`).
pub data Flow (S : Type 0) : Type 0 where
  go_on : S → Flow S
  leave : S → Flow S

-- How the scan of one buffer ends: with an unfinished piece, or because the handler left.
pub data Drained (S : Type 0) : Type 0 where
  unfinished : Bytes → S → Drained S
  left_early : S → Drained S

-- How the whole loop ends.
pub data Outcome (S : Type 0) : Type 0 where
  finished : S → Outcome S
  aborted : S → Outcome S
  read_failed : S → Outcome S
  out_of_fuel : Outcome S

abbrev pub at_end : {S : Type 0} → Flow S → Outcome S
at_end (go_on s) = finished s
at_end (leave s) = aborted s

module _ {S : Type 0} (sep : ℕ) (handle : Bytes → S → Flow S) where
  -- The inner loops: `cur` is the text from `entry_start` to `entry_end`, the list is the text
  -- from `entry_end` to `data_end`.
  pub drain : Bytes → Bytes → S → Drained S
  drain [] cur s = unfinished cur s
  drain (c ∷ rest) cur s = elim (c == sep) [
    | true ↦ elim (handle cur s) [ go_on s' ↦ drain rest [] s' | leave s' ↦ left_early s' ]
    | false ↦ drain rest (cur ++ c ∷ []) s
  ]

module _ (fs : FileSystem) {S : Type 0} (sep : ℕ) (capacity : ℕ) (handle : Bytes → S → Flow S) where
  open fs use {File, read}

  -- The outer loop with `pending` in the buffer. Every round that does not end the loop reads at
  -- least one byte, so that more fuel than there are bytes left is enough.
  pub read_loop : ℕ → File → Bytes → S → Outcome S
  read_loop zero f pending s = out_of_fuel
  read_loop (suc fuel) f pending s = elim (read f (capacity - length pending)) [
    | read_error g ↦ read_failed s
    | bytes_read [] g ↦ at_end (handle pending s)
    | bytes_read (b ∷ bs) g ↦ elim (drain sep handle (pending ++ b ∷ bs) [] s) [
      | unfinished cur s' ↦ read_loop fuel g cur s'
      | left_early s' ↦ aborted s'
    ]
  ]
