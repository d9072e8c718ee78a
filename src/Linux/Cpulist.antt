-- ===== src/Linux/Cpulist.antt =====
-- src/linux/cpulist.c: lists of processor ranges, such as `0-3,8`, as the kernel writes them.
pub mod Entry
pub mod Text
use cpuinfo.Base.{
  ℕ, ◌+◌, Bool, true, false, not, ◌&&◌, Option, none, some, List, [], ◌∷◌, reverse, Bytes, length,
  ltb, ◌==◌, if◌then◌else◌,
}
use cpuinfo.Linux.File.{FileSystem}
use cpuinfo.Linux.Chunks.{
  Flow, go_on, Outcome, finished, aborted, read_failed, out_of_fuel, read_loop,
}
use cpuinfo.Linux.Number.{u32, is_whitespace, widen_signed, parse_number}

-- `BUFFER_SIZE`
abbrev pub buffer_size : ℕ
buffer_size = 256

-- The two loops that move `entry_start` forward and `entry_end` back over blanks.
pub skip_whitespace : Bytes → Bytes
skip_whitespace [] = []
skip_whitespace (c ∷ rest) = if is_whitespace c then skip_whitespace rest else c ∷ rest

unfoldable pub trim : Bytes → Bytes
unfolding skip_whitespace
trim entry = reverse (skip_whitespace (reverse (skip_whitespace entry)))

-- The part of `parse_entry` behind the first number, at `number_end`: `entry_end` is where the list
-- ends. Two pointers into the entry are equal if as much text stands behind them.
unfoldable pub parse_second : ℕ → Bytes → Option (ℕ × ℕ)
parse_second first_cpu [] = some (first_cpu, u32 (first_cpu + 1))
parse_second first_cpu (c ∷ number_start) =
    if not (c == b'-')
    then none
    else let (last_cpu, number_end) = parse_number widen_signed number_start in
      if length number_end == length number_start
      then none
      else if ltb last_cpu first_cpu
      then none
      else some (first_cpu, u32 (last_cpu + 1))

-- The range that an entry without the blanks round it stands for, as `parse_entry` gives it to its
-- callback; `none` where it returns false with no callback.
unfoldable pub parse_range : Bytes → Option (ℕ × ℕ)
parse_range entry =
    let (first_cpu, number_end) = parse_number widen_signed entry in
    if length entry == 0
    then none
    else if length number_end == length entry
    then none
    else parse_second first_cpu number_end

-- The state behind `context` at the end, and the status that is returned. A failed read returns
-- false; `none` stands for fuel that was too little.
pub close : {S : Type 0} → Outcome (S × Bool) → Option (S × Bool)
close (finished r) = some r
close (aborted r) = some r
close (read_failed (context, status)) = some (context, false)
close out_of_fuel = none

module _ {S : Type 0} (callback : ℕ → ℕ → S → S × Bool) where
  -- `cpuinfo_cpulist_callback` returns its status, and changes the state behind `context`.
  unfoldable pub call : Option (ℕ × ℕ) → S → S × Bool
  call none context = (context, false)
  call (some (list_start, list_end)) context = callback list_start list_end context

  unfoldable pub parse_entry : Bytes → S → S × Bool
  unfolding call trim parse_range
  parse_entry entry context = call (parse_range (trim entry)) context

  -- `status &= entry_status` behind every entry.
  unfoldable pub handle_entry : Bytes → S × Bool → Flow (S × Bool)
  unfolding parse_entry
  handle_entry entry (context, status) =
      let (context', entry_status) = parse_entry entry context in
      go_on (context', status && entry_status)

unfoldable pub parse_opened_cpulist :
    (fs : FileSystem) {S : Type 0}
    → ℕ
    → Option (fs.File)
    → (ℕ → ℕ → S → S × Bool)
    → S
    → Option (S × Bool)
unfolding handle_entry close
parse_opened_cpulist fs fuel none callback context = some (context, false)
parse_opened_cpulist fs fuel (some file) callback context =
    close (read_loop fs b',' buffer_size (handle_entry callback) fuel file [] (context, true))

-- `cpuinfo_linux_parse_cpulist`, with fuel for its outer loop.
unfoldable pub parse_cpulist :
    (fs : FileSystem) {S : Type 0} → ℕ → Bytes → (ℕ → ℕ → S → S × Bool) → S → Option (S × Bool)
unfolding parse_opened_cpulist
parse_cpulist fs fuel filename callback context =
    parse_opened_cpulist fs fuel (fs.open_file filename) callback context
