-- ===== src/Linux/Multiline.antt =====
-- src/linux/multiline.c: a text file, line by line.
pub mod Lines
use cpuinfo.Base.{ℕ, ◌+◌, ◌%◌, ◌^◌, Bool, true, false, Option, none, some, [], Bytes, if◌then◌else◌}
use cpuinfo.Linux.File.{FileSystem}
use cpuinfo.Linux.Chunks.{
  Flow, go_on, leave, Outcome, finished, aborted, read_failed, out_of_fuel, read_loop,
}

-- `line_number++`, in uint64_t.
abbrev pub next_line_number : ℕ → ℕ
next_line_number n = (n + 1) % 2 ^ 64

-- The callback has the line, the number of the line and the state behind `context`, and returns
-- whether to go on. The number that the last line leaves behind is read by nothing.
unfoldable pub handle_line :
    {S : Type 0} → (Bytes → S → ℕ → S × Bool) → Bytes → S × ℕ → Flow (S × ℕ)
handle_line callback line (context, line_number) =
    let (context', goes_on) = callback line context line_number in
    if goes_on
    then go_on (context', next_line_number line_number)
    else leave (context', next_line_number line_number)

-- The state behind `context` at the end, and `status`; `none` stands for fuel that was too little.
pub close : {S : Type 0} → Outcome (S × ℕ) → Option (S × Bool)
close (finished (context, line_number)) = some (context, true)
close (aborted (context, line_number)) = some (context, false)
close (read_failed (context, line_number)) = some (context, false)
close out_of_fuel = none

unfoldable pub parse_opened_file :
    (fs : FileSystem) {S : Type 0}
    → ℕ
    → Option (fs.File)
    → ℕ
    → (Bytes → S → ℕ → S × Bool)
    → S
    → Option (S × Bool)
unfolding handle_line close
parse_opened_file fs fuel none buffer_size callback context = some (context, false)
parse_opened_file fs fuel (some file) buffer_size callback context =
    close (read_loop fs b'\n' buffer_size (handle_line callback) fuel file [] (context, 1))

-- `cpuinfo_linux_parse_multiline_file`, with fuel for its outer loop.
unfoldable pub parse_multiline_file :
    (fs : FileSystem) {S : Type 0}
    → ℕ
    → Bytes
    → ℕ
    → (Bytes → S → ℕ → S × Bool)
    → S
    → Option (S × Bool)
unfolding parse_opened_file
parse_multiline_file fs fuel filename buffer_size callback context =
    parse_opened_file fs fuel (fs.open_file filename) buffer_size callback context
