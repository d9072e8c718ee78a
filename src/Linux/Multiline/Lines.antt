-- ===== src/Linux/Multiline/Lines.antt =====
-- What `cpuinfo_linux_parse_multiline_file` hands to its callback.
use cpuinfo.Base.{
  ℕ, ◌≤◌, ◌<◌, Bool, true, false, some, List, [], ◌∷◌, Bytes, length, take, ◌≡◌, refl, ap, ◌∙◌,
  arith, All, Lacks, if◌then◌else◌, Bool-cases, inl, inr,
}
use cpuinfo.Linux.File.{FileSystem, ReadsSucceed}
use cpuinfo.Linux.Chunks.{go_on, leave, at_end}
use cpuinfo.Linux.Chunks.Pieces.{pieces_from, handle_pieces}
use cpuinfo.Linux.Chunks.Reads.{read_loop-pieces, read_loop_full}
use cpuinfo.Linux.Multiline.{next_line_number, handle_line, close, parse_multiline_file}

-- Line after line, numbered from `n` on, until the callback returns false.
unfoldable pub run_lines : {S : Type 0} → (Bytes → S → ℕ → S × Bool) → List Bytes → ℕ → S → S × Bool
run_lines callback [] n context = (context, true)
run_lines callback (line ∷ lines) n context =
    let (context', goes_on) = callback line context n in
    let rest = run_lines callback lines (next_line_number n) context' in
    if goes_on then rest else (context', false)

close-handle_pieces :
    {S : Type 0} (callback : Bytes → S → ℕ → S × Bool) (lines : List Bytes) (n : ℕ) (context : S)
    → close (handle_pieces (handle_line callback) lines (context, n))
      ≡ some (run_lines callback lines n context)
unfolding handle_pieces run_lines handle_line close
close-handle_pieces callback [] n context = refl
close-handle_pieces callback (line ∷ lines) n context =
    let rest =
      close-handle_pieces callback lines (next_line_number n) (callback line context n).0 in
    elim (Bool-cases (callback line context n).1) [
      | inl goes_on ↦ rw (goes_on, handle_pieces, run_lines) rest
      | inr stops ↦ rw (stops, handle_pieces, run_lines)
    ]

close_last :
    {S : Type 0} (r : S × Bool) (n : ℕ)
    → close (at_end (if r.1 then go_on (r.0, n) else leave (r.0, n))) ≡ some r
unfolding close
close_last (context, true) n = refl
close_last (context, false) n = refl

close-at_end :
    {S : Type 0} (callback : Bytes → S → ℕ → S × Bool) (line : Bytes) (n : ℕ) (context : S)
    → close (at_end (handle_line callback line (context, n))) ≡ some (callback line context n)
unfolding handle_line
close-at_end callback line n context = close_last (callback line context n) (next_line_number n)

module _ (fs : FileSystem) {S : Type 0} (callback : Bytes → S → ℕ → S × Bool) (context : S)
    (reads : ReadsSucceed fs) (filename : Bytes) (f : fs.File)
    (opened : fs.open_file filename ≡ some f) (buffer_size fuel : ℕ)
    (enough : length (fs.contents f) < fuel) where
  -- However the reads cut a file that is opened, where none fails and the fuel exceeds the length
  -- of the file: if each line is shorter than the buffer, the callback has the lines in order,
  -- numbered from 1, the text behind the last newline as the last of them, until it returns false;
  -- and the status is whether it never did.
  pub parse_multiline_file-lines :
      All (λ line. length line < buffer_size) (pieces_from b'\n' [] (fs.contents f))
      → parse_multiline_file fs fuel filename buffer_size callback context
        ≡ some (run_lines callback (pieces_from b'\n' [] (fs.contents f)) 1 context)
  unfolding parse_multiline_file
  parse_multiline_file-lines short = rw opened (
      ap close (
        read_loop-pieces fs b'\n' buffer_size (handle_line callback) reads fuel f [] (context, 1)
          enough tt short)
      ∙ close-handle_pieces callback _ 1 context)

  -- In a file that is opened, where no read fails and the fuel exceeds the length of the file: if
  -- the text that fills the buffer is there and holds no newline, it is the only line, and what
  -- stands behind it in the file is not read.
  pub parse_multiline_file_full :
      buffer_size ≤ length (fs.contents f)
      → Lacks b'\n' (take buffer_size (fs.contents f))
      → parse_multiline_file fs fuel filename buffer_size callback context
        ≡ some (callback (take buffer_size (fs.contents f)) context 1)
  unfolding parse_multiline_file
  parse_multiline_file_full full lacks = rw opened (
      ap close (
        read_loop_full fs b'\n' buffer_size (handle_line callback) reads fuel f [] (context, 1)
          enough (omega arith) full lacks)
      ∙ close-at_end callback _ 1 context)
