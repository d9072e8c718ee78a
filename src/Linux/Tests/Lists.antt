-- ===== src/Linux/Tests/Lists.antt =====
-- Runs on processor lists, lines and entries.
use mathlib.Core.List.{cons≢nil}
use cpuinfo.Base.{
  ℕ, zero, suc, ◌+◌, ◌≤◌, ◌<◌, ◌^◌, Bool, true, false, some, List, [], ◌∷◌, ◌++◌, Bytes, codes, ◌≡◌,
  refl, arith, Lacks,
}
use cpuinfo.Linux.File.{FileSystem}
use cpuinfo.Linux.File.Memory.{memory, memory-ReadsSucceed}
use cpuinfo.Linux.Number.{u32, is_whitespace, parse_number, widen_signed, widen_unsigned}
use cpuinfo.Linux.Number.Digits.{parse_number_digits, widen_signed-Widens, widen_unsigned-Widens}
use cpuinfo.Linux.Number.Print.{parse_number-decimal, decimal}
use cpuinfo.Linux.Cpulist.{parse_entry, parse_range, parse_cpulist, call, trim, parse_second}
use cpuinfo.Linux.Cpulist.Entry.{single, range, parse_entry-span, parse_range_sound}
use cpuinfo.Linux.Cpulist.Text.{
  Item, IsItem, parse_cpulist-entries, parse_cpulist_full, parse_cpulist-list_text, run_entries,
  run_items,
}
use cpuinfo.Linux.Chunks.Pieces.{pieces_from}
use cpuinfo.Linux.Multiline.{parse_multiline_file}
use cpuinfo.Linux.Multiline.Lines.{run_lines, parse_multiline_file-lines, parse_multiline_file_full}

-- The same text under every name.
abbrev holding : Bytes → FileSystem
holding text = memory (λ name. some text) 2

-- A callback that keeps what it is called with.
abbrev collect : ℕ → ℕ → List (ℕ × ℕ) → List (ℕ × ℕ) × Bool
collect a b seen = (seen ++ (a, b) ∷ [], true)

abbrev first_item : Item
first_item = record { before = []; span = range (b'0' ∷ []) (b'3' ∷ []); after = [] }

abbrev second_item : Item
second_item = record { before = b' ' ∷ []; span = single (b'1' ∷ b'2' ∷ []); after = b'\n' ∷ [] }

first_item-IsItem : IsItem first_item
first_item-IsItem = (
  tt,
  (
    ((λ e. cons≢nil e), ((omega arith, omega arith), tt)),
    ((λ e. cons≢nil e), ((omega arith, omega arith), tt)),
  ),
  tt,
)

second_item-IsItem : IsItem second_item
unfolding is_whitespace
second_item-IsItem = (
  (refl, tt),
  ((λ e. cons≢nil e), ((omega arith, omega arith), ((omega arith, omega arith), tt))),
  (refl, tt),
)

parse_cpulist-list_text_example :
    parse_cpulist (holding (codes "0-3, 12\n")) 20 [] collect []
    ≡ some ((0, 4) ∷ (12, 13) ∷ [], true)
unfolding run_items call
parse_cpulist-list_text_example =
    parse_cpulist-list_text (holding (codes "0-3, 12\n")) collect []
      (memory-ReadsSucceed (λ name. some (codes "0-3, 12\n")) 2) [] (codes "0-3, 12\n") refl 20
      first_item (second_item ∷ []) (omega arith) refl (first_item-IsItem, (second_item-IsItem, tt))
      (omega arith, (omega arith, tt))

abbrev bad_list : Bytes
bad_list = codes "7-4,x,5,"

parse_cpulist-entries_example :
    parse_cpulist (holding bad_list) 20 [] collect [] ≡ some ((5, 6) ∷ [], false)
unfolding pieces_from run_entries parse_entry call trim parse_range parse_second parse_number
    is_whitespace
parse_cpulist-entries_example =
    parse_cpulist-entries (holding bad_list) collect []
      (memory-ReadsSucceed (λ name. some bad_list) 2) [] bad_list refl 20 (omega arith)
      (omega arith, (omega arith, (omega arith, (omega arith, tt))))

abbrev repeat : ℕ → ℕ → Bytes
repeat zero c = []
repeat (suc n) c = c ∷ repeat n c

-- The number 1 with 299 zeros before it, which do not all fit the buffer.
abbrev long_list : Bytes
long_list = repeat 299 b'0' ++ codes "1,2"

Lacks-repeat : (n : ℕ) → Lacks b',' (repeat n b'0')
Lacks-repeat zero = tt
Lacks-repeat (suc n) = ((λ e. omega arith), Lacks-repeat n)

parse_cpulist_full_example :
    parse_cpulist (holding long_list) 400 [] collect [] ≡ some ((0, 1) ∷ [], true)
unfolding parse_entry call trim parse_range parse_second parse_number is_whitespace
parse_cpulist_full_example =
    parse_cpulist_full (holding long_list) collect []
      (memory-ReadsSucceed (λ name. some long_list) 2) [] long_list refl 400 (omega arith)
      (omega arith) (Lacks-repeat 256)

parse_entry-span_example : parse_entry collect (codes " 4-6 ") [] ≡ ((4, 7) ∷ [], true)
unfolding call is_whitespace
parse_entry-span_example =
    parse_entry-span collect (b' ' ∷ []) (range (b'4' ∷ []) (b'6' ∷ [])) (b' ' ∷ []) [] (refl, tt)
      (refl, tt)
      (
        ((λ e. cons≢nil e), ((omega arith, omega arith), tt)),
        ((λ e. cons≢nil e), ((omega arith, omega arith), tt)),
      )

parse_range_sound_example : (l : ℕ) × (0 ≤ l) × (l < 2 ^ 32) × (0 ≡ u32 (l + 1))
unfolding parse_range parse_second parse_number
parse_range_sound_example = parse_range_sound (codes "0-4294967295") 0 0 refl

parse_number_digits_example : parse_number widen_signed (codes "42-7") ≡ (42, codes "-7")
parse_number_digits_example =
    parse_number_digits widen_signed-Widens (codes "42") (codes "-7")
      ((omega arith, omega arith), ((omega arith, omega arith), tt))
      ((λ d. omega arith), omega arith)

parse_number-decimal_example :
    parse_number widen_unsigned (decimal 1800000 ++ b'\n' ∷ []) ≡ (1800000, b'\n' ∷ [])
parse_number-decimal_example =
    parse_number-decimal widen_unsigned-Widens 1800000 (b'\n' ∷ []) (omega arith)
      ((λ d. omega arith), omega arith)

-- Keep the lines, and stop at an empty one.
abbrev until_empty : Bytes → List (Bytes × ℕ) → ℕ → List (Bytes × ℕ) × Bool
until_empty [] seen n = (seen, false)
until_empty (c ∷ line) seen n = (seen ++ (c ∷ line, n) ∷ [], true)

parse_multiline_file-lines_example :
    parse_multiline_file (holding (codes "ab\nc\n\nd")) 20 [] 8 until_empty []
    ≡ some ((codes "ab", 1) ∷ (codes "c", 2) ∷ [], false)
unfolding pieces_from run_lines
parse_multiline_file-lines_example =
    parse_multiline_file-lines (holding (codes "ab\nc\n\nd")) until_empty []
      (memory-ReadsSucceed (λ name. some (codes "ab\nc\n\nd")) 2) [] (codes "ab\nc\n\nd") refl 8 20
      (omega arith) (omega arith, (omega arith, (omega arith, (omega arith, tt))))

parse_multiline_file_full_example :
    parse_multiline_file (holding (codes "abcdefgh\nd")) 20 [] 4 until_empty []
    ≡ some ((codes "abcd", 1) ∷ [], true)
parse_multiline_file_full_example =
    parse_multiline_file_full (holding (codes "abcdefgh\nd")) until_empty []
      (memory-ReadsSucceed (λ name. some (codes "abcdefgh\nd")) 2) [] (codes "abcdefgh\nd") refl 4
      20 (omega arith) (omega arith)
      ((λ e. omega arith), ((λ e. omega arith), ((λ e. omega arith), ((λ e. omega arith), tt))))
