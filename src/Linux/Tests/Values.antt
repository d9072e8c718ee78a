-- ===== src/Linux/Tests/Values.antt =====
-- Runs on the files of one number and on the lists of all processors.
use mathlib.Core.List.{cons≢nil}
use cpuinfo.Base.{
  ℕ, Bool, true, false, Option, none, some, List, [], ◌∷◌, Bytes, codes, length, ltb, if◌then◌else◌,
  ◌≡◌, refl, arith, All, get_or,
}
use cpuinfo.Linux.Number.{is_whitespace}
use cpuinfo.Linux.File.{FileSystem, ReadsSucceed}
use cpuinfo.Linux.File.Memory.{memory, memory-ReadsSucceed}
use cpuinfo.Linux.Cpulist.{call}
use cpuinfo.Linux.Cpulist.Entry.{single, range}
use cpuinfo.Linux.Cpulist.Text.{Item, IsItem, run_items}
use cpuinfo.Linux.SmallFile.{parse_small_file}
use cpuinfo.Linux.SmallFile.Fits.{parse_small_file-by_length}
use cpuinfo.Linux.Number.Print.{decimal}
use cpuinfo.Linux.Processors.Filename.{
  filename, format_filename, format_filename-fits, core_id_suffix, max_frequency_suffix,
  min_frequency_suffix, package_id_suffix, core_siblings_suffix, thread_siblings_suffix,
  possible_cpulist_filename, present_cpulist_filename, kernel_max_filename,
}
use cpuinfo.Linux.Processors.Value.{
  get_max_processors_count, get_processor_max_frequency, get_processor_min_frequency,
  get_processor_core_id, get_processor_package_id,
}
use cpuinfo.Linux.Processors.Value.Reads.{
  HoldsValue, get_max_processors_count-value_text, processor_values-value_text,
}
use cpuinfo.Linux.Processors.Value.Contents.{values-number_in}
use cpuinfo.Linux.Processors.Detect.{
  get_max_possible_processor, get_max_present_processor, detect_possible_processors,
  detect_present_processors, detect_core_siblings, detect_thread_siblings,
}
use cpuinfo.Linux.Processors.Detect.Marks.{HoldsList, detect_processors-list_text}
use cpuinfo.Linux.Processors.Detect.Highest.{get_max_processor-list_text, detect_siblings-list_text}

-- Files of which the longer names hold one text and the shorter names another.
abbrev two_files : ℕ → Bytes → Bytes → FileSystem
two_files n long short = memory (λ name. if ltb n (length name) then some long else some short) 2

abbrev all_succeed : (n : ℕ) (long short : Bytes) → ReadsSucceed (two_files n long short)
all_succeed n long short =
    memory-ReadsSucceed (λ name. if ltb n (length name) then some long else some short) 2

abbrev four : Item × List Item
four = (record { before = []; span = range (b'0' ∷ []) (b'3' ∷ []); after = b'\n' ∷ [] }, [])

abbrev one : Item × List Item
one = (record { before = []; span = single (b'2' ∷ []); after = b'\n' ∷ [] }, [])

four-IsItem : All IsItem (four.0 ∷ four.1)
unfolding is_whitespace
four-IsItem = (
  (
    tt,
    (
      ((λ e. cons≢nil e), ((omega arith, omega arith), tt)),
      ((λ e. cons≢nil e), ((omega arith, omega arith), tt)),
    ),
    (refl, tt),
  ),
  tt,
)

one-IsItem : All IsItem (one.0 ∷ one.1)
unfolding is_whitespace
one-IsItem = ((tt, ((λ e. cons≢nil e), ((omega arith, omega arith), tt)), (refl, tt)), tt)

-- "possible" is longer than "present".
abbrev lists : FileSystem
lists = two_files 31 (codes "0-3\n") (codes "2\n")

possible_four : HoldsList lists 9 possible_cpulist_filename four
possible_four = record {
  file = codes "0-3\n";
  opened = refl;
  text = refl;
  enough = omega arith;
  all_items = four-IsItem;
  short = (omega arith, tt);
}

present_one : HoldsList lists 9 present_cpulist_filename one
present_one = record {
  file = codes "2\n";
  opened = refl;
  text = refl;
  enough = omega arith;
  all_items = one-IsItem;
  short = (omega arith, tt);
}

-- The processor 2 of three, of four that are listed.
detect_processors-list_text_example :
    (mid : List ℕ) × (after : List ℕ) × (detect_possible_processors lists 9 3 (0 ∷ 0 ∷ 0 ∷ []) 2
      ≡ some (mid, true))
    × (detect_present_processors lists 9 3 mid 1 ≡ some (after, true))
    × (length after ≡ 3)
    × (get_or after 2 0 ≡ 3)
detect_processors-list_text_example =
    detect_processors-list_text lists (all_succeed 31 (codes "0-3\n") (codes "2\n")) 9 3 2 1
      (0 ∷ 0 ∷ 0 ∷ []) four one possible_four present_one 2 (omega arith)

get_max_processor-list_text_example :
    (get_max_possible_processor lists 9 3 ≡ some 2) × (get_max_present_processor lists 9 3 ≡ some 2)
get_max_processor-list_text_example =
    get_max_processor-list_text lists (all_succeed 31 (codes "0-3\n") (codes "2\n")) 9 3 four one
      possible_four present_one

-- The name of the list of threads is longer than that of the list of cores.
abbrev siblings : FileSystem
siblings = two_files 56 (codes "2\n") (codes "0-3\n")

abbrev note : ℕ → ℕ → ℕ → List (ℕ × ℕ × ℕ) → List (ℕ × ℕ × ℕ) × Bool
note processor a b seen = ((processor, a, b) ∷ seen, true)

core_siblings-four : HoldsList siblings 9 (filename core_siblings_suffix 2) four
unfolding decimal
core_siblings-four = record {
  file = codes "0-3\n";
  opened = refl;
  text = refl;
  enough = omega arith;
  all_items = four-IsItem;
  short = (omega arith, tt);
}

thread_siblings-one : HoldsList siblings 9 (filename thread_siblings_suffix 2) one
unfolding decimal
thread_siblings-one = record {
  file = codes "2\n";
  opened = refl;
  text = refl;
  enough = omega arith;
  all_items = one-IsItem;
  short = (omega arith, tt);
}

detect_siblings-list_text_example :
    (detect_core_siblings siblings 9 3 2 note [] ≡ some ((2, 0, 3) ∷ [], true))
    × (detect_thread_siblings siblings 9 3 2 note [] ≡ some ((2, 2, 3) ∷ [], true))
unfolding run_items call
detect_siblings-list_text_example =
    detect_siblings-list_text siblings 9 3 2 note [] (all_succeed 56 (codes "2\n") (codes "0-3\n"))
      (omega arith) four one core_siblings-four thread_siblings-one

abbrev count_bytes : Bytes → ℕ → ℕ × Bool
count_bytes text n = (length text, true)

parse_small_file-by_length_example :
    parse_small_file (two_files 4 (codes "12345\n") []) 10 (codes "/name") 8 count_bytes 0
    ≡ some (6, true)
parse_small_file-by_length_example =
    parse_small_file-by_length (two_files 4 (codes "12345\n") []) 8 count_bytes 0
      (all_succeed 4 (codes "12345\n") []) 10 (codes "/name") (codes "12345\n") refl (omega arith)

format_filename-fits_example :
    format_filename core_id_suffix 12
    ≡ some (codes "/sys/devices/system/cpu/cpu12/topology/core_id")
unfolding decimal
format_filename-fits_example = format_filename-fits core_id_suffix 12 (omega arith)

-- The same number in every file.
abbrev sevens : FileSystem
sevens = two_files 0 (codes "7\n") []

abbrev seven :
    (name : Bytes) → sevens.open_file name ≡ some (codes "7\n") → HoldsValue sevens 9 name 7
seven name opened = record {
  file = codes "7\n";
  opened = opened;
  text = unfold decimal in refl;
  enough = omega arith;
  fits = omega arith;
}

get_max_processors_count-value_text_example : get_max_processors_count sevens 9 1024 ≡ some 8
get_max_processors_count-value_text_example =
    get_max_processors_count-value_text sevens (all_succeed 0 (codes "7\n") []) 9 7
      (seven kernel_max_filename refl) 1024

processor_values-value_text_example :
    (get_processor_max_frequency sevens 9 3 ≡ some 7)
    × (get_processor_min_frequency sevens 9 3 ≡ some 7)
    × (get_processor_core_id sevens 9 3 0 ≡ some (7, true))
    × (get_processor_package_id sevens 9 3 0 ≡ some (7, true))
unfolding decimal
processor_values-value_text_example =
    processor_values-value_text sevens (all_succeed 0 (codes "7\n") []) 9 3 (omega arith) 7 7 7 7
      (seven (filename max_frequency_suffix 3) refl) (seven (filename min_frequency_suffix 3) refl)
      (seven (filename core_id_suffix 3) refl) (seven (filename package_id_suffix 3) refl) 0

-- The highest number, frequencies with a letter behind the digits, an ID with one before them, and no
-- file of the package.
abbrev mixed_text : Bytes → Option Bytes
mixed_text name =
    if ltb 54 (length name)
    then none
    else if ltb 50 (length name)
    then some (codes "12k")
    else if ltb 40 (length name)
    then some (codes "x7\n")
    else some (codes "7\n")

abbrev mixed : FileSystem
mixed = memory mixed_text 2

values-number_in_example :
    (get_max_processors_count mixed 9 1024 ≡ some 8)
    × (get_processor_max_frequency mixed 9 3 ≡ some 12)
    × (get_processor_min_frequency mixed 9 3 ≡ some 12)
    × (get_processor_core_id mixed 9 3 5 ≡ some (5, false))
    × (get_processor_package_id mixed 9 3 5 ≡ some (5, false))
unfolding decimal
values-number_in_example =
    values-number_in mixed 9 3 (memory-ReadsSucceed mixed_text 2) (omega arith) (some (codes "7\n"))
      (some (codes "12k")) (some (codes "12k")) (some (codes "x7\n")) none
      (codes "7\n", refl, refl, omega arith, omega arith)
      (codes "12k", refl, refl, omega arith, omega arith)
      (codes "12k", refl, refl, omega arith, omega arith)
      (codes "x7\n", refl, refl, omega arith, omega arith) refl 1024 5
