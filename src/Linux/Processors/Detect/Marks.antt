-- ===== src/Linux/Processors/Detect/Marks.antt =====
-- Which processors the lists of possible and present processors flag.
use cpuinfo.Base.{
  ℕ, zero, suc, ◌+◌, ◌-◌, ◌<◌, bit_or, Bool, true, false, ◌&&◌, ◌||◌, Option, none, some, List, [],
  ◌∷◌, map, Bytes, length, get_or, set, length-set, get_or-set_self, get_or-set_ne, ltb, leb,
  if◌then◌else◌, ◌≡◌, refl, sym, ap, and_true, and_assoc, ◌∙◌, arith, All,
}
use cpuinfo.Base.Bits.{bit_or_twice}
use cpuinfo.Linux.File.{FileSystem, ReadsSucceed}
use cpuinfo.Linux.Cpulist.{call, buffer_size}
use cpuinfo.Linux.Cpulist.Entry.{span_meaning}
use cpuinfo.Linux.Cpulist.Text.{
  Item, IsItem, item_text, list_text, run_items, parse_cpulist-list_text,
}
use cpuinfo.Linux.Processors.Filename.{possible_cpulist_filename, present_cpulist_filename}
use cpuinfo.Linux.Processors.Detect.{
  mark_range, detect_processor_parser, detect_possible_processors, detect_present_processors,
}

-- A processor is in a range.
abbrev pub covers : ℕ → Option (ℕ × ℕ) → Bool
covers i none = false
covers i (some (a, b)) = leb a i && ltb i b

-- It is in the range of an item.
abbrev pub covered : ℕ → List Item → Bool
covered i [] = false
covered i (x ∷ xs) = covers i (span_meaning x.span) || covered i xs

abbrev pub is_range : Option (ℕ × ℕ) → Bool
is_range none = false
is_range (some r) = true

-- Every item stands for a range.
abbrev pub all_ranges : List Item → Bool
all_ranges [] = true
all_ranges (x ∷ xs) = is_range (span_meaning x.span) && all_ranges xs

-- Flags with one flag more, if the test holds.
abbrev pub marked : ℕ → Bool → ℕ → ℕ
marked flag true flags = bit_or flags flag
marked flag false flags = flags

module _ (max_processors_count detected_flag : ℕ) where
  length-mark_range :
      (left p : ℕ) (flags : List ℕ)
      → length (mark_range max_processors_count detected_flag left p flags) ≡ length flags
  unfolding mark_range
  length-mark_range zero p flags = refl
  length-mark_range (suc left) p flags = ground (
    arith,
    length-mark_range left (p + 1) (set flags p (bit_or (get_or flags p 0) detected_flag)),
    length-set flags p (bit_or (get_or flags p 0) detected_flag),
  )

  get_or-mark_range :
      (left p : ℕ) (flags : List ℕ) (i : ℕ)
      → i < length flags
      → get_or (mark_range max_processors_count detected_flag left p flags) i 0 ≡ (
          if (leb p i && ltb i (p + left)) && ltb i max_processors_count
          then bit_or (get_or flags i 0) detected_flag
          else get_or flags i 0)
  unfolding mark_range
  get_or-mark_range zero p flags i h = ground arith
  get_or-mark_range (suc left) p flags i h =
      let v = bit_or (get_or flags p 0) detected_flag in
      ground (
        arith,
        get_or-mark_range left (p + 1) (set flags p v) i,
        length-set flags p v,
        get_or-set_self flags i v 0,
        get_or-set_ne flags p i v 0,
      )

  -- What one item does to the flags of processor `i`, and to the length.
  item_marks :
      (r : Option (ℕ × ℕ)) (flags : List ℕ) (i : ℕ)
      → i < length flags
      → (get_or (call (detect_processor_parser max_processors_count detected_flag) r flags).0 i 0
          ≡ marked detected_flag (covers i r && ltb i max_processors_count) (get_or flags i 0))
        × (length (call (detect_processor_parser max_processors_count detected_flag) r flags).0
            ≡ length flags)
  unfolding call detect_processor_parser
  item_marks none flags i h = (refl, refl)
  item_marks (some (a, b)) flags i h =
      (ground (arith, get_or-mark_range (b - a) a flags i h), length-mark_range (b - a) a flags)

  marked_twice :
      (c d m : Bool) (flags : ℕ)
      → marked detected_flag (d && m) (marked detected_flag (c && m) flags)
        ≡ marked detected_flag ((c || d) && m) flags
  marked_twice true true true flags = bit_or_twice flags detected_flag
  marked_twice true true false flags = refl
  marked_twice true false true flags = refl
  marked_twice true false false flags = refl
  marked_twice false d m flags = refl

  items_mark :
      (xs : List Item) (flags : List ℕ) (status : Bool) (i : ℕ)
      → i < length flags
      → get_or
          (run_items
            (detect_processor_parser max_processors_count detected_flag)
            xs
            (flags, status)).0
          i
          0
        ≡ marked detected_flag (covered i xs && ltb i max_processors_count) (get_or flags i 0)
  unfolding run_items
  items_mark [] flags status i h = refl
  items_mark (x ∷ xs) flags status i h =
      let (marks, len) = item_marks (span_meaning x.span) flags i h in
      let r =
        call (detect_processor_parser max_processors_count detected_flag) (span_meaning x.span)
          flags in
      items_mark xs r.0 (status && r.1) i (rw len h)
      ∙ ap (marked detected_flag (covered i xs && ltb i max_processors_count)) marks
      ∙ marked_twice (covers i (span_meaning x.span)) (covered i xs) (ltb i max_processors_count)
          (get_or flags i 0)

  item_status :
      (r : Option (ℕ × ℕ)) (flags : List ℕ)
      → (call (detect_processor_parser max_processors_count detected_flag) r flags).1 ≡ is_range r
  unfolding call detect_processor_parser
  item_status none flags = refl
  item_status (some r) flags = refl

  items_status :
      (xs : List Item) (flags : List ℕ) (status : Bool)
      → (run_items
          (detect_processor_parser max_processors_count detected_flag)
          xs
          (flags, status)).1
        ≡ (status && all_ranges xs)
  unfolding run_items
  items_status [] flags status = sym (and_true status)
  items_status (x ∷ xs) flags status =
      let r =
        call (detect_processor_parser max_processors_count detected_flag) (span_meaning x.span)
          flags in
      items_status xs r.0 (status && r.1)
      ∙ ap (λ (b : Bool). (status && b) && all_ranges xs) (item_status (span_meaning x.span) flags)
      ∙ and_assoc status (is_range (span_meaning x.span)) (all_ranges xs)

  items_length :
      (xs : List Item) (flags : List ℕ) (status : Bool)
      → length
          (run_items
            (detect_processor_parser max_processors_count detected_flag)
            xs
            (flags, status)).0
        ≡ length flags
  unfolding run_items
  items_length [] flags status = refl
  items_length (x ∷ xs) flags status =
      let r =
        call (detect_processor_parser max_processors_count detected_flag) (span_meaning x.span)
          flags in
      items_length xs r.0 (status && r.1) ∙ item_length (span_meaning x.span) flags
    where
      item_length :
          (r : Option (ℕ × ℕ)) (fl : List ℕ)
          → length (call (detect_processor_parser max_processors_count detected_flag) r fl).0
            ≡ length fl
      item_length none fl = unfold call in refl
      item_length (some (a, b)) fl =
          unfold call detect_processor_parser in length-mark_range (b - a) a fl

-- What is assumed of a file that holds a list of processors.
pub record HoldsList (fs : FileSystem) (fuel : ℕ) (name : Bytes) (items : Item × List Item)
    : Type 0 where
  pub file : fs.File
  pub opened : fs.open_file name ≡ some file
  pub text : fs.contents file ≡ list_text items.0 items.1
  pub enough : length (fs.contents file) < fuel
  pub all_items : All IsItem (items.0 ∷ items.1)
  pub short : All (λ e. length e < buffer_size) (map item_text (items.0 ∷ items.1))

-- For files that hold lists, where no read fails, at an index of the array: after the two
-- functions, one after the other over the same array, the flags have the first flag if the
-- processor is in the list of possible ones and below the limit, the second if it is in the list
-- of those present and below the limit, and are otherwise as before; the array keeps its length,
-- and each result is true exactly if every item of the list stands for a range.
pub detect_processors-list_text :
    (fs : FileSystem)
    → ReadsSucceed fs
    → (fuel limit possible_flag present_flag : ℕ) (flags : List ℕ) (xs ys : Item × List Item)
    → HoldsList fs fuel possible_cpulist_filename xs
    → HoldsList fs fuel present_cpulist_filename ys
    → (i : ℕ) → i < length flags
    → (mid : List ℕ) × (after : List ℕ) × (detect_possible_processors fs fuel limit flags
          possible_flag
        ≡ some (mid, all_ranges (xs.0 ∷ xs.1)))
      × (detect_present_processors fs fuel limit mid present_flag
          ≡ some (after, all_ranges (ys.0 ∷ ys.1)))
      × (length after ≡ length flags)
      × (get_or after i 0
          ≡ marked present_flag
              (covered i (ys.0 ∷ ys.1) && ltb i limit)
              (marked possible_flag (covered i (xs.0 ∷ xs.1) && ltb i limit) (get_or flags i 0)))
unfolding detect_possible_processors detect_present_processors
detect_processors-list_text fs reads fuel limit p q flags xs ys hx hy i small =
    let first = run_items (detect_processor_parser limit p) (xs.0 ∷ xs.1) (flags, true) in
    let second = run_items (detect_processor_parser limit q) (ys.0 ∷ ys.1) (first.0, true) in
    let kept : length first.0 ≡ length flags = items_length limit p (xs.0 ∷ xs.1) flags true in
    (
      first.0,
      second.0,
      parse_cpulist-list_text fs (detect_processor_parser limit p) flags reads
            possible_cpulist_filename hx.file hx.opened fuel xs.0 xs.1 hx.enough hx.text
            hx.all_items hx.short
          ∙ ap (λ (b : Bool). some (first.0, b)) (items_status limit p (xs.0 ∷ xs.1) flags true),
      parse_cpulist-list_text fs (detect_processor_parser limit q) first.0 reads
            present_cpulist_filename hy.file hy.opened fuel ys.0 ys.1 hy.enough hy.text hy.all_items
            hy.short
          ∙ ap (λ (b : Bool). some (second.0, b)) (items_status limit q (ys.0 ∷ ys.1) first.0 true),
      items_length limit q (ys.0 ∷ ys.1) first.0 true ∙ kept,
      items_mark limit q (ys.0 ∷ ys.1) first.0 true i (rw kept small)
          ∙ ap (marked q (covered i (ys.0 ∷ ys.1) && ltb i limit))
              (items_mark limit p (xs.0 ∷ xs.1) flags true i small),
    )
