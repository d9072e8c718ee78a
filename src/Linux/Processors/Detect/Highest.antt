-- ===== src/Linux/Processors/Detect/Highest.antt =====
-- The highest processor of a list, and the ranges of siblings that reach the callback.
use cpuinfo.Base.{
  uint32_max, ℕ, ◌+◌, ◌-◌, ◌<◌, ◌^◌, max, min, fun_ext, Bool, true, false, ◌&&◌, some, List, [],
  ◌∷◌, ltb, leb, and_true, and_assoc, if◌then◌else◌, ◌≡◌, refl, sym, ap, ◌∙◌, arith,
}
use cpuinfo.Linux.File.{FileSystem, ReadsSucceed}
use cpuinfo.Linux.Number.{u32}
use cpuinfo.Linux.Number.Digits.{value}
use cpuinfo.Linux.Cpulist.{call}
use cpuinfo.Linux.Cpulist.Entry.{Span, single, range, span_meaning}
use cpuinfo.Linux.Cpulist.Text.{Item, run_items, parse_cpulist-list_text}
use cpuinfo.Linux.Processors.Filename.{
  possible_cpulist_filename, present_cpulist_filename, core_siblings_suffix, thread_siblings_suffix,
  filename, format_filename-fits,
}
use cpuinfo.Linux.Processors.Detect.{
  max_processor_number_parser, clip_max_processor, get_max_possible_processor,
  get_max_present_processor, siblings_parser, detect_core_siblings, detect_thread_siblings,
}
use cpuinfo.Linux.Processors.Detect.Marks.{is_range, all_ranges, HoldsList}

-- The last processor of a span, if it is higher than `n`; a range that runs down has none.
abbrev pub raise : Span → ℕ → ℕ
raise (single ds) n = max n (u32 (value ds))
raise (range ds es) n = if ltb (u32 (value es)) (u32 (value ds)) then n else max n (u32 (value es))

abbrev pub highest : List Item → ℕ → ℕ
highest [] n = n
highest (x ∷ xs) n = highest xs (raise x.span n)

item_raises :
    (x : Span) (n : ℕ)
    → call max_processor_number_parser (span_meaning x) n ≡ (raise x n, is_range (span_meaning x))
unfolding call max_processor_number_parser
item_raises (single ds) n = ground arith
item_raises (range ds es) n = ground arith

items_raise :
    (xs : List Item) (n : ℕ) (status : Bool)
    → run_items max_processor_number_parser xs (n, status) ≡ (highest xs n, status && all_ranges xs)
unfolding run_items
items_raise [] n status = ap (λ (b : Bool). (n, b)) (sym (and_true status))
items_raise (x ∷ xs) n status =
    rw (run_items, item_raises x.span n)
      (items_raise xs (raise x.span n) (status && is_range (span_meaning x.span))
        ∙ ap (λ (b : Bool). (highest xs (raise x.span n), b))
            (and_assoc status (is_range (span_meaning x.span)) (all_ranges xs)))

-- The highest number as a caller gets it, with the limit on it or after a failure.
abbrev pub clipped : ℕ → List Item → ℕ
clipped limit xs =
    if all_ranges xs
    then (if leb limit (highest xs 0) then u32 (limit + 2 ^ 32 - 1) else highest xs 0)
    else uint32_max

clip_items :
    (limit : ℕ) (xs : List Item)
    → clip_max_processor limit (some (run_items max_processor_number_parser xs (0, true)))
      ≡ some (clipped limit xs)
unfolding clip_max_processor
clip_items limit xs =
    ap (λ (r : ℕ × Bool). clip_max_processor limit (some r)) (items_raise xs 0 true)
    ∙ split (all_ranges xs)
  where
    split :
        (b : Bool)
        → clip_max_processor limit (some (highest xs 0, b))
          ≡ some (
              if b
              then (if leb limit (highest xs 0) then u32 (limit + 2 ^ 32 - 1) else highest xs 0)
              else uint32_max)
    split true = ground arith
    split false = refl

-- The two highest numbers, for files that hold lists, where no read fails: the largest processor
-- number in the list; the number before the limit, if it is not below the limit; UINT32_MAX, if a
-- range in the list runs down.
pub get_max_processor-list_text :
    (fs : FileSystem)
    → ReadsSucceed fs
    → (fuel limit : ℕ) (xs ys : Item × List Item) → HoldsList fs fuel possible_cpulist_filename xs
    → HoldsList fs fuel present_cpulist_filename ys
    → (get_max_possible_processor fs fuel limit ≡ some (clipped limit (xs.0 ∷ xs.1)))
      × (get_max_present_processor fs fuel limit ≡ some (clipped limit (ys.0 ∷ ys.1)))
unfolding get_max_possible_processor get_max_present_processor
get_max_processor-list_text fs reads fuel limit xs ys hx hy = (
  ap (clip_max_processor limit) (
        parse_cpulist-list_text fs max_processor_number_parser 0 reads possible_cpulist_filename
          hx.file hx.opened fuel xs.0 xs.1 hx.enough hx.text hx.all_items hx.short)
      ∙ clip_items limit (xs.0 ∷ xs.1),
  ap (clip_max_processor limit) (
        parse_cpulist-list_text fs max_processor_number_parser 0 reads present_cpulist_filename
          hy.file hy.opened fuel ys.0 ys.1 hy.enough hy.text hy.all_items hy.short)
      ∙ clip_items limit (ys.0 ∷ ys.1),
)

module _ (fs : FileSystem) {S : Type 0} (fuel limit processor : ℕ)
    (callback : ℕ → ℕ → ℕ → S → S × Bool) (context : S) where
  abbrev within_limit : ℕ → ℕ → S → S × Bool
  within_limit a b s = callback processor a (min b limit) s

  siblings_parser-within_limit : siblings_parser fs fuel limit processor callback ≡ within_limit
  unfolding siblings_parser
  siblings_parser-within_limit =
      fun_ext λ a. fun_ext λ b. fun_ext λ s. ap (λ (e : ℕ). callback processor a e s) (ground arith)

  -- The siblings of a processor, for files that hold lists, where no read fails: the callback has
  -- the processor and, item by item, the range with an end behind the limit moved back to it.
  pub detect_siblings-list_text :
      ReadsSucceed fs
      → processor < 2 ^ 32
      → (xs ys : Item × List Item) → HoldsList fs fuel (filename core_siblings_suffix processor) xs
      → HoldsList fs fuel (filename thread_siblings_suffix processor) ys
      → (detect_core_siblings fs fuel limit processor callback context
          ≡ some (run_items within_limit (xs.0 ∷ xs.1) (context, true)))
        × (detect_thread_siblings fs fuel limit processor callback context
            ≡ some (run_items within_limit (ys.0 ∷ ys.1) (context, true)))
  unfolding detect_core_siblings detect_thread_siblings
  detect_siblings-list_text reads small xs ys hx hy = (
    rw (format_filename-fits core_siblings_suffix processor small, siblings_parser-within_limit)
        (parse_cpulist-list_text fs within_limit context reads _ hx.file hx.opened fuel xs.0 xs.1
          hx.enough hx.text hx.all_items hx.short),
    rw (format_filename-fits thread_siblings_suffix processor small, siblings_parser-within_limit)
        (parse_cpulist-list_text fs within_limit context reads _ hy.file hy.opened fuel ys.0 ys.1
          hy.enough hy.text hy.all_items hy.short),
  )
