-- ===== src/Linux/Processors/Detect.antt =====
-- The functions of src/linux/processors.c that read lists of processors. The array of structures is
-- the list of their `flags` fields.
pub mod Marks
pub mod Highest
use cpuinfo.Base.{
  uint32_max, ℕ, zero, suc, ◌+◌, ◌-◌, ◌^◌, bit_or, Bool, true, false, Option, none, some, List,
  Bytes, get_or, set, ltb, leb, if◌then◌else◌,
}
use cpuinfo.Linux.File.{FileSystem}
use cpuinfo.Linux.Number.{u32}
use cpuinfo.Linux.Cpulist.{parse_cpulist}
use cpuinfo.Linux.Processors.Filename.{
  possible_cpulist_filename, present_cpulist_filename, core_siblings_suffix, thread_siblings_suffix,
  format_filename,
}

-- The state is the highest number so far. A range that ends at 2 ^ 32 has 0 for its end.
unfoldable pub max_processor_number_parser : ℕ → ℕ → ℕ → ℕ × Bool
max_processor_number_parser list_start list_end processor_number =
    let list_last = u32 (list_end + 2 ^ 32 - 1) in
    if ltb processor_number list_last then (list_last, true) else (processor_number, true)

-- What both callers make of the result.
unfoldable pub clip_max_processor : ℕ → Option (ℕ × Bool) → Option ℕ
clip_max_processor max_processors_count none = none
clip_max_processor max_processors_count (some (max_processor, false)) = some uint32_max
clip_max_processor max_processors_count (some (max_processor, true)) =
    if leb max_processors_count max_processor
    then some (u32 (max_processors_count + 2 ^ 32 - 1))
    else some max_processor

unfoldable pub get_max_possible_processor : FileSystem → ℕ → ℕ → Option ℕ
unfolding clip_max_processor
get_max_possible_processor fs fuel max_processors_count =
    clip_max_processor max_processors_count
      (parse_cpulist fs fuel possible_cpulist_filename max_processor_number_parser 0)

unfoldable pub get_max_present_processor : FileSystem → ℕ → ℕ → Option ℕ
unfolding clip_max_processor
get_max_present_processor fs fuel max_processors_count =
    clip_max_processor max_processors_count
      (parse_cpulist fs fuel present_cpulist_filename max_processor_number_parser 0)

module _ (max_processors_count detected_flag : ℕ) where
  -- The loop at `processor`, with the rounds that are left.
  pub mark_range : ℕ → ℕ → List ℕ → List ℕ
  mark_range zero processor flags = flags
  mark_range (suc left) processor flags = elim (leb max_processors_count processor) [
    | true ↦ flags
    | false ↦
        mark_range left (processor + 1)
          (set flags processor (bit_or (get_or flags processor 0) detected_flag))
  ]

  unfoldable pub detect_processor_parser : ℕ → ℕ → List ℕ → List ℕ × Bool
  unfolding mark_range
  detect_processor_parser list_start list_end flags =
      (mark_range (list_end - list_start) list_start flags, true)

-- The flags afterwards, and the status.
unfoldable pub detect_possible_processors : FileSystem → ℕ → ℕ → List ℕ → ℕ → Option (List ℕ × Bool)
detect_possible_processors fs fuel max_processors_count flags possible_flag =
    parse_cpulist fs fuel possible_cpulist_filename
      (detect_processor_parser max_processors_count possible_flag) flags

unfoldable pub detect_present_processors : FileSystem → ℕ → ℕ → List ℕ → ℕ → Option (List ℕ × Bool)
detect_present_processors fs fuel max_processors_count flags present_flag =
    parse_cpulist fs fuel present_cpulist_filename
      (detect_processor_parser max_processors_count present_flag) flags

module _ (fs : FileSystem) {S : Type 0} (fuel max_processors_count processor : ℕ)
    (callback : ℕ → ℕ → ℕ → S → S × Bool) where
  unfoldable pub siblings_parser : ℕ → ℕ → S → S × Bool
  siblings_parser list_start list_end context =
      callback processor list_start
        (if ltb max_processors_count list_end then max_processors_count else list_end) context

  -- The list in a file whose name fits its buffer.
  siblings_in : Option Bytes → S → Option (S × Bool)
  siblings_in none context = some (context, false)
  siblings_in (some name) context = parse_cpulist fs fuel name siblings_parser context

  unfoldable pub detect_core_siblings : S → Option (S × Bool)
  unfolding siblings_in
  detect_core_siblings context =
      siblings_in (format_filename core_siblings_suffix processor) context

  unfoldable pub detect_thread_siblings : S → Option (S × Bool)
  unfolding siblings_in
  detect_thread_siblings context =
      siblings_in (format_filename thread_siblings_suffix processor) context
