-- ===== src/Linux/Processors/Filename.antt =====
-- The names of the files, and `snprintf` into the buffers for those that hold a processor's number.
use cpuinfo.Base.{
  ℕ, ◌+◌, ◌≤◌, ◌<◌, ◌^◌, Option, none, some, ◌++◌, append-nil, Bytes, length, length-append, codes,
  leb, if◌then◌else◌, ◌≡◌, ◌∙◌, arith, false,
}
use cpuinfo.Linux.Number.Print.{decimal, decimal-IsDecimal}

-- `KERNEL_MAX_FILENAME`, `POSSIBLE_CPULIST_FILENAME` and `PRESENT_CPULIST_FILENAME`.
abbrev pub kernel_max_filename : Bytes
kernel_max_filename = codes "/sys/devices/system/cpu/kernel_max"

abbrev pub possible_cpulist_filename : Bytes
possible_cpulist_filename = codes "/sys/devices/system/cpu/possible"

abbrev pub present_cpulist_filename : Bytes
present_cpulist_filename = codes "/sys/devices/system/cpu/present"

-- What stands before the number in every format, and behind it in each.
abbrev pub cpu_prefix : Bytes
cpu_prefix = codes "/sys/devices/system/cpu/cpu"

abbrev pub max_frequency_suffix : Bytes
max_frequency_suffix = codes "/cpufreq/cpuinfo_max_freq"

abbrev pub min_frequency_suffix : Bytes
min_frequency_suffix = codes "/cpufreq/cpuinfo_min_freq"

abbrev pub package_id_suffix : Bytes
package_id_suffix = codes "/topology/physical_package_id"

abbrev pub core_id_suffix : Bytes
core_id_suffix = codes "/topology/core_id"

abbrev pub core_siblings_suffix : Bytes
core_siblings_suffix = codes "/topology/core_siblings_list"

abbrev pub thread_siblings_suffix : Bytes
thread_siblings_suffix = codes "/topology/thread_siblings_list"

-- The `..._FILENAME_SIZE` of a format. `STRINGIFY` does not expand its argument, so that the text
-- that stands for the number in it is `UINT32_MAX` itself; the last byte is the terminator.
abbrev pub filename_size : Bytes → ℕ
filename_size suffix = length (cpu_prefix ++ (codes "UINT32_MAX" ++ suffix)) + 1

-- What `snprintf` would write with room enough.
abbrev pub filename : Bytes → ℕ → Bytes
filename suffix processor = cpu_prefix ++ (decimal processor ++ suffix)

-- The name, or none where `chars_formatted` does not fit the buffer and the callers give up.
unfoldable pub format_filename : Bytes → ℕ → Option Bytes
format_filename suffix processor =
    if leb (filename_size suffix) (length (filename suffix processor))
    then none
    else some (filename suffix processor)

-- For every uint32_t the name fits the buffer: the callers' check for a name that was cut never
-- fires.
pub format_filename-fits :
    (suffix : Bytes) (processor : ℕ)
    → processor < 2 ^ 32
    → format_filename suffix processor ≡ some (filename suffix processor)
unfolding format_filename
format_filename-fits suffix processor h =
    let d = decimal-IsDecimal processor h in
    let fits : leb (filename_size suffix) (length (filename suffix processor)) ≡ false =
      let few : length (decimal processor) ≤ 10 = rw (d.before ∙ append-nil d.digits) d.few in
      let size = length-append (decimal processor) suffix in ground arith in
    rw fits
