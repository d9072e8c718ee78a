-- ===== src/Linux/Flags.antt =====
-- The flags of a logical processor that src/linux/api.h declares for every architecture.
use cpuinfo.Base.{ℕ}

abbrev pub flag_present : ℕ
flag_present = 0x00000001

abbrev pub flag_possible : ℕ
flag_possible = 0x00000002

abbrev pub flag_max_frequency : ℕ
flag_max_frequency = 0x00000004

abbrev pub flag_min_frequency : ℕ
flag_min_frequency = 0x00000008

abbrev pub flag_package_cluster : ℕ
flag_package_cluster = 0x00000400

abbrev pub flag_proc_cpuinfo : ℕ
flag_proc_cpuinfo = 0x00000800

abbrev pub flag_valid : ℕ
flag_valid = 0x00001000
