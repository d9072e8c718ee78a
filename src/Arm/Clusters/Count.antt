-- ===== src/Arm/Clusters/Count.antt =====
-- `cpuinfo_arm_linux_count_cluster_processors` of src/arm/linux/clusters.c. Both passes read the flags
-- and leaders of the processors as they were, for neither changes these. An access outside of the array changes and reads nothing.
pub mod Totals
pub mod Copies
use cpuinfo.Base.{
  ℕ, zero, suc, ◌+◌, Bool, List, [], ◌∷◌, if◌then◌else◌, bitmask_all, u32, get_or, set,
}
use cpuinfo.Linux.Flags.{flag_valid}
use cpuinfo.Arm.Processor.{Processor}

-- `package_processor_count += 1` for the processor at an index.
unfoldable pub count_one : List Processor → ℕ → List Processor
count_one [] i = []
count_one (p ∷ ps) zero =
    record p { package_processor_count = u32 (p.package_processor_count + 1) } ∷ ps
count_one (p ∷ ps) (suc i) = p ∷ count_one ps i

-- The first pass: the processors that are left, and the array.
unfoldable pub accumulate : List Processor → List Processor → List Processor
unfolding count_one
accumulate [] processors = processors
accumulate (p ∷ ps) processors = accumulate ps (
    if bitmask_all p.flags flag_valid then count_one processors p.package_leader_id else processors)

-- The number in the array for the leader.
abbrev pub count_at : List Processor → ℕ → ℕ
count_at [] i = 0
count_at (p ∷ ps) zero = p.package_processor_count
count_at (p ∷ ps) (suc i) = count_at ps i

unfoldable pub set_count : List Processor → ℕ → ℕ → List Processor
set_count [] i n = []
set_count (p ∷ ps) zero n = record p { package_processor_count = n } ∷ ps
set_count (p ∷ ps) (suc i) n = p ∷ set_count ps i n

-- The second pass, from processor `i` on, for the processors that are left.
unfoldable pub copy_counts : ℕ → List Processor → List Processor → List Processor
unfolding set_count
copy_counts i [] processors = processors
copy_counts i (p ∷ ps) processors = copy_counts (i + 1) ps (
    if bitmask_all p.flags flag_valid
    then set_count processors i (count_at processors p.package_leader_id)
    else processors)

unfoldable pub count_cluster_processors : List Processor → List Processor
unfolding accumulate copy_counts
count_cluster_processors processors = copy_counts 0 processors (accumulate processors processors)
