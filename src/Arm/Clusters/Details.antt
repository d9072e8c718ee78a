-- ===== src/Arm/Clusters/Details.antt =====
-- What src/arm/linux/clusters.c knows of a cluster of cores, and the checks of a processor against it,
-- which the two ways to assign clusters share. The source writes the six checks out; they differ in
-- the flag, the value and the assignment.
pub mod Keeps
pub mod Checks
use cpuinfo.Base.{ℕ, bit_and, bit_or, Bool, true, false, List, [], ◌∷◌, ◌==◌, has, if◌then◌else◌}
use cpuinfo.Linux.Flags.{flag_max_frequency, flag_min_frequency}
use cpuinfo.Arm.Midr.{
  implementer_mask, variant_mask, part_mask, revision_mask, midr_copy_implementer,
  midr_copy_variant, midr_copy_part, midr_copy_revision,
}
use cpuinfo.Arm.Processor.{Processor, valid_implementer, valid_variant, valid_part, valid_revision}

-- `cluster_flags`, `cluster_midr`, `cluster_max_frequency` and `cluster_min_frequency`.
pub record Cluster : Type 0 where
  pub flags : ℕ
  pub midr : ℕ
  pub max_frequency : ℕ
  pub min_frequency : ℕ

pub data Detail : Type 0 where
  min_frequency max_frequency implementer variant part revision : Detail

abbrev pub flag_of : Detail → ℕ
flag_of min_frequency = flag_min_frequency
flag_of max_frequency = flag_max_frequency
flag_of implementer = valid_implementer
flag_of variant = valid_variant
flag_of part = valid_part
flag_of revision = valid_revision

abbrev pub processor_value : Detail → Processor → ℕ
processor_value min_frequency p = p.min_frequency
processor_value max_frequency p = p.max_frequency
processor_value implementer p = bit_and p.midr implementer_mask
processor_value variant p = bit_and p.midr variant_mask
processor_value part p = bit_and p.midr part_mask
processor_value revision p = bit_and p.midr revision_mask

abbrev pub cluster_value : Detail → Cluster → ℕ
cluster_value min_frequency c = c.min_frequency
cluster_value max_frequency c = c.max_frequency
cluster_value implementer c = bit_and c.midr implementer_mask
cluster_value variant c = bit_and c.midr variant_mask
cluster_value part c = bit_and c.midr part_mask
cluster_value revision c = bit_and c.midr revision_mask

-- Copy a detail from the processor to the cluster, and set its flag.
unfoldable pub learn : Detail → Processor → Cluster → Cluster
learn min_frequency p c = record c {
  min_frequency = p.min_frequency;
  flags = bit_or c.flags flag_min_frequency;
}
learn max_frequency p c = record c {
  max_frequency = p.max_frequency;
  flags = bit_or c.flags flag_max_frequency;
}
learn implementer p c = record c {
  midr = midr_copy_implementer c.midr p.midr;
  flags = bit_or c.flags valid_implementer;
}
learn variant p c = record c {
  midr = midr_copy_variant c.midr p.midr;
  flags = bit_or c.flags valid_variant;
}
learn part p c = record c { midr = midr_copy_part c.midr p.midr; flags = bit_or c.flags valid_part }
learn revision p c = record c {
  midr = midr_copy_revision c.midr p.midr;
  flags = bit_or c.flags valid_revision;
}

-- One check: whether the detail of the processor, if known, is that of the cluster, which learns it
-- if it does not know it.
unfoldable pub check : Detail → Processor → Cluster → Cluster × Bool
check d p c =
    if has p.flags (flag_of d)
    then (if has c.flags (flag_of d)
        then (c, cluster_value d c == processor_value d p)
        else (learn d p c, true))
    else (c, true)

-- The checks one after the other; the first that fails ends them, and what the cluster has learned
-- before stays.
unfoldable pub check_all : List Detail → Processor → Cluster → Cluster × Bool
unfolding check
check_all [] p c = (c, true)
check_all (d ∷ ds) p c =
    let (c', agrees) = check d p c in
    let rest = check_all ds p c' in if agrees then rest else (c', false)

-- The order of the source.
abbrev pub details : List Detail
details = min_frequency ∷ max_frequency ∷ implementer ∷ variant ∷ part ∷ revision ∷ []

unfoldable pub learn_known : List Detail → Processor → Cluster → Cluster
unfolding learn
learn_known [] p c = c
learn_known (d ∷ ds) p c = learn_known ds p (if has p.flags (flag_of d) then learn d p c else c)
