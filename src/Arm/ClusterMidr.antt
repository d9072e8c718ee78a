-- ===== src/Arm/ClusterMidr.antt =====
-- src/arm/linux/midr.c: the Main ID Register of each cluster, where /proc/cpuinfo does not tell it of
-- all of them. A cluster is known by its leader. `cluster_leaders` is a function of the index, and what
-- its elements hold before they are set is an argument; so is what a read outside of the array of
-- processors gives. A write outside of that array changes nothing.
pub mod Assigned
pub mod Configs
pub mod Chipset
pub mod BigLittle
pub mod Scan
pub mod Detect
use cpuinfo.Base.{
  ℕ, zero, suc, bit_and, bit_or, bit_xor, Bool, true, not, List, ◌&&◌, ◌==◌, if◌then◌else◌, has,
  get_or, modify,
}
use cpuinfo.Arm.Midr.{implementer_mask, variant_mask, part_mask, revision_mask}
use cpuinfo.Arm.Processor.{
  Processor, valid_implementer, valid_variant, valid_part, valid_revision, valid_midr,
}

-- `CLUSTERS_MAX`
abbrev pub clusters_max : ℕ
clusters_max = 3

-- The mask of the known fields of a register.
unfoldable pub known_midr_mask : ℕ → ℕ
known_midr_mask flags =
    bit_or
      (bit_or
        (bit_or (if has flags valid_implementer then implementer_mask else 0)
          (if has flags valid_variant then variant_mask else 0))
        (if has flags valid_part then part_mask else 0))
      (if has flags valid_revision then revision_mask else 0)

-- The bits under the mask are those of a register.
unfoldable pub agrees_with_midr : Processor → ℕ → Bool
unfolding known_midr_mask
agrees_with_midr p midr = not (has (bit_xor p.midr midr) (known_midr_mask p.flags))

-- The loop over the clusters from `c` on, of which `n` are left, that returns false at the first that
-- does not pass.
abbrev pub all_clusters : (ℕ → Bool) → ℕ → ℕ → Bool
all_clusters test zero c = true
all_clusters test (suc n) c = test c && all_clusters test n (suc c)

-- The loop over the clusters from `c` on that changes processors.
abbrev pub each_cluster :
    (ℕ → List Processor → List Processor) → ℕ → ℕ → List Processor → List Processor
each_cluster body zero c ps = ps
each_cluster body (suc n) c ps = each_cluster body n (suc c) (body c ps)

-- A register, and flags that are set beside it.
abbrev pub put_midr : ℕ → ℕ → Processor → Processor
put_midr midr flags p = record p { midr = midr; flags = bit_or p.flags flags }
