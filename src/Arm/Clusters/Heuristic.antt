-- ===== src/Arm/Clusters/Heuristic.antt =====
-- `cpuinfo_arm_linux_detect_core_clusters_by_heuristic` of src/arm/linux/clusters.c, as compiled for
-- AArch64.
pub mod Passes
pub mod Sizes
pub mod Leaders
use cpuinfo.Base.{
  ℕ, ◌+◌, ◌-◌, ◌^◌, bit_or, Bool, true, false, not, Option, none, some, List, [], ◌∷◌, ◌==◌,
  if◌then◌else◌, has, u32, bitmask_all,
}
use cpuinfo.Linux.Flags.{flag_valid, flag_package_cluster}
use cpuinfo.Arm.Processor.{Processor}
use cpuinfo.Arm.Clusters.Details.{Cluster, check_all, details}

-- `cluster_processors` by the number of usable processors, as far as it is set. The case of five
-- processors is compiled for 32-bit Android only.
abbrev pub cluster_sizes : ℕ → Option (List ℕ)
cluster_sizes usable_processors =
    if usable_processors == 10
    then some (4 ∷ 4 ∷ 2 ∷ [])
    else if usable_processors == 8
    then some (4 ∷ 4 ∷ [])
    else if usable_processors == 6
    then some (4 ∷ 2 ∷ [])
    else none

-- The variables of the first pass; `sizes` is `cluster_processors` from `cluster` on.
pub record VerifyState : Type 0 where
  pub sizes : List ℕ
  pub expected_cluster_processors : ℕ
  pub expected_cluster_exists : Bool
  pub cluster_start : ℕ
  pub known : Cluster

-- How a step of the first pass ends: it goes on, the function returns false, or an element of
-- `cluster_processors` that is not set is read.
pub data Verdict : Type 0 where
  passed : VerifyState → Verdict
  contradicted : Verdict
  read_unset : Verdict

abbrev pub decrement : ℕ → ℕ
decrement n = u32 (n + 2 ^ 32 - 1)

-- The processor starts the next cluster; the last step is the `--` behind the branches.
unfoldable pub start_with : List ℕ → ℕ → Bool → Cluster → Verdict
start_with [] i reported c = read_unset
start_with (n ∷ sizes) i reported c = passed (record {
  sizes = sizes;
  expected_cluster_processors = decrement n;
  expected_cluster_exists = reported;
  cluster_start = i;
  known = c;
})

unfoldable pub verify_start : ℕ → Processor → VerifyState → Verdict
unfolding start_with
verify_start i p s =
    if has p.flags flag_package_cluster
    then (if not (p.package_leader_id == i)
        then contradicted
        else start_with s.sizes i true s.known)
    else start_with s.sizes i false (record (s.known) { flags = 0 })

-- The processor belongs to the cluster that the kernel reported.
unfoldable pub verify_reported : Processor → VerifyState → Verdict
verify_reported p s =
    if not (has p.flags flag_package_cluster)
    then contradicted
    else if not (p.package_leader_id == s.cluster_start)
    then contradicted
    else passed (record s { expected_cluster_processors = decrement s.expected_cluster_processors })

-- The processor belongs to a cluster that the kernel did not report.
unfoldable pub verify_assumed : Processor → VerifyState → Verdict
verify_assumed p s =
    if has p.flags flag_package_cluster
    then contradicted
    else let (c, agrees) = check_all details p s.known in
      if agrees
      then passed (record s {
        expected_cluster_processors = decrement s.expected_cluster_processors;
        known = c;
      })
      else contradicted

unfoldable pub verify_step : ℕ → Processor → VerifyState → Verdict
unfolding verify_start verify_reported verify_assumed
verify_step i p s =
    if bitmask_all p.flags flag_valid
    then (if s.expected_cluster_processors == 0
        then verify_start i p s
        else if s.expected_cluster_exists
        then verify_reported p s
        else verify_assumed p s)
    else passed s

-- The first pass, from processor `i` on.
unfoldable pub verify : ℕ → VerifyState → List Processor → Verdict
verify i s [] = passed s
verify i s (p ∷ ps) = elim (verify_step i p s) [
  | passed s' ↦ verify (i + 1) s' ps
  | contradicted ↦ contradicted
  | read_unset ↦ read_unset
]

-- The variables of the second pass.
pub record RegroupState : Type 0 where
  pub sizes : List ℕ
  pub expected_cluster_processors : ℕ
  pub cluster_start : ℕ

unfoldable pub regroup_start : List ℕ → ℕ → Processor → Option (Processor × RegroupState)
regroup_start [] i p = none
regroup_start (n ∷ sizes) i p =
    some (p, record { sizes = sizes; expected_cluster_processors = decrement n; cluster_start = i })

unfoldable pub regroup_step : ℕ → Processor → RegroupState → Option (Processor × RegroupState)
unfolding regroup_start
regroup_step i p s =
    if bitmask_all p.flags flag_valid
    then (if s.expected_cluster_processors == 0
        then regroup_start s.sizes i p
        else some (
          record p {
            package_leader_id = s.cluster_start;
            flags = bit_or p.flags flag_package_cluster;
          },
          record s { expected_cluster_processors = decrement s.expected_cluster_processors },
        ))
    else some (p, s)

abbrev pub prepend : Processor → Option (List Processor) → Option (List Processor)
prepend p none = none
prepend p (some ps) = some (p ∷ ps)

-- The second pass, from processor `i` on; `none` where an element that is not set is read.
unfoldable pub regroup : ℕ → RegroupState → List Processor → Option (List Processor)
regroup i s [] = some []
regroup i s (p ∷ ps) = elim (regroup_step i p s) [
  | none ↦ none
  | some (p', s') ↦ prepend p' (regroup (i + 1) s' ps)
]

abbrev pub with_status : Option (List Processor) → Option (List Processor × Bool)
with_status none = none
with_status (some ps) = some (ps, true)

-- What follows on the first pass.
unfoldable pub after_verify : List ℕ → List Processor → Verdict → Option (List Processor × Bool)
unfolding regroup
after_verify sizes processors contradicted = some (processors, false)
after_verify sizes processors read_unset = none
after_verify sizes processors (passed s) = with_status (
    regroup 0
      (record { sizes = sizes; expected_cluster_processors = 0; cluster_start = s.cluster_start })
      processors)

unfoldable pub by_sizes :
    Option (List ℕ) → VerifyState → List Processor → Option (List Processor × Bool)
unfolding verify after_verify
by_sizes none unset processors = some (processors, false)
by_sizes (some sizes) unset processors =
    after_verify sizes processors
      (verify 0 (record unset { sizes = sizes; expected_cluster_processors = 0 }) processors)

-- The processors and the result; `unset` has the variables that are not set before they are used.
-- `none` stands for a read outside of the part of `cluster_processors` that is set.
unfoldable pub detect_core_clusters_by_heuristic :
    VerifyState → ℕ → List Processor → Option (List Processor × Bool)
unfolding by_sizes
detect_core_clusters_by_heuristic unset usable_processors processors =
    by_sizes (cluster_sizes usable_processors) unset processors
