-- ===== src/Arm/ClusterMidr/Detect/Learn.antt =====
-- What the leader of a cluster learns from another processor of it, in the first loop of
-- `cpuinfo_arm_linux_detect_cluster_midr`.
use cpuinfo.Base.{
  ℕ, bit_and, bit_or, Bool, true, not, ◌&&◌, bitmask_all, has, not32, ◌≡◌, refl, ◌∙◌, Bool-cases,
  inl, inr,
}
use cpuinfo.Base.Bits.{bitmask_all-or_self, bitmask_all-or_mono, bitmask_all-or_other}
use cpuinfo.Linux.Flags.{flag_valid, flag_max_frequency}
use cpuinfo.Arm.Processor.{Processor, valid_implementer, valid_part, valid_midr}
use cpuinfo.Arm.ClusterMidr.Detect.{names_core, learn_frequency, learn_midr}

abbrev pub is_valid : Processor → Bool
is_valid p = bitmask_all p.flags flag_valid

abbrev pub has_midr : Processor → Bool
has_midr p = bitmask_all p.flags valid_midr

-- What the loop leaves alone, and what it only adds to.
pub record Kept (p q : Processor) : Type 0 where
  pub same_leader : q.package_leader_id ≡ p.package_leader_id
  pub same_count : q.package_processor_count ≡ p.package_processor_count
  pub same_valid : is_valid q ≡ is_valid p
  pub keeps_midr : has_midr p ≡ true → has_midr q ≡ true
  pub keeps_core : names_core p ≡ true → names_core q ≡ true

pub Kept-refl : (p : Processor) → Kept p p
Kept-refl p = record {
  same_leader = refl;
  same_count = refl;
  same_valid = refl;
  keeps_midr = λ h. h;
  keeps_core = λ h. h;
}

pub Kept-trans : (p q r : Processor) → Kept p q → Kept q r → Kept p r
Kept-trans p q r h k = record {
  same_leader = k.same_leader ∙ h.same_leader;
  same_count = k.same_count ∙ h.same_count;
  same_valid = k.same_valid ∙ h.same_valid;
  keeps_midr = λ m. k.keeps_midr (h.keeps_midr m);
  keeps_core = λ m. k.keeps_core (h.keeps_core m);
}

-- The register is known of a valid processor whose implementer and part are.
abbrev pub IsComplete : Processor → Type 0
IsComplete p = is_valid p ≡ true → names_core p ≡ true → has_midr p ≡ true

-- Flags outside of those that say a processor is valid are added.
flags-Kept :
    (p : Processor) (m khz new : ℕ)
    → bit_and new flag_valid ≡ 0
    → Kept p (record p { midr = m; max_frequency = khz; flags = bit_or p.flags new })
flags-Kept p m khz new h = record {
  same_leader = refl;
  same_count = refl;
  same_valid = bitmask_all-or_other p.flags new flag_valid h;
  keeps_midr = bitmask_all-or_mono p.flags new valid_midr;
  keeps_core = bitmask_all-or_mono p.flags new (bit_or valid_implementer valid_part);
}

learn_frequency-Kept : (p leader : Processor) → Kept leader (learn_frequency p leader)
unfolding learn_frequency
learn_frequency-Kept p leader =
    elim (Bool-cases (has (bit_and p.flags (not32 leader.flags)) flag_max_frequency)) [
      | inl h ↦ rw h (flags-Kept leader leader.midr p.max_frequency flag_max_frequency refl)
      | inr h ↦ rw h (Kept-refl leader)
    ]

learn_midr-Kept : (p leader : Processor) → Kept leader (learn_midr p leader)
unfolding learn_midr
learn_midr-Kept p leader = elim (Bool-cases (not (has_midr leader) && has_midr p)) [
  | inl h ↦ rw h (flags-Kept leader p.midr leader.max_frequency valid_midr refl)
  | inr h ↦ rw h (Kept-refl leader)
]

-- What a leader learns from a processor of its cluster.
abbrev pub learn : Processor → Processor → Processor
learn p leader = learn_midr p (learn_frequency p leader)

pub learn-Kept : (p leader : Processor) → Kept leader (learn p leader)
learn-Kept p leader =
    Kept-trans _ _ _ (learn_frequency-Kept p leader) (learn_midr-Kept p (learn_frequency p leader))

-- It has a register if one of the two had.
pub learn-has_midr : (p leader : Processor) → has_midr p ≡ true → has_midr (learn p leader) ≡ true
unfolding learn_midr
learn-has_midr p leader h = elim (Bool-cases (has_midr (learn_frequency p leader))) [
  | inl k ↦ rw k k
  | inr k ↦ rw (k, h) (bitmask_all-or_self (learn_frequency p leader).flags valid_midr)
]

learn_frequency-IsComplete :
    (p leader : Processor) → IsComplete leader → IsComplete (learn_frequency p leader)
unfolding learn_frequency
learn_frequency-IsComplete p leader c =
    elim (Bool-cases (has (bit_and p.flags (not32 leader.flags)) flag_max_frequency)) [
      | inl h ↦
          rw
            (
              h,
              bitmask_all-or_other leader.flags flag_max_frequency flag_valid refl,
              bitmask_all-or_other leader.flags flag_max_frequency
                  (bit_or valid_implementer valid_part) refl,
              bitmask_all-or_other leader.flags flag_max_frequency valid_midr refl,
            )
            c
      | inr h ↦ rw h c
    ]

learn_midr-IsComplete :
    (p leader : Processor) → IsComplete leader → IsComplete (learn_midr p leader)
unfolding learn_midr
learn_midr-IsComplete p leader c = elim (Bool-cases (not (has_midr leader) && has_midr p)) [
  | inl h ↦ rw h (λ _ _. bitmask_all-or_self leader.flags valid_midr)
  | inr h ↦ rw h c
]

pub learn-IsComplete : (p leader : Processor) → IsComplete leader → IsComplete (learn p leader)
learn-IsComplete p leader c = learn_midr-IsComplete p _ (learn_frequency-IsComplete p leader c)
