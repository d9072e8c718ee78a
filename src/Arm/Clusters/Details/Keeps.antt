-- ===== src/Arm/Clusters/Details/Keeps.antt =====
-- What it means that the details known of a cluster stay, and that a processor agrees with them, and
-- what learning a detail does to both.
use cpuinfo.Base.{bit_and, bit_or, true, has, ◌≡◌, ◌≢◌, refl, ◌∙◌, arith}
use cpuinfo.Base.Bits.{has-or_self, has-or_other}
use cpuinfo.Arm.Processor.{Processor}
use cpuinfo.Arm.Midr.Fields.{merge_under, merge_beside}
use cpuinfo.Arm.Midr.{
  implementer_mask, variant_mask, part_mask, revision_mask, midr_copy_implementer,
  midr_copy_variant, midr_copy_part, midr_copy_revision,
}
use cpuinfo.Arm.Clusters.Details.{
  Cluster, Detail, min_frequency, max_frequency, implementer, variant, part, revision, flag_of,
  processor_value, cluster_value, learn,
}

abbrev pub Knows : Cluster → Detail → Type 0
Knows c d = has c.flags (flag_of d) ≡ true

-- What is known of the first is known of the second.
abbrev pub Keeps : Cluster → Cluster → Type 0
Keeps c c' = (d : Detail) → Knows c d → Knows c' d × (cluster_value d c' ≡ cluster_value d c)

-- The cluster knows a detail if the processor has it, and it is the same.
abbrev pub AgreesOn : Detail → Processor → Cluster → Type 0
AgreesOn d p c =
    has p.flags (flag_of d) ≡ true → Knows c d × (cluster_value d c ≡ processor_value d p)

abbrev pub Agrees : Processor → Cluster → Type 0
Agrees p c = (d : Detail) → AgreesOn d p c

pub flags_disjoint : (d e : Detail) → d ≢ e → bit_and (flag_of d) (flag_of e) ≡ 0
flags_disjoint min_frequency min_frequency h = absurd (h refl)
flags_disjoint max_frequency max_frequency h = absurd (h refl)
flags_disjoint implementer implementer h = absurd (h refl)
flags_disjoint variant variant h = absurd (h refl)
flags_disjoint part part h = absurd (h refl)
flags_disjoint revision revision h = absurd (h refl)
flags_disjoint _ _ h = refl

pub Keeps-refl : (c : Cluster) → Keeps c c
Keeps-refl c d h = (h, refl)

pub Keeps-trans : (a b c : Cluster) → Keeps a b → Keeps b c → Keeps a c
Keeps-trans a b c f g d h = let (hb, eb) = f d h in let (hc, ec) = g d hb in (hc, ec ∙ eb)

-- A processor that agrees goes on to agree when more is learned.
pub AgreesOn-Keeps :
    (d : Detail) (p : Processor) (c c' : Cluster) → Keeps c c' → AgreesOn d p c → AgreesOn d p c'
AgreesOn-Keeps d p c c' k a h = let (hc, ec) = a h in let (hc', ec') = k d hc in (hc', ec' ∙ ec)

pub learn_flags :
    (d : Detail) (p : Processor) (c : Cluster) → (learn d p c).flags ≡ bit_or c.flags (flag_of d)
unfolding learn
learn_flags min_frequency p c = refl
learn_flags max_frequency p c = refl
learn_flags implementer p c = refl
learn_flags variant p c = refl
learn_flags part p c = refl
learn_flags revision p c = refl

pub learn_value :
    (d : Detail) (p : Processor) (c : Cluster) → cluster_value d (learn d p c) ≡ processor_value d p
unfolding learn midr_copy_implementer midr_copy_variant midr_copy_part midr_copy_revision
learn_value min_frequency p c = refl
learn_value max_frequency p c = refl
learn_value implementer p c = merge_under implementer_mask implementer_mask c.midr p.midr refl refl
learn_value variant p c = merge_under variant_mask variant_mask c.midr p.midr refl refl
learn_value part p c = merge_under part_mask part_mask c.midr p.midr refl refl
learn_value revision p c = merge_under revision_mask revision_mask c.midr p.midr refl refl

pub learn_other_value :
    (d e : Detail) (p : Processor) (c : Cluster)
    → d ≢ e
    → cluster_value e (learn d p c) ≡ cluster_value e c
unfolding learn midr_copy_implementer midr_copy_variant midr_copy_part midr_copy_revision
learn_other_value min_frequency min_frequency p c h = absurd (h refl)
learn_other_value max_frequency max_frequency p c h = absurd (h refl)
learn_other_value implementer implementer p c h = absurd (h refl)
learn_other_value variant variant p c h = absurd (h refl)
learn_other_value part part p c h = absurd (h refl)
learn_other_value revision revision p c h = absurd (h refl)
learn_other_value implementer variant p c h =
    merge_beside implementer_mask variant_mask c.midr p.midr refl refl
learn_other_value implementer part p c h =
    merge_beside implementer_mask part_mask c.midr p.midr refl refl
learn_other_value implementer revision p c h =
    merge_beside implementer_mask revision_mask c.midr p.midr refl refl
learn_other_value variant implementer p c h =
    merge_beside variant_mask implementer_mask c.midr p.midr refl refl
learn_other_value variant part p c h = merge_beside variant_mask part_mask c.midr p.midr refl refl
learn_other_value variant revision p c h =
    merge_beside variant_mask revision_mask c.midr p.midr refl refl
learn_other_value part implementer p c h =
    merge_beside part_mask implementer_mask c.midr p.midr refl refl
learn_other_value part variant p c h = merge_beside part_mask variant_mask c.midr p.midr refl refl
learn_other_value part revision p c h = merge_beside part_mask revision_mask c.midr p.midr refl refl
learn_other_value revision implementer p c h =
    merge_beside revision_mask implementer_mask c.midr p.midr refl refl
learn_other_value revision variant p c h =
    merge_beside revision_mask variant_mask c.midr p.midr refl refl
learn_other_value revision part p c h = merge_beside revision_mask part_mask c.midr p.midr refl refl
learn_other_value _ _ p c h = refl

-- A detail that is not known is learned without loss of another.
pub learn-Keeps : (d : Detail) (p : Processor) (c : Cluster) → ¬ Knows c d → Keeps c (learn d p c)
learn-Keeps d p c n e h =
    let other : d ≢ e = λ (q : d ≡ e). n (rw q h) in
    let kept = has-or_other c.flags (flag_of d) (flag_of e) (flags_disjoint d e other) in
    (rw (learn_flags, kept) h, learn_other_value d e p c other)

flag_of-nonzero : (d : Detail) → flag_of d ≢ 0
flag_of-nonzero min_frequency = ground arith
flag_of-nonzero max_frequency = ground arith
flag_of-nonzero implementer = ground arith
flag_of-nonzero variant = ground arith
flag_of-nonzero part = ground arith
flag_of-nonzero revision = ground arith

pub learn-AgreesOn : (d : Detail) (p : Processor) (c : Cluster) → AgreesOn d p (learn d p c)
learn-AgreesOn d p c h =
    (rw learn_flags (has-or_self c.flags (flag_of d) (flag_of-nonzero d)), learn_value d p c)
