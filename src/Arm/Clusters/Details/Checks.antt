-- ===== src/Arm/Clusters/Details/Checks.antt =====
-- The checks lose nothing that is known of a cluster, and a processor that passes them all agrees
-- with what is known afterwards.
use mathlib.Core.Path.{subst}
use cpuinfo.Base.{
  Bool, true, false, List, [], ◌∷◌, ◌==◌, ==_iff, has, ◌≡◌, refl, sym, inl, inr, ◌∙◌, false≢true,
  Bool-cases, All,
}
use cpuinfo.Base.Bits.{has-or_other}
use cpuinfo.Arm.Processor.{Processor}
use cpuinfo.Arm.Clusters.Details.{
  Cluster, Detail, min_frequency, max_frequency, implementer, variant, part, revision, flag_of,
  processor_value, cluster_value, learn, check, check_all, details, learn_known,
}
use cpuinfo.Arm.Clusters.Details.Keeps.{
  Keeps, AgreesOn, Agrees, Keeps-refl, Keeps-trans, AgreesOn-Keeps, flags_disjoint, learn_flags,
  learn_other_value, learn-Keeps, learn-AgreesOn,
}

-- The results of a check.
check-unknown :
    (d : Detail) (p : Processor) (c : Cluster)
    → has p.flags (flag_of d) ≡ false
    → check d p c ≡ (c, true)
unfolding check
check-unknown d p c k = rw k refl

check-known :
    (d : Detail) (p : Processor) (c : Cluster)
    → has p.flags (flag_of d) ≡ true
    → has c.flags (flag_of d) ≡ true
    → check d p c ≡ (c, cluster_value d c == processor_value d p)
unfolding check
check-known d p c k l = rw (k, l) refl

check-new :
    (d : Detail) (p : Processor) (c : Cluster)
    → has p.flags (flag_of d) ≡ true
    → has c.flags (flag_of d) ≡ false
    → check d p c ≡ (learn d p c, true)
unfolding check
check-new d p c k l = rw (k, l) refl

-- What a result says: nothing is lost, and if the processor passed, it agrees with what is known.
abbrev Sound : List Detail → Processor → Cluster → Cluster × Bool → Type 0
Sound ds p c r = Keeps c r.0 × (r.1 ≡ true → All (λ d. AgreesOn d p r.0) ds)

check_cases :
    (d : Detail) (p : Processor) (c : Cluster) (known learned : Bool)
    → has p.flags (flag_of d) ≡ known
    → has c.flags (flag_of d) ≡ learned
    → Keeps c (check d p c).0 × ((check d p c).1 ≡ true → AgreesOn d p (check d p c).0)
check_cases d p c false learned k l =
    rw (check-unknown d p c k) (Keeps-refl c, λ t h. absurd (false≢true (sym k ∙ h)))
check_cases d p c true true k l =
    rw (check-known d p c k l) (Keeps-refl c, λ t h. (l, (==_iff _ _).0 t))
check_cases d p c true false k l =
    rw (check-new d p c k l)
      (learn-Keeps d p c (λ h. false≢true (sym l ∙ h)), λ t. learn-AgreesOn d p c)

check-Keeps : (d : Detail) (p : Processor) (c : Cluster) → Keeps c (check d p c).0
check-Keeps d p c = (check_cases d p c _ _ refl refl).0

check-AgreesOn :
    (d : Detail) (p : Processor) (c : Cluster)
    → (check d p c).1 ≡ true
    → AgreesOn d p (check d p c).0
check-AgreesOn d p c = (check_cases d p c _ _ refl refl).1

check_all-passed :
    (d : Detail) (ds : List Detail) (p : Processor) (c c' : Cluster)
    → check d p c ≡ (c', true)
    → check_all (d ∷ ds) p c ≡ check_all ds p c'
unfolding check_all
check_all-passed d ds p c c' e = rw e refl

check_all-failed :
    (d : Detail) (ds : List Detail) (p : Processor) (c c' : Cluster)
    → check d p c ≡ (c', false)
    → check_all (d ∷ ds) p c ≡ (c', false)
unfolding check_all
check_all-failed d ds p c c' e = rw e refl

-- One check and then the others.
check_then :
    (d : Detail) (ds : List Detail) (p : Processor) (c c' : Cluster) (agrees : Bool)
    → check d p c ≡ (c', agrees)
    → Keeps c c'
    → (agrees ≡ true → AgreesOn d p c')
    → Sound ds p c' (check_all ds p c')
    → Sound (d ∷ ds) p c (check_all (d ∷ ds) p c)
check_then d ds p c c' true e k a (kr, ar) =
    subst (Sound (d ∷ ds) p c) (sym (check_all-passed d ds p c c' e))
      (Keeps-trans c c' _ k kr, λ t. (AgreesOn-Keeps d p c' _ kr (a refl), ar t))
check_then d ds p c c' false e k a rest =
    rw (check_all-failed d ds p c c' e) (k, λ t. absurd (false≢true t))

check_all-Sound : (ds : List Detail) (p : Processor) (c : Cluster) → Sound ds p c (check_all ds p c)
unfolding check_all
check_all-Sound [] p c = (Keeps-refl c, λ t. tt)
check_all-Sound (d ∷ ds) p c =
    check_then d ds p c _ _ refl (check-Keeps d p c) (check-AgreesOn d p c)
      (check_all-Sound ds p (check d p c).0)

Agrees-details : (p : Processor) (c : Cluster) → All (λ d. AgreesOn d p c) details → Agrees p c
Agrees-details p c a min_frequency = a.0
Agrees-details p c a max_frequency = a.1.0
Agrees-details p c a implementer = a.1.1.0
Agrees-details p c a variant = a.1.1.1.0
Agrees-details p c a part = a.1.1.1.1.0
Agrees-details p c a revision = a.1.1.1.1.1.0

pub check_all-Keeps : (p : Processor) (c : Cluster) → Keeps c (check_all details p c).0
check_all-Keeps p c = (check_all-Sound details p c).0

pub check_all-Agrees :
    (p : Processor) (c : Cluster)
    → (check_all details p c).1 ≡ true
    → Agrees p (check_all details p c).0
check_all-Agrees p c h = Agrees-details p _ ((check_all-Sound details p c).1 h)

Detail-discrete : Discrete Detail
Detail-discrete = hlevel

-- A detail that is learned of a processor does not end an agreement with it.
learn-AgreesOn_other :
    (e d : Detail) (p : Processor) (c : Cluster) → AgreesOn d p c → AgreesOn d p (learn e p c)
learn-AgreesOn_other e d p c a = elim (Detail-discrete e d) [
  | yes same ↦ subst (λ (x : Detail). AgreesOn x p (learn e p c)) same (learn-AgreesOn e p c)
  | no other ↦ λ h.
      let (k, v) = a h in
      let kept = has-or_other c.flags (flag_of e) (flag_of d) (flags_disjoint e d other) in
      (rw (learn_flags, kept) k, learn_other_value e d p c other ∙ v)
]

learn_known_keeps :
    (ds : List Detail) (d : Detail) (p : Processor) (c : Cluster)
    → AgreesOn d p c
    → AgreesOn d p (learn_known ds p c)
unfolding learn_known
learn_known_keeps [] d p c a = a
learn_known_keeps (e ∷ ds) d p c a =
    learn_known_keeps ds d p _ (elim (Bool-cases (has p.flags (flag_of e))) [
      | inl h ↦ rw h (learn-AgreesOn_other e d p c a)
      | inr h ↦ rw h a
    ])

learn_known-All :
    (ds : List Detail) (p : Processor) (c : Cluster)
    → All (λ d. AgreesOn d p (learn_known ds p c)) ds
unfolding learn_known
learn_known-All [] p c = tt
learn_known-All (d ∷ ds) p c = (
  learn_known_keeps ds d p _ (elim (Bool-cases (has p.flags (flag_of d))) [
    | inl h ↦ λ k. rw h (learn-AgreesOn d p c k)
    | inr h ↦ λ k. absurd (false≢true (sym h ∙ k))
  ]),
  learn_known-All ds p _,
)

pub learn_known-Agrees : (p : Processor) (c : Cluster) → Agrees p (learn_known details p c)
learn_known-Agrees p c = Agrees-details p _ (learn_known-All details p c)
