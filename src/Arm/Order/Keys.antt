-- ===== src/Arm/Order/Keys.antt =====
-- The comparison orders the processors by a list of keys, and so it is an order.
use cpuinfo.Base.{
  ℕ, ◌<◌, Bool, true, false, List, [], ◌∷◌, length, ◌==◌, ==_iff, ltb, ltb→lt, if◌then◌else◌,
  bitmask_all, ◌≡◌, refl, sym, ap, ◌∙◌, ◌⊎◌, inl, inr, Bool-cases, arith,
}
use mathlib.Core.Path.{subst}
use cpuinfo.Linux.Flags.{flag_valid}
use cpuinfo.Arm.Midr.Cores.{Arch, midr_score_core}
use cpuinfo.Arm.Processor.{Processor}
use cpuinfo.Arm.Order.{
  Compare, before, equal, after, cmp, descending, usable_first, cmp_arm_linux_processor,
}

abbrev number_of : Bool → ℕ
number_of true = 1
number_of false = 0

-- A comparison key by key, in the words of the code: higher numbers come first, but for the last key, of which the lower one does.
abbrev pub compare_keys : List ℕ → ℕ → List ℕ → ℕ → Compare
compare_keys [] i [] j = cmp i j
compare_keys [] i (y ∷ ys) j = equal
compare_keys (x ∷ xs) i [] j = equal
compare_keys (x ∷ xs) i (y ∷ ys) j = descending x y (compare_keys xs i ys j)

-- Usable or not, the score of the core, its frequency, and the leader of its cluster.
abbrev pub keys : Arch → Processor → List ℕ
keys arch p =
    number_of (bitmask_all p.flags flag_valid)
    ∷ midr_score_core arch p.midr
    ∷ p.max_frequency
    ∷ p.package_leader_id
    ∷ []

usable-descending :
    (u v : Bool) (rest : Compare)
    → usable_first u v rest ≡ descending (number_of u) (number_of v) rest
unfolding usable_first descending
usable-descending true true rest = refl
usable-descending true false rest = refl
usable-descending false true rest = refl
usable-descending false false rest = refl

descending_same : (a b : ℕ) (rest : Compare) → a ≡ b → descending a b rest ≡ rest
unfolding descending
descending_same a b rest e = let same = (==_iff a b).1 e in rw same refl

same_midr :
    (arch : Arch) (a b : ℕ) (rest : Compare) (same : Bool)
    → (a == b) ≡ same
    → (if a == b then rest else descending (midr_score_core arch a) (midr_score_core arch b) rest)
      ≡ descending (midr_score_core arch a) (midr_score_core arch b) rest
same_midr arch a b rest true e =
    rw e (sym (descending_same _ _ rest (ap (midr_score_core arch) ((==_iff a b).0 e))))
same_midr arch a b rest false e = rw e refl

-- The comparison of the code, without its shortcuts.
pub cmp_arm_linux_processor-compare_keys :
    (arch : Arch) (a b : Processor)
    → cmp_arm_linux_processor arch a b
      ≡ compare_keys (keys arch a) a.system_processor_id (keys arch b) b.system_processor_id
unfolding cmp_arm_linux_processor
cmp_arm_linux_processor-compare_keys arch a b =
    ap (usable_first (bitmask_all a.flags flag_valid) (bitmask_all b.flags flag_valid))
      (same_midr arch a.midr b.midr _ _ refl)
    ∙ usable-descending (bitmask_all a.flags flag_valid) (bitmask_all b.flags flag_valid) _

-- The first key that differs is the higher one for `xs`; where none differs, `i` is below `j`.
abbrev pub Precedes : List ℕ → ℕ → List ℕ → ℕ → Type 0
Precedes [] i [] j = i < j
Precedes [] i (y ∷ ys) j = ⊥
Precedes (x ∷ xs) i [] j = ⊥
Precedes (x ∷ xs) i (y ∷ ys) j = (y < x) ⊎ ((x ≡ y) × Precedes xs i ys j)

-- What a result of a comparison says.
abbrev pub Says : Compare → List ℕ → ℕ → List ℕ → ℕ → Type 0
Says before xs i ys j = Precedes xs i ys j
Says equal xs i ys j = (xs ≡ ys) × (i ≡ j)
Says after xs i ys j = Precedes ys j xs i

cmp-Says : (i j : ℕ) → Says (cmp i j) [] i [] j
unfolding cmp
cmp-Says i j = elim (Bool-cases (ltb j i)) [
  | inl above ↦ rw above (ltb→lt j i above)
  | inr below ↦ elim (Bool-cases (ltb i j)) [
    | inl lower ↦ rw (below, lower) (ltb→lt i j lower)
    | inr higher ↦ rw (below, higher) (refl, ground arith)
  ]
]

more-Says :
    (r : Compare) (x : ℕ) (xs : List ℕ) (i : ℕ) (ys : List ℕ) (j : ℕ)
    → Says r xs i ys j
    → Says r (x ∷ xs) i (x ∷ ys) j
more-Says before x xs i ys j h = inr (refl, h)
more-Says equal x xs i ys j (same, number) = (ap (λ (l : List ℕ). x ∷ l) same, number)
more-Says after x xs i ys j h = inr (refl, h)

compare_keys-Says :
    (xs : List ℕ) (i : ℕ) (ys : List ℕ) (j : ℕ)
    → length xs ≡ length ys
    → Says (compare_keys xs i ys j) xs i ys j
unfolding descending
compare_keys-Says [] i [] j h = cmp-Says i j
compare_keys-Says [] i (y ∷ ys) j h = absurd (omega arith)
compare_keys-Says (x ∷ xs) i [] j h = absurd (omega arith)
compare_keys-Says (x ∷ xs) i (y ∷ ys) j h = elim (Bool-cases (x == y)) [
  | inl e ↦
      let same : y ≡ x = sym ((==_iff x y).0 e) in
      let rest = compare_keys-Says xs i ys j (omega arith) in
      rw e (
        subst (λ (k : ℕ). Says (compare_keys xs i ys j) (x ∷ xs) i (k ∷ ys) j) (sym same)
          (more-Says (compare_keys xs i ys j) x xs i ys j rest))
  | inr other ↦ elim (Bool-cases (ltb y x)) [
    | inl above ↦ rw (other, above) (inl (ltb→lt y x above))
    | inr below ↦ rw (other, below) (inl (ground arith))
  ]
]

-- For all pairs of processors, with the keys usable or not, the score of the core, the frequency and
-- the leader of the cluster: the result is before where the first key that differs is higher for the
-- first processor, or no key differs and its number is lower; it is after where the same holds with
-- the two exchanged; and it is equal where no key differs and the numbers are the same.
pub cmp_arm_linux_processor-Says :
    (arch : Arch) (a b : Processor)
    → Says
        (cmp_arm_linux_processor arch a b)
        (keys arch a)
        a.system_processor_id
        (keys arch b)
        b.system_processor_id
cmp_arm_linux_processor-Says arch a b =
    subst (λ r. Says r (keys arch a) a.system_processor_id (keys arch b) b.system_processor_id)
      (sym (cmp_arm_linux_processor-compare_keys arch a b))
      (compare_keys-Says (keys arch a) a.system_processor_id (keys arch b) b.system_processor_id
        refl)
