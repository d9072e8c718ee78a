-- ===== src/Arm/Order/Laws.antt =====
-- The comparison is transitive, and turns round with its arguments, as `qsort` relies on.
use cpuinfo.Base.{
  ℕ, ◌<◌, Bool, true, false, List, [], ◌∷◌, ltb, ◌==◌, ==_iff, ◌≡◌, refl, sym, ap, ◌∙◌, arith, inl,
  inr, ◌⊎◌, false≢true,
}
use cpuinfo.Arm.Midr.Cores.{Arch}
use cpuinfo.Arm.Processor.{Processor}
use cpuinfo.Arm.Order.{Compare, before, equal, after, cmp, descending, cmp_arm_linux_processor}
use cpuinfo.Arm.Order.Keys.{compare_keys, keys, cmp_arm_linux_processor-compare_keys}

abbrev is_before : Compare → Bool
is_before before = true
is_before equal = false
is_before after = false

abbrev pub flip : Compare → Compare
flip before = after
flip equal = equal
flip after = before

descending_lt : (a b : ℕ) (rest : Compare) → b < a → descending a b rest ≡ before
unfolding descending
descending_lt a b rest h =
    let other : (a == b) ≡ false = ground arith in
    let above : ltb b a ≡ true = ground arith in rw (other, above) refl

descending_gt : (a b : ℕ) (rest : Compare) → a < b → descending a b rest ≡ after
unfolding descending
descending_gt a b rest h =
    let other : (a == b) ≡ false = ground arith in
    let above : ltb b a ≡ false = ground arith in rw (other, above) refl

descending_eq : (a b : ℕ) (rest : Compare) → a ≡ b → descending a b rest ≡ rest
unfolding descending
descending_eq a b rest h = let same = (==_iff a b).1 h in rw same refl

trichotomy : (a b : ℕ) → (a ≡ b) ⊎ ((b < a) ⊎ (a < b))
trichotomy a b = ground arith

-- What it takes for the first to come before.
descending-before :
    (a b : ℕ) (rest : Compare)
    → descending a b rest ≡ before
    → (b < a) ⊎ ((a ≡ b) × (rest ≡ before))
descending-before a b rest h = elim (trichotomy a b) [
  | inl e ↦ inr (e, sym (descending_eq a b rest e) ∙ h)
  | inr (inl above) ↦ inl above
  | inr (inr below) ↦ absurd (false≢true (ap is_before (sym (descending_gt a b rest below) ∙ h)))
]

descending-flip : (a b : ℕ) (r : Compare) → descending b a (flip r) ≡ flip (descending a b r)
descending-flip a b r = elim (trichotomy a b) [
  | inl e ↦ descending_eq b a (flip r) (sym e) ∙ ap flip (sym (descending_eq a b r e))
  | inr (inl above) ↦ descending_gt b a (flip r) above ∙ ap flip (sym (descending_lt a b r above))
  | inr (inr below) ↦ descending_lt b a (flip r) below ∙ ap flip (sym (descending_gt a b r below))
]

descending_trans :
    (a b c : ℕ) (r s t : Compare)
    → (r ≡ before → s ≡ before → t ≡ before)
    → descending a b r ≡ before
    → descending b c s ≡ before
    → descending a c t ≡ before
descending_trans a b c r s t rest h k = elim (descending-before a b r h) [
  | inl above ↦ elim (descending-before b c s k) [
    | inl more ↦ descending_lt a c t (omega arith)
    | inr (e, _) ↦ descending_lt a c t (omega arith)
  ]
  | inr (e, rh) ↦ elim (descending-before b c s k) [
    | inl more ↦ descending_lt a c t (omega arith)
    | inr (e', sh) ↦ descending_eq a c t (e ∙ e') ∙ rest rh sh
  ]
]

cmp-lt : (i j : ℕ) → cmp i j ≡ before → i < j
unfolding cmp
cmp-lt i j h = elim (trichotomy i j) [
  | inl e ↦
      let above : ltb j i ≡ false = ground arith in
      let below : ltb i j ≡ false = ground arith in
      let result : cmp i j ≡ equal = rw (above, below) refl in
      absurd (false≢true (ap is_before (sym result ∙ h)))
  | inr (inl above) ↦
      let is : ltb j i ≡ true = ground arith in
      let result : cmp i j ≡ after = rw is refl in
      absurd (false≢true (ap is_before (sym result ∙ h)))
  | inr (inr below) ↦ below
]

lt-cmp : (i j : ℕ) → i < j → cmp i j ≡ before
unfolding cmp
lt-cmp i j h =
    let above : ltb j i ≡ false = ground arith in
    let below : ltb i j ≡ true = ground arith in rw (above, below) refl

cmp-flip : (i j : ℕ) → cmp j i ≡ flip (cmp i j)
unfolding cmp
cmp-flip i j = elim (trichotomy i j) [
  | inl e ↦
      let above : ltb j i ≡ false = ground arith in
      let below : ltb i j ≡ false = ground arith in rw (above, below) refl
  | inr (inl above) ↦
      let is : ltb j i ≡ true = ground arith in
      let not : ltb i j ≡ false = ground arith in rw (is, not) refl
  | inr (inr below) ↦
      let is : ltb i j ≡ true = ground arith in
      let not : ltb j i ≡ false = ground arith in rw (is, not) refl
]

compare_keys_trans :
    (xs ys zs : List ℕ) (i j k : ℕ)
    → compare_keys xs i ys j ≡ before
    → compare_keys ys j zs k ≡ before
    → compare_keys xs i zs k ≡ before
compare_keys_trans [] [] [] i j k h l =
    let first = cmp-lt i j h in let second = cmp-lt j k l in lt-cmp i k (omega arith)
compare_keys_trans [] [] (z ∷ zs) i j k h l = absurd (false≢true (ap is_before l))
compare_keys_trans [] (y ∷ ys) zs i j k h l = absurd (false≢true (ap is_before h))
compare_keys_trans (x ∷ xs) [] zs i j k h l = absurd (false≢true (ap is_before h))
compare_keys_trans (x ∷ xs) (y ∷ ys) [] i j k h l = absurd (false≢true (ap is_before l))
compare_keys_trans (x ∷ xs) (y ∷ ys) (z ∷ zs) i j k h l =
    descending_trans x y z _ _ _ (compare_keys_trans xs ys zs i j k) h l

compare_keys-flip :
    (xs ys : List ℕ) (i j : ℕ) → compare_keys ys j xs i ≡ flip (compare_keys xs i ys j)
compare_keys-flip [] [] i j = cmp-flip i j
compare_keys-flip [] (y ∷ ys) i j = refl
compare_keys-flip (x ∷ xs) [] i j = refl
compare_keys-flip (x ∷ xs) (y ∷ ys) i j =
    ap (descending y x) (compare_keys-flip xs ys i j) ∙ descending-flip x y (compare_keys xs i ys j)

-- With its arguments exchanged, the comparison returns the opposite.
pub cmp_arm_linux_processor-flip :
    (arch : Arch) (a b : Processor)
    → cmp_arm_linux_processor arch b a ≡ flip (cmp_arm_linux_processor arch a b)
cmp_arm_linux_processor-flip arch a b =
    cmp_arm_linux_processor-compare_keys arch b a
    ∙ compare_keys-flip (keys arch a) (keys arch b) a.system_processor_id b.system_processor_id
    ∙ ap flip (sym (cmp_arm_linux_processor-compare_keys arch a b))

-- A processor that comes before a second, which comes before a third, comes before the third.
pub cmp_arm_linux_processor_trans :
    (arch : Arch) (a b c : Processor)
    → cmp_arm_linux_processor arch a b ≡ before
    → cmp_arm_linux_processor arch b c ≡ before
    → cmp_arm_linux_processor arch a c ≡ before
cmp_arm_linux_processor_trans arch a b c h k =
    cmp_arm_linux_processor-compare_keys arch a c
    ∙ compare_keys_trans (keys arch a) (keys arch b) (keys arch c) _ b.system_processor_id _
        (sym (cmp_arm_linux_processor-compare_keys arch a b) ∙ h)
        (sym (cmp_arm_linux_processor-compare_keys arch b c) ∙ k)
