-- ===== src/Arm/Clusters/Count/Copies.antt =====
-- The second pass, and the counts in the end.
use mathlib.Core.Option.{none-ne-some, some-injective}
use cpuinfo.Base.{
  ℕ, zero, suc, ◌+◌, ◌<◌, true, some, List, [], ◌∷◌, ◌==◌, ==_iff, if◌then◌else◌, bitmask_all, u32,
  length, get_elem?, ◌≡◌, ◌≢◌, refl, sym, ap, ◌∙◌, arith, Bool-cases, inl, inr, false≢true,
}
use cpuinfo.Linux.Flags.{flag_valid}
use cpuinfo.Arm.Processor.{Processor}
use cpuinfo.Arm.Clusters.Count.{
  accumulate, count_at, set_count, copy_counts, count_cluster_processors,
}
use cpuinfo.Arm.Clusters.Count.Totals.{led_by, accumulate-led_by, length-accumulate, accumulate-lt}

count_at-set_count_self :
    (ps : List Processor) (i n : ℕ) → i < length ps → count_at (set_count ps i n) i ≡ n
unfolding set_count
count_at-set_count_self [] i n h = absurd (omega arith)
count_at-set_count_self (p ∷ ps) zero n h = refl
count_at-set_count_self (p ∷ ps) (suc i) n h = count_at-set_count_self ps i n (omega arith)

count_at-set_count_ne :
    (ps : List Processor) (i j n : ℕ) → i ≢ j → count_at (set_count ps i n) j ≡ count_at ps j
unfolding set_count
count_at-set_count_ne [] i j n h = refl
count_at-set_count_ne (p ∷ ps) zero zero n h = absurd (h refl)
count_at-set_count_ne (p ∷ ps) zero (suc j) n h = refl
count_at-set_count_ne (p ∷ ps) (suc i) zero n h = refl
count_at-set_count_ne (p ∷ ps) (suc i) (suc j) n h =
    count_at-set_count_ne ps i j n (λ e. h (ap suc e))

length-set_count : (ps : List Processor) (i n : ℕ) → length (set_count ps i n) ≡ length ps
unfolding set_count
length-set_count [] i n = refl
length-set_count (p ∷ ps) zero n = refl
length-set_count (p ∷ ps) (suc i) n = ap suc (length-set_count ps i n)

-- One step of the second pass.
abbrev copied : ℕ → Processor → List Processor → List Processor
copied i p state =
    if bitmask_all p.flags flag_valid
    then set_count state i (count_at state p.package_leader_id)
    else state

length-copied :
    (i : ℕ) (p : Processor) (state : List Processor) → length (copied i p state) ≡ length state
length-copied i p state = elim (Bool-cases (bitmask_all p.flags flag_valid)) [
  | inl v ↦ rw v (length-set_count state i _)
  | inr v ↦ rw v refl
]

copied_ne :
    (i j : ℕ) (p : Processor) (state : List Processor)
    → i ≢ j
    → count_at (copied i p state) j ≡ count_at state j
copied_ne i j p state h = elim (Bool-cases (bitmask_all p.flags flag_valid)) [
  | inl v ↦ rw v (count_at-set_count_ne state i j _ h)
  | inr v ↦ rw v refl
]

-- A leader of itself keeps its count.
copied_leader :
    (i l : ℕ) (p : Processor) (state : List Processor)
    → l < length state
    → (i ≡ l → p.package_leader_id ≡ l)
    → count_at (copied i p state) l ≡ count_at state l
copied_leader i l p state h leads = elim (Bool-cases (i == l)) [
  | inr other ↦ copied_ne i l p state (λ e. false≢true (sym other ∙ (==_iff _ _).1 e))
  | inl same ↦ elim (Bool-cases (bitmask_all p.flags flag_valid)) [
    | inr v ↦ rw v refl
    | inl v ↦
        let here : i ≡ l = (==_iff _ _).0 same in
        let own = leads here in rw (v, here, own) (count_at-set_count_self state l _ h)
  ]
]

-- The pass leaves the counts before the processor it is at.
copy_counts_before :
    (ps : List Processor) (i : ℕ) (state : List Processor) (j : ℕ)
    → j < i
    → count_at (copy_counts i ps state) j ≡ count_at state j
unfolding copy_counts
copy_counts_before [] i state j h = refl
copy_counts_before (p ∷ ps) i state j h =
    copy_counts_before ps (i + 1) _ j (omega arith) ∙ copied_ne i j p state (λ e. omega arith)

copy_counts_at :
    (ps : List Processor) (i : ℕ) (state : List Processor) (k : ℕ) (p : Processor) (l : ℕ)
    → get_elem? ps k ≡ some p
    → bitmask_all p.flags flag_valid ≡ true
    → p.package_leader_id ≡ l
    → i + k < length state
    → l < length state
    → ((j : ℕ) (q : Processor) → get_elem? ps j ≡ some q → i + j ≡ l → q.package_leader_id ≡ l)
    → count_at (copy_counts i ps state) (i + k) ≡ count_at state l
unfolding copy_counts
copy_counts_at [] i state k p l f v e h small leads = absurd (none-ne-some _ f)
copy_counts_at (x ∷ ps) i state zero p l f v e h small leads =
    let same : x ≡ p = some-injective _ _ f in
    let at : i + 0 ≡ i = omega arith in
    let valid = ap (λ (q : Processor). bitmask_all q.flags flag_valid) same ∙ v in
    let leader = ap (λ (q : Processor). q.package_leader_id) same ∙ e in
    ap (λ (j : ℕ). count_at (copy_counts (i + 1) ps (copied i x state)) j) at
    ∙ copy_counts_before ps (i + 1) (copied i x state) i (omega arith)
    ∙ rw (valid, leader) (count_at-set_count_self state i _ (omega arith))
copy_counts_at (x ∷ ps) i state (suc k) p l f v e h small leads =
    let at : i + suc k ≡ (i + 1) + k = omega arith in
    let long = length-copied i x state in
    ap (λ (j : ℕ). count_at (copy_counts (i + 1) ps (copied i x state)) j) at
    ∙ copy_counts_at ps (i + 1) (copied i x state) k p l f v e (omega arith) (omega arith)
        (λ j q g n. leads (suc j) q g (omega arith))
    ∙ copied_leader i l x state small (λ n. leads 0 x refl (omega arith))

some-lt : (ps : List Processor) (k : ℕ) (p : Processor) → get_elem? ps k ≡ some p → k < length ps
some-lt [] k p f = absurd (none-ne-some _ f)
some-lt (x ∷ ps) zero p f = omega arith
some-lt (x ∷ ps) (suc k) p f = let rest = some-lt ps k p f in omega arith

-- Where the leader of a valid processor leads itself and its count is 0 before, the count of the
-- processor is afterwards the number of valid processors that have this leader, in uint32_t.
pub count-led_by :
    (ps : List Processor) (k l : ℕ) (p q : Processor)
    → get_elem? ps k ≡ some p
    → bitmask_all p.flags flag_valid ≡ true
    → p.package_leader_id ≡ l
    → get_elem? ps l ≡ some q
    → q.package_leader_id ≡ l
    → count_at ps l ≡ 0
    → count_at (count_cluster_processors ps) k ≡ u32 (led_by l ps)
unfolding count_cluster_processors
count-led_by ps k l p q f v e g own none_yet =
    let k_small = some-lt ps k p f in
    let l_small = some-lt ps l q g in
    let long = length-accumulate ps ps in
    let leads : (j : ℕ) (r : Processor)
        → get_elem? ps j ≡ some r
        → 0 + j ≡ l
        → r.package_leader_id ≡ l =
      λ j r h n.
        let same : j ≡ l = omega arith in
        let is : q ≡ r =
          some-injective _ _ (sym g ∙ ap (λ (m : ℕ). get_elem? ps m) (sym same) ∙ h) in
        ap (λ (x : Processor). x.package_leader_id) (sym is) ∙ own in
    let copies =
      copy_counts_at ps 0 (accumulate ps ps) k p l f v e (omega arith) (omega arith) leads in
    let total = accumulate-led_by ps ps l l_small in
    let small = accumulate-lt ps ps l (omega arith) in
    let at : 0 + k ≡ k = omega arith in
    ap (λ (j : ℕ). count_at (copy_counts 0 ps (accumulate ps ps)) j) (sym at) ∙ copies ∙ omega arith
