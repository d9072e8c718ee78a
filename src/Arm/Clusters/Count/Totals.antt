-- ===== src/Arm/Clusters/Count/Totals.antt =====
-- What the two passes make of the counts.
use cpuinfo.Base.{
  ℕ, zero, suc, ◌+◌, ◌<◌, ◌^◌, Bool, true, false, List, [], ◌∷◌, ◌==◌, ==_iff, ◌&&◌, if◌then◌else◌,
  bitmask_all, u32, length, ◌≡◌, ◌≢◌, refl, sym, ap, ◌∙◌, arith, Bool-cases, inl, inr, false≢true,
}
use cpuinfo.Linux.Flags.{flag_valid}
use cpuinfo.Arm.Processor.{Processor}
use cpuinfo.Arm.Clusters.Count.{count_one, accumulate, count_at}

-- How many valid processors have a leader.
abbrev pub led_by : ℕ → List Processor → ℕ
led_by leader [] = 0
led_by leader (p ∷ ps) =
    (if bitmask_all p.flags flag_valid && p.package_leader_id == leader then 1 else 0)
    + led_by leader ps

count_at-count_one_self :
    (ps : List Processor) (i : ℕ)
    → i < length ps
    → count_at (count_one ps i) i ≡ u32 (count_at ps i + 1)
unfolding count_one
count_at-count_one_self [] i h = absurd (omega arith)
count_at-count_one_self (p ∷ ps) zero h = refl
count_at-count_one_self (p ∷ ps) (suc i) h = count_at-count_one_self ps i (omega arith)

count_at-count_one_ne :
    (ps : List Processor) (i j : ℕ) → i ≢ j → count_at (count_one ps i) j ≡ count_at ps j
unfolding count_one
count_at-count_one_ne [] i j h = refl
count_at-count_one_ne (p ∷ ps) zero zero h = absurd (h refl)
count_at-count_one_ne (p ∷ ps) zero (suc j) h = refl
count_at-count_one_ne (p ∷ ps) (suc i) zero h = refl
count_at-count_one_ne (p ∷ ps) (suc i) (suc j) h = count_at-count_one_ne ps i j (λ e. h (ap suc e))

length-count_one : (ps : List Processor) (i : ℕ) → length (count_one ps i) ≡ length ps
unfolding count_one
length-count_one [] i = refl
length-count_one (p ∷ ps) zero = refl
length-count_one (p ∷ ps) (suc i) = ap suc (length-count_one ps i)

-- One step of the first pass at one index.
step_count :
    (p : Processor) (state : List Processor) (l : ℕ) (valid leads : Bool)
    → bitmask_all p.flags flag_valid ≡ valid
    → (p.package_leader_id == l) ≡ leads
    → l < length state
    → u32 (
        count_at
          (if bitmask_all p.flags flag_valid then count_one state p.package_leader_id else state)
          l)
      ≡ u32 (
          count_at state l
          + (if bitmask_all p.flags flag_valid && p.package_leader_id == l then 1 else 0))
step_count p state l false leads v e h = rw v (omega arith)
step_count p state l true true v e h =
    let same : p.package_leader_id ≡ l = (==_iff _ _).0 e in
    let here : count_at (count_one state p.package_leader_id) l ≡ u32 (count_at state l + 1) =
      ap (λ (i : ℕ). count_at (count_one state i) l) same ∙ count_at-count_one_self state l h in
    rw (v, e) (omega arith)
step_count p state l true false v e h =
    let other : p.package_leader_id ≢ l = λ q. false≢true (sym e ∙ (==_iff _ _).1 q) in
    let same = count_at-count_one_ne state p.package_leader_id l other in rw (v, e) (omega arith)

pub length_step :
    (p : Processor) (state : List Processor) (b : Bool)
    → length (if b then count_one state p.package_leader_id else state) ≡ length state
length_step p state true = length-count_one state p.package_leader_id
length_step p state false = refl

pub accumulate-led_by :
    (ps state : List Processor) (l : ℕ)
    → l < length state
    → u32 (count_at (accumulate ps state) l) ≡ u32 (count_at state l + led_by l ps)
unfolding accumulate
accumulate-led_by [] state l h = omega arith
accumulate-led_by (p ∷ ps) state l h =
    let next =
      if bitmask_all p.flags flag_valid then count_one state p.package_leader_id else state in
    let long = length_step p state (bitmask_all p.flags flag_valid) in
    let rest = accumulate-led_by ps next l (omega arith) in
    let one = step_count p state l _ _ refl refl h in omega arith

pub length-accumulate : (ps state : List Processor) → length (accumulate ps state) ≡ length state
unfolding accumulate
length-accumulate [] state = refl
length-accumulate (p ∷ ps) state =
    length-accumulate ps _ ∙ length_step p state (bitmask_all p.flags flag_valid)

-- A count that fits is below 2 ^ 32 after the first pass.
count_one-lt :
    (ps : List Processor) (i j : ℕ) → count_at ps j < 2 ^ 32 → count_at (count_one ps i) j < 2 ^ 32
unfolding count_one
count_one-lt [] i j h = h
count_one-lt (p ∷ ps) zero zero h = omega arith
count_one-lt (p ∷ ps) zero (suc j) h = h
count_one-lt (p ∷ ps) (suc i) zero h = h
count_one-lt (p ∷ ps) (suc i) (suc j) h = count_one-lt ps i j h

pub accumulate-lt :
    (ps state : List Processor) (j : ℕ)
    → count_at state j < 2 ^ 32
    → count_at (accumulate ps state) j < 2 ^ 32
unfolding accumulate
accumulate-lt [] state j h = h
accumulate-lt (p ∷ ps) state j h =
    accumulate-lt ps _ j (elim (Bool-cases (bitmask_all p.flags flag_valid)) [
      | inl v ↦ rw v (count_one-lt state p.package_leader_id j h)
      | inr v ↦ rw v h
    ])
