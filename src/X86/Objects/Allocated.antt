-- ===== src/X86/Objects/Allocated.antt =====
-- The steps for one array leave the runs of its identifiers there, and the counter counts them.
use cpuinfo.Base.{
  uint32_max, ℕ, suc, ◌+◌, ◌^◌, ◌<◌, true, false, List, [], ◌∷◌, ◌++◌, ◌==◌, u32, length,
  length-append, append_assoc, All, ◌≡◌, ◌≢◌, refl, sym, ap, ◌∙◌, arith, Bool-cases, inl, inr,
  ==_iff,
}
use mathlib.Core.Path.{subst}
use cpuinfo.X86.Objects.{Counter, count_id, no_objects}
use cpuinfo.X86.Objects.Runs.{
  Run, runs, changes, Groups, runs-Groups, Part, part_step, part_steps, zeros, in_run, step-on,
  step-next,
}

part_steps-runs :
    (done : List Run) (start n last : ℕ) (ids : List ℕ)
    → start + n + length ids < 2 ^ 32
    → length done + length ids < 2 ^ 32
    → (part_steps (start + n) ids (in_run done start n last (changes last ids))).items
      ≡ done ++ runs last start n ids
part_steps-runs done start n last [] s d = refl
part_steps-runs done start n last (x ∷ xs) s d = elim (Bool-cases (x == last)) [
  | inl e ↦
      let same : x ≡ last = (==_iff _ _).0 e in
      let at : suc (start + n) ≡ start + (n + 1) = omega arith in
      let step = step-on done start n last (changes last xs) (omega arith) in
      let rest = part_steps-runs done start (n + 1) last xs (omega arith) (omega arith) in
      rw (e, same)
        (ap (λ p. (part_steps (suc (start + n)) xs p).items) step
          ∙ ap
              (λ (k : ℕ).
                (part_steps k xs (in_run done start (n + 1) last (changes last xs))).items)
              at
          ∙ rest)
  | inr e ↦
      let at : suc (start + n) ≡ start + n + 1 = omega arith in
      let step = step-next done start n last x (changes x xs) e (omega arith) (omega arith) in
      let longer = length-append done ((start, n) ∷ []) in
      let rest =
        part_steps-runs (done ++ ((start, n) ∷ [])) (start + n) 1 x xs (omega arith)
          (omega (arith, longer)) in
      let after = in_run (done ++ ((start, n) ∷ [])) (start + n) 1 x (changes x xs) in
      rw e (
        ap (λ p. (part_steps (suc (start + n)) xs p).items) step
        ∙ ap (λ (k : ℕ). (part_steps k xs after).items) at
        ∙ rest
        ∙ append_assoc done ((start, n) ∷ []) (runs x (start + n) 1 xs))
]

-- The array as it is allocated, for a number of objects.
abbrev pub allocated : ℕ → Part
allocated n = record { items = zeros n; index = uint32_max; last_id = uint32_max }

pub part_steps-Groups :
    (ids : List ℕ)
    → All (λ id. id ≢ uint32_max) ids
    → length ids < 2 ^ 32
    → Groups uint32_max 0 ids (part_steps 0 ids (allocated (changes uint32_max ids))).items
unfolding part_step
part_steps-Groups [] _ h = refl
part_steps-Groups (x ∷ xs) (new, _) h =
    let e : (x == uint32_max) ≡ false = ground arith in
    let found = part_steps-runs [] 0 1 x xs (omega arith) (omega arith) in
    let first : part_step (u32 0) x (allocated (suc (changes x xs)))
        ≡ in_run [] 0 1 x (changes x xs) =
      rw e refl in
    let one : 1 ≡ 0 + 1 = omega arith in
    let all =
      ap (λ p. (part_steps 1 xs p).items) first
      ∙ ap (λ (k : ℕ). (part_steps k xs (in_run [] 0 1 x (changes x xs))).items) one
      ∙ found in
    rw e (
      subst (λ t. Groups uint32_max 0 (x ∷ xs) t) (sym all)
        (runs-Groups uint32_max x 0 1 xs (omega arith) new))

abbrev pub count_ids : List ℕ → Counter → Counter
count_ids [] c = c
count_ids (id ∷ ids) c = count_ids ids (count_id id c)

count_id-same : (id : ℕ) (c : Counter) → (id == c.last_id) ≡ true → count_id id c ≡ c
unfolding count_id
count_id-same id c h = rw h refl

count_id-new :
    (id : ℕ) (c : Counter)
    → (id == c.last_id) ≡ false
    → count_id id c ≡ record { count = u32 (c.count + 1); last_id = id }
unfolding count_id
count_id-new id c h = rw h refl

count_ids-changes :
    (ids : List ℕ) (c : Counter)
    → c.count + length ids < 2 ^ 32
    → (count_ids ids c).count ≡ c.count + changes c.last_id ids
count_ids-changes [] c h = omega arith
count_ids-changes (x ∷ xs) c h = elim (Bool-cases (x == c.last_id)) [
  | inl e ↦ rw e (
      ap (λ d. (count_ids xs d).count) (count_id-same x c e) ∙ count_ids-changes xs c (omega arith))
  | inr e ↦
      let counted : u32 (c.count + 1) ≡ c.count + 1 = omega arith in
      let rest = count_ids-changes xs (record { count = c.count + 1; last_id = x }) (omega arith) in
      let step = count_id-new x c e ∙ ap (λ (k : ℕ). record { count = k; last_id = x }) counted in
      rw e (ap (λ d. (count_ids xs d).count) step ∙ omega (arith, rest))
]

pub count_ids_all :
    (ids : List ℕ) → length ids < 2 ^ 32 → (count_ids ids no_objects).count ≡ changes uint32_max ids
count_ids_all ids h = omega (arith, count_ids-changes ids no_objects)
