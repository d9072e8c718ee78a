-- ===== src/X86/Objects/Runs.antt =====
-- The runs of equal identifiers in a list, as pairs of a start and a length.
use mathlib.Core.Path.{subst}
use cpuinfo.Base.{
  ℕ, zero, suc, ◌+◌, ◌^◌, ◌<◌, ◌≤◌, true, false, not, List, [], ◌∷◌, ◌++◌, ◌==◌, if◌then◌else◌, u32,
  length, length-append, append_assoc, modify, ◌≡◌, ◌≢◌, refl, sym, ap, arith, Bool-cases, inl, inr,
  ==_iff,
}

abbrev pub Run : Type 0
Run = ℕ × ℕ

-- The runs of `last`, which has started at `start` and come `n` times, and of the list after it.
abbrev pub runs : ℕ → ℕ → ℕ → List ℕ → List Run
runs last start n [] = (start, n) ∷ []
runs last start n (x ∷ xs) =
    let on = runs last start (n + 1) xs in
    let next = runs x (start + n) 1 xs in if x == last then on else (start, n) ∷ next

-- How many runs follow the first.
abbrev pub changes : ℕ → List ℕ → ℕ
changes last [] = 0
changes last (x ∷ xs) =
    let on = changes last xs in let next = changes x xs in if x == last then on else suc next

abbrev pub replicate : ℕ → ℕ → List ℕ
replicate zero x = []
replicate (suc n) x = x ∷ replicate n x

-- The runs from `at` on are the groups of neighbours of `ids` that are equal: each run starts where the
-- one before it ends, and is not empty, its identifiers are the same, and differ from those before it.
abbrev pub Groups : ℕ → ℕ → List ℕ → List Run → Type 0
Groups before at ids [] = ids ≡ []
Groups before at ids ((start, n) ∷ rest) =
    (start ≡ at)
    × (0 < n)
    × (id : ℕ) × (id ≢ before)
    × (others : List ℕ) × (ids ≡ replicate n id ++ others)
    × Groups id (at + n) others rest

replicate-snoc : (n x : ℕ) (xs : List ℕ) → replicate (n + 1) x ++ xs ≡ replicate n x ++ (x ∷ xs)
replicate-snoc zero x xs = refl
replicate-snoc (suc n) x xs =
    let more : suc n + 1 ≡ suc (n + 1) = omega arith in
    rw more (ap (λ l. x ∷ l) (replicate-snoc n x xs))

pub runs-Groups :
    (before last start n : ℕ) (xs : List ℕ)
    → 0 < n
    → last ≢ before
    → Groups before start (replicate n last ++ xs) (runs last start n xs)
runs-Groups before last start n [] h new = (refl, h, last, new, [], refl, refl)
runs-Groups before last start n (x ∷ xs) h new = elim (Bool-cases (x == last)) [
  | inl e ↦
      let same : x ≡ last = (==_iff _ _).0 e in
      rw (e, same)
        (subst (λ l. Groups before start l (runs last start (n + 1) xs)) (replicate-snoc n last xs)
          (runs-Groups before last start (n + 1) xs (omega arith) new))
  | inr e ↦
      let other : x ≢ last = λ same. absurd (ground (arith, same)) in
      rw e
        (refl, h, last, new, x ∷ xs, refl, runs-Groups last x (start + n) 1 xs (omega arith) other)
]

pub changes-le : (last : ℕ) (xs : List ℕ) → changes last xs ≤ length xs
changes-le last [] = omega arith
changes-le last (x ∷ xs) = ground (arith, changes-le last xs, changes-le x xs)

-- The array of objects, its index and the last identifier, in the loop that fills it.
pub record Part : Type 0 where
  pub items : List Run
  pub index : ℕ
  pub last_id : ℕ

abbrev pub one_more : Run → Run
one_more (start, n) = (start, u32 (n + 1))

unfoldable pub part_step : ℕ → ℕ → Part → Part
part_step processor_index id p =
    if not (id == p.last_id)
    then record {
      items = modify (λ _. (processor_index, 1)) (u32 (p.index + 1)) p.items;
      index = u32 (p.index + 1);
      last_id = id;
    }
    else record p { items = modify one_more p.index p.items }

-- The steps of the processors from number `k` on.
abbrev pub part_steps : ℕ → List ℕ → Part → Part
part_steps k [] p = p
part_steps k (id ∷ ids) p = part_steps (suc k) ids (part_step (u32 k) id p)

abbrev pub zeros : ℕ → List Run
zeros zero = []
zeros (suc n) = (0, 0) ∷ zeros n

modify-append :
    (f : Run → Run) (done : List Run) (r : Run) (rest : List Run)
    → modify f (length done) (done ++ (r ∷ rest)) ≡ done ++ (f r ∷ rest)
modify-append f [] r rest = refl
modify-append f (d ∷ done) r rest = ap (λ t. d ∷ t) (modify-append f done r rest)

-- The array between two steps: the runs that are over, the run that goes on, and objects of zeros.
abbrev pub in_run : List Run → ℕ → ℕ → ℕ → ℕ → Part
in_run done start n last k = record {
  items = done ++ ((start, n) ∷ zeros k);
  index = length done;
  last_id = last;
}

pub step-on :
    (done : List Run) (start n last k : ℕ)
    → n + 1 < 2 ^ 32
    → part_step (u32 (start + n)) last (in_run done start n last k)
      ≡ in_run done start (n + 1) last k
unfolding part_step
step-on done start n last k h =
    let same : (last == last) ≡ true = (==_iff _ _).1 refl in
    let counted : u32 (n + 1) ≡ n + 1 = omega arith in
    rw (same, modify-append one_more done (start, n) (zeros k), counted) refl

pub step-next :
    (done : List Run) (start n last id k : ℕ)
    → (id == last) ≡ false
    → start + n < 2 ^ 32
    → length done + 1 < 2 ^ 32
    → part_step (u32 (start + n)) id (in_run done start n last (suc k))
      ≡ in_run (done ++ ((start, n) ∷ [])) (start + n) 1 id k
unfolding part_step
step-next done start n last id k new s d =
    let index : u32 (length done + 1) ≡ length (done ++ ((start, n) ∷ [])) =
      omega (arith, length-append done ((start, n) ∷ [])) in
    let at : u32 (start + n) ≡ start + n = omega arith in
    let moved = sym (append_assoc done ((start, n) ∷ []) (zeros (suc k))) in
    rw
      (
        new,
        index,
        at,
        moved,
        modify-append (λ _. (start + n, 1)) (done ++ ((start, n) ∷ [])) (0, 0) (zeros k),
      )
      refl
