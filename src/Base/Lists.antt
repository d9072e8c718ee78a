-- ===== src/Base/Lists.antt =====
-- Lists measured and indexed by native numbers, under the library's names.
use Prim.Native.Nat.{ℕ, zero, suc, ◌+◌, ◌<◌, ◌≤◌, min}
use Prim.Native.Char.{code}
use Prim.Native.String.{String}
use mathlib.Core.Path.{◌≡◌, refl, sym, ap, ◌∙◌}
use mathlib.Core.Logic.{◌≢◌, inl, inr}
use mathlib.Core.List.{List, [], ◌∷◌, ◌++◌}
use mathlib.Core.Bool.{Bool, true}
use mathlib.Core.Option.{Option, none, some, none-ne-some, some-injective}
use cpuinfo.Base.Tests.{◌==◌, ==_iff, if◌then◌else◌, Bool-cases}
use native.Mathlib.Omega.{arith}

abbrev pub Bytes : Type 0
Bytes = List ℕ

-- The code points of a text: its bytes, if it is ASCII.
abbrev pub codes : String → Bytes
codes String.[] = []
codes (String.◌∷◌ c s) = code c ∷ codes s

module _ {ℓ} {A : Type ℓ} where
  abbrev pub length : List A → ℕ
  length [] = 0
  length (x ∷ xs) = suc (length xs)

  abbrev pub get_elem? : List A → ℕ → Option A
  get_elem? [] i = none
  get_elem? (x ∷ xs) zero = some x
  get_elem? (x ∷ xs) (suc i) = get_elem? xs i

  abbrev pub get_or : List A → ℕ → A → A
  get_or [] i d = d
  get_or (x ∷ xs) zero d = x
  get_or (x ∷ xs) (suc i) d = get_or xs i d

  -- A write out of bounds changes nothing.
  abbrev pub set : List A → ℕ → A → List A
  set [] i v = []
  set (x ∷ xs) zero v = v ∷ xs
  set (x ∷ xs) (suc i) v = x ∷ set xs i v

  -- `f` applied at an index; nothing happens out of bounds.
  abbrev pub modify : (A → A) → ℕ → List A → List A
  modify f i [] = []
  modify f zero (x ∷ xs) = f x ∷ xs
  modify f (suc i) (x ∷ xs) = x ∷ modify f i xs

  abbrev pub take : ℕ → List A → List A
  take zero xs = []
  take (suc n) [] = []
  take (suc n) (x ∷ xs) = x ∷ take n xs

  abbrev pub drop : ℕ → List A → List A
  drop zero xs = xs
  drop (suc n) [] = []
  drop (suc n) (x ∷ xs) = drop n xs

  pub take-append-drop : (n : ℕ) (xs : List A) → take n xs ++ drop n xs ≡ xs
  take-append-drop zero xs = refl
  take-append-drop (suc n) [] = refl
  take-append-drop (suc n) (x ∷ xs) = rw (take-append-drop n xs)

  pub length-append : (xs ys : List A) → length (xs ++ ys) ≡ length xs + length ys
  length-append [] ys = omega arith
  length-append (x ∷ xs) ys = omega (arith, length-append xs ys)

  pub length-ne-nil : (xs : List A) → xs ≢ [] → 0 < length xs
  length-ne-nil [] h = absurd (h refl)
  length-ne-nil (x ∷ xs) h = omega arith

  pub length-take : (n : ℕ) (xs : List A) → length (take n xs) ≡ min n (length xs)
  length-take zero xs = omega arith
  length-take (suc n) [] = omega arith
  length-take (suc n) (x ∷ xs) = omega (arith, length-take n xs)

module _ {ℓ} {A : Type ℓ} where
  pub length-set : (xs : List A) (i : ℕ) (v : A) → length (set xs i v) ≡ length xs
  length-set [] i v = refl
  length-set (x ∷ xs) zero v = refl
  length-set (x ∷ xs) (suc i) v = ap suc (length-set xs i v)

  pub get_elem?-set_self :
      (xs : List A) (i : ℕ) (v : A) → i < length xs → get_elem? (set xs i v) i ≡ some v
  get_elem?-set_self [] i v h = elim h [ ]
  get_elem?-set_self (x ∷ xs) zero v h = refl
  get_elem?-set_self (x ∷ xs) (suc i) v h = get_elem?-set_self xs i v (omega arith)

  pub get_elem?-set_ne :
      (xs : List A) (i j : ℕ) (v : A) → i ≢ j → get_elem? (set xs i v) j ≡ get_elem? xs j
  get_elem?-set_ne [] i j v h = refl
  get_elem?-set_ne (x ∷ xs) zero zero v h = absurd (h refl)
  get_elem?-set_ne (x ∷ xs) zero (suc j) v h = refl
  get_elem?-set_ne (x ∷ xs) (suc i) zero v h = refl
  get_elem?-set_ne (x ∷ xs) (suc i) (suc j) v h = get_elem?-set_ne xs i j v (λ e. h (ap suc e))

module _ {ℓ} {A : Type ℓ} where
  pub get_or-set_self :
      (xs : List A) (i : ℕ) (v d : A) → i < length xs → get_or (set xs i v) i d ≡ v
  get_or-set_self [] i v d h = elim h [ ]
  get_or-set_self (x ∷ xs) zero v d h = refl
  get_or-set_self (x ∷ xs) (suc i) v d h = get_or-set_self xs i v d (omega arith)

  pub get_or-set_ne :
      (xs : List A) (i j : ℕ) (v d : A) → i ≢ j → get_or (set xs i v) j d ≡ get_or xs j d
  get_or-set_ne [] i j v d h = refl
  get_or-set_ne (x ∷ xs) zero zero v d h = absurd (h refl)
  get_or-set_ne (x ∷ xs) zero (suc j) v d h = refl
  get_or-set_ne (x ∷ xs) (suc i) zero v d h = refl
  get_or-set_ne (x ∷ xs) (suc i) (suc j) v d h = get_or-set_ne xs i j v d (λ e. h (ap suc e))

module _ {ℓ} {A : Type ℓ} where
  pub length-modify : (f : A → A) (i : ℕ) (xs : List A) → length (modify f i xs) ≡ length xs
  length-modify f i [] = refl
  length-modify f zero (x ∷ xs) = refl
  length-modify f (suc i) (x ∷ xs) = ap suc (length-modify f i xs)

  pub get_or-modify :
      (f : A → A) (i j : ℕ) (xs : List A) (d : A)
      → j < length xs
      → get_or (modify f i xs) j d ≡ (if i == j then f (get_or xs j d) else get_or xs j d)
  get_or-modify f i j [] d h = elim h [ ]
  get_or-modify f zero zero (x ∷ xs) d h = refl
  get_or-modify f zero (suc j) (x ∷ xs) d h = ground arith
  get_or-modify f (suc i) zero (x ∷ xs) d h = ground arith
  get_or-modify f (suc i) (suc j) (x ∷ xs) d h = ground (arith, get_or-modify f i j xs d)

  pub get_or-get_elem? :
      (xs : List A) (i : ℕ) (x d : A)
      → get_elem? xs i ≡ some x
      → (i < length xs) × (get_or xs i d ≡ x)
  get_or-get_elem? [] i x d h = absurd (none-ne-some _ h)
  get_or-get_elem? (y ∷ xs) zero x d h = (omega arith, some-injective _ _ h)
  get_or-get_elem? (y ∷ xs) (suc i) x d h =
      let (below, found) = get_or-get_elem? xs i x d h in (omega arith, found)

  pub get_elem?-get_or :
      (xs : List A) (i : ℕ) (d : A) → i < length xs → get_elem? xs i ≡ some (get_or xs i d)
  get_elem?-get_or [] i d h = elim h [ ]
  get_elem?-get_or (y ∷ xs) zero d h = refl
  get_elem?-get_or (y ∷ xs) (suc i) d h = get_elem?-get_or xs i d (omega arith)

-- How often a test succeeds below a number.
abbrev pub count_below : (ℕ → Bool) → ℕ → ℕ
count_below test zero = 0
count_below test (suc n) = count_below test n + (if test n then 1 else 0)

pub count_below_first :
    (test : ℕ → Bool) (n : ℕ)
    → count_below test (suc n) ≡ (if test 0 then 1 else 0) + count_below (λ k. test (suc k)) n
count_below_first test zero = omega arith
count_below_first test (suc n) = omega (arith, count_below_first test n)

pub count_below_mono :
    (f g : ℕ → Bool) (n : ℕ)
    → ((j : ℕ) → j < n → f j ≡ true → g j ≡ true)
    → count_below f n ≤ count_below g n
count_below_mono f g zero h = omega arith
count_below_mono f g (suc n) h =
    ground (arith, h n, count_below_mono f g n (λ j b. h j (omega arith)))

-- Where the tests succeed as often, they succeed at the same numbers.
pub count_below-le :
    (f g : ℕ → Bool) (n : ℕ)
    → ((j : ℕ) → j < n → f j ≡ true → g j ≡ true)
    → count_below g n ≤ count_below f n
    → (j : ℕ) → j < n
    → g j ≡ true
    → f j ≡ true
count_below-le f g zero h e j b t = absurd (omega arith)
count_below-le f g (suc n) h e j b t =
    let fewer = count_below_mono f g n (λ k c. h k (omega arith)) in
    elim (Bool-cases (j == n)) [
      | inl last ↦
          let same : j ≡ n = (==_iff _ _).0 last in
          let here : g n ≡ true = ap g (sym same) ∙ t in
          let there : f n ≡ true = ground arith in ap f same ∙ there
      | inr other ↦
          let before : count_below g n ≤ count_below f n = ground (arith, h n) in
          count_below-le f g n (λ k c. h k (omega arith)) before j (ground arith) t
    ]

-- Every element of a list has a property.
abbrev pub All {ℓ κ} : {A : Type ℓ} → (A → Type κ) → List A → Type κ
All P [] = Unit
All P (x ∷ xs) = P x × All P xs

module _ {ℓ κ} {A : Type ℓ} (P : A → Type κ) where
  pub All-append : (xs ys : List A) → All P xs → All P ys → All P (xs ++ ys)
  All-append [] ys _ hy = hy
  All-append (x ∷ xs) ys (px, hx) hy = (px, All-append xs ys hx hy)

module _ {ℓ κ} {A : Type ℓ} (P : A → Type κ) where
  pub All-get_or : (xs : List A) (j : ℕ) (d : A) → All P xs → j < length xs → P (get_or xs j d)
  All-get_or [] j d a h = absurd (omega arith)
  All-get_or (x ∷ xs) zero d (px, a) h = px
  All-get_or (x ∷ xs) (suc j) d (px, a) h = All-get_or xs j d a (omega arith)

module _ {ℓ} {A : Type ℓ} where
  pub take-append_length : (xs ys : List A) → take (length xs) (xs ++ ys) ≡ xs
  take-append_length [] ys = refl
  take-append_length (x ∷ xs) ys = ap (λ zs. x ∷ zs) (take-append_length xs ys)

  pub All-take-append {κ} :
      (P : A → Type κ) (n : ℕ) (xs ys : List A)
      → length xs ≤ n
      → All P (take n (xs ++ ys))
      → All P xs
  All-take-append P n [] ys h a = tt
  All-take-append P zero (x ∷ xs) ys h a = absurd (omega arith)
  All-take-append P (suc n) (x ∷ xs) ys h (px, a) = (px, All-take-append P n xs ys (omega arith) a)

-- A byte does not stand in a text.
abbrev pub Lacks : ℕ → Bytes → Type 0
Lacks b = All (λ c. c ≢ b)
