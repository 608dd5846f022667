-- ===== src/Prelude/Lists.antt =====
-- Lists measured and indexed by native numbers, under the library's names.
use Prim.Native.Nat.{ℕ, zero, suc, ◌+◌, ◌-◌, min}
use mathlib.Core.Path.{◌≡◌, refl, ap}
use mathlib.Core.Logic.{◌≢◌, ◌⊎◌, inl, inr}
use mathlib.Core.Bool.{Bool, true, false}
use mathlib.Core.List.{List, [], ◌∷◌, ◌++◌}
use mathlib.Core.Option.{Option, none, some}
use native.Mathlib.Omega.{arith}

abbrev pub bit : Bool → ℕ
bit true = 1
bit false = 0

module _ {ℓ} {A : Type ℓ} where
  abbrev pub length : List A → ℕ
  length [] = 0
  length (x ∷ xs) = suc (length xs)

  abbrev pub get_elem? : List A → ℕ → Option A
  get_elem? [] i = none
  get_elem? (x ∷ xs) zero = some x
  get_elem? (x ∷ xs) (suc i) = get_elem? xs i

  abbrev pub get_or : List A → ℕ → A → A
  get_or [] i d = d
  get_or (x ∷ xs) zero d = x
  get_or (x ∷ xs) (suc i) d = get_or xs i d

  -- A write out of bounds changes nothing.
  abbrev pub set : List A → ℕ → A → List A
  set [] i v = []
  set (x ∷ xs) zero v = v ∷ xs
  set (x ∷ xs) (suc i) v = x ∷ set xs i v

  abbrev pub take : ℕ → List A → List A
  take zero xs = []
  take (suc n) [] = []
  take (suc n) (x ∷ xs) = x ∷ take n xs

  abbrev pub drop : ℕ → List A → List A
  drop zero xs = xs
  drop (suc n) [] = []
  drop (suc n) (x ∷ xs) = drop n xs

  -- How many elements pass the test.
  abbrev pub count : (A → Bool) → List A → ℕ
  count p [] = 0
  count p (x ∷ xs) = bit (p x) + count p xs

module _ {ℓ} {A : Type ℓ} where
  pub length-append : (xs ys : List A) → length (xs ++ ys) ≡ length xs + length ys
  length-append [] ys = omega arith
  length-append (x ∷ xs) ys = omega (arith, length-append xs ys)

  pub length-set : (xs : List A) (i : ℕ) (v : A) → length (set xs i v) ≡ length xs
  length-set [] i v = refl
  length-set (x ∷ xs) zero v = refl
  length-set (x ∷ xs) (suc i) v = ap suc (length-set xs i v)

  pub take-append-drop : (n : ℕ) (xs : List A) → take n xs ++ drop n xs ≡ xs
  take-append-drop zero xs = refl
  take-append-drop (suc n) [] = refl
  take-append-drop (suc n) (x ∷ xs) = rw (take-append-drop n xs)

  pub length-take : (n : ℕ) (xs : List A) → length (take n xs) ≡ min n (length xs)
  length-take zero xs = omega arith
  length-take (suc n) [] = omega arith
  length-take (suc n) (x ∷ xs) = omega (arith, length-take n xs)

  pub length-drop : (n : ℕ) (xs : List A) → length (drop n xs) ≡ length xs - n
  length-drop zero xs = omega arith
  length-drop (suc n) [] = omega arith
  length-drop (suc n) (x ∷ xs) = omega (arith, length-drop n xs)

  pub count-append : (p : A → Bool) (xs ys : List A) → count p (xs ++ ys) ≡ count p xs + count p ys
  count-append p [] ys = omega arith
  count-append p (x ∷ xs) ys = omega (arith, count-append p xs ys)

  -- A write changes the count by what it replaces.
  pub count-set :
      (p : A → Bool) (xs : List A) (i : ℕ) (v u : A)
      → get_elem? xs i ≡ some v
      → count p (set xs i u) + bit (p v) ≡ count p xs + bit (p u)
  count-set p [] i v u e = cc
  count-set p (x ∷ xs) zero v u e = ground arith
  count-set p (x ∷ xs) (suc i) v u e = omega (arith, count-set p xs i v u e)

  -- A place that was written holds the new value, and each other its own.
  pub get_elem?-set :
      (xs : List A) (i j : ℕ) (v u : A)
      → get_elem? xs i ≡ some v
      → ((i ≡ j) × (get_elem? (set xs i u) j ≡ some u))
        ⊎ ((i ≢ j) × (get_elem? (set xs i u) j ≡ get_elem? xs j))
  get_elem?-set [] i j v u e = cc
  get_elem?-set (x ∷ xs) zero zero v u e = inl (refl, refl)
  get_elem?-set (x ∷ xs) zero (suc j) v u e = inr (λ p. omega arith, refl)
  get_elem?-set (x ∷ xs) (suc i) zero v u e = inr (λ p. omega arith, refl)
  get_elem?-set (x ∷ xs) (suc i) (suc j) v u e = later (get_elem?-set xs i j v u e)
    where
      later :
          ((i ≡ j) × (get_elem? (set xs i u) j ≡ some u))
            ⊎ ((i ≢ j) × (get_elem? (set xs i u) j ≡ get_elem? xs j))
          → ((suc i ≡ suc j) × (get_elem? (set xs i u) j ≡ some u))
            ⊎ ((suc i ≢ suc j) × (get_elem? (set xs i u) j ≡ get_elem? xs j))
      later (inl (p, q)) = inl (ap suc p, q)
      later (inr (p, q)) = inr (λ e'. p (omega arith), q)

  pub get_elem?-append :
      (xs ys : List A) (i : ℕ) (v : A) → get_elem? xs i ≡ some v → get_elem? (xs ++ ys) i ≡ some v
  get_elem?-append [] ys i v e = cc
  get_elem?-append (x ∷ xs) ys zero v e = e
  get_elem?-append (x ∷ xs) ys (suc i) v e = get_elem?-append xs ys i v e

  -- The place behind a list.
  pub get_elem?-append_length :
      (xs : List A) (v : A) → get_elem? (xs ++ v ∷ []) (length xs) ≡ some v
  get_elem?-append_length [] v = refl
  get_elem?-append_length (x ∷ xs) v = get_elem?-append_length xs v

  pub set-append_length : (xs : List A) (v u : A) → set (xs ++ v ∷ []) (length xs) u ≡ xs ++ u ∷ []
  set-append_length [] v u = refl
  set-append_length (x ∷ xs) v u = ap (λ r. x ∷ r) (set-append_length xs v u)

module _ {ℓ κ} {A : Type ℓ} (P : A → Type κ) where
  -- Every element has the property.
  abbrev pub All : List A → Type κ
  All [] = Unit
  All (x ∷ xs) = P x × All xs

  pub All-append : (xs ys : List A) → All xs → All ys → All (xs ++ ys)
  All-append [] ys h k = k
  All-append (x ∷ xs) ys (p, h) k = (p, All-append xs ys h k)

  pub All-set : (xs : List A) (i : ℕ) (v : A) → All xs → P v → All (set xs i v)
  All-set [] i v h p = tt
  All-set (x ∷ xs) zero v (q, h) p = (p, h)
  All-set (x ∷ xs) (suc i) v (q, h) p = (q, All-set xs i v h p)

  pub All-get : (xs : List A) (i : ℕ) {v : A} → All xs → get_elem? xs i ≡ some v → P v
  All-get [] i h e = cc
  All-get (x ∷ xs) zero (q, h) e = ground (arith, q)
  All-get (x ∷ xs) (suc i) (q, h) e = All-get xs i h e
