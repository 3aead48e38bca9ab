-- ===== src/Base/Lists.antt =====
-- Lists measured and indexed by native numbers, under the library's names.
use Prim.Native.Nat.{ℕ, zero, suc, ◌+◌, ◌-◌, ◌<◌, min}
use mathlib.Core.Path.{◌≡◌, refl, ap}
use mathlib.Core.Logic.{◌≢◌, ◌⊎◌, inl, inr}
use mathlib.Core.List.{List, [], ◌∷◌, ◌++◌, map}
use mathlib.Core.Option.{Option, none, some}
use native.Mathlib.Omega.{arith}

module _ {ℓ} {A : Type ℓ} where
  abbrev pub length : List A → ℕ
  length [] = 0
  length (x ∷ xs) = suc (length xs)

  abbrev pub get_or : List A → ℕ → A → A
  get_or [] i d = d
  get_or (x ∷ xs) zero d = x
  get_or (x ∷ xs) (suc i) d = get_or xs i d

  abbrev pub take : ℕ → List A → List A
  take zero xs = []
  take (suc n) [] = []
  take (suc n) (x ∷ xs) = x ∷ take n xs

  abbrev pub drop : ℕ → List A → List A
  drop zero xs = xs
  drop (suc n) [] = []
  drop (suc n) (x ∷ xs) = drop n xs

  abbrev pub replicate : ℕ → A → List A
  replicate zero a = []
  replicate (suc n) a = a ∷ replicate n a

  -- The element at an index is replaced by its image; out of bounds nothing changes.
  abbrev pub modify : List A → ℕ → (A → A) → List A
  modify [] i f = []
  modify (x ∷ xs) zero f = f x ∷ xs
  modify (x ∷ xs) (suc i) f = x ∷ modify xs i f

  abbrev pub get_elem? : List A → ℕ → Option A
  get_elem? [] i = none
  get_elem? (x ∷ xs) zero = some x
  get_elem? (x ∷ xs) (suc i) = get_elem? xs i

  -- The element at an index is replaced; there is none out of bounds.
  abbrev pub replace_at : List A → ℕ → A → Option (List A)
  replace_at [] i a = none
  replace_at (x ∷ xs) zero a = some (a ∷ xs)
  replace_at (x ∷ xs) (suc i) a = elim (replace_at xs i a) [ none ↦ none | some ys ↦ some (x ∷ ys) ]

  pub get_elem?-replicate : (n i : ℕ) (a : A) → i < n → get_elem? (replicate n a) i ≡ some a
  get_elem?-replicate zero i a h = absurd (omega arith)
  get_elem?-replicate (suc n) zero a h = refl
  get_elem?-replicate (suc n) (suc i) a h = get_elem?-replicate n i a (omega arith)

  pub replace_at-replicate :
      (n i : ℕ) (a : A) → i < n → replace_at (replicate n a) i a ≡ some (replicate n a)
  replace_at-replicate zero i a h = absurd (omega arith)
  replace_at-replicate (suc n) zero a h = refl
  replace_at-replicate (suc n) (suc i) a h = rw (replace_at-replicate n i a (omega arith)) refl

  pub length-append : (xs ys : List A) → length (xs ++ ys) ≡ length xs + length ys
  length-append [] ys = omega arith
  length-append (x ∷ xs) ys = omega (arith, length-append xs ys)

module _ {ℓ} {A : Type ℓ} where
  pub length-modify : (xs : List A) (i : ℕ) (f : A → A) → length (modify xs i f) ≡ length xs
  length-modify [] i f = refl
  length-modify (x ∷ xs) zero f = refl
  length-modify (x ∷ xs) (suc i) f = ap suc (length-modify xs i f)

  pub get_or-modify_self :
      (xs : List A) (i : ℕ) (f : A → A) (d : A)
      → i < length xs
      → get_or (modify xs i f) i d ≡ f (get_or xs i d)
  get_or-modify_self [] i f d h = absurd (omega arith)
  get_or-modify_self (x ∷ xs) zero f d h = refl
  get_or-modify_self (x ∷ xs) (suc i) f d h = get_or-modify_self xs i f d (omega arith)

  pub get_or-modify_ne :
      (xs : List A) (i j : ℕ) (f : A → A) (d : A)
      → i ≢ j
      → get_or (modify xs i f) j d ≡ get_or xs j d
  get_or-modify_ne [] i j f d h = refl
  get_or-modify_ne (x ∷ xs) zero zero f d h = absurd (h refl)
  get_or-modify_ne (x ∷ xs) zero (suc j) f d h = refl
  get_or-modify_ne (x ∷ xs) (suc i) zero f d h = refl
  get_or-modify_ne (x ∷ xs) (suc i) (suc j) f d h = get_or-modify_ne xs i j f d (λ e. h (ap suc e))

  -- A view that the change does not touch stays as it is.
  pub map-modify {κ} :
      {B : Type κ} (g : A → B) (xs : List A) (i : ℕ) (f : A → A)
      → ((x : A) → g (f x) ≡ g x)
      → map g (modify xs i f) ≡ map g xs
  map-modify g [] i f h = refl
  map-modify g (x ∷ xs) zero f h = ap (λ y. y ∷ map g xs) (h x)
  map-modify g (x ∷ xs) (suc i) f h = ap (◌∷◌ (g x)) (map-modify g xs i f h)

  pub take-length_append : (xs ys : List A) → take (length xs) (xs ++ ys) ≡ xs
  take-length_append [] ys = refl
  take-length_append (x ∷ xs) ys = ap (◌∷◌ x) (take-length_append xs ys)

  pub drop-length_append : (xs ys : List A) → drop (length xs) (xs ++ ys) ≡ ys
  drop-length_append [] ys = refl
  drop-length_append (x ∷ xs) ys = drop-length_append xs ys

  pub length-drop : (n : ℕ) (xs : List A) → length (drop n xs) ≡ length xs - n
  length-drop zero xs = omega arith
  length-drop (suc n) [] = omega arith
  length-drop (suc n) (x ∷ xs) = omega (arith, length-drop n xs)

  pub length-take : (n : ℕ) (xs : List A) → length (take n xs) ≡ min n (length xs)
  length-take zero xs = omega arith
  length-take (suc n) [] = omega arith
  length-take (suc n) (x ∷ xs) = omega (arith, length-take n xs)

  -- An element after a change at `i`: it was changed there, or it is as it was.
  pub get_or-modify :
      (xs : List A) (i j : ℕ) (f : A → A) (d : A)
      → ((i ≡ j) × (get_or (modify xs i f) j d ≡ f (get_or xs j d)))
        ⊎ (get_or (modify xs i f) j d ≡ get_or xs j d)
  get_or-modify [] i j f d = inr refl
  get_or-modify (x ∷ xs) zero zero f d = inl (refl, refl)
  get_or-modify (x ∷ xs) zero (suc j) f d = inr refl
  get_or-modify (x ∷ xs) (suc i) zero f d = inr refl
  get_or-modify (x ∷ xs) (suc i) (suc j) f d = elim (get_or-modify xs i j f d) [
    | inl (e, changed) ↦ inl (ap suc e, changed)
    | inr same ↦ inr same
  ]

  -- An element after one more was added: the new one, or it is as it was.
  pub get_or-append_one :
      (xs : List A) (x : A) (j : ℕ) (d : A)
      → ((j ≡ length xs) × (get_or (xs ++ x ∷ []) j d ≡ x))
        ⊎ (get_or (xs ++ x ∷ []) j d ≡ get_or xs j d)
  get_or-append_one [] x zero d = inl (refl, refl)
  get_or-append_one [] x (suc j) d = inr refl
  get_or-append_one (y ∷ xs) x zero d = inr refl
  get_or-append_one (y ∷ xs) x (suc j) d = elim (get_or-append_one xs x j d) [
    | inl (e, new) ↦ inl (ap suc e, new)
    | inr same ↦ inr same
  ]

  pub get_or-append_last : (xs : List A) (x d : A) → get_or (xs ++ x ∷ []) (length xs) d ≡ x
  get_or-append_last [] x d = refl
  get_or-append_last (y ∷ xs) x d = get_or-append_last xs x d

  pub get_or-append_front :
      (xs ys : List A) (j : ℕ) (d : A) → j < length xs → get_or (xs ++ ys) j d ≡ get_or xs j d
  get_or-append_front [] ys j d h = absurd (omega arith)
  get_or-append_front (x ∷ xs) ys zero d h = refl
  get_or-append_front (x ∷ xs) ys (suc j) d h = get_or-append_front xs ys j d (omega arith)
