-- ===== src/Prelude/Pairwise.antt =====
-- Predicates of all elements of a list and of all pairs of them, and the test `any`.
use Prim.Native.Nat.{ℕ, zero, suc}
use mathlib.Core.Path.{◌≡◌, refl, subst, ap, ◌∙◌}
use mathlib.Core.Bool.{Bool, true, false, ◌||◌}
use mathlib.Core.Logic.{inl, inr, ◌≢◌}
use mathlib.Core.List.{List, [], ◌∷◌, ◌++◌}
use mathlib.Core.Option.{some, some_inj}
use beelay.Prelude.Lists.{All, any, get_elem?}
use beelay.Prelude.Tests.{Bool-cases}

-- Each element before each later one.
abbrev pub Pairwise {ℓ κ} : {A : Type ℓ} → (A → A → Type κ) → List A → Type κ
Pairwise R [] = Unit
Pairwise R (x ∷ xs) = All (R x) xs × Pairwise R xs

module _ {ℓ κ} {A : Type ℓ} (P : A → Type κ) where
  pub All-snoc : (xs : List A) (y : A) → All P xs → P y → All P (xs ++ y ∷ [])
  All-snoc [] y h p = (p, tt)
  All-snoc (x ∷ xs) y (h, hs) p = (h, All-snoc xs y hs p)

module _ {ℓ κ} {A : Type ℓ} (P Q : A → Type κ) where
  pub All-map : ((x : A) → P x → Q x) → (xs : List A) → All P xs → All Q xs
  All-map f [] h = tt
  All-map f (x ∷ xs) (h, hs) = (f x h, All-map f xs hs)

module _ {ℓ κ} {A : Type ℓ} (R : A → A → Type κ) where
  pub Pairwise-snoc :
      (xs : List A) (y : A) → Pairwise R xs → All (λ x. R x y) xs → Pairwise R (xs ++ y ∷ [])
  Pairwise-snoc [] y h a = (tt, tt)
  Pairwise-snoc (x ∷ xs) y (h, hs) (a, rest) = (All-snoc (R x) xs y h a, Pairwise-snoc xs y hs rest)

module _ {ℓ} {A : Type ℓ} (p : A → Bool) where
  pub any_cons : (x : A) (xs : List A) → p x ≡ false → any p (x ∷ xs) ≡ any p xs
  unfolding any
  any_cons x xs h = rw (any, h) refl

  pub any_here : (x : A) (xs : List A) → p x ≡ true → any p (x ∷ xs) ≡ true
  unfolding any
  any_here x xs h = rw (any, h) refl

  pub All-any : (xs : List A) → any p xs ≡ false → All (λ x. p x ≡ false) xs
  All-any [] h = tt
  All-any (x ∷ xs) h = elim (Bool-cases (p x)) [
    | inl y ↦ absurd (cc (h, any_here x xs y))
    | inr n ↦ (n, All-any xs (cc (h, any_cons x xs n)))
  ]

  pub any-All : (xs : List A) → All (λ x. p x ≡ false) xs → any p xs ≡ false
  unfolding any
  any-All [] h = refl
  any-All (x ∷ xs) (h, hs) = cc (any_cons x xs h, any-All xs hs)

  pub any-append : (xs ys : List A) → any p xs ≡ true → any p (xs ++ ys) ≡ true
  unfolding any
  any-append [] ys h = absurd (cc h)
  any-append (x ∷ xs) ys h = elim (Bool-cases (p x)) [
    | inl y ↦ any_here x (xs ++ ys) y
    | inr n ↦ cc (any_cons x (xs ++ ys) n, any-append xs ys (cc (h, any_cons x xs n)))
  ]

  pub any-snoc : (xs : List A) (y : A) → p y ≡ true → any p (xs ++ y ∷ []) ≡ true
  any-snoc [] y h = any_here y [] h
  any-snoc (x ∷ xs) y h = elim (Bool-cases (p x)) [
    | inl t ↦ any_here x (xs ++ y ∷ []) t
    | inr n ↦ cc (any_cons x (xs ++ y ∷ []) n, any-snoc xs y h)
  ]

module _ {ℓ κ} {A : Type ℓ} (P : A → Type κ) where
  pub All-get_elem? : (xs : List A) (i : ℕ) (a : A) → All P xs → get_elem? xs i ≡ some a → P a
  All-get_elem? [] i a h f = absurd (cc f)
  All-get_elem? (x ∷ xs) zero a (h, hs) f = subst P (some_inj.0 f) h
  All-get_elem? (x ∷ xs) (suc i) a (h, hs) f = All-get_elem? xs i a hs f

module _ {ℓ} {A : Type ℓ} where
  -- In a list of distinct elements, an element has one place.
  pub place_unique :
      (xs : List A) (i j : ℕ) (a : A)
      → Pairwise (λ x y. x ≢ y) xs
      → get_elem? xs i ≡ some a
      → get_elem? xs j ≡ some a
      → i ≡ j
  place_unique [] i j a d f g = absurd (cc f)
  place_unique (x ∷ xs) zero zero a d f g = refl
  place_unique (x ∷ xs) zero (suc j) a (d, ds) f g =
      absurd (All-get_elem? (λ y. x ≢ y) xs j a d g (some_inj.0 f))
  place_unique (x ∷ xs) (suc i) zero a (d, ds) f g =
      absurd (All-get_elem? (λ y. x ≢ y) xs i a d f (some_inj.0 g))
  place_unique (x ∷ xs) (suc i) (suc j) a (d, ds) f g = ap suc (place_unique xs i j a ds f g)

module _ {ℓ} {A : Type ℓ} (p : A → Bool) where
  any_one : (x : A) → any p (x ∷ []) ≡ p x
  unfolding any
  any_one x = elim (Bool-cases (p x)) [ inl y ↦ rw (any, y) refl | inr n ↦ rw (any, n) refl ]

  pub any-append_or : (xs ys : List A) → any p (xs ++ ys) ≡ (any p xs || any p ys)
  unfolding any
  any-append_or [] ys = refl
  any-append_or (x ∷ xs) ys = elim (Bool-cases (p x)) [
    | inl y ↦ rw (any, y) refl
    | inr n ↦ rw (any, n) (any-append_or xs ys)
  ]

  pub any_or : (x : A) (xs : List A) → any p (x ∷ xs) ≡ (p x || any p xs)
  any_or x xs = any-append_or (x ∷ []) xs ∙ ap (λ b. b || any p xs) (any_one x)
