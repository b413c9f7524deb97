-- ===== src/Sedimentree/Diff/Sets.antt =====
-- src/sedimentree.rs: the elements of what `difference` gives.
use beelay.Prelude.{Bool, true, false, ◌&&◌, ◌||◌, not, List, [], ◌∷◌, ◌++◌, map, ◌≡◌}
use beelay.Prelude.{refl, sym, ap, ◌∙◌, All, Bool-cases, inl, inr, subst, arith}
use beelay.Prelude.Equality.{Eq, ◌=?◌, eq_of_=?, contains, IsIn, IsIn-cases, IsIn-here, IsIn-later}
use beelay.Sedimentree.Diff.{to_set, without, difference}

and_false : (b : Bool) → (b && false) ≡ false
and_false true = refl
and_false false = refl

either_way : (a b : Bool) → (a || (b && not a)) ≡ (b || (a && not b))
either_way true true = refl
either_way true false = refl
either_way false true = refl
either_way false false = refl

module _ {ℓ} {A : Type ℓ} ⦃e : Eq A⦄ where
  pub contains-append :
      (xs ys : List A) (c : A) → contains (xs ++ ys) c ≡ contains xs c || contains ys c
  unfolding contains
  contains-append [] ys c = refl
  contains-append (x ∷ xs) ys c = ground (arith, contains-append xs ys c)

  pub contains-to_set : (xs : List A) (c : A) → contains (to_set xs) c ≡ contains xs c
  unfolding contains to_set
  contains-to_set [] c = refl
  contains-to_set (x ∷ xs) c = elim (Bool-cases (contains xs x)) [
    | inl y ↦ elim (Bool-cases (x =? c)) [
      | inl z ↦
          rw (y, z) (contains-to_set xs c ∙ subst (λ w. contains xs w ≡ true) (eq_of_=? x c z) y)
      | inr z ↦ rw (y, z) (contains-to_set xs c)
    ]
    | inr n ↦ rw (n) (ap (λ b. x =? c || b) (contains-to_set xs c))
  ]

  pub contains-without :
      (xs ys : List A) (c : A) → contains (without xs ys) c ≡ contains xs c && not (contains ys c)
  unfolding contains without
  contains-without [] ys c = refl
  contains-without (x ∷ xs) ys c = elim (Bool-cases (contains ys x)) [
    | inl y ↦ elim (Bool-cases (x =? c)) [
      | inl z ↦
          let there = subst (λ w. contains ys w ≡ true) (eq_of_=? x c z) y in
          rw (y, z, there) (contains-without xs ys c ∙ rw (there) (and_false (contains xs c)))
      | inr z ↦ rw (y, z) (contains-without xs ys c)
    ]
    | inr n ↦ elim (Bool-cases (x =? c)) [
      | inl z ↦
          let away = subst (λ w. contains ys w ≡ false) (eq_of_=? x c z) n in rw (n, z, away) refl
      | inr z ↦ rw (n, z) (contains-without xs ys c)
    ]
  ]

  -- What each side lacks, handed over, leaves both with the same elements.
  pub handed_over :
      (xs ys : List A) (c : A)
      → contains (xs ++ difference ys xs) c ≡ contains (ys ++ difference xs ys) c
  unfolding difference
  handed_over xs ys c =
      contains-append xs (difference ys xs) c
      ∙ ap (λ b. contains xs c || b)
          (contains-without (to_set ys) xs c
            ∙ ap (λ b. b && not (contains xs c)) (contains-to_set ys c))
      ∙ either_way (contains xs c) (contains ys c)
      ∙ sym (
          contains-append ys (difference xs ys) c
          ∙ ap (λ b. contains ys c || b)
              (contains-without (to_set xs) ys c
                ∙ ap (λ b. b && not (contains ys c)) (contains-to_set xs c)))

  module _ {κ} (P : A → Type κ) where
    All-to_set : (xs : List A) → All P xs → All P (to_set xs)
    unfolding to_set
    All-to_set [] h = tt
    All-to_set (x ∷ xs) (h, hs) = elim (Bool-cases (contains xs x)) [
      | inl y ↦ rw (y) (All-to_set xs hs)
      | inr n ↦ rw (n) (h, All-to_set xs hs)
    ]

    All-without : (xs ys : List A) → All P xs → All P (without xs ys)
    unfolding without
    All-without [] ys h = tt
    All-without (x ∷ xs) ys (h, hs) = elim (Bool-cases (contains ys x)) [
      | inl y ↦ rw (y) (All-without xs ys hs)
      | inr n ↦ rw (n) (h, All-without xs ys hs)
    ]

    pub All-difference : (xs ys : List A) → All P xs → All P (difference xs ys)
    unfolding difference
    All-difference xs ys h = All-without (to_set xs) ys (All-to_set xs h)

  pub contains-difference :
      (xs ys : List A) (c : A)
      → contains (difference xs ys) c ≡ (contains xs c && not (contains ys c))
  unfolding difference
  contains-difference xs ys c =
      contains-without (to_set xs) ys c ∙ ap (λ b. b && not (contains ys c)) (contains-to_set xs c)

  -- The same elements, the same answers.
  pub contains_same :
      (xs ys : List A) (c : A)
      → (IsIn xs c → IsIn ys c)
      → (IsIn ys c → IsIn xs c)
      → contains xs c ≡ contains ys c
  contains_same xs ys c f g = elim (Bool-cases (contains xs c)) [
    | inl y ↦ y ∙ sym (f y)
    | inr n ↦ elim (Bool-cases (contains ys c)) [ inl z ↦ absurd (cc (n, g z)) | inr m ↦ n ∙ sym m ]
  ]

module _ {ℓ κ} {A : Type ℓ} {B : Type κ} ⦃e : Eq A⦄ ⦃e' : Eq B⦄ (f : A → B) where
  pub IsIn-map : (xs : List A) (x : A) → IsIn xs x → IsIn (map f xs) (f x)
  unfolding contains
  IsIn-map [] x i = absurd (cc i)
  IsIn-map (y ∷ xs) x i = elim (IsIn-cases y x xs i) [
    | inl p ↦ IsIn-here (f y) (f x) (map f xs) (ap f p)
    | inr r ↦ IsIn-later (f y) (f x) (map f xs) (IsIn-map xs x r)
  ]

  pub map-IsIn : (xs : List A) (b : B) → IsIn (map f xs) b → (x : A) × IsIn xs x × (f x ≡ b)
  unfolding contains
  map-IsIn [] b i = absurd (cc i)
  map-IsIn (y ∷ xs) b i = elim (IsIn-cases (f y) b (map f xs) i) [
    | inl p ↦ (y, IsIn-here y y xs refl, p)
    | inr r ↦ let (x, j, p) = map-IsIn xs b r in (x, IsIn-later y x xs j, p)
  ]
