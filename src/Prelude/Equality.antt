-- ===== src/Prelude/Equality.antt =====
-- `Eq` of Rust as an interface: a Boolean test that decides equality.
use Prim.Native.Nat.{ℕ, zero, suc}
use mathlib.Core.Path.{◌≡◌, refl, ap, sym, ◌∙◌}
use mathlib.Core.Logic.{◌↔◌, ◌≢◌, ◌⊎◌, inl, inr}
use mathlib.Core.Bool.{Bool, true, false, ◌&&◌, ◌||◌}
use mathlib.Core.List.{List, [], ◌∷◌, ◌++◌}
use mathlib.Core.Option.{Option, none, some, some_inj}
use native.Mathlib.Omega.{arith}
use beelay.Prelude.Lists.{get_elem?, All}
use beelay.Prelude.Tests.{◌==◌, ==_iff, Bool-cases}
use beelay.Prelude.Array.{Array, to_list, copy_from_slice, copy_from_slice-to_list}

pub record Eq {ℓ} (A : Type ℓ) : Type ℓ where
  pub beq : A → A → Bool
  pub beq_iff : (x y : A) → (beq x y ≡ true) ↔ (x ≡ y)

infix 50 ◌=?◌
abbrev pub ◌=?◌ {ℓ} : {A : Type ℓ} ⦃e : Eq A⦄ → A → A → Bool
◌=?◌ ⦃e⦄ = e.beq

module _ {ℓ} {A : Type ℓ} ⦃e : Eq A⦄ where
  pub =?-refl : (a : A) → (a =? a) ≡ true
  =?-refl a = (e.beq_iff a a).1 refl

  pub eq_of_=? : (a b : A) → (a =? b) ≡ true → a ≡ b
  eq_of_=? a b h = (e.beq_iff a b).0 h

  pub =?-eq_false : (a b : A) → a ≢ b → (a =? b) ≡ false
  =?-eq_false a b h = elim (Bool-cases (a =? b)) [ inl y ↦ absurd (h (eq_of_=? a b y)) | inr n ↦ n ]

  pub ne_of_=? : (a b : A) → (a =? b) ≡ false → a ≢ b
  ne_of_=? a b h p = cc (=?-refl a, ap (λ x. a =? x) p)

  pub =?-comm : (a b : A) → (a =? b) ≡ (b =? a)
  =?-comm a b = elim (Bool-cases (a =? b)) [
    | inl y ↦ y ∙ sym ((e.beq_iff b a).1 (sym (eq_of_=? a b y)))
    | inr n ↦ n ∙ sym (=?-eq_false b a (λ p. ne_of_=? a b n (sym p)))
  ]

  -- `xs.contains(&a)`
  unfoldable pub contains : List A → A → Bool
  contains [] a = false
  contains (x ∷ xs) a = x =? a || contains xs a

  pub contains_here : (x a : A) (xs : List A) → (x =? a) ≡ true → contains (x ∷ xs) a ≡ true
  unfolding contains
  contains_here x a xs h = rw (h) refl

  pub contains_cons :
      (x a : A) (xs : List A) → (x =? a) ≡ false → contains (x ∷ xs) a ≡ contains xs a
  unfolding contains
  contains_cons x a xs h = rw (h) refl

  -- `a` is an element.
  abbrev pub IsIn : List A → A → Type 0
  IsIn xs a = contains xs a ≡ true

  pub IsIn-cases : (x a : A) (xs : List A) → IsIn (x ∷ xs) a → (x ≡ a) ⊎ IsIn xs a
  IsIn-cases x a xs h = elim (Bool-cases (x =? a)) [
    | inl y ↦ inl (eq_of_=? x a y)
    | inr n ↦ inr (sym (contains_cons x a xs n) ∙ h)
  ]

  pub IsIn-here : (x a : A) (xs : List A) → x ≡ a → IsIn (x ∷ xs) a
  IsIn-here x a xs p = contains_here x a xs ((e.beq_iff x a).1 p)

  pub IsIn-later : (x a : A) (xs : List A) → IsIn xs a → IsIn (x ∷ xs) a
  IsIn-later x a xs h = elim (Bool-cases (x =? a)) [
    | inl y ↦ contains_here x a xs y
    | inr n ↦ contains_cons x a xs n ∙ h
  ]

  pub contains_uncons :
      (x a : A) (xs : List A) → contains (x ∷ xs) a ≡ false → contains xs a ≡ false
  contains_uncons x a xs h = elim (Bool-cases (contains xs a)) [
    | inl y ↦ absurd (cc (h, IsIn-later x a xs y))
    | inr n ↦ n
  ]

  pub IsIn-All : (P : A → Type ℓ) (xs : List A) → ((x : A) → IsIn xs x → P x) → All P xs
  IsIn-All P [] f = tt
  IsIn-All P (x ∷ xs) f =
      (f x (IsIn-here x x xs refl), IsIn-All P xs (λ y i. f y (IsIn-later x y xs i)))

  pub IsIn-append_cases : (xs ys : List A) (a : A) → IsIn (xs ++ ys) a → IsIn xs a ⊎ IsIn ys a
  IsIn-append_cases [] ys a h = inr h
  IsIn-append_cases (x ∷ xs) ys a h = elim (IsIn-cases x a (xs ++ ys) h) [
    | inl p ↦ inl (IsIn-here x a xs p)
    | inr r ↦ elim (IsIn-append_cases xs ys a r) [
      | inl i ↦ inl (IsIn-later x a xs i)
      | inr i ↦ inr i
    ]
  ]

  pub IsIn-append_left : (xs ys : List A) (a : A) → IsIn xs a → IsIn (xs ++ ys) a
  unfolding contains
  IsIn-append_left [] ys a h = absurd (cc h)
  IsIn-append_left (x ∷ xs) ys a h = elim (IsIn-cases x a xs h) [
    | inl p ↦ IsIn-here x a (xs ++ ys) p
    | inr r ↦ IsIn-later x a (xs ++ ys) (IsIn-append_left xs ys a r)
  ]

  pub IsIn-append_right : (xs ys : List A) (a : A) → IsIn ys a → IsIn (xs ++ ys) a
  IsIn-append_right [] ys a h = h
  IsIn-append_right (x ∷ xs) ys a h = IsIn-later x a (xs ++ ys) (IsIn-append_right xs ys a h)

  pub contains-snoc :
      (xs : List A) (x a : A) → contains xs a ≡ false → x ≢ a → contains (xs ++ x ∷ []) a ≡ false
  unfolding contains
  contains-snoc [] x a c d = rw (=?-eq_false x a d) refl
  contains-snoc (y ∷ xs) x a c d = elim (Bool-cases (y =? a)) [
    | inl t ↦ absurd (cc (c, ap (λ b. b || contains xs a) t))
    | inr n ↦ rw (n) (contains-snoc xs x a (sym (ap (λ b. b || contains xs a) n) ∙ c) d)
  ]

  pub contains-get_elem? :
      (xs : List A) (i : ℕ) (a : A) → get_elem? xs i ≡ some a → contains xs a ≡ true
  unfolding contains
  contains-get_elem? [] i a f = absurd (cc f)
  contains-get_elem? (x ∷ xs) zero a f = rw ((e.beq_iff x a).1 (some_inj.0 f)) refl
  contains-get_elem? (x ∷ xs) (suc i) a f = elim (Bool-cases (x =? a)) [
    | inl t ↦ rw (t) refl
    | inr n ↦ rw (n) (contains-get_elem? xs i a f)
  ]

unfoldable pub nats_beq : List ℕ → List ℕ → Bool
nats_beq [] [] = true
nats_beq [] (y ∷ ys) = false
nats_beq (x ∷ xs) [] = false
nats_beq (x ∷ xs) (y ∷ ys) = x == y && nats_beq xs ys

nats_beq_refl : (xs : List ℕ) → nats_beq xs xs ≡ true
unfolding nats_beq
nats_beq_refl [] = refl
nats_beq_refl (x ∷ xs) = ground (arith, nats_beq_refl xs)

eq_of_nats_beq : (xs ys : List ℕ) → nats_beq xs ys ≡ true → xs ≡ ys
unfolding nats_beq
eq_of_nats_beq [] [] h = refl
eq_of_nats_beq [] (y ∷ ys) h = cc
eq_of_nats_beq (x ∷ xs) [] h = cc
eq_of_nats_beq (x ∷ xs) (y ∷ ys) h = ground (arith, eq_of_nats_beq xs ys)

pub nats_beq_iff : (xs ys : List ℕ) → (nats_beq xs ys ≡ true) ↔ (xs ≡ ys)
nats_beq_iff xs ys = (eq_of_nats_beq xs ys, λ p. ap (nats_beq xs) (sym p) ∙ nats_beq_refl xs)

instance abbrev pub nat_eq : Eq ℕ
nat_eq = record { beq = ◌==◌; beq_iff = ==_iff }

instance abbrev pub nats_eq : Eq (List ℕ)
nats_eq = record { beq = nats_beq; beq_iff = nats_beq_iff }

to_list-injective : {n : ℕ} (a b : Array n) → to_list a ≡ to_list b → a ≡ b
to_list-injective {n} a b p =
    sym (copy_from_slice-to_list a) ∙ ap (copy_from_slice n) p ∙ copy_from_slice-to_list b

pub array_beq_iff : {n : ℕ} (a b : Array n) → (nats_beq (to_list a) (to_list b) ≡ true) ↔ (a ≡ b)
array_beq_iff a b =
    (λ h. to_list-injective a b (eq_of_nats_beq _ _ h), λ p. (nats_beq_iff _ _).1 (ap to_list p))

instance abbrev pub array_eq : {n : ℕ} → Eq (Array n)
array_eq = record { beq = λ a b. nats_beq (to_list a) (to_list b); beq_iff = array_beq_iff }

module _ {ℓ} {A : Type ℓ} ⦃e : Eq A⦄ where
  unfoldable pub option_beq : Option A → Option A → Bool
  option_beq none none = true
  option_beq none (some b) = false
  option_beq (some a) none = false
  option_beq (some a) (some b) = a =? b

  pub option_beq_iff : (x y : Option A) → (option_beq x y ≡ true) ↔ (x ≡ y)
  unfolding option_beq
  option_beq_iff none none = (λ h. refl, λ h. refl)
  option_beq_iff none (some b) = (λ h. cc, λ h. cc)
  option_beq_iff (some a) none = (λ h. cc, λ h. cc)
  option_beq_iff (some a) (some b) = (λ h. ap some (eq_of_=? a b h), λ p. (e.beq_iff a b).1 (cc p))

  unfoldable pub list_beq : List A → List A → Bool
  list_beq [] [] = true
  list_beq [] (y ∷ ys) = false
  list_beq (x ∷ xs) [] = false
  list_beq (x ∷ xs) (y ∷ ys) = x =? y && list_beq xs ys

  pub list_beq_iff : (xs ys : List A) → (list_beq xs ys ≡ true) ↔ (xs ≡ ys)
  unfolding list_beq
  list_beq_iff [] [] = (λ h. refl, λ h. refl)
  list_beq_iff [] (y ∷ ys) = (λ h. cc, λ h. cc)
  list_beq_iff (x ∷ xs) [] = (λ h. cc, λ h. cc)
  list_beq_iff (x ∷ xs) (y ∷ ys) = ground (arith, e.beq_iff x y, list_beq_iff xs ys)

module _ {ℓ} {A : Type ℓ} where
  instance abbrev pub option_eq : ⦃e : Eq A⦄ → Eq (Option A)
  option_eq = record { beq = option_beq; beq_iff = option_beq_iff }

  abbrev pub list_eq : ⦃e : Eq A⦄ → Eq (List A)
  list_eq = record { beq = list_beq; beq_iff = list_beq_iff }
