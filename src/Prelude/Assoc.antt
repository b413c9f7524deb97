-- ===== src/Prelude/Assoc.antt =====
-- `HashMap` as an association list: one entry for a key, the newest key last.
use mathlib.Core.Path.{◌≡◌, refl, ap, sym, ◌∙◌, subst}
use mathlib.Core.Logic.{◌≢◌, ◌⊎◌, inl, inr}
use mathlib.Core.Bool.{true, false}
use mathlib.Core.List.{List, [], ◌∷◌}
use mathlib.Core.Option.{Option, none, some}
use beelay.Prelude.Tests.{Bool-cases, if◌then◌else◌}
use beelay.Prelude.Equality.{Eq, ◌=?◌, =?-refl, eq_of_=?, =?-eq_false, ne_of_=?}

module _ {ℓ κ} {K : Type ℓ} {V : Type κ} ⦃e : Eq K⦄ where
  unfoldable pub lookup : List (K × V) → K → Option V
  lookup [] k = none
  lookup ((k', v) ∷ m) k = if k' =? k then some v else lookup m k

  unfoldable pub insert : K → V → List (K × V) → List (K × V)
  insert k v [] = (k, v) ∷ []
  insert k v ((k', v') ∷ m) = if k' =? k then (k, v) ∷ m else (k', v') ∷ insert k v m

  unfoldable pub remove : K → List (K × V) → List (K × V)
  remove k [] = []
  remove k ((k', v') ∷ m) = if k' =? k then remove k m else (k', v') ∷ remove k m

  pub lookup_here :
      (k j : K) (v : V) (m : List (K × V)) → (k =? j) ≡ true → lookup ((k, v) ∷ m) j ≡ some v
  unfolding lookup
  lookup_here k j v m y = rw (y) refl

  pub lookup_skip :
      (k j : K) (v : V) (m : List (K × V)) → (k =? j) ≡ false → lookup ((k, v) ∷ m) j ≡ lookup m j
  unfolding lookup
  lookup_skip k j v m n = rw (n) refl

  pub lookup-insert : (k : K) (v : V) (m : List (K × V)) → lookup (insert k v m) k ≡ some v
  unfolding lookup insert
  lookup-insert k v [] = rw (=?-refl k) refl
  lookup-insert k v ((k', v') ∷ m) = elim (Bool-cases (k' =? k)) [
    | inl y ↦ rw (y, =?-refl k) refl
    | inr n ↦ rw (n, n) (lookup-insert k v m)
  ]

  pub lookup-insert_other :
      (k j : K) (v : V) (m : List (K × V)) → k ≢ j → lookup (insert k v m) j ≡ lookup m j
  unfolding lookup insert
  lookup-insert_other k j v [] h = rw (=?-eq_false k j h) refl
  lookup-insert_other k j v ((k', v') ∷ m) h = elim (Bool-cases (k' =? k)) [
    | inl y ↦ rw (y, eq_of_=? k' k y, =?-eq_false k j h) refl
    | inr n ↦ rw (n) (ap (λ r. if k' =? j then some v' else r) (lookup-insert_other k j v m h))
  ]

  pub lookup-remove : (k : K) (m : List (K × V)) → lookup (remove k m) k ≡ none
  unfolding lookup remove
  lookup-remove k [] = refl
  lookup-remove k ((k', v') ∷ m) = elim (Bool-cases (k' =? k)) [
    | inl y ↦ rw (y) (lookup-remove k m)
    | inr n ↦ rw (n, n) (lookup-remove k m)
  ]

  pub lookup-remove_other :
      (k j : K) (m : List (K × V)) → k ≢ j → lookup (remove k m) j ≡ lookup m j
  unfolding lookup remove
  lookup-remove_other k j [] h = refl
  lookup-remove_other k j ((k', v') ∷ m) h = elim (Bool-cases (k' =? k)) [
    | inl y ↦ rw (y, eq_of_=? k' k y, =?-eq_false k j h) (lookup-remove_other k j m h)
    | inr n ↦ rw (n) (ap (λ r. if k' =? j then some v' else r) (lookup-remove_other k j m h))
  ]

  pub lookup-insert_cases :
      (k j : K) (v w : V) (m : List (K × V))
      → lookup (insert k v m) j ≡ some w
      → ((k ≡ j) × (v ≡ w)) ⊎ ((k ≢ j) × (lookup m j ≡ some w))
  lookup-insert_cases k j v w m h = elim (Bool-cases (k =? j)) [
    | inl y ↦ inl (
      eq_of_=? k j y,
      cc (h, subst (λ x. lookup (insert k v m) x ≡ some v) (eq_of_=? k j y) (lookup-insert k v m)),
    )
    | inr n ↦ inr (ne_of_=? k j n, sym (lookup-insert_other k j v m (ne_of_=? k j n)) ∙ h)
  ]

  pub lookup-remove-some :
      (k j : K) (w : V) (m : List (K × V))
      → lookup (remove k m) j ≡ some w
      → (k ≢ j) × (lookup m j ≡ some w)
  lookup-remove-some k j w m h = elim (Bool-cases (k =? j)) [
    | inl y ↦
        absurd
          (cc (h, subst (λ x. lookup (remove k m) x ≡ none) (eq_of_=? k j y) (lookup-remove k m)))
    | inr n ↦ (ne_of_=? k j n, sym (lookup-remove_other k j m (ne_of_=? k j n)) ∙ h)
  ]
