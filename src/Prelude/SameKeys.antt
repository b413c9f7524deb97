-- ===== src/Prelude/SameKeys.antt =====
-- Two association lists with the same keys.
use mathlib.Core.Path.{◌≡◌, sym, ◌∙◌, subst}
use mathlib.Core.Logic.{◌↔◌, inl, inr}
use mathlib.Core.List.{List}
use mathlib.Core.Option.{none, some}
use beelay.Prelude.Tests.{Bool-cases}
use beelay.Prelude.Equality.{Eq, ◌=?◌, eq_of_=?, ne_of_=?}
use beelay.Prelude.Assoc.{lookup, insert, remove, lookup-insert, lookup-insert_other}
use beelay.Prelude.Assoc.{lookup-remove, lookup-remove_other}

module _ {ℓ κ ι} {K : Type ℓ} {V : Type κ} {W : Type ι} ⦃e : Eq K⦄ where
  abbrev pub HaveSameKeys : List (K × V) → List (K × W) → Type (ℓ ⊔ κ ⊔ ι)
  HaveSameKeys m n = (j : K) → (lookup m j ≡ none) ↔ (lookup n j ≡ none)

  pub insert-HaveSameKeys :
      (k : K) (v : V) (w : W) (m : List (K × V)) (n : List (K × W))
      → HaveSameKeys m n
      → HaveSameKeys (insert k v m) (insert k w n)
  insert-HaveSameKeys k v w m n h j = elim (Bool-cases (k =? j)) [
    | inl y ↦
        let a =
          subst (λ x. lookup (insert k v m) x ≡ some v) (eq_of_=? k j y) (lookup-insert k v m) in
        let b =
          subst (λ x. lookup (insert k w n) x ≡ some w) (eq_of_=? k j y) (lookup-insert k w n) in
        (λ p. absurd (cc (p, a)), λ p. absurd (cc (p, b)))
    | inr d ↦
        let a = lookup-insert_other k j v m (ne_of_=? k j d) in
        let b = lookup-insert_other k j w n (ne_of_=? k j d) in
        (λ p. b ∙ (h j).0 (sym a ∙ p), λ p. a ∙ (h j).1 (sym b ∙ p))
  ]

  pub insert-HaveSameKeys_left :
      (k : K) (v : V) (w : W) (m : List (K × V)) (n : List (K × W))
      → lookup n k ≡ some w
      → HaveSameKeys m n
      → HaveSameKeys (insert k v m) n
  insert-HaveSameKeys_left k v w m n q h j = elim (Bool-cases (k =? j)) [
    | inl y ↦
        let a =
          subst (λ x. lookup (insert k v m) x ≡ some v) (eq_of_=? k j y) (lookup-insert k v m) in
        let b = subst (λ x. lookup n x ≡ some w) (eq_of_=? k j y) q in
        (λ p. absurd (cc (p, a)), λ p. absurd (cc (p, b)))
    | inr d ↦
        let a = lookup-insert_other k j v m (ne_of_=? k j d) in
        (λ p. (h j).0 (sym a ∙ p), λ p. a ∙ (h j).1 p)
  ]

  pub remove-HaveSameKeys :
      (k : K) (m : List (K × V)) (n : List (K × W))
      → HaveSameKeys m n
      → HaveSameKeys (remove k m) (remove k n)
  remove-HaveSameKeys k m n h j = elim (Bool-cases (k =? j)) [
    | inl y ↦
        let a = subst (λ x. lookup (remove k m) x ≡ none) (eq_of_=? k j y) (lookup-remove k m) in
        let b = subst (λ x. lookup (remove k n) x ≡ none) (eq_of_=? k j y) (lookup-remove k n) in
        (λ p. b, λ p. a)
    | inr d ↦
        let a = lookup-remove_other k j m (ne_of_=? k j d) in
        let b = lookup-remove_other k j n (ne_of_=? k j d) in
        (λ p. b ∙ (h j).0 (sym a ∙ p), λ p. a ∙ (h j).1 (sym b ∙ p))
  ]

  pub remove-HaveSameKeys_left :
      (k : K) (m : List (K × V)) (n : List (K × W))
      → lookup n k ≡ none
      → HaveSameKeys m n
      → HaveSameKeys (remove k m) n
  remove-HaveSameKeys_left k m n q h j = elim (Bool-cases (k =? j)) [
    | inl y ↦
        let a = subst (λ x. lookup (remove k m) x ≡ none) (eq_of_=? k j y) (lookup-remove k m) in
        let b = subst (λ x. lookup n x ≡ none) (eq_of_=? k j y) q in (λ p. b, λ p. a)
    | inr d ↦
        let a = lookup-remove_other k j m (ne_of_=? k j d) in
        (λ p. (h j).0 (sym a ∙ p), λ p. a ∙ (h j).1 p)
  ]
