-- ===== src/Sedimentree/CommitDag/Traverse/Sorted.antt =====
-- src/sedimentree/commit_dag.rs: `sort_by_key` of places.
use beelay.Prelude.{ℕ, ◌≡◌, refl, ap, List, [], ◌∷◌, some, Bool-cases, inl, inr, ◌↔◌, get_elem?}
use beelay.Prelude.{map}
use beelay.Prelude.Equality.{Eq, nat_eq, IsIn, IsIn-cases, IsIn-here, IsIn-later}
use beelay.Commit.{CommitHash}
use beelay.Sedimentree.Strata.{commit_hash_eq}
use beelay.Sedimentree.CommitDag.{Node}
use beelay.Sedimentree.CommitDag.Traverse.{sort_by_key, insert_by_key, with_hashes, hash_leb}

-- A sort keeps the elements, whatever is read off them.
module _ {A K : Type 0} ⦃e : Eq K⦄ (key : A → CommitHash) (f : A → K) where
  IsIn-insert :
      (a : A) (xs : List A) (i : K)
      → IsIn (map f (insert_by_key key a xs)) i ↔ IsIn (map f (a ∷ xs)) i
  unfolding insert_by_key
  IsIn-insert a [] i = (λ h. h, λ h. h)
  IsIn-insert a (x ∷ xs) i = elim (Bool-cases (hash_leb (key a) (key x))) [
    | inl y ↦ rw (y) (λ h. h, λ h. h)
    | inr n ↦ rw (n) (
      λ h. elim (IsIn-cases (f x) i (map f (insert_by_key key a xs)) h) [
        | inl p ↦ IsIn-later (f a) i (map f (x ∷ xs)) (IsIn-here (f x) i (map f xs) p)
        | inr r ↦ elim (IsIn-cases (f a) i (map f xs) ((IsIn-insert a xs i).0 r)) [
          | inl p ↦ IsIn-here (f a) i (map f (x ∷ xs)) p
          | inr q ↦ IsIn-later (f a) i (map f (x ∷ xs)) (IsIn-later (f x) i (map f xs) q)
        ]
      ],
      λ h. elim (IsIn-cases (f a) i (map f (x ∷ xs)) h) [
        | inl p ↦
            IsIn-later (f x) i (map f (insert_by_key key a xs))
              ((IsIn-insert a xs i).1 (IsIn-here (f a) i (map f xs) p))
        | inr r ↦ elim (IsIn-cases (f x) i (map f xs) r) [
          | inl p ↦ IsIn-here (f x) i (map f (insert_by_key key a xs)) p
          | inr q ↦
              IsIn-later (f x) i (map f (insert_by_key key a xs))
                ((IsIn-insert a xs i).1 (IsIn-later (f a) i (map f xs) q))
        ]
      ],
    )
  ]

  pub IsIn-sort : (xs : List A) (i : K) → IsIn (map f (sort_by_key key xs)) i ↔ IsIn (map f xs) i
  unfolding sort_by_key
  IsIn-sort [] i = (λ h. h, λ h. h)
  IsIn-sort (x ∷ xs) i = (
    λ h.
        elim (IsIn-cases (f x) i (map f (sort_by_key key xs))
          ((IsIn-insert x (sort_by_key key xs) i).0 h)) [
            | inl p ↦ IsIn-here (f x) i (map f xs) p
            | inr r ↦ IsIn-later (f x) i (map f xs) ((IsIn-sort xs i).0 r)
          ],
    λ h. (IsIn-insert x (sort_by_key key xs) i).1 (elim (IsIn-cases (f x) i (map f xs) h) [
      | inl p ↦ IsIn-here (f x) i (map f (sort_by_key key xs)) p
      | inr r ↦ IsIn-later (f x) i (map f (sort_by_key key xs)) ((IsIn-sort xs i).1 r)
    ]),
  )

pub with_hashes-range :
    (ns : List Node) (is : List ℕ)
    → ((i : ℕ) → IsIn is i → (n : Node) × (get_elem? ns i ≡ some n))
    → (ps : List (ℕ × CommitHash)) × (with_hashes ns is ≡ some ps) × (map (λ p. p.0) ps ≡ is)
unfolding with_hashes
with_hashes-range ns [] range = ([], refl, refl)
with_hashes-range ns (i ∷ is) range =
    let (n, at) = range i (IsIn-here i i is refl) in
    let (ps, done, same) = with_hashes-range ns is (λ j h. range j (IsIn-later i j is h)) in
    ((i, n.hash) ∷ ps, rw (with_hashes, at, done) refl, ap (λ js. i ∷ js) same)
