-- ===== src/Sedimentree/CommitDag/Traverse/Lookups.antt =====
-- src/sedimentree/commit_dag.rs: the places of the parents of a commit, and the places below a bound.
use mathlib.Core.Option.{some_inj}
use beelay.Prelude.{ℕ, zero, suc, ◌<◌, ◌≡◌, refl, ap, ◌∙◌, arith, List, [], ◌∷◌, none, some, inl}
use beelay.Prelude.{inr, ◌⊎◌, subst, Option-cases, length, get_elem?}
use beelay.Prelude.Equality.{nat_eq, contains, IsIn, IsIn-cases, IsIn-here, IsIn-later}
use beelay.Prelude.Assoc.{lookup}
use beelay.Commit.{CommitHash}
use beelay.Sedimentree.Types.{LooseCommit}
use beelay.Sedimentree.Strata.{commit_hash_eq}
use beelay.Sedimentree.CommitDag.Places.{hashes_from}
use beelay.Sedimentree.CommitDag.Relations.{places}

places_skip :
    (m : List (CommitHash × ℕ)) (p : CommitHash) (ps : List CommitHash)
    → lookup m p ≡ none
    → places m (p ∷ ps) ≡ places m ps
unfolding places
places_skip m p ps n = rw (places, n) refl

places_take :
    (m : List (CommitHash × ℕ)) (p : CommitHash) (ps : List CommitHash) (i : ℕ)
    → lookup m p ≡ some i
    → places m (p ∷ ps) ≡ i ∷ places m ps
unfolding places
places_take m p ps i y = rw (places, y) refl

pub places-IsIn :
    (m : List (CommitHash × ℕ)) (ps : List CommitHash) (j : ℕ)
    → IsIn (places m ps) j
    → (p : CommitHash) × IsIn ps p × (lookup m p ≡ some j)
unfolding places contains
places-IsIn m [] j h = absurd (cc h)
places-IsIn m (p ∷ ps) j h = elim (Option-cases (lookup m p)) [
  | inl n ↦
      let (q, i, at) = places-IsIn m ps j (subst (λ l. IsIn l j) (places_skip m p ps n) h) in
      (q, IsIn-later p q ps i, at)
  | inr (k, y) ↦
      elim (IsIn-cases k j (places m ps) (subst (λ l. IsIn l j) (places_take m p ps k y) h)) [
        | inl e ↦ (p, IsIn-here p p ps refl, y ∙ ap some e)
        | inr r ↦ let (q, i, at) = places-IsIn m ps j r in (q, IsIn-later p q ps i, at)
      ]
]

pub IsIn-places :
    (m : List (CommitHash × ℕ)) (ps : List CommitHash) (p : CommitHash) (j : ℕ)
    → IsIn ps p
    → lookup m p ≡ some j
    → IsIn (places m ps) j
unfolding places contains
IsIn-places m [] p j h at = absurd (cc h)
IsIn-places m (q ∷ ps) p j h at = elim (IsIn-cases q p ps h) [
  | inl e ↦ rw (places_take m q ps j (ap (lookup m) e ∙ at)) (IsIn-here j j (places m ps) refl)
  | inr r ↦ elim (Option-cases (lookup m q)) [
    | inl n ↦ rw (places_skip m q ps n) (IsIn-places m ps p j r at)
    | inr (k, y) ↦
        rw (places_take m q ps k y) (IsIn-later k j (places m ps) (IsIn-places m ps p j r at))
  ]
]

pub commit_of :
    (cs : List LooseCommit) (i : ℕ) (h : CommitHash)
    → get_elem? (hashes_from cs) i ≡ some h
    → (c : LooseCommit) × (get_elem? cs i ≡ some c) × (c.hash ≡ h)
commit_of [] i h f = absurd (cc f)
commit_of (c ∷ cs) zero h f = (c, refl, some_inj.0 f)
commit_of (c ∷ cs) (suc i) h f = commit_of cs i h f

-- The places below `n`.
unfoldable pub below : ℕ → List ℕ
below zero = []
below (suc n) = n ∷ below n

pub below-IsIn : (n i : ℕ) → IsIn (below n) i → i < n
unfolding below contains
below-IsIn zero i h = absurd (cc h)
below-IsIn (suc n) i h = elim (IsIn-cases n i (below n) h) [
  | inl p ↦ omega arith
  | inr r ↦ omega (arith, below-IsIn n i r)
]

eq_or_less : (n i : ℕ) → i < suc n → (n ≡ i) ⊎ (i < n)
eq_or_less n i h = ground arith

pub IsIn-below : (n i : ℕ) → i < n → IsIn (below n) i
unfolding below
IsIn-below zero i h = absurd (omega arith)
IsIn-below (suc n) i h = elim (eq_or_less n i h) [
  | inl p ↦ IsIn-here n i (below n) p
  | inr r ↦ IsIn-later n i (below n) (IsIn-below n i r)
]

pub length-below : (n : ℕ) → length (below n) ≡ n
unfolding below
length-below zero = refl
length-below (suc n) = ap suc (length-below n)
