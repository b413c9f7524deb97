-- ===== src/Sedimentree/CommitDag/Walk.antt =====
-- src/sedimentree/commit_dag.rs: the walk that `ReverseTopo::next` and the closure in
-- `canonical_sequence` share: pop, skip what was visited, and push what comes next.
pub mod Round
pub mod Complete
use beelay.Prelude.{ℕ, zero, suc, List, [], ◌∷◌, ◌++◌, Option, none, some, Bool, if◌then◌else◌}
use beelay.Prelude.Equality.{Eq, contains}

-- The stack is the vector from its end on, so that `pop` takes the first element.
pub record Walk {ℓ} (K : Type ℓ) : Type ℓ where
  pub stack : List K
  pub visited : List K

unfoldable pub reversed {ℓ} : {A : Type ℓ} → List A → List A
reversed [] = []
reversed (x ∷ xs) = reversed xs ++ x ∷ []

-- `next_keys k` is what `k` pushes; `none` is a panic.
module _ {ℓ} {K : Type ℓ} ⦃e : Eq K⦄ (next_keys : K → Option (List K)) where
  -- `while let Some(node) = stack.pop()`
  unfoldable pub next_from : List K → List K → Option (Option K × Walk K)
  unfolding contains reversed
  next_from [] visited = some (none, record { stack = []; visited = visited })
  next_from (k ∷ stack) visited =
      let skipped = next_from stack visited in
      if contains visited k then skipped else elim (next_keys k) [
        | none ↦ none
        | some ks ↦ some (some k, record { stack = reversed ks ++ stack; visited = k ∷ visited })
      ]

  -- The iterator is read to its end, with a round of fuel for each element and one for the end.
  unfoldable pub collect : ℕ → List K → List K → Option (List K)
  unfolding next_from
  collect zero stack visited = none
  collect (suc fuel) stack visited = elim (next_from stack visited) [
    | none ↦ none
    | some (none, w) ↦ some []
    | some (some k, w) ↦ elim (collect fuel w.stack w.visited) [
      | none ↦ none
      | some ks ↦ some (k ∷ ks)
    ]
  ]
