-- ===== src/Sedimentree/CommitDag/Traverse.antt =====
-- src/sedimentree/commit_dag.rs: the order of commit hashes, and the iterator `ReverseTopo`.
pub mod Sorted
pub mod Lookups
pub mod Nodes
pub mod Ancestors
use beelay.Prelude.{ℕ, suc, List, [], ◌∷◌, Option, none, some, Bool, true, false, if◌then◌else◌}
use beelay.Prelude.{ltb, ◌==◌, length, get_elem?, map}
use beelay.Prelude.Array.{to_list}
use beelay.Prelude.Equality.{Eq, nat_eq}
use beelay.Commit.{CommitHash}
use beelay.Sedimentree.Strata.{commit_hash_eq}
use beelay.Sedimentree.CommitDag.{CommitDag, Node, parents, hashes_at}
use beelay.Sedimentree.CommitDag.Walk.{Walk, collect}

-- The derived order: byte by byte.
unfoldable pub bytes_leb : List ℕ → List ℕ → Bool
bytes_leb [] ys = true
bytes_leb (x ∷ xs) [] = false
bytes_leb (x ∷ xs) (y ∷ ys) = if x == y then bytes_leb xs ys else ltb x y

unfoldable pub hash_leb : CommitHash → CommitHash → Bool
unfolding bytes_leb
hash_leb a b = bytes_leb (to_list a.digest) (to_list b.digest)

-- The stable `sort_by_key`.
module _ {A : Type 0} (key : A → CommitHash) where
  unfoldable pub insert_by_key : A → List A → List A
  unfolding hash_leb
  insert_by_key a [] = a ∷ []
  insert_by_key a (x ∷ xs) = if hash_leb (key a) (key x) then a ∷ x ∷ xs else x ∷ insert_by_key a xs

  unfoldable pub sort_by_key : List A → List A
  unfolding insert_by_key
  sort_by_key [] = []
  sort_by_key (x ∷ xs) = insert_by_key x (sort_by_key xs)

-- The places with their hashes; `none` is a place out of range.
unfoldable pub with_hashes : List Node → List ℕ → Option (List (ℕ × CommitHash))
with_hashes ns [] = some []
with_hashes ns (i ∷ is) = elim (get_elem? ns i) [
  | none ↦ none
  | some n ↦ elim (with_hashes ns is) [ none ↦ none | some ps ↦ some ((i, n.hash) ∷ ps) ]
]

-- `parents.sort_by_key(|p| self.dag.nodes[p.0].hash)`
unfoldable pub sorted_parents : CommitDag → ℕ → Option (List ℕ)
unfolding parents with_hashes sort_by_key
sorted_parents g node = elim (parents g node) [
  | none ↦ none
  | some is ↦ elim (with_hashes g.nodes is) [
    | none ↦ none
    | some ps ↦ some (map (λ p. p.0) (sort_by_key (λ p. p.1) ps))
  ]
]

-- The hashes that `ReverseTopo` gives from `start` on, with a round for each node and one for the
-- end.
unfoldable pub reverse_topo : CommitDag → ℕ → Option (List CommitHash)
unfolding sorted_parents collect hashes_at
reverse_topo g start = elim (collect (sorted_parents g) (suc (length g.nodes)) (start ∷ []) []) [
  | none ↦ none
  | some is ↦ hashes_at g.nodes is
]
