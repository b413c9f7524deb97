-- ===== src/Sedimentree/CommitDag/Canonical.antt =====
-- src/sedimentree/commit_dag.rs: `canonical_sequence`.
pub mod Chosen
pub mod Behind
pub mod Pushed
pub mod Complete
pub mod Tips
pub mod Sequence
use Prim.Native.Nat.{compare, Ordering}
use beelay.Prelude.{ℕ, suc, List, [], ◌∷◌, ◌++◌, Option, none, some, Bool, true, false}
use beelay.Prelude.{if◌then◌else◌, length}
use beelay.Prelude.Equality.{Eq, ◌=?◌}
use beelay.Prelude.Assoc.{lookup}
use beelay.Commit.{CommitHash}
use beelay.Sedimentree.Types.{Stratum}
use beelay.Sedimentree.Strata.{commit_hash_eq, level, level_partial_cmp}
use beelay.Sedimentree.CommitDag.{CommitDag, parents, hashes_at, heads, contains_commit}
use beelay.Sedimentree.CommitDag.{commit_hashes}
use beelay.Sedimentree.CommitDag.Traverse.{sort_by_key}
use beelay.Sedimentree.CommitDag.Walk.{collect}

-- The ends of the strata that are not in the graph.
unfoldable pub ends_outside : CommitDag → List Stratum → List CommitHash
unfolding contains_commit
ends_outside g [] = []
ends_outside g (s ∷ ss) =
    if contains_commit g s.meta.end then ends_outside g ss else s.meta.end ∷ ends_outside g ss

-- `heads.sort()`
unfoldable pub sequence_heads : CommitDag → List Stratum → List CommitHash
unfolding sort_by_key heads ends_outside
sequence_heads g strata = sort_by_key (λ h. h) (heads g ++ ends_outside g strata)

unfoldable pub strata_ending : CommitHash → List Stratum → List Stratum
strata_ending commit [] = []
strata_ending commit (s ∷ ss) =
    if s.meta.end =? commit then s ∷ strata_ending commit ss else strata_ending commit ss

-- `for commit in stratum.checkpoints() { .. } if let Some(start) = stratum.start() { .. }`
unfoldable pub behind : Stratum → List CommitHash
behind s = s.checkpoints ++ elim s.meta.start [ none ↦ [] | some start ↦ start ∷ [] ]

-- The hashes that a sequence can have: a round of fuel for each.
unfoldable pub strata_hashes : List Stratum → List CommitHash
unfolding behind
strata_hashes [] = []
strata_hashes (s ∷ ss) = s.meta.end ∷ behind s ++ strata_hashes ss

unfoldable pub sequence_fuel : CommitDag → List Stratum → ℕ
unfolding commit_hashes strata_hashes
sequence_fuel g strata = suc (length (commit_hashes g ++ strata_hashes strata))

-- The first if it is less, else the second.
unfoldable pub lesser_by : Option Ordering → Stratum → Stratum → Stratum
lesser_by none t s = s
lesser_by (some Ordering.lt) t s = t
lesser_by (some Ordering.eq) t s = s
lesser_by (some Ordering.gt) t s = s

module _ (to_radix_be : List ℕ → ℕ → List ℕ) where
  -- A stable sort by the level, turned round, from which the last is popped: the first stratum of
  -- those with the least level, by `<`, which is `partial_cmp`.
  unfoldable pub least_level : List Stratum → Option Stratum
  unfolding level level_partial_cmp lesser_by
  least_level [] = none
  least_level (s ∷ ss) = elim (least_level ss) [
    | none ↦ some s
    | some t ↦ some (lesser_by (level_partial_cmp (level to_radix_be t) (level to_radix_be s)) t s)
  ]

  -- What a commit pushes: its sorted parents, or what the stratum that ends there has behind it.
  unfoldable pub sequence_next : CommitDag → List Stratum → CommitHash → Option (List CommitHash)
  unfolding lookup parents hashes_at sort_by_key least_level strata_ending behind
  sequence_next g strata commit = elim (lookup g.node_map commit) [
    | some idx ↦ elim (parents g idx) [
      | none ↦ none
      | some is ↦ elim (hashes_at g.nodes is) [
        | none ↦ none
        | some hs ↦ some (sort_by_key (λ h. h) hs)
      ]
    ]
    | none ↦ elim (least_level (strata_ending commit strata)) [
      | none ↦ some []
      | some s ↦ some (behind s)
    ]
  ]

  -- `heads.into_iter().flat_map(..)`
  unfoldable pub sequence_from :
      CommitDag → List Stratum → List CommitHash → Option (List CommitHash)
  unfolding collect sequence_next sequence_fuel
  sequence_from g strata [] = some []
  sequence_from g strata (head ∷ heads) =
      elim (collect (sequence_next g strata) (sequence_fuel g strata) (head ∷ []) []) [
        | none ↦ none
        | some hs ↦ elim (sequence_from g strata heads) [
          | none ↦ none
          | some rest ↦ some (hs ++ rest)
        ]
      ]

  unfoldable pub canonical_sequence : CommitDag → List Stratum → Option (List CommitHash)
  unfolding sequence_from sequence_heads
  canonical_sequence g strata = sequence_from g strata (sequence_heads g strata)
