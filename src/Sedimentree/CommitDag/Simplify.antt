-- ===== src/Sedimentree/CommitDag/Simplify.antt =====
-- src/sedimentree/commit_dag.rs: `simplify`.
use Prim.Native.Nat.{Ordering}
use beelay.Prelude.{ℕ, ◌+◌, List, [], ◌∷◌, ◌++◌, Option, none, some, Bool, true, false}
use beelay.Prelude.{if◌then◌else◌, ◌&&◌, any, map}
use beelay.Prelude.Equality.{◌=?◌, contains}
use beelay.Prelude.Assoc.{lookup, insert}
use beelay.Commit.{CommitHash}
use beelay.Sedimentree.Types.{Stratum, LooseCommit, Sedimentree}
use beelay.Sedimentree.Strata.{commit_hash_eq, Level, level_of_hash, level_partial_cmp}
use beelay.Sedimentree.Strata.{top_strata_level, minimize_strata, supports_block}
use beelay.Sedimentree.CommitDag.{CommitDag, Node, new_node, add_edge, parents_of_hash, tips}
use beelay.Sedimentree.CommitDag.{node_places, contains_commit, from_commits}
use beelay.Sedimentree.CommitDag.Traverse.{sort_by_key, with_hashes, reverse_topo}

-- `a <= b`, by `partial_cmp`; `a > b` is its opposite.
unfoldable pub level_le : Level → Level → Bool
unfolding level_partial_cmp
level_le a b = elim (level_partial_cmp a b) [
  | some Ordering.gt ↦ false
  | some o ↦ true
  | none ↦ false
]

-- `commits_to_blocks`, `blockless_commits` and `block`.
pub record Blocks : Type 0 where
  pub commits_to_blocks : List (CommitHash × List CommitHash)
  pub blockless_commits : List CommitHash
  pub block : Option (CommitHash × List CommitHash)

-- `commits_to_blocks.entry(commit).or_insert_with(Vec::new).push(block)`
unfoldable pub push_block :
    CommitHash
    → CommitHash
    → List (CommitHash × List CommitHash)
    → List (CommitHash × List CommitHash)
unfolding lookup insert
push_block commit block m =
    insert commit (elim (lookup m commit) [ none ↦ block ∷ [] | some bs ↦ bs ++ block ∷ [] ]) m

unfoldable pub push_blocks :
    List CommitHash
    → CommitHash
    → List (CommitHash × List CommitHash)
    → List (CommitHash × List CommitHash)
unfolding push_block
push_blocks [] block m = m
push_blocks (commit ∷ commits) block m = push_blocks commits block (push_block commit block m)

unfoldable pub without : CommitHash → List CommitHash → List CommitHash
without h [] = []
without h (x ∷ xs) = if x =? h then without h xs else x ∷ without h xs

unfoldable pub without_all : List CommitHash → List CommitHash → List CommitHash
unfolding without
without_all [] xs = xs
without_all (h ∷ hs) xs = without_all hs (without h xs)

-- The block that is open is closed, and `hash` opens one.
unfoldable pub next_block : CommitHash → Blocks → Blocks
unfolding push_blocks without_all
next_block hash b = elim b.block [
  | none ↦ record b { block = some (hash, hash ∷ []) }
  | some (block, commits) ↦ record {
    commits_to_blocks = push_blocks commits block b.commits_to_blocks;
    blockless_commits = without_all commits b.blockless_commits;
    block = some (hash, hash ∷ []);
  }
]

-- A commit above the top level.
unfoldable pub in_block : CommitHash → Blocks → Blocks
unfolding lookup contains
in_block hash b = elim b.block [
  | some (end, commits) ↦ record b { block = some (end, commits ++ hash ∷ []) }
  | none ↦ elim (lookup b.commits_to_blocks hash) [
    | some bs ↦ b
    | none ↦
        if contains b.blockless_commits hash
        then b
        else record b { blockless_commits = b.blockless_commits ++ hash ∷ [] }
  ]
]

-- At the end of a walk.
unfoldable pub last_block : Blocks → Blocks
unfolding push_blocks push_block
last_block b = elim b.block [
  | none ↦ b
  | some (end, commits) ↦ record b {
    commits_to_blocks = push_blocks commits end (push_block end end b.commits_to_blocks);
    block = none;
  }
]

unfoldable pub new_nodes : List CommitHash → List Node
unfolding new_node
new_nodes [] = []
new_nodes (h ∷ hs) = new_node h ∷ new_nodes hs

-- `for parent in self.parents_of_hash(commit)`
unfoldable pub add_known : ℕ → List CommitHash → CommitDag → Option CommitDag
unfolding lookup add_edge
add_known child_idx [] g = some g
add_known child_idx (p ∷ ps) g = elim (lookup g.node_map p) [
  | none ↦ add_known child_idx ps g
  | some parent ↦ elim (add_edge parent child_idx g) [
    | none ↦ none
    | some g' ↦ add_known child_idx ps g'
  ]
]

-- `for (child_idx, commit) in remaining_commits.into_iter().enumerate()`
unfoldable pub add_remaining : CommitDag → ℕ → List CommitHash → CommitDag → Option CommitDag
unfolding parents_of_hash add_known
add_remaining self child_idx [] g = some g
add_remaining self child_idx (commit ∷ commits) g = elim (parents_of_hash self commit) [
  | none ↦ none
  | some ps ↦ elim (add_known child_idx ps g) [
    | none ↦ none
    | some g' ↦ add_remaining self (child_idx + 1) commits g'
  ]
]

-- `to_radix_be` stands for the crate num. `map_order` and `set_order` are the orders in which the
-- hash map and the hash set give their elements.
module _ (to_radix_be : List ℕ → ℕ → List ℕ) where
  -- `blocks.iter().all(..)`
  unfoldable pub all_supported : List Stratum → List CommitHash → Bool
  unfolding any supports_block
  all_supported strata [] = true
  all_supported strata (b ∷ bs) =
      any (λ s. supports_block to_radix_be s b) strata && all_supported strata bs

  unfoldable pub unsupported : List Stratum → List (CommitHash × List CommitHash) → List CommitHash
  unfolding all_supported
  unsupported strata [] = []
  unsupported strata ((commit, blocks) ∷ m) =
      if all_supported strata blocks then unsupported strata m else commit ∷ unsupported strata m

  unfoldable pub scan_hash : CommitHash → Blocks → Blocks
  unfolding level_of_hash level_le next_block in_block
  scan_hash hash b =
      if level_le (level_of_hash to_radix_be hash) top_strata_level
      then next_block hash b
      else in_block hash b

  unfoldable pub scan_hashes : List CommitHash → Blocks → Blocks
  unfolding scan_hash
  scan_hashes [] b = b
  scan_hashes (h ∷ hs) b = scan_hashes hs (scan_hash h b)

  -- `for tip in tips`
  unfoldable pub scan_tips : CommitDag → List ℕ → Blocks → Option Blocks
  unfolding reverse_topo scan_hashes last_block
  scan_tips g [] b = some b
  scan_tips g (tip ∷ tips) b = elim (reverse_topo g tip) [
    | none ↦ none
    | some hs ↦ scan_tips g tips (last_block (scan_hashes hs b))
  ]

  -- `tips.sort_by_key(|idx| self.nodes[idx.0].hash)`
  unfoldable pub sorted_tips : CommitDag → Option (List (ℕ × CommitHash))
  unfolding with_hashes tips sort_by_key
  sorted_tips g = elim (with_hashes g.nodes (tips g)) [
    | none ↦ none
    | some ps ↦ some (sort_by_key (λ p. p.1) ps)
  ]

  module _ (map_order : List (CommitHash × List CommitHash) → List (CommitHash × List CommitHash))
      (set_order : List CommitHash → List CommitHash) where
    unfoldable pub remaining_commits : List Stratum → Blocks → List CommitHash
    unfolding unsupported
    remaining_commits strata b =
        unsupported strata (map_order b.commits_to_blocks) ++ set_order b.blockless_commits

    unfoldable pub rebuild : CommitDag → List CommitHash → Option CommitDag
    unfolding new_nodes node_places add_remaining
    rebuild self remaining = add_remaining self 0 remaining (record {
      nodes = new_nodes remaining;
      node_map = node_places 0 (new_nodes remaining) [];
      edges = [];
    })

    unfoldable pub simplify : CommitDag → List Stratum → Option CommitDag
    unfolding sorted_tips scan_tips remaining_commits rebuild
    simplify self strata = elim (sorted_tips self) [
      | none ↦ none
      | some ts ↦
          elim (scan_tips self (map (λ p. p.0) ts)
            (record { commits_to_blocks = []; blockless_commits = []; block = none })) [
              | none ↦ none
              | some b ↦ rebuild self (remaining_commits strata b)
            ]
    ]

    -- `self.commits.iter().filter(..)`
    unfoldable pub commits_in : CommitDag → List LooseCommit → List LooseCommit
    unfolding contains_commit
    commits_in g [] = []
    commits_in g (c ∷ cs) =
        if contains_commit g c.hash then c ∷ commits_in g cs else commits_in g cs

    -- `Sedimentree::minimize`
    unfoldable pub minimize : Sedimentree → Option Sedimentree
    unfolding minimize_strata from_commits simplify commits_in
    minimize tree =
        let strata = minimize_strata to_radix_be tree.strata in
        elim (from_commits tree.commits) [
          | none ↦ none
          | some dag ↦ elim (simplify dag strata) [
            | none ↦ none
            | some simplified ↦
                some (record { strata = strata; commits = commits_in simplified tree.commits })
          ]
        ]
