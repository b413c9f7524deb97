-- ===== src/Sedimentree/CommitDag.antt =====
-- src/sedimentree/commit_dag.rs: the graph of the loose commits, as vectors of nodes and edges in
-- which the edges of a node are a linked list. `none` is a panic of an index out of range, or fuel
-- that ran out.
pub mod Chains
pub mod Links
pub mod Graph
pub mod Halves
pub mod AddEdge
pub mod Places
pub mod Build
pub mod Relations
pub mod Heads
pub mod Walk
pub mod Traverse
pub mod Canonical
pub mod Simplify
pub mod Rebuilt
pub mod Minimized
use beelay.Prelude.{ℕ, zero, suc, ◌+◌, Bool, true, false, List, [], ◌∷◌, ◌++◌, Option, none, some}
use beelay.Prelude.{length, get_elem?}
use beelay.Prelude.Equality.{Eq}
use beelay.Prelude.Vec.{set}
use beelay.Prelude.Assoc.{lookup, insert}
use beelay.Commit.{CommitHash}
use beelay.Sedimentree.Types.{LooseCommit}
use beelay.Sedimentree.Strata.{commit_hash_eq}

pub record Node : Type 0 where
  pub hash : CommitHash
  pub parents : Option ℕ
  pub children : Option ℕ

pub record Edge : Type 0 where
  pub source : ℕ
  pub target : ℕ
  pub next : Option ℕ

pub record CommitDag : Type 0 where
  pub nodes : List Node
  pub node_map : List (CommitHash × ℕ)
  pub edges : List Edge

unfoldable pub new : CommitDag
new = record { nodes = []; node_map = []; edges = [] }

unfoldable pub new_node : CommitHash → Node
new_node h = record { hash = h; parents = none; children = none }

unfoldable pub add_node : CommitHash → CommitDag → CommitDag × ℕ
unfolding new_node insert
add_node h g = (
  record g { nodes = g.nodes ++ new_node h ∷ []; node_map = insert h (length g.nodes) g.node_map },
  length g.nodes,
)

-- The loop behind `Some(edge_idx)`: the place of the last edge of a list.
-- A list of edges is at most as long as the vector, so that a round for each edge is enough.
unfoldable pub last_edge : ℕ → List Edge → ℕ → Option ℕ
last_edge zero edges i = none
last_edge (suc fuel) edges i = elim (get_elem? edges i) [
  | none ↦ none
  | some e ↦ elim e.next [ none ↦ some i | some j ↦ last_edge fuel edges j ]
]

unfoldable pub set_next : ℕ → ℕ → List Edge → List Edge
unfolding set
set_next i new_edge_idx edges = elim (get_elem? edges i) [
  | none ↦ edges
  | some e ↦ set edges i (record e { next = some new_edge_idx })
]

-- An edge is put at the end of the list that starts at `head`: the new head, and the edges.
unfoldable pub link : Option ℕ → ℕ → List Edge → Option (Option ℕ × List Edge)
unfolding last_edge set_next
link none new_edge_idx edges = some (some new_edge_idx, edges)
link (some edge_idx) new_edge_idx edges = elim (last_edge (length edges) edges edge_idx) [
  | none ↦ none
  | some i ↦ some (some edge_idx, set_next i new_edge_idx edges)
]

-- The first half of `add_edge`: an edge in the child node.
unfoldable pub add_parent_edge : ℕ → ℕ → CommitDag → Option CommitDag
unfolding link set
add_parent_edge source target g =
    let new_edge_idx = length g.edges in
    let edges = g.edges ++ record { source = source; target = target; next = none } ∷ [] in
    elim (get_elem? g.nodes target) [
      | none ↦ none
      | some node ↦ elim (link node.parents new_edge_idx edges) [
        | none ↦ none
        | some (head, linked) ↦ some (record g {
          nodes = set g.nodes target (record node { parents = head });
          edges = linked;
        })
      ]
    ]

-- The second half: an edge in the parent node.
unfoldable pub add_child_edge : ℕ → ℕ → CommitDag → Option CommitDag
unfolding link set
add_child_edge source target g =
    let new_edge_idx = length g.edges in
    let edges = g.edges ++ record { source = source; target = target; next = none } ∷ [] in
    elim (get_elem? g.nodes source) [
      | none ↦ none
      | some node ↦ elim (link node.children new_edge_idx edges) [
        | none ↦ none
        | some (head, linked) ↦ some (record g {
          nodes = set g.nodes source (record node { children = head });
          edges = linked;
        })
      ]
    ]

unfoldable pub add_edge : ℕ → ℕ → CommitDag → Option CommitDag
unfolding add_parent_edge add_child_edge
add_edge source target g = elim (add_parent_edge source target g) [
  | none ↦ none
  | some g' ↦ add_child_edge source target g'
]

-- `for parent in commit.parents()`
unfoldable pub add_parents : ℕ → List CommitHash → CommitDag → Option CommitDag
unfolding add_edge lookup
add_parents child_idx [] g = some g
add_parents child_idx (p ∷ ps) g = elim (lookup g.node_map p) [
  | none ↦ add_parents child_idx ps g
  | some parent ↦ elim (add_edge parent child_idx g) [
    | none ↦ none
    | some g' ↦ add_parents child_idx ps g'
  ]
]

-- `for commit in commits`
unfoldable pub add_commits : List LooseCommit → CommitDag → Option CommitDag
unfolding add_parents lookup
add_commits [] g = some g
add_commits (c ∷ cs) g = elim (lookup g.node_map c.hash) [
  | none ↦ none
  | some child_idx ↦ elim (add_parents child_idx c.parents g) [
    | none ↦ none
    | some g' ↦ add_commits cs g'
  ]
]

-- `nodes.iter().enumerate()` collected into a map, in which a later place takes over from an
-- earlier one with the same hash.
unfoldable pub node_places : ℕ → List Node → List (CommitHash × ℕ) → List (CommitHash × ℕ)
unfolding insert
node_places idx [] m = m
node_places idx (n ∷ ns) m = node_places (idx + 1) ns (insert n.hash idx m)

unfoldable pub nodes_of : List LooseCommit → List Node
unfolding new_node
nodes_of [] = []
nodes_of (c ∷ cs) = new_node c.hash ∷ nodes_of cs

-- The graph before its edges.
unfoldable pub without_edges : List LooseCommit → CommitDag
unfolding nodes_of node_places
without_edges commits = record {
  nodes = nodes_of commits;
  node_map = node_places 0 (nodes_of commits) [];
  edges = [];
}

unfoldable pub from_commits : List LooseCommit → Option CommitDag
unfolding without_edges add_commits
from_commits commits = add_commits commits (without_edges commits)

-- `Parents`: the sources along the list of edges.
unfoldable pub sources_from : ℕ → List Edge → Option ℕ → Option (List ℕ)
sources_from zero edges edge = none
sources_from (suc fuel) edges none = some []
sources_from (suc fuel) edges (some i) = elim (get_elem? edges i) [
  | none ↦ none
  | some e ↦ elim (sources_from fuel edges e.next) [ none ↦ none | some ns ↦ some (e.source ∷ ns) ]
]

unfoldable pub parents : CommitDag → ℕ → Option (List ℕ)
unfolding sources_from
parents g node = elim (get_elem? g.nodes node) [
  | none ↦ none
  | some n ↦ sources_from (suc (length g.edges)) g.edges n.parents
]

unfoldable pub contains_commit : CommitDag → CommitHash → Bool
unfolding lookup
contains_commit g c = elim (lookup g.node_map c) [ none ↦ false | some i ↦ true ]

unfoldable pub heads_of : List Node → List CommitHash
heads_of [] = []
heads_of (n ∷ ns) = elim n.children [ none ↦ n.hash ∷ heads_of ns | some e ↦ heads_of ns ]

unfoldable pub heads : CommitDag → List CommitHash
unfolding heads_of
heads g = heads_of g.nodes

unfoldable pub tips_from : ℕ → List Node → List ℕ
tips_from idx [] = []
tips_from idx (n ∷ ns) = elim n.children [
  | none ↦ idx ∷ tips_from (idx + 1) ns
  | some e ↦ tips_from (idx + 1) ns
]

unfoldable pub tips : CommitDag → List ℕ
unfolding tips_from
tips g = tips_from 0 g.nodes

unfoldable pub hashes_of : List Node → List CommitHash
hashes_of [] = []
hashes_of (n ∷ ns) = n.hash ∷ hashes_of ns

unfoldable pub commit_hashes : CommitDag → List CommitHash
unfolding hashes_of
commit_hashes g = hashes_of g.nodes

-- The hashes at a list of places.
unfoldable pub hashes_at : List Node → List ℕ → Option (List CommitHash)
hashes_at ns [] = some []
hashes_at ns (i ∷ is) = elim (get_elem? ns i) [
  | none ↦ none
  | some n ↦ elim (hashes_at ns is) [ none ↦ none | some hs ↦ some (n.hash ∷ hs) ]
]

unfoldable pub parents_of_hash : CommitDag → CommitHash → Option (List CommitHash)
unfolding lookup parents hashes_at
parents_of_hash g h = elim (lookup g.node_map h) [
  | none ↦ some []
  | some idx ↦ elim (parents g idx) [ none ↦ none | some is ↦ hashes_at g.nodes is ]
]
