-- ===== src/Sedimentree/CommitDag/Build.antt =====
-- src/sedimentree/commit_dag.rs: `from_commits` as the list of the pairs that it adds.
use beelay.Prelude.{ℕ, zero, suc, ◌≡◌, refl, sym, ap, ◌∙◌, List, [], ◌∷◌, ◌++◌, Option, some}
use beelay.Prelude.{none, get_elem?, All, inl, inr, subst, true, false, Option-cases}
use beelay.Prelude.{append_assoc, append-nil}
use beelay.Prelude.Equality.{contains, contains-get_elem?}
use beelay.Prelude.Assoc.{lookup}
use beelay.Commit.{CommitHash}
use beelay.Sedimentree.Types.{LooseCommit}
use beelay.Sedimentree.Strata.{commit_hash_eq}
use beelay.Sedimentree.CommitDag.{CommitDag, Node, add_parents, add_commits, without_edges}
use beelay.Sedimentree.CommitDag.{from_commits, commit_hashes, hashes_of, nodes_of, new_node}
use beelay.Sedimentree.CommitDag.Graph.{IsGraph}
use beelay.Sedimentree.CommitDag.AddEdge.{add_edge-Added}
use beelay.Sedimentree.CommitDag.Places.{IsPlaced, map_from-IsPlaced, map_from, hashes_from}
use beelay.Sedimentree.CommitDag.Places.{hashes_of-nodes_of}
use beelay.Sedimentree.CommitDag.Chains.{IsChain}
use beelay.Sedimentree.CommitDag.Links.{in_edges, out_edges}

-- The pairs of the parents that are in the map, and of all commits.
unfoldable pub edges_of_parents : List (CommitHash × ℕ) → ℕ → List CommitHash → List (ℕ × ℕ)
edges_of_parents m child [] = []
edges_of_parents m child (p ∷ ps) = elim (lookup m p) [
  | none ↦ edges_of_parents m child ps
  | some i ↦ (i, child) ∷ edges_of_parents m child ps
]

unfoldable pub edges_of : List (CommitHash × ℕ) → List LooseCommit → List (ℕ × ℕ)
unfolding edges_of_parents
edges_of m [] = []
edges_of m (c ∷ cs) = elim (lookup m c.hash) [
  | none ↦ edges_of m cs
  | some child ↦ edges_of_parents m child c.parents ++ edges_of m cs
]

pub node_of :
    (ns : List Node) (i : ℕ) (h : CommitHash)
    → get_elem? (hashes_of ns) i ≡ some h
    → (n : Node) × (get_elem? ns i ≡ some n) × (n.hash ≡ h)
unfolding hashes_of
node_of [] i h f = absurd (cc f)
node_of (x ∷ ns) zero h f = (x, refl, ap (λ o. elim o [ none ↦ x.hash | some z ↦ z ]) f)
node_of (x ∷ ns) (suc i) h f = node_of ns i h f

-- What the loops leave: the hashes, the map, and the graph of the pairs that were added.
record Grown (g : CommitDag) (added : List (ℕ × ℕ)) (found : Option CommitDag) : Type 0 where
  after : CommitDag
  done : found ≡ some after
  hashes : commit_hashes after ≡ commit_hashes g
  map_kept : after.node_map ≡ g.node_map
  graph : IsGraph after added

add_parents-Grown :
    (child : ℕ) (h : CommitHash) (ps : List CommitHash) (g : CommitDag) (added : List (ℕ × ℕ))
    → IsGraph g added
    → IsPlaced g.node_map (commit_hashes g)
    → get_elem? (commit_hashes g) child ≡ some h
    → Grown g (added ++ edges_of_parents g.node_map child ps) (add_parents child ps g)
unfolding add_parents edges_of_parents commit_hashes
add_parents-Grown child h [] g added graph placed at = record {
  after = g;
  done = refl;
  hashes = refl;
  map_kept = refl;
  graph = subst (IsGraph g) (sym (append-nil added)) graph;
}
add_parents-Grown child h (p ∷ ps) g added graph placed at =
    elim (Option-cases (lookup g.node_map p)) [
      | inl n ↦
          let w = add_parents-Grown child h ps g added graph placed at in
          record {
            after = w.after;
            done = rw (add_parents, n) w.done;
            hashes = w.hashes;
            map_kept = w.map_kept;
            graph = rw (edges_of_parents, n) w.graph;
          }
      | inr (i, y) ↦
          let (a, at_i, p') = node_of g.nodes i p (placed.0 p i y) in
          let (b, at_child, q') = node_of g.nodes child h at in
          let w = add_edge-Added i child g added a b graph at_i at_child in
          let placed' =
            subst (λ m. IsPlaced m (commit_hashes w.after)) (sym w.map_kept)
              (subst (IsPlaced g.node_map) (sym w.hashes) placed) in
          let v =
            add_parents-Grown child h ps w.after (added ++ (i, child) ∷ []) w.graph placed'
              (ap (λ hs. get_elem? hs child) w.hashes ∙ at) in
          record {
            after = v.after;
            done = rw (add_parents, y, w.done) v.done;
            hashes = v.hashes ∙ w.hashes;
            map_kept = v.map_kept ∙ w.map_kept;
            graph =
                rw (edges_of_parents, y)
                  (subst (IsGraph v.after)
                    (append_assoc added ((i, child) ∷ [])
                        (edges_of_parents w.after.node_map child ps)
                      ∙ ap (λ m. added ++ (i, child) ∷ edges_of_parents m child ps) w.map_kept)
                    v.graph);
          }
    ]

-- All hashes of the commits are in the map.
abbrev pub HavePlaces : List (CommitHash × ℕ) → List LooseCommit → Type 0
HavePlaces m cs = All (λ c. (i : ℕ) × (lookup m c.hash ≡ some i)) cs

add_commits-Grown :
    (cs : List LooseCommit) (g : CommitDag) (added : List (ℕ × ℕ))
    → IsGraph g added
    → IsPlaced g.node_map (commit_hashes g)
    → HavePlaces g.node_map cs
    → Grown g (added ++ edges_of g.node_map cs) (add_commits cs g)
unfolding add_commits edges_of commit_hashes
add_commits-Grown [] g added graph placed have = record {
  after = g;
  done = refl;
  hashes = refl;
  map_kept = refl;
  graph = subst (IsGraph g) (sym (append-nil added)) graph;
}
add_commits-Grown (c ∷ cs) g added graph placed ((i, y), have) =
    let w = add_parents-Grown i c.hash c.parents g added graph placed (placed.0 c.hash i y) in
    let placed' =
      subst (λ m. IsPlaced m (commit_hashes w.after)) (sym w.map_kept)
        (subst (IsPlaced g.node_map) (sym w.hashes) placed) in
    let v =
      add_commits-Grown cs w.after (added ++ edges_of_parents g.node_map i c.parents) w.graph
        placed' (subst (λ m. HavePlaces m cs) (sym w.map_kept) have) in
    record {
      after = v.after;
      done = rw (add_commits, y, w.done) v.done;
      hashes = v.hashes ∙ w.hashes;
      map_kept = v.map_kept ∙ w.map_kept;
      graph =
          rw (edges_of, y)
            (subst (IsGraph v.after)
              (append_assoc added (edges_of_parents g.node_map i c.parents)
                  (edges_of w.after.node_map cs)
                ∙ ap (λ m. added ++ (edges_of_parents g.node_map i c.parents ++ edges_of m cs))
                    w.map_kept)
              v.graph);
    }

pub HavePlaces-rest :
    (m : List (CommitHash × ℕ)) (cs : List LooseCommit) (hs : List CommitHash)
    → ((h : CommitHash) → lookup m h ≡ none → contains hs h ≡ false)
    → ((i : ℕ) (c : LooseCommit) → get_elem? cs i ≡ some c → contains hs c.hash ≡ true)
    → HavePlaces m cs
HavePlaces-rest m [] hs missing all = tt
HavePlaces-rest m (c ∷ cs) hs missing all = (
  elim (Option-cases (lookup m c.hash)) [
    | inl n ↦ absurd (cc (missing c.hash n, all 0 c refl))
    | inr y ↦ y
  ],
  HavePlaces-rest m cs hs missing (λ i. all (suc i)),
)

pub hash_at :
    (cs : List LooseCommit) (i : ℕ) (c : LooseCommit)
    → get_elem? cs i ≡ some c
    → get_elem? (hashes_from cs) i ≡ some c.hash
hash_at [] i c f = absurd (cc f)
hash_at (x ∷ cs) zero c f = ap (λ o. elim o [ none ↦ none | some z ↦ some z.hash ]) f
hash_at (x ∷ cs) (suc i) c f = hash_at cs i c f

fresh_nodes :
    (cs : List LooseCommit) (i : ℕ) (n : Node)
    → get_elem? (nodes_of cs) i ≡ some n
    → (n.parents ≡ none) × (n.children ≡ none)
unfolding nodes_of new_node
fresh_nodes [] i n f = absurd (cc f)
fresh_nodes (c ∷ cs) zero n f = (
  ap (λ (o : Option Node). elim o [ none ↦ none | some z ↦ z.parents ]) (sym f),
  ap (λ (o : Option Node). elim o [ none ↦ none | some z ↦ z.children ]) (sym f),
)
fresh_nodes (c ∷ cs) (suc i) n f = fresh_nodes cs i n f

without_edges-IsGraph : (cs : List LooseCommit) → IsGraph (without_edges cs) []
unfolding without_edges IsChain in_edges out_edges
without_edges-IsGraph cs = (refl, λ i n f. fresh_nodes cs i n f)

pub from_commits-Grown :
    (cs : List LooseCommit)
    → (g : CommitDag) × (from_commits cs ≡ some g)
      × (commit_hashes g ≡ hashes_from cs)
      × (g.node_map ≡ map_from cs)
      × IsGraph g (edges_of (map_from cs) cs)
unfolding from_commits without_edges commit_hashes map_from
from_commits-Grown cs =
    let hs = hashes_of-nodes_of cs in
    let placed = map_from-IsPlaced cs in
    let w =
      add_commits-Grown cs (without_edges cs) [] (without_edges-IsGraph cs)
        (subst (IsPlaced (map_from cs)) (sym hs) placed)
        (HavePlaces-rest (map_from cs) cs (hashes_from cs) placed.1
          (λ i c f. contains-get_elem? (hashes_from cs) i c.hash (hash_at cs i c f))) in
    (w.after, w.done, w.hashes ∙ hs, w.map_kept, w.graph)
