-- ===== src/Sedimentree/CommitDag/Rebuilt.antt =====
-- src/sedimentree/commit_dag.rs: the graph that `simplify` makes of the commits that remain.
use beelay.Prelude.{ℕ, zero, suc, ◌+◌, ◌<◌, ◌≡◌, refl, sym, ap, ◌∙◌, arith, List, [], ◌∷◌, ◌++◌}
use beelay.Prelude.{Option, none, some, length, get_elem?, inl, inr, Option-cases, subst}
use beelay.Prelude.Assoc.{lookup}
use beelay.Prelude.Equality.{contains}
use beelay.Prelude.Vec.{get_elem?-some}
use beelay.Commit.{CommitHash}
use beelay.Sedimentree.Strata.{commit_hash_eq}
use beelay.Sedimentree.CommitDag.{CommitDag, Node, new_node, hashes_of, commit_hashes}
use beelay.Sedimentree.CommitDag.{node_places, parents_of_hash}
use beelay.Sedimentree.CommitDag.Chains.{IsChain}
use beelay.Sedimentree.CommitDag.Links.{in_edges, out_edges}
use beelay.Sedimentree.CommitDag.Graph.{IsGraph}
use beelay.Sedimentree.CommitDag.AddEdge.{add_edge-Added}
use beelay.Sedimentree.CommitDag.Places.{IsPlaced, node_places-IsPlaced}
use beelay.Sedimentree.CommitDag.Build.{node_of}
use beelay.Sedimentree.CommitDag.Simplify.{new_nodes, add_known, add_remaining, rebuild}

-- A graph of the hashes `hs` with their places.
pub record IsOf (hs : List CommitHash) (g : CommitDag) : Type 0 where
  pub added : List (ℕ × ℕ)
  pub graph : IsGraph g added
  pub hashes : commit_hashes g ≡ hs
  pub placed : IsPlaced g.node_map hs

hashes_of-new_nodes : (hs : List CommitHash) → hashes_of (new_nodes hs) ≡ hs
unfolding hashes_of new_nodes new_node
hashes_of-new_nodes [] = refl
hashes_of-new_nodes (h ∷ hs) = ap (λ xs. h ∷ xs) (hashes_of-new_nodes hs)

fresh_new_nodes :
    (hs : List CommitHash) (i : ℕ) (n : Node)
    → get_elem? (new_nodes hs) i ≡ some n
    → (n.parents ≡ none) × (n.children ≡ none)
unfolding new_nodes new_node
fresh_new_nodes [] i n f = absurd (cc f)
fresh_new_nodes (h ∷ hs) zero n f = (
  ap (λ (o : Option Node). elim o [ none ↦ none | some z ↦ z.parents ]) (sym f),
  ap (λ (o : Option Node). elim o [ none ↦ none | some z ↦ z.children ]) (sym f),
)
fresh_new_nodes (h ∷ hs) (suc i) n f = fresh_new_nodes hs i n f

add_known-IsOf :
    (hs : List CommitHash) (child : ℕ) (ps : List CommitHash) (g : CommitDag)
    → IsOf hs g
    → child < length hs
    → (g' : CommitDag) × (add_known child ps g ≡ some g') × IsOf hs g'
unfolding add_known commit_hashes
add_known-IsOf hs child [] g o b = (g, refl, o)
add_known-IsOf hs child (p ∷ ps) g o b = elim (Option-cases (lookup g.node_map p)) [
  | inl n ↦
      let (g', done, o') = add_known-IsOf hs child ps g o b in (g', rw (add_known, n) done, o')
  | inr (i, y) ↦
      let (h, at) = get_elem?-some hs child b in
      let (x, at_i, _) =
        node_of g.nodes i p (ap (λ l. get_elem? l i) o.hashes ∙ o.placed.0 p i y) in
      let (z, at_c, _) = node_of g.nodes child h (ap (λ l. get_elem? l child) o.hashes ∙ at) in
      let w = add_edge-Added i child g o.added x z o.graph at_i at_c in
      let (g', done, o') =
        add_known-IsOf hs child ps w.after
          (record {
            added = o.added ++ (i, child) ∷ [];
            graph = w.graph;
            hashes = w.hashes ∙ o.hashes;
            placed = subst (λ m. IsPlaced m hs) (sym w.map_kept) o.placed;
          })
          b in
      (g', rw (add_known, y, w.done) done, o')
]

module _ (self : CommitDag)
    (gives : (h : CommitHash) → (ps : List CommitHash) × (parents_of_hash self h ≡ some ps)) where
  add_remaining-IsOf :
      (hs : List CommitHash) (child : ℕ) (rest : List CommitHash) (g : CommitDag)
      → IsOf hs g
      → child + length rest ≡ length hs
      → (g' : CommitDag) × (add_remaining self child rest g ≡ some g') × IsOf hs g'
  unfolding add_remaining
  add_remaining-IsOf hs child [] g o b = (g, refl, o)
  add_remaining-IsOf hs child (c ∷ rest) g o b =
      let (ps, p) = gives c in
      let (g1, done1, o1) = add_known-IsOf hs child ps g o (omega arith) in
      let (g2, done2, o2) = add_remaining-IsOf hs (child + 1) rest g1 o1 (omega arith) in
      (g2, rw (add_remaining, p, done1) done2, o2)

  -- The graph is made, of the commits that remain.
  pub rebuild-IsOf :
      (radix : List ℕ → ℕ → List ℕ)
      (map_order : List (CommitHash × List CommitHash) → List (CommitHash × List CommitHash))
      (set_order : List CommitHash → List CommitHash) (hs : List CommitHash)
      → (g' : CommitDag) × (rebuild radix map_order set_order self hs ≡ some g') × IsOf hs g'
  unfolding rebuild IsChain in_edges out_edges commit_hashes lookup contains
  rebuild-IsOf radix map_order set_order hs =
      let g : CommitDag = record {
        nodes = new_nodes hs;
        node_map = node_places 0 (new_nodes hs) [];
        edges = [];
      } in
      add_remaining-IsOf hs 0 hs g
        (record {
          added = [];
          graph = (refl, λ i n f. fresh_new_nodes hs i n f);
          hashes = hashes_of-new_nodes hs;
          placed = subst (IsPlaced (node_places 0 (new_nodes hs) [])) (hashes_of-new_nodes hs) (
              node_places-IsPlaced (new_nodes hs) [] [] 0 refl
                ((λ h i l. absurd (cc l)), (λ h l. refl)));
        })
        (omega arith)
