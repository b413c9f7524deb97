-- ===== src/Sedimentree/CommitDag/AddEdge.antt =====
-- src/sedimentree/commit_dag.rs: `add_edge` as the addition of one more pair of a source and a target.
use beelay.Prelude.{ℕ, zero, suc, ◌*◌, ◌≡◌, refl, sym, ap, ◌∙◌, arith, List, [], ◌∷◌, ◌++◌, some}
use beelay.Prelude.{length, get_elem?, length-append}
use beelay.Sedimentree.CommitDag.{CommitDag, Node, add_edge, commit_hashes, hashes_of}
use beelay.Sedimentree.CommitDag.Graph.{IsGraph}
use beelay.Sedimentree.CommitDag.Halves.{link_in, link_out, hashes-set, after_parent_edge-done}
use beelay.Sedimentree.CommitDag.Halves.{after_parent_edge-IsHalf, after_child_edge-done}
use beelay.Sedimentree.CommitDag.Halves.{after_child_edge-IsHalf, after_parent_edge}
use beelay.Sedimentree.CommitDag.Halves.{after_child_edge}

-- What `add_edge` leaves: the hashes, the map, and the graph of one more pair.
pub record Added (s t : ℕ) (g : CommitDag) (added : List (ℕ × ℕ)) : Type 0 where
  pub after : CommitDag
  pub done : add_edge s t g ≡ some after
  pub hashes : commit_hashes after ≡ commit_hashes g
  pub map_kept : after.node_map ≡ g.node_map
  pub graph : IsGraph after (added ++ (s, t) ∷ [])

node_at :
    (ns ms : List Node) (i : ℕ) (n : Node)
    → hashes_of ns ≡ hashes_of ms
    → get_elem? ns i ≡ some n
    → (m : Node) × (get_elem? ms i ≡ some m)
unfolding hashes_of
node_at [] ms i n h f = absurd (cc f)
node_at (x ∷ ns) [] i n h f = absurd (cc h)
node_at (x ∷ ns) (y ∷ ms) zero n h f = (y, refl)
node_at (x ∷ ns) (y ∷ ms) (suc i) n h f =
    node_at ns ms i n (ap (λ l. elim l [ [] ↦ [] | c ∷ cs ↦ cs ]) h) f

pub add_edge-Added :
    (s t : ℕ) (g : CommitDag) (added : List (ℕ × ℕ)) (a b : Node)
    → IsGraph g added
    → get_elem? g.nodes s ≡ some a
    → get_elem? g.nodes t ≡ some b
    → Added s t g added
unfolding add_edge commit_hashes after_parent_edge after_child_edge
add_edge-Added s t g added a b (size, half) at_s at_t =
    let w = link_in s t g added b.parents size (half t b at_t).0 in
    let g1 = after_parent_edge s t g added b w in
    let kept = hashes-set g.nodes t b (record b { parents = w.head' }) at_t refl in
    let (n, at_n) = node_at g.nodes g1.nodes s a (sym kept) at_s in
    let half1 = after_parent_edge-IsHalf s t g added b w (size, half) at_t in
    let size1 : length g1.edges ≡ suc (2 * length added) = omega (arith, w.size) in
    let v = link_out s t g1 added n.children size1 (half1 s n at_n).1 in
    record {
      after = after_child_edge s t g1 added n v;
      done =
          rw (add_edge, after_parent_edge-done s t g added b w at_t)
            (after_child_edge-done s t g1 added n v at_n);
      hashes = hashes-set g1.nodes s n (record n { children = v.head' }) at_n refl ∙ kept;
      map_kept = refl;
      graph = (
        omega (arith, v.size, w.size, size, length-append added ((s, t) ∷ [])),
        after_child_edge-IsHalf s t g1 added n v size1 half1 at_n,
      );
    }
