-- ===== src/Sedimentree/CommitDag/Halves.antt =====
-- src/sedimentree/commit_dag.rs: what each half of `add_edge` leaves of the lists of all nodes.
use beelay.Prelude.{ℕ, zero, suc, ◌+◌, ◌*◌, ◌<◌, ◌≡◌, ◌≢◌, refl, sym, ap, ◌∙◌, arith, List, []}
use beelay.Prelude.{◌∷◌, ◌++◌, Option, some, none, length, get_elem?, inl, inr, Bool-cases, ◌==◌}
use beelay.Prelude.{==_iff, subst, true, false, ==-eq_false}
use beelay.Prelude.Vec.{set, get_elem?-bound, get_elem?-set, get_elem?-set_other}
use beelay.Prelude.Pairwise.{All-map}
use beelay.Sedimentree.CommitDag.{CommitDag, Node, Edge, add_parent_edge, add_child_edge}
use beelay.Sedimentree.CommitDag.{hashes_of}
use beelay.Sedimentree.CommitDag.Chains.{IsChain, Linked, link-Linked}
use beelay.Sedimentree.CommitDag.Links.{in_edges, out_edges, IsIn, IsOut, in_edges-IsIn}
use beelay.Sedimentree.CommitDag.Links.{in_edges-IsBefore, length-in_edges, in_edges-snoc_same}
use beelay.Sedimentree.CommitDag.Links.{in_edges-snoc_other, out_edges-IsOut, out_edges-IsBefore}
use beelay.Sedimentree.CommitDag.Links.{length-out_edges, out_edges-snoc_same}
use beelay.Sedimentree.CommitDag.Links.{out_edges-snoc_other}
use beelay.Sedimentree.CommitDag.Graph.{IsHalf, IsGraph, in_in-IsApart, in_out-IsApart}
use beelay.Sedimentree.CommitDag.Graph.{out_in-IsApart, out_out-IsApart}

pub hashes-set :
    (ns : List Node) (i : ℕ) (n m : Node)
    → get_elem? ns i ≡ some n
    → m.hash ≡ n.hash
    → hashes_of (set ns i m) ≡ hashes_of ns
unfolding set hashes_of
hashes-set [] i n m h p = absurd (cc h)
hashes-set (x ∷ ns) zero n m h p =
    ap (λ c. c ∷ hashes_of ns) (p ∙ ap (λ o. elim o [ none ↦ n.hash | some z ↦ z.hash ]) (sym h))
hashes-set (x ∷ ns) (suc i) n m h p = ap (λ cs. x.hash ∷ cs) (hashes-set ns i n m h p)

same_node :
    (ns : List Node) (i j : ℕ) (n m x : Node)
    → get_elem? ns i ≡ some n
    → (j == i) ≡ true
    → get_elem? (set ns i m) j ≡ some x
    → m ≡ x
same_node ns i j n m x at y found =
    ap (λ o. elim o [ none ↦ m | some z ↦ z ])
      (sym (get_elem?-set ns i m (get_elem?-bound ns i n at))
        ∙ ap (get_elem? (set ns i m)) (sym ((==_iff j i).0 y))
        ∙ found)

differ : (a b : ℕ) → (a == b) ≡ false → b ≢ a
differ a b h p = ground arith

same_chain :
    (es : List Edge) (o o' : Option ℕ) (is js : List (ℕ × ℕ))
    → IsChain es o is
    → o ≡ o'
    → is ≡ js
    → IsChain es o' js
same_chain es o o' is js c p q = subst (λ a. IsChain es a js) p (subst (IsChain es o) q c)

-- `link` can be done at the list of edges into a node, and at the list of those out of it.
pub link_in :
    (s t : ℕ) (g : CommitDag) (ins : List (ℕ × ℕ)) (head : Option ℕ)
    → length g.edges ≡ 2 * length ins
    → IsChain g.edges head (in_edges t 0 ins)
    → Linked g.edges s t head (in_edges t 0 ins)
link_in s t g ins head size c =
    link-Linked g.edges s t head (in_edges t 0 ins) c (in_edges-IsBefore t 0 ins)
      (All-map (IsIn t 0 ins) (λ p. p.0 < length g.edges)
        (λ p (j, a, b). omega (arith, get_elem?-bound ins j (p.1, t) b)) (in_edges t 0 ins)
        (in_edges-IsIn t 0 ins))
      (omega (arith, length-in_edges t 0 ins))

pub link_out :
    (s t : ℕ) (g : CommitDag) (outs : List (ℕ × ℕ)) (head : Option ℕ)
    → length g.edges ≡ suc (2 * length outs)
    → IsChain g.edges head (out_edges s 0 outs)
    → Linked g.edges s t head (out_edges s 0 outs)
link_out s t g outs head size c =
    link-Linked g.edges s t head (out_edges s 0 outs) c (out_edges-IsBefore s 0 outs)
      (All-map (IsOut s 0 outs) (λ p. p.0 < length g.edges)
        (λ p (j, a, (x, b)). omega (arith, get_elem?-bound outs j (s, x) b)) (out_edges s 0 outs)
        (out_edges-IsOut s 0 outs))
      (omega (arith, length-out_edges s 0 outs))

module _ (s t : ℕ) (g : CommitDag) (added : List (ℕ × ℕ)) (n : Node) where
  unfoldable pub after_parent_edge : Linked g.edges s t n.parents (in_edges t 0 added) → CommitDag
  after_parent_edge w = record g {
    nodes = set g.nodes t (record n { parents = w.head' });
    edges = w.es';
  }

  pub after_parent_edge-done :
      (w : Linked g.edges s t n.parents (in_edges t 0 added))
      → get_elem? g.nodes t ≡ some n
      → add_parent_edge s t g ≡ some (after_parent_edge w)
  unfolding add_parent_edge after_parent_edge
  after_parent_edge-done w at = rw (add_parent_edge, at, w.done) refl

  pub after_parent_edge-IsHalf :
      (w : Linked g.edges s t n.parents (in_edges t 0 added))
      → IsGraph g added
      → get_elem? g.nodes t ≡ some n
      → IsHalf (after_parent_edge w) (added ++ (s, t) ∷ []) added
  unfolding after_parent_edge
  after_parent_edge-IsHalf w (size, half) at i x found = elim (Bool-cases (i == t)) [
    | inl y ↦
        let p = (==_iff i t).0 y in
        let now = same_node g.nodes t i n (record n { parents = w.head' }) x at y found in
        let place : 2 * (0 + length added) ≡ length g.edges = omega arith in
        (
          same_chain w.es' w.head' x.parents (in_edges t 0 added ++ (length g.edges, s) ∷ [])
              (in_edges i 0 (added ++ (s, t) ∷ [])) w.chain (ap (λ m. m.parents) now)
              (sym (
                ap (λ j. in_edges j 0 (added ++ (s, t) ∷ [])) p
                ∙ in_edges-snoc_same t 0 added s
                ∙ ap (λ k. in_edges t 0 added ++ (k, s) ∷ []) place)),
          same_chain w.es' n.children x.children (out_edges t 0 added) (out_edges i 0 added)
              (w.others n.children (out_edges t 0 added) (half t n at).1
                (in_out-IsApart t t added added))
              (ap (λ m. m.children) now) (ap (λ j. out_edges j 0 added) (sym p)),
        )
    | inr d ↦
        let was = half i x (
          sym (get_elem?-set_other g.nodes t i (record n { parents = w.head' }) (differ i t d))
          ∙ found) in
        (
          same_chain w.es' x.parents x.parents (in_edges i 0 added)
              (in_edges i 0 (added ++ (s, t) ∷ []))
              (w.others x.parents (in_edges i 0 added) was.0
                (in_in-IsApart t i added (differ i t d)))
              refl (sym (in_edges-snoc_other i 0 added s t (==-eq_false t i (differ i t d)))),
          w.others x.children (out_edges i 0 added) was.1 (in_out-IsApart t i added added),
        )
  ]

  unfoldable pub after_child_edge : Linked g.edges s t n.children (out_edges s 0 added) → CommitDag
  after_child_edge w = record g {
    nodes = set g.nodes s (record n { children = w.head' });
    edges = w.es';
  }

  pub after_child_edge-done :
      (w : Linked g.edges s t n.children (out_edges s 0 added))
      → get_elem? g.nodes s ≡ some n
      → add_child_edge s t g ≡ some (after_child_edge w)
  unfolding add_child_edge after_child_edge
  after_child_edge-done w at = rw (add_child_edge, at, w.done) refl

  pub after_child_edge-IsHalf :
      (w : Linked g.edges s t n.children (out_edges s 0 added))
      → length g.edges ≡ suc (2 * length added)
      → IsHalf g (added ++ (s, t) ∷ []) added
      → get_elem? g.nodes s ≡ some n
      → IsHalf (after_child_edge w) (added ++ (s, t) ∷ []) (added ++ (s, t) ∷ [])
  unfolding after_child_edge
  after_child_edge-IsHalf w size half at i x found = elim (Bool-cases (i == s)) [
    | inl y ↦
        let p = (==_iff i s).0 y in
        let now = same_node g.nodes s i n (record n { children = w.head' }) x at y found in
        let place : 2 * (0 + length added) + 1 ≡ length g.edges = omega arith in
        (
          same_chain w.es' n.parents x.parents (in_edges s 0 (added ++ (s, t) ∷ []))
              (in_edges i 0 (added ++ (s, t) ∷ []))
              (w.others n.parents (in_edges s 0 (added ++ (s, t) ∷ [])) (half s n at).0
                (out_in-IsApart s s added (added ++ (s, t) ∷ [])))
              (ap (λ m. m.parents) now) (ap (λ j. in_edges j 0 (added ++ (s, t) ∷ [])) (sym p)),
          same_chain w.es' w.head' x.children (out_edges s 0 added ++ (length g.edges, s) ∷ [])
              (out_edges i 0 (added ++ (s, t) ∷ [])) w.chain (ap (λ m. m.children) now)
              (sym (
                ap (λ j. out_edges j 0 (added ++ (s, t) ∷ [])) p
                ∙ out_edges-snoc_same s 0 added t
                ∙ ap (λ k. out_edges s 0 added ++ (k, s) ∷ []) place)),
        )
    | inr d ↦
        let was = half i x (
          sym (get_elem?-set_other g.nodes s i (record n { children = w.head' }) (differ i s d))
          ∙ found) in
        (
          w.others x.parents (in_edges i 0 (added ++ (s, t) ∷ [])) was.0
              (out_in-IsApart s i added (added ++ (s, t) ∷ [])),
          same_chain w.es' x.children x.children (out_edges i 0 added)
              (out_edges i 0 (added ++ (s, t) ∷ []))
              (w.others x.children (out_edges i 0 added) was.1
                (out_out-IsApart s i added (differ i s d)))
              refl (sym (out_edges-snoc_other i 0 added s t (==-eq_false s i (differ i s d)))),
        )
  ]
