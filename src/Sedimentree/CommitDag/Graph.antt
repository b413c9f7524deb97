-- ===== src/Sedimentree/CommitDag/Graph.antt =====
-- src/sedimentree/commit_dag.rs: what the vectors of a graph hold when a list of pairs of a source
-- and a target was added to it.
use beelay.Prelude.{ℕ, ◌*◌, ◌≡◌, ◌≢◌, sym, ap, ◌∙◌, arith, List, some, none, length, get_elem?}
use beelay.Prelude.{All}
use beelay.Prelude.Pairwise.{All-map}
use beelay.Sedimentree.CommitDag.{CommitDag, Node}
use beelay.Sedimentree.CommitDag.Chains.{IsChain}
use beelay.Sedimentree.CommitDag.Links.{in_edges, out_edges, IsIn, IsOut, in_edges-IsIn}
use beelay.Sedimentree.CommitDag.Links.{out_edges-IsOut}

-- The lists of a node, when the edges `ins` were put in children and the edges `outs` in parents.
abbrev pub IsAt : CommitDag → List (ℕ × ℕ) → List (ℕ × ℕ) → ℕ → Node → Type 0
IsAt g ins outs i n =
    IsChain g.edges n.parents (in_edges i 0 ins) × IsChain g.edges n.children (out_edges i 0 outs)

abbrev pub IsHalf : CommitDag → List (ℕ × ℕ) → List (ℕ × ℕ) → Type 0
IsHalf g ins outs = (i : ℕ) (n : Node) → get_elem? g.nodes i ≡ some n → IsAt g ins outs i n

abbrev pub IsGraph : CommitDag → List (ℕ × ℕ) → Type 0
IsGraph g added = (length g.edges ≡ 2 * length added) × IsHalf g added added

-- The places of two lists that have none in common.
abbrev pub IsApart : List (ℕ × ℕ) → List (ℕ × ℕ) → Type 0
IsApart is js = All (λ q. All (λ p. p.0 ≢ q.0) is) js

apart :
    (P Q : ℕ × ℕ → Type 0) (is js : List (ℕ × ℕ))
    → ((p q : ℕ × ℕ) → P p → Q q → p.0 ≢ q.0)
    → All P is
    → All Q js
    → IsApart is js
apart P Q is js f a b =
    All-map Q (λ q. All (λ p. p.0 ≢ q.0) is)
      (λ q c. All-map P (λ p. p.0 ≢ q.0) (λ p d. f p q d c) is a) js b

pub in_in-IsApart :
    (t u : ℕ) (added : List (ℕ × ℕ)) → t ≢ u → IsApart (in_edges t 0 added) (in_edges u 0 added)
in_in-IsApart t u added h =
    apart (IsIn t 0 added) (IsIn u 0 added) (in_edges t 0 added) (in_edges u 0 added)
      (λ p q (i, a, b) (j, c, d) e.
        let same : i ≡ j = omega arith in
        h (ap (λ o. elim o [ none ↦ 0 | some x ↦ x.1 ]) (sym b ∙ ap (get_elem? added) same ∙ d)))
      (in_edges-IsIn t 0 added) (in_edges-IsIn u 0 added)

pub in_out-IsApart :
    (t s : ℕ) (ins outs : List (ℕ × ℕ)) → IsApart (in_edges t 0 ins) (out_edges s 0 outs)
in_out-IsApart t s ins outs =
    apart (IsIn t 0 ins) (IsOut s 0 outs) (in_edges t 0 ins) (out_edges s 0 outs)
      (λ p q (i, a, b) (j, c, d) e. omega arith) (in_edges-IsIn t 0 ins) (out_edges-IsOut s 0 outs)

pub out_in-IsApart :
    (s t : ℕ) (outs ins : List (ℕ × ℕ)) → IsApart (out_edges s 0 outs) (in_edges t 0 ins)
out_in-IsApart s t outs ins =
    apart (IsOut s 0 outs) (IsIn t 0 ins) (out_edges s 0 outs) (in_edges t 0 ins)
      (λ p q (i, a, b) (j, c, d) e. omega arith) (out_edges-IsOut s 0 outs) (in_edges-IsIn t 0 ins)

pub out_out-IsApart :
    (s u : ℕ) (added : List (ℕ × ℕ)) → s ≢ u → IsApart (out_edges s 0 added) (out_edges u 0 added)
out_out-IsApart s u added h =
    apart (IsOut s 0 added) (IsOut u 0 added) (out_edges s 0 added) (out_edges u 0 added)
      (λ p q (i, a, (x, b)) (j, c, (y, d)) e.
        let same : i ≡ j = omega arith in
        h (ap (λ o. elim o [ none ↦ 0 | some z ↦ z.0 ]) (sym b ∙ ap (get_elem? added) same ∙ d)))
      (out_edges-IsOut s 0 added) (out_edges-IsOut u 0 added)
