-- ===== src/Sedimentree/CommitDag/Traverse/Ancestors.antt =====
-- src/sedimentree/commit_dag.rs: `ReverseTopo` on a graph made by `from_commits` gives the ancestors.
use mathlib.Core.Option.{some_inj}
use beelay.Prelude.{ℕ, suc, ◌≡◌, ◌≢◌, sym, ap, ◌∙◌, List, [], ◌∷◌, some, subst, ◌↔◌, length}
use beelay.Prelude.{get_elem?}
use beelay.Prelude.Equality.{nat_eq, IsIn}
use beelay.Prelude.Assoc.{lookup}
use beelay.Prelude.Pairwise.{Pairwise}
use beelay.Prelude.Vec.{get_elem?-bound}
use beelay.Commit.{CommitHash}
use beelay.Sedimentree.Types.{LooseCommit}
use beelay.Sedimentree.Strata.{commit_hash_eq}
use beelay.Sedimentree.CommitDag.{CommitDag, from_commits, commit_hashes}
use beelay.Sedimentree.CommitDag.Graph.{IsGraph}
use beelay.Sedimentree.CommitDag.Places.{map_from, hashes_from}
use beelay.Sedimentree.CommitDag.Build.{edges_of, from_commits-Grown}
use beelay.Sedimentree.CommitDag.Walk.{collect}
use beelay.Sedimentree.CommitDag.Walk.Round.{Leads}
use beelay.Sedimentree.CommitDag.Walk.Complete.{collect-Leads}
use beelay.Sedimentree.CommitDag.Traverse.{sorted_parents, reverse_topo}
use beelay.Sedimentree.CommitDag.Traverse.Lookups.{places-IsIn, IsIn-places, below, below-IsIn}
use beelay.Sedimentree.CommitDag.Traverse.Lookups.{IsIn-below, length-below}
use beelay.Sedimentree.CommitDag.Traverse.Nodes.{lookup-at, looked_up, node-at, sorted-at}
use beelay.Sedimentree.CommitDag.Traverse.Nodes.{commit-at, hashes_at-range}

-- `d` is `c`, or an ancestor of `c` by parents that are among the commits.
pub data IsAncestor (cs : List LooseCommit) : LooseCommit → LooseCommit → Type 0 where
  self : (c : LooseCommit) → IsAncestor cs c c
  parent :
      (c p d : LooseCommit) (i : ℕ)
      → IsIn c.parents p.hash
      → get_elem? cs i ≡ some p
      → IsAncestor cs p d
      → IsAncestor cs c d

-- The graph `g` that `from_commits` makes of commits with distinct hashes.
module _ (cs : List LooseCommit) (distinct : Pairwise (λ a b. a ≢ b) (hashes_from cs))
    (g : CommitDag) (hashes : commit_hashes g ≡ hashes_from cs)
    (graph : IsGraph g (edges_of (map_from cs) cs)) where
  Leads-IsAncestor :
      (i j : ℕ) (c : LooseCommit)
      → Leads (sorted_parents g) i j
      → get_elem? cs i ≡ some c
      → (d : LooseCommit) × (get_elem? cs j ≡ some d) × IsAncestor cs c d
  Leads-IsAncestor i _ c (Leads.here _) f = (c, f, IsAncestor.self c)
  Leads-IsAncestor i j c (Leads.through _ k _ ks p h l) f =
      let (ks', p', iff) = sorted-at cs distinct g hashes graph i c f in
      let (q, i', y) =
        places-IsIn (map_from cs) c.parents k
          ((iff k).0 (subst (λ xs. IsIn xs k) (some_inj.0 (sym p ∙ p')) h)) in
      let (x, f', e) = looked_up cs distinct g hashes graph q k y in
      let (d, f'', a) = Leads-IsAncestor k j x l f' in
      (d, f'', IsAncestor.parent c x d k (subst (IsIn c.parents) (sym e) i') f' a)

  IsAncestor-Leads :
      (c d : LooseCommit) (i : ℕ)
      → IsAncestor cs c d
      → get_elem? cs i ≡ some c
      → (j : ℕ) × (get_elem? cs j ≡ some d) × Leads (sorted_parents g) i j
  IsAncestor-Leads c _ i (IsAncestor.self _) f = (i, f, Leads.here i)
  IsAncestor-Leads c d i (IsAncestor.parent _ p _ k h f' a) f =
      let (ks, p', iff) = sorted-at cs distinct g hashes graph i c f in
      let (j, f'', l) = IsAncestor-Leads p d k a f' in
      (
        j,
        f'',
        Leads.through i k j ks p'
            ((iff k).1 (
              IsIn-places (map_from cs) c.parents p.hash k h
                (lookup-at cs distinct g hashes graph k p f')))
            l,
      )

  reads :
      (k : ℕ) (c : LooseCommit)
      → get_elem? cs k ≡ some c
      → (is : List ℕ) × (collect (sorted_parents g) (suc (length g.nodes)) (k ∷ []) [] ≡ some is)
        × Pairwise (λ a b. a ≢ b) is
        × ((j : ℕ) → IsIn is j ↔ Leads (sorted_parents g) k j)
  reads k c f =
      let all = below (length g.nodes) in
      let (n, at, _) = node-at cs distinct g hashes graph k c f in
      let (is, read, once, iff) =
        collect-Leads (sorted_parents g) all
          (λ i h.
            let (b, f') =
              commit-at cs distinct g hashes graph i (below-IsIn (length g.nodes) i h) in
            let (ks, p, iff) = sorted-at cs distinct g hashes graph i b f' in
            (
              ks,
              p,
              λ j x.
                  let (q, _, y) = places-IsIn (map_from cs) b.parents j ((iff j).0 x) in
                  let (d, f'', _) = looked_up cs distinct g hashes graph q j y in
                  let (m, at', _) = node-at cs distinct g hashes graph j d f'' in
                  IsIn-below (length g.nodes) j (get_elem?-bound g.nodes j m at'),
            ))
          k (IsIn-below (length g.nodes) k (get_elem?-bound g.nodes k n at)) in
      (
        is,
        ap (λ l. collect (sorted_parents g) (suc l) (k ∷ []) [])
              (sym (length-below (length g.nodes)))
            ∙ read,
        once,
        iff,
      )

-- For commits with distinct hashes, the walk from the place of a commit is read to its end with the
-- fuel of a round for each node and one for the end, and gives the hashes of the commit and of its
-- ancestors among the commits, each once.
pub reverse_topo-from_commits :
    (cs : List LooseCommit) (k : ℕ) (c : LooseCommit)
    → Pairwise (λ a b. a ≢ b) (hashes_from cs)
    → get_elem? cs k ≡ some c
    → (g : CommitDag) × (hs : List CommitHash) × (from_commits cs ≡ some g)
      × (lookup g.node_map c.hash ≡ some k)
      × (reverse_topo g k ≡ some hs)
      × Pairwise (λ a b. a ≢ b) hs
      × ((h : CommitHash) → IsIn hs h ↔ ((d : LooseCommit) × IsAncestor cs c d × (d.hash ≡ h)))
unfolding reverse_topo
reverse_topo-from_commits cs k c distinct f =
    let (g, done, hashes, kept, graph) = from_commits-Grown cs in
    let (is, read, once, iff) = reads cs distinct g hashes graph k c f in
    let (hs, got, apart, among) =
      hashes_at-range cs distinct g hashes graph is
        (λ j h.
          let (d, f', _) = Leads-IsAncestor cs distinct g hashes graph k j c ((iff j).0 h) f in
          (d, f'))
        once in
    (
      g,
      hs,
      done,
      ap (λ m. lookup m c.hash) kept ∙ lookup-at cs distinct g hashes graph k c f,
      rw (reverse_topo, read) got,
      apart,
      λ h. (
        λ x.
            let (j, y, (b, f', e)) = (among h).0 x in
            let (d, f'', a) = Leads-IsAncestor cs distinct g hashes graph k j c ((iff j).0 y) f in
            (d, a, ap (λ (z : LooseCommit). z.hash) (some_inj.0 (sym f'' ∙ f')) ∙ e),
        λ (d, a, e).
            let (j, f', l) = IsAncestor-Leads cs distinct g hashes graph c d k a f in
            (among h).1 (j, (iff j).1 l, (d, f', e)),
      ),
    )
