-- ===== src/Sedimentree/CommitDag/Minimized.antt =====
-- src/sedimentree.rs: `minimize`, with the commits that it keeps.
use mathlib.Core.Option.{some_inj}
use beelay.Prelude.{ℕ, ◌+◌, ◌<◌, ◌≡◌, ◌≢◌, refl, sym, ap, ◌∙◌, arith, List, [], ◌∷◌, All, map}
use beelay.Prelude.{none, some, length, get_elem?, inl, inr, Option-cases, Bool-cases, subst}
use beelay.Prelude.Assoc.{lookup}
use beelay.Prelude.Equality.{contains, IsIn, IsIn-cases, IsIn-here, IsIn-later, nat_eq}
use beelay.Prelude.Pairwise.{Pairwise}
use beelay.Prelude.Vec.{get_elem?-some}
use beelay.Commit.{CommitHash}
use beelay.Sedimentree.Types.{LooseCommit, Sedimentree}
use beelay.Sedimentree.Strata.{commit_hash_eq, minimize_strata}
use beelay.Sedimentree.CommitDag.{CommitDag, Node, from_commits, parents_of_hash, tips, tips_from}
use beelay.Sedimentree.CommitDag.{contains_commit}
use beelay.Sedimentree.CommitDag.Places.{hashes_from, map_from-IsPlaced}
use beelay.Sedimentree.CommitDag.Build.{from_commits-Grown}
use beelay.Sedimentree.CommitDag.Relations.{known, parents_of_hash-from_commits}
use beelay.Sedimentree.CommitDag.Traverse.{sort_by_key, reverse_topo}
use beelay.Sedimentree.CommitDag.Traverse.Sorted.{IsIn-sort, with_hashes-range}
use beelay.Sedimentree.CommitDag.Traverse.Lookups.{commit_of}
use beelay.Sedimentree.CommitDag.Traverse.Nodes.{commit-at}
use beelay.Sedimentree.CommitDag.Traverse.Ancestors.{reverse_topo-from_commits}
use beelay.Sedimentree.CommitDag.Canonical.Sequence.{no_parents}
use beelay.Sedimentree.CommitDag.Simplify.{Blocks, sorted_tips, scan_tips, scan_hashes}
use beelay.Sedimentree.CommitDag.Simplify.{last_block, simplify, remaining_commits, minimize}
use beelay.Sedimentree.CommitDag.Simplify.{commits_in}
use beelay.Sedimentree.CommitDag.Rebuilt.{rebuild-IsOf}

tip_taken :
    (k : ℕ) (n : Node) (ns : List Node)
    → n.children ≡ none
    → tips_from k (n ∷ ns) ≡ k ∷ tips_from (k + 1) ns
unfolding tips_from
tip_taken k n ns p = rw (tips_from, p) refl

tip_left :
    (k : ℕ) (n : Node) (ns : List Node) (e : ℕ)
    → n.children ≡ some e
    → tips_from k (n ∷ ns) ≡ tips_from (k + 1) ns
unfolding tips_from
tip_left k n ns e p = rw (tips_from, p) refl

tips_from-range : (k : ℕ) (ns : List Node) (i : ℕ) → IsIn (tips_from k ns) i → i < k + length ns
unfolding tips_from contains
tips_from-range k [] i h = absurd (cc h)
tips_from-range k (n ∷ ns) i h = elim (Option-cases n.children) [
  | inl p ↦
      elim (IsIn-cases k i (tips_from (k + 1) ns) (subst (λ l. IsIn l i) (tip_taken k n ns p) h)) [
        | inl q ↦ omega arith
        | inr r ↦ omega (arith, tips_from-range (k + 1) ns i r)
      ]
  | inr (e, p) ↦
      omega (arith, tips_from-range (k + 1) ns i (subst (λ l. IsIn l i) (tip_left k n ns e p) h))
]

-- The places of commits, of a graph that `from_commits` makes.
module _ (cs : List LooseCommit) (distinct : Pairwise (λ a b. a ≢ b) (hashes_from cs))
    (g : CommitDag) (made : from_commits cs ≡ some g)
    (at : (i : ℕ) → i < length g.nodes → (c : LooseCommit) × (get_elem? cs i ≡ some c)) where
  scan_tips-some :
      (radix : List ℕ → ℕ → List ℕ) (ts : List ℕ) (b : Blocks)
      → ((i : ℕ) → IsIn ts i → i < length g.nodes)
      → (b' : Blocks) × (scan_tips radix g ts b ≡ some b')
  unfolding scan_tips
  scan_tips-some radix [] b within = (b, refl)
  scan_tips-some radix (t ∷ ts) b within =
      let (c, f) = at t (within t (IsIn-here t t ts refl)) in
      let (g', hs, made', _, read, _, _) = reverse_topo-from_commits cs t c distinct f in
      let read' = ap (λ x. reverse_topo x t) (some_inj.0 (sym made ∙ made')) ∙ read in
      let (b', done) =
        scan_tips-some radix ts (last_block (scan_hashes radix hs b))
          (λ i h. within i (IsIn-later t i ts h)) in
      (b', rw (scan_tips, read') done)

  sorted_tips-some :
      (radix : List ℕ → ℕ → List ℕ)
      → (ps : List (ℕ × CommitHash)) × (sorted_tips radix g ≡ some ps)
        × ((i : ℕ) → IsIn (map (λ p. p.0) ps) i → i < length g.nodes)
  unfolding sorted_tips tips
  sorted_tips-some radix =
      let (ps, done, same) =
        with_hashes-range g.nodes (tips_from 0 g.nodes)
          (λ i h. get_elem?-some g.nodes i (omega (arith, tips_from-range 0 g.nodes i h))) in
      (
        sort_by_key (λ p. p.1) ps,
        rw (sorted_tips, done) refl,
        λ i h. omega (
          arith,
          tips_from-range 0 g.nodes i
              (subst (λ l. IsIn l i) same ((IsIn-sort (λ p. p.1) (λ p. p.0) ps i).0 h)),
        ),
      )

commits_in-All :
    (radix : List ℕ → ℕ → List ℕ)
    (map_order : List (CommitHash × List CommitHash) → List (CommitHash × List CommitHash))
    (set_order : List CommitHash → List CommitHash) (P : LooseCommit → Type 0) (g : CommitDag)
    (cs : List LooseCommit)
    → All P cs
    → All P (commits_in radix map_order set_order g cs)
unfolding commits_in
commits_in-All radix map_order set_order P g [] a = tt
commits_in-All radix map_order set_order P g (c ∷ cs) (p, a) =
    elim (Bool-cases (contains_commit g c.hash)) [
      | inl y ↦ rw (y) (p, commits_in-All radix map_order set_order P g cs a)
      | inr n ↦ rw (n) (commits_in-All radix map_order set_order P g cs a)
    ]

-- A tree whose loose commits have distinct hashes is minimized without a panic: the strata are those
-- that the loop keeps, and the commits have each property that all commits of the tree have.
pub minimize-some :
    (radix : List ℕ → ℕ → List ℕ)
    (map_order : List (CommitHash × List CommitHash) → List (CommitHash × List CommitHash))
    (set_order : List CommitHash → List CommitHash) (tree : Sedimentree)
    → Pairwise (λ a b. a ≢ b) (hashes_from tree.commits)
    → (m : Sedimentree) × (minimize radix map_order set_order tree ≡ some m)
      × (m.strata ≡ minimize_strata radix tree.strata)
      × ((P : LooseCommit → Type 0) → All P tree.commits → All P m.commits)
unfolding minimize simplify
minimize-some radix map_order set_order tree d =
    let (g, made, hashes, kept, graph) = from_commits-Grown tree.commits in
    let strata = minimize_strata radix tree.strata in
    let (ps, sorted, within) =
      sorted_tips-some tree.commits d g made (λ i h. commit-at tree.commits d g hashes graph i h)
        radix in
    let (b, scanned) =
      scan_tips-some tree.commits d g made (λ i h. commit-at tree.commits d g hashes graph i h)
        radix (map (λ p. p.0) ps)
        (record { commits_to_blocks = []; blockless_commits = []; block = none }) within in
    let (g', built, _) =
      rebuild-IsOf g
        (λ h. elim (Option-cases (lookup g.node_map h)) [
          | inl n ↦ ([], no_parents g h n)
          | inr (i, y) ↦
              let (c, f, e) =
                commit_of tree.commits i h
                  ((map_from-IsPlaced tree.commits).0 h i (ap (λ m. lookup m h) (sym kept) ∙ y)) in
              let (g2, made', p) = parents_of_hash-from_commits tree.commits i c d f in
              (
                known (hashes_from tree.commits) c.parents,
                ap (parents_of_hash g) (sym e)
                    ∙ ap (λ x. parents_of_hash x c.hash) (some_inj.0 (sym made ∙ made'))
                    ∙ p,
              )
        ])
        radix map_order set_order (remaining_commits radix map_order set_order strata b) in
    (
      record { strata = strata; commits = commits_in radix map_order set_order g' tree.commits },
      rw (minimize, made, simplify, sorted, scanned, built) refl,
      refl,
      λ P a. commits_in-All radix map_order set_order P g' tree.commits a,
    )
