-- ===== src/Sedimentree/CommitDag/Traverse/Nodes.antt =====
-- src/sedimentree/commit_dag.rs: the nodes of a graph made by `from_commits`, and their sorted parents.
use mathlib.Core.Option.{some_inj}
use beelay.Prelude.{ℕ, ◌<◌, ◌≡◌, ◌≢◌, refl, sym, ap, ◌∙◌, List, [], ◌∷◌, some, inl, inr, subst}
use beelay.Prelude.{◌↔◌, Option-cases, length, get_elem?, map, All}
use beelay.Prelude.Equality.{nat_eq, contains, IsIn, IsIn-cases, IsIn-here, IsIn-later}
use beelay.Prelude.Equality.{contains-get_elem?, IsIn-All}
use beelay.Prelude.Assoc.{lookup}
use beelay.Prelude.Pairwise.{Pairwise, place_unique}
use beelay.Prelude.Vec.{get_elem?-some}
use beelay.Commit.{CommitHash}
use beelay.Sedimentree.Types.{LooseCommit}
use beelay.Sedimentree.Strata.{commit_hash_eq}
use beelay.Sedimentree.CommitDag.{CommitDag, Node, hashes_at, commit_hashes}
use beelay.Sedimentree.CommitDag.Graph.{IsGraph}
use beelay.Sedimentree.CommitDag.Places.{map_from, map_from-IsPlaced, hashes_from}
use beelay.Sedimentree.CommitDag.Build.{edges_of, hash_at, node_of}
use beelay.Sedimentree.CommitDag.Relations.{sources_to-places, parents-IsGraph, places}
use beelay.Sedimentree.CommitDag.Traverse.{sort_by_key, sorted_parents}
use beelay.Sedimentree.CommitDag.Traverse.Sorted.{IsIn-sort, with_hashes-range}
use beelay.Sedimentree.CommitDag.Traverse.Lookups.{places-IsIn, commit_of}
use beelay.Sedimentree.CommitDag.Heads.{hashes_of-get_elem?}

IsIn-apart : (i : ℕ) (is : List ℕ) (j : ℕ) → All (λ k. i ≢ k) is → IsIn is j → i ≢ j
unfolding contains
IsIn-apart i [] j d h = absurd (cc h)
IsIn-apart i (k ∷ is) j (d, ds) h = elim (IsIn-cases k j is h) [
  | inl p ↦ λ q. d (q ∙ sym p)
  | inr r ↦ IsIn-apart i is j ds r
]

-- The graph `g` that `from_commits` makes of commits with distinct hashes.
module _ (cs : List LooseCommit) (distinct : Pairwise (λ a b. a ≢ b) (hashes_from cs))
    (g : CommitDag) (hashes : commit_hashes g ≡ hashes_from cs)
    (graph : IsGraph g (edges_of (map_from cs) cs)) where
  pub lookup-at :
      (i : ℕ) (c : LooseCommit) → get_elem? cs i ≡ some c → lookup (map_from cs) c.hash ≡ some i
  lookup-at i c f =
      let placed = map_from-IsPlaced cs in
      let at = hash_at cs i c f in
      elim (Option-cases (lookup (map_from cs) c.hash)) [
        | inl n ↦ absurd (cc (placed.1 c.hash n, contains-get_elem? (hashes_from cs) i c.hash at))
        | inr (j, y) ↦
            y ∙ ap some (place_unique (hashes_from cs) j i c.hash distinct (placed.0 c.hash j y) at)
      ]

  pub looked_up :
      (h : CommitHash) (i : ℕ)
      → lookup (map_from cs) h ≡ some i
      → (c : LooseCommit) × (get_elem? cs i ≡ some c) × (c.hash ≡ h)
  looked_up h i y = commit_of cs i h ((map_from-IsPlaced cs).0 h i y)

  pub node-at :
      (i : ℕ) (c : LooseCommit)
      → get_elem? cs i ≡ some c
      → (n : Node) × (get_elem? g.nodes i ≡ some n) × (n.hash ≡ c.hash)
  unfolding commit_hashes
  node-at i c f = node_of g.nodes i c.hash (ap (λ hs. get_elem? hs i) hashes ∙ hash_at cs i c f)

  pub sorted-at :
      (i : ℕ) (c : LooseCommit)
      → get_elem? cs i ≡ some c
      → (ks : List ℕ) × (sorted_parents g i ≡ some ks)
        × ((j : ℕ) → IsIn ks j ↔ IsIn (places (map_from cs) c.parents) j)
  unfolding sorted_parents
  sorted-at i c f =
      let (n, at, q) = node-at i c f in
      let m = map_from cs in
      let placed = map_from-IsPlaced cs in
      let ps =
        parents-IsGraph g (edges_of m cs) i n graph at
        ∙ ap some
            (sources_to-places m (hashes_from cs) placed cs i c i distinct f (lookup-at i c f)) in
      let (pairs, done, same) = with_hashes-range g.nodes (places m c.parents) (λ j h.
        let (p, _, y) = places-IsIn m c.parents j h in
        let (d, f', _) = looked_up p j y in let (x, at', _) = node-at j d f' in (x, at')) in
      (
        map (λ p. p.0) (sort_by_key (λ p. p.1) pairs),
        rw (sorted_parents, ps, done) refl,
        λ j. (
          λ h. subst (λ l. IsIn l j) same ((IsIn-sort (λ p. p.1) (λ p. p.0) pairs j).0 h),
          λ h. (IsIn-sort (λ p. p.1) (λ p. p.0) pairs j).1 (subst (λ l. IsIn l j) (sym same) h),
        ),
      )

  pub commit-at : (i : ℕ) → i < length g.nodes → (c : LooseCommit) × (get_elem? cs i ≡ some c)
  unfolding commit_hashes
  commit-at i h =
      let (n, at) = get_elem?-some g.nodes i h in
      let (c, f, _) =
        commit_of cs i n.hash
          (ap (λ hs. get_elem? hs i) (sym hashes) ∙ hashes_of-get_elem? g.nodes i n at) in
      (c, f)

  -- What is read off a list of places.
  abbrev pub IsAmong : List ℕ → CommitHash → Type 0
  IsAmong is h =
      (i : ℕ) × IsIn is i × ((c : LooseCommit) × (get_elem? cs i ≡ some c) × (c.hash ≡ h))

  pub hashes_at-range :
      (is : List ℕ)
      → ((i : ℕ) → IsIn is i → (c : LooseCommit) × (get_elem? cs i ≡ some c))
      → Pairwise (λ a b. a ≢ b) is
      → (hs : List CommitHash) × (hashes_at g.nodes is ≡ some hs)
        × Pairwise (λ a b. a ≢ b) hs
        × ((h : CommitHash) → IsIn hs h ↔ IsAmong is h)
  unfolding hashes_at contains
  hashes_at-range [] range once =
      ([], refl, tt, λ h. (λ x. absurd (cc x), λ (i, n, _). absurd (cc n)))
  hashes_at-range (i ∷ is) range (d, ds) =
      let (c, f) = range i (IsIn-here i i is refl) in
      let (n, at, q) = node-at i c f in
      let (hs, done, apart, among) = hashes_at-range is (λ j h. range j (IsIn-later i j is h)) ds in
      (
        c.hash ∷ hs,
        rw (hashes_at, at, done, q) refl,
        (
          IsIn-All (λ h. c.hash ≢ h) hs
              (λ h x e.
                let (j, y, (b, f', e')) = (among h).0 x in
                absurd (
                  IsIn-apart i is j d y (
                    place_unique (hashes_from cs) i j c.hash distinct (hash_at cs i c f)
                      (hash_at cs j b f' ∙ ap some (e' ∙ sym e))))),
          apart,
        ),
        λ h. (
          λ x. elim (IsIn-cases c.hash h hs x) [
            | inl e ↦ (i, IsIn-here i i is refl, (c, f, e))
            | inr r ↦ let (j, y, z) = (among h).0 r in (j, IsIn-later i j is y, z)
          ],
          λ (j, y, (b, f', e)). elim (IsIn-cases i j is y) [
            | inl p ↦ IsIn-here c.hash h hs (
                ap (λ (x : LooseCommit). x.hash) (some_inj.0 (sym f ∙ ap (get_elem? cs) p ∙ f'))
                ∙ e)
            | inr r ↦ IsIn-later c.hash h hs ((among h).1 (j, r, (b, f', e)))
          ],
        ),
      )
