-- ===== src/Sedimentree/CommitDag/Relations.antt =====
-- src/sedimentree/commit_dag.rs: the parents that a graph made by `from_commits` gives.
use mathlib.Core.Option.{some_inj}
use beelay.Prelude.{ℕ, zero, suc, ◌+◌, ◌≡◌, ◌≢◌, refl, sym, ap, ◌∙◌, arith, List, [], ◌∷◌, ◌++◌}
use beelay.Prelude.{some, none, length, get_elem?, All, inl, inr, Bool-cases, ◌==◌, subst}
use beelay.Prelude.{Option-cases, map, append-nil, ==-eq_false, ==-refl, if◌then◌else◌}
use beelay.Prelude.Equality.{contains, contains-get_elem?}
use beelay.Prelude.Assoc.{lookup}
use beelay.Prelude.Pairwise.{Pairwise, All-get_elem?}
use beelay.Commit.{CommitHash}
use beelay.Sedimentree.Types.{LooseCommit}
use beelay.Sedimentree.Strata.{commit_hash_eq}
use beelay.Sedimentree.CommitDag.{CommitDag, Node, from_commits, parents, parents_of_hash}
use beelay.Sedimentree.CommitDag.{hashes_at, commit_hashes, hashes_of}
use beelay.Sedimentree.CommitDag.Chains.{sources_from-chain}
use beelay.Sedimentree.CommitDag.Links.{in_edges, length-in_edges}
use beelay.Sedimentree.CommitDag.Graph.{IsGraph}
use beelay.Sedimentree.CommitDag.Places.{IsPlaced, map_from, map_from-IsPlaced, hashes_from}
use beelay.Sedimentree.CommitDag.Build.{edges_of, edges_of_parents, from_commits-Grown, node_of}
use beelay.Sedimentree.CommitDag.Build.{hash_at}

-- The sources of the pairs with the target `t`.
unfoldable pub sources_to : ℕ → List (ℕ × ℕ) → List ℕ
sources_to t [] = []
sources_to t ((s, t') ∷ added) = if t' == t then s ∷ sources_to t added else sources_to t added

-- The hashes of `ps` that are in `hs`.
unfoldable pub known : List CommitHash → List CommitHash → List CommitHash
unfolding contains
known hs [] = []
known hs (p ∷ ps) = if contains hs p then p ∷ known hs ps else known hs ps

-- Their places.
unfoldable pub places : List (CommitHash × ℕ) → List CommitHash → List ℕ
unfolding lookup
places m [] = []
places m (p ∷ ps) = elim (lookup m p) [ none ↦ places m ps | some i ↦ i ∷ places m ps ]

map-in_edges :
    (t k : ℕ) (added : List (ℕ × ℕ)) → map (λ p. p.1) (in_edges t k added) ≡ sources_to t added
unfolding in_edges sources_to
map-in_edges t k [] = refl
map-in_edges t k ((s, t') ∷ added) = elim (Bool-cases (t' == t)) [
  | inl y ↦ rw (y) (ap (λ is. s ∷ is) (map-in_edges t (k + 1) added))
  | inr n ↦ rw (n) (map-in_edges t (k + 1) added)
]

sources_to-append :
    (t : ℕ) (xs ys : List (ℕ × ℕ)) → sources_to t (xs ++ ys) ≡ sources_to t xs ++ sources_to t ys
unfolding sources_to
sources_to-append t [] ys = refl
sources_to-append t ((s, t') ∷ xs) ys = elim (Bool-cases (t' == t)) [
  | inl y ↦ rw (y) (ap (λ is. s ∷ is) (sources_to-append t xs ys))
  | inr n ↦ rw (n) (sources_to-append t xs ys)
]

sources_to-same :
    (m : List (CommitHash × ℕ)) (t : ℕ) (ps : List CommitHash)
    → sources_to t (edges_of_parents m t ps) ≡ places m ps
unfolding sources_to edges_of_parents places
sources_to-same m t [] = refl
sources_to-same m t (p ∷ ps) = elim (Option-cases (lookup m p)) [
  | inl n ↦ rw (edges_of_parents, places, n) (sources_to-same m t ps)
  | inr (i, y) ↦
      rw (edges_of_parents, places, y, ==-refl t) (ap (λ is. i ∷ is) (sources_to-same m t ps))
]

sources_to-other :
    (m : List (CommitHash × ℕ)) (t u : ℕ) (ps : List CommitHash)
    → u ≢ t
    → sources_to t (edges_of_parents m u ps) ≡ []
unfolding sources_to edges_of_parents
sources_to-other m t u [] d = refl
sources_to-other m t u (p ∷ ps) d = elim (Option-cases (lookup m p)) [
  | inl n ↦ rw (edges_of_parents, n) (sources_to-other m t u ps d)
  | inr (i, y) ↦ rw (edges_of_parents, y, ==-eq_false u t d) (sources_to-other m t u ps d)
]

-- Two hashes of the map with the same place are the same.
pub place_inj :
    (m : List (CommitHash × ℕ)) (hs : List CommitHash) (g h : CommitHash) (i j : ℕ)
    → IsPlaced m hs
    → lookup m g ≡ some i
    → lookup m h ≡ some j
    → i ≡ j
    → g ≡ h
place_inj m hs g h i j placed a b p =
    some_inj.0 (sym (placed.0 g i a) ∙ ap (get_elem? hs) p ∙ placed.0 h j b)

module _ (m : List (CommitHash × ℕ)) (hs : List CommitHash) (placed : IsPlaced m hs) where
  sources_to-none :
      (cs : List LooseCommit) (h : CommitHash) (t : ℕ)
      → lookup m h ≡ some t
      → All (λ h'. h ≢ h') (hashes_from cs)
      → sources_to t (edges_of m cs) ≡ []
  unfolding sources_to edges_of
  sources_to-none [] h t at d = refl
  sources_to-none (c ∷ cs) h t at (d, ds) = elim (Option-cases (lookup m c.hash)) [
    | inl n ↦ rw (edges_of, n) (sources_to-none cs h t at ds)
    | inr (i, y) ↦
        rw (edges_of, y)
          (sources_to-append t (edges_of_parents m i c.parents) (edges_of m cs)
            ∙ ap (λ xs. xs ++ sources_to t (edges_of m cs))
                (sources_to-other m t i c.parents
                  (λ p. d (sym (place_inj m hs c.hash h i t placed y at p))))
            ∙ sources_to-none cs h t at ds)
  ]

  pub sources_to-places :
      (cs : List LooseCommit) (k : ℕ) (c : LooseCommit) (t : ℕ)
      → Pairwise (λ a b. a ≢ b) (hashes_from cs)
      → get_elem? cs k ≡ some c
      → lookup m c.hash ≡ some t
      → sources_to t (edges_of m cs) ≡ places m c.parents
  unfolding sources_to edges_of
  sources_to-places [] k c t d f at = absurd (cc f)
  sources_to-places (x ∷ cs) zero c t (d, ds) f at =
      let p = some_inj.0 f in
      let at' = ap (λ z. lookup m z.hash) p ∙ at in
      rw (edges_of, at')
        (sources_to-append t (edges_of_parents m t x.parents) (edges_of m cs)
          ∙ ap (λ xs. sources_to t (edges_of_parents m t x.parents) ++ xs)
              (sources_to-none cs x.hash t at' d)
          ∙ append-nil (sources_to t (edges_of_parents m t x.parents))
          ∙ sources_to-same m t x.parents
          ∙ ap (λ z. places m z.parents) p)
  sources_to-places (x ∷ cs) (suc k) c t (d, ds) f at = elim (Option-cases (lookup m x.hash)) [
    | inl n ↦ rw (edges_of, n) (sources_to-places cs k c t ds f at)
    | inr (i, y) ↦
        rw (edges_of, y)
          (sources_to-append t (edges_of_parents m i x.parents) (edges_of m cs)
            ∙ ap (λ xs. xs ++ sources_to t (edges_of m cs))
                (sources_to-other m t i x.parents (λ p.
                  All-get_elem? (λ h'. x.hash ≢ h') (hashes_from cs) k c.hash d (hash_at cs k c f)
                    (place_inj m hs x.hash c.hash i t placed y at p)))
            ∙ sources_to-places cs k c t ds f at)
  ]

hashes_at-places :
    (m : List (CommitHash × ℕ)) (ns : List Node) (ps : List CommitHash)
    → IsPlaced m (hashes_of ns)
    → hashes_at ns (places m ps) ≡ some (known (hashes_of ns) ps)
unfolding hashes_at places known
hashes_at-places m ns [] placed = refl
hashes_at-places m ns (p ∷ ps) placed = elim (Option-cases (lookup m p)) [
  | inl n ↦ rw (places, n, known, placed.1 p n) (hashes_at-places m ns ps placed)
  | inr (i, y) ↦
      let (n, at, q) = node_of ns i p (placed.0 p i y) in
      rw
        (
          places,
          y,
          known,
          contains-get_elem? (hashes_of ns) i p (placed.0 p i y),
          hashes_at,
          at,
          hashes_at-places m ns ps placed,
          q,
        )
        refl
]

pub parents-IsGraph :
    (g : CommitDag) (added : List (ℕ × ℕ)) (i : ℕ) (n : Node)
    → IsGraph g added
    → get_elem? g.nodes i ≡ some n
    → parents g i ≡ some (sources_to i added)
unfolding parents
parents-IsGraph g added i n (size, half) at =
    rw (parents, at)
      (sources_from-chain (suc (length g.edges)) g.edges n.parents (in_edges i 0 added)
          (half i n at).0 (omega (arith, length-in_edges i 0 added))
        ∙ ap some (map-in_edges i 0 added))

-- For commits with distinct hashes, the graph gives for the hash of a commit the parents of that
-- commit that are themselves among the commits, in the order of the commit.
pub parents_of_hash-from_commits :
    (cs : List LooseCommit) (k : ℕ) (c : LooseCommit)
    → Pairwise (λ a b. a ≢ b) (hashes_from cs)
    → get_elem? cs k ≡ some c
    → (g : CommitDag) × (from_commits cs ≡ some g)
      × (parents_of_hash g c.hash ≡ some (known (hashes_from cs) c.parents))
unfolding parents_of_hash commit_hashes
parents_of_hash-from_commits cs k c d f =
    let (g, done, hs, kept, graph) = from_commits-Grown cs in
    let placed = map_from-IsPlaced cs in
    elim (Option-cases (lookup (map_from cs) c.hash)) [
      | inl n ↦
          absurd (
            cc (placed.1 c.hash n, contains-get_elem? (hashes_from cs) k c.hash (hash_at cs k c f)))
      | inr (i, y) ↦
          let (n, at, q) =
            node_of g.nodes i c.hash (ap (λ xs. get_elem? xs i) hs ∙ placed.0 c.hash i y) in
          let ps =
            parents-IsGraph g (edges_of (map_from cs) cs) i n graph at
            ∙ ap some (sources_to-places (map_from cs) (hashes_from cs) placed cs k c i d f y) in
          (
            g,
            done,
            rw (parents_of_hash, kept, y, ps)
                (hashes_at-places (map_from cs) g.nodes c.parents
                    (subst (IsPlaced (map_from cs)) (sym hs) placed)
                  ∙ ap (λ xs. some (known xs c.parents)) hs),
          )
    ]
