-- ===== src/Sedimentree/CommitDag/Canonical/Sequence.antt =====
-- src/sedimentree/commit_dag.rs: `canonical_sequence` of a graph made by `from_commits`.
use mathlib.Core.Option.{some_inj}
use beelay.Prelude.{ℕ, ◌≡◌, ◌≢◌, refl, sym, ap, ◌∙◌, List, [], ◌∷◌, ◌++◌, none, some}
use beelay.Prelude.{inl, inr, subst, ◌↔◌, Option-cases, get_elem?}
use beelay.Prelude.Equality.{contains, IsIn, IsIn-cases, IsIn-here, IsIn-later, IsIn-append_cases}
use beelay.Prelude.Equality.{IsIn-append_left, IsIn-append_right}
use beelay.Prelude.Assoc.{lookup}
use beelay.Prelude.Pairwise.{Pairwise}
use beelay.Commit.{CommitHash}
use beelay.Sedimentree.Types.{LooseCommit, Stratum}
use beelay.Sedimentree.Strata.{commit_hash_eq}
use beelay.Sedimentree.CommitDag.{CommitDag, from_commits, commit_hashes, parents_of_hash, Node}
use beelay.Sedimentree.CommitDag.{heads_of, hashes_of, heads}
use beelay.Sedimentree.CommitDag.Heads.{heads-from_commits}
use beelay.Sedimentree.CommitDag.Places.{IsPlaced, hashes_from, map_from-IsPlaced}
use beelay.Sedimentree.CommitDag.Canonical.{sequence_heads, canonical_sequence}
use beelay.Sedimentree.CommitDag.Canonical.{strata_hashes, ends_outside}
use beelay.Sedimentree.CommitDag.Canonical.Behind.{Reaches}
use beelay.Sedimentree.CommitDag.Canonical.Pushed.{Leads-Reaches, Reaches-Leads}
use beelay.Sedimentree.CommitDag.Canonical.Tips.{IsTip, ends_outside-IsIn, sequence_heads-IsTip}
use beelay.Sedimentree.CommitDag.Relations.{known, parents_of_hash-from_commits}
use beelay.Sedimentree.CommitDag.Canonical.Complete.{sort-IsIn, sequence_from-Leads}
use beelay.Sedimentree.CommitDag.Build.{from_commits-Grown}
use beelay.Sedimentree.CommitDag.Traverse.Lookups.{commit_of}

head_taken :
    (n : Node) (ns : List Node) → n.children ≡ none → heads_of (n ∷ ns) ≡ n.hash ∷ heads_of ns
unfolding heads_of
head_taken n ns p = rw (heads_of, p) refl

head_left :
    (n : Node) (ns : List Node) (e : ℕ) → n.children ≡ some e → heads_of (n ∷ ns) ≡ heads_of ns
unfolding heads_of
head_left n ns e p = rw (heads_of, p) refl

heads_of-IsIn : (ns : List Node) (h : CommitHash) → IsIn (heads_of ns) h → IsIn (hashes_of ns) h
unfolding heads_of hashes_of contains
heads_of-IsIn [] h i = absurd (cc i)
heads_of-IsIn (n ∷ ns) h i = elim (Option-cases n.children) [
  | inl p ↦ elim (IsIn-cases n.hash h (heads_of ns) (subst (λ l. IsIn l h) (head_taken n ns p) i)) [
    | inl q ↦ IsIn-here n.hash h (hashes_of ns) q
    | inr r ↦ IsIn-later n.hash h (hashes_of ns) (heads_of-IsIn ns h r)
  ]
  | inr (e, p) ↦
      IsIn-later n.hash h (hashes_of ns)
        (heads_of-IsIn ns h (subst (λ l. IsIn l h) (head_left n ns e p) i))
]

-- The heads are among the hashes that a sequence can have.
sequence_heads-IsIn :
    (g : CommitDag) (ss : List Stratum) (h : CommitHash)
    → IsIn (sequence_heads g ss) h
    → IsIn (commit_hashes g ++ strata_hashes ss) h
unfolding sequence_heads heads commit_hashes
sequence_heads-IsIn g ss h i =
    elim (IsIn-append_cases (heads_of g.nodes) (ends_outside g ss) h
      (sort-IsIn (heads_of g.nodes ++ ends_outside g ss) h i)) [
        | inl j ↦
            IsIn-append_left (hashes_of g.nodes) (strata_hashes ss) h (heads_of-IsIn g.nodes h j)
        | inr j ↦
            IsIn-append_right (hashes_of g.nodes) (strata_hashes ss) h (ends_outside-IsIn g ss h j)
      ]

pub no_parents :
    (g : CommitDag) (h : CommitHash) → lookup g.node_map h ≡ none → parents_of_hash g h ≡ some []
unfolding parents_of_hash
no_parents g h n = rw (parents_of_hash, n) refl

-- For commits with distinct hashes, `canonical_sequence` of their graph and any strata is read to its
-- end with its fuel, and has just the hashes that its tips reach. The tips are the hashes that no
-- commit names as its parent and the ends of the strata that are not among the commits. A commit
-- leads to its parents among the commits, and a hash that is not a commit's to the checkpoints and
-- the start of the stratum that ends there, of several the one of the most zeros, and of those the
-- first.
pub canonical_sequence-from_commits :
    (to_radix_be : List ℕ → ℕ → List ℕ) (cs : List LooseCommit) (ss : List Stratum)
    → Pairwise (λ a b. a ≢ b) (hashes_from cs)
    → (g : CommitDag) × (hs : List CommitHash) × (from_commits cs ≡ some g)
      × (canonical_sequence to_radix_be g ss ≡ some hs)
      × ((h : CommitHash)
          → IsIn hs h ↔ ((s : CommitHash) × IsTip cs ss s × Reaches to_radix_be cs ss s h))
unfolding canonical_sequence known
canonical_sequence-from_commits to_radix_be cs ss d =
    let (g, done, hashes, kept, _) = from_commits-Grown cs in
    let (g', done', heads_are) = heads-from_commits cs d in
    let placed = subst (λ m. IsPlaced m (hashes_from cs)) (sym kept) (map_from-IsPlaced cs) in
    let gives : (i : ℕ) (c : LooseCommit)
        → get_elem? cs i ≡ some c
        → parents_of_hash g c.hash ≡ some (known (hashes_from cs) c.parents) =
      λ i c f.
        let (g'', done'', p) = parents_of_hash-from_commits cs i c d f in
        ap (λ x. parents_of_hash x c.hash) (some_inj.0 (sym done ∙ done'')) ∙ p in
    let commit_at : (h : CommitHash) (i : ℕ)
        → lookup g.node_map h ≡ some i
        → (j : ℕ) × (c : LooseCommit) × (get_elem? cs j ≡ some c) × (c.hash ≡ h) =
      λ h i y. let (c, f, e) = commit_of cs i h (placed.0 h i y) in (i, c, f, e) in
    let tips =
      sequence_heads-IsTip cs ss g placed (ap heads (some_inj.0 (sym done ∙ done')) ∙ heads_are) in
    let (hs, q, iff) =
      sequence_from-Leads to_radix_be g ss
        (λ h. elim (Option-cases (lookup g.node_map h)) [
          | inl n ↦ ([], no_parents g h n)
          | inr (i, y) ↦
              let (j, c, f, e) = commit_at h i y in
              (
                c.parents,
                ap (parents_of_hash g) (sym e)
                    ∙ gives j c f
                    ∙ ap (λ xs. some (known xs c.parents)) (sym hashes),
              )
        ])
        (sequence_heads g ss) (λ h i. sequence_heads-IsIn g ss h i) in
    (
      g,
      hs,
      done,
      q,
      λ h. (
        λ i.
            let (s, t, l) = (iff h).0 i in
            (s, (tips s).0 t, Leads-Reaches to_radix_be cs ss g placed gives commit_at s h l),
        λ (s, t, r).
            (iff h).1
              (s, (tips s).1 t, Reaches-Leads to_radix_be cs ss g placed gives commit_at s h r),
      ),
    )
