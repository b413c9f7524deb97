-- ===== src/Sedimentree/CommitDag/Canonical/Pushed.antt =====
-- src/sedimentree/commit_dag.rs: a round of the walk of `canonical_sequence` pushes what stands behind
-- the hash, in a graph made of the commits.
use mathlib.Core.Option.{some_inj}
use beelay.Prelude.{ℕ, ◌≡◌, inl, inr, refl, sym, ap, ◌∙◌, List, []}
use beelay.Prelude.{none, some, false, subst, get_elem?, Option-cases}
use beelay.Prelude.Equality.{contains, contains-get_elem?, IsIn}
use beelay.Prelude.Assoc.{lookup}
use beelay.Commit.{CommitHash}
use beelay.Sedimentree.Types.{LooseCommit, Stratum}
use beelay.Sedimentree.Strata.{commit_hash_eq}
use beelay.Sedimentree.CommitDag.{CommitDag, parents, hashes_at, parents_of_hash}
use beelay.Sedimentree.CommitDag.Places.{IsPlaced, hashes_from}
use beelay.Sedimentree.CommitDag.Build.{hash_at}
use beelay.Sedimentree.CommitDag.Relations.{known}
use beelay.Sedimentree.CommitDag.Traverse.{sort_by_key}
use beelay.Sedimentree.CommitDag.Canonical.{sequence_next, behind, strata_ending, least_level}
use beelay.Sedimentree.CommitDag.Canonical.Chosen.{IsChosen, chosen, least_level-IsChosen}
use beelay.Sedimentree.CommitDag.Canonical.Complete.{IsIn-known, sort-IsIn, IsIn-sort_self}
use beelay.Sedimentree.CommitDag.Canonical.Behind.{Behind, Reaches, known-IsIn, both-known}
use beelay.Sedimentree.CommitDag.Canonical.Behind.{behind-IsIn, checkpoint-behind, start-behind}
use beelay.Sedimentree.CommitDag.Walk.Round.{Leads}

-- A graph that has the commits' places, and gives for each commit its parents among the commits.
module _ (radix : List ℕ → ℕ → List ℕ) (cs : List LooseCommit) (ss : List Stratum) (g : CommitDag)
    (placed : IsPlaced g.node_map (hashes_from cs))
    (gives : (i : ℕ) (c : LooseCommit)
      → get_elem? cs i ≡ some c
      → parents_of_hash g c.hash ≡ some (known (hashes_from cs) c.parents))
    (commit_at : (h : CommitHash) (i : ℕ)
      → lookup g.node_map h ≡ some i
      → (j : ℕ) × (c : LooseCommit) × (get_elem? cs j ≡ some c) × (c.hash ≡ h)) where
  no_parents_at :
      (h : CommitHash) (i : ℕ)
      → lookup g.node_map h ≡ some i
      → parents g i ≡ none
      → parents_of_hash g h ≡ none
  unfolding parents_of_hash
  no_parents_at h i y n = rw (parents_of_hash, y, n) refl

  hashes_there :
      (h : CommitHash) (i : ℕ) (is : List ℕ)
      → lookup g.node_map h ≡ some i
      → parents g i ≡ some is
      → parents_of_hash g h ≡ hashes_at g.nodes is
  unfolding parents_of_hash
  hashes_there h i is y q = rw (parents_of_hash, y, q) refl

  found_at :
      (h : CommitHash) (i : ℕ) (hs : List CommitHash)
      → lookup g.node_map h ≡ some i
      → parents_of_hash g h ≡ some hs
      → sequence_next radix g ss h ≡ some (sort_by_key (λ x. x) hs)
  unfolding sequence_next
  found_at h i hs y p = elim (Option-cases (parents g i)) [
    | inl n ↦ absurd (cc (p, no_parents_at h i y n))
    | inr (is, q) ↦ let r = sym (hashes_there h i is y q) ∙ p in rw (sequence_next, y, q, r) refl
  ]

  found_none :
      (h : CommitHash)
      → lookup g.node_map h ≡ none
      → least_level radix (strata_ending h ss) ≡ none
      → sequence_next radix g ss h ≡ some []
  unfolding sequence_next
  found_none h n l = rw (sequence_next, n, l) refl

  found_stratum :
      (h : CommitHash) (s : Stratum)
      → lookup g.node_map h ≡ none
      → IsChosen radix h ss s
      → sequence_next radix g ss h ≡ some (behind s)
  unfolding sequence_next
  found_stratum h s n c = rw (sequence_next, n, least_level-IsChosen radix h ss s c) refl

  pushed-Behind :
      (h k : CommitHash) (ks : List CommitHash)
      → sequence_next radix g ss h ≡ some ks
      → IsIn ks k
      → Behind radix cs ss h k
  unfolding contains
  pushed-Behind h k ks p i = elim (Option-cases (lookup g.node_map h)) [
    | inr (idx, y) ↦
        let (j, c, f, e) = commit_at h idx y in
        let hs = known (hashes_from cs) c.parents in
        let q = found_at h idx hs y (ap (parents_of_hash g) (sym e) ∙ gives j c f) in
        let m = sort-IsIn hs k (subst (λ l. IsIn l k) (some_inj.0 (sym p ∙ q)) i) in
        Behind.parent h k c j f e (known-IsIn (hashes_from cs) c.parents k m)
          (IsIn-known (hashes_from cs) c.parents k m)
    | inl n ↦ elim (chosen radix h ss) [
      | inl (a, l) ↦ absurd (cc (subst (λ l. IsIn l k) (some_inj.0 (sym p ∙ found_none h n l)) i))
      | inr (s, c) ↦
          elim (behind-IsIn s k
            (subst (λ l. IsIn l k) (some_inj.0 (sym p ∙ found_stratum h s n c)) i)) [
              | inl j ↦ Behind.checkpoint h k s (placed.1 h n) c j
              | inr e ↦ Behind.start h k s (placed.1 h n) c e
            ]
    ]
  ]

  -- A hash that is not among the commits is not in the graph.
  outside : (h : CommitHash) → contains (hashes_from cs) h ≡ false → lookup g.node_map h ≡ none
  outside h n = elim (Option-cases (lookup g.node_map h)) [
    | inl l ↦ l
    | inr (i, y) ↦ absurd (cc (n, contains-get_elem? (hashes_from cs) i h (placed.0 h i y)))
  ]

  Behind-pushed :
      (h k : CommitHash)
      → Behind radix cs ss h k
      → (ks : List CommitHash) × (sequence_next radix g ss h ≡ some ks) × IsIn ks k
  Behind-pushed h k (Behind.parent _ _ c i f e p q) = elim (Option-cases (lookup g.node_map h)) [
    | inl n ↦
        absurd
          (cc (placed.1 h n, e, contains-get_elem? (hashes_from cs) i c.hash (hash_at cs i c f)))
    | inr (idx, y) ↦
        let hs = known (hashes_from cs) c.parents in
        (
          sort_by_key (λ x. x) hs,
          found_at h idx hs y (ap (parents_of_hash g) (sym e) ∙ gives i c f),
          IsIn-sort_self hs k (both-known (hashes_from cs) c.parents k p q),
        )
  ]
  Behind-pushed h k (Behind.checkpoint _ _ s n c i) =
      (behind s, found_stratum h s (outside h n) c, checkpoint-behind s k i)
  Behind-pushed h k (Behind.start _ _ s n c e) =
      (behind s, found_stratum h s (outside h n) c, start-behind s k e)

  pub Leads-Reaches :
      (h k : CommitHash) → Leads (sequence_next radix g ss) h k → Reaches radix cs ss h k
  Leads-Reaches h _ (Leads.here _) = Reaches.self h
  Leads-Reaches h k (Leads.through _ m _ ks p i l) =
      Reaches.step h m k (pushed-Behind h m ks p i) (Leads-Reaches m k l)

  pub Reaches-Leads :
      (h k : CommitHash) → Reaches radix cs ss h k → Leads (sequence_next radix g ss) h k
  Reaches-Leads h _ (Reaches.self _) = Leads.here h
  Reaches-Leads h k (Reaches.step _ m _ b r) =
      let (ks, p, i) = Behind-pushed h m b in Leads.through h m k ks p i (Reaches-Leads m k r)
