-- ===== src/Sedimentree/CommitDag/Canonical/Tips.antt =====
-- src/sedimentree/commit_dag.rs: the hashes from which `canonical_sequence` starts.
use beelay.Prelude.{ℕ, zero, suc, ◌≡◌, ◌⊎◌, ◌↔◌, inl, inr, refl, sym, ap, ◌∙◌, List, [], ◌∷◌, ◌++◌}
use beelay.Prelude.{none, some, true, false, Bool-cases, Option-cases, get_elem?, subst}
use beelay.Prelude.Equality.{contains, contains-get_elem?, IsIn, IsIn-cases, IsIn-here, IsIn-later}
use beelay.Prelude.Equality.{IsIn-append_cases, IsIn-append_left, IsIn-append_right}
use beelay.Prelude.Assoc.{lookup}
use mathlib.Core.Option.{some_inj}
use beelay.Commit.{CommitHash}
use beelay.Sedimentree.Types.{LooseCommit, Stratum}
use beelay.Sedimentree.Strata.{commit_hash_eq}
use beelay.Sedimentree.CommitDag.{CommitDag, heads, contains_commit}
use beelay.Sedimentree.CommitDag.Heads.{childless}
use beelay.Sedimentree.CommitDag.Places.{IsPlaced, hashes_from}
use beelay.Sedimentree.CommitDag.Canonical.{sequence_heads, strata_hashes, behind, ends_outside}
use beelay.Sedimentree.CommitDag.Canonical.Complete.{sort-IsIn, IsIn-sort_self}

-- No commit names `h` as its parent, or a stratum ends at `h` and it is not among the commits.
abbrev pub IsTip : List LooseCommit → List Stratum → CommitHash → Type 0
IsTip cs ss h =
    IsIn (childless cs (hashes_from cs)) h
    ⊎ ((s : Stratum) × (i : ℕ) × (get_elem? ss i ≡ some s)
        × (s.meta.end ≡ h)
        × (contains (hashes_from cs) h ≡ false))

end_left :
    (g : CommitDag) (s : Stratum) (ss : List Stratum)
    → contains_commit g s.meta.end ≡ true
    → ends_outside g (s ∷ ss) ≡ ends_outside g ss
unfolding ends_outside
end_left g s ss y = rw (y) refl

end_taken :
    (g : CommitDag) (s : Stratum) (ss : List Stratum)
    → contains_commit g s.meta.end ≡ false
    → ends_outside g (s ∷ ss) ≡ s.meta.end ∷ ends_outside g ss
unfolding ends_outside
end_taken g s ss n = rw (n) refl

pub ends_outside-IsIn :
    (g : CommitDag) (ss : List Stratum) (h : CommitHash)
    → IsIn (ends_outside g ss) h
    → IsIn (strata_hashes ss) h
unfolding ends_outside strata_hashes contains
ends_outside-IsIn g [] h i = absurd (cc i)
ends_outside-IsIn g (s ∷ ss) h i = elim (Bool-cases (contains_commit g s.meta.end)) [
  | inl y ↦ IsIn-later s.meta.end h (behind s ++ strata_hashes ss) (
      IsIn-append_right (behind s) (strata_hashes ss) h
        (ends_outside-IsIn g ss h (subst (λ l. IsIn l h) (end_left g s ss y) i)))
  | inr n ↦
      elim (IsIn-cases s.meta.end h (ends_outside g ss)
        (subst (λ l. IsIn l h) (end_taken g s ss n) i)) [
          | inl q ↦ IsIn-here s.meta.end h (behind s ++ strata_hashes ss) q
          | inr r ↦
              IsIn-later s.meta.end h (behind s ++ strata_hashes ss)
                (IsIn-append_right (behind s) (strata_hashes ss) h (ends_outside-IsIn g ss h r))
        ]
]

ends_outside-end :
    (g : CommitDag) (ss : List Stratum) (h : CommitHash)
    → IsIn (ends_outside g ss) h
    → (s : Stratum) × (i : ℕ) × (get_elem? ss i ≡ some s)
      × (s.meta.end ≡ h)
      × (contains_commit g h ≡ false)
unfolding ends_outside contains
ends_outside-end g [] h i = absurd (cc i)
ends_outside-end g (x ∷ ss) h i = elim (Bool-cases (contains_commit g x.meta.end)) [
  | inl y ↦
      let (s, k, f, e, n) = ends_outside-end g ss h (subst (λ l. IsIn l h) (end_left g x ss y) i) in
      (s, suc k, f, e, n)
  | inr n ↦
      elim (IsIn-cases x.meta.end h (ends_outside g ss)
        (subst (λ l. IsIn l h) (end_taken g x ss n) i)) [
          | inl q ↦ (x, 0, refl, q, subst (λ k. contains_commit g k ≡ false) q n)
          | inr r ↦ let (s, k, f, e, m) = ends_outside-end g ss h r in (s, suc k, f, e, m)
        ]
]

end-ends_outside :
    (g : CommitDag) (ss : List Stratum) (s : Stratum) (i : ℕ)
    → get_elem? ss i ≡ some s
    → contains_commit g s.meta.end ≡ false
    → IsIn (ends_outside g ss) s.meta.end
end-ends_outside g [] s i f n = absurd (cc f)
end-ends_outside g (x ∷ ss) s zero f n =
    let e = some_inj.0 f in
    subst (λ l. IsIn l s.meta.end)
      (sym (
        end_taken g x ss (subst (λ (t : Stratum). contains_commit g t.meta.end ≡ false) (sym e) n)))
      (IsIn-here x.meta.end s.meta.end (ends_outside g ss) (ap (λ (t : Stratum). t.meta.end) e))
end-ends_outside g (x ∷ ss) s (suc i) f n =
    let r = end-ends_outside g ss s i f n in
    elim (Bool-cases (contains_commit g x.meta.end)) [
      | inl y ↦ subst (λ l. IsIn l s.meta.end) (sym (end_left g x ss y)) r
      | inr m ↦
          subst (λ l. IsIn l s.meta.end) (sym (end_taken g x ss m))
            (IsIn-later x.meta.end s.meta.end (ends_outside g ss) r)
    ]

module _ (cs : List LooseCommit) (g : CommitDag)
    (placed : IsPlaced g.node_map (hashes_from cs)) where
  contains_none : (h : CommitHash) → lookup g.node_map h ≡ none → contains_commit g h ≡ false
  unfolding contains_commit
  contains_none h n = rw (contains_commit, n) refl

  contains_some :
      (h : CommitHash) (i : ℕ) → lookup g.node_map h ≡ some i → contains_commit g h ≡ true
  unfolding contains_commit
  contains_some h i y = rw (contains_commit, y) refl

  contains_commit-contains : (h : CommitHash) → contains_commit g h ≡ contains (hashes_from cs) h
  contains_commit-contains h = elim (Option-cases (lookup g.node_map h)) [
    | inl n ↦ contains_none h n ∙ sym (placed.1 h n)
    | inr (i, y) ↦
        contains_some h i y ∙ sym (contains-get_elem? (hashes_from cs) i h (placed.0 h i y))
  ]

pub sequence_heads-IsTip :
    (cs : List LooseCommit) (ss : List Stratum) (g : CommitDag)
    → IsPlaced g.node_map (hashes_from cs)
    → heads g ≡ childless cs (hashes_from cs)
    → (h : CommitHash) → IsIn (sequence_heads g ss) h ↔ IsTip cs ss h
unfolding sequence_heads
sequence_heads-IsTip cs ss g placed p h = (
  λ i.
      elim (IsIn-append_cases (heads g) (ends_outside g ss) h
        (sort-IsIn (heads g ++ ends_outside g ss) h i)) [
          | inl j ↦ inl (subst (λ l. IsIn l h) p j)
          | inr j ↦
              let (s, k, f, e, n) = ends_outside-end g ss h j in
              inr (s, k, f, e, sym (contains_commit-contains cs g placed h) ∙ n)
        ],
  λ t. IsIn-sort_self (heads g ++ ends_outside g ss) h (elim t [
    | inl i ↦ IsIn-append_left (heads g) (ends_outside g ss) h (subst (λ l. IsIn l h) (sym p) i)
    | inr (s, k, f, e, n) ↦ IsIn-append_right (heads g) (ends_outside g ss) h (
        subst (IsIn (ends_outside g ss)) e (
          end-ends_outside g ss s k f
            (ap (contains_commit g) e ∙ contains_commit-contains cs g placed h ∙ n)))
  ]),
)
