-- ===== src/Sedimentree/CommitDag/Canonical/Complete.antt =====
-- src/sedimentree/commit_dag.rs: `canonical_sequence` gives a sequence, of what its heads lead to.
use Prim.Native.Nat.{Ordering}
use mathlib.Core.Option.{some_inj}
use beelay.Prelude.{ℕ, ◌≡◌, refl, sym, ap, ◌∙◌, List, [], ◌∷◌, ◌++◌, Option, none, some}
use beelay.Prelude.{Bool-cases, inl, inr, subst, ◌↔◌, Option-cases, map, All, true, false}
use beelay.Prelude.Equality.{◌=?◌, contains, IsIn, IsIn-cases, IsIn-here, IsIn-later}
use beelay.Prelude.Equality.{IsIn-append_cases, IsIn-append_left, IsIn-append_right}
use beelay.Prelude.Assoc.{lookup}
use beelay.Prelude.Pairwise.{All-map}
use beelay.Commit.{CommitHash}
use beelay.Sedimentree.Types.{Stratum}
use beelay.Sedimentree.Strata.{commit_hash_eq, level, level_partial_cmp}
use beelay.Sedimentree.CommitDag.{CommitDag, commit_hashes, parents, hashes_at, parents_of_hash}
use beelay.Sedimentree.CommitDag.Walk.Round.{Leads}
use beelay.Sedimentree.CommitDag.Walk.Complete.{collect-Leads}
use beelay.Sedimentree.CommitDag.Traverse.{sort_by_key}
use beelay.Sedimentree.CommitDag.Canonical.{lesser_by, sequence_next, sequence_from}
use beelay.Sedimentree.CommitDag.Canonical.{sequence_fuel, strata_hashes, strata_ending, behind}
use beelay.Sedimentree.CommitDag.Canonical.{least_level}
use beelay.Sedimentree.CommitDag.Traverse.Sorted.{IsIn-sort}
use beelay.Sedimentree.CommitDag.Relations.{known}

map-id : (hs : List CommitHash) → map (λ h. h) hs ≡ hs
map-id [] = refl
map-id (h ∷ hs) = ap (λ xs. h ∷ xs) (map-id hs)

pub sort-IsIn :
    (hs : List CommitHash) (h : CommitHash) → IsIn (sort_by_key (λ x. x) hs) h → IsIn hs h
sort-IsIn hs h i =
    subst (λ l. IsIn l h) (map-id hs)
      ((IsIn-sort (λ x. x) (λ x. x) hs h).0
        (subst (λ l. IsIn l h) (sym (map-id (sort_by_key (λ x. x) hs))) i))

pub IsIn-sort_self :
    (hs : List CommitHash) (h : CommitHash) → IsIn hs h → IsIn (sort_by_key (λ x. x) hs) h
IsIn-sort_self hs h i =
    subst (λ l. IsIn l h) (map-id (sort_by_key (λ x. x) hs))
      ((IsIn-sort (λ x. x) (λ x. x) hs h).1 (subst (λ l. IsIn l h) (sym (map-id hs)) i))

pub known_take :
    (hs : List CommitHash) (p : CommitHash) (ps : List CommitHash)
    → contains hs p ≡ true
    → known hs (p ∷ ps) ≡ p ∷ known hs ps
unfolding known
known_take hs p ps y = rw (y) refl

pub known_skip :
    (hs : List CommitHash) (p : CommitHash) (ps : List CommitHash)
    → contains hs p ≡ false
    → known hs (p ∷ ps) ≡ known hs ps
unfolding known
known_skip hs p ps n = rw (n) refl

pub IsIn-known : (hs ps : List CommitHash) (h : CommitHash) → IsIn (known hs ps) h → IsIn hs h
unfolding known contains
IsIn-known hs [] h i = absurd (cc i)
IsIn-known hs (p ∷ ps) h i = elim (Bool-cases (contains hs p)) [
  | inl y ↦ elim (IsIn-cases p h (known hs ps) (subst (λ l. IsIn l h) (known_take hs p ps y) i)) [
    | inl q ↦ subst (IsIn hs) q y
    | inr r ↦ IsIn-known hs ps h r
  ]
  | inr n ↦ IsIn-known hs ps h (subst (λ l. IsIn l h) (known_skip hs p ps n) i)
]

pub All-strata_ending :
    (P : Stratum → Type 0) (k : CommitHash) (ss : List Stratum)
    → All P ss
    → All P (strata_ending k ss)
unfolding strata_ending
All-strata_ending P k [] a = tt
All-strata_ending P k (s ∷ ss) (p, a) = elim (Bool-cases (s.meta.end =? k)) [
  | inl y ↦ rw (y) (p, All-strata_ending P k ss a)
  | inr n ↦ rw (n) (All-strata_ending P k ss a)
]

either :
    (P : Stratum → Type 0) (o : Option Ordering) (t s : Stratum) → P t → P s → P (lesser_by o t s)
unfolding lesser_by
either P none t s p q = q
either P (some Ordering.lt) t s p q = p
either P (some Ordering.eq) t s p q = q
either P (some Ordering.gt) t s p q = q

module _ (to_radix_be : List ℕ → ℕ → List ℕ) where
  pub least_one :
      (x : Stratum) (ss : List Stratum)
      → least_level to_radix_be ss ≡ none
      → least_level to_radix_be (x ∷ ss) ≡ some x
  unfolding least_level
  least_one x ss n = rw (least_level, n) refl

  pub least_more :
      (x t : Stratum) (ss : List Stratum)
      → least_level to_radix_be ss ≡ some t
      → least_level to_radix_be (x ∷ ss)
        ≡ some (lesser_by (level_partial_cmp (level to_radix_be t) (level to_radix_be x)) t x)
  unfolding least_level
  least_more x t ss y = rw (least_level, y) refl

  pub All-least_level :
      (P : Stratum → Type 0) (ss : List Stratum) (s : Stratum)
      → All P ss
      → least_level to_radix_be ss ≡ some s
      → P s
  unfolding least_level
  All-least_level P [] s a h = absurd (cc h)
  All-least_level P (x ∷ ss) s (p, a) h = elim (Option-cases (least_level to_radix_be ss)) [
    | inl n ↦ subst P (some_inj.0 (sym (least_one x ss n) ∙ h)) p
    | inr (t, y) ↦ subst P (some_inj.0 (sym (least_more x t ss y) ∙ h)) (
        either P (level_partial_cmp (level to_radix_be t) (level to_radix_be x)) t x
          (All-least_level P ss t a y) p)
  ]

  behinds :
      (ss : List Stratum)
      → All (λ s. (h : CommitHash) → IsIn (behind s) h → IsIn (strata_hashes ss) h) ss
  unfolding strata_hashes
  behinds [] = tt
  behinds (s ∷ ss) = (
    λ h i.
        IsIn-later s.meta.end h (behind s ++ strata_hashes ss)
          (IsIn-append_left (behind s) (strata_hashes ss) h i),
    All-map (λ t. (h : CommitHash) → IsIn (behind t) h → IsIn (strata_hashes ss) h)
        (λ t. (h : CommitHash) → IsIn (behind t) h → IsIn (strata_hashes (s ∷ ss)) h)
        (λ t f h i.
          IsIn-later s.meta.end h (behind s ++ strata_hashes ss)
            (IsIn-append_right (behind s) (strata_hashes ss) h (f h i)))
        ss (behinds ss),
  )

  -- `sequence_next` on the hashes that a sequence can have, for a graph that gives the parents that
  -- it has.
  module _ (g : CommitDag) (ss : List Stratum)
      (gives : (h : CommitHash)
        → (ps : List CommitHash) × (parents_of_hash g h ≡ some (known (commit_hashes g) ps))) where
    missing :
        (h : CommitHash) (idx : ℕ)
        → lookup g.node_map h ≡ some idx
        → parents g idx ≡ none
        → parents_of_hash g h ≡ none
    unfolding parents_of_hash
    missing h idx y n = rw (parents_of_hash, y, n) refl

    found_at :
        (h : CommitHash) (idx : ℕ) (is : List ℕ)
        → lookup g.node_map h ≡ some idx
        → parents g idx ≡ some is
        → parents_of_hash g h ≡ hashes_at g.nodes is
    unfolding parents_of_hash
    found_at h idx is y q = rw (parents_of_hash, y, q) refl

    parents_in :
        (h : CommitHash) (idx : ℕ) (hs : List CommitHash)
        → lookup g.node_map h ≡ some idx
        → parents_of_hash g h ≡ some hs
        → (is : List ℕ) × (parents g idx ≡ some is) × (hashes_at g.nodes is ≡ some hs)
    parents_in h idx hs y p = elim (Option-cases (parents g idx)) [
      | inl n ↦ absurd (cc (p, missing h idx y n))
      | inr (is, q) ↦ (is, q, sym (found_at h idx is y q) ∙ p)
    ]

    sequence_next-closed :
        (h : CommitHash)
        → (ks : List CommitHash) × (sequence_next to_radix_be g ss h ≡ some ks)
          × ((x : CommitHash) → IsIn ks x → IsIn (commit_hashes g ++ strata_hashes ss) x)
    unfolding sequence_next parents_of_hash contains
    sequence_next-closed h = elim (Option-cases (lookup g.node_map h)) [
      | inl n ↦ elim (Option-cases (least_level to_radix_be (strata_ending h ss))) [
        | inl l ↦ ([], rw (sequence_next, n, l) refl, λ x i. absurd (cc i))
        | inr (s, l) ↦ (
          behind s,
          rw (sequence_next, n, l) refl,
          λ x i. IsIn-append_right (commit_hashes g) (strata_hashes ss) x (
              All-least_level
                (λ t. (y : CommitHash) → IsIn (behind t) y → IsIn (strata_hashes ss) y)
                (strata_ending h ss) s
                (All-strata_ending
                  (λ t. (y : CommitHash) → IsIn (behind t) y → IsIn (strata_hashes ss) y) h ss
                  (behinds ss))
                l x i),
        )
      ]
      | inr (idx, y) ↦
          let (ps, p) = gives h in
          let (is, q, r) = parents_in h idx (known (commit_hashes g) ps) y p in
          let hs = known (commit_hashes g) ps in
          (
            sort_by_key (λ x. x) hs,
            rw (sequence_next, y, q, r) refl,
            λ x i.
                IsIn-append_left (commit_hashes g) (strata_hashes ss) x
                  (IsIn-known (commit_hashes g) ps x (sort-IsIn hs x i)),
          )
    ]

    -- The walks from heads that are among the hashes that a sequence can have.
    pub sequence_from-Leads :
        (heads : List CommitHash)
        → ((h : CommitHash) → IsIn heads h → IsIn (commit_hashes g ++ strata_hashes ss) h)
        → (hs : List CommitHash) × (sequence_from to_radix_be g ss heads ≡ some hs)
          × ((h : CommitHash)
              → IsIn hs h
                ↔ ((s : CommitHash) × IsIn heads s × Leads (sequence_next to_radix_be g ss) s h))
    unfolding sequence_from sequence_fuel contains
    sequence_from-Leads [] within =
        ([], refl, λ h. (λ x. absurd (cc x), λ (s, n, _). absurd (cc n)))
    sequence_from-Leads (s ∷ heads) within =
        let (ks, read, _, iff) =
          collect-Leads (sequence_next to_radix_be g ss) (commit_hashes g ++ strata_hashes ss)
            (λ h i. sequence_next-closed h) s (within s (IsIn-here s s heads refl)) in
        let (hs, done, all) =
          sequence_from-Leads heads (λ h i. within h (IsIn-later s h heads i)) in
        (
          ks ++ hs,
          rw (sequence_from, read, done) refl,
          λ h. (
            λ x. elim (IsIn-append_cases ks hs h x) [
              | inl i ↦ (s, IsIn-here s s heads refl, (iff h).0 i)
              | inr i ↦ let (r, j, l) = (all h).0 i in (r, IsIn-later s r heads j, l)
            ],
            λ (r, j, l). elim (IsIn-cases s r heads j) [
              | inl q ↦
                  IsIn-append_left ks hs h
                    ((iff h).1 (subst (λ k. Leads (sequence_next to_radix_be g ss) k h) (sym q) l))
              | inr i ↦ IsIn-append_right ks hs h ((all h).1 (r, i, l))
            ],
          ),
        )
