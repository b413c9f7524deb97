-- ===== src/Sedimentree/CommitDag/Canonical/Chosen.antt =====
-- src/sedimentree/commit_dag.rs: the stratum through which `canonical_sequence` goes on from a
-- hash.
use beelay.Prelude.{ℕ, ◌<◌, ◌≤◌, ◌≡◌, ◌≢◌, ◌⊎◌, inl, inr, refl, sym, ap, ◌∙◌, arith, List, []}
use beelay.Prelude.{◌∷◌, ◌++◌, none, some, All, Bool-cases, Option-cases, subst, le_or_lt}
use beelay.Prelude.Equality.{◌=?◌, eq_of_=?, ne_of_=?, =?-eq_false}
use beelay.Prelude.Pairwise.{All-map}
use beelay.Commit.{CommitHash}
use beelay.Sedimentree.Types.{Stratum}
use beelay.Sedimentree.Strata.{commit_hash_eq, level, level_partial_cmp}
use beelay.Sedimentree.CommitDag.Canonical.{lesser_by, strata_ending, least_level}
use beelay.Sedimentree.CommitDag.Canonical.Complete.{least_one, least_more, All-least_level}
use beelay.Sedimentree.CommitDag.Canonical.Complete.{All-strata_ending}

ending_here :
    (h : CommitHash) (x : Stratum) (ss : List Stratum)
    → x.meta.end ≡ h
    → strata_ending h (x ∷ ss) ≡ x ∷ strata_ending h ss
unfolding strata_ending
ending_here h x ss p = rw ((commit_hash_eq.beq_iff x.meta.end h).1 p) refl

ending_later :
    (h : CommitHash) (x : Stratum) (ss : List Stratum)
    → x.meta.end ≢ h
    → strata_ending h (x ∷ ss) ≡ strata_ending h ss
unfolding strata_ending
ending_later h x ss p = rw (=?-eq_false x.meta.end h p) refl

ending-ends : (h : CommitHash) (ss : List Stratum) → All (λ s. s.meta.end ≡ h) (strata_ending h ss)
unfolding strata_ending
ending-ends h [] = tt
ending-ends h (x ∷ ss) = elim (Bool-cases (x.meta.end =? h)) [
  | inl y ↦ rw (y) (eq_of_=? x.meta.end h y, ending-ends h ss)
  | inr n ↦ rw (n) (ending-ends h ss)
]

All-append {ℓ κ} :
    {A : Type ℓ} (P : A → Type κ) (xs ys : List A) → All P xs → All P ys → All P (xs ++ ys)
All-append P [] ys h k = k
All-append P (x ∷ xs) ys (p, h) k = (p, All-append P xs ys h k)

module _ (radix : List ℕ → ℕ → List ℕ) where
  abbrev pub zeros_of : Stratum → ℕ
  zeros_of s = (level radix s).zeros

  -- Of the strata that end at `h` the one whose level has the most zeros, and of several such the
  -- first.
  pub record IsChosen (h : CommitHash) (ss : List Stratum) (s : Stratum) : Type 0 where
    pub before : List Stratum
    pub after : List Stratum
    pub split : ss ≡ before ++ s ∷ after
    pub ends : s.meta.end ≡ h
    pub over : All (λ t. (t.meta.end ≢ h) ⊎ (zeros_of t < zeros_of s)) before
    pub under : All (λ t. (t.meta.end ≢ h) ⊎ (zeros_of t ≤ zeros_of s)) after

  lesser_later :
      (t x : Stratum)
      → zeros_of x < zeros_of t
      → lesser_by (level_partial_cmp (level radix t) (level radix x)) t x ≡ t
  unfolding lesser_by level_partial_cmp
  lesser_later t x h = ground arith

  lesser_first :
      (t x : Stratum)
      → zeros_of t ≤ zeros_of x
      → lesser_by (level_partial_cmp (level radix t) (level radix x)) t x ≡ x
  unfolding lesser_by level_partial_cmp
  lesser_first t x h = ground arith

  first-chosen :
      (h : CommitHash) (s : Stratum) (after : List Stratum)
      → s.meta.end ≡ h
      → All (λ t. (t.meta.end ≢ h) ⊎ (zeros_of t ≤ zeros_of s)) after
      → least_level radix (strata_ending h (s ∷ after)) ≡ some s
  first-chosen h s after p a =
      ap (least_level radix) (ending_here h s after p)
      ∙ elim (Option-cases (least_level radix (strata_ending h after))) [
        | inl n ↦ least_one radix s (strata_ending h after) n
        | inr (t, y) ↦
            let e : t.meta.end ≡ h =
              All-least_level radix (λ u. u.meta.end ≡ h) (strata_ending h after) t
                (ending-ends h after) y in
            let le =
              All-least_level radix (λ u. (u.meta.end ≢ h) ⊎ (zeros_of u ≤ zeros_of s))
                (strata_ending h after) t
                (All-strata_ending (λ u. (u.meta.end ≢ h) ⊎ (zeros_of u ≤ zeros_of s)) h after a)
                y in
            least_more radix s t (strata_ending h after) y
            ∙ ap some (elim le [ inl d ↦ absurd (d e) | inr l ↦ lesser_first t s l ])
      ]

  split-chosen :
      (h : CommitHash) (s : Stratum) (before after : List Stratum)
      → s.meta.end ≡ h
      → All (λ t. (t.meta.end ≢ h) ⊎ (zeros_of t < zeros_of s)) before
      → All (λ t. (t.meta.end ≢ h) ⊎ (zeros_of t ≤ zeros_of s)) after
      → least_level radix (strata_ending h (before ++ s ∷ after)) ≡ some s
  split-chosen h s [] after p o u = first-chosen h s after p u
  split-chosen h s (b ∷ bs) after p (q, o) u =
      let rest = split-chosen h s bs after p o u in
      elim (Bool-cases (b.meta.end =? h)) [
        | inr n ↦
            ap (least_level radix) (ending_later h b (bs ++ s ∷ after) (ne_of_=? b.meta.end h n))
            ∙ rest
        | inl y ↦
            let e = eq_of_=? b.meta.end h y in
            ap (least_level radix) (ending_here h b (bs ++ s ∷ after) e)
            ∙ least_more radix b s (strata_ending h (bs ++ s ∷ after)) rest
            ∙ ap some (elim q [ inl d ↦ absurd (d e) | inr l ↦ lesser_later s b l ])
      ]

  pub least_level-IsChosen :
      (h : CommitHash) (ss : List Stratum) (s : Stratum)
      → IsChosen h ss s
      → least_level radix (strata_ending h ss) ≡ some s
  least_level-IsChosen h ss s c =
      ap (λ l. least_level radix (strata_ending h l)) c.split
      ∙ split-chosen h s c.before c.after c.ends c.over c.under

  weaker :
      (h : CommitHash) (t x : Stratum) (ss : List Stratum)
      → zeros_of t ≤ zeros_of x
      → IsChosen h ss t
      → All (λ u. (u.meta.end ≢ h) ⊎ (zeros_of u ≤ zeros_of x)) ss
  weaker h t x ss l c =
      let P : Stratum → Type 0 = λ u. (u.meta.end ≢ h) ⊎ (zeros_of u ≤ zeros_of x) in
      subst (All P) (sym c.split) (
        All-append P c.before (t ∷ c.after)
          (All-map (λ u. (u.meta.end ≢ h) ⊎ (zeros_of u < zeros_of t)) P
            (λ u q. elim q [ inl d ↦ inl d | inr m ↦ inr (omega arith) ]) c.before c.over)
          (
            inr l,
            All-map (λ u. (u.meta.end ≢ h) ⊎ (zeros_of u ≤ zeros_of t)) P
                (λ u q. elim q [ inl d ↦ inl d | inr m ↦ inr (omega arith) ]) c.after c.under,
          ))

  IsChosen-later :
      (h : CommitHash) (x s : Stratum) (ss : List Stratum)
      → (x.meta.end ≢ h) ⊎ (zeros_of x < zeros_of s)
      → IsChosen h ss s
      → IsChosen h (x ∷ ss) s
  IsChosen-later h x s ss o c = record {
    before = x ∷ c.before;
    after = c.after;
    split = ap (λ l. x ∷ l) c.split;
    ends = c.ends;
    over = (o, c.over);
    under = c.under;
  }

  IsChosen-here :
      (h : CommitHash) (x : Stratum) (ss : List Stratum)
      → x.meta.end ≡ h
      → All (λ u. (u.meta.end ≢ h) ⊎ (zeros_of u ≤ zeros_of x)) ss
      → IsChosen h (x ∷ ss) x
  IsChosen-here h x ss p u = record {
    before = [];
    after = ss;
    split = refl;
    ends = p;
    over = tt;
    under = u;
  }

  -- No stratum ends at `h`, or one is chosen.
  pub chosen :
      (h : CommitHash) (ss : List Stratum)
      → (All (λ s. s.meta.end ≢ h) ss × (least_level radix (strata_ending h ss) ≡ none))
        ⊎ ((s : Stratum) × IsChosen h ss s)
  unfolding least_level strata_ending
  chosen h [] = inl (tt, refl)
  chosen h (x ∷ ss) = elim (Bool-cases (x.meta.end =? h)) [
    | inr n ↦
        let d = ne_of_=? x.meta.end h n in
        elim (chosen h ss) [
          | inl (a, l) ↦ inl ((d, a), ap (least_level radix) (ending_later h x ss d) ∙ l)
          | inr (s, c) ↦ inr (s, IsChosen-later h x s ss (inl d) c)
        ]
    | inl y ↦
        let e = eq_of_=? x.meta.end h y in
        elim (chosen h ss) [
          | inl (a, l) ↦ inr (
            x,
            IsChosen-here h x ss e (
                All-map (λ s. s.meta.end ≢ h) (λ u. (u.meta.end ≢ h) ⊎ (zeros_of u ≤ zeros_of x))
                  (λ u d. inl d) ss a),
          )
          | inr (t, c) ↦ elim (le_or_lt (zeros_of t) (zeros_of x)) [
            | inl l ↦ inr (x, IsChosen-here h x ss e (weaker h t x ss l c))
            | inr l ↦ inr (t, IsChosen-later h x t ss (inr l) c)
          ]
        ]
  ]
