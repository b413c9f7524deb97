-- ===== src/Sedimentree/Diff/Found.antt =====
-- src/sedimentree.rs: the strata that `diff_remote` finds for the metadata that the other side lacks.
use mathlib.Core.Option.{some_inj}
use beelay.Prelude.{true, false, ◌&&◌, not, List, [], ◌∷◌, some, ℕ, map, ◌≡◌, ◌==◌}
use beelay.Prelude.{refl, sym, ap, ◌∙◌, Bool-cases, inl, inr, subst, ==-refl}
use beelay.Prelude.Equality.{◌=?◌, =?-refl, eq_of_=?, contains, option_beq, option_beq_iff}
use beelay.Prelude.Equality.{IsIn, IsIn-cases, IsIn-here, IsIn-later}
use beelay.Sedimentree.Types.{Stratum, StratumMeta, Sedimentree, SedimentreeSummary}
use beelay.Sedimentree.Strata.{commit_hash_eq, level, meta_level}
use beelay.Sedimentree.Strata.Minimal.{and_left, and_right}
use beelay.Sedimentree.Equality.{loose_commit_eq, stratum_meta_eq, stratum_eq}
use beelay.Sedimentree.Diff.{RemoteDiff, difference, is_stratum_of, find_stratum}
use beelay.Sedimentree.Diff.{find_strata, diff_remote}
use beelay.Sedimentree.Diff.Sets.{contains-difference, map-IsIn}

module _ (radix : List ℕ → ℕ → List ℕ) where
  pub is_stratum_of-ends :
      (m : StratumMeta) (s : Stratum)
      → is_stratum_of radix m s ≡ true
      → (s.meta.start ≡ m.start) × (s.meta.end ≡ m.end)
  unfolding is_stratum_of
  is_stratum_of-ends m s h =
      let a = option_beq s.meta.start m.start in
      let b = s.meta.end =? m.end in
      let c = (level radix s).zeros == (meta_level radix m).zeros in
      (
        (option_beq_iff s.meta.start m.start).0 (and_left a (b && c) h),
        eq_of_=? s.meta.end m.end (and_left b c (and_right a (b && c) h)),
      )

  -- The level of a stratum is that of its ends.
  pub ends-is_stratum_of :
      (m : StratumMeta) (s : Stratum)
      → s.meta.start ≡ m.start
      → s.meta.end ≡ m.end
      → is_stratum_of radix m s ≡ true
  unfolding is_stratum_of level meta_level
  ends-is_stratum_of m s p q =
      rw
        (
          p,
          q,
          (option_beq_iff m.start m.start).1 refl,
          =?-refl m.end,
          ==-refl (meta_level radix m).zeros,
        )
        refl

  pub found_first :
      (m : StratumMeta) (x : Stratum) (ss : List Stratum)
      → is_stratum_of radix m x ≡ true
      → find_stratum radix m (x ∷ ss) ≡ some x
  unfolding find_stratum
  found_first m x ss y = rw (y) refl

  found_rest :
      (m : StratumMeta) (x : Stratum) (ss : List Stratum)
      → is_stratum_of radix m x ≡ false
      → find_stratum radix m (x ∷ ss) ≡ find_stratum radix m ss
  unfolding find_stratum
  found_rest m x ss n = rw (n) refl

  pub found-IsIn :
      (m : StratumMeta) (s : Stratum) (ss : List Stratum)
      → find_stratum radix m ss ≡ some s
      → IsIn ss s × (is_stratum_of radix m s ≡ true)
  unfolding find_stratum
  found-IsIn m s [] h = absurd (cc h)
  found-IsIn m s (x ∷ ss) h = elim (Bool-cases (is_stratum_of radix m x)) [
    | inl y ↦
        let e = some_inj.0 (sym (found_first m x ss y) ∙ h) in
        (IsIn-here x s ss e, subst (λ z. is_stratum_of radix m z ≡ true) e y)
    | inr n ↦
        let (i, y) = found-IsIn m s ss (sym (found_rest m x ss n) ∙ h) in (IsIn-later x s ss i, y)
  ]

  -- The stratum that has some metadata is found for them, or one before it.
  pub IsIn-found :
      (m : StratumMeta) (u : Stratum) (ss : List Stratum)
      → IsIn ss u
      → u.meta ≡ m
      → (s : Stratum) × (find_stratum radix m ss ≡ some s)
  unfolding contains
  IsIn-found m u [] i p = absurd (cc i)
  IsIn-found m u (x ∷ ss) i p = elim (Bool-cases (is_stratum_of radix m x)) [
    | inl y ↦ (x, found_first m x ss y)
    | inr n ↦ elim (IsIn-cases x u ss i) [
      | inl q ↦
          let e = ap (λ (z : Stratum). z.meta) q ∙ p in
          absurd (
            cc (
              n,
              ends-is_stratum_of m x (ap (λ (z : StratumMeta). z.start) e)
                  (ap (λ (z : StratumMeta). z.end) e),
            ))
      | inr r ↦ let (s, f) = IsIn-found m u ss r p in (s, found_rest m x ss n ∙ f)
    ]
  ]

  find_strata-cons :
      (strata : List Stratum) (m : StratumMeta) (ms : List StratumMeta) (s : Stratum)
      (ss : List Stratum)
      → find_stratum radix m strata ≡ some s
      → find_strata radix strata ms ≡ some ss
      → find_strata radix strata (m ∷ ms) ≡ some (s ∷ ss)
  unfolding find_strata
  find_strata-cons strata m ms s ss p q = rw (find_strata, p, q) refl

  -- What is found for the metadata, and for which of them.
  pub record FoundAll (strata : List Stratum) (ms : List StratumMeta) : Type 0 where
    pub strata_found : List Stratum
    pub done : find_strata radix strata ms ≡ some strata_found
    pub each :
        (m : StratumMeta)
        → IsIn ms m
        → (s : Stratum) × (find_stratum radix m strata ≡ some s) × IsIn strata_found s
    pub only :
        (s : Stratum)
        → IsIn strata_found s
        → (m : StratumMeta) × IsIn ms m × (find_stratum radix m strata ≡ some s)

  find_strata-FoundAll :
      (strata : List Stratum) (ms : List StratumMeta)
      → ((m : StratumMeta) → IsIn ms m → (s : Stratum) × (find_stratum radix m strata ≡ some s))
      → FoundAll strata ms
  unfolding find_strata contains
  find_strata-FoundAll strata [] f = record {
    strata_found = [];
    done = refl;
    each = λ m i. absurd (cc i);
    only = λ s i. absurd (cc i);
  }
  find_strata-FoundAll strata (m ∷ ms) f =
      let (s, p) = f m (IsIn-here m m ms refl) in
      let rest = find_strata-FoundAll strata ms (λ x i. f x (IsIn-later m x ms i)) in
      record {
        strata_found = s ∷ rest.strata_found;
        done = find_strata-cons strata m ms s rest.strata_found p rest.done;
        each = λ x i. elim (IsIn-cases m x ms i) [
          | inl e ↦ (
            s,
            ap (λ z. find_stratum radix z strata) (sym e) ∙ p,
            IsIn-here s s rest.strata_found refl,
          )
          | inr j ↦ let (u, q, k) = rest.each x j in (u, q, IsIn-later s u rest.strata_found k)
        ];
        only = λ u i. elim (IsIn-cases s u rest.strata_found i) [
          | inl e ↦ (m, IsIn-here m m ms refl, p ∙ ap some e)
          | inr j ↦ let (x, k, q) = rest.only u j in (x, IsIn-later m x ms k, q)
        ];
      }

  unfoldable pub metas_of : Sedimentree → List StratumMeta
  metas_of t = map (λ s. s.meta) t.strata

  -- The metadata of a tree that a summary lacks belong to strata of the tree.
  pub lacked-IsIn :
      (t : Sedimentree) (remote : List StratumMeta) (m : StratumMeta)
      → IsIn (difference (metas_of t) remote) m
      → (u : Stratum) × IsIn t.strata u × (u.meta ≡ m)
  unfolding metas_of
  lacked-IsIn t remote m i =
      map-IsIn (λ s. s.meta) t.strata m
        (and_left (contains (metas_of t) m) (not (contains remote m))
          (sym (contains-difference (metas_of t) remote m) ∙ i))

  pub local_found :
      (t : Sedimentree) (remote : List StratumMeta)
      → FoundAll t.strata (difference (metas_of t) remote)
  local_found t remote =
      find_strata-FoundAll t.strata (difference (metas_of t) remote)
        (λ m i. let (u, j, p) = lacked-IsIn t remote m i in IsIn-found m u t.strata j p)

  module _ (t : Sedimentree) (remote : SedimentreeSummary) where
    -- What `diff_remote` gives.
    unfoldable pub found_diff : List Stratum → RemoteDiff
    found_diff ss = record {
      remote_strata = difference remote.strata (metas_of t);
      remote_commits = difference remote.commits t.commits;
      local_strata = ss;
      local_commits = difference t.commits remote.commits;
    }

    pub diff_remote-found :
        diff_remote radix t remote ≡ some (found_diff (local_found t remote.strata).strata_found)
    unfolding diff_remote found_diff metas_of
    diff_remote-found = rw (diff_remote, (local_found t remote.strata).done) refl
