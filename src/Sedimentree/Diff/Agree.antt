-- ===== src/Sedimentree/Diff/Agree.antt =====
-- src/sedimentree.rs and src/sedimentree/storage.rs: two trees that exchange their differences, and a
-- tree and what is saved of it.
use beelay.Prelude.{true, ◌||◌, List, [], ◌++◌, some, ℕ, map, ◌≡◌}
use beelay.Prelude.{sym, ap, ◌∙◌, Option, none, subst, All}
use beelay.Prelude.Equality.{Eq, contains}
use beelay.Prelude.Equality.{IsIn, IsIn-All}
use beelay.Sedimentree.Types.{LooseCommit, Stratum, StratumMeta, Sedimentree, SedimentreeSummary}
use beelay.Sedimentree.Strata.{commit_hash_eq}
use beelay.Sedimentree.Equality.{loose_commit_eq, stratum_meta_eq, stratum_eq}
use beelay.Sedimentree.Diff.{RemoteDiff, difference, find_stratum}
use beelay.Sedimentree.Diff.{diff_remote, diff, to_save}
use beelay.Sedimentree.Diff.Sets.{handed_over, contains-append, contains_same}
use beelay.Sedimentree.Diff.Sets.{IsIn-map, map-IsIn}
use beelay.Sedimentree.Diff.Found.{is_stratum_of-ends, found-IsIn}
use beelay.Sedimentree.Diff.Found.{metas_of, lacked-IsIn, local_found, found_diff}
use beelay.Sedimentree.Diff.Found.{diff_remote-found}

saved :
    {A : Type 0} ⦃e : Eq A⦄ (xs ys : List A) (c : A)
    → contains ys c ≡ true
    → contains (xs ++ difference ys xs) c ≡ true
saved xs ys c h =
    handed_over xs ys c
    ∙ contains-append ys (difference xs ys) c
    ∙ ap (λ b. b || contains (difference xs ys) c) h

unfoldable pub strata_of : Option Sedimentree → List Stratum
strata_of (some t) = t.strata
strata_of none = []

unfoldable pub commits_of : Option Sedimentree → List LooseCommit
commits_of (some t) = t.commits
commits_of none = []

-- Each stratum and each commit of the new tree is in the tree that is stored already, where there is
-- one, or is among those that `update` saves.
pub to_save-saves :
    (original : Option Sedimentree) (new : Sedimentree)
    → ((s : Stratum)
        → contains new.strata s ≡ true
        → contains (strata_of original ++ (to_save original new).0) s ≡ true)
      × ((c : LooseCommit)
          → contains new.commits c ≡ true
          → contains (commits_of original ++ (to_save original new).1) c ≡ true)
unfolding to_save diff strata_of commits_of
to_save-saves (some t) new = (saved t.strata new.strata, saved t.commits new.commits)
to_save-saves none new = (λ s h. h, λ c h. h)

module _ (radix : List ℕ → ℕ → List ℕ) (t : Sedimentree) (remote : SedimentreeSummary) where
  -- Where no two strata of a tree have the same ends and other metadata: `diff_remote` does not
  -- panic, the strata that it gives to upload are strata of the tree, and when each side is handed
  -- the commits, the metadata of strata and the strata that it lacks, a commit or a stratum's
  -- metadata is on one side exactly if it is on the other.
  pub diff_remote-agrees :
      ((s u : Stratum)
        → IsIn t.strata s
        → IsIn t.strata u
        → s.meta.start ≡ u.meta.start
        → s.meta.end ≡ u.meta.end
        → s.meta ≡ u.meta)
      → (d : RemoteDiff) × (diff_remote radix t remote ≡ some d)
        × All (IsIn t.strata) d.local_strata
        × ((c : LooseCommit)
            → contains (t.commits ++ d.remote_commits) c
              ≡ contains (remote.commits ++ d.local_commits) c)
        × ((m : StratumMeta)
            → contains (map (λ s. s.meta) t.strata ++ d.remote_strata) m
              ≡ contains (remote.strata ++ map (λ s. s.meta) d.local_strata) m)
  unfolding found_diff metas_of
  diff_remote-agrees one =
      let metas = metas_of radix t in
      let found = local_found radix t remote.strata in
      let ss = found.strata_found in
      let lacked = difference metas remote.strata in
      let same : (m : StratumMeta) (s : Stratum)
          → IsIn lacked m
          → find_stratum radix m t.strata ≡ some s
          → s.meta ≡ m =
        λ m s i f.
          let (u, j, p) = lacked-IsIn radix t remote.strata m i in
          let (k, y) = found-IsIn radix m s t.strata f in
          let (a, b) = is_stratum_of-ends radix m s y in
          one s u k j (a ∙ ap (λ (z : StratumMeta). z.start) (sym p))
            (b ∙ ap (λ (z : StratumMeta). z.end) (sym p))
          ∙ p in
      let agree : (m : StratumMeta) → contains lacked m ≡ contains (map (λ s. s.meta) ss) m = λ m.
        contains_same lacked (map (λ s. s.meta) ss) m
          (λ i.
            let (s, f, j) = found.each m i in
            subst (IsIn (map (λ s. s.meta) ss)) (same m s i f) (IsIn-map (λ s. s.meta) ss s j))
          (λ i.
            let (s, j, p) = map-IsIn (λ s. s.meta) ss m i in
            let (x, k, f) = found.only s j in subst (IsIn lacked) (sym (same x s k f) ∙ p) k) in
      (
        found_diff radix t remote ss,
        diff_remote-found radix t remote,
        IsIn-All (IsIn t.strata) ss
            (λ s i. let (m, j, f) = found.only s i in (found-IsIn radix m s t.strata f).0),
        handed_over t.commits remote.commits,
        λ m.
            handed_over metas remote.strata m
            ∙ contains-append remote.strata lacked m
            ∙ ap (λ b. contains remote.strata m || b) (agree m)
            ∙ sym (contains-append remote.strata (map (λ s. s.meta) ss) m),
      )
