-- ===== src/Sedimentree/Diff.antt =====
-- src/sedimentree.rs: the summary of a tree, and what a tree and the summary of another lack of each
-- other.
pub mod Sets
pub mod Found
pub mod Agree
use beelay.Prelude.{Bool, true, false, ◌&&◌, not, List, [], ◌∷◌, Option, none, some, ℕ, map, ◌==◌}
use beelay.Prelude.{if◌then◌else◌}
use beelay.Prelude.Equality.{Eq, ◌=?◌, array_eq, list_eq, list_beq, option_beq, contains}
use beelay.Sedimentree.Types.{LooseCommit, Stratum, StratumMeta, Sedimentree, SedimentreeSummary}
use beelay.Sedimentree.Strata.{commit_hash_eq, stratum_meta_beq, level, meta_level}
use beelay.Sedimentree.Equality.{loose_commit_eq, stratum_meta_eq, stratum_eq}

pub record RemoteDiff : Type 0 where
  pub remote_strata : List StratumMeta
  pub remote_commits : List LooseCommit
  pub local_strata : List Stratum
  pub local_commits : List LooseCommit

unfoldable pub summarize : Sedimentree → SedimentreeSummary
summarize t = record { strata = map (λ s. s.meta) t.strata; commits = t.commits }

unfoldable pub into_remote_diff : SedimentreeSummary → RemoteDiff
into_remote_diff s = record {
  remote_strata = s.strata;
  remote_commits = s.commits;
  local_strata = [];
  local_commits = [];
}

unfoldable pub into_local_diff : Sedimentree → RemoteDiff
into_local_diff t = record {
  remote_strata = [];
  remote_commits = [];
  local_strata = t.strata;
  local_commits = t.commits;
}

module _ {ℓ} {A : Type ℓ} ⦃e : Eq A⦄ where
  -- `HashSet::from_iter`
  unfoldable pub to_set : List A → List A
  unfolding contains
  to_set [] = []
  to_set (x ∷ xs) = if contains xs x then to_set xs else x ∷ to_set xs

  unfoldable pub without : List A → List A → List A
  unfolding contains
  without [] ys = []
  without (x ∷ xs) ys = if contains ys x then without xs ys else x ∷ without xs ys

  -- `HashSet::difference` of the sets of the elements.
  unfoldable pub difference : List A → List A → List A
  unfolding to_set without
  difference xs ys = without (to_set xs) ys

pub record Diff : Type 0 where
  pub left_missing_strata : List Stratum
  pub left_missing_commits : List LooseCommit
  pub right_missing_strata : List Stratum
  pub right_missing_commits : List LooseCommit

unfoldable pub diff : Sedimentree → Sedimentree → Diff
unfolding difference
diff t other = record {
  left_missing_strata = difference t.strata other.strata;
  left_missing_commits = difference t.commits other.commits;
  right_missing_strata = difference other.strata t.strata;
  right_missing_commits = difference other.commits t.commits;
}

-- What `update` of src/sedimentree/storage.rs saves.
unfoldable pub to_save : Option Sedimentree → Sedimentree → List Stratum × List LooseCommit
unfolding diff
to_save (some original) new =
    let d = diff original new in (d.right_missing_strata, d.right_missing_commits)
to_save none new = (new.strata, new.commits)

module _ (to_radix_be : List ℕ → ℕ → List ℕ) where
  -- The test by which `diff_remote` looks for the stratum of some metadata.
  unfoldable pub is_stratum_of : StratumMeta → Stratum → Bool
  unfolding option_beq level meta_level
  is_stratum_of m s =
      option_beq s.meta.start m.start
      && (s.meta.end =? m.end && (level to_radix_be s).zeros == (meta_level to_radix_be m).zeros)

  unfoldable pub find_stratum : StratumMeta → List Stratum → Option Stratum
  unfolding is_stratum_of
  find_stratum m [] = none
  find_stratum m (s ∷ ss) = if is_stratum_of m s then some s else find_stratum m ss

  -- `none` is the panic of `unwrap`.
  unfoldable pub find_strata : List Stratum → List StratumMeta → Option (List Stratum)
  unfolding find_stratum
  find_strata strata [] = some []
  find_strata strata (m ∷ ms) = elim (find_stratum m strata) [
    | none ↦ none
    | some s ↦ elim (find_strata strata ms) [ none ↦ none | some ss ↦ some (s ∷ ss) ]
  ]

  unfoldable pub diff_remote : Sedimentree → SedimentreeSummary → Option RemoteDiff
  unfolding difference find_strata
  diff_remote t remote =
      let metas = map (λ s. s.meta) t.strata in
      elim (find_strata t.strata (difference metas remote.strata)) [
        | none ↦ none
        | some local_strata ↦ some (record {
          remote_strata = difference remote.strata metas;
          remote_commits = difference remote.commits t.commits;
          local_strata = local_strata;
          local_commits = difference t.commits remote.commits;
        })
      ]
