-- ===== src/Sedimentree/Bundles.antt =====
-- src/sedimentree.rs: `heads`, `into_items` and `missing_bundles`.
use beelay.Prelude.{ℕ, List, [], ◌∷◌, ◌++◌, Option, none, some, Bool, if◌then◌else◌, any, ◌&&◌}
use beelay.Prelude.{not, ltb, ◌==◌, map}
use beelay.Prelude.Equality.{option_beq}
use beelay.Sedimentree.CommitDag
use beelay.Ids.{DocumentId}
use beelay.Commit.{CommitHash}
use beelay.Sedimentree.Types.{LooseCommit, Stratum, Sedimentree}
use beelay.Sedimentree.Strata.{commit_hash_eq, Level, level_of_hash, top_strata_level}
use beelay.Sedimentree.Strata.{supports_block}
use beelay.Sedimentree.CommitDag.{CommitDag, from_commits, contains_commit}
use beelay.Sedimentree.CommitDag.Canonical.{canonical_sequence}
use beelay.Sedimentree.CommitDag.Simplify.{level_le, minimize}

pub data CommitOrStratum : Type 0 where
  commit : LooseCommit → CommitOrStratum
  stratum : Stratum → CommitOrStratum

unfoldable pub into_items : Sedimentree → List CommitOrStratum
into_items tree =
    map (λ s. CommitOrStratum.stratum s) tree.strata
    ++ map (λ c. CommitOrStratum.commit c) tree.commits

pub record BundleSpec : Type 0 where
  pub doc : DocumentId
  pub start : Option CommitHash
  pub end : CommitHash
  pub checkpoints : List CommitHash

-- `Some(s.end()) == stratum.start()`
unfoldable pub is_start : List Stratum → Stratum → Bool
unfolding any option_beq
is_start strata t = any (λ s. option_beq (some s.meta.end) t.meta.start) strata

-- The ends of strata that are pushed: of those that begin at the end of no stratum, and whose end is
-- not in the graph.
unfoldable pub stratum_heads : CommitDag → List Stratum → List Stratum → List CommitHash
unfolding is_start contains_commit
stratum_heads dag strata [] = []
stratum_heads dag strata (s ∷ ss) =
    if not (is_start strata s) && not (contains_commit dag s.meta.end)
    then s.meta.end ∷ stratum_heads dag strata ss
    else stratum_heads dag strata ss

-- `runs_by_level`, a map in the order of the levels.
abbrev pub Runs : Type 0
Runs = List (Level × (CommitHash × List CommitHash))

unfoldable pub insert_run : Level → CommitHash × List CommitHash → Runs → Runs
insert_run level run [] = (level, run) ∷ []
insert_run level run ((l, r) ∷ runs) =
    if ltb level.zeros l.zeros
    then (level, run) ∷ (l, r) ∷ runs
    else if level.zeros == l.zeros
    then (level, run) ∷ runs
    else (l, r) ∷ insert_run level run runs

unfoldable pub get_run : Level → Runs → Option (CommitHash × List CommitHash)
get_run level [] = none
get_run level ((l, r) ∷ runs) = if level.zeros == l.zeros then some r else get_run level runs

unfoldable pub remove_run : Level → Runs → Runs
remove_run level [] = []
remove_run level ((l, r) ∷ runs) =
    if level.zeros == l.zeros then runs else (l, r) ∷ remove_run level runs

-- `for (run_level, (_start, checkpoints)) in runs_by_level.iter_mut()`
unfoldable pub push_checkpoint : Level → CommitHash → Runs → Runs
unfolding level_le
push_checkpoint level commit_hash [] = []
push_checkpoint level commit_hash ((l, (end, checkpoints)) ∷ runs) =
    (
      l,
      (
        end,
        (if not (level_le l level) && level_le l top_strata_level
            then checkpoints ++ commit_hash ∷ []
            else checkpoints),
      ),
    )
    ∷ push_checkpoint level commit_hash runs

-- The runs that are left go back to the root.
unfoldable pub root_bundles : DocumentId → Runs → List BundleSpec
root_bundles doc [] = []
root_bundles doc ((l, (end, commits)) ∷ runs) =
    record { doc = doc; start = none; end = end; checkpoints = commits } ∷ root_bundles doc runs

module _ (to_radix_be : List ℕ → ℕ → List ℕ) where
  module _ (doc : DocumentId) (strata : List Stratum) where
    -- `if level <= TOP_STRATA_LEVEL`
    unfoldable pub close_run : Level → CommitHash → Runs × List BundleSpec → Runs × List BundleSpec
    unfolding get_run remove_run insert_run any supports_block
    close_run level commit_hash (runs, all_bundles) = elim (get_run level runs) [
      | none ↦ (insert_run level (commit_hash, []) runs, all_bundles)
      | some (end, checkpoints) ↦ (
        remove_run level runs,
        (if any (λ s. supports_block to_radix_be s commit_hash) strata
            then all_bundles
            else all_bundles
              ++ record {
                doc = doc;
                start = some commit_hash;
                end = end;
                checkpoints = checkpoints;
              }
                ∷ []),
      )
    ]

    unfoldable pub process_commit : CommitHash → Runs × List BundleSpec → Runs × List BundleSpec
    unfolding level_of_hash level_le push_checkpoint close_run
    process_commit commit_hash (runs, all_bundles) =
        let level = level_of_hash to_radix_be commit_hash in
        let pushed = push_checkpoint level commit_hash runs in
        if level_le level top_strata_level
        then close_run level commit_hash (pushed, all_bundles)
        else (pushed, all_bundles)

    unfoldable pub process_commits :
        List CommitHash → Runs × List BundleSpec → Runs × List BundleSpec
    unfolding process_commit
    process_commits [] state = state
    process_commits (h ∷ hs) state = process_commits hs (process_commit h state)

  unfoldable pub missing_bundles : DocumentId → Sedimentree → Option (List BundleSpec)
  unfolding from_commits canonical_sequence process_commits root_bundles
  missing_bundles doc tree = elim (from_commits tree.commits) [
    | none ↦ none
    | some dag ↦ elim (canonical_sequence to_radix_be dag tree.strata) [
      | none ↦ none
      | some hs ↦
          let (runs, all_bundles) = process_commits doc tree.strata hs ([], []) in
          some (all_bundles ++ root_bundles doc runs)
    ]
  ]

  module _ (map_order : List (CommitHash × List CommitHash) → List (CommitHash × List CommitHash))
      (set_order : List CommitHash → List CommitHash) where
    unfoldable pub heads : Sedimentree → Option (List CommitHash)
    unfolding minimize from_commits stratum_heads CommitDag.heads
    heads tree = elim (minimize to_radix_be map_order set_order tree) [
      | none ↦ none
      | some minimized ↦ elim (from_commits minimized.commits) [
        | none ↦ none
        | some dag ↦
            some (stratum_heads dag minimized.strata minimized.strata ++ CommitDag.heads dag)
      ]
    ]
