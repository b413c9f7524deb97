-- ===== src/Sedimentree/Storage.antt =====
-- src/sedimentree/storage.rs: a tree in the storage. The futures of a task are run one after the
-- other, in the order in which they are made, and the storage is what the effects give of it.
pub mod Laws
pub mod Update
use beelay.Prelude.{ℕ, List, [], ◌∷◌, ◌++◌, Option, none, some, Result, ok, err}
use beelay.Prelude.Array.{Array}
use beelay.StorageKey
use beelay.Blob.{BlobHash, BlobMeta, blob_meta_new, blob_hash_to_string}
use beelay.Commit.{CommitHash, Commit, CommitBundle, CommitOrBundle, commit_hash_to_string}
use beelay.Commit.{builder, with_start, with_end, with_bundled_commits, with_checkpoints, build}
use beelay.StorageKey.{StorageKey, with_subcomponent}
use beelay.Parse.Input.{Input, new, ParseError, Parser}
use beelay.Sedimentree.Types.{LooseCommit, Stratum, StratumMeta, Sedimentree}
use beelay.Sedimentree.Codec.{parse_loose_commit, parse_stratum, encode_loose_commit}
use beelay.Sedimentree.Codec.{encode_stratum}
use beelay.Sedimentree.Diff.{to_save}
use beelay.Sedimentree.Bundles.{CommitOrStratum, into_items}

-- What the effects offer of a storage.
pub record Storage (S : Type 0) : Type 0 where
  pub load : StorageKey → S → Option (List ℕ)
  pub load_range : StorageKey → S → List (StorageKey × List ℕ)
  pub put : StorageKey → List ℕ → S → S

-- "strata", "loose_commits", "ROOT", "-"
abbrev pub strata_name : List ℕ
strata_name = 115 ∷ 116 ∷ 114 ∷ 97 ∷ 116 ∷ 97 ∷ []

abbrev pub loose_commits_name : List ℕ
loose_commits_name = 108 ∷ 111 ∷ 111 ∷ 115 ∷ 101 ∷ 95 ∷ 99 ∷ 111 ∷ 109 ∷ 109 ∷ 105 ∷ 116 ∷ 115 ∷ []

abbrev pub root_name : List ℕ
root_name = 82 ∷ 79 ∷ 79 ∷ 84 ∷ []

unfoldable pub start_name : Option CommitHash → List ℕ
unfolding commit_hash_to_string
start_name (some s) = commit_hash_to_string s
start_name none = root_name

unfoldable pub strata_path : StorageKey → Stratum → StorageKey
unfolding start_name commit_hash_to_string with_subcomponent
strata_path prefix s =
    with_subcomponent (start_name s.meta.start ++ 45 ∷ commit_hash_to_string s.meta.end)
      (with_subcomponent strata_name prefix)

unfoldable pub commit_path : StorageKey → CommitHash → StorageKey
unfolding commit_hash_to_string with_subcomponent
commit_path prefix c =
    with_subcomponent (commit_hash_to_string c) (with_subcomponent loose_commits_name prefix)

-- What can be parsed is kept, with or without bytes left over; what cannot is skipped.
unfoldable pub parse_all : {A : Type 0} → Parser A → List (StorageKey × List ℕ) → List A
unfolding new
parse_all p [] = []
parse_all p ((key, bytes) ∷ raw) = elim (p (new bytes)) [
  | ok (input, a) ↦ a ∷ parse_all p raw
  | err e ↦ parse_all p raw
]

-- `if raw.is_empty() { return None; }`
unfoldable pub parse_range : {A : Type 0} → Parser A → List (StorageKey × List ℕ) → Option (List A)
unfolding parse_all
parse_range p [] = none
parse_range p (x ∷ raw) = some (parse_all p (x ∷ raw))

unfoldable pub or_default : {A : Type 0} → Option (List A) → List A
or_default none = []
or_default (some xs) = xs

unfoldable pub tree_of : Option (List Stratum) → Option (List LooseCommit) → Option Sedimentree
unfolding or_default
tree_of none none = none
tree_of (some strata) commits = some (record { strata = strata; commits = or_default commits })
tree_of none (some commits) = some (record { strata = []; commits = commits })

module _ {S : Type 0} (st : Storage S) where
  unfoldable pub load : StorageKey → S → Option Sedimentree
  unfolding parse_range parse_stratum parse_loose_commit with_subcomponent tree_of
  load path s =
      tree_of (parse_range parse_stratum (st.load_range (with_subcomponent strata_name path) s)) (
        parse_range parse_loose_commit
          (st.load_range (with_subcomponent loose_commits_name path) s))

  unfoldable pub save_strata : StorageKey → List Stratum → S → S
  unfolding strata_path encode_stratum
  save_strata path [] s = s
  save_strata path (x ∷ xs) s =
      save_strata path xs (st.put (strata_path path x) (encode_stratum x) s)

  unfoldable pub write_loose_commit : StorageKey → LooseCommit → S → S
  unfolding commit_path encode_loose_commit
  write_loose_commit path c s = st.put (commit_path path c.hash) (encode_loose_commit c) s

  unfoldable pub save_commits : StorageKey → List LooseCommit → S → S
  unfolding write_loose_commit
  save_commits path [] s = s
  save_commits path (c ∷ cs) s = save_commits path cs (write_loose_commit path c s)

  unfoldable pub update : StorageKey → Option Sedimentree → Sedimentree → S → S
  unfolding to_save save_strata save_commits
  update path original new_tree s =
      let saved = to_save original new_tree in
      save_commits path saved.1 (save_strata path saved.0 s)

  -- The outer option is the panic of `unwrap`.
  unfoldable pub load_loose_commit : StorageKey → CommitHash → S → Option (Option LooseCommit)
  unfolding commit_path parse_loose_commit new
  load_loose_commit root commit_hash s = elim (st.load (commit_path root commit_hash) s) [
    | none ↦ some none
    | some bytes ↦ elim (parse_loose_commit (new bytes)) [
      | ok (input, c) ↦ some (some c)
      | err e ↦ none
    ]
  ]

  -- The data of an item, where its blob is there.
  unfoldable pub item_data : CommitOrStratum → S → Option CommitOrBundle
  unfolding StorageKey.blob builder with_start with_end with_bundled_commits with_checkpoints build
  item_data (CommitOrStratum.commit c) s = elim (st.load (StorageKey.blob c.blob.hash) s) [
    | none ↦ none
    | some bytes ↦
        some
          (CommitOrBundle.commit (record { parents = c.parents; contents = bytes; hash = c.hash }))
  ]
  item_data (CommitOrStratum.stratum t) s = elim (st.load (StorageKey.blob t.meta.blob.hash) s) [
    | none ↦ none
    | some bytes ↦ some (
        CommitOrBundle.bundle (
          build (
            with_checkpoints
              (with_bundled_commits (with_end (with_start builder t.meta.start) t.meta.end) bytes)
              t.checkpoints)))
  ]

  unfoldable pub items_data : List CommitOrStratum → S → List CommitOrBundle
  unfolding item_data
  items_data [] s = []
  items_data (i ∷ is) s = elim (item_data i s) [
    | none ↦ items_data is s
    | some d ↦ d ∷ items_data is s
  ]

  -- The stream, in the order of the items.
  unfoldable pub data_of : Sedimentree → S → List CommitOrBundle
  unfolding items_data into_items
  data_of tree s = items_data (into_items tree) s

  -- `blake3` stands for the hash.
  unfoldable pub write_bundle : (List ℕ → Array 32) → StorageKey → CommitBundle → S → S
  unfolding blob_meta_new StorageKey.blob strata_path encode_stratum
  write_bundle blake3 path bundle s =
      let blob = blob_meta_new blake3 bundle.bundled_commits in
      let t : Stratum = record {
        meta = record { start = bundle.start; end = bundle.end; blob = blob };
        checkpoints = bundle.checkpoints;
      } in
      st.put (strata_path path t) (encode_stratum t)
        (st.put (StorageKey.blob blob.hash) bundle.bundled_commits s)
