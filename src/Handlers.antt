-- ===== src/Handlers.antt =====
-- src/request_handlers.rs and src/notification_handler.rs: the requests that are answered from the
-- storage and the log, and the notifications. The futures
-- of a request run one after the other, in the order in which they are made.
pub mod Fetching
pub mod Notified
use beelay.Prelude.{ℕ, ◌+◌, Bool, List, [], ◌∷◌, ◌++◌, Option, none, some, if◌then◌else◌, ltb}
use beelay.Prelude.{length, take, drop}
use beelay.Prelude.Array.{Array}
use beelay.StorageKey
use beelay.Ids.{DocumentId, PeerId, CommitCategory, content, index}
use beelay.Blob.{BlobHash, BlobMeta, blob_meta_new}
use beelay.Commit.{CommitHash, builder, with_start, with_end, with_bundled_commits}
use beelay.Commit.{with_checkpoints, build, CommitOrBundle}
use beelay.StorageKey.{sedimentree_root}
use beelay.Sedimentree.Types.{LooseCommit, Sedimentree, SedimentreeSummary}
use beelay.Sedimentree.Diff.{summarize}
use beelay.Sedimentree.CommitDag.Simplify.{minimize}
use beelay.Sedimentree.Storage.{Storage, load, write_loose_commit, write_bundle}
use beelay.Messages.Types.{BlobRef, TreePart, UploadItem, FetchedSedimentree, ContentAndIndex}
use beelay.Messages.Types.{Response, Notification}
use beelay.Subscriptions.{Log, new_commit, remote_notification}
use beelay.Effects.{DocEvent}

pub record World (S : Type 0) : Type 0 where
  pub store : S
  pub log : Log
  pub emitted : List DocEvent

-- "no such blob"
abbrev pub no_such_blob : List ℕ
no_such_blob = 110 ∷ 111 ∷ 32 ∷ 115 ∷ 117 ∷ 99 ∷ 104 ∷ 32 ∷ 98 ∷ 108 ∷ 111 ∷ 98 ∷ []

-- `data[offset..offset + length]`: `none` is the panic of an index out of range.
unfoldable pub slice_of : List ℕ → ℕ → ℕ → Option (List ℕ)
slice_of bytes offset len =
    if ltb (length bytes) (offset + len) then none else some (take len (drop offset bytes))

-- `blake3` stands for the hash, `document_id_to_string` for bs58 with its checksum.
module _ {S : Type 0} (st : Storage S) (blake3 : List ℕ → Array 32)
    (document_id_to_string : DocumentId → List ℕ) where
  unfoldable pub fetch_blob_part : BlobHash → ℕ → ℕ → World S → Option Response
  unfolding slice_of StorageKey.blob
  fetch_blob_part blob offset len w = elim (st.load (StorageKey.blob blob) w.store) [
    | none ↦ some (Response.error no_such_blob)
    | some bytes ↦ elim (slice_of bytes offset len) [
      | none ↦ none
      | some part ↦ some (Response.fetch_blob_part part)
    ]
  ]

  -- The blob of an item and its bytes; an inline blob is put. `none` is the panic for a blob that is
  -- not there.
  unfoldable pub item_blob : BlobRef → S → Option ((BlobMeta × List ℕ) × S)
  unfolding blob_meta_new StorageKey.blob
  item_blob (BlobRef.blob b) s = elim (st.load (StorageKey.blob b) s) [
    | none ↦ none
    | some bytes ↦ some ((blob_meta_new blake3 bytes, bytes), s)
  ]
  item_blob (BlobRef.inline contents) s =
      let blob = blob_meta_new blake3 contents in
      some ((blob, contents), st.put (StorageKey.blob blob.hash) contents s)

  unfoldable pub write_part : DocumentId → CommitCategory → TreePart → BlobMeta × List ℕ → S → S
  unfolding write_loose_commit write_bundle sedimentree_root builder with_start with_end
      with_bundled_commits with_checkpoints build
  write_part doc category (TreePart.commit hash parents) (blob, bytes) s =
      write_loose_commit st (sedimentree_root document_id_to_string doc category)
        (record { hash = hash; parents = parents; blob = blob }) s
  write_part doc category (TreePart.stratum start end checkpoints) (blob, bytes) s =
      write_bundle st blake3 (sedimentree_root document_id_to_string doc category)
        (build (
          with_bundled_commits
            (with_checkpoints (with_end (with_start builder start) end) checkpoints) bytes))
        s

  unfoldable pub upload_item :
      PeerId → DocumentId → CommitCategory → UploadItem → World S → Option (World S)
  unfolding item_blob new_commit write_part
  upload_item from_peer doc category d w = elim (item_blob d.blob w.store) [
    | none ↦ none
    | some (found, s) ↦ some (record w {
      store = write_part doc category d.tree_part found s;
      log = new_commit doc from_peer d category w.log;
    })
  ]

  unfoldable pub upload_commits :
      PeerId → DocumentId → List UploadItem → CommitCategory → World S → Option (World S)
  unfolding upload_item
  upload_commits from_peer doc [] category w = some w
  upload_commits from_peer doc (d ∷ data') category w =
      elim (upload_item from_peer doc category d w) [
        | none ↦ none
        | some w' ↦ upload_commits from_peer doc data' category w'
      ]

  -- The same for a notification.
  unfoldable pub write_notified : DocumentId → TreePart → BlobMeta × List ℕ → S → S
  unfolding write_loose_commit write_bundle sedimentree_root builder with_start with_end
      with_bundled_commits with_checkpoints build
  write_notified doc (TreePart.commit hash parents) (blob, blob_data) s =
      write_loose_commit st (sedimentree_root document_id_to_string doc content)
        (record { hash = hash; parents = parents; blob = blob }) s
  write_notified doc (TreePart.stratum start end checkpoints) (blob, blob_data) s =
      write_bundle st blake3 (sedimentree_root document_id_to_string doc content)
        (build (
          with_checkpoints
            (with_bundled_commits (with_end (with_start builder start) end) blob_data) checkpoints))
        s

  unfoldable pub part_data : TreePart → List ℕ → CommitOrBundle
  unfolding builder with_start with_end with_bundled_commits with_checkpoints build
  part_data (TreePart.commit hash parents) blob_data =
      CommitOrBundle.commit (record { parents = parents; contents = blob_data; hash = hash })
  part_data (TreePart.stratum start end checkpoints) blob_data = CommitOrBundle.bundle (
      build (
        with_checkpoints (with_bundled_commits (with_end (with_start builder start) end) blob_data)
          checkpoints))

  -- `none` is the panic for a blob that is not inline.
  unfoldable pub handle : Notification → World S → Option (World S)
  unfolding blob_meta_new StorageKey.blob write_notified part_data remote_notification
  handle n w = elim n.item.blob [
    | BlobRef.blob b ↦ none
    | BlobRef.inline blob_data ↦
        let meta = blob_meta_new blake3 blob_data in
        some (record {
          store =
              write_notified n.doc n.item.tree_part (meta, blob_data)
                (st.put (StorageKey.blob meta.hash) blob_data w.store);
          log = remote_notification n w.log;
          emitted =
              w.emitted
              ++ record {
                peer = n.from_peer;
                doc = n.doc;
                item = part_data n.item.tree_part blob_data;
              }
                ∷ [];
        })
  ]

  -- `to_radix_be` stands for the crate num, `map_order` and `set_order` for the orders of a hash map
  -- and a hash set.
  module _ (to_radix_be : List ℕ → ℕ → List ℕ)
      (map_order : List (CommitHash × List CommitHash) → List (CommitHash × List CommitHash))
      (set_order : List CommitHash → List CommitHash) where
    unfoldable pub minimized : Sedimentree → Option SedimentreeSummary
    unfolding minimize summarize
    minimized tree = elim (minimize to_radix_be map_order set_order tree) [
      | none ↦ none
      | some m ↦ some (summarize m)
    ]

    -- `index.map(|i| i.minimize().summarize()).unwrap_or_default()`
    unfoldable pub minimized_or_default : Option Sedimentree → Option SedimentreeSummary
    unfolding minimized
    minimized_or_default none = some (record { strata = []; commits = [] })
    minimized_or_default (some tree) = minimized tree

    unfoldable pub fetch_sedimentree : DocumentId → World S → Option FetchedSedimentree
    unfolding load sedimentree_root minimized minimized_or_default
    fetch_sedimentree doc w =
        elim (load st (sedimentree_root document_id_to_string doc content) w.store) [
          | none ↦ some FetchedSedimentree.not_found
          | some tree ↦ elim (minimized tree) [
            | none ↦ none
            | some c ↦
                elim (minimized_or_default
                  (load st (sedimentree_root document_id_to_string doc index) w.store)) [
                    | none ↦ none
                    | some i ↦ some (FetchedSedimentree.found (record { content = c; index = i }))
                  ]
          ]
        ]
