-- ===== src/Handlers/Notified.antt =====
-- src/notification_handler.rs: a notification leaves what the upload of its item leaves.
use beelay.Prelude.{ℕ, List, some, ◌≡◌, refl}
use beelay.Prelude.Array.{Array}
use beelay.Ids.{DocumentId, PeerId, content}
use beelay.Sedimentree.Storage.{Storage}
use beelay.Messages.Types.{BlobRef, TreePart}
use beelay.Handlers.{World, upload_item, item_blob, write_part, handle, write_notified}
use beelay.Subscriptions.{new_commit, remote_notification}
use beelay.Commit.{builder, with_start, with_end, with_bundled_commits, with_checkpoints, build}

module _ {S : Type 0} (st : Storage S) (blake3 : List ℕ → Array 32)
    (document_id_to_string : DocumentId → List ℕ) where
  -- For an item with its blob inline, of the content of a document: a peer that is notified of it
  -- has the same storage and the same log as one to which it is uploaded.
  pub handle-upload_item :
      (from_peer : PeerId) (doc : DocumentId) (contents : List ℕ) (part : TreePart) (w : World S)
      → (w1 w2 : World S) × (upload_item st blake3 document_id_to_string from_peer doc content
            (record { blob = BlobRef.inline contents; tree_part = part })
            w
          ≡ some w1)
        × (handle st blake3 document_id_to_string
              (record {
                from_peer = from_peer;
                doc = doc;
                item = record { blob = BlobRef.inline contents; tree_part = part };
              })
              w
            ≡ some w2)
        × (w1.store ≡ w2.store)
        × (w1.log ≡ w2.log)
  unfolding upload_item item_blob write_part handle write_notified new_commit remote_notification
      builder with_start with_end with_bundled_commits with_checkpoints build
  handle-upload_item from_peer doc contents (TreePart.commit hash parents) w =
      (_, _, refl, refl, refl, refl)
  handle-upload_item from_peer doc contents (TreePart.stratum start end checkpoints) w =
      (_, _, refl, refl, refl, refl)
