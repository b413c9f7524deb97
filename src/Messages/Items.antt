-- ===== src/Messages/Items.antt =====
-- src/messages.rs: how upload items, notifications and fetched sedimentrees are written and read.
use beelay.Prelude.{[], ◌++◌, ◌^◌, ◌∷◌, ℕ, ◌<◌, ◌==◌, List, if◌then◌else◌, length}
use beelay.Blob.{parse_blob_hash, encode_blob_hash, Reads-blob_hash}
use beelay.Commit.{parse_commit_hash, encode_commit_hash, Reads-commit_hash}
use beelay.Ids.{parse_peer_id, encode_peer_id, IsPeerId, Reads-peer_id, parse_document_id}
use beelay.Ids.{encode_document_id, Reads-document_id}
use beelay.Parse.Input.{named, text, with_number, Parser, pure, fail, ◌>>=◌, with_context, u8}
use beelay.Parse.Input.{maybe}
use beelay.Parse.Reads.{Reads, Reads-bind, Reads-map, Reads-pure, Reads-with_context, Reads-u8}
use beelay.Parse.Sized.{slice, sized, Reads-slice, many, encode_many}
use beelay.Sedimentree.Codec.{encode_start, Reads-start, Reads-commit_hashes, parse_summary}
use beelay.Sedimentree.Codec.{encode_summary, IsSummary, Reads-summary}
use beelay.Messages.Types.{BlobRef, TreePart, UploadItem, Notification, FetchedSedimentree}

unfoldable pub parse_blob_ref : Parser BlobRef
unfolding with_context ◌>>=◌ pure fail u8 parse_blob_hash slice
parse_blob_ref = with_context (named "BlobRef") (
    u8 >>= λ tag.
    if tag == 0
    then (parse_blob_hash >>= λ hash. pure (BlobRef.blob hash))
    else if tag == 1
    then (slice >>= λ bytes. pure (BlobRef.inline bytes))
    else fail (with_number "invalid tag: {}" tag))

unfoldable pub encode_blob_ref : BlobRef → List ℕ
unfolding encode_blob_hash sized
encode_blob_ref (BlobRef.blob hash) = 0 ∷ encode_blob_hash hash
encode_blob_ref (BlobRef.inline bytes) = 1 ∷ sized bytes

unfoldable pub parse_tree_part : Parser TreePart
unfolding with_context ◌>>=◌ pure fail u8 maybe many parse_commit_hash
parse_tree_part = with_context (named "TreePart") (
    u8 >>= λ tag.
    if tag == 0
    then (maybe parse_commit_hash >>= λ start. parse_commit_hash >>= λ end.
        many parse_commit_hash >>= λ checkpoints. pure (TreePart.stratum start end checkpoints))
    else if tag == 1
    then (parse_commit_hash >>= λ hash.
        many parse_commit_hash >>= λ parents. pure (TreePart.commit hash parents))
    else fail (with_number "invalid tag: {}" tag))

unfoldable pub encode_tree_part : TreePart → List ℕ
unfolding encode_start encode_commit_hash encode_many
encode_tree_part (TreePart.stratum start end checkpoints) =
    0
    ∷ (encode_start start ++ (encode_commit_hash end ++ encode_many encode_commit_hash checkpoints))
encode_tree_part (TreePart.commit hash parents) =
    1 ∷ (encode_commit_hash hash ++ encode_many encode_commit_hash parents)

unfoldable pub parse_upload_item : Parser UploadItem
unfolding ◌>>=◌ pure parse_blob_ref parse_tree_part
parse_upload_item = parse_blob_ref >>= λ blob.
    parse_tree_part >>= λ tree_part. pure (record { blob = blob; tree_part = tree_part })

unfoldable pub encode_upload_item : UploadItem → List ℕ
unfolding encode_blob_ref encode_tree_part
encode_upload_item i = encode_blob_ref i.blob ++ encode_tree_part i.tree_part

unfoldable pub parse_notification : Parser Notification
unfolding with_context ◌>>=◌ pure parse_peer_id parse_document_id parse_upload_item
parse_notification = with_context (named "Notification") (
    parse_peer_id >>= λ from_peer. parse_document_id >>= λ doc_id. parse_upload_item >>= λ item.
    pure (record { from_peer = from_peer; doc = doc_id; item = item }))

unfoldable pub encode_notification : Notification → List ℕ
unfolding encode_peer_id encode_document_id encode_upload_item
encode_notification n =
    encode_peer_id n.from_peer ++ (encode_document_id n.doc ++ encode_upload_item n.item)

-- The content comes first on the wire.
unfoldable pub parse_fetched : Parser FetchedSedimentree
unfolding with_context ◌>>=◌ pure fail u8 parse_summary
parse_fetched = with_context (named "FetchedSedimentree") (
    u8 >>= λ tag.
    if tag == 0
    then pure FetchedSedimentree.not_found
    else if tag == 1
    then (parse_summary >>= λ content_bundles. parse_summary >>= λ index_bundles.
        pure
          (FetchedSedimentree.found (record { content = content_bundles; index = index_bundles })))
    else fail (text "unknown tag"))

unfoldable pub encode_fetched : FetchedSedimentree → List ℕ
unfolding encode_summary
encode_fetched FetchedSedimentree.not_found = 0 ∷ []
encode_fetched (FetchedSedimentree.found t) =
    1 ∷ (encode_summary t.content ++ encode_summary t.index)

-- Every length is a `u64`, and every text UTF-8.
abbrev pub IsBlobRef : BlobRef → Type 0
IsBlobRef (BlobRef.blob hash) = Unit {0}
IsBlobRef (BlobRef.inline bytes) = length bytes < 2 ^ 64

abbrev pub IsTreePart : TreePart → Type 0
IsTreePart (TreePart.stratum start end checkpoints) = length checkpoints < 2 ^ 64
IsTreePart (TreePart.commit hash parents) = length parents < 2 ^ 64

pub record IsUploadItem (i : UploadItem) : Type 0 where
  pub blob : IsBlobRef i.blob
  pub tree_part : IsTreePart i.tree_part

pub record IsNotification (n : Notification) : Type 0 where
  pub from_peer : IsPeerId n.from_peer
  pub item : IsUploadItem n.item

abbrev pub IsFetched : FetchedSedimentree → Type 0
IsFetched FetchedSedimentree.not_found = Unit {0}
IsFetched (FetchedSedimentree.found t) = IsSummary t.content × IsSummary t.index

Reads-blob_ref : (b : BlobRef) → IsBlobRef b → Reads parse_blob_ref (encode_blob_ref b) b
unfolding parse_blob_ref encode_blob_ref
Reads-blob_ref (BlobRef.blob hash) h =
    Reads-with_context _
      (Reads-bind _ (Reads-u8 0) (Reads-map _ (Reads-blob_hash hash) (Reads-pure _)))
Reads-blob_ref (BlobRef.inline bytes) h =
    Reads-with_context _
      (Reads-bind _ (Reads-u8 1) (Reads-map _ (Reads-slice bytes h) (Reads-pure _)))

Reads-tree_part : (t : TreePart) → IsTreePart t → Reads parse_tree_part (encode_tree_part t) t
unfolding parse_tree_part encode_tree_part
Reads-tree_part (TreePart.stratum start end checkpoints) h = Reads-with_context _ (
    Reads-bind _ (Reads-u8 0) (
      Reads-bind _ (Reads-start start) (
        Reads-bind _ (Reads-commit_hash end)
          (Reads-map _ (Reads-commit_hashes checkpoints h) (Reads-pure _)))))
Reads-tree_part (TreePart.commit hash parents) h = Reads-with_context _ (
    Reads-bind _ (Reads-u8 1) (
      Reads-bind _ (Reads-commit_hash hash)
        (Reads-map _ (Reads-commit_hashes parents h) (Reads-pure _))))

pub Reads-upload_item :
    (i : UploadItem) → IsUploadItem i → Reads parse_upload_item (encode_upload_item i) i
unfolding parse_upload_item encode_upload_item
Reads-upload_item i h =
    Reads-bind _ (Reads-blob_ref i.blob h.blob)
      (Reads-map _ (Reads-tree_part i.tree_part h.tree_part) (Reads-pure _))

pub Reads-notification :
    (n : Notification) → IsNotification n → Reads parse_notification (encode_notification n) n
unfolding parse_notification encode_notification
Reads-notification n h = Reads-with_context _ (
    Reads-bind _ (Reads-peer_id n.from_peer h.from_peer) (
      Reads-bind _ (Reads-document_id n.doc)
        (Reads-map _ (Reads-upload_item n.item h.item) (Reads-pure _))))

pub Reads-fetched :
    (f : FetchedSedimentree) → IsFetched f → Reads parse_fetched (encode_fetched f) f
unfolding parse_fetched encode_fetched
Reads-fetched FetchedSedimentree.not_found h =
    Reads-with_context _ (Reads-map _ (Reads-u8 0) (Reads-pure _))
Reads-fetched (FetchedSedimentree.found t) h = Reads-with_context _ (
    Reads-bind _ (Reads-u8 1) (
      Reads-bind _ (Reads-summary t.content h.0)
        (Reads-map _ (Reads-summary t.index h.1) (Reads-pure _))))
