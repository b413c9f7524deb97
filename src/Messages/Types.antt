-- ===== src/Messages/Types.antt =====
-- src/messages.rs: the data of the messages.
use beelay.Prelude.{ℕ, List, Option}
use beelay.Blob.{BlobHash}
use beelay.Commit.{CommitHash}
use beelay.Ids.{DocumentId, RequestId, SnapshotId, PeerId, CommitCategory}
use beelay.Riblt.Symbols.{CodedDocAndHeadsSymbol}
use beelay.Sedimentree.Types.{SedimentreeSummary}

pub data BlobRef : Type 0 where
  blob : BlobHash → BlobRef
  inline : List ℕ → BlobRef

-- A stratum has its start, end and checkpoints; a commit its hash and parents.
pub data TreePart : Type 0 where
  stratum : Option CommitHash → CommitHash → List CommitHash → TreePart
  commit : CommitHash → List CommitHash → TreePart

pub record UploadItem : Type 0 where
  pub blob : BlobRef
  pub tree_part : TreePart

-- `item` is the field `data`.
pub record Notification : Type 0 where
  pub from_peer : PeerId
  pub doc : DocumentId
  pub item : UploadItem

pub record ContentAndIndex : Type 0 where
  pub content : SedimentreeSummary
  pub index : SedimentreeSummary

pub data FetchedSedimentree : Type 0 where
  not_found : FetchedSedimentree
  found : ContentAndIndex → FetchedSedimentree

pub data Request : Type 0 where
  upload_blob : List ℕ → Request
  upload_commits : DocumentId → List UploadItem → CommitCategory → Request
  fetch_sedimentree : DocumentId → Request
  fetch_blob_part : BlobHash → ℕ → ℕ → Request
  create_snapshot : DocumentId → Request
  snapshot_symbols : SnapshotId → Request
  listen : SnapshotId → Request

-- The text of an error is the list of its bytes.
pub data Response : Type 0 where
  error : List ℕ → Response
  upload_commits : Response
  fetch_sedimentree : FetchedSedimentree → Response
  fetch_blob_part : List ℕ → Response
  create_snapshot : SnapshotId → List CodedDocAndHeadsSymbol → Response
  snapshot_symbols : List CodedDocAndHeadsSymbol → Response
  listen : Response

pub data Message : Type 0 where
  request : RequestId → Request → Message
  response : RequestId → Response → Message
  notification : Notification → Message

pub record Payload : Type 0 where
  pub message : Message

pub record Envelope : Type 0 where
  pub sender : PeerId
  pub recipient : PeerId
  pub payload : Payload
