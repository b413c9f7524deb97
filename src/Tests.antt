-- ===== src/Tests.antt =====
-- Concrete inputs for the theorems: the data, and the theorems applied to them.
pub mod Wire
pub mod State
pub mod Graph
pub mod Store
use beelay.Prelude.{ℕ, ◌+◌, ◌*◌, ◌/◌, ◌%◌, zero, suc, List, [], ◌∷◌, none, some, Bool, ◌==◌}
use beelay.Prelude.{if◌then◌else◌}
use beelay.Prelude.Array.{Array, copy_from_slice}
use beelay.Ids.{DocumentId, RequestId, PeerId, content}
use beelay.Commit.{CommitHash}
use beelay.Blob.{BlobHash, BlobMeta}
use beelay.Sedimentree.Types.{LooseCommit, Stratum, StratumMeta, SedimentreeSummary}
use beelay.Riblt.Symbols.{CodedDocAndHeadsSymbol}
use beelay.Messages.Types.{UploadItem, Payload, Envelope, Request, Message, BlobRef, TreePart}

-- "ab", and "ä" in UTF-8.
abbrev pub client_id : PeerId
client_id = record { name = 97 ∷ 98 ∷ [] }

abbrev pub server_id : PeerId
server_id = record { name = 195 ∷ 164 ∷ [] }

abbrev pub doc : DocumentId
doc = record { id = copy_from_slice 16 (7 ∷ 9 ∷ []) }

abbrev pub other_doc : DocumentId
other_doc = record { id = copy_from_slice 16 (8 ∷ []) }

abbrev pub request_id : RequestId
request_id = record { id = copy_from_slice 16 (1 ∷ 2 ∷ []) }

-- The hashes 1000 and 100 as 32 bytes with the highest first.
abbrev pub zeros_30 : List ℕ → List ℕ
zeros_30 bs =
    0 ∷ 0 ∷ 0 ∷ 0 ∷ 0 ∷ 0 ∷ 0 ∷ 0 ∷ 0 ∷ 0 ∷ 0 ∷ 0 ∷ 0 ∷ 0 ∷ 0 ∷ 0 ∷ 0 ∷ 0 ∷ 0 ∷ 0 ∷ 0 ∷ 0 ∷ 0 ∷ 0
    ∷ 0 ∷ 0 ∷ 0 ∷ 0 ∷ 0 ∷ 0 ∷ bs

abbrev pub hash_1000 : CommitHash
hash_1000 = record { digest = copy_from_slice 32 (zeros_30 (3 ∷ 232 ∷ [])) }

abbrev pub hash_100 : CommitHash
hash_100 = record { digest = copy_from_slice 32 (zeros_30 (0 ∷ 100 ∷ [])) }

abbrev pub blob_meta : BlobMeta
blob_meta = record { hash = record { digest = copy_from_slice 32 (5 ∷ []) }; size_bytes = 300 }

-- From the root to 1000, with a checkpoint at 100; and the stratum from the root to 100.
abbrev pub deep : Stratum
deep = record {
  meta = record { start = none; end = hash_1000; blob = blob_meta };
  checkpoints = hash_100 ∷ [];
}

abbrev pub shallow : Stratum
shallow = record {
  meta = record { start = none; end = hash_100; blob = blob_meta };
  checkpoints = [];
}

abbrev pub loose_commit : LooseCommit
loose_commit = record { hash = hash_1000; parents = hash_100 ∷ []; blob = blob_meta }

abbrev pub summary : SedimentreeSummary
summary = record { strata = deep.meta ∷ shallow.meta ∷ []; commits = loose_commit ∷ [] }

abbrev pub upload_item : UploadItem
upload_item = record {
  blob = BlobRef.inline (1 ∷ 2 ∷ 3 ∷ []);
  tree_part = TreePart.commit hash_1000 (hash_100 ∷ []);
}

abbrev pub upload : Payload
upload = record {
  message = Message.request request_id (Request.upload_commits doc (upload_item ∷ []) content);
}

abbrev pub envelope : Envelope
envelope = record { sender = client_id; recipient = server_id; payload = upload }

-- The digits of a number, the highest first.
abbrev digits_loop : ℕ → ℕ → ℕ → List ℕ → List ℕ
digits_loop zero base n acc = acc
digits_loop (suc fuel) base n acc =
    let rest = digits_loop fuel base (n / base) (n % base ∷ acc) in
    if n / base == 0 then n % base ∷ acc else rest

abbrev value_of : ℕ → List ℕ → ℕ
value_of n [] = n
value_of n (b ∷ bs) = value_of (256 * n + b) bs

abbrev pub to_radix_be : List ℕ → ℕ → List ℕ
to_radix_be bytes base = digits_loop 80 base (value_of 0 bytes) []
