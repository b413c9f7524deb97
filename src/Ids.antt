-- ===== src/Ids.antt =====
-- The identifiers of src/lib.rs and src/snapshots.rs, with the commit category and the heads of a
-- document.
use beelay.Prelude.{ℕ, ◌^◌, ◌<◌, ◌≡◌, true, List, [], ◌∷◌, length, Result, ok, err, and_then}
use beelay.Prelude.{map_err, ◌==◌, if◌then◌else◌, ap}
use beelay.Prelude.Array.{Array, to_list, copy_from_slice}
use beelay.Prelude.Equality.{Eq, ◌=?◌, eq_of_=?, array_eq, nats_eq}
use beelay.Hex
use beelay.Parse.Reads.{Reads-arr, Reads-pure, Reads-u8, Reads-map, Reads-with_context, Reads}
use beelay.Commit.{CommitHash, parse_commit_hash, encode_commit_hash, Reads-commit_hash}
use beelay.Parse.Input.{named, with_number, Parser, pure, fail, ◌>>=◌, with_context, u8, arr}
use beelay.Parse.Sized.{slice, sized, Reads-slice, from_utf8, Reads-from_utf8, many, encode_many}
use beelay.Parse.Sized.{Reads-many_all}
use beelay.Parse.Utf8.{is_utf8}

pub record DocumentId : Type 0 where
  pub id : Array 16

pub record RequestId : Type 0 where
  pub id : Array 16

pub record SnapshotId : Type 0 where
  pub id : Array 16

-- A `String`: the list of its bytes.
pub record PeerId : Type 0 where
  pub name : List ℕ

pub data CommitCategory : Type 0 where
  content index : CommitCategory

pub record DocumentHeads : Type 0 where
  pub heads : List CommitHash

unfoldable pub parse_document_id : Parser DocumentId
unfolding with_context ◌>>=◌ pure arr
parse_document_id =
    with_context (named "DocumentId") (arr 16 >>= λ bytes. pure (record { id = bytes }))

unfoldable pub encode_document_id : DocumentId → List ℕ
unfolding to_list
encode_document_id d = to_list d.id

unfoldable pub parse_request_id : Parser RequestId
unfolding with_context ◌>>=◌ pure arr
parse_request_id =
    with_context (named "request id") (arr 16 >>= λ bytes. pure (record { id = bytes }))

-- `id.as_bytes()`
unfoldable pub request_id_as_bytes : RequestId → List ℕ
unfolding to_list
request_id_as_bytes r = to_list r.id

unfoldable pub parse_snapshot_id : Parser SnapshotId
unfolding ◌>>=◌ pure arr
parse_snapshot_id = arr 16 >>= λ id. pure (record { id = id })

unfoldable pub encode_snapshot_id : SnapshotId → List ℕ
unfolding to_list
encode_snapshot_id s = to_list s.id

unfoldable pub snapshot_id_to_string : SnapshotId → List ℕ
unfolding Hex.encode to_list
snapshot_id_to_string s = Hex.encode (to_list s.id)

pub data BadSnapshotId : Type 0 where
  invalid_hex : Hex.FromHexError → BadSnapshotId
  invalid_length : BadSnapshotId

unfoldable pub snapshot_id_from_str : List ℕ → Result SnapshotId BadSnapshotId
unfolding Hex.decode copy_from_slice
snapshot_id_from_str s = and_then (map_err invalid_hex (Hex.decode s)) λ bytes.
    if length bytes == 16 then ok (record { id = copy_from_slice 16 bytes }) else err invalid_length

unfoldable pub parse_peer_id : Parser PeerId
unfolding with_context ◌>>=◌ pure slice from_utf8
parse_peer_id =
    with_context (named "PeerId")
      (slice >>= λ bytes. from_utf8 "" bytes >>= λ id. pure (record { name = id }))

unfoldable pub encode_peer_id : PeerId → List ℕ
unfolding sized
encode_peer_id p = sized p.name

unfoldable pub parse_commit_category : Parser CommitCategory
unfolding with_context ◌>>=◌ pure fail u8
parse_commit_category = with_context (named "CommitCategory") (
    u8 >>= λ cat.
    if cat == 0
    then pure content
    else if cat == 1
    then pure index
    else fail (with_number "invalid commit category {}" cat))

unfoldable pub encode_commit_category : CommitCategory → List ℕ
encode_commit_category content = 0 ∷ []
encode_commit_category index = 1 ∷ []

unfoldable pub parse_document_heads : Parser DocumentHeads
unfolding with_context ◌>>=◌ pure many parse_commit_hash
parse_document_heads =
    with_context (named "DocumentDagHeads")
      (many parse_commit_hash >>= λ heads. pure (record { heads = heads }))

unfoldable pub encode_document_heads : DocumentHeads → List ℕ
unfolding encode_many encode_commit_hash
encode_document_heads h = encode_many encode_commit_hash h.heads

-- What the type `String` guarantees of a peer's name, and that its length is a `u64`.
pub record IsPeerId (p : PeerId) : Type 0 where
  pub size : length p.name < 2 ^ 64
  pub utf8 : is_utf8 p.name ≡ true

pub Reads-document_id : (d : DocumentId) → Reads parse_document_id (encode_document_id d) d
unfolding parse_document_id encode_document_id
Reads-document_id d = Reads-with_context _ (Reads-map _ (Reads-arr d.id) (Reads-pure _))

pub Reads-request_id : (r : RequestId) → Reads parse_request_id (request_id_as_bytes r) r
unfolding parse_request_id request_id_as_bytes
Reads-request_id r = Reads-with_context _ (Reads-map _ (Reads-arr r.id) (Reads-pure _))

pub Reads-snapshot_id : (s : SnapshotId) → Reads parse_snapshot_id (encode_snapshot_id s) s
unfolding parse_snapshot_id encode_snapshot_id
Reads-snapshot_id s = Reads-map _ (Reads-arr s.id) (Reads-pure _)

pub Reads-peer_id : (p : PeerId) → IsPeerId p → Reads parse_peer_id (encode_peer_id p) p
unfolding parse_peer_id encode_peer_id
Reads-peer_id p h = Reads-with_context _ (
    Reads-map _ (Reads-slice p.name h.size)
      (Reads-map _ (Reads-from_utf8 _ p.name h.utf8) (Reads-pure _)))

pub Reads-commit_category :
    (c : CommitCategory) → Reads parse_commit_category (encode_commit_category c) c
unfolding parse_commit_category encode_commit_category
Reads-commit_category content = Reads-with_context _ (Reads-map _ (Reads-u8 0) (Reads-pure _))
Reads-commit_category index = Reads-with_context _ (Reads-map _ (Reads-u8 1) (Reads-pure _))

pub Reads-document_heads :
    (h : DocumentHeads)
    → length h.heads < 2 ^ 64
    → Reads parse_document_heads (encode_document_heads h) h
unfolding parse_document_heads encode_document_heads
Reads-document_heads h small = Reads-with_context _ (
    Reads-map _
      (Reads-many_all parse_commit_hash encode_commit_hash Reads-commit_hash h.heads small)
      (Reads-pure _))

instance abbrev pub request_id_eq : Eq RequestId
request_id_eq = record {
  beq = λ a b. a.id =? b.id;
  beq_iff = λ a b. (
    λ h. ap (λ x. record { id = x }) (eq_of_=? a.id b.id h),
    λ p. (array_eq.beq_iff a.id b.id).1 (ap (λ (d : RequestId). d.id) p),
  );
}

instance abbrev pub document_id_eq : Eq DocumentId
document_id_eq = record {
  beq = λ a b. a.id =? b.id;
  beq_iff = λ a b. (
    λ h. ap (λ x. record { id = x }) (eq_of_=? a.id b.id h),
    λ p. (array_eq.beq_iff a.id b.id).1 (ap (λ (d : DocumentId). d.id) p),
  );
}

instance abbrev pub peer_id_eq : Eq PeerId
peer_id_eq = record {
  beq = λ a b. a.name =? b.name;
  beq_iff = λ a b. (
    λ h. ap (λ x. record { name = x }) (eq_of_=? a.name b.name h),
    λ p. (nats_eq.beq_iff a.name b.name).1 (ap (λ (d : PeerId). d.name) p),
  );
}
