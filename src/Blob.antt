-- ===== src/Blob.antt =====
-- src/blob.rs: the hash of a blob, and the hash with the size.
use beelay.Prelude.{ℕ, ◌^◌, ◌<◌, List, ◌++◌, length, Result, ok, err, and_then, map_err, ◌==◌}
use beelay.Prelude.{if◌then◌else◌}
use beelay.Prelude.Array.{Array, to_list, copy_from_slice}
use beelay.Hex
use beelay.Leb128
use beelay.Parse.Input.{named, Parser, pure, ◌>>=◌, with_context, arr}
use beelay.Parse.Reads.{Reads, Reads-bind, Reads-map, Reads-pure, Reads-with_context, Reads-arr}
use beelay.Leb128.Encode.{uleb128}
use beelay.Leb128.RoundTrip.{parse-uleb128}

pub record BlobHash : Type 0 where
  pub digest : Array 32

unfoldable pub parse_blob_hash : Parser BlobHash
unfolding with_context ◌>>=◌ pure arr
parse_blob_hash =
    with_context (named "BlobHash") (arr 32 >>= λ hash_bytes. pure (record { digest = hash_bytes }))

unfoldable pub encode_blob_hash : BlobHash → List ℕ
unfolding to_list
encode_blob_hash h = to_list h.digest

-- `blake3` stands for the hash function of that crate.
unfoldable pub hash_of : (blake3 : List ℕ → Array 32) → List ℕ → BlobHash
hash_of blake3 bytes = record { digest = blake3 bytes }

unfoldable pub blob_hash_to_string : BlobHash → List ℕ
unfolding Hex.encode to_list
blob_hash_to_string h = Hex.encode (to_list h.digest)

pub data InvalidBlobHash : Type 0 where
  invalid_hex : Hex.FromHexError → InvalidBlobHash
  invalid_length : InvalidBlobHash

unfoldable pub blob_hash_from_str : List ℕ → Result BlobHash InvalidBlobHash
unfolding Hex.decode copy_from_slice
blob_hash_from_str s = and_then (map_err invalid_hex (Hex.decode s)) λ bytes.
    if length bytes == 32
    then ok (record { digest = copy_from_slice 32 bytes })
    else err invalid_length

pub record BlobMeta : Type 0 where
  pub hash : BlobHash
  pub size_bytes : ℕ

unfoldable pub blob_meta_new : (blake3 : List ℕ → Array 32) → List ℕ → BlobMeta
unfolding hash_of
blob_meta_new blake3 contents = record {
  hash = hash_of blake3 contents;
  size_bytes = length contents;
}

unfoldable pub parse_blob_meta : Parser BlobMeta
unfolding with_context ◌>>=◌ pure parse_blob_hash Leb128.parse
parse_blob_meta = with_context (named "BlobMeta") (
    parse_blob_hash >>= λ hash.
    Leb128.parse >>= λ size_bytes. pure (record { hash = hash; size_bytes = size_bytes }))

unfoldable pub encode_blob_meta : BlobMeta → List ℕ
unfolding encode_blob_hash uleb128
encode_blob_meta m = encode_blob_hash m.hash ++ uleb128 m.size_bytes

pub Reads-blob_hash : (h : BlobHash) → Reads parse_blob_hash (encode_blob_hash h) h
unfolding parse_blob_hash encode_blob_hash
Reads-blob_hash h = Reads-with_context _ (Reads-map _ (Reads-arr h.digest) (Reads-pure _))

pub Reads-blob_meta :
    (m : BlobMeta) → m.size_bytes < 2 ^ 64 → Reads parse_blob_meta (encode_blob_meta m) m
unfolding parse_blob_meta encode_blob_meta
Reads-blob_meta m h = Reads-with_context _ (
    Reads-bind _ (Reads-blob_hash m.hash)
      (Reads-map _ (parse-uleb128 m.size_bytes h) (Reads-pure _)))
