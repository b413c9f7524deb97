-- ===== src/Handlers/Fetching.antt =====
-- src/request_handlers.rs: an uploaded blob, fetched in parts.
use beelay.Prelude.{ℕ, ◌+◌, ◌≤◌, ◌<◌, List, [], ◌∷◌, none, some, ok, ◌≡◌, ◌≢◌, refl, ap, sym, ◌∙◌}
use beelay.Prelude.{length, take, drop, ltb-eq_false, lt→ltb, le_or_lt, Option-cases, inl, inr}
use beelay.Prelude.{◌↔◌}
use beelay.Prelude.Array.{Array}
use beelay.StorageKey
use beelay.Ids.{DocumentId, PeerId, CommitCategory}
use beelay.Blob.{BlobHash, blob_meta_new, hash_of}
use beelay.StorageKey.{StorageKey, sedimentree_root, with_subcomponent, blobs, sedimentrees}
use beelay.StorageKey.{namespace_beq}
use beelay.Sedimentree.Storage.{Storage, write_loose_commit, commit_path, write_bundle}
use beelay.Sedimentree.Storage.{strata_path}
use beelay.Sedimentree.Storage.Laws.{IsStorage}
use beelay.Messages.Types.{BlobRef, TreePart, UploadItem, Response}
use beelay.Subscriptions.{new_commit}
use beelay.Effects.Rpc.{fetched_blob_part}
use beelay.Handlers.{World, slice_of, fetch_blob_part, upload_item, upload_commits, item_blob}
use beelay.Handlers.{write_part, no_such_blob}

-- Keys of trees and of blobs differ.
apart : (k : StorageKey) (h : BlobHash) → k.namespace ≡ sedimentrees → k ≢ StorageKey.blob h
unfolding StorageKey.blob namespace_beq
apart k h p q = cc (sym p ∙ ap (λ (x : StorageKey). x.namespace) q)

slice_of-in_range :
    (bytes : List ℕ) (offset len : ℕ)
    → offset + len ≤ length bytes
    → slice_of bytes offset len ≡ some (take len (drop offset bytes))
unfolding slice_of
slice_of-in_range bytes offset len h = rw (ltb-eq_false (length bytes) (offset + len) h) refl

module _ {S : Type 0} (st : Storage S) (blake3 : List ℕ → Array 32)
    (document_id_to_string : DocumentId → List ℕ) where
  fetch_blob_part-in_range :
      (b : BlobHash) (offset len : ℕ) (bytes : List ℕ) (w : World S)
      → st.load (StorageKey.blob b) w.store ≡ some bytes
      → offset + len ≤ length bytes
      → fetch_blob_part st blake3 document_id_to_string b offset len w
        ≡ some (Response.fetch_blob_part (take len (drop offset bytes)))
  unfolding fetch_blob_part
  fetch_blob_part-in_range b offset len bytes w l h =
      rw (fetch_blob_part, l, slice_of-in_range bytes offset len h) refl

  -- What is written of an item leaves its blob.
  load-write_part :
      (doc : DocumentId) (category : CommitCategory) (part : TreePart) (contents : List ℕ) (s : S)
      → IsStorage st
      → st.load (StorageKey.blob (hash_of blake3 contents)) s ≡ some contents
      → st.load (StorageKey.blob (hash_of blake3 contents)) (
          write_part st blake3 document_id_to_string doc category part
            (blob_meta_new blake3 contents, contents)
            s)
        ≡ some contents
  unfolding write_part write_loose_commit write_bundle commit_path strata_path sedimentree_root
      with_subcomponent blob_meta_new
  load-write_part doc category (TreePart.commit hash parents) contents s laws l =
      laws.load-put_other _ (StorageKey.blob (hash_of blake3 contents)) _ s
        (apart _ (hash_of blake3 contents) refl)
      ∙ l
  load-write_part doc category (TreePart.stratum start end checkpoints) contents s laws l =
      laws.load-put_other _ (StorageKey.blob (hash_of blake3 contents)) _ _
        (apart _ (hash_of blake3 contents) refl)
      ∙ laws.load-put (StorageKey.blob (hash_of blake3 contents)) contents s

  -- In a storage that keeps what was put last at a key: an item with its blob inline is taken in, and
  -- a peer that then asks for a part of the blob within its length gets that part of the contents.
  pub fetch_blob_part-upload_commits :
      (from_peer : PeerId) (doc : DocumentId) (category : CommitCategory) (part : TreePart)
      (contents : List ℕ) (offset len : ℕ) (w : World S)
      → IsStorage st
      → offset + len ≤ length contents
      → (w' : World S) × (r : Response) × (upload_commits st blake3 document_id_to_string from_peer
            doc
            (record { blob = BlobRef.inline contents; tree_part = part } ∷ [])
            category
            w
          ≡ some w')
        × (fetch_blob_part st blake3 document_id_to_string (hash_of blake3 contents) offset len w'
            ≡ some r)
        × (fetched_blob_part r ≡ ok (take len (drop offset contents)))
  unfolding upload_commits upload_item item_blob fetched_blob_part blob_meta_new
  fetch_blob_part-upload_commits from_peer doc category part contents offset len w laws h =
      let item : UploadItem = record { blob = BlobRef.inline contents; tree_part = part } in
      let b = hash_of blake3 contents in
      let s = st.put (StorageKey.blob b) contents w.store in
      let w' : World S = record w {
        store =
            write_part st blake3 document_id_to_string doc category part
              (blob_meta_new blake3 contents, contents) s;
        log = new_commit doc from_peer item category w.log;
      } in
      (
        w',
        Response.fetch_blob_part (take len (drop offset contents)),
        refl,
        fetch_blob_part-in_range b offset len contents w'
            (load-write_part doc category part contents s laws
              (laws.load-put (StorageKey.blob b) contents w.store))
            h,
        refl,
      )

  past_end :
      (b : BlobHash) (offset len : ℕ) (bytes : List ℕ) (w : World S)
      → st.load (StorageKey.blob b) w.store ≡ some bytes
      → length bytes < offset + len
      → fetch_blob_part st blake3 document_id_to_string b offset len w ≡ none
  unfolding fetch_blob_part slice_of
  past_end b offset len bytes w l h =
      rw (fetch_blob_part, l, slice_of, lt→ltb (length bytes) (offset + len) h) refl

  no_blob :
      (b : BlobHash) (offset len : ℕ) (w : World S)
      → st.load (StorageKey.blob b) w.store ≡ none
      → fetch_blob_part st blake3 document_id_to_string b offset len w
        ≡ some (Response.error no_such_blob)
  unfolding fetch_blob_part
  no_blob b offset len w l = rw (fetch_blob_part, l) refl

  -- A request for a part of a blob makes the handler panic exactly if the blob is there and the part
  -- goes past its end.
  pub fetch_blob_part-none_iff :
      (b : BlobHash) (offset len : ℕ) (w : World S)
      → (fetch_blob_part st blake3 document_id_to_string b offset len w ≡ none) ↔ (
          (bytes : List ℕ) × (st.load (StorageKey.blob b) w.store ≡ some bytes)
          × (length bytes < offset + len))
  fetch_blob_part-none_iff b offset len w = (
    λ p. elim (Option-cases (st.load (StorageKey.blob b) w.store)) [
      | inl n ↦ absurd (cc (p, no_blob b offset len w n))
      | inr (bytes, y) ↦ elim (le_or_lt (offset + len) (length bytes)) [
        | inl h ↦ absurd (cc (p, fetch_blob_part-in_range b offset len bytes w y h))
        | inr h ↦ (bytes, y, h)
      ]
    ],
    λ (bytes, y, h). past_end b offset len bytes w y h,
  )
