-- ===== src/Tests/Store.antt =====
-- A storage in memory, and a commit that is written to it.
use beelay.Prelude.{ℕ, ◌≡◌, ◌≢◌, refl, List, [], ◌∷◌, Option, none, some, arith, leb, false, ◌<◌}
use beelay.Prelude.{ok, take, drop, length, ◌+◌, ◌↔◌, ap}
use beelay.Prelude.Pairwise.{All-map, All-any}
use beelay.Prelude.Array.{copy_from_slice, to_list, Array}
use beelay.Prelude.Assoc.{lookup, insert, lookup-insert, lookup-insert_other}
use beelay.Prelude.Equality.{nat_eq, array_eq}
use beelay.StorageKey
use beelay.Commit.{CommitHash}
use beelay.StorageKey.{StorageKey, sedimentrees}
use beelay.StorageKey.Equality.{key_eq}
use beelay.Sedimentree.Types.{IsLooseCommit}
use beelay.Sedimentree.Storage.{Storage, load_loose_commit, write_loose_commit, update}
use beelay.Sedimentree.Storage.Laws.{IsStorage, IsHash, load_loose_commit-write_loose_commit}
use beelay.Sedimentree.Diff.{to_save}
use beelay.Sedimentree.Storage.Update.{load_loose_commit-update}
use beelay.Tests.{shallow, loose_commit, hash_1000, client_id, doc}
use beelay.Ids.{DocumentId, content, request_id_eq}
use beelay.Blob.{hash_of}
use beelay.Messages.Types.{Response, BlobRef, TreePart, UploadItem}
use beelay.Subscriptions.{log_new}
use beelay.Handlers.{upload_item, handle, World, upload_commits, fetch_blob_part}
use beelay.Handlers.Notified.{handle-upload_item}
use beelay.Handlers.Fetching.{fetch_blob_part-upload_commits, fetch_blob_part-none_iff}
use beelay.Effects.{new_io, start_put, start_load_range, with_cached}
use beelay.Effects.Rpc.{fetched_blob_part}
use beelay.Effects.Puts.{load_range-start_put}
use beelay.Effects.Pending.{IsPutting, Reachable, Reachable-IsPutting}

abbrev Memory : Type 0
Memory = List (StorageKey × List ℕ)

memory : Storage Memory
memory = record { load = λ k m. lookup m k; load_range = λ k m. m; put = λ k v m. insert k v m }

memory-IsStorage : IsStorage memory
unfolding memory
memory-IsStorage = record {
  load-put = λ k v m. lookup-insert k v m;
  load-put_other = λ k j v m ne. lookup-insert_other k j v m ne;
}

abbrev path : StorageKey
path = record { namespace = sedimentrees; remaining = [] }

loose_commit-IsLooseCommit : IsLooseCommit loose_commit
loose_commit-IsLooseCommit = record { parents = omega arith; size = omega arith }

below_256 : (b : ℕ) → leb 256 b ≡ false → b < 256
below_256 b h = ground arith

hash_1000-IsHash : IsHash hash_1000
unfolding to_list copy_from_slice beelay.Prelude.any
hash_1000-IsHash =
    let bytes = to_list hash_1000.digest in
    All-map (λ b. leb 256 b ≡ false) (λ b. b < 256) below_256 bytes
      (All-any (λ b. leb 256 b) bytes refl)

load_loose_commit-write_loose_commit_example :
    (load_loose_commit memory path hash_1000 (write_loose_commit memory path loose_commit [])
      ≡ some (some loose_commit))
    × ((d : CommitHash)
        → IsHash d
        → hash_1000 ≢ d
        → load_loose_commit memory path d (write_loose_commit memory path loose_commit [])
          ≡ load_loose_commit memory path d [])
load_loose_commit-write_loose_commit_example =
    load_loose_commit-write_loose_commit memory path loose_commit [] memory-IsStorage
      loose_commit-IsLooseCommit hash_1000-IsHash

abbrev blake3 : List ℕ → Array 32
blake3 bytes = copy_from_slice 32 bytes

abbrev id_text : DocumentId → List ℕ
id_text d = 68 ∷ []

abbrev world : World Memory
world = record { store = []; log = log_new; emitted = [] }

fetch_blob_part-upload_commits_example :
    (w : World Memory) × (r : Response) × (upload_commits memory blake3 id_text client_id doc
        (record { blob = BlobRef.inline (1 ∷ 2 ∷ 3 ∷ []); tree_part = TreePart.commit hash_1000 [] }
          ∷ [])
        content
        world
      ≡ some w)
    × (fetch_blob_part memory blake3 id_text (hash_of blake3 (1 ∷ 2 ∷ 3 ∷ [])) 1 2 w ≡ some r)
    × (fetched_blob_part r ≡ ok (take 2 (drop 1 (1 ∷ 2 ∷ 3 ∷ []))))
fetch_blob_part-upload_commits_example =
    fetch_blob_part-upload_commits memory blake3 id_text client_id doc content
      (TreePart.commit hash_1000 []) (1 ∷ 2 ∷ 3 ∷ []) 1 2 world memory-IsStorage (omega arith)

fetch_blob_part-none_iff_example :
    (fetch_blob_part memory blake3 id_text (hash_of blake3 (1 ∷ [])) 1 2 world ≡ none) ↔ (
      (bytes : List ℕ) × (memory.load (StorageKey.blob (hash_of blake3 (1 ∷ []))) world.store
        ≡ some bytes)
      × (length bytes < 1 + 2))
fetch_blob_part-none_iff_example =
    fetch_blob_part-none_iff memory blake3 id_text (hash_of blake3 (1 ∷ [])) 1 2 world

-- Task 10 has put a value at the key a/b.
abbrev key_ab : StorageKey
key_ab = record { namespace = sedimentrees; remaining = (97 ∷ []) ∷ (98 ∷ []) ∷ [] }

abbrev key_a : StorageKey
key_a = record { namespace = sedimentrees; remaining = (97 ∷ []) ∷ [] }

load_range-start_put_example :
    lookup
      (with_cached
        ((key_ab, 0 ∷ []) ∷ [])
        (start_load_range 10 2 key_a (start_put 10 1 key_ab (5 ∷ []) (new_io {Task = ℕ})).0).1.1)
      key_ab
    ≡ some (5 ∷ [])
unfolding StorageKey.is_prefix_of new_io
load_range-start_put_example =
    load_range-start_put 10 10 1 2 key_a key_ab (5 ∷ []) ((key_ab, 0 ∷ []) ∷ []) new_io refl tt

Reachable-IsPutting_example : IsPutting (start_put 10 1 key_ab (5 ∷ []) (new_io {Task = ℕ})).0
Reachable-IsPutting_example =
    Reachable-IsPutting (start_put 10 1 key_ab (5 ∷ []) new_io).0
      (Reachable.after_put 10 1 key_ab (5 ∷ []) new_io Reachable.start)

abbrev upload_one : UploadItem
upload_one = record { blob = BlobRef.inline (1 ∷ 2 ∷ []); tree_part = TreePart.commit hash_1000 [] }

handle-upload_item_example :
    (w1 w2 : World Memory) × (upload_item memory blake3 id_text client_id doc content upload_one
        world
      ≡ some w1)
    × (handle memory blake3 id_text
          (record { from_peer = client_id; doc = doc; item = upload_one })
          world
        ≡ some w2)
    × (w1.store ≡ w2.store)
    × (w1.log ≡ w2.log)
handle-upload_item_example =
    handle-upload_item memory blake3 id_text client_id doc (1 ∷ 2 ∷ [])
      (TreePart.commit hash_1000 []) world

load_loose_commit-update_example :
    load_loose_commit memory path hash_1000
      (update memory path none (record { strata = shallow ∷ []; commits = loose_commit ∷ [] }) [])
    ≡ some (some loose_commit)
unfolding to_save
load_loose_commit-update_example =
    load_loose_commit-update memory memory-IsStorage path none
      (record { strata = shallow ∷ []; commits = loose_commit ∷ [] }) 0 loose_commit []
      ((loose_commit-IsLooseCommit, hash_1000-IsHash), tt) (tt, tt) refl
