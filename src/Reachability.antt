-- ===== src/Reachability.antt =====
-- src/reachability.rs: the index of the documents that a document links to.
pub mod Reading
use beelay.Prelude.{ℕ, zero, suc, List, [], ◌∷◌, ◌++◌, Bool, Option, none, some, ok, err, length}
use beelay.Prelude.{if◌then◌else◌}
use beelay.Prelude.Equality.{contains}
use beelay.Ids.{DocumentId, document_id_eq, parse_document_id, encode_document_id}
use beelay.Commit.{CommitOrBundle, commit, bundle}
use beelay.Parse.Input.{Input, new, is_empty, Parser, ◌>>=◌, pure}

pub record ReachabilityIndex : Type 0 where
  pub reachable : List DocumentId

pub record ReachabilityIndexEntry : Type 0 where
  pub document_id : DocumentId

unfoldable pub index_new : ReachabilityIndex
index_new = record { reachable = [] }

unfoldable pub parse_entry : Parser ReachabilityIndexEntry
unfolding ◌>>=◌ pure parse_document_id
parse_entry = parse_document_id >>= λ doc_id. pure (record { document_id = doc_id })

unfoldable pub encode_entry : ReachabilityIndexEntry → List ℕ
unfolding encode_document_id
encode_entry e = encode_document_id e.document_id

-- `index += entry`
unfoldable pub add_entry : ReachabilityIndex → ReachabilityIndexEntry → ReachabilityIndex
add_entry i e = record { reachable = i.reachable ++ e.document_id ∷ [] }

-- `index += other`
unfoldable pub add_index : ReachabilityIndex → ReachabilityIndex → ReachabilityIndex
add_index i other = record { reachable = i.reachable ++ other.reachable }

-- The loop of `from_tree`. `none` is a panic of its `unwrap`, or fuel that ran out.
unfoldable pub read_entries : ℕ → Input → ReachabilityIndex → Option ReachabilityIndex
unfolding is_empty
read_entries zero input result = none
read_entries (suc fuel) input result =
    let entry : Option ReachabilityIndex = elim (parse_entry input) [
      | ok (new_input, e) ↦ read_entries fuel new_input (add_entry result e)
      | err e ↦ none
    ] in
    if is_empty input then some result else entry

unfoldable pub contents_of : CommitOrBundle → List ℕ
contents_of (commit c) = c.contents
contents_of (bundle b) = b.bundled_commits

unfoldable pub concat_contents : List CommitOrBundle → List ℕ
unfolding contents_of
concat_contents [] = []
concat_contents (i ∷ items) = contents_of i ++ concat_contents items

-- `from_tree` behind the loading of the items from storage. An entry takes a byte at least, so
-- that one round for each byte and one more are enough.
unfoldable pub from_items : List CommitOrBundle → Option ReachabilityIndex
unfolding concat_contents read_entries new index_new
from_items items =
    let altogether = concat_contents items in
    read_entries (suc (length altogether)) (new altogether) index_new

unfoldable pub has_link : ReachabilityIndex → DocumentId → Bool
has_link i to = contains i.reachable to
