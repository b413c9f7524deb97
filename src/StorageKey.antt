-- ===== src/StorageKey.antt =====
-- src/storage_key.rs: the keys of the storage. A `String` is the list of its bytes.
pub mod Laws
pub mod Reading
pub mod Equality
use beelay.Prelude.{ℕ, Bool, true, false, ◌&&◌, List, [], ◌∷◌, ◌++◌, Option, none, some, ◌≡◌}
use beelay.Prelude.{Result, ok, err, ◌==◌, if◌then◌else◌, drop, any, refl, ap}
use beelay.Prelude.Equality.{Eq, ◌=?◌, nats_eq, nats_beq}
use beelay.Ids.{DocumentId, CommitCategory, content, index}
use beelay.Blob.{BlobHash, blob_hash_to_string}

pub data Namespace : Type 0 where
  dags sedimentrees blobs : Namespace
  other : List ℕ → Namespace

pub record StorageKey : Type 0 where
  pub namespace : Namespace
  pub remaining : List (List ℕ)

pub data Error : Type 0 where
  empty contained_slashes : Error

-- "dags", "sedimentrees", "blobs"
abbrev pub dags_name : List ℕ
dags_name = 100 ∷ 97 ∷ 103 ∷ 115 ∷ []

abbrev pub sedimentrees_name : List ℕ
sedimentrees_name = 115 ∷ 101 ∷ 100 ∷ 105 ∷ 109 ∷ 101 ∷ 110 ∷ 116 ∷ 114 ∷ 101 ∷ 101 ∷ 115 ∷ []

abbrev pub blobs_name : List ℕ
blobs_name = 98 ∷ 108 ∷ 111 ∷ 98 ∷ 115 ∷ []

abbrev pub slash : ℕ
slash = 47

unfoldable pub as_ref : Namespace → List ℕ
as_ref dags = dags_name
as_ref sedimentrees = sedimentrees_name
as_ref blobs = blobs_name
as_ref (other name) = name

-- The derived `PartialEq`.
unfoldable pub namespace_beq : Namespace → Namespace → Bool
unfolding nats_beq
namespace_beq dags dags = true
namespace_beq sedimentrees sedimentrees = true
namespace_beq blobs blobs = true
namespace_beq (other a) (other b) = nats_beq a b
namespace_beq a b = false

unfoldable pub display_parts : List (List ℕ) → List ℕ
display_parts [] = []
display_parts (part ∷ parts) = 47 ∷ part ++ display_parts parts

unfoldable pub to_string : StorageKey → List ℕ
unfolding as_ref display_parts
to_string k = as_ref k.namespace ++ display_parts k.remaining

unfoldable pub blob : BlobHash → StorageKey
unfolding blob_hash_to_string
blob h = record { namespace = blobs; remaining = blob_hash_to_string h ∷ [] }

-- "content", "index"
unfoldable pub category_to_string : CommitCategory → List ℕ
category_to_string content = 99 ∷ 111 ∷ 110 ∷ 116 ∷ 101 ∷ 110 ∷ 116 ∷ []
category_to_string index = 105 ∷ 110 ∷ 100 ∷ 101 ∷ 120 ∷ []

-- `document_id_to_string` stands for bs58 with its checksum.
unfoldable pub sedimentree_root : (DocumentId → List ℕ) → DocumentId → CommitCategory → StorageKey
unfolding category_to_string
sedimentree_root document_id_to_string doc category = record {
  namespace = sedimentrees;
  remaining = document_id_to_string doc ∷ category_to_string category ∷ [];
}

-- `a.iter().zip(b.iter()).all(|(a, b)| a == b)`
unfoldable pub zip_all : List (List ℕ) → List (List ℕ) → Bool
zip_all [] ys = true
zip_all (a ∷ xs) [] = true
zip_all (a ∷ xs) (b ∷ ys) = a =? b && zip_all xs ys

unfoldable pub is_prefix_of : StorageKey → StorageKey → Bool
unfolding namespace_beq zip_all
is_prefix_of k o = namespace_beq k.namespace o.namespace && zip_all k.remaining o.remaining

unfoldable pub components : StorageKey → List (List ℕ)
unfolding as_ref
components k = as_ref k.namespace ∷ k.remaining

unfoldable pub last : List (List ℕ) → Option (List ℕ)
last [] = none
last (a ∷ []) = some a
last (a ∷ (b ∷ bs)) = last (b ∷ bs)

unfoldable pub name : StorageKey → Option (List ℕ)
unfolding last
name k = last k.remaining

unfoldable pub with_subcomponent : List ℕ → StorageKey → StorageKey
with_subcomponent subcomponent k = record k { remaining = k.remaining ++ subcomponent ∷ [] }

unfoldable pub has_slash : List ℕ → Bool
unfolding any
has_slash part = any (λ b. b == slash) part

unfoldable pub namespace_of : List ℕ → Namespace
unfolding nats_beq
namespace_of first = if nats_beq first dags_name then dags else other first

-- What is left of `try_from` behind the test for slashes; `none` is the panic of `value[2..]`.
unfoldable pub try_parts : List (List ℕ) → Option (Result StorageKey Error)
unfolding namespace_of
try_parts [] = some (err empty)
try_parts (first ∷ []) = none
try_parts (first ∷ (second ∷ rest)) =
    some (ok (record { namespace = namespace_of first; remaining = rest }))

unfoldable pub try_from : List (List ℕ) → Option (Result StorageKey Error)
unfolding has_slash try_parts any
try_from value = if any has_slash value then some (err contained_slashes) else try_parts value
