-- ===== src/Reachability/Reading.antt =====
-- src/reachability.rs: what `from_tree` reads of an index that holds one entry after another.
use beelay.Prelude.{le_or_lt, leb-eq_false, leb-eq_true, take, inl, inr, length-append, length, ℕ}
use beelay.Prelude.{zero, suc, ◌+◌, ◌-◌, ◌*◌, ◌/◌, ◌≤◌, ◌<◌, ◌≡◌, refl, ap, ◌∙◌, arith, List, []}
use beelay.Prelude.{◌∷◌, ◌++◌, append_assoc, append-nil, some}
use beelay.Prelude.Array.{length-to_list}
use beelay.Reachability.{contents_of, add_entry, concat_contents, from_items, read_entries}
use beelay.Reachability.{ReachabilityIndexEntry, parse_entry, encode_entry}
use beelay.Ids.{DocumentId, encode_document_id, Reads-document_id}
use beelay.Commit.{CommitHash, commit}
use beelay.Parse.Input.{Label, new}
use beelay.Parse.Reads.{at, Reads, Reads-map, Reads-pure}

-- The entries of an index, one after the other.
unfoldable pub encode_entries : List DocumentId → List ℕ
encode_entries [] = []
encode_entries (d ∷ docs) = encode_entry (record { document_id = d }) ++ encode_entries docs

Reads-entry : (e : ReachabilityIndexEntry) → Reads parse_entry (encode_entry e) e
unfolding parse_entry encode_entry
Reads-entry e = Reads-map _ (Reads-document_id e.document_id) (Reads-pure _)

length-encode_entry : (e : ReachabilityIndexEntry) → length (encode_entry e) ≡ 16
unfolding encode_entry encode_document_id
length-encode_entry e = length-to_list e.document_id.id

length-encode_entries : (docs : List DocumentId) → length (encode_entries docs) ≡ 16 * length docs
unfolding encode_entries
length-encode_entries [] = omega arith
length-encode_entries (d ∷ docs) = omega (
  arith,
  length-append (encode_entry (record { document_id = d })) (encode_entries docs),
  length-encode_entry (record { document_id = d }),
  length-encode_entries docs,
)

take_none :
    (fuel k : ℕ) (c : List Label) (docs seen : List DocumentId)
    → length docs ≤ k
    → read_entries (suc fuel) (at c (encode_entries docs) (16 * k)) (record { reachable = seen })
      ≡ some (record { reachable = seen })
unfolding read_entries
take_none fuel k c docs seen h = rw (
    leb-eq_true (length (encode_entries docs)) (16 * k) (omega (arith, length-encode_entries docs)))

take_one :
    (fuel k : ℕ) (c : List Label) (d : DocumentId) (docs seen : List DocumentId)
    → k ≤ length docs
    → read_entries
        (suc fuel)
        (at c (encode_entries (d ∷ docs)) (16 * k))
        (record { reachable = seen })
      ≡ read_entries fuel
          (at c (encode_entries docs) (16 * (k + 1)))
          (record { reachable = seen ++ d ∷ [] })
unfolding read_entries add_entry encode_entries
take_one fuel k c d docs seen h =
    rw
      (
        leb-eq_false (length (encode_entries (d ∷ docs))) (16 * k)
            (omega (arith, length-encode_entries (d ∷ docs))),
        (Reads-entry (record { document_id = d })).run c (encode_entries docs) (16 * k),
      )
      (ap
        (λ o.
          read_entries fuel (at c (encode_entries docs) o) (record { reachable = seen ++ d ∷ [] }))
        (omega (arith, length-encode_entry (record { document_id = d }))))

half_suc : (m k : ℕ) → k ≤ m → (suc m + 1 - k) / 2 ≡ suc ((m + 1 - (k + 1)) / 2)
half_suc m k h = omega arith

half_zero : (m k : ℕ) → m ≤ k → (m + 1 - k) / 2 ≡ 0
half_zero m k h = omega arith

-- With `k` entries behind it the loop stops as soon as no more than `k` are left.
pub read_entries-encode :
    (fuel k : ℕ) (c : List Label) (docs seen : List DocumentId)
    → length docs < fuel
    → read_entries fuel (at c (encode_entries docs) (16 * k)) (record { reachable = seen })
      ≡ some (record { reachable = seen ++ take ((length docs + 1 - k) / 2) docs })
read_entries-encode zero k c docs seen h = absurd (omega arith)
read_entries-encode (suc fuel) k c [] seen h =
    rw (take_none fuel k c [] seen (omega arith), half_zero 0 k (omega arith), append-nil seen) refl
read_entries-encode (suc fuel) k c (d ∷ docs) seen h = elim (le_or_lt (suc (length docs)) k) [
  | inl l ↦
      rw (take_none fuel k c (d ∷ docs) seen l, half_zero (suc (length docs)) k l, append-nil seen)
        refl
  | inr g ↦
      rw
        (
          take_one fuel k c d docs seen (omega arith),
          read_entries-encode fuel (k + 1) c docs (seen ++ d ∷ []) (omega arith),
          half_suc (length docs) k (omega arith),
          append_assoc seen (d ∷ []) (take ((length docs + 1 - (k + 1)) / 2) docs),
        )
        refl
]

from_items-commit :
    (h : CommitHash) (ps : List CommitHash) (bs : List ℕ)
    → from_items (commit (record { parents = ps; contents = bs; hash = h }) ∷ [])
      ≡ read_entries (suc (length bs)) (at [] bs 0) (record { reachable = [] })
unfolding from_items concat_contents contents_of new
from_items-commit h ps bs =
    ap (λ b. read_entries (suc (length b)) (at [] b 0) (record { reachable = [] })) (append-nil bs)

-- A commit whose contents are the entries of `docs` is read as the first half of `docs`, the
-- middle one included: the loop ends when the bytes read are as many as the bytes left.
pub from_items-encode_entries :
    (h : CommitHash) (ps : List CommitHash) (docs : List DocumentId)
    → from_items (commit (record { parents = ps; contents = encode_entries docs; hash = h }) ∷ [])
      ≡ some (record { reachable = take ((length docs + 1) / 2) docs })
from_items-encode_entries h ps docs =
    from_items-commit h ps (encode_entries docs)
    ∙ read_entries-encode (suc (length (encode_entries docs))) 0 [] docs []
        (omega (arith, length-encode_entries docs))
    ∙ ap (λ n. some (record { reachable = take n docs })) (omega arith)
