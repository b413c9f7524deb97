-- ===== src/Sedimentree/Storage/Laws.antt =====
-- src/sedimentree/storage.rs: what was written is read back.
use mathlib.Core.Option.{some_inj}
use beelay.Prelude.{ℕ, List, [], ◌∷◌, ◌++◌, some, ok, err, ◌≡◌, ◌≢◌, refl, ap, sym, ◌∙◌}
use beelay.Prelude.{append-nil, All, ◌<◌, ◌+◌, length}
use beelay.Prelude.Array.{to_list, copy_from_slice, copy_from_slice-to_list}
use beelay.Hex
use beelay.Commit.{CommitHash, commit_hash_to_string}
use beelay.Hex.RoundTrip.{hex_decode-encode}
use beelay.StorageKey.{StorageKey, with_subcomponent, last}
use beelay.Parse.Input.{new, Parser}
use beelay.Parse.Reads.{Reads}
use beelay.Sedimentree.Types.{LooseCommit, IsLooseCommit}
use beelay.Sedimentree.Codec.{encode_loose_commit, Reads-loose_commit}
use beelay.Sedimentree.Storage.{Storage, commit_path, write_loose_commit, load_loose_commit}
use beelay.Sedimentree.Storage.{loose_commits_name}

-- A storage that keeps what was put last at a key.
pub record IsStorage {S : Type 0} (st : Storage S) : Type 0 where
  pub load-put : (k : StorageKey) (v : List ℕ) (s : S) → st.load k (st.put k v s) ≡ some v
  pub load-put_other :
      (k j : StorageKey) (v : List ℕ) (s : S) → k ≢ j → st.load j (st.put k v s) ≡ st.load j s

last-snoc : (xs : List (List ℕ)) (x : List ℕ) → last (xs ++ x ∷ []) ≡ some x
unfolding last
last-snoc [] x = refl
last-snoc (y ∷ []) x = refl
last-snoc (y ∷ (z ∷ xs)) x = last-snoc (z ∷ xs) x

-- The bytes of a hash.
abbrev pub IsHash : CommitHash → Type 0
IsHash c = All (λ b. b < 256) (to_list c.digest)

commit_hash_to_string_inj :
    (c d : CommitHash)
    → IsHash c
    → IsHash d
    → commit_hash_to_string c ≡ commit_hash_to_string d
    → c ≡ d
unfolding commit_hash_to_string
commit_hash_to_string_inj c d hc hd p =
    let q =
      sym (hex_decode-encode (to_list c.digest) hc)
      ∙ ap Hex.decode p
      ∙ hex_decode-encode (to_list d.digest) hd in
    let r = ap (λ o. elim o [ ok bytes ↦ bytes | err x ↦ [] ]) q in
    ap (λ a. record { digest = a })
      (sym (copy_from_slice-to_list c.digest)
        ∙ ap (copy_from_slice 32) r
        ∙ copy_from_slice-to_list d.digest)

last_part :
    (prefix : StorageKey) (c : CommitHash)
    → last (commit_path prefix c).remaining ≡ some (commit_hash_to_string c)
unfolding commit_path with_subcomponent
last_part prefix c =
    last-snoc (prefix.remaining ++ loose_commits_name ∷ []) (commit_hash_to_string c)

commit_path_inj :
    (prefix : StorageKey) (c d : CommitHash)
    → IsHash c
    → IsHash d
    → commit_path prefix c ≡ commit_path prefix d
    → c ≡ d
commit_path_inj prefix c d hc hd p = commit_hash_to_string_inj c d hc hd (
    some_inj.0
      (sym (last_part prefix c) ∙ ap (λ (k : StorageKey). last k.remaining) p ∙ last_part prefix d))

parses-new :
    {A : Type 0} {p : Parser A} {bs : List ℕ} {a : A}
    → Reads p bs a
    → p (new bs) ≡ ok (record { context = []; bytes = []; offset = 0 + length bs }, a)
unfolding new
parses-new {p = p} {bs = bs} r =
    ap (λ x. p (record { context = []; bytes = x; offset = 0 })) (sym (append-nil bs))
    ∙ r.run [] [] 0

-- In a storage that keeps what was put last at a key, a loose commit whose lengths fit u64 is loaded
-- as it was written, and what is loaded for another hash is what was loaded before.
pub load_loose_commit-write_loose_commit :
    {S : Type 0} (st : Storage S) (path : StorageKey) (c : LooseCommit) (s : S)
    → IsStorage st
    → IsLooseCommit c
    → IsHash c.hash
    → (load_loose_commit st path c.hash (write_loose_commit st path c s) ≡ some (some c))
      × ((d : CommitHash)
          → IsHash d
          → c.hash ≢ d
          → load_loose_commit st path d (write_loose_commit st path c s)
            ≡ load_loose_commit st path d s)
unfolding load_loose_commit write_loose_commit
load_loose_commit-write_loose_commit st path c s laws h hc = (
  rw
      (
        load_loose_commit,
        write_loose_commit,
        laws.load-put (commit_path path c.hash) (encode_loose_commit c) s,
        parses-new (Reads-loose_commit c h),
      )
      refl,
  λ d hd ne.
      rw
        (
          load_loose_commit,
          write_loose_commit,
          laws.load-put_other (commit_path path c.hash) (commit_path path d) (encode_loose_commit c)
              s (λ p. ne (commit_path_inj path c.hash d hc hd p)),
        )
        refl,
)
