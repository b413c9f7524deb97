-- ===== src/Sedimentree/Storage/Update.antt =====
-- src/sedimentree/storage.rs: the commits that `update` saves are loaded as they were.
use mathlib.Core.Option.{some_inj}
use beelay.Prelude.{ℕ, zero, suc, List, [], ◌∷◌, Option, some, ◌≡◌, ◌≢◌, refl, sym, ◌∙◌, All}
use beelay.Prelude.{get_elem?, subst}
use beelay.Prelude.Pairwise.{Pairwise}
use beelay.Commit.{CommitHash}
use beelay.StorageKey.{StorageKey}
use beelay.Sedimentree.Types.{LooseCommit, IsLooseCommit, Sedimentree}
use beelay.Sedimentree.Diff.{to_save}
use beelay.Sedimentree.Storage.{Storage, write_loose_commit, load_loose_commit, save_commits}
use beelay.Sedimentree.Storage.{save_strata, update}
use beelay.Sedimentree.Storage.Laws.{IsStorage, IsHash, load_loose_commit-write_loose_commit}

-- What the wire format and the names of keys ask of a commit.
abbrev pub IsStored : LooseCommit → Type 0
IsStored c = IsLooseCommit c × IsHash c.hash

abbrev pub HaveOtherHashes : LooseCommit → LooseCommit → Type 0
HaveOtherHashes c d = c.hash ≢ d.hash

module _ {S : Type 0} (st : Storage S) (laws : IsStorage st) (path : StorageKey) where
  -- Commits with other hashes leave what is loaded for a hash.
  save_commits-other :
      (cs : List LooseCommit) (d : CommitHash) (s : S)
      → All IsStored cs
      → IsHash d
      → All (λ c. d ≢ c.hash) cs
      → load_loose_commit st path d (save_commits st path cs s) ≡ load_loose_commit st path d s
  unfolding save_commits
  save_commits-other [] d s a h ne = refl
  save_commits-other (c ∷ cs) d s ((hc, ic), a) h (ne, nes) =
      save_commits-other cs d (write_loose_commit st path c s) a h nes
      ∙ (load_loose_commit-write_loose_commit st path c s laws hc ic).1 d h (λ p. ne (sym p))

  load_loose_commit-save_commits :
      (cs : List LooseCommit) (i : ℕ) (c : LooseCommit) (s : S)
      → All IsStored cs
      → Pairwise HaveOtherHashes cs
      → get_elem? cs i ≡ some c
      → load_loose_commit st path c.hash (save_commits st path cs s) ≡ some (some c)
  unfolding save_commits
  load_loose_commit-save_commits [] i c s a d f = absurd (cc f)
  load_loose_commit-save_commits (x ∷ cs) zero c s ((hx, ix), a) (d, ds) f =
      let p = some_inj.0 f in
      subst
        (λ z.
          load_loose_commit st path z.hash
            (save_commits st path cs (write_loose_commit st path x s))
          ≡ some (some z))
        p
        (save_commits-other cs x.hash (write_loose_commit st path x s) a ix d
          ∙ (load_loose_commit-write_loose_commit st path x s laws hx ix).0)
  load_loose_commit-save_commits (x ∷ cs) (suc i) c s (h, a) (d, ds) f =
      load_loose_commit-save_commits cs i c (write_loose_commit st path x s) a ds f

  -- Each commit that `update` saves is loaded as it was, if the commits that it saves have hashes
  -- that differ, of bytes, and lengths that fit u64, in a storage that keeps what was put last at a
  -- key.
  pub load_loose_commit-update :
      (original : Option Sedimentree) (new_tree : Sedimentree) (i : ℕ) (c : LooseCommit) (s : S)
      → All IsStored (to_save original new_tree).1
      → Pairwise HaveOtherHashes (to_save original new_tree).1
      → get_elem? (to_save original new_tree).1 i ≡ some c
      → load_loose_commit st path c.hash (update st path original new_tree s) ≡ some (some c)
  unfolding update
  load_loose_commit-update original new_tree i c s a d f =
      load_loose_commit-save_commits (to_save original new_tree).1 i c
        (save_strata st path (to_save original new_tree).0 s) a d f
