-- ===== src/Commit.antt =====
-- src/commit.rs: commit hashes, commits, bundles of commits and their builder.
use beelay.Prelude.{err, ok, ◌==◌, length, and_then, if◌then◌else◌, Result, ℕ, List, Option, []}
use beelay.Prelude.Array.{Array, to_list, copy_from_slice}
use beelay.Hex
use beelay.Parse.Input.{named, Parser, pure, ◌>>=◌, with_context, arr}
use beelay.Parse.Reads.{Reads, Reads-map, Reads-pure, Reads-with_context, Reads-arr}

pub record CommitHash : Type 0 where
  pub digest : Array 32

unfoldable pub parse_commit_hash : Parser CommitHash
unfolding with_context ◌>>=◌ pure arr
parse_commit_hash =
    with_context (named "CommitHash")
      (arr 32 >>= λ hash_bytes. pure (record { digest = hash_bytes }))

unfoldable pub encode_commit_hash : CommitHash → List ℕ
unfolding to_list
encode_commit_hash h = to_list h.digest

unfoldable pub commit_hash_to_string : CommitHash → List ℕ
unfolding Hex.encode to_list
commit_hash_to_string h = Hex.encode (to_list h.digest)

unfoldable pub commit_hash_from_str : List ℕ → Result CommitHash Hex.FromHexError
unfolding Hex.decode copy_from_slice
commit_hash_from_str s = and_then (Hex.decode s) λ bytes.
    if length bytes == 32
    then ok (record { digest = copy_from_slice 32 bytes })
    else err Hex.invalid_string_length

-- `TryFrom<&[u8]>`; the error holds the length that was met.
unfoldable pub commit_hash_try_from : List ℕ → Result CommitHash ℕ
unfolding copy_from_slice
commit_hash_try_from value =
    if length value == 32
    then ok (record { digest = copy_from_slice 32 value })
    else err (length value)

pub record Commit : Type 0 where
  pub parents : List CommitHash
  pub contents : List ℕ
  pub hash : CommitHash

pub record CommitBundle : Type 0 where
  pub bundled_commits : List ℕ
  pub start : Option CommitHash
  pub end : CommitHash
  pub checkpoints : List CommitHash

pub data CommitOrBundle : Type 0 where
  commit : Commit → CommitOrBundle
  bundle : CommitBundle → CommitOrBundle

-- The type parameters say which fields are set: `Unit` for `UnSet`, the type itself for `Set`.
pub record BundleBuilder (Start End Commits : Type 0) : Type 0 where
  pub start : Start
  pub end : End
  pub commits : Commits
  pub checkpoints : List CommitHash

unfoldable pub builder : BundleBuilder (Unit {0}) (Unit {0}) (Unit {0})
builder = record { start = tt; end = tt; commits = tt; checkpoints = [] }

module _ {T U V : Type 0} (b : BundleBuilder T U V) where
  unfoldable pub with_start : Option CommitHash → BundleBuilder (Option CommitHash) U V
  with_start start = record {
    start = start;
    end = b.end;
    commits = b.commits;
    checkpoints = b.checkpoints;
  }

  unfoldable pub with_end : CommitHash → BundleBuilder T CommitHash V
  with_end end = record {
    start = b.start;
    end = end;
    commits = b.commits;
    checkpoints = b.checkpoints;
  }

  unfoldable pub with_bundled_commits : List ℕ → BundleBuilder T U (List ℕ)
  with_bundled_commits commits = record {
    start = b.start;
    end = b.end;
    commits = commits;
    checkpoints = b.checkpoints;
  }

  unfoldable pub with_checkpoints : List CommitHash → BundleBuilder T U V
  with_checkpoints checkpoints = record {
    start = b.start;
    end = b.end;
    commits = b.commits;
    checkpoints = checkpoints;
  }

unfoldable pub build : BundleBuilder (Option CommitHash) CommitHash (List ℕ) → CommitBundle
build b = record {
  bundled_commits = b.commits;
  start = b.start;
  end = b.end;
  checkpoints = b.checkpoints;
}

pub Reads-commit_hash : (h : CommitHash) → Reads parse_commit_hash (encode_commit_hash h) h
unfolding parse_commit_hash encode_commit_hash
Reads-commit_hash h = Reads-with_context _ (Reads-map _ (Reads-arr h.digest) (Reads-pure _))
