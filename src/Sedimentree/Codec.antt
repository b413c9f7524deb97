-- ===== src/Sedimentree/Codec.antt =====
-- src/sedimentree.rs: how loose commits, strata and summaries are written and read.
use beelay.Prelude.{ℕ, ◌^◌, ◌<◌, List, [], ◌∷◌, ◌++◌, Option, none, some, length, All}
use beelay.Blob.{parse_blob_meta, encode_blob_meta, Reads-blob_meta}
use beelay.Commit.{CommitHash, parse_commit_hash, encode_commit_hash, Reads-commit_hash}
use beelay.Parse.Input.{named, Parser, pure, ◌>>=◌, with_context, maybe}
use beelay.Parse.Reads.{Reads, Reads-bind, Reads-map, Reads-pure, Reads-with_context}
use beelay.Parse.Reads.{Reads-maybe-some, Reads-maybe-none}
use beelay.Parse.Sized.{many, encode_many, Reads-many, Reads-many_all}
use beelay.Sedimentree.Types.{LooseCommit, StratumMeta, Stratum, SedimentreeSummary}
use beelay.Sedimentree.Types.{IsLooseCommit, IsStratumMeta, IsStratum}

unfoldable pub parse_loose_commit : Parser LooseCommit
unfolding with_context ◌>>=◌ pure many parse_commit_hash parse_blob_meta
parse_loose_commit = with_context (named "LooseCommit") (
    parse_commit_hash >>= λ hash.
    with_context (named "parents") (many parse_commit_hash) >>= λ parents.
    parse_blob_meta >>= λ blob. pure (record { hash = hash; parents = parents; blob = blob }))

unfoldable pub encode_loose_commit : LooseCommit → List ℕ
unfolding encode_commit_hash encode_many encode_blob_meta
encode_loose_commit c =
    encode_commit_hash c.hash
    ++ (encode_many encode_commit_hash c.parents ++ encode_blob_meta c.blob)

-- `if let Some(start) = .. { push(1); start.encode(..) } else { push(0) }`
unfoldable pub encode_start : Option CommitHash → List ℕ
unfolding encode_commit_hash
encode_start (some start) = 1 ∷ encode_commit_hash start
encode_start none = 0 ∷ []

unfoldable pub parse_stratum : Parser Stratum
unfolding with_context ◌>>=◌ pure many maybe parse_commit_hash parse_blob_meta
parse_stratum = with_context (named "Stratum") (
    maybe parse_commit_hash >>= λ start. parse_commit_hash >>= λ end. parse_blob_meta >>= λ blob.
    many parse_commit_hash >>= λ checkpoints.
    pure (record {
      meta = record { start = start; end = end; blob = blob };
      checkpoints = checkpoints;
    }))

unfoldable pub encode_stratum : Stratum → List ℕ
unfolding encode_start encode_commit_hash encode_many encode_blob_meta
encode_stratum s =
    encode_start s.meta.start
    ++ (encode_commit_hash s.meta.end
        ++ (encode_blob_meta s.meta.blob ++ encode_many encode_commit_hash s.checkpoints))

unfoldable pub parse_stratum_meta : Parser StratumMeta
unfolding with_context ◌>>=◌ pure maybe parse_commit_hash parse_blob_meta
parse_stratum_meta = with_context (named "StratumMeta") (
    maybe parse_commit_hash >>= λ start. parse_commit_hash >>= λ end.
    parse_blob_meta >>= λ blob. pure (record { start = start; end = end; blob = blob }))

unfoldable pub encode_stratum_meta : StratumMeta → List ℕ
unfolding encode_start encode_commit_hash encode_blob_meta
encode_stratum_meta m =
    encode_start m.start ++ (encode_commit_hash m.end ++ encode_blob_meta m.blob)

unfoldable pub parse_summary : Parser SedimentreeSummary
unfolding with_context ◌>>=◌ pure many parse_stratum_meta parse_loose_commit
parse_summary = with_context (named "SedimentreeSummary") (
    many parse_stratum_meta >>= λ levels.
    many parse_loose_commit >>= λ commits. pure (record { strata = levels; commits = commits }))

unfoldable pub encode_summary : SedimentreeSummary → List ℕ
unfolding encode_many encode_stratum_meta encode_loose_commit
encode_summary s =
    encode_many encode_stratum_meta s.strata ++ encode_many encode_loose_commit s.commits

pub record IsSummary (s : SedimentreeSummary) : Type 0 where
  pub strata : length s.strata < 2 ^ 64
  pub each_stratum : All IsStratumMeta s.strata
  pub commits : length s.commits < 2 ^ 64
  pub each_commit : All IsLooseCommit s.commits

pub Reads-commit_hashes :
    (hs : List CommitHash)
    → length hs < 2 ^ 64
    → Reads (many parse_commit_hash) (encode_many encode_commit_hash hs) hs
Reads-commit_hashes = Reads-many_all parse_commit_hash encode_commit_hash Reads-commit_hash

-- A loose commit whose lengths fit `u64` is read back from its encoding, whatever follows it, and the
-- offset moves by its length.
pub Reads-loose_commit :
    (c : LooseCommit) → IsLooseCommit c → Reads parse_loose_commit (encode_loose_commit c) c
unfolding parse_loose_commit encode_loose_commit
Reads-loose_commit c h = Reads-with_context _ (
    Reads-bind _ (Reads-commit_hash c.hash) (
      Reads-bind _ (Reads-with_context _ (Reads-commit_hashes c.parents h.parents))
        (Reads-map _ (Reads-blob_meta c.blob h.size) (Reads-pure _))))

pub Reads-start : (s : Option CommitHash) → Reads (maybe parse_commit_hash) (encode_start s) s
unfolding encode_start
Reads-start none = Reads-maybe-none parse_commit_hash
Reads-start (some h) = Reads-maybe-some (Reads-commit_hash h)

-- A stratum whose lengths fit `u64` is read back from its encoding, whatever follows it, and the
-- offset moves by its length.
pub Reads-stratum : (s : Stratum) → IsStratum s → Reads parse_stratum (encode_stratum s) s
unfolding parse_stratum encode_stratum
Reads-stratum s h = Reads-with_context _ (
    Reads-bind _ (Reads-start s.meta.start) (
      Reads-bind _ (Reads-commit_hash s.meta.end) (
        Reads-bind _ (Reads-blob_meta s.meta.blob h.meta)
          (Reads-map _ (Reads-commit_hashes s.checkpoints h.checkpoints) (Reads-pure _)))))

pub Reads-stratum_meta :
    (m : StratumMeta) → IsStratumMeta m → Reads parse_stratum_meta (encode_stratum_meta m) m
unfolding parse_stratum_meta encode_stratum_meta
Reads-stratum_meta m h = Reads-with_context _ (
    Reads-bind _ (Reads-start m.start) (
      Reads-bind _ (Reads-commit_hash m.end)
        (Reads-map _ (Reads-blob_meta m.blob h) (Reads-pure _))))

-- A summary whose lengths fit `u64` is read back from its encoding, whatever follows it, and the
-- offset moves by its length.
pub Reads-summary :
    (s : SedimentreeSummary) → IsSummary s → Reads parse_summary (encode_summary s) s
unfolding parse_summary encode_summary
Reads-summary s h = Reads-with_context _ (
    Reads-bind _
      (Reads-many parse_stratum_meta encode_stratum_meta Reads-stratum_meta s.strata h.strata
        h.each_stratum)
      (Reads-map _
        (Reads-many parse_loose_commit encode_loose_commit Reads-loose_commit s.commits h.commits
          h.each_commit)
        (Reads-pure _)))
