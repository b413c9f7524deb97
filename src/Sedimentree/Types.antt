-- ===== src/Sedimentree/Types.antt =====
-- src/sedimentree.rs: the data of a sedimentree.
use beelay.Prelude.{◌^◌, ◌<◌, List, Option, length}
use beelay.Blob.{BlobMeta}
use beelay.Commit.{CommitHash}

pub record LooseCommit : Type 0 where
  pub hash : CommitHash
  pub parents : List CommitHash
  pub blob : BlobMeta

pub record StratumMeta : Type 0 where
  pub start : Option CommitHash
  pub end : CommitHash
  pub blob : BlobMeta

pub record Stratum : Type 0 where
  pub meta : StratumMeta
  pub checkpoints : List CommitHash

pub record Sedimentree : Type 0 where
  pub strata : List Stratum
  pub commits : List LooseCommit

pub record SedimentreeSummary : Type 0 where
  pub strata : List StratumMeta
  pub commits : List LooseCommit

-- Lengths and sizes are `u64`s.
pub record IsLooseCommit (c : LooseCommit) : Type 0 where
  pub parents : length c.parents < 2 ^ 64
  pub size : c.blob.size_bytes < 2 ^ 64

abbrev pub IsStratumMeta : StratumMeta → Type 0
IsStratumMeta m = m.blob.size_bytes < 2 ^ 64

pub record IsStratum (s : Stratum) : Type 0 where
  pub meta : IsStratumMeta s.meta
  pub checkpoints : length s.checkpoints < 2 ^ 64
