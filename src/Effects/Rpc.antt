-- ===== src/Effects/Rpc.antt =====
-- src/effects.rs: what a task makes of the response to its request.
use beelay.Prelude.{ℕ, List, Result, ok, err}
use beelay.Ids.{SnapshotId}
use beelay.Messages.Types.{Response, FetchedSedimentree}
use beelay.Riblt.Symbols.{CodedDocAndHeadsSymbol}

pub data RpcError : Type 0 where
  error_reported : List ℕ → RpcError
  incorrect_response_type : RpcError

unfoldable pub uploaded : Response → Result (Unit {0}) RpcError
uploaded Response.upload_commits = ok tt
uploaded (Response.error e) = err (error_reported e)
uploaded r = err incorrect_response_type

unfoldable pub fetched_blob_part : Response → Result (List ℕ) RpcError
fetched_blob_part (Response.fetch_blob_part bytes) = ok bytes
fetched_blob_part (Response.error e) = err (error_reported e)
fetched_blob_part r = err incorrect_response_type

unfoldable pub fetched_sedimentree : Response → Result FetchedSedimentree RpcError
fetched_sedimentree (Response.fetch_sedimentree tree) = ok tree
fetched_sedimentree (Response.error e) = err (error_reported e)
fetched_sedimentree r = err incorrect_response_type

unfoldable pub created_snapshot :
    Response → Result (SnapshotId × List CodedDocAndHeadsSymbol) RpcError
created_snapshot (Response.create_snapshot id symbols) = ok (id, symbols)
created_snapshot (Response.error e) = err (error_reported e)
created_snapshot r = err incorrect_response_type

unfoldable pub fetched_symbols : Response → Result (List CodedDocAndHeadsSymbol) RpcError
fetched_symbols (Response.snapshot_symbols symbols) = ok symbols
fetched_symbols (Response.error e) = err (error_reported e)
fetched_symbols r = err incorrect_response_type

unfoldable pub listening : Response → Result (Unit {0}) RpcError
listening Response.listen = ok tt
listening (Response.error e) = err (error_reported e)
listening r = err incorrect_response_type
