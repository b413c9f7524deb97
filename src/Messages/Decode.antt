-- ===== src/Messages/Decode.antt =====
-- src/messages/decode.rs: bytes as payloads.
use beelay.Prelude.{ℕ, List, Result, ok, err, and_then}
use beelay.Leb128
use beelay.Parse.Input
use beelay.Blob.{parse_blob_hash}
use beelay.Ids.{parse_request_id, parse_document_id, parse_commit_category, parse_snapshot_id}
use beelay.Parse.Input.{Label, ParseError, named, Parser, pure, ◌>>=◌, with_context}
use beelay.Parse.Sized.{slice, str, many}
use beelay.Riblt.Symbols.{parse_coded}
use beelay.Messages.Types.{Request, Response, Message, Payload}
use beelay.Messages.Tags.{MessageType, RequestType, ResponseType, parse_message_type}
use beelay.Messages.Tags.{parse_request_type, parse_response_type}
use beelay.Messages.Items.{parse_upload_item, parse_notification, parse_fetched}

-- The arms of the match on the type of a request.
unfoldable pub parse_request_body : RequestType → Parser Request
unfolding with_context ◌>>=◌ pure parse_document_id parse_commit_category many slice
parse_request_body RequestType.upload_commits = with_context (named "UploadCommits") (
    parse_document_id >>= λ dag. parse_commit_category >>= λ category.
    many parse_upload_item >>= λ items. pure (Request.upload_commits dag items category))
parse_request_body RequestType.fetch_minimal_bundles =
    with_context (named "FetchMinimalBundles")
      (parse_document_id >>= λ dag_id. pure (Request.fetch_sedimentree dag_id))
parse_request_body RequestType.fetch_blob_part = with_context (named "FetchBlobPart") (
    parse_blob_hash >>= λ blob. Leb128.parse >>= λ offset.
    Leb128.parse >>= λ size. pure (Request.fetch_blob_part blob offset size))
parse_request_body RequestType.upload_blob =
    with_context (named "UploadBlob") (slice >>= λ bytes. pure (Request.upload_blob bytes))
parse_request_body RequestType.create_snapshot =
    with_context (named "CreateSnapshot")
      (parse_document_id >>= λ root_doc. pure (Request.create_snapshot root_doc))
parse_request_body RequestType.snapshot_symbols =
    with_context (named "SnapshotSymbols")
      (parse_snapshot_id >>= λ snapshot_id. pure (Request.snapshot_symbols snapshot_id))
parse_request_body RequestType.listen =
    with_context (named "Listen")
      (parse_snapshot_id >>= λ snapshot_id. pure (Request.listen snapshot_id))

unfoldable pub parse_request : Parser Message
parse_request = parse_request_id >>= λ request_id. parse_request_type >>= λ req_type.
    parse_request_body req_type >>= λ req. pure (Message.request request_id req)

-- The arms of the match on the type of a response.
unfoldable pub parse_response_body : ResponseType → Parser Response
unfolding with_context ◌>>=◌ pure parse_fetched slice str parse_snapshot_id many parse_coded
parse_response_body ResponseType.upload_commits = pure Response.upload_commits
parse_response_body ResponseType.fetch_sedimentree =
    with_context (named "FetchSedimentree")
      (parse_fetched >>= λ fetched. pure (Response.fetch_sedimentree fetched))
parse_response_body ResponseType.fetch_blob_part =
    with_context (named "FetchBlobPart") (slice >>= λ bytes. pure (Response.fetch_blob_part bytes))
parse_response_body ResponseType.err =
    with_context (named "Err") (str >>= λ desc. pure (Response.error desc))
parse_response_body ResponseType.create_snapshot = with_context (named "CreateSnapshot") (
    parse_snapshot_id >>= λ snapshot_id.
    many parse_coded >>= λ first_symbols. pure (Response.create_snapshot snapshot_id first_symbols))
parse_response_body ResponseType.snapshot_symbols =
    with_context (named "SnapshotSymbols")
      (many parse_coded >>= λ symbols. pure (Response.snapshot_symbols symbols))
parse_response_body ResponseType.listen = pure Response.listen

unfoldable pub parse_response : Parser Message
parse_response = parse_request_id >>= λ request_id. parse_response_type >>= λ resp_type.
    parse_response_body resp_type >>= λ resp. pure (Message.response request_id resp)

-- The arms of the match on the type of a message.
unfoldable pub parse_message : MessageType → Parser Message
parse_message MessageType.request = with_context (named "request payload") parse_request
parse_message MessageType.response = with_context (named "response payload") parse_response
parse_message MessageType.notification =
    with_context (named "notification payload")
      (parse_notification >>= λ notification. pure (Message.notification notification))

unfoldable pub parse_payload : Parser Payload
parse_payload = with_context (named "payload") (
    parse_message_type >>= λ message_type.
    parse_message message_type >>= λ message. pure (record { message = message }))

-- `Invalid` holds the rendering of the context and the error, which are kept here.
pub data DecodeError : Type 0 where
  not_enough_input : DecodeError
  invalid : List Label → Input.Message → DecodeError

unfoldable pub from_parse_error : ParseError → DecodeError
from_parse_error ParseError.not_enough_input = not_enough_input
from_parse_error (ParseError.other context error) = invalid context error

unfoldable pub payload_and_offset :
    Result (Input.Input × Payload) ParseError → Result (Payload × ℕ) DecodeError
unfolding from_parse_error
payload_and_offset (ok (input, payload)) = ok (payload, input.offset)
payload_and_offset (err e) = err (from_parse_error e)

-- The payload and how many bytes it took.
unfoldable pub decode : List ℕ → Result (Payload × ℕ) DecodeError
unfolding Input.new payload_and_offset
decode bytes = payload_and_offset (parse_payload (Input.new bytes))

-- `Payload::try_from`
unfoldable pub payload_try_from : List ℕ → Result Payload DecodeError
payload_try_from bytes = and_then (decode bytes) (λ (payload, n). ok payload)
