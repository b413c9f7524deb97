-- ===== src/Messages/Encode.antt =====
-- src/messages/encode.rs: payloads as bytes.
use beelay.Prelude.{ℕ, List, [], ◌∷◌, ◌++◌}
use beelay.Blob.{encode_blob_hash}
use beelay.Ids.{RequestId, request_id_as_bytes, encode_document_id, encode_commit_category}
use beelay.Ids.{encode_snapshot_id}
use beelay.Leb128.Encode.{uleb128}
use beelay.Parse.Sized.{sized, encode_many}
use beelay.Riblt.Symbols.{encode_coded}
use beelay.Messages.Types.{Request, Response, Message, Payload}
use beelay.Messages.Tags.{MessageType, RequestType, ResponseType, message_type_to_u8}
use beelay.Messages.Tags.{request_type_to_u8, response_type_to_u8}
use beelay.Messages.Items.{encode_upload_item, encode_notification, encode_fetched}

-- The type byte of a request and its fields.
unfoldable pub encode_request_body : Request → List ℕ
unfolding request_type_to_u8 sized encode_document_id encode_commit_category encode_many
encode_request_body (Request.upload_blob blob) =
    request_type_to_u8 RequestType.upload_blob ∷ sized blob
encode_request_body (Request.upload_commits doc items category) =
    request_type_to_u8 RequestType.upload_commits
    ∷ (encode_document_id doc
        ++ (encode_commit_category category ++ encode_many encode_upload_item items))
encode_request_body (Request.fetch_sedimentree doc_id) =
    request_type_to_u8 RequestType.fetch_minimal_bundles ∷ encode_document_id doc_id
encode_request_body (Request.fetch_blob_part blob offset size) =
    request_type_to_u8 RequestType.fetch_blob_part
    ∷ (encode_blob_hash blob ++ (uleb128 offset ++ uleb128 size))
encode_request_body (Request.create_snapshot root_doc) =
    request_type_to_u8 RequestType.create_snapshot ∷ encode_document_id root_doc
encode_request_body (Request.snapshot_symbols snapshot_id) =
    request_type_to_u8 RequestType.snapshot_symbols ∷ encode_snapshot_id snapshot_id
encode_request_body (Request.listen snapshot_id) =
    request_type_to_u8 RequestType.listen ∷ encode_snapshot_id snapshot_id

unfoldable pub encode_request : RequestId → Request → List ℕ
encode_request id req =
    message_type_to_u8 MessageType.request ∷ (request_id_as_bytes id ++ encode_request_body req)

-- The type byte of a response and its fields.
unfoldable pub encode_response_body : Response → List ℕ
unfolding response_type_to_u8 sized encode_fetched encode_snapshot_id encode_many
encode_response_body Response.upload_commits = response_type_to_u8 ResponseType.upload_commits ∷ []
encode_response_body (Response.fetch_sedimentree fetched) =
    response_type_to_u8 ResponseType.fetch_sedimentree ∷ encode_fetched fetched
encode_response_body (Response.fetch_blob_part bytes) =
    response_type_to_u8 ResponseType.fetch_blob_part ∷ sized bytes
encode_response_body (Response.create_snapshot snapshot_id first_symbols) =
    response_type_to_u8 ResponseType.create_snapshot
    ∷ (encode_snapshot_id snapshot_id ++ encode_many encode_coded first_symbols)
encode_response_body (Response.snapshot_symbols symbols) =
    response_type_to_u8 ResponseType.snapshot_symbols ∷ encode_many encode_coded symbols
encode_response_body (Response.error desc) = response_type_to_u8 ResponseType.err ∷ sized desc
encode_response_body Response.listen = response_type_to_u8 ResponseType.listen ∷ []

unfoldable pub encode_response : RequestId → Response → List ℕ
encode_response id resp =
    message_type_to_u8 MessageType.response ∷ (request_id_as_bytes id ++ encode_response_body resp)

unfoldable pub encode_message : Message → List ℕ
encode_message (Message.request id req) = encode_request id req
encode_message (Message.response id res) = encode_response id res
encode_message (Message.notification n) =
    message_type_to_u8 MessageType.notification ∷ encode_notification n

unfoldable pub encode : Payload → List ℕ
encode payload = encode_message payload.message
