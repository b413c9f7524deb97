-- ===== src/Messages/RoundTrip.antt =====
-- src/messages/encode.rs and src/messages/decode.rs: the two against each other.
use beelay.Prelude.{arith, ◌∙◌, [], append-nil, true, ◌∷◌, ap, ℕ, ◌^◌, List, ◌<◌, ◌≡◌, Result, ok}
use beelay.Prelude.{length, All}
use beelay.Blob.{Reads-blob_hash}
use beelay.Ids.{RequestId, Reads-request_id, Reads-document_id, Reads-commit_category}
use beelay.Ids.{Reads-snapshot_id}
use beelay.Leb128.RoundTrip.{parse-uleb128}
use beelay.Parse.Input.{Parser, ◌>>=◌, pure}
use beelay.Parse.Reads.{Reads, Reads-bind, Reads-map, Reads-pure, Reads-with_context}
use beelay.Parse.Sized.{Reads-slice, Reads-str, Reads-many}
use beelay.Parse.Utf8.{is_utf8}
use beelay.Riblt.Symbols.{parse_coded, encode_coded, IsCoded, Reads-coded}
use beelay.Messages.Types.{Request, Response, Message, Payload}
use beelay.Messages.Tags.{MessageType, RequestType, ResponseType, parse_request_type}
use beelay.Messages.Tags.{parse_response_type, message_type_to_u8, request_type_to_u8}
use beelay.Messages.Tags.{response_type_to_u8, Reads-message_type, Reads-request_type}
use beelay.Messages.Tags.{Reads-response_type}
use beelay.Messages.Items.{parse_upload_item, encode_upload_item, IsUploadItem, Reads-upload_item}
use beelay.Messages.Items.{IsNotification, Reads-notification, IsFetched, Reads-fetched}
use beelay.Messages.Encode.{encode_request_body, encode_request, encode_response_body}
use beelay.Messages.Encode.{encode_response, encode_message, encode}
use beelay.Messages.Decode.{parse_request_body, parse_request, parse_response_body}
use beelay.Messages.Decode.{parse_response, parse_message, parse_payload, payload_and_offset}
use beelay.Messages.Decode.{decode, DecodeError}

-- What Rust's types guarantee of a payload: lengths and offsets are `u64`s, counts `i64`s, texts
-- are UTF-8.
abbrev pub IsRequest : Request → Type 0
IsRequest (Request.upload_blob blob) = length blob < 2 ^ 64
IsRequest (Request.upload_commits doc items category) =
    (length items < 2 ^ 64) × All IsUploadItem items
IsRequest (Request.fetch_sedimentree doc) = Unit {0}
IsRequest (Request.fetch_blob_part blob offset size) = (offset < 2 ^ 64) × (size < 2 ^ 64)
IsRequest (Request.create_snapshot root_doc) = Unit {0}
IsRequest (Request.snapshot_symbols snapshot_id) = Unit {0}
IsRequest (Request.listen snapshot_id) = Unit {0}

abbrev pub IsResponse : Response → Type 0
IsResponse (Response.error desc) = (length desc < 2 ^ 64) × (is_utf8 desc ≡ true)
IsResponse Response.upload_commits = Unit {0}
IsResponse (Response.fetch_sedimentree fetched) = IsFetched fetched
IsResponse (Response.fetch_blob_part bytes) = length bytes < 2 ^ 64
IsResponse (Response.create_snapshot snapshot_id symbols) =
    (length symbols < 2 ^ 64) × All IsCoded symbols
IsResponse (Response.snapshot_symbols symbols) = (length symbols < 2 ^ 64) × All IsCoded symbols
IsResponse Response.listen = Unit {0}

abbrev pub IsMessage : Message → Type 0
IsMessage (Message.request id req) = IsRequest req
IsMessage (Message.response id resp) = IsResponse resp
IsMessage (Message.notification n) = IsNotification n

abbrev pub IsPayload : Payload → Type 0
IsPayload p = IsMessage p.message

-- A request behind its id: the type byte, then the fields.
module _ (id : RequestId) where
  after_request_id : Parser Message
  unfolding ◌>>=◌
  after_request_id = parse_request_type >>= λ req_type.
      parse_request_body req_type >>= λ req. pure (Message.request id req)

  tagged_request :
      (t : RequestType) {bs : List ℕ} {req : Request}
      → Reads (parse_request_body t) bs req
      → Reads after_request_id (request_type_to_u8 t ∷ bs) (Message.request id req)
  unfolding after_request_id
  tagged_request t r = Reads-bind _ (Reads-request_type t) (Reads-map _ r (Reads-pure _))

  Reads-request_body :
      (req : Request)
      → IsRequest req
      → Reads after_request_id (encode_request_body req) (Message.request id req)
  unfolding parse_request_body encode_request_body
  Reads-request_body (Request.upload_blob blob) h =
      tagged_request RequestType.upload_blob
        (Reads-with_context _ (Reads-map _ (Reads-slice blob h) (Reads-pure _)))
  Reads-request_body (Request.upload_commits doc items category) h =
      tagged_request RequestType.upload_commits (
        Reads-with_context _ (
          Reads-bind _ (Reads-document_id doc) (
            Reads-bind _ (Reads-commit_category category) (
              Reads-map _
                (Reads-many parse_upload_item encode_upload_item Reads-upload_item items h.0 h.1)
                (Reads-pure _)))))
  Reads-request_body (Request.fetch_sedimentree doc) h =
      tagged_request RequestType.fetch_minimal_bundles
        (Reads-with_context _ (Reads-map _ (Reads-document_id doc) (Reads-pure _)))
  Reads-request_body (Request.fetch_blob_part blob offset size) h =
      tagged_request RequestType.fetch_blob_part (
        Reads-with_context _ (
          Reads-bind _ (Reads-blob_hash blob) (
            Reads-bind _ (parse-uleb128 offset h.0)
              (Reads-map _ (parse-uleb128 size h.1) (Reads-pure _)))))
  Reads-request_body (Request.create_snapshot root_doc) h =
      tagged_request RequestType.create_snapshot
        (Reads-with_context _ (Reads-map _ (Reads-document_id root_doc) (Reads-pure _)))
  Reads-request_body (Request.snapshot_symbols snapshot_id) h =
      tagged_request RequestType.snapshot_symbols
        (Reads-with_context _ (Reads-map _ (Reads-snapshot_id snapshot_id) (Reads-pure _)))
  Reads-request_body (Request.listen snapshot_id) h =
      tagged_request RequestType.listen
        (Reads-with_context _ (Reads-map _ (Reads-snapshot_id snapshot_id) (Reads-pure _)))

-- A response behind its id.
module _ (id : RequestId) where
  after_response_id : Parser Message
  after_response_id = parse_response_type >>= λ resp_type.
      parse_response_body resp_type >>= λ resp. pure (Message.response id resp)

  tagged_response :
      (t : ResponseType) {bs : List ℕ} {resp : Response}
      → Reads (parse_response_body t) bs resp
      → Reads after_response_id (response_type_to_u8 t ∷ bs) (Message.response id resp)
  unfolding after_response_id
  tagged_response t r = Reads-bind _ (Reads-response_type t) (Reads-map _ r (Reads-pure _))

  Reads-response_body :
      (resp : Response)
      → IsResponse resp
      → Reads after_response_id (encode_response_body resp) (Message.response id resp)
  unfolding parse_response_body encode_response_body
  Reads-response_body (Response.error desc) h =
      tagged_response ResponseType.err
        (Reads-with_context _ (Reads-map _ (Reads-str desc h.0 h.1) (Reads-pure _)))
  Reads-response_body Response.upload_commits h =
      tagged_response ResponseType.upload_commits (Reads-pure _)
  Reads-response_body (Response.fetch_sedimentree fetched) h =
      tagged_response ResponseType.fetch_sedimentree
        (Reads-with_context _ (Reads-map _ (Reads-fetched fetched h) (Reads-pure _)))
  Reads-response_body (Response.fetch_blob_part bytes) h =
      tagged_response ResponseType.fetch_blob_part
        (Reads-with_context _ (Reads-map _ (Reads-slice bytes h) (Reads-pure _)))
  Reads-response_body (Response.create_snapshot snapshot_id symbols) h =
      tagged_response ResponseType.create_snapshot (
        Reads-with_context _ (
          Reads-bind _ (Reads-snapshot_id snapshot_id) (
            Reads-map _ (Reads-many parse_coded encode_coded Reads-coded symbols h.0 h.1)
              (Reads-pure _))))
  Reads-response_body (Response.snapshot_symbols symbols) h =
      tagged_response ResponseType.snapshot_symbols (
        Reads-with_context _ (
          Reads-map _ (Reads-many parse_coded encode_coded Reads-coded symbols h.0 h.1)
            (Reads-pure _)))
  Reads-response_body Response.listen h = tagged_response ResponseType.listen (Reads-pure _)

tagged_message :
    (t : MessageType) {bs : List ℕ} {m : Message}
    → Reads (parse_message t) bs m
    → Reads parse_payload (message_type_to_u8 t ∷ bs) (record { message = m })
unfolding parse_payload
tagged_message t r =
    Reads-with_context _ (Reads-bind _ (Reads-message_type t) (Reads-map _ r (Reads-pure _)))

Reads-message :
    (m : Message) → IsMessage m → Reads parse_payload (encode_message m) (record { message = m })
unfolding encode_message encode_request encode_response
Reads-message (Message.request id req) h = tagged_message MessageType.request (
    unfold parse_message parse_request after_request_id in
    Reads-with_context _ (Reads-bind _ (Reads-request_id id) (Reads-request_body id req h)))
Reads-message (Message.response id resp) h = tagged_message MessageType.response (
    unfold parse_message parse_response after_response_id in
    Reads-with_context _ (Reads-bind _ (Reads-request_id id) (Reads-response_body id resp h)))
Reads-message (Message.notification n) h = tagged_message MessageType.notification (
    unfold parse_message in
    Reads-with_context _ (Reads-map _ (Reads-notification n h) (Reads-pure _)))

-- Whatever follows a payload is left, and the offset moves by the payload's length.
pub Reads-payload : (p : Payload) → IsPayload p → Reads parse_payload (encode p) p
unfolding encode
Reads-payload p h = Reads-message p.message h

-- For a payload whose lengths fit `u64` and whose strings are UTF-8, decoding what was encoded gives
-- the payload back and reports all its bytes as read.
pub payload_decode-encode :
    (p : Payload) → IsPayload p → decode (encode p) ≡ ok (p, length (encode p))
unfolding decode
payload_decode-encode p h =
    ap payload_and_offset (rw append-nil at ((Reads-payload p h).run [] [] 0))
    ∙ ap {B = Result (Payload × ℕ) DecodeError} (λ n. ok (p, n)) (omega arith)

-- Two valid payloads with the same bytes are the same payload.
pub encode-injective : (p q : Payload) → IsPayload p → IsPayload q → encode p ≡ encode q → p ≡ q
encode-injective p q hp hq e = cc (payload_decode-encode p hp, payload_decode-encode q hq)
