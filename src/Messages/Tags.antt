-- ===== src/Messages/Tags.antt =====
-- src/messages/encoding_types.rs: the bytes that tell the kinds of messages apart.
use beelay.Prelude.{ℕ, ◌≡◌, refl, [], ◌∷◌, Result, ok, ◌==◌, if◌then◌else◌, String}
use beelay.Parse.Input.{named, with_number, Parser, pure, fail, ◌>>=◌, with_context, u8}
use beelay.Parse.Reads.{Reads, Reads-map, Reads-pure, Reads-with_context, Reads-u8}

pub data MessageType : Type 0 where
  request response notification : MessageType

pub data RequestType : Type 0 where
  upload_commits upload_blob fetch_minimal_bundles fetch_blob_part create_snapshot snapshot_symbols
        listen :
      RequestType

pub data ResponseType : Type 0 where
  err upload_commits fetch_sedimentree fetch_blob_part create_snapshot snapshot_symbols listen :
      ResponseType

-- `TryFrom<u8>`; the error holds the byte.
unfoldable pub message_type_try_from : ℕ → Result MessageType ℕ
message_type_try_from value =
    if value == 0
    then ok MessageType.request
    else if value == 1
    then ok MessageType.response
    else if value == 3
    then ok MessageType.notification
    else Result.err value

unfoldable pub message_type_to_u8 : MessageType → ℕ
message_type_to_u8 MessageType.request = 0
message_type_to_u8 MessageType.response = 1
message_type_to_u8 MessageType.notification = 3

unfoldable pub request_type_try_from : ℕ → Result RequestType ℕ
request_type_try_from value =
    if value == 0
    then ok RequestType.upload_commits
    else if value == 1
    then ok RequestType.fetch_minimal_bundles
    else if value == 2
    then ok RequestType.fetch_blob_part
    else if value == 3
    then ok RequestType.upload_blob
    else if value == 4
    then ok RequestType.create_snapshot
    else if value == 5
    then ok RequestType.snapshot_symbols
    else if value == 6
    then ok RequestType.listen
    else Result.err value

unfoldable pub request_type_to_u8 : RequestType → ℕ
request_type_to_u8 RequestType.upload_commits = 0
request_type_to_u8 RequestType.fetch_minimal_bundles = 1
request_type_to_u8 RequestType.fetch_blob_part = 2
request_type_to_u8 RequestType.upload_blob = 3
request_type_to_u8 RequestType.create_snapshot = 4
request_type_to_u8 RequestType.snapshot_symbols = 5
request_type_to_u8 RequestType.listen = 6

unfoldable pub response_type_try_from : ℕ → Result ResponseType ℕ
response_type_try_from value =
    if value == 0
    then ok ResponseType.err
    else if value == 1
    then ok ResponseType.upload_commits
    else if value == 2
    then ok ResponseType.fetch_sedimentree
    else if value == 3
    then ok ResponseType.fetch_blob_part
    else if value == 4
    then ok ResponseType.create_snapshot
    else if value == 5
    then ok ResponseType.snapshot_symbols
    else if value == 6
    then ok ResponseType.listen
    else Result.err value

unfoldable pub response_type_to_u8 : ResponseType → ℕ
response_type_to_u8 ResponseType.err = 0
response_type_to_u8 ResponseType.upload_commits = 1
response_type_to_u8 ResponseType.fetch_sedimentree = 2
response_type_to_u8 ResponseType.fetch_blob_part = 3
response_type_to_u8 ResponseType.create_snapshot = 4
response_type_to_u8 ResponseType.snapshot_symbols = 5
response_type_to_u8 ResponseType.listen = 6

-- `T::try_from(byte).map_err(|e| input.error(..))?`
unfoldable pub accept : {T : Type 0} → String → Result T ℕ → Parser T
unfolding pure fail
accept msg (ok t) = pure t
accept msg (Result.err value) = fail (with_number msg value)

unfoldable pub parse_message_type : Parser MessageType
unfolding with_context ◌>>=◌ u8 accept message_type_try_from
parse_message_type = with_context (named "MessageDirection") (
    u8 >>= λ byte.
    accept "invalid message type: InvalidMessageDirection({})" (message_type_try_from byte))

unfoldable pub parse_request_type : Parser RequestType
unfolding with_context ◌>>=◌ u8 accept request_type_try_from
parse_request_type = with_context (named "RequestType") (
    u8 >>= λ byte.
    accept "invalid request type: invalid request type: {}" (request_type_try_from byte))

unfoldable pub parse_response_type : Parser ResponseType
unfolding with_context ◌>>=◌ u8 accept response_type_try_from
parse_response_type = with_context (named "ResponseType") (
    u8 >>= λ byte.
    accept "invalid request type: InvalidResponseType({})" (response_type_try_from byte))

message_type_tag : (t : MessageType) → message_type_try_from (message_type_to_u8 t) ≡ ok t
unfolding message_type_try_from message_type_to_u8
message_type_tag MessageType.request = refl
message_type_tag _ = refl

request_type_tag : (t : RequestType) → request_type_try_from (request_type_to_u8 t) ≡ ok t
unfolding request_type_try_from request_type_to_u8
request_type_tag RequestType.listen = refl
request_type_tag _ = refl

response_type_tag : (t : ResponseType) → response_type_try_from (response_type_to_u8 t) ≡ ok t
unfolding response_type_try_from response_type_to_u8
response_type_tag ResponseType.listen = refl
response_type_tag _ = refl

Reads-accept :
    {T : Type 0} (msg : String) (r : Result T ℕ) (t : T) → r ≡ ok t → Reads (accept msg r) [] t
unfolding accept
Reads-accept msg r t e = rw e (Reads-pure t)

pub Reads-message_type : (t : MessageType) → Reads parse_message_type (message_type_to_u8 t ∷ []) t
unfolding parse_message_type
Reads-message_type t =
    Reads-with_context _ (Reads-map _ (Reads-u8 _) (Reads-accept _ _ t (message_type_tag t)))

pub Reads-request_type : (t : RequestType) → Reads parse_request_type (request_type_to_u8 t ∷ []) t
unfolding parse_request_type
Reads-request_type t =
    Reads-with_context _ (Reads-map _ (Reads-u8 _) (Reads-accept _ _ t (request_type_tag t)))

pub Reads-response_type :
    (t : ResponseType) → Reads parse_response_type (response_type_to_u8 t ∷ []) t
unfolding parse_response_type
Reads-response_type t =
    Reads-with_context _ (Reads-map _ (Reads-u8 _) (Reads-accept _ _ t (response_type_tag t)))
