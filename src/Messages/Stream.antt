-- ===== src/Messages/Stream.antt =====
-- src/messages/stream.rs: the handshake of a point-to-point connection, and its messages.
pub mod Handshake
use beelay.Prelude.{ℕ, List, [], ◌∷◌, ◌++◌, Option, none, some, Result, ok, err, ◌==◌}
use beelay.Prelude.{if◌then◌else◌, and_then, String}
use beelay.Parse.Input
use beelay.Messages.Encode
use beelay.Ids.{PeerId}
use beelay.Parse.Input.{Label, ParseError, Parser, ◌>>=◌, pure, u8}
use beelay.Parse.Sized.{str, sized}
use beelay.Messages.Types.{Payload, Envelope}
use beelay.Messages.Decode.{parse_payload}

pub data StreamMessage : Type 0 where
  hello_dear_server : PeerId → StreamMessage
  why_hello_dear_client : PeerId → StreamMessage
  payload : Payload → StreamMessage

unfoldable pub encode : StreamMessage → List ℕ
unfolding sized
encode (hello_dear_server peer_id) = 0 ∷ sized peer_id.name
encode (why_hello_dear_client peer_id) = 1 ∷ sized peer_id.name
encode (payload p) = 2 ∷ Encode.encode p

-- `invalid` holds the rendering of a parse error, which is kept here; `invalid_message_type` is
-- `Invalid("invalid message type")`.
pub data DecodeError : Type 0 where
  not_enough_input : DecodeError
  invalid : List Label → Input.Message → DecodeError
  invalid_message_type : DecodeError

unfoldable pub from_parse_error : ParseError → DecodeError
from_parse_error ParseError.not_enough_input = not_enough_input
from_parse_error (ParseError.other context error) = invalid context error

-- `let (_input, a) = p(input)?; Ok(f(a))`: what follows is not looked at.
unfoldable pub last_field :
    {A : Type 0}
    → Result (Input.Input × A) ParseError
    → (A → StreamMessage)
    → Result StreamMessage DecodeError
unfolding from_parse_error
last_field (ok (input, a)) f = ok (f a)
last_field (err e) f = err (from_parse_error e)

unfoldable pub decode_tagged : ℕ → Input.Input → Result StreamMessage DecodeError
unfolding last_field
decode_tagged msg_type input =
    if msg_type == 0
    then last_field (str input) (λ name. hello_dear_server (record { name = name }))
    else if msg_type == 1
    then last_field (str input) (λ name. why_hello_dear_client (record { name = name }))
    else if msg_type == 2
    then last_field (parse_payload input) payload
    else err invalid_message_type

unfoldable pub decode_from : Result (Input.Input × ℕ) ParseError → Result StreamMessage DecodeError
unfolding decode_tagged from_parse_error
decode_from (ok (input, msg_type)) = decode_tagged msg_type input
decode_from (err e) = err (from_parse_error e)

unfoldable pub decode : List ℕ → Result StreamMessage DecodeError
unfolding Input.new decode_from
decode bytes = decode_from (u8 (Input.new bytes))

pub data Error : Type 0 where
  unexpected_message : Error

-- The state of a handshake: our own id.
pub record Connecting : Type 0 where
  pub us : PeerId

pub record Connected : Type 0 where
  pub our_peer_id : PeerId
  pub their_peer_id : PeerId

pub data Step : Type 0 where
  continue : Connecting → Option StreamMessage → Step
  done : Connected → Option StreamMessage → Step

unfoldable pub accept : PeerId → Step
accept us = continue (record { us = us }) none

unfoldable pub connect : PeerId → Step
connect us = continue (record { us = us }) (some (hello_dear_server us))

unfoldable pub receive : Connecting → StreamMessage → Result Step Error
receive c (hello_dear_server their_peer_id) = ok (
    done (record { our_peer_id = c.us; their_peer_id = their_peer_id })
      (some (why_hello_dear_client c.us)))
receive c (why_hello_dear_client their_peer_id) =
    ok (done (record { our_peer_id = c.us; their_peer_id = their_peer_id }) none)
receive c (payload p) = err unexpected_message

unfoldable pub connected_receive : Connected → StreamMessage → Result Envelope Error
connected_receive c (payload p) =
    ok (record { sender = c.their_peer_id; recipient = c.our_peer_id; payload = p })
connected_receive c (hello_dear_server peer_id) = err unexpected_message
connected_receive c (why_hello_dear_client peer_id) = err unexpected_message

unfoldable pub connected_send : Connected → Envelope → StreamMessage
connected_send c env = payload env.payload
