-- ===== src/Messages/Stream/Handshake.antt =====
-- src/messages/stream.rs: the handshake as two peers run it over a wire of bytes.
use beelay.Prelude.{refl, append-nil, ap, none, ◌+◌, [], some, ◌∙◌, ◌∷◌, List, Option, ℕ, ◌≡◌}
use beelay.Prelude.{Result, ok, err, length}
use beelay.Parse.Input
use beelay.Messages.Encode
use beelay.Ids.{PeerId, IsPeerId}
use beelay.Parse.Reads.{at, Reads, Reads-u8}
use beelay.Parse.Sized.{sized, Reads-str}
use beelay.Messages.Types.{Envelope}
use beelay.Messages.RoundTrip.{IsPayload, Reads-payload}
use beelay.Messages.Stream.{StreamMessage, hello_dear_server, why_hello_dear_client, payload}
use beelay.Messages.Stream.{encode, decode, decode_from, decode_tagged, DecodeError, Connecting}
use beelay.Messages.Stream.{Connected, Step, continue, done, accept, connect, receive}
use beelay.Messages.Stream.{connected_receive, connected_send, last_field}

-- What Rust's types guarantee of a stream message.
abbrev pub IsStreamMessage : StreamMessage → Type 0
IsStreamMessage (hello_dear_server p) = IsPeerId p
IsStreamMessage (why_hello_dear_client p) = IsPeerId p
IsStreamMessage (payload p) = IsPayload p

decode-tag : (tag : ℕ) (bs : List ℕ) → decode (tag ∷ bs) ≡ decode_tagged tag (at [] bs 1)
unfolding decode decode_from Input.new
decode-tag tag bs = ap decode_from ((Reads-u8 tag).run [] bs 0)

Reads-last :
    {A : Type 0} {p : Input.Parser A} (bs : List ℕ) {a : A}
    → Reads p bs a
    → p (at [] bs 1) ≡ ok (at [] [] (1 + length bs), a)
Reads-last bs r = rw append-nil at (r.run [] [] 1)

-- For a stream message whose lengths fit `u64` and whose strings are UTF-8, decoding what was
-- encoded gives the message back.
pub stream_decode-encode : (m : StreamMessage) → IsStreamMessage m → decode (encode m) ≡ ok m
unfolding encode decode_tagged last_field
stream_decode-encode (hello_dear_server p) h =
    decode-tag 0 (sized p.name)
    ∙ ap (λ x. last_field x (λ name. hello_dear_server (record { name = name })))
        (Reads-last (sized p.name) (Reads-str p.name h.size h.utf8))
stream_decode-encode (why_hello_dear_client p) h =
    decode-tag 1 (sized p.name)
    ∙ ap (λ x. last_field x (λ name. why_hello_dear_client (record { name = name })))
        (Reads-last (sized p.name) (Reads-str p.name h.size h.utf8))
stream_decode-encode (payload p) h =
    decode-tag 2 (Encode.encode p)
    ∙ ap (λ x. last_field x payload) (Reads-last (Encode.encode p) (Reads-payload p h))

-- The bytes that a step asks to be sent, if any.
unfoldable pub outgoing : Step → Option (List ℕ)
outgoing (continue c (some m)) = some (encode m)
outgoing (done c (some m)) = some (encode m)
outgoing _ = none

-- `state.receive(Message::decode(&bytes)?)?`, by a peer whose handshake is not done.
unfoldable pub receive_bytes : Connecting → Result StreamMessage DecodeError → Option Step
receive_bytes c (ok m) = elim (receive c m) [ ok step ↦ some step | err e ↦ none ]
receive_bytes c (err e) = none

-- One turn of the loop that the module's documentation gives: the peer gets what the other sent.
unfoldable pub turn : Step → Option (List ℕ) → Option Step
turn (continue c m) (some bytes) = receive_bytes c (decode bytes)
turn _ _ = none

-- A peer that connects and one that accepts, with ids that are UTF-8 and whose lengths fit `u64`,
-- over a wire that carries their bytes: the accepting
-- peer is done after one message and the other after the answer, and each has its own id and that
-- of the other. Nothing is left to send.
pub handshake-agrees :
    (client server : PeerId)
    → IsPeerId client
    → IsPeerId server
    → (answered : Step) × (turn (accept server) (outgoing (connect client)) ≡ some answered)
      × (answered
          ≡ done
              (record { our_peer_id = server; their_peer_id = client })
              (some (why_hello_dear_client server)))
      × (turn (connect client) (outgoing answered)
          ≡ some (done (record { our_peer_id = client; their_peer_id = server }) none))
unfolding turn outgoing accept connect receive receive_bytes
handshake-agrees client server hc hs =
    let hello = stream_decode-encode (hello_dear_server client) hc in
    let answer = stream_decode-encode (why_hello_dear_client server) hs in
    (
      _,
      ap (receive_bytes (record { us = server })) hello,
      refl,
      ap (receive_bytes (record { us = client })) answer,
    )

-- Once connected, a payload whose lengths fit `u64` and whose strings are UTF-8, sent by one peer,
-- reaches the other as an envelope from that peer to itself with the same payload.
pub connected_receive-connected_send :
    (c : Connected) (env : Envelope)
    → IsPayload env.payload
    → (m : StreamMessage) × (decode (encode (connected_send c env)) ≡ ok m)
      × (connected_receive
            (record { our_peer_id = c.their_peer_id; their_peer_id = c.our_peer_id })
            m
          ≡ ok (record {
            sender = c.our_peer_id;
            recipient = c.their_peer_id;
            payload = env.payload;
          }))
unfolding connected_send connected_receive
connected_receive-connected_send c env h =
    (payload env.payload, stream_decode-encode (payload env.payload) h, refl)
