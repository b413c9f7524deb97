-- ===== src/Tests/Wire.antt =====
-- The theorems on what is written and read, at concrete inputs.
use beelay.Prelude.{none, refl, some, ◌≤◌, length, ok, ◌<◌, All, [], arith, ◌∷◌, ◌≡◌}
use beelay.Prelude.Array.{copy_from_slice}
use beelay.Leb128
use beelay.Leb128.Signed
use beelay.Hex
use beelay.Sedimentree.Codec
use beelay.Messages.Encode
use beelay.Messages.Decode
use beelay.Messages.Stream
use beelay.Tests.{hash_1000, other_doc, client_id, deep, doc, loose_commit, server_id, summary}
use beelay.Tests.{upload, envelope}
use beelay.Ids.{IsPeerId}
use beelay.Parse.Reads.{Reads}
use beelay.Parse.Utf8.{is_utf8}
use beelay.Leb128.Encode.{uleb128, uleb128_shape, encode_uleb128-append}
use beelay.Leb128.RoundTrip.{parse-uleb128}
use beelay.Leb128.Signed.RoundTrip.{signed_parse-encode}
use beelay.Hex.RoundTrip.{hex_decode-encode}
use beelay.Sedimentree.Codec.{Reads-loose_commit, Reads-stratum, Reads-summary}
use beelay.Riblt.Symbols.{CodedDocAndHeadsSymbol, Reads-coded, parse_coded, encode_coded}
use beelay.Messages.RoundTrip.{payload_decode-encode}
use beelay.Messages.Stream.{Step, hello_dear_server, why_hello_dear_client, done, accept, connect}
use beelay.Messages.Stream.Handshake.{stream_decode-encode, handshake-agrees, turn, outgoing}
use beelay.Messages.Stream.Handshake.{connected_receive-connected_send}
use beelay.Reachability.{from_items}
use beelay.Reachability.Reading.{encode_entries, from_items-encode_entries}
use beelay.Commit.{commit}

client_id-IsPeerId : IsPeerId client_id
unfolding is_utf8
client_id-IsPeerId = record { size = omega arith; utf8 = refl }

server_id-IsPeerId : IsPeerId server_id
unfolding is_utf8
server_id-IsPeerId = record { size = omega arith; utf8 = refl }

parse-uleb128_example : Reads Leb128.parse (uleb128 300) 300
parse-uleb128_example = parse-uleb128 300 (omega arith)

uleb128_shape_example :
    All (λ b. b < 256) (uleb128 300) × (1 ≤ length (uleb128 300)) × (length (uleb128 300) ≤ 10)
uleb128_shape_example = uleb128_shape 300 (omega arith)

encode_uleb128-append_example :
    Leb128.encode_uleb128 (9 ∷ []) 300 ≡ (9 ∷ uleb128 300, length (uleb128 300))
encode_uleb128-append_example = encode_uleb128-append (9 ∷ []) 300 (omega arith)

-- The word of -2.
signed_parse-encode_example :
    Reads Signed.parse (Signed.encode [] 18446744073709551614) 18446744073709551614
signed_parse-encode_example = signed_parse-encode 18446744073709551614 (omega arith)

hex_decode-encode_example : Hex.decode (Hex.encode (1 ∷ 255 ∷ [])) ≡ ok (1 ∷ 255 ∷ [])
hex_decode-encode_example = hex_decode-encode (1 ∷ 255 ∷ []) (omega arith, (omega arith, tt))

Reads-loose_commit_example :
    Reads Codec.parse_loose_commit (Codec.encode_loose_commit loose_commit) loose_commit
Reads-loose_commit_example =
    Reads-loose_commit loose_commit (record { parents = omega arith; size = omega arith })

Reads-stratum_example : Reads Codec.parse_stratum (Codec.encode_stratum deep) deep
Reads-stratum_example =
    Reads-stratum deep (record { meta = omega arith; checkpoints = omega arith })

Reads-summary_example : Reads Codec.parse_summary (Codec.encode_summary summary) summary
Reads-summary_example = Reads-summary summary (record {
  strata = omega arith;
  each_stratum = (omega arith, (omega arith, tt));
  commits = omega arith;
  each_commit = (record { parents = omega arith; size = omega arith }, tt);
})

abbrev coded : CodedDocAndHeadsSymbol
coded = record {
  symbol = record { part1 = copy_from_slice 16 (1 ∷ []); part2 = copy_from_slice 32 (2 ∷ []) };
  hash = 1000000;
  count = 3;
}

Reads-coded_example : Reads parse_coded (encode_coded coded) coded
Reads-coded_example = Reads-coded coded (record { hash = omega arith; count = omega arith })

payload_decode-encode_example :
    Decode.decode (Encode.encode upload) ≡ ok (upload, length (Encode.encode upload))
payload_decode-encode_example =
    payload_decode-encode upload
      (omega arith, (record { blob = omega arith; tree_part = omega arith }, tt))

stream_decode-encode_example :
    Stream.decode (Stream.encode (hello_dear_server server_id)) ≡ ok (hello_dear_server server_id)
stream_decode-encode_example = stream_decode-encode (hello_dear_server server_id) server_id-IsPeerId

handshake-agrees_example :
    (answered : Step) × (turn (accept server_id) (outgoing (connect client_id)) ≡ some answered)
    × (answered
        ≡ done
            (record { our_peer_id = server_id; their_peer_id = client_id })
            (some (why_hello_dear_client server_id)))
    × (turn (connect client_id) (outgoing answered)
        ≡ some (done (record { our_peer_id = client_id; their_peer_id = server_id }) none))
handshake-agrees_example =
    handshake-agrees client_id server_id client_id-IsPeerId server_id-IsPeerId

connected_receive-connected_send_example :
    (m : Stream.StreamMessage) × (Stream.decode (
        Stream.encode (
          Stream.connected_send
            (record { our_peer_id = client_id; their_peer_id = server_id })
            envelope))
      ≡ ok m)
    × (Stream.connected_receive (record { our_peer_id = server_id; their_peer_id = client_id }) m
        ≡ ok envelope)
connected_receive-connected_send_example =
    connected_receive-connected_send (record { our_peer_id = client_id; their_peer_id = server_id })
      envelope (omega arith, (record { blob = omega arith; tree_part = omega arith }, tt))

from_items-encode_entries_example :
    from_items (
      commit (record {
        parents = [];
        contents = encode_entries (doc ∷ other_doc ∷ []);
        hash = hash_1000;
      })
      ∷ [])
    ≡ some (record { reachable = doc ∷ [] })
from_items-encode_entries_example = from_items-encode_entries hash_1000 [] (doc ∷ other_doc ∷ [])
