-- ===== src/Hex/RoundTrip.antt =====
-- src/hex.rs: `decode` reads back what `encode` wrote.
use beelay.Prelude.{ℕ, ◌+◌, ◌*◌, ◌/◌, ◌%◌, ◌<◌, ◌≡◌, refl, ap, arith, List, [], ◌∷◌, ok, length}
use beelay.Prelude.{All, bit_or}
use beelay.Prelude.Bits.{bit_or_below}
use beelay.Hex.{digit, encode, val, decode_pairs, decode}

val-digit : (n idx : ℕ) → n < 16 → val (digit n) idx ≡ ok n
unfolding val digit
val-digit n idx h = ground arith

length-encode : (bytes : List ℕ) → length (encode bytes) ≡ 2 * length bytes
unfolding encode
length-encode [] = omega arith
length-encode (b ∷ bytes) = omega (arith, length-encode bytes)

join : (b : ℕ) → b < 256 → bit_or (b / 16 * 16 % 256) (b % 16) ≡ b
join b h = ground (arith, bit_or_below 4 (b % 16) (b / 16) (omega arith))

decode_pairs-encode :
    (bytes : List ℕ) (i : ℕ) → All (λ b. b < 256) bytes → decode_pairs i (encode bytes) ≡ ok bytes
unfolding decode_pairs encode
decode_pairs-encode [] i h = refl
decode_pairs-encode (b ∷ bytes) i (hb, hs) =
    rw
      (
        val-digit (b / 16) (2 * i) (omega arith),
        val-digit (b % 16) (2 * i + 1) (omega arith),
        decode_pairs-encode bytes (i + 1) hs,
      )
      (ap (λ x. ok (x ∷ bytes)) (join b hb))

-- Decoding the hexadecimal text of a sequence of bytes gives the sequence back.
pub hex_decode-encode :
    (bytes : List ℕ) → All (λ b. b < 256) bytes → decode (encode bytes) ≡ ok bytes
unfolding decode
hex_decode-encode bytes h = ground (arith, length-encode bytes, decode_pairs-encode bytes 0 h)
