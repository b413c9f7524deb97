-- ===== src/Hex.antt =====
-- src/hex.rs: bytes as lower-case hexadecimal digits, and back. A text is the list of its bytes.
pub mod RoundTrip
use beelay.Prelude.{ℕ, ◌+◌, ◌-◌, ◌*◌, ◌/◌, ◌%◌, List, [], ◌∷◌, suc, ◌&&◌, bit_or, Result, ok, err}
use beelay.Prelude.{and_then, length, ltb, leb, ◌==◌, if◌then◌else◌}

-- The character is the byte `c as char`.
pub data FromHexError : Type 0 where
  invalid_hex_character : ℕ → ℕ → FromHexError
  invalid_string_length : FromHexError

-- One digit of `format!("{:02x}", byte)`.
unfoldable pub digit : ℕ → ℕ
digit n = if ltb n 10 then b'0' + n else b'a' + (n - 10)

unfoldable pub encode : List ℕ → List ℕ
unfolding digit
encode [] = []
encode (byte ∷ bytes) = digit (byte / 16) ∷ digit (byte % 16) ∷ encode bytes

unfoldable pub val : ℕ → ℕ → Result ℕ FromHexError
val c idx =
    if leb b'A' c && leb c b'F'
    then ok (c - b'A' + 10)
    else if leb b'a' c && leb c b'f'
    then ok (c - b'a' + 10)
    else if leb b'0' c && leb c b'9'
    then ok (c - b'0')
    else err (invalid_hex_character c idx)

-- The pairs of `s.chunks(2)` from the pair `i` on; `<< 4` on a `u8` is `* 16 % 256`. `decode` calls it
-- on an even number of bytes, so that no pair is cut.
unfoldable pub decode_pairs : ℕ → List ℕ → Result (List ℕ) FromHexError
unfolding val
decode_pairs i [] = ok []
decode_pairs i (c ∷ []) = ok []
decode_pairs i (c ∷ (d ∷ rest)) = and_then (val c (2 * i)) λ high.
    and_then (val d (2 * i + 1))
      λ low. and_then (decode_pairs (i + 1) rest) λ bytes. ok (bit_or (high * 16 % 256) low ∷ bytes)

unfoldable pub decode : List ℕ → Result (List ℕ) FromHexError
unfolding decode_pairs
decode s = if length s % 2 == 0 then decode_pairs 0 s else err invalid_string_length
