-- ===== src/Leb128/Signed.antt =====
-- src/leb128.rs, module `signed`. An `i64` is its bit pattern, a number below 2 ^ 64: the patterns
-- from 2 ^ 63 on stand for the negative numbers.
pub mod RoundTrip
use beelay.Prelude.{ℕ, zero, suc, ◌+◌, ◌-◌, ◌*◌, ◌/◌, ◌%◌, ◌^◌, ◌<◌, List, [], ◌∷◌, ◌++◌, not}
use beelay.Prelude.{bit_and, bit_or, ◌&&◌, ◌||◌, ltb, ◌==◌, if◌then◌else◌}
use beelay.Parse.Input.{Parser, text, fail, pure, ◌>>=◌, u8}
use beelay.Leb128.{continuation_bit}

-- `val >> k` on an `i64`: the sign bit is shifted in, so a negative number is shifted through its
-- complement.
unfoldable pub shr : ℕ → ℕ → ℕ
shr val k = if ltb val (2 ^ 63) then val / 2 ^ k else 2 ^ 64 - 1 - (2 ^ 64 - 1 - val) / 2 ^ k

-- The loop of `encode`. A round drops seven bits, so ten rounds of fuel are enough for an `i64`.
unfoldable pub encode_loop : ℕ → List ℕ → ℕ → List ℕ
unfolding shr
encode_loop zero buf val = buf
encode_loop (suc fuel) buf val =
    let byte = val % 256 in
    let val' = shr val 6 in
    let more = encode_loop fuel (buf ++ bit_or byte continuation_bit ∷ []) (shr val' 1) in
    if val' == 0 || val' == 2 ^ 64 - 1
    then buf ++ bit_and byte (0xff - continuation_bit) ∷ []
    else more

unfoldable pub encode : List ℕ → ℕ → List ℕ
unfolding encode_loop
encode buf val = encode_loop 10 buf val

-- `res |= ((byte & 0x7F) as i64) << shift`
unfoldable pub or_group : ℕ → ℕ → ℕ → ℕ
or_group res byte shift = bit_or res (bit_and byte 0x7f * 2 ^ shift % 2 ^ 64)

-- `res |= -1 << shift`
unfoldable pub sign_extend : ℕ → ℕ → ℕ
sign_extend res shift = bit_or res ((2 ^ 64 - 1) * 2 ^ shift % 2 ^ 64)

-- One round of `parse` after its byte was read and added.
unfoldable pub after_byte : ℕ → ℕ → ℕ → ℕ → Parser ℕ → Parser ℕ
unfolding pure fail sign_extend
after_byte byte prev res shift more =
    if bit_and byte 0x80 == 0
    then if ltb 64 shift && (not (byte == 0) && not (byte == 0x7f))
      then fail (text "LEB128 value too large")
      else if ltb 7 shift
          && ((byte == 0 && bit_and prev 0x40 == 0) || (byte == 0x7f && ltb 0 (bit_and prev 0x40)))
      then fail (text "LEB128 value is overlong")
      else if ltb shift 64 && ltb 0 (bit_and byte 0x40)
      then pure (sign_extend res shift)
      else pure res
    else if ltb 64 shift
    then fail (text "LEB128 value too large")
    else more

-- The loop of `parse`, which stops with an error after the tenth byte.
unfoldable pub parse_loop : ℕ → ℕ → ℕ → ℕ → Parser ℕ
unfolding u8 ◌>>=◌ fail after_byte or_group
parse_loop zero res shift prev = fail (text "out of fuel")
parse_loop (suc fuel) res shift prev = u8 >>= λ byte.
    after_byte byte prev (or_group res byte shift) (shift + 7)
      (parse_loop fuel (or_group res byte shift) (shift + 7) byte)

unfoldable pub parse : Parser ℕ
unfolding parse_loop
parse = parse_loop 10 0 0 0
