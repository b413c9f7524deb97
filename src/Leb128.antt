-- ===== src/Leb128.antt =====
-- src/leb128.rs: unsigned LEB128, as the source writes and reads it. A `u64` is a number below
-- 2 ^ 64 and a byte one below 256.
pub mod Encode
pub mod RoundTrip
pub mod Signed
use mathlib.Core.Logic.{dite}
use mathlib.Core.WellFounded.{Acc}
use native.Mathlib.Decide.{dec_lt}
use beelay.Prelude.{ℕ, zero, suc, ◌+◌, ◌-◌, ◌*◌, ◌/◌, ◌%◌, ◌^◌, ◌<◌, List, [], ◌∷◌, ◌++◌, arith}
use beelay.Prelude.{bit_and, bit_or, ◌&&◌, ltb, ◌==◌, if◌then◌else◌}
use beelay.Prelude.Order.{lt_wf}
use beelay.Parse.Input.{Parser, text, fail, pure, ◌>>=◌, u8}

abbrev pub continuation_bit : ℕ
continuation_bit = 0x80

-- `byte & !CONTINUATION_BIT`, on a `u8`.
unfoldable pub low_bits_of_byte : ℕ → ℕ
low_bits_of_byte byte = bit_and byte (0xff - continuation_bit)

unfoldable pub low_bits_of_u64 : ℕ → ℕ
unfolding low_bits_of_byte
low_bits_of_u64 val = low_bits_of_byte (bit_and val 0xff % 256)

pub shift_lt : (val : ℕ) → 0 < val / 128 → val / 128 < val
shift_lt val h = omega arith

-- The loop, on the buffer, `bytes_written` and `val`; `val >>= 7` is `val / 128`.
unfoldable pub encode_loop : List ℕ → ℕ → (val : ℕ) → Acc ◌<◌ val → List ℕ × ℕ
unfolding low_bits_of_u64
encode_loop buf bytes_written val (Acc.intro _ smaller) =
    let byte = low_bits_of_u64 val in
    dite (dec_lt 0 (val / 128))
      (λ more.
        encode_loop (buf ++ bit_or byte continuation_bit ∷ []) (bytes_written + 1) (val / 128)
          (smaller (val / 128) (shift_lt val more)))
      (λ _. (buf ++ byte ∷ [], bytes_written + 1))

-- The buffer after the call, and the number of bytes written.
unfoldable pub encode_uleb128 : List ℕ → ℕ → List ℕ × ℕ
unfolding encode_loop lt_wf dec_lt
encode_uleb128 buf val = encode_loop buf 0 val (lt_wf.apply val)

-- One round of `parse` after its byte was read: `res` and `shift` are those after the byte was
-- added, and `more` is the rest of the loop.
unfoldable pub after_byte : ℕ → ℕ → ℕ → Parser ℕ → Parser ℕ
unfolding pure fail
after_byte byte res shift more =
    if bit_and byte 0x80 == 0
    then if ltb 64 shift && ltb 1 byte
      then fail (text "LEB128 value too large")
      else if ltb 7 shift && byte == 0
      then fail (text "LEB128 value is overlong")
      else pure res
    else if ltb 64 shift
    then fail (text "LEB128 value too large")
    else more

-- `res |= ((byte & 0x7F) as u64) << shift`
unfoldable pub or_group : ℕ → ℕ → ℕ → ℕ
or_group res byte shift = bit_or res (bit_and byte 0x7f * 2 ^ shift % 2 ^ 64)

-- The loop of `parse`. It stops with an error after the tenth byte, so that ten rounds of fuel are
-- never used up.
unfoldable pub parse_loop : ℕ → ℕ → ℕ → Parser ℕ
unfolding u8 ◌>>=◌ fail after_byte or_group
parse_loop zero res shift = fail (text "out of fuel")
parse_loop (suc fuel) res shift = u8 >>= λ byte.
    after_byte byte (or_group res byte shift) (shift + 7)
      (parse_loop fuel (or_group res byte shift) (shift + 7))

unfoldable pub parse : Parser ℕ
unfolding parse_loop
parse = parse_loop 10 0 0
