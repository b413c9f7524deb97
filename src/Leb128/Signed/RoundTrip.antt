-- ===== src/Leb128/Signed/RoundTrip.antt =====
-- src/leb128.rs, module `signed`: `parse` reads back what `encode` wrote. `Positive` and
-- `Negative` have the loop of `parse` on the two halves of the `i64`s.
mod Groups
mod Positive
mod Negative
use native.Mathlib.Decide.{dec_lt}
use beelay.Prelude.{ℕ, ◌+◌, ◌-◌, ◌*◌, ◌^◌, ◌<◌, ◌≡◌, refl, arith, subst, [], inl}
use Groups.{groups, encode-groups}
use Positive.{parse_loop-positive}
use Negative.{parse_loop-negative}
use beelay.Parse.Reads.{Reads}
use beelay.Leb128.Signed.{encode, parse_loop, parse}

-- The word of an `i64`, of either sign, is read back from what the encoder wrote, whatever follows
-- it, and the offset moves by its length.
pub signed_parse-encode : (val : ℕ) → val < 2 ^ 64 → Reads parse (encode [] val) val
unfolding parse
signed_parse-encode val h = rw (encode-groups val h) (elim (dec_lt val (2 ^ 63)) [
  | yes p ↦ subst (Reads _ _) (omega arith) (
      parse_loop-positive 9 10 0 0 val 0 0 (omega arith) (omega arith) refl (omega arith)
        (omega arith) (omega arith) (inl refl))
  | no p ↦
      subst (λ w. Reads (parse_loop 10 0 0 0) (groups 10 w) val) complement
        (parse_loop-negative 9 10 0 0 (2 ^ 64 - 1 - val) 0 0 val (omega arith) (omega arith) refl
          (omega arith) (omega arith) (omega arith) (omega arith) (inl refl))
])
  where
    complement : 2 ^ 64 - 1 - (2 ^ 64 - 1 - val) ≡ val
    complement = omega arith
