-- ===== src/Leb128/Signed/RoundTrip/Groups.antt =====
-- src/leb128.rs, module `signed`: what `encode` appends, in plain arithmetic.
use beelay.Prelude.{zero, suc, arith, sym, ◌+◌, ◌-◌, ◌/◌, ◌^◌, ◌≡◌, ◌⊎◌, ◌%◌, ◌<◌, ◌≤◌, ℕ, List}
use beelay.Prelude.{[], ◌∷◌, ◌++◌, append_assoc, append-nil, bit_and, bit_or, ltb, ◌||◌}
use beelay.Prelude.{if◌then◌else◌, ◌==◌}
use beelay.Prelude.Bits.{bit_and_0x7f, bit_or_0x80_byte}
use beelay.Leb128.Signed.{shr, encode_loop, encode}

-- A round ends the number if it fits seven bits with its sign.
unfoldable pub groups : ℕ → ℕ → List ℕ
groups zero val = []
groups (suc fuel) val =
    let rest = groups fuel (shr val 7) in
    if ltb val 64 || ltb (2 ^ 64 - 65) val then val % 128 ∷ [] else (val % 128 + 128) ∷ rest

shr-shr : (val : ℕ) → val < 2 ^ 64 → shr (shr val 6) 1 ≡ shr val 7
unfolding shr
shr-shr val h = ground arith

is_done :
    (val : ℕ)
    → val < 2 ^ 64
    → (shr val 6 == 0 || shr val 6 == 2 ^ 64 - 1) ≡ (ltb val 64 || ltb (2 ^ 64 - 65) val)
unfolding shr
is_done val h = ground arith

shr-lt : (val : ℕ) → val < 2 ^ 64 → shr val 7 < 2 ^ 64
unfolding shr
shr-lt val h = ground arith

last_bits : (val : ℕ) → bit_and (val % 256) 0x7f ≡ val % 128
last_bits val = omega (arith, bit_and_0x7f (val % 256))

marked_bits : (val : ℕ) → bit_or (val % 256) 0x80 ≡ val % 128 + 128
marked_bits val = omega (arith, bit_or_0x80_byte (val % 256) (omega arith))

encode_loop-groups :
    (fuel : ℕ) (buf : List ℕ) (val : ℕ)
    → val < 2 ^ 64
    → encode_loop fuel buf val ≡ buf ++ groups fuel val
unfolding encode_loop groups
encode_loop-groups zero buf val h = sym (append-nil buf)
encode_loop-groups (suc fuel) buf val h =
    let head : List ℕ = (val % 128 + 128) ∷ [] in
    rw (is_done val h, last_bits val, marked_bits val, shr-shr val h)
      (ground (
        arith,
        encode_loop-groups fuel (buf ++ head) (shr val 7) (shr-lt val h),
        append_assoc buf head (groups fuel (shr val 7)),
      ))

pub encode-groups : (val : ℕ) → val < 2 ^ 64 → encode [] val ≡ groups 10 val
unfolding encode
encode-groups val h = encode_loop-groups 10 [] val h

pub groups_done :
    (fuel val : ℕ) → (val < 64) ⊎ (2 ^ 64 - 65 < val) → groups (suc fuel) val ≡ val % 128 ∷ []
unfolding groups
groups_done fuel val h = ground arith

pub groups_more :
    (fuel val : ℕ)
    → 64 ≤ val
    → val ≤ 2 ^ 64 - 65
    → groups (suc fuel) val ≡ (val % 128 + 128) ∷ groups fuel (shr val 7)
unfolding groups
groups_more fuel val lo hi = ground arith

pub shr_positive : (val : ℕ) → val < 2 ^ 63 → shr val 7 ≡ val / 128
unfolding shr
shr_positive val h = ground arith

-- A negative number by its complement.
pub shr_negative : (c : ℕ) → c < 2 ^ 63 → shr (2 ^ 64 - 1 - c) 7 ≡ 2 ^ 64 - 1 - c / 128
unfolding shr
shr_negative c h = ground arith
