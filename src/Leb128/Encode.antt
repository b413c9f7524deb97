-- ===== src/Leb128/Encode.antt =====
-- src/leb128.rs: what `encode_uleb128` appends, in plain arithmetic.
use mathlib.Core.WellFounded.{Acc}
use beelay.Prelude.{ℕ, zero, suc, ◌+◌, ◌/◌, ◌%◌, ◌^◌, ◌≤◌, ◌<◌, ◌≡◌, ap, ◌∙◌, arith, List, []}
use beelay.Prelude.{◌∷◌, ◌++◌, append_assoc, bit_and, bit_or, ltb, if◌then◌else◌, length, All}
use beelay.Prelude.Bits.{bit_and_0x7f, bit_and_0xff, bit_or_0x80}
use beelay.Prelude.Order.{lt_wf}
use beelay.Leb128.{low_bits_of_u64, encode_loop, encode_uleb128}

-- `val` below 128 ^ (k + 1) in groups of seven bits, lowest first, all but the last marked.
unfoldable pub groups : ℕ → ℕ → List ℕ
groups zero val = val ∷ []
groups (suc k) val =
    let rest = groups k (val / 128) in
    if ltb 0 (val / 128) then (val % 128 + 128) ∷ rest else val ∷ []

-- The bytes of a `u64`.
unfoldable pub uleb128 : ℕ → List ℕ
unfolding encode_uleb128
uleb128 val = (encode_uleb128 [] val).0

low_bits : (val : ℕ) → low_bits_of_u64 val ≡ val % 128
unfolding low_bits_of_u64
low_bits val = omega (arith, bit_and_0x7f (bit_and val 0xff % 256), bit_and_0xff val)

marked_bits : (val : ℕ) → bit_or (low_bits_of_u64 val) 0x80 ≡ val % 128 + 128
marked_bits val = rw low_bits (bit_or_0x80 (val % 128) (omega arith))

encode_loop-groups :
    (k : ℕ) (buf : List ℕ) (written val : ℕ) (w : Acc ◌<◌ val)
    → val < 128 ^ suc k
    → encode_loop buf written val w ≡ (buf ++ groups k val, written + length (groups k val))
unfolding encode_loop groups
encode_loop-groups zero buf written val (Acc.intro _ smaller) h = ground (arith, low_bits val)
encode_loop-groups (suc k) buf written val (Acc.intro _ smaller) h =
    let head : List ℕ = (val % 128 + 128) ∷ [] in
    grind (
      arith,
      low_bits val,
      marked_bits val,
      λ (w : Acc ◌<◌ (val / 128)).
          encode_loop-groups k (buf ++ head) (written + 1) (val / 128) w (omega arith),
      append_assoc buf head (groups k (val / 128)),
    )

pub encode_uleb128-groups :
    (buf : List ℕ) (val : ℕ)
    → val < 2 ^ 64
    → encode_uleb128 buf val ≡ (buf ++ groups 9 val, length (groups 9 val))
unfolding encode_uleb128
encode_uleb128-groups buf val h =
    encode_loop-groups 9 buf 0 val (lt_wf.apply val) (omega arith)
    ∙ ap (λ n. (buf ++ groups 9 val, n)) (omega arith)

pub uleb128-groups : (val : ℕ) → val < 2 ^ 64 → uleb128 val ≡ groups 9 val
unfolding uleb128
uleb128-groups val h = ap (λ (r : List ℕ × ℕ). r.0) (encode_uleb128-groups [] val h)

-- For a value of 64 bits the buffer keeps what it had, what is appended does not depend on it, and
-- the count that is returned is that of the bytes appended.
pub encode_uleb128-append :
    (buf : List ℕ) (val : ℕ)
    → val < 2 ^ 64
    → encode_uleb128 buf val ≡ (buf ++ uleb128 val, length (uleb128 val))
encode_uleb128-append buf val h = rw (uleb128-groups val h) (encode_uleb128-groups buf val h)

pub length-groups : (k val : ℕ) → (1 ≤ length (groups k val)) × (length (groups k val) ≤ k + 1)
unfolding groups
length-groups zero val = omega arith
length-groups (suc k) val = ground (arith, length-groups k (val / 128))

groups-IsByte : (k val : ℕ) → val < 128 ^ suc k → All (λ b. b < 256) (groups k val)
unfolding groups
groups-IsByte zero val h = omega arith
groups-IsByte (suc k) val h = ground (arith, groups-IsByte k (val / 128) (omega arith))

-- A value of 64 bits is written in one to ten bytes.
pub uleb128_shape :
    (val : ℕ)
    → val < 2 ^ 64
    → All (λ b. b < 256) (uleb128 val) × (1 ≤ length (uleb128 val)) × (length (uleb128 val) ≤ 10)
uleb128_shape val h =
    let (lo, hi) = length-groups 9 val in
    rw (uleb128-groups val h) (groups-IsByte 9 val (omega arith), lo, hi)
