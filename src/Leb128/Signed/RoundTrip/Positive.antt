-- ===== src/Leb128/Signed/RoundTrip/Positive.antt =====
-- src/leb128.rs, module `signed`: the loop of `parse` on the groups of a number that is not negative.
use native.Mathlib.Nat.{pow-suc, one-le-pow}
use native.Mathlib.Decide.{dec_lt}
use beelay.Prelude.Bits.{shift_seven, split_group, bit_and_0x7f, bit_and_0x80, bit_and_0x40}
use beelay.Prelude.Bits.{bit_or_above}
use beelay.Prelude.{zero, subst, suc, arith, ◌%◌, ◌+◌, ◌/◌, ◌*◌, ◌<◌, ◌^◌, ◌≡◌, ◌≤◌, ℕ, List, []}
use beelay.Prelude.{◌∷◌, ◌⊎◌, inl, inr}
use beelay.Parse.Input.{Parser, pure}
use beelay.Parse.Reads.{Reads, Reads-bind, Reads-map, Reads-u8, Reads-pure}
use beelay.Leb128.Signed.{or_group, after_byte, parse_loop}
use beelay.Leb128.Signed.RoundTrip.Groups.{groups, groups_done, groups_more, shr_positive}

pub or_group_fits :
    (byte res shift : ℕ)
    → res < 2 ^ shift
    → byte % 128 * 2 ^ shift < 2 ^ 64
    → or_group res byte shift ≡ res + byte % 128 * 2 ^ shift
unfolding or_group
or_group_fits byte res shift h fits =
    rw (bit_and_0x7f byte)
      (rw (small (byte % 128 * 2 ^ shift) fits) (bit_or_above shift res (byte % 128) h))
  where
    small : (n : ℕ) → n < 2 ^ 64 → n % 2 ^ 64 ≡ n
    small n h' = omega arith

pub after_byte_marked :
    (group prev res shift : ℕ) (more : Parser ℕ)
    → group < 128
    → shift ≤ 64
    → after_byte (group + 128) prev res shift more ≡ more
unfolding after_byte
after_byte_marked group prev res shift more h small = ground (arith, bit_and_0x80 (group + 128))

after_byte_last :
    (byte prev res shift : ℕ) (more : Parser ℕ)
    → byte < 64
    → (shift ≤ 64) ⊎ (byte ≡ 0)
    → (shift ≤ 7) ⊎ ((0 < byte) ⊎ (prev / 64 % 2 ≡ 1))
    → after_byte byte prev res shift more ≡ pure res
unfolding after_byte
after_byte_last byte prev res shift more h small long =
    ground (arith, bit_and_0x80 byte, bit_and_0x40 byte, bit_and_0x40 prev)

mod_128 : (w : ℕ) → w < 128 → w % 128 ≡ w
mod_128 w h = omega arith

-- A group that is not the last lets the sign bit of the next one be told: at 64 to 127 it is set.
marked_sign : (w : ℕ) → 64 ≤ w → (0 < w / 128) ⊎ ((w % 128 + 128) / 64 % 2 ≡ 1)
marked_sign w h = elim (dec_lt w 128) [ yes p ↦ inr (omega arith) | no p ↦ inl (omega arith) ]

-- What stands above `shift` is no larger than the whole.
pub small_of_fits : (w s : ℕ) → w * 2 ^ s < 2 ^ 63 → w < 2 ^ 63
small_of_fits w s h = grind (arith, one-le-pow s 2)

tenth_byte : (s w : ℕ) → s ≡ 63 → w * 2 ^ s < 2 ^ 63 → w ≡ 0
tenth_byte s w e h = omega (arith, rw e at h)

parse_loop_last :
    (fuel j res w shift prev : ℕ)
    → j ≤ 9
    → shift ≡ 7 * j
    → res < 2 ^ shift
    → res + w * 2 ^ shift < 2 ^ 63
    → w < 64
    → (j ≡ 0) ⊎ ((0 < w) ⊎ (prev / 64 % 2 ≡ 1))
    → Reads (parse_loop (suc fuel) res shift prev) (w ∷ []) (res + w * 2 ^ shift)
unfolding parse_loop
parse_loop_last fuel j res w shift prev hj hs below fits h long = Reads-map _ (Reads-u8 w) (
    rw
      (
        after_byte_last w prev _ (shift + 7) _ h room (ground (arith, long)),
        or_group_fits w res shift below (rw whole (omega (arith, fits))),
        whole,
      )
      (Reads-pure _))
  where
    whole : w % 128 ≡ w
    whole = omega arith

    room : (shift + 7 ≤ 64) ⊎ (w ≡ 0)
    room = elim (dec_lt j 9) [
      | yes p ↦ inl (omega arith)
      | no p ↦ inr (tenth_byte shift w (omega arith) (omega arith))
    ]

-- The round of a byte that is not the last.
pub parse_loop_marked :
    (fuel group res shift prev : ℕ) {bytes : List ℕ} {t : ℕ}
    → group < 128
    → shift + 7 ≤ 64
    → res < 2 ^ shift
    → Reads (parse_loop fuel (res + group * 2 ^ shift) (shift + 7) (group + 128)) bytes t
    → group * 2 ^ shift < 2 ^ 64
    → Reads (parse_loop (suc fuel) res shift prev) ((group + 128) ∷ bytes) t
unfolding parse_loop
parse_loop_marked fuel group res shift prev h room below r fits =
    Reads-bind _ (Reads-u8 (group + 128)) (
      rw
        (
          after_byte_marked group prev _ (shift + 7) _ h room,
          or_group_fits (group + 128) res shift below (rw same fits),
          same,
        )
        r)
  where
    same : (group + 128) % 128 ≡ group
    same = omega arith

pub parse_loop-positive :
    (k fuel j res w shift prev : ℕ)
    → k < fuel
    → j + k ≤ 9
    → shift ≡ 7 * j
    → res < 2 ^ shift
    → res + w * 2 ^ shift < 2 ^ 63
    → w < 64 * 128 ^ k
    → (j ≡ 0) ⊎ ((0 < w) ⊎ (prev / 64 % 2 ≡ 1))
    → Reads (parse_loop fuel res shift prev) (groups (suc k) w) (res + w * 2 ^ shift)
parse_loop-positive k zero j res w shift prev hf hj hs below fits hw long = elim hf [ ]
parse_loop-positive zero (suc fuel) j res w shift prev hf hj hs below fits hw long =
    rw (groups_done 0 w (inl (omega arith)), mod_128 w (omega arith))
      (parse_loop_last fuel j res w shift prev (omega arith) hs below fits (omega arith) long)
parse_loop-positive (suc k) (suc fuel) j res w shift prev hf hj hs below fits hw long =
    elim (dec_lt w 64) [
      | yes p ↦
          rw (groups_done (suc k) w (inl p), mod_128 w (omega arith))
            (parse_loop_last fuel j res w shift prev (omega arith) hs below fits p long)
      | no p ↦
          rw (groups_more (suc k) w (omega arith) (omega (arith, big)), shr_positive w big)
            (parse_loop_marked fuel (w % 128) res shift prev (omega arith) (omega arith) below
              (subst (Reads _ _) (omega (arith, split_group w shift)) (
                parse_loop-positive k fuel (j + 1) (res + w % 128 * 2 ^ shift) (w / 128) (shift + 7)
                  (w % 128 + 128) (omega arith) (omega arith) (omega arith)
                  (grind (arith, shift_seven shift)) (omega (arith, split_group w shift))
                  (omega (arith, pow-suc 128 k)) (inr (marked_sign w (omega arith)))))
              (omega (arith, split_group w shift)))
    ]
  where
    big : w < 2 ^ 63
    big = small_of_fits w shift (omega (arith, fits))
