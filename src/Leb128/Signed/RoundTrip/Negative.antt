-- ===== src/Leb128/Signed/RoundTrip/Negative.antt =====
-- src/leb128.rs, module `signed`: the loop of `parse` on the groups of a negative number. It is
-- given by its complement `c`: what is left to read is `2 ^ 64 - 1 - c`.
use native.Mathlib.Nat.{pow-suc, one-le-pow, div-add-mod}
use native.Mathlib.Decide.{dec_lt}
use beelay.Prelude.Bits.{shift_seven, bit_and_0x80, bit_and_0x40, bit_or_above, two-pow_add}
use beelay.Prelude.{zero, subst, ap, suc, arith, sym, ◌%◌, ◌*◌, ◌-◌, ◌/◌, ◌^◌, ◌+◌, ◌<◌, ◌≡◌, ◌≤◌}
use beelay.Prelude.{ℕ, [], ◌∷◌, ◌⊎◌, inl, inr, ◌∙◌}
use beelay.Parse.Input.{Parser, pure}
use beelay.Parse.Reads.{Reads, Reads-map, Reads-u8, Reads-pure}
use beelay.Leb128.Signed.{or_group, sign_extend, after_byte, parse_loop}
use beelay.Leb128.Signed.RoundTrip.Groups.{groups, groups_done, groups_more, shr_negative}
use beelay.Leb128.Signed.RoundTrip.Positive.{or_group_fits, parse_loop_marked}

pred-mul : (q p : ℕ) → 0 < q → (q - 1) * p + p ≡ q * p
pred-mul zero p h = elim h [ ]
pred-mul (suc q) p h = omega (arith, ap (λ (t : ℕ). t * p) {x = suc q - 1} {y = q} (omega arith))

-- `-1 << shift` sets every bit from `shift` on.
sign_extend-eq-add :
    (res shift : ℕ)
    → shift ≤ 63
    → res < 2 ^ shift
    → sign_extend res shift + 2 ^ shift ≡ 2 ^ 64 + res
unfolding sign_extend
sign_extend-eq-add res shift h below =
    rw (ones ∙ factor)
      (rw (bit_or_above shift res (2 ^ (64 - shift) - 1) below) (omega (arith, factor, bounded)))
  where
    whole : 2 ^ (64 - shift) * 2 ^ shift ≡ 2 ^ 64
    whole =
        sym (two-pow_add (64 - shift) shift)
        ∙ ap (λ (t : ℕ). 2 ^ t) {x = 64 - shift + shift} {y = 64} (omega arith)

    factor : 2 ^ 64 - 2 ^ shift ≡ (2 ^ (64 - shift) - 1) * 2 ^ shift
    factor = omega (
      arith,
      whole,
      pred-mul (2 ^ (64 - shift)) (2 ^ shift) (one-le-pow (64 - shift) 2 (omega arith)),
    )

    bounded : 2 ^ shift ≤ 2 ^ 64
    bounded = grind (arith, whole, one-le-pow (64 - shift) 2)

    ones : (2 ^ 64 - 1) * 2 ^ shift % 2 ^ 64 ≡ 2 ^ 64 - 2 ^ shift
    ones = omega (arith, bounded, one-le-pow shift 2)

after_byte_last :
    (byte prev res shift : ℕ) (more : Parser ℕ)
    → 64 ≤ byte
    → byte < 128
    → shift ≤ 63
    → (shift ≤ 7) ⊎ ((byte < 127) ⊎ (prev / 64 % 2 ≡ 0))
    → after_byte byte prev res shift more ≡ pure (sign_extend res shift)
unfolding after_byte
after_byte_last byte prev res shift more lo hi small long =
    ground (arith, bit_and_0x80 byte, bit_and_0x40 byte, bit_and_0x40 prev)

-- The tenth byte is all ones: bit 63 is the sign, and nothing is left to extend.
after_byte_tenth :
    (byte prev res shift : ℕ) (more : Parser ℕ)
    → byte ≡ 127
    → shift ≡ 70
    → prev / 64 % 2 ≡ 0
    → after_byte byte prev res shift more ≡ pure res
unfolding after_byte
after_byte_tenth byte prev res shift more e f h =
    ground (arith, bit_and_0x40 prev, bit_and_0x80 byte, bit_and_0x40 byte)

or_group_tenth :
    (res byte shift : ℕ)
    → byte ≡ 127
    → shift ≡ 63
    → res < 2 ^ shift
    → or_group res byte shift ≡ res + 2 ^ shift
unfolding or_group
or_group_tenth res byte shift e f h = rw (e, f) (bit_or_above 63 res 1 (rw f at h))

two-pow-le : (s : ℕ) → s ≤ 56 → 2 ^ s ≤ 2 ^ 56
two-pow-le s h = grind (arith, whole, one-le-pow (56 - s) 2)
  where
    whole : 2 ^ (56 - s) * 2 ^ s ≡ 2 ^ 56
    whole =
        sym (two-pow_add (56 - s) s) ∙ ap (λ (t : ℕ). 2 ^ t) {x = 56 - s + s} {y = 56} (omega arith)

-- A group and the group of its complement.
complement_group : (b c p : ℕ) → b + c ≡ 127 → b * p + c * p ≡ 127 * p
complement_group b c p h = omega (arith, ap (λ (t : ℕ). t * p) h)

-- `t` is the number that is read.
parse_loop_last :
    (fuel j res b c shift prev t : ℕ)
    → j ≤ 8
    → shift ≡ 7 * j
    → res < 2 ^ shift
    → t + (c + 1) * 2 ^ shift ≡ 2 ^ 64 + res
    → b + c ≡ 127
    → c < 64
    → (j ≡ 0) ⊎ ((0 < c) ⊎ (prev / 64 % 2 ≡ 0))
    → Reads (parse_loop (suc fuel) res shift prev) (b ∷ []) t
unfolding parse_loop
parse_loop_last fuel j res b c shift prev t hj hs below total hb hc long =
    Reads-map _ (Reads-u8 b) (
      rw
        (
          after_byte_last b prev _ (shift + 7) _ (omega arith) (omega arith) (omega arith)
              (ground (arith, long)),
          or_group_fits b res shift below (rw whole fits),
          whole,
        )
        (subst (λ x. Reads (pure x) [] t) value (Reads-pure t)))
  where
    whole : b % 128 ≡ b
    whole = omega arith

    products : b * 2 ^ shift + c * 2 ^ shift ≡ 127 * 2 ^ shift
    products = complement_group b c (2 ^ shift) hb

    fits : b * 2 ^ shift < 2 ^ 64
    fits = omega (arith, products, two-pow-le shift (omega arith))

    value : t ≡ sign_extend (res + b * 2 ^ shift) (shift + 7)
    value = omega (
      arith,
      products,
      shift_seven shift,
      sign_extend-eq-add (res + b * 2 ^ shift) (shift + 7) (omega arith)
          (omega (arith, products, shift_seven shift)),
    )

parse_loop_tenth :
    (fuel res c shift prev t : ℕ)
    → shift ≡ 63
    → res < 2 ^ shift
    → t + (c + 1) * 2 ^ shift ≡ 2 ^ 64 + res
    → 2 ^ 63 ≤ t
    → (0 < c) ⊎ (prev / 64 % 2 ≡ 0)
    → Reads (parse_loop (suc fuel) res shift prev) ((127 - c) ∷ []) t
unfolding parse_loop
parse_loop_tenth fuel res c shift prev t hs below total big long =
    Reads-map _ (Reads-u8 (127 - c)) (
      rw
        (
          after_byte_tenth (127 - c) prev _ (shift + 7) _ ones (omega arith)
              (omega (arith, none, long)),
          or_group_tenth res (127 - c) shift ones hs below,
        )
        (subst (λ x. Reads (pure x) [] t) value (Reads-pure t)))
  where
    none : c ≡ 0
    none = omega (arith, rw hs at total, rw hs at below)

    ones : 127 - c ≡ 127
    ones = omega (arith, none)

    value : t ≡ res + 2 ^ shift
    value = omega (arith, rw none at total, ap (λ (s : ℕ). 2 ^ s) hs)

-- The last byte, wherever it stands.
parse_loop_end :
    (fuel j res c shift prev t : ℕ)
    → j ≤ 9
    → shift ≡ 7 * j
    → res < 2 ^ shift
    → t + (c + 1) * 2 ^ shift ≡ 2 ^ 64 + res
    → 2 ^ 63 ≤ t
    → c < 64
    → (j ≡ 0) ⊎ ((0 < c) ⊎ (prev / 64 % 2 ≡ 0))
    → Reads (parse_loop (suc fuel) res shift prev) ((2 ^ 64 - 1 - c) % 128 ∷ []) t
parse_loop_end fuel j res c shift prev t hj hs below total big hc long =
    rw last (elim (dec_lt j 9) [
      | yes p ↦
          parse_loop_last fuel j res (127 - c) c shift prev t (omega arith) hs below total
            (omega arith) hc long
      | no p ↦
          parse_loop_tenth fuel res c shift prev t (omega arith) below total big
            (omega (arith, long))
    ])
  where
    last : (2 ^ 64 - 1 - c) % 128 ≡ 127 - c
    last = omega arith

-- The lowest group of the complement, and the others.
split_complement :
    (c s : ℕ) → (c + 1) * 2 ^ s + (127 - c % 128) * 2 ^ s ≡ (c / 128 + 1) * 2 ^ (s + 7)
split_complement c s = omega (
  arith,
  ap (λ (t : ℕ). t * 2 ^ s) (div-add-mod c 128),
  complement_group (127 - c % 128) (c % 128) (2 ^ s) (omega arith),
  ap (λ (t : ℕ). c / 128 * t) (shift_seven s),
  shift_seven s,
)

clear_sign : (c : ℕ) → 64 ≤ c → (0 < c / 128) ⊎ ((127 - c % 128 + 128) / 64 % 2 ≡ 0)
clear_sign c h = elim (dec_lt c 128) [ yes p ↦ inr (omega arith) | no p ↦ inl (omega arith) ]

small_complement :
    (c res s t : ℕ) → res < 2 ^ s → t + (c + 1) * 2 ^ s ≡ 2 ^ 64 + res → 2 ^ 63 ≤ t → c < 2 ^ 63
small_complement c res s t below total big = grind (arith, one-le-pow s 2)

pub parse_loop-negative :
    (k fuel j res c shift prev t : ℕ)
    → k < fuel
    → j + k ≤ 9
    → shift ≡ 7 * j
    → res < 2 ^ shift
    → t + (c + 1) * 2 ^ shift ≡ 2 ^ 64 + res
    → 2 ^ 63 ≤ t
    → c < 64 * 128 ^ k
    → (j ≡ 0) ⊎ ((0 < c) ⊎ (prev / 64 % 2 ≡ 0))
    → Reads (parse_loop fuel res shift prev) (groups (suc k) (2 ^ 64 - 1 - c)) t
parse_loop-negative k zero j res c shift prev t hf hj hs below total big hc long = elim hf [ ]
parse_loop-negative zero (suc fuel) j res c shift prev t hf hj hs below total big hc long =
    rw (groups_done 0 (2 ^ 64 - 1 - c) (inr (omega arith)))
      (parse_loop_end fuel j res c shift prev t (omega arith) hs below total big (omega arith) long)
parse_loop-negative (suc k) (suc fuel) j res c shift prev t hf hj hs below total big hc long =
    elim (dec_lt c 64) [
      | yes p ↦
          rw (groups_done (suc k) (2 ^ 64 - 1 - c) (inr (omega arith)))
            (parse_loop_end fuel j res c shift prev t (omega arith) hs below total big p long)
      | no p ↦
          rw
            (
              groups_more (suc k) (2 ^ 64 - 1 - c) (omega (arith, bound)) (omega (arith, bound)),
              shr_negative c bound,
              group,
            )
            (parse_loop_marked fuel (127 - c % 128) res shift prev (omega arith) (omega arith) below
              (parse_loop-negative k fuel (j + 1) (res + (127 - c % 128) * 2 ^ shift) (c / 128)
                (shift + 7) (127 - c % 128 + 128) t (omega arith) (omega arith) (omega arith)
                (omega (arith, products, shift_seven shift))
                (omega (arith, split_complement c shift)) big (omega (arith, pow-suc 128 k))
                (inr (clear_sign c (omega arith))))
              (omega (arith, products, two-pow-le shift (omega arith))))
    ]
  where
    bound : c < 2 ^ 63
    bound = small_complement c res shift t below total big

    group : (2 ^ 64 - 1 - c) % 128 ≡ 127 - c % 128
    group = omega (arith, bound)

    products : (127 - c % 128) * 2 ^ shift + c % 128 * 2 ^ shift ≡ 127 * 2 ^ shift
    products = complement_group (127 - c % 128) (c % 128) (2 ^ shift) (omega arith)
