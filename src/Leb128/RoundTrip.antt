-- ===== src/Leb128/RoundTrip.antt =====
-- src/leb128.rs: `parse` reads back what `encode_uleb128` wrote.
use native.Mathlib.Nat.{pow-suc}
use native.Mathlib.Decide.{dec_lt}
use beelay.Prelude.Bits.{shift_seven, split_group, bit_and_0x7f, bit_and_0x80, bit_or_above}
use beelay.Prelude.{refl, zero, subst, arith, suc, ◌%◌, ◌/◌, ◌≤◌, ◌*◌, ◌+◌, ◌<◌, ◌^◌, ◌≡◌, ℕ, []}
use beelay.Prelude.{◌∷◌, ◌⊎◌, inl, inr, lt→ltb, ltb-eq_false}
use beelay.Parse.Input.{Parser, pure}
use beelay.Parse.Reads.{Reads, Reads-bind, Reads-map, Reads-u8, Reads-pure}
use beelay.Leb128.{after_byte, or_group, parse_loop, parse}
use beelay.Leb128.Encode.{groups, uleb128, uleb128-groups}

-- `res |= x << shift` on a group of seven bits that fits.
or_group_fits :
    (byte res shift : ℕ)
    → res < 2 ^ shift
    → res + byte % 128 * 2 ^ shift < 2 ^ 64
    → or_group res byte shift ≡ res + byte % 128 * 2 ^ shift
unfolding or_group
or_group_fits byte res shift h fits =
    rw (bit_and_0x7f byte)
      (rw (mod_u64 (byte % 128 * 2 ^ shift) (omega arith)) (bit_or_above shift res (byte % 128) h))
  where
    mod_u64 : (n : ℕ) → n < 2 ^ 64 → n % 2 ^ 64 ≡ n
    mod_u64 n h' = omega arith

-- The tenth byte stands at bit 63 and holds one bit.
tenth_byte : (s val : ℕ) → s ≡ 63 → val * 2 ^ s < 2 ^ 64 → val < 2
tenth_byte s val e h = omega (arith, rw e at h)

-- What the loop relies on before it reads the groups of `val`, after `j` bytes.
record IsReady (k j res val shift : ℕ) : Type 0 where
  rounds : j + k ≤ 9
  at_bit : shift ≡ 7 * j
  below : res < 2 ^ shift
  fits : res + val * 2 ^ shift < 2 ^ 64
  small : val < 128 ^ suc k
  not_overlong : (j ≡ 0) ⊎ (0 < val)

after_byte_last :
    (byte res shift : ℕ) (more : Parser ℕ)
    → byte < 128
    → (shift ≤ 64) ⊎ (byte < 2)
    → (shift ≤ 7) ⊎ (0 < byte)
    → after_byte byte res shift more ≡ pure res
unfolding after_byte
after_byte_last byte res shift more h small long = ground (arith, bit_and_0x80 byte)

after_byte_marked :
    (group res shift : ℕ) (more : Parser ℕ)
    → group < 128
    → shift ≤ 64
    → after_byte (group + 128) res shift more ≡ more
unfolding after_byte
after_byte_marked group res shift more h small = ground (arith, bit_and_0x80 (group + 128))

parse_loop_last :
    (fuel k j res val shift : ℕ)
    → val < 128
    → IsReady k j res val shift
    → Reads (parse_loop (suc fuel) res shift) (val ∷ []) (res + val * 2 ^ shift)
unfolding parse_loop
parse_loop_last fuel k j res val shift h ready = Reads-map _ (Reads-u8 val) (
    rw
      (
        or_group_fits val res shift ready.below (rw whole ready.fits),
        after_byte_last val _ (shift + 7) _ h room (ground (arith, ready.not_overlong)),
        whole,
      )
      (Reads-pure _))
  where
    whole : val % 128 ≡ val
    whole = omega arith

    room : (shift + 7 ≤ 64) ⊎ (val < 2)
    room = elim (dec_lt j 9) [
      | yes p ↦ inl (omega (arith, ready.at_bit))
      | no p ↦ inr (
          tenth_byte shift val (omega (arith, ready.at_bit, ready.rounds))
            (omega (arith, ready.fits)))
    ]

next-IsReady :
    (k j res val shift : ℕ)
    → 0 < val / 128
    → IsReady (suc k) j res val shift
    → IsReady k (j + 1) (res + val % 128 * 2 ^ shift) (val / 128) (shift + 7)
next-IsReady k j res val shift h ready = record {
  rounds = omega (arith, ready.rounds);
  at_bit = omega (arith, ready.at_bit);
  below = grind (arith, shift_seven shift);
  fits = omega (arith, split_group val shift);
  small = omega (arith, pow-suc 128 (suc k));
  not_overlong = inr h;
}

parse_loop_marked :
    (fuel k j res val shift : ℕ)
    → 0 < val / 128
    → IsReady (suc k) j res val shift
    → Reads
        (parse_loop fuel (res + val % 128 * 2 ^ shift) (shift + 7))
        (groups k (val / 128))
        (res + val % 128 * 2 ^ shift + val / 128 * 2 ^ (shift + 7))
    → Reads
        (parse_loop (suc fuel) res shift)
        ((val % 128 + 128) ∷ groups k (val / 128))
        (res + val * 2 ^ shift)
unfolding parse_loop
parse_loop_marked fuel k j res val shift h ready r = Reads-bind _ (Reads-u8 (val % 128 + 128)) (
    rw
      (
        after_byte_marked (val % 128) _ (shift + 7) _ (omega arith)
            (omega (arith, ready.at_bit, ready.rounds)),
        or_group_fits (val % 128 + 128) res shift ready.below
            (rw same (omega (arith, split_group val shift, ready.fits))),
        same,
      )
      (subst (Reads _ _) (omega (arith, split_group val shift)) r))
  where
    same : (val % 128 + 128) % 128 ≡ val % 128
    same = omega arith

parse_loop-groups :
    (k fuel j res val shift : ℕ)
    → k < fuel
    → IsReady k j res val shift
    → Reads (parse_loop fuel res shift) (groups k val) (res + val * 2 ^ shift)
unfolding groups
parse_loop-groups k zero j res val shift hf ready = elim hf [ ]
parse_loop-groups zero (suc fuel) j res val shift hf ready =
    parse_loop_last fuel zero j res val shift ready.small ready
parse_loop-groups (suc k) (suc fuel) j res val shift hf ready = elim (dec_lt 0 (val / 128)) [
  | yes p ↦ rw (lt→ltb 0 (val / 128) p) (
      parse_loop_marked fuel k j res val shift p ready (
        parse_loop-groups k fuel (j + 1) (res + val % 128 * 2 ^ shift) (val / 128) (shift + 7)
          (omega arith) (next-IsReady k j res val shift p ready)))
  | no p ↦
      rw (ltb-eq_false 0 (val / 128) (omega arith))
        (parse_loop_last fuel (suc k) j res val shift (omega arith) ready)
]

-- For a value of 64 bits, the parser reads back what the encoder wrote, whatever follows it, and
-- moves the offset by its length.
pub parse-uleb128 : (val : ℕ) → val < 2 ^ 64 → Reads parse (uleb128 val) val
unfolding parse
parse-uleb128 val h =
    rw (uleb128-groups val h)
      (subst (Reads _ _) (omega arith) (parse_loop-groups 9 10 0 0 val 0 (omega arith) start))
  where
    start : IsReady 9 0 0 val 0
    start = record {
      rounds = omega arith;
      at_bit = omega arith;
      below = omega arith;
      fits = omega arith;
      small = omega arith;
      not_overlong = inl refl;
    }
