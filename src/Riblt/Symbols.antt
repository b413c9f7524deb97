-- ===== src/Riblt/Symbols.antt =====
-- src/riblt.rs, module `doc_and_heads`: the symbols, and how coded symbols are written and read.
use beelay.Prelude.{◌%◌, ◌/◌, suc, zero, arith, sym, ◌+◌, ◌≡◌, [], ◌*◌, ◌^◌, List, subst, ℕ, ◌<◌}
use beelay.Prelude.{◌++◌}
use beelay.Prelude.Array.{Array, nil, cons, to_list}
use beelay.Leb128.Signed
use beelay.Ids.{DocumentId}
use beelay.Parse.Input.{named, Parser, pure, ◌>>=◌, with_context, arr}
use beelay.Parse.Reads.{Reads, Reads-bind, Reads-map, Reads-pure, Reads-with_context, Reads-arr}
use beelay.Leb128.Signed.RoundTrip.{signed_parse-encode}

pub record MinimalTreeHash : Type 0 where
  pub digest : Array 32

pub record DocAndHeadsSymbol : Type 0 where
  pub part1 : Array 16
  pub part2 : Array 32

pub record CodedDocAndHeadsSymbol : Type 0 where
  pub symbol : DocAndHeadsSymbol
  pub hash : ℕ
  pub count : ℕ

unfoldable pub symbol_new : DocumentId → MinimalTreeHash → DocAndHeadsSymbol
symbol_new doc hash = record { part1 = doc.id; part2 = hash.digest }

unfoldable pub symbol_decode : DocAndHeadsSymbol → DocumentId × MinimalTreeHash
symbol_decode s = (record { id = s.part1 }, record { digest = s.part2 })

unfoldable pub parse_symbol : Parser DocAndHeadsSymbol
unfolding with_context ◌>>=◌ pure arr
parse_symbol =
    with_context (named "RibltSymbol")
      (arr 16 >>= λ part1. arr 32 >>= λ part2. pure (record { part1 = part1; part2 = part2 }))

unfoldable pub encode_symbol : DocAndHeadsSymbol → List ℕ
unfolding to_list
encode_symbol s = to_list s.part1 ++ to_list s.part2

-- `hash.to_be_bytes()`: `n` bytes, the highest first.
unfoldable pub to_be_bytes : (n : ℕ) → ℕ → Array n
to_be_bytes zero x = nil
to_be_bytes (suc n) x = cons (x / 256 ^ n % 256) (to_be_bytes n x)

-- `u64::from_be_bytes`
unfoldable pub from_be_bytes : {n : ℕ} → Array n → ℕ
from_be_bytes nil = 0
from_be_bytes (cons {n} b a) = b * 256 ^ n + from_be_bytes a

unfoldable pub parse_coded : Parser CodedDocAndHeadsSymbol
unfolding ◌>>=◌ pure arr parse_symbol from_be_bytes Signed.parse
parse_coded = parse_symbol >>= λ symbol. arr 8 >>= λ hash_bytes. Signed.parse >>= λ count.
    pure (record { symbol = symbol; hash = from_be_bytes hash_bytes; count = count })

unfoldable pub encode_coded : CodedDocAndHeadsSymbol → List ℕ
unfolding encode_symbol to_list to_be_bytes Signed.encode
encode_coded c =
    encode_symbol c.symbol ++ (to_list (to_be_bytes 8 c.hash) ++ Signed.encode [] c.count)

-- `hash` is a `u64` and `count` an `i64`.
pub record IsCoded (c : CodedDocAndHeadsSymbol) : Type 0 where
  pub hash : c.hash < 2 ^ 64
  pub count : c.count < 2 ^ 64

from_be_bytes-to_be_bytes : (x : ℕ) → x < 2 ^ 64 → from_be_bytes (to_be_bytes 8 x) ≡ x
unfolding from_be_bytes to_be_bytes
from_be_bytes-to_be_bytes x h = omega arith

pub Reads-symbol : (s : DocAndHeadsSymbol) → Reads parse_symbol (encode_symbol s) s
unfolding parse_symbol encode_symbol
Reads-symbol s =
    Reads-with_context _
      (Reads-bind _ (Reads-arr s.part1) (Reads-map _ (Reads-arr s.part2) (Reads-pure _)))

-- A coded symbol whose hash and count fit 64 bits is read back from its encoding, whatever follows
-- it, and the offset moves by its length.
pub Reads-coded : (c : CodedDocAndHeadsSymbol) → IsCoded c → Reads parse_coded (encode_coded c) c
unfolding parse_coded encode_coded
Reads-coded c h = Reads-bind _ (Reads-symbol c.symbol) (
    Reads-bind _ (Reads-arr (to_be_bytes 8 c.hash)) (
      Reads-map _ (signed_parse-encode c.count h.count) (
        subst (λ x. Reads (pure (record { symbol = c.symbol; hash = x; count = c.count })) [] c)
          (sym (from_be_bytes-to_be_bytes c.hash h.hash)) (Reads-pure c))))
