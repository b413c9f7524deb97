-- ===== src/Parse/Sized.antt =====
-- src/parse.rs: the parsers that read a length first.
use beelay.Prelude.{◌+◌, [], refl, suc, zero, true, ◌^◌, ◌++◌, ◌<◌, ◌∷◌, ◌≡◌, ℕ, List, String}
use beelay.Prelude.{ok_or, length, All, if◌then◌else◌}
use beelay.Leb128
use beelay.Parse.Reads.{Reads-with_context, Reads-bind, Reads-map, Reads-pure, read-append, Reads}
use beelay.Parse.Input.{element, named, not_enough_input, with_utf8_error, Parser, pure, read}
use beelay.Parse.Input.{fail, ◌>>=◌, with_context}
use beelay.Parse.Utf8.{is_utf8}
use beelay.Leb128.Encode.{uleb128}
use beelay.Leb128.RoundTrip.{parse-uleb128}

-- `input.read(n).ok_or(NotEnoughInput)?`
unfoldable pub read_bytes : ℕ → Parser (List ℕ)
unfolding read
read_bytes n i = ok_or (read n i) not_enough_input

unfoldable pub slice : Parser (List ℕ)
unfolding ◌>>=◌ with_context read_bytes Leb128.parse
slice = with_context (named "slice length") Leb128.parse >>= read_bytes

-- `std::str::from_utf8(data).map_err(|e| input.error(format!("{prefix}{}", e)))?`
unfoldable pub from_utf8 : String → List ℕ → Parser (List ℕ)
unfolding is_utf8 pure fail
from_utf8 prefix bs = if is_utf8 bs then pure bs else fail (with_utf8_error prefix bs)

unfoldable pub str : Parser (List ℕ)
unfolding slice ◌>>=◌ from_utf8
str = slice >>= from_utf8 "invalid string: "

module _ {A : Type 0} (f : Parser A) where
  -- The elements `elem`, `elem + 1` and so on, as many as are left to read.
  unfoldable pub many_loop : ℕ → ℕ → Parser (List A)
  unfolding ◌>>=◌ pure with_context
  many_loop zero elem = pure []
  many_loop (suc left) elem =
      with_context (element elem) f >>= λ v. many_loop left (elem + 1) >>= λ vs. pure (v ∷ vs)

  unfoldable pub many : Parser (List A)
  unfolding many_loop Leb128.parse
  many = with_context (named "number of items") Leb128.parse >>= λ count. many_loop count 0

-- A length in LEB128 and then the bytes: `encode_uleb128(buf, data.len()); buf.extend(data)`.
unfoldable pub sized : List ℕ → List ℕ
unfolding uleb128
sized bs = uleb128 (length bs) ++ bs

-- `for item in items { item.encode(buf); }`
unfoldable pub encode_each : {A : Type 0} → (A → List ℕ) → List A → List ℕ
encode_each e [] = []
encode_each e (x ∷ xs) = e x ++ encode_each e xs

-- The number of items in LEB128 and then the items.
unfoldable pub encode_many : {A : Type 0} → (A → List ℕ) → List A → List ℕ
unfolding encode_each uleb128
encode_many e xs = uleb128 (length xs) ++ encode_each e xs

Reads-read_bytes : (bs : List ℕ) → Reads (read_bytes (length bs)) bs bs
unfolding read_bytes
Reads-read_bytes bs = record { run = λ c rest o. rw (read-append (length bs) c bs rest o refl) }

-- A slice is read back if its length is a `u64`.
pub Reads-slice : (bs : List ℕ) → length bs < 2 ^ 64 → Reads slice (sized bs) bs
unfolding slice sized
Reads-slice bs h =
    Reads-bind _ (Reads-with_context _ (parse-uleb128 (length bs) h)) (Reads-read_bytes bs)

pub Reads-from_utf8 :
    (prefix : String) (bs : List ℕ) → is_utf8 bs ≡ true → Reads (from_utf8 prefix bs) [] bs
unfolding from_utf8
Reads-from_utf8 prefix bs h = rw h (Reads-pure bs)

pub Reads-str : (bs : List ℕ) → length bs < 2 ^ 64 → is_utf8 bs ≡ true → Reads str (sized bs) bs
unfolding str
Reads-str bs h valid = Reads-map _ (Reads-slice bs h) (Reads-from_utf8 _ bs valid)

module _ {A : Type 0} (f : Parser A) (e : A → List ℕ) {V : A → Type 0}
    (reads : (x : A) → V x → Reads f (e x) x) where
  Reads-many_loop :
      (xs : List A) (elem : ℕ)
      → All V xs
      → Reads (many_loop f (length xs) elem) (encode_each e xs) xs
  unfolding many_loop encode_each
  Reads-many_loop [] elem h = Reads-pure []
  Reads-many_loop (x ∷ xs) elem (hx, hxs) =
      Reads-bind _ (Reads-with_context _ (reads x hx))
        (Reads-map _ (Reads-many_loop xs (elem + 1) hxs) (Reads-pure _))

  -- A sequence is read back if its items are, and if their number is a `u64`.
  pub Reads-many :
      (xs : List A) → length xs < 2 ^ 64 → All V xs → Reads (many f) (encode_many e xs) xs
  unfolding many encode_many
  Reads-many xs h hs =
      Reads-bind _ (Reads-with_context _ (parse-uleb128 (length xs) h)) (Reads-many_loop xs 0 hs)

module _ {A : Type 0} (f : Parser A) (e : A → List ℕ) (reads : (x : A) → Reads f (e x) x) where
  All-Unit : (xs : List A) → All (λ _. Unit {0}) xs
  All-Unit [] = tt
  All-Unit (x ∷ xs) = (tt, All-Unit xs)

  -- The same where every item is read back.
  pub Reads-many_all : (xs : List A) → length xs < 2 ^ 64 → Reads (many f) (encode_many e xs) xs
  Reads-many_all xs h = Reads-many f e {V = λ _. Unit {0}} (λ x _. reads x) xs h (All-Unit xs)
