-- ===== src/Parse/Input.antt =====
-- src/parse.rs: the input with its context and offset, the errors, and the parsers that read a
-- fixed number of bytes.
use beelay.Prelude.{ℕ, ◌+◌, Bool, List, [], ◌∷◌, ◌++◌, Option, none, some, String, Result, ok}
use beelay.Prelude.{err, and_then, ok_or, length, take, drop, drop_last, ltb, leb, ◌==◌}
use beelay.Prelude.{if◌then◌else◌, not}
use beelay.Prelude.Array.{Array, copy_from_slice}

-- A context string: a fixed text, or `format!("element {}", n)`.
pub data Label : Type 0 where
  named : String → Label
  element : ℕ → Label

-- An error string: a fixed text, a text with a number put in, or a text with the rendering of the
-- `Utf8Error` that the bytes cause.
pub data Message : Type 0 where
  text : String → Message
  with_number : String → ℕ → Message
  with_utf8_error : String → List ℕ → Message

pub data ParseError : Type 0 where
  not_enough_input : ParseError
  other : List Label → Message → ParseError

-- `bytes` is the field `data`: what has not been read.
pub record Input : Type 0 where
  pub context : List Label
  pub bytes : List ℕ
  pub offset : ℕ

abbrev pub Parser : Type 0 → Type 0
Parser A = Input → Result (Input × A) ParseError

unfoldable pub new : List ℕ → Input
new bs = record { context = []; bytes = bs; offset = 0 }

unfoldable pub read : ℕ → Input → Option (Input × List ℕ)
read len i =
    if ltb (length i.bytes) len
    then none
    else some (record i { bytes = drop len i.bytes; offset = i.offset + len }, take len i.bytes)

unfoldable pub error : Message → Input → ParseError
error msg i = other i.context msg

unfoldable pub is_empty : Input → Bool
is_empty i = leb (length i.bytes) i.offset

-- `Ok((input, a))`
unfoldable pub pure : {A : Type 0} → A → Parser A
pure a i = ok (i, a)

-- `Err(input.error(msg))`
unfoldable pub fail : {A : Type 0} → Message → Parser A
unfolding error
fail msg i = err (error msg i)

-- `let (input, a) = p(input)?;` followed by the rest.
infixl 5 ◌>>=◌
unfoldable pub ◌>>=◌ : {A B : Type 0} → Parser A → (A → Parser B) → Parser B
◌>>=◌ p f i = and_then (p i) (λ (i', a). f a i')

-- The context is pushed for `f`, and popped from the input that `f` hands back.
unfoldable pub with_context : {A : Type 0} → Label → Parser A → Parser A
with_context l f i =
    and_then (f (record i { context = i.context ++ l ∷ [] }))
      (λ (i', a). ok (record i' { context = drop_last i'.context }, a))

-- `data[0]` of the one byte that was read.
abbrev first_byte : List ℕ → ℕ
first_byte [] = 0
first_byte (b ∷ bs) = b

unfoldable pub u8 : Parser ℕ
unfolding read
u8 i = elim (read 1 i) [ some (i', bs) ↦ ok (i', first_byte bs) | none ↦ err not_enough_input ]

unfoldable pub bool : Parser Bool
unfolding u8 ◌>>=◌ pure
bool = u8 >>= λ b. pure (not (b == 0))

unfoldable pub maybe : {A : Type 0} → Parser A → Parser (Option A)
unfolding bool ◌>>=◌ pure
maybe f = bool >>= λ has_value. if has_value then (f >>= λ value. pure (some value)) else pure none

unfoldable pub arr : (n : ℕ) → Parser (Array n)
unfolding read copy_from_slice
arr n i = and_then (ok_or (read n i) not_enough_input) (λ (i', bs). ok (i', copy_from_slice n bs))
