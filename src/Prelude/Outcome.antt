-- ===== src/Prelude/Outcome.antt =====
-- Rust's `Result`, and the chain of its `?` operator.
use mathlib.Core.Option.{Option, none, some}

pub data Result {ℓ κ} (A : Type ℓ) (E : Type κ) : Type (ℓ ⊔ κ) where
  ok : A → Result A E
  err : E → Result A E

module _ {ℓ κ ι} {A : Type ℓ} {B : Type κ} {E : Type ι} where
  -- `r?` followed by the rest of the function.
  abbrev pub and_then : Result A E → (A → Result B E) → Result B E
  and_then (ok a) f = f a
  and_then (err e) f = err e

  -- `Result::map`
  abbrev pub map_ok : (A → B) → Result A E → Result B E
  map_ok f (ok a) = ok (f a)
  map_ok f (err e) = err e

  -- `Result::map_err`
  abbrev pub map_err : (A → B) → Result E A → Result E B
  map_err f (ok a) = ok a
  map_err f (err e) = err (f e)

-- `Option::ok_or`
abbrev pub ok_or {ℓ κ} : {A : Type ℓ} {E : Type κ} → Option A → E → Result A E
ok_or (some a) e = ok a
ok_or none e = err e
