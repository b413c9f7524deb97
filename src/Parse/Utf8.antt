-- ===== src/Parse/Utf8.antt =====
-- `std::str::from_utf8`: the test that a byte sequence is UTF-8, as the standard library documents
-- it. A Rust `String` is the list of its bytes.
use beelay.Prelude.{ℕ, ◌-◌, Bool, true, false, List, [], ◌∷◌, Option, none, some, leb, ltb, ◌==◌}
use beelay.Prelude.{◌&&◌, if◌then◌else◌}

-- Between characters, or with so many continuation bytes to come, the next one in a range.
pub data State : Type 0 where
  start : State
  continued : ℕ → ℕ → ℕ → State

within : ℕ → ℕ → ℕ → Bool
within lo hi b = leb lo b && leb b hi

first : ℕ → Option State
unfolding within
first b =
    if ltb b 0x80
    then some start
    else if within 0xc2 0xdf b
    then some (continued 1 0x80 0xbf)
    else if b == 0xe0
    then some (continued 2 0xa0 0xbf)
    else if b == 0xed
    then some (continued 2 0x80 0x9f)
    else if within 0xe1 0xef b
    then some (continued 2 0x80 0xbf)
    else if b == 0xf0
    then some (continued 3 0x90 0xbf)
    else if within 0xf1 0xf3 b
    then some (continued 3 0x80 0xbf)
    else if b == 0xf4
    then some (continued 3 0x80 0x8f)
    else none

step : State → ℕ → Option State
unfolding first within
step start b = first b
step (continued n lo hi) b =
    if within lo hi b
    then (if ltb 1 n then some (continued (n - 1) 0x80 0xbf) else some start)
    else none

accepts : State → List ℕ → Bool
unfolding step
accepts start [] = true
accepts (continued n lo hi) [] = false
accepts s (b ∷ bs) = elim (step s b) [ none ↦ false | some s' ↦ accepts s' bs ]

unfoldable pub is_utf8 : List ℕ → Bool
unfolding accepts
is_utf8 bs = accepts start bs
