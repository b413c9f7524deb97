-- ===== src/Prelude/Array.antt =====
-- Rust's `[u8; N]`: the length is in the type.
use Prim.Native.Nat.{ℕ, zero, suc}
use mathlib.Core.Path.{◌≡◌, refl, ap}
use native.Mathlib.Omega.{arith}
use mathlib.Core.List.{List, [], ◌∷◌}
use beelay.Prelude.Lists.{length}

pub data Array : ℕ → Type 0 where
  nil : Array zero
  cons : {n : ℕ} → ℕ → Array n → Array (suc n)

unfoldable pub to_list : {n : ℕ} → Array n → List ℕ
to_list nil = []
to_list (cons b a) = b ∷ to_list a

-- `let mut res = [0; N]; res.copy_from_slice(bytes)`. Rust panics where the slice is not N long;
-- here the missing bytes stay 0 and the others are dropped, and no caller gets there.
unfoldable pub copy_from_slice : (n : ℕ) → List ℕ → Array n
copy_from_slice zero bs = nil
copy_from_slice (suc n) [] = cons 0 (copy_from_slice n [])
copy_from_slice (suc n) (b ∷ bs) = cons b (copy_from_slice n bs)

pub length-to_list : {n : ℕ} (a : Array n) → length (to_list a) ≡ n
unfolding to_list
length-to_list nil = refl
length-to_list (cons b a) = ap suc (length-to_list a)

pub copy_from_slice-to_list : {n : ℕ} (a : Array n) → copy_from_slice n (to_list a) ≡ a
unfolding to_list copy_from_slice
copy_from_slice-to_list nil = refl
copy_from_slice-to_list (cons b a) = ap (cons b) (copy_from_slice-to_list a)

pub to_list-copy_from_slice :
    (n : ℕ) (bs : List ℕ) → length bs ≡ n → to_list (copy_from_slice n bs) ≡ bs
unfolding to_list copy_from_slice
to_list-copy_from_slice zero [] h = refl
to_list-copy_from_slice zero (b ∷ bs) h = absurd (omega arith)
to_list-copy_from_slice (suc n) [] h = absurd (omega arith)
to_list-copy_from_slice (suc n) (b ∷ bs) h = ap (◌∷◌ b) (to_list-copy_from_slice n bs (omega arith))
