-- ===== src/Prelude/Order.antt =====
-- `<` on the native numbers is well founded, in a form that runs.
use Prim.Native.Nat.{ℕ, zero, suc, ◌<◌}
use mathlib.Core.WellFounded.{Acc, WellFounded}
use native.Mathlib.Omega.{arith}

lt_acc : (bound n : ℕ) → n < bound → Acc ◌<◌ n
lt_acc zero n h = absurd (omega arith)
lt_acc (suc bound) n h = Acc.intro n (λ m below. lt_acc bound m (omega arith))

unfoldable pub lt_wf : WellFounded ◌<◌
unfolding lt_acc
lt_wf = record { apply = λ n. lt_acc (suc n) n (omega arith) }
