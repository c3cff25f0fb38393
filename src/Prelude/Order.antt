-- ===== src/Prelude/Order.antt =====
-- `<` on the native numbers is well founded.
use Prim.Native.Nat.{ℕ, zero, suc, ◌<◌}
use mathlib.Core.WellFounded.{Acc, WellFounded}
use native.Mathlib.Omega.{arith}

accessible_below : (k n : ℕ) → n < k → Acc ◌<◌ n
accessible_below zero n h = absurd (omega arith)
accessible_below (suc k) n h = Acc.intro n (λ m hm. accessible_below k m (omega arith))

unfoldable pub lt_wf : WellFounded ◌<◌
unfolding accessible_below
lt_wf = record { apply = λ n. accessible_below (suc n) n (omega arith) }
