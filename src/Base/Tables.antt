-- ===== src/Base/Tables.antt =====
-- A fact about every byte, by evaluation at all of them.
use Prim.Native.Nat.{ℕ, zero, suc, ◌<◌}
use mathlib.Core.Path.{◌≡◌}
use mathlib.Core.Bool.{Bool, true}
use mathlib.Core.Logic.{ite}
use native.Mathlib.Decide.{ℕ_discrete}
use native.Mathlib.Omega.{arith}

module _ (lhs rhs : ℕ → ℕ) where
  -- The two functions have the same values up to here.
  unfoldable pub same_below : ℕ → Bool
  unfolding ℕ_discrete
  same_below zero = true
  same_below (suc n) = ite (ℕ_discrete (lhs n) (rhs n)) (same_below n) Bool.false

  pub same_below→eq : (n x : ℕ) → x < n → same_below n ≡ true → lhs x ≡ rhs x
  unfolding same_below
  same_below→eq zero x h t = absurd (omega arith)
  same_below→eq (suc n) x h t = ground (arith, same_below→eq n x)
