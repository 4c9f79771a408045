-- ===== src/Base/Budget.antt =====
-- What the subsystems that hold memory on a script's behalf see of the memory accounting: a charge
-- that may be refused, and its return. `charged` is the sum that is held.
use Prim.Native.Nat.{ℕ, ◌+◌, ◌-◌}
use mathlib.Core.Path.{◌≡◌}
use mathlib.Core.Bool.{Bool, true, false}

pub record Budget (W : Type 0) : Type 0 where
  pub charge : ℕ → W → Bool × W
  pub discharge : ℕ → W → W

-- The laws, for the states that satisfy the accounting's own invariant.
pub record BudgetLaws {W : Type 0} (B : Budget W) : Type 1 where
  pub IsSound : W → Type 0
  pub charged : W → ℕ
  pub charge-IsSound : (n : ℕ) (w : W) → IsSound w → IsSound (B.charge n w).1
  pub discharge-IsSound : (n : ℕ) (w : W) → IsSound w → IsSound (B.discharge n w)
  pub charge_taken :
      (n : ℕ) (w : W)
      → IsSound w
      → (B.charge n w).0 ≡ true
      → charged (B.charge n w).1 ≡ charged w + n
  pub charge_refused : (n : ℕ) (w : W) → IsSound w → (B.charge n w).0 ≡ false → (B.charge n w).1 ≡ w
  pub discharged : (n : ℕ) (w : W) → IsSound w → charged (B.discharge n w) ≡ charged w - n
