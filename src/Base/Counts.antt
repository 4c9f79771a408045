-- ===== src/Base/Counts.antt =====
-- How often a number stands in a list.
use Prim.Native.Nat.{ℕ, suc}
use mathlib.Core.Path.{◌≡◌, refl}
use mathlib.Core.Logic.{◌≢◌, ◌⊎◌, inl, inr}
use mathlib.Core.List.{List, [], ◌∷◌}
use native.Mathlib.Omega.{arith}
use lua_ext.Base.Tests.{◌==◌, if◌then◌else◌, Bool-cases}

abbrev pub occurrences : ℕ → List ℕ → ℕ
occurrences n [] = 0
occurrences n (x ∷ xs) = if x == n then suc (occurrences n xs) else occurrences n xs

pub occurrences-cons :
    (n x : ℕ) (xs : List ℕ)
    → (x ≡ n) × (occurrences n (x ∷ xs) ≡ suc (occurrences n xs))
      ⊎ (x ≢ n) × (occurrences n (x ∷ xs) ≡ occurrences n xs)
occurrences-cons n x xs = elim (Bool-cases (x == n)) [
  | inl e ↦ rw e (inl (ground arith, refl))
  | inr e ↦ rw e (inr (λ q. ground arith, refl))
]
