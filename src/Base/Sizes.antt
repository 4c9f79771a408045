-- ===== src/Base/Sizes.antt =====
-- Unsigned machine words of 64 bits (`size_t`, `uint64_t`) as native numbers, and the signed
-- integers that the extension receives from PHP and Lua.
use lua_ext.Base.Tests.{ltb, if◌then◌else◌}
use Prim.Native.Nat.{ℕ, suc, ◌+◌, ◌-◌, ◌%◌, ◌^◌}
use mathlib.Core.Bool.{Bool, true, false}

abbrev pub word : ℕ
word = 2 ^ 64

-- `SIZE_MAX`, and `UINT64_MAX`
abbrev pub size_max : ℕ
size_max = 2 ^ 64 - 1

-- `a + b` and `a - b` on `size_t`, which wrap.
abbrev pub add_size : ℕ → ℕ → ℕ
add_size a b = (a + b) % word

abbrev pub sub_size : ℕ → ℕ → ℕ
sub_size a b = (a + word - b) % word

-- `negsuc n` is -(n + 1).
pub data ℤ : Type 0 where
  pos : ℕ → ℤ
  negsuc : ℕ → ℤ

infixl 6 ◌+ℤ◌
-- `n < 0`
abbrev pub is_negative : ℤ → Bool
is_negative (pos n) = false
is_negative (negsuc n) = true

abbrev pub ◌+ℤ◌ : ℤ → ℤ → ℤ
(pos a) +ℤ (pos b) = pos (a + b)
(pos a) +ℤ (negsuc b) = if ltb b a then pos (a - suc b) else negsuc (b - a)
(negsuc a) +ℤ (pos b) = if ltb a b then pos (b - suc a) else negsuc (a - b)
(negsuc a) +ℤ (negsuc b) = negsuc (suc (a + b))
