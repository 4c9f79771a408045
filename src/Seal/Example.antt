-- ===== src/Seal/Example.antt =====
-- A hash of two bytes to evaluate src/luaext_seal.c with: a length and a sum.
use lua_ext.Base.{ℕ, ◌+◌, ◌%◌, refl, List, [], ◌∷◌, ◌++◌, length, arith}
use lua_ext.Seal.{HashOps, Hashes}
use lua_ext.Seal.Equal.{HashLaws}

abbrev pub sum : List ℕ → ℕ
sum [] = 0
sum (x ∷ xs) = x + sum xs

abbrev pub toy : HashOps
toy = record {
  Context = List ℕ;
  hash_init = [];
  hash_update = λ added c. c ++ added;
  hash_final = λ c. length c % 256 ∷ sum c % 256 ∷ [];
  digest_size = 2;
}

abbrev pub toys : Hashes
toys = record { sha256 = toy; xxh128 = toy }

pub toys-HashLaws : HashLaws toys
toys-HashLaws = record {
  sha256_size = λ c. refl;
  xxh128_size = λ c. refl;
  sha256_some = omega arith;
  xxh128_some = omega arith;
}

abbrev pub chunk : List ℕ
chunk = 27 ∷ 76 ∷ []
