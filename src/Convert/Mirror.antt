-- ===== src/Convert/Mirror.antt =====
-- What it means that a PHP value is what a Lua value reads as (for src/luaext_convert.c).
use lua_ext.Base.{
  ℕ, suc, ◌≡◌, refl, ap, true, false, Option, none, some, List, [], ◌∷◌, ==_iff, arith, ℤ, pos,
  negsuc,
}
use lua_ext.Base.Bytes.{same_bytes→eq, same_bytes_refl}
use lua_ext.Convert.{
  LuaValue, nil, boolean, integer, float, string, table, function, userdata, PhpKey, index, name,
  Zval, null, flag, long, double, text, array, handle, object, Elements, end, element, exists, Env,
  same_integer, same_key,
}
use Prim.Native.Nat.{max}

-- The key that PHP stores a key of Lua under.
unfoldable pub key_of : (List ℕ → Option ℤ) → LuaValue → Option PhpKey
key_of numeric (integer z) = some (index z)
key_of numeric (string s) = some (elim (numeric s) [ none ↦ name s | some z ↦ index z ])
key_of numeric v = none

-- An array mirrors a table whose entries are its elements, one for one and in order.
module _ {W : Type 0} (E : Env W) where
  unfoldable mutual
    pub Mirrors : Zval → LuaValue → Type 0
    Mirrors null v = v ≡ nil
    Mirrors (flag b) v = v ≡ boolean b
    Mirrors (long z) v = v ≡ integer z
    Mirrors (double d) v = v ≡ float d
    Mirrors (text s) v = v ≡ string s
    Mirrors (array es) v = (id : ℕ) × (v ≡ table id) × MirrorsAll es (E.entries id)
    Mirrors (handle r) v = (f : ℕ) × (v ≡ function f)
    Mirrors (object o) v = (u : ℕ) × (v ≡ userdata u) × (E.proxied u ≡ some o)

    pub MirrorsAll : Elements → List (LuaValue × LuaValue) → Type 0
    MirrorsAll end l = l ≡ []
    MirrorsAll (element k z es) [] = ⊥
    MirrorsAll (element k z es) ((kv, v) ∷ l) =
        (key_of E.numeric kv ≡ some k) × Mirrors z v × MirrorsAll es l

-- No key stands twice in an array, however deep.
unfoldable mutual
  pub IsDistinct : Zval → Type 0
  IsDistinct null = Unit
  IsDistinct (flag b) = Unit
  IsDistinct (long z) = Unit
  IsDistinct (double d) = Unit
  IsDistinct (text s) = Unit
  IsDistinct (array es) = AreDistinct es
  IsDistinct (handle r) = Unit
  IsDistinct (object o) = Unit

  pub AreDistinct : Elements → Type 0
  AreDistinct end = Unit
  AreDistinct (element k z es) = (exists k es ≡ false) × IsDistinct z × AreDistinct es

-- The levels of arrays.
unfoldable mutual
  pub levels : Zval → ℕ
  levels null = 0
  levels (flag b) = 0
  levels (long z) = 0
  levels (double d) = 0
  levels (text s) = 0
  levels (array es) = suc (levels_below es)
  levels (handle r) = 0
  levels (object o) = 0

  pub levels_below : Elements → ℕ
  levels_below end = 0
  levels_below (element k z es) = max (levels z) (levels_below es)

same_integer_sym : (a b : ℤ) → same_integer a b ≡ same_integer b a
same_integer_sym (pos a) (pos b) = ground arith
same_integer_sym (pos a) (negsuc b) = refl
same_integer_sym (negsuc a) (pos b) = refl
same_integer_sym (negsuc a) (negsuc b) = ground arith

same_integer→eq : (a b : ℤ) → same_integer a b ≡ true → a ≡ b
same_integer→eq (pos a) (pos b) e = ap pos ((==_iff a b).0 e)
same_integer→eq (pos a) (negsuc b) e = cc
same_integer→eq (negsuc a) (pos b) e = cc
same_integer→eq (negsuc a) (negsuc b) e = ap negsuc ((==_iff a b).0 e)

same_integer_refl : (a : ℤ) → same_integer a a ≡ true
same_integer_refl (pos a) = ground arith
same_integer_refl (negsuc a) = ground arith

pub same_key→eq : (k j : PhpKey) → same_key k j ≡ true → k ≡ j
same_key→eq (index a) (index b) e = ap index (same_integer→eq a b e)
same_key→eq (index a) (name b) e = cc
same_key→eq (name a) (index b) e = cc
same_key→eq (name a) (name b) e = ap name (same_bytes→eq a b e)

pub same_key_refl : (k : PhpKey) → same_key k k ≡ true
same_key_refl (index a) = same_integer_refl a
same_key_refl (name a) = same_bytes_refl a
