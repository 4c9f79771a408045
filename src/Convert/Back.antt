-- ===== src/Convert/Back.antt =====
-- What it means that a PHP value is in Lua's heap as src/luaext_convert.c pushes it, and that a
-- value is one that was pushed.
use lua_ext.Base.{
  ℕ, ◌≡◌, ◌≢◌, ◌⊎◌, inl, inr, ap, true, false, some, List, [], ◌∷◌, arith, Bool-cases, All,
}
use lua_ext.Convert.{
  LuaValue, nil, table, PhpKey, index, name, Zval, null, flag, long, double, text, array, handle,
  object, Elements, end, element, exists, same_key, Env,
}
use lua_ext.Convert.ToLua.{
  PhpValue, php_null, php_flag, php_long, php_double, php_text, php_array, php_object, Pushed,
  scalar, fresh, Stores, stored_all, store, Source, lua_key, is_function, deref,
}
use lua_ext.Convert.Mirror.{key_of, same_key→eq, same_key_refl}

abbrev pub HasKey : LuaValue → List (LuaValue × LuaValue) → Type 0
HasKey k [] = ⊥
HasKey k ((j, w) ∷ l) = (k ≡ j) ⊎ HasKey k l

abbrev pub IsEntry : PhpKey → PhpValue → List (PhpKey × PhpValue) → Type 0
IsEntry k q [] = ⊥
IsEntry k q ((j, p) ∷ l) = (k ≡ j) × (q ≡ p) ⊎ IsEntry k q l

-- No key stands twice in what `lua_next` visits.
abbrev pub NoTwins : List (LuaValue × LuaValue) → Type 0
NoTwins [] = Unit
NoTwins ((k, w) ∷ l) = All (λ e. e.0 ≢ k) l × NoTwins l

-- A store of nil leaves no entry.
abbrev pub Covers : Stores → List (LuaValue × LuaValue) → Type 0
Covers stored_all l = Unit
Covers (store k b fs) l = ((b ≡ scalar nil) ⊎ HasKey k l) × Covers fs l

module _ {W : Type 0} (E : Env W) where
  -- A table of Lua's heap that was made by the stores into it: `lua_next` visits each pair that was
  -- stored and is not nil, once, in any order.
  unfoldable mutual
    pub IsStored : Pushed → LuaValue → Type 0
    IsStored (scalar x) v = v ≡ x
    IsStored (fresh fs) v =
        (id : ℕ) × (v ≡ table id)
        × All (λ e. IsFromStore fs e.0 e.1) (E.entries id)
        × Covers fs (E.entries id)
        × NoTwins (E.entries id)

    pub IsFromStore : Stores → LuaValue → LuaValue → Type 0
    IsFromStore stored_all k w = ⊥
    IsFromStore (store j b fs) k w = (k ≡ j) × (w ≢ nil) × IsStored b w ⊎ IsFromStore fs k w

module _ (S : Source) where
  -- Every element of the array that is not null has its key among these.
  abbrev pub IsCovered : Elements → List (PhpKey × PhpValue) → Type 0
  IsCovered es [] = Unit
  IsCovered es ((k, q) ∷ l) = ((deref S q ≡ php_null) ⊎ (exists k es ≡ true)) × IsCovered es l

  -- The same value, but for the order of arrays and elements that are null.
  unfoldable mutual
    pub IsBack : Zval → PhpValue → Type 0
    IsBack null p = deref S p ≡ php_null
    IsBack (flag b) p = deref S p ≡ php_flag b
    IsBack (long z) p = deref S p ≡ php_long z
    IsBack (double d) p = deref S p ≡ php_double d
    IsBack (text s) p = deref S p ≡ php_text s
    IsBack (array es) p =
        (a : ℕ) × (deref S p ≡ php_array a) × AreBack es (S.arrays a) × IsCovered es (S.arrays a)
    IsBack (handle r) p = ⊥
    IsBack (object o) p = deref S p ≡ php_object o

    pub AreBack : Elements → List (PhpKey × PhpValue) → Type 0
    AreBack end l = Unit
    AreBack (element k z es) l = ((q : PhpValue) × IsEntry k q l × IsBack z q) × AreBack es l

-- What is relied on: PHP stores no key as a string that it reads as an integer, a proxy stands for
-- the object that it was made for, and no LuaFunction is alive.
pub record Agree {W : Type 0} (E : Env W) (S : Source) : Type 0 where
  pub normal :
      (a : ℕ) (k : PhpKey) (q : PhpValue)
      → IsEntry k q (S.arrays a)
      → key_of E.numeric (lua_key k) ≡ some k
  pub proxies : (o u : ℕ) → S.proxy_for o ≡ some u → E.proxied u ≡ some o
  pub no_functions : (f : ℕ) → is_function (S.slot (S.ref_of f)) ≡ false

pub lua_key_inj : (i j : PhpKey) → lua_key i ≡ lua_key j → i ≡ j
lua_key_inj (index a) (index b) e = cc
lua_key_inj (index a) (name b) e = cc
lua_key_inj (name a) (index b) e = cc
lua_key_inj (name a) (name b) e = cc

pub exists-there :
    (j i : PhpKey) (z : Zval) (es : Elements)
    → (j ≡ i) ⊎ (exists j es ≡ true)
    → exists j (element i z es) ≡ true
unfolding exists
exists-there j i z es (inl e) = ground (arith, ap (same_key j) e, same_key_refl j)
exists-there j i z es (inr e) = ground (arith, e)

pub exists-absent :
    (j i : PhpKey) (z : Zval) (es : Elements)
    → j ≢ i
    → exists j es ≡ false
    → exists j (element i z es) ≡ false
unfolding exists
exists-absent j i z es ne e = elim (Bool-cases (same_key j i)) [
  | inl same ↦ absurd (ne (same_key→eq j i same))
  | inr other ↦ ground (arith, other, e)
]
