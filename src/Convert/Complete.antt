-- ===== src/Convert/Complete.antt =====
-- What a PHP value mirrors is converted to it by src/luaext_convert.c.
use mathlib.Core.Path.{subst}
use mathlib.Core.Logic.{◌↔◌}
use lua_ext.Base.{
  ℕ, zero, suc, ◌≤◌, ◌≡◌, refl, false, Option, none, some, List, [], ◌∷◌, arith, All,
}
use lua_ext.Convert.{
  LuaValue, Zval, null, flag, long, double, text, array, handle, object, Elements, end, element,
  update, Chain, ok, Env, Action, ◌>>=◌, step_root, depth_limit,
}
use lua_ext.Convert.ToPhp.{
  account, child_of, convert_entry, walk, convert_table, convert_typed, convert_value, to_zval,
  entered, parents_of,
}
use lua_ext.Convert.Mirror.{Mirrors, MirrorsAll, IsDistinct, AreDistinct, levels, levels_below}
use lua_ext.Convert.Finite.{
  table_of, IsFinite, Mirrors-IsFinite, IsUnder, is_ancestor-new, entries-IsUnder,
}
use lua_ext.Convert.Sound.{to_zval-Mirrors}
use lua_ext.Convert.Plain.{
  IsPlain, ArePlain, joined, AreNew, update-joined, joined-end, update-AreNew, AreNew-end,
}
use lua_ext.Convert.Answers.{Answers, IsCalm, key_step, convert_entry-Answers, store-Answers}

module _ {W : Type 0} (E : Env W) (calm : IsCalm E) where
  -- A conversion of values with `n` levels left, under a chain.
  abbrev IsTotal : ℕ → (Chain → LuaValue → Action W Zval) → Type 0
  IsTotal n convert =
      (chain : Chain) (z : Zval) (v : LuaValue)
      → Mirrors E z v
      → IsDistinct z
      → IsPlain z
      → levels z ≤ n
      → IsUnder E (parents_of chain) (table_of v)
      → Answers (convert chain v) z

  walk-Answers :
      (n : ℕ) (convert : Chain → LuaValue → Action W Zval) (chain : Chain)
      → IsTotal n convert
      → (rest : List (LuaValue × LuaValue)) (es target : Elements) → MirrorsAll E es rest
      → AreDistinct es
      → ArePlain es
      → levels_below es ≤ n
      → AreNew es target
      → All (λ p. IsUnder E chain (table_of p.1)) rest
      → Answers (walk E false convert chain rest target) (array (joined target es))
  unfolding walk Mirrors IsDistinct IsPlain levels AreNew
  walk-Answers n convert chain total [] end target m d p l new under c = rw (joined-end target) refl
  walk-Answers n convert chain total [] (element k z es) target m d p l new under c = elim m [ ]
  walk-Answers n convert chain total (x ∷ rest) end target m d p l new under c = cc
  walk-Answers n convert chain total ((kv, v) ∷ rest) (element k z es) target m d p l new under c =
      store-Answers E calm k z (array (joined target (element k z es))) target
        (walk E false convert chain rest) (convert_entry E false convert chain target kv v c)
        (convert_entry-Answers E calm convert chain target kv v k z m.0 new.0
          (total (child_of E false (key_step E calm kv) chain) z v m.1 d.1 p.0 (omega (arith, l))
            under.0)
          c)
        (λ c1.
          subst (λ y. (walk E false convert chain rest (update k z target) c1).0 ≡ ok (array y))
            (update-joined k z target es new.0)
            (walk-Answers n convert chain total rest es (update k z target) m.2 d.2 p.1
              (omega (arith, l)) (update-AreNew k z es target d.0 new.1) under.1 c1))

  convert_table-Answers :
      (n depth id : ℕ) (convert : Chain → LuaValue → Action W Zval) (chain : Chain) (es : Elements)
      → IsTotal n convert
      → MirrorsAll E es (E.entries id)
      → AreDistinct es
      → ArePlain es
      → levels_below es ≤ n
      → IsFinite E (suc n) (some id)
      → IsUnder E (parents_of chain) (some id)
      → Answers (convert_table E false (some convert) depth chain id) (array es)
  unfolding convert_table joined
  convert_table-Answers n depth id convert chain es total m d p l fin under c =
      rw (is_ancestor-new E (suc n) id (parents_of chain) fin under, calm.grows depth)
        (walk-Answers n convert (entered id chain) total (E.entries id) es end m d p l
          (AreNew-end es) (entries-IsUnder E id chain under) c)

  -- A level of nesting whose next one is total.
  abbrev IsTotalBelow : ℕ → Option (Chain → LuaValue → Action W Zval) → Type 0
  IsTotalBelow n none = n ≡ 0
  IsTotalBelow n (some convert) = (m : ℕ) × (n ≡ suc m) × IsTotal m convert

  convert_array-Answers :
      (n depth id : ℕ) (o : Option (Chain → LuaValue → Action W Zval)) (chain : Chain)
      (es : Elements)
      → IsTotalBelow n o
      → MirrorsAll E es (E.entries id)
      → AreDistinct es
      → ArePlain es
      → suc (levels_below es) ≤ n
      → IsFinite E n (some id)
      → IsUnder E (parents_of chain) (some id)
      → Answers (convert_table E false o depth chain id) (array es)
  convert_array-Answers n depth id none chain es t m d p l fin under = absurd (omega (arith, t, l))
  convert_array-Answers n depth id (some convert) chain es (k, e, total) m d p l fin under =
      convert_table-Answers k depth id convert chain es total m d p (omega (arith, e, l))
        (subst (λ x. IsFinite E x (some id)) e fin) under

  convert_typed-Answers :
      (n depth : ℕ) (o : Option (Chain → LuaValue → Action W Zval)) (chain : Chain) (z : Zval)
      (v : LuaValue)
      → IsTotalBelow n o
      → Mirrors E z v
      → IsDistinct z
      → IsPlain z
      → levels z ≤ n
      → IsUnder E (parents_of chain) (table_of v)
      → Answers (convert_typed E false o depth chain v) z
  unfolding convert_typed ◌>>=◌ account Mirrors IsDistinct IsPlain levels
  convert_typed-Answers n depth o chain null v t m d p l under c = rw m refl
  convert_typed-Answers n depth o chain (flag b) v t m d p l under c = rw m refl
  convert_typed-Answers n depth o chain (long b) v t m d p l under c = rw m refl
  convert_typed-Answers n depth o chain (double b) v t m d p l under c = rw m refl
  convert_typed-Answers n depth o chain (text s) v t m d p l under c = rw m refl
  convert_typed-Answers n depth o chain (handle r) v t m d p l under c = elim p [ ]
  convert_typed-Answers n depth o chain (object x) v t m d p l under c = rw (m.1, m.2) refl
  convert_typed-Answers n depth o chain (array es) v t m d p l under c =
      let fin : IsFinite E n (table_of v) = Mirrors-IsFinite E (array es) v n m l in
      rw (m.1) (
        convert_array-Answers n depth m.0 o chain es t m.2 d p l
          (subst (λ x. IsFinite E n (table_of x)) (m.1) fin)
          (subst (λ x. IsUnder E (parents_of chain) (table_of x)) (m.1) under) c)

  convert_value-IsTotal : (n depth : ℕ) → IsTotal n (convert_value E false n depth)
  unfolding convert_value
  convert_value-IsTotal zero depth chain z v m d p l under =
      convert_typed-Answers zero depth none chain z v refl m d p l under
  convert_value-IsTotal (suc n) depth chain z v m d p l under =
      convert_typed-Answers (suc n) depth (some (convert_value E false n (suc depth))) chain z v
        (n, refl, convert_value-IsTotal n (suc depth)) m d p l under

  -- Where the interpreter's stack grows, no interrupt is pending and nothing is billed, a Lua
  -- value is converted to a PHP value with no function in it exactly if that has one element for
  -- each entry of a table, in order, under the key that PHP stores it by, no key twice in one
  -- array, and no more levels of arrays than the limit.
  pub to_zval_iff :
      (v : LuaValue) (w : W) (z : Zval)
      → IsPlain z
      → ((to_zval E false v w).0 ≡ ok z)
        ↔ (Mirrors E z v × IsDistinct z × (levels z ≤ depth_limit E.max_conversion_depth))
  unfolding to_zval
  to_zval_iff v w z plain = (
    to_zval-Mirrors E false v w z,
    λ (m, d, l).
        convert_value-IsTotal (depth_limit E.max_conversion_depth) 0 (step_root ∷ []) z v m d plain
          l tt (record { world = w; produced = 0; elements = 0 }),
  )
