-- ===== src/Convert/Sound.antt =====
-- A table that src/luaext_convert.c converts to PHP loses nothing: the array mirrors it.
use lua_ext.Base.{
  ℕ, zero, suc, ◌≤◌, ◌≡◌, refl, Bool, Option, none, some, List, [], ◌∷◌, arith, if◌then◌else◌,
  add_size, length,
}
use lua_ext.Convert.{
  LuaValue, nil, absent, boolean, integer, float, string, table, function, thread, userdata,
  light_userdata, Zval, text, end, Chain, Result, ok, failed, Env, Ctx, Action, follow, ◌>>=◌, pure,
  to_fail, step_root, depth_limit, circular, stack_full,
}
use lua_ext.Convert.ToPhp.{
  account, convert_function, after_ref, walk, convert_table, converted_userdata, convert_typed,
  convert_value, to_zval, entered, is_ancestor, parents_of,
}
use lua_ext.Convert.Mirror.{Mirrors, IsDistinct, levels}
use lua_ext.Convert.Walk.{Post, ok-Post, if-Post, Reads, ReadsTable, empty-Walk}

module _ {W : Type 0} (E : Env W) (bill : Bool) where
  -- A level of nesting with a conversion for the next one.
  abbrev IsReading : ℕ → Option (Chain → LuaValue → Action W Zval) → Type 0
  IsReading n none = Unit
  IsReading n (some convert) =
      (m : ℕ) × (n ≡ suc m)
      × ((chain : Chain) (v : LuaValue) (c : Ctx W) → Post (Reads E bill m v) (convert chain v c))

  table-Post :
      (n id : ℕ) (r : Result Zval × Ctx W)
      → Post (ReadsTable E bill n (E.entries id)) r
      → Post (Reads E bill (suc n) (table id)) r
  unfolding Mirrors IsDistinct levels
  table-Post n id (ok z, c) (es, e, m, d, l) = rw e ((id, refl, m), d, omega (arith, l))
  table-Post n id (failed e, c) h = tt

  convert_table-Post :
      (n : ℕ) (o : Option (Chain → LuaValue → Action W Zval)) (depth : ℕ) (chain : Chain) (id : ℕ)
      (c : Ctx W)
      → IsReading n o
      → Post (Reads E bill n (table id)) (convert_table E bill o depth chain id c)
  unfolding convert_table
  convert_table-Post n none depth chain id c h = tt
  convert_table-Post n (some convert) depth chain id c (m, e, h) =
      if-Post (Reads E bill n (table id)) (is_ancestor id (parents_of chain))
        (to_fail circular chain)
        (if E.stack_grows depth
          then walk E bill convert (entered id chain) (E.entries id) end
          else to_fail stack_full (entered id chain))
        c (λ e. tt)
        (λ calm.
          if-Post (Reads E bill n (table id)) (E.stack_grows depth)
            (walk E bill convert (entered id chain) (E.entries id) end)
            (to_fail stack_full (entered id chain)) c
            (λ grows. rw e (
              table-Post m id (walk E bill convert (entered id chain) (E.entries id) end c)
                (empty-Walk E bill m convert h (entered id chain) (E.entries id) c)))
            (λ full. tt))

  userdata-Post :
      (n u : ℕ) (o : Option ℕ) (chain : Chain) (c : Ctx W)
      → E.proxied u ≡ o
      → Post (Reads E bill n (userdata u)) (converted_userdata E bill o chain c)
  unfolding Mirrors IsDistinct levels
  userdata-Post n u none chain c e = tt
  userdata-Post n u (some o) chain c e = ((u, refl, e), tt, omega arith)

  function-Post :
      (n f : ℕ) (chain : Chain) (c : Ctx W) (r : Option ℕ × W)
      → Post (Reads E bill n (function f)) (after_ref E bill chain c r)
  unfolding Mirrors IsDistinct levels
  function-Post n f chain c (none, w) = tt
  function-Post n f chain c (some ref, w) = ((f, refl), tt, omega arith)

  text-Post :
      (n : ℕ) (s : List ℕ) (r : Result (Unit {0}) × Ctx W)
      → Post (Reads E bill n (string s)) (follow (λ u. pure (text s)) r)
  unfolding Mirrors IsDistinct levels
  text-Post n s (ok u, c) = (refl, tt, omega arith)
  text-Post n s (failed e, c) = tt

  convert_typed-Post :
      (n : ℕ) (o : Option (Chain → LuaValue → Action W Zval)) (depth : ℕ) (chain : Chain)
      (v : LuaValue) (c : Ctx W)
      → IsReading n o
      → Post (Reads E bill n v) (convert_typed E bill o depth chain v c)
  unfolding convert_typed convert_function ◌>>=◌ Mirrors IsDistinct levels
  convert_typed-Post n o depth chain nil c h = (refl, tt, omega arith)
  convert_typed-Post n o depth chain absent c h = tt
  convert_typed-Post n o depth chain (boolean b) c h = (refl, tt, omega arith)
  convert_typed-Post n o depth chain (integer z) c h = (refl, tt, omega arith)
  convert_typed-Post n o depth chain (float d) c h = (refl, tt, omega arith)
  convert_typed-Post n o depth chain (string s) c h =
      text-Post n s (account E bill (add_size (length s) E.string_bytes) chain c)
  convert_typed-Post n o depth chain (table id) c h = convert_table-Post n o depth chain id c h
  convert_typed-Post n o depth chain (function f) c h =
      function-Post n f chain c (E.make_ref f c.world)
  convert_typed-Post n o depth chain (thread t) c h = tt
  convert_typed-Post n o depth chain (userdata u) c h = userdata-Post n u (E.proxied u) chain c refl
  convert_typed-Post n o depth chain (light_userdata u) c h = tt

  convert_value-Post :
      (n depth : ℕ) (chain : Chain) (v : LuaValue) (c : Ctx W)
      → Post (Reads E bill n v) (convert_value E bill n depth chain v c)
  unfolding convert_value
  convert_value-Post zero depth chain v c = convert_typed-Post zero none depth chain v c tt
  convert_value-Post (suc n) depth chain v c =
      convert_typed-Post (suc n) (some (convert_value E bill n (suc depth))) depth chain v c
        (n, refl, λ chain v c. convert_value-Post n (suc depth) chain v c)

  -- claim
  pub to_zval-Mirrors :
      (v : LuaValue) (w : W) (z : Zval)
      → (to_zval E bill v w).0 ≡ ok z
      → Mirrors E z v × IsDistinct z × (levels z ≤ depth_limit E.max_conversion_depth)
  unfolding to_zval
  to_zval-Mirrors v w z e =
      let limit = depth_limit E.max_conversion_depth in
      let start : Ctx W = record { world = w; produced = 0; elements = 0 } in
      ok-Post (Reads E bill limit v) (convert_value E bill limit 0 (step_root ∷ []) v start) z
        (convert_value-Post limit 0 (step_root ∷ []) v start) e
