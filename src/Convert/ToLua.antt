-- ===== src/Convert/ToLua.antt =====
-- From PHP to Lua: the first part of src/luaext_convert.c.
use lua_ext.Base.{
  ℕ, zero, suc, Bool, true, false, not, ◌&&◌, Option, none, some, List, [], ◌∷◌, ltb, ◌==◌, length,
  if◌then◌else◌, ℤ, pos,
}
use lua_ext.Convert.{
  LuaValue, nil, boolean, integer, float, string, function, userdata, PhpKey, index, name, KeyStep,
  Chain, step_root, Detail, too_deep, circular, stack_full, string_too_long, unregistered,
  foreign_function, dead_function, released_function, bad_type, Result, ok, failed, depth_limit,
}
use lua_ext.Convert.ToPhp.{entered, parents_of, is_ancestor}

-- A PHP value as a zval holds it: an array, an object, a LuaFunction and a reference by identity.
pub data PhpValue : Type 0 where
  php_null php_other : PhpValue
  php_flag : Bool → PhpValue
  php_long php_double : ℤ → PhpValue
  php_text : List ℕ → PhpValue
  php_array php_object php_function reference : ℕ → PhpValue

-- A value as it is pushed: a table is made of the stores into it, in order.
mutual
  pub data Pushed : Type 0 where
    scalar : LuaValue → Pushed
    fresh : Stores → Pushed

  pub data Stores : Type 0 where
    stored_all : Stores
    store : LuaValue → Pushed → Stores → Stores

-- What a push reads: PHP's arrays in order, what a reference points at, the limits, what
-- lua_checkstack answers at a depth, luaext_proxy_try_push, the sandbox and the slot of a
-- LuaFunction, and luaext_convert_ref_push.
pub record Source : Type 0 where
  pub arrays : ℕ → List (PhpKey × PhpValue)
  pub referent : ℕ → PhpValue
  pub max_string_length : ℕ
  pub max_conversion_depth : ℕ
  pub stack_grows : ℕ → Bool
  pub proxy_for : ℕ → Option ℕ
  pub is_own : ℕ → Bool
  pub ref_of : ℕ → ℕ
  pub slot : ℕ → LuaValue

abbrev pub push_fail : {A : Type 0} → Detail → Chain → Result A
push_fail d chain = failed (record { detail = d; at_step = chain })

-- The key as it is pushed.
abbrev pub lua_key : PhpKey → LuaValue
lua_key (index z) = integer z
lua_key (name s) = string s

abbrev pub pushed_step : PhpKey → KeyStep
pushed_step (index z) = record {
  is_string = false;
  stores_as_index = true;
  key_index = z;
  key_str = [];
}
pushed_step (name s) = record {
  is_string = true;
  stores_as_index = false;
  key_index = pos 0;
  key_str = s;
}

abbrev pub is_function : LuaValue → Bool
is_function (function f) = true
is_function v = false

-- An element is pushed and stored before the next.
abbrev pub then_store : LuaValue → Result Pushed → Result Stores → Result Stores
then_store k (failed e) rest = failed e
then_store k (ok b) (failed e) = failed e
then_store k (ok b) (ok rest) = ok (store k b rest)

abbrev pub as_table : Result Stores → Result Pushed
as_table (failed e) = failed e
as_table (ok fs) = ok (fresh fs)

module _ (S : Source) where
  -- ZVAL_DEREF
  abbrev pub deref : PhpValue → PhpValue
  deref (reference r) = S.referent r
  deref php_null = php_null
  deref php_other = php_other
  deref (php_flag b) = php_flag b
  deref (php_long z) = php_long z
  deref (php_double d) = php_double d
  deref (php_text s) = php_text s
  deref (php_array a) = php_array a
  deref (php_object o) = php_object o
  deref (php_function f) = php_function f

  abbrev pub pushed_child : PhpKey → Chain → Chain
  pushed_child k chain = record { key = some (pushed_step k); container = none } ∷ chain

  -- The loop of `luaext_convert_push_array`
  unfoldable pub push_elements :
      (Chain → PhpValue → Result Pushed) → Chain → List (PhpKey × PhpValue) → Result Stores
  push_elements push chain [] = ok stored_all
  push_elements push chain ((k, v) ∷ l) =
      then_store (lua_key k) (push (pushed_child k chain) v) (push_elements push chain l)

  -- `luaext_convert_push_array`; `none` is a depth that has reached the limit.
  unfoldable pub push_array :
      Option (Chain → PhpValue → Result Pushed) → ℕ → Chain → ℕ → Result Pushed
  push_array none depth chain a = push_fail (too_deep (depth_limit S.max_conversion_depth)) chain
  push_array (some push) depth chain a =
      if is_ancestor a (parents_of chain)
      then push_fail circular chain
      else if S.stack_grows depth
      then as_table (push_elements push (entered a chain) (S.arrays a))
      else push_fail stack_full (entered a chain)

  abbrev pub pushed_proxy : Option ℕ → Chain → Result Pushed
  pushed_proxy (some u) chain = ok (scalar (userdata u))
  pushed_proxy none chain = push_fail unregistered chain

  -- `luaext_convert_push_object`
  unfoldable pub push_object : ℕ → Chain → ℕ → Result Pushed
  push_object depth chain o =
      if S.stack_grows depth then pushed_proxy (S.proxy_for o) chain else push_fail stack_full chain

  unfoldable pub push_function : ℕ → Chain → ℕ → Result Pushed
  push_function depth chain f =
      if not (S.is_own f)
      then push_fail foreign_function chain
      else if ltb (S.ref_of f) 1
      then push_fail dead_function chain
      else if not (S.stack_grows depth)
      then push_fail stack_full chain
      else if is_function (S.slot (S.ref_of f))
      then ok (scalar (S.slot (S.ref_of f)))
      else push_fail released_function chain

  unfoldable pub push_text : Chain → List ℕ → Result Pushed
  push_text chain s =
      if not (S.max_string_length == 0) && ltb S.max_string_length (length s)
      then push_fail string_too_long chain
      else ok (scalar (string s))

  -- The cases of `luaext_convert_push_value`, after ZVAL_DEREF
  unfoldable pub push_typed :
      Option (Chain → PhpValue → Result Pushed) → ℕ → Chain → PhpValue → Result Pushed
  push_typed push depth chain php_null = ok (scalar nil)
  push_typed push depth chain php_other = push_fail bad_type chain
  push_typed push depth chain (php_flag b) = ok (scalar (boolean b))
  push_typed push depth chain (php_long z) = ok (scalar (integer z))
  push_typed push depth chain (php_double d) = ok (scalar (float d))
  push_typed push depth chain (php_text s) = push_text chain s
  push_typed push depth chain (php_array a) = push_array push depth chain a
  push_typed push depth chain (php_object o) = push_object depth chain o
  push_typed push depth chain (php_function f) = push_function depth chain f
  push_typed push depth chain (reference r) = push_fail bad_type chain

  -- `luaext_convert_push_value`, by the levels that are left below the limit
  unfoldable pub push_value : ℕ → ℕ → Chain → PhpValue → Result Pushed
  push_value zero depth chain v = push_typed none depth chain (deref v)
  push_value (suc left) depth chain v =
      push_typed (some (push_value left (suc depth))) depth chain (deref v)

  -- `luaext_convert_push_zval`
  unfoldable pub push_zval : PhpValue → Result Pushed
  push_zval v = push_value (depth_limit S.max_conversion_depth) 0 (step_root ∷ []) v
