-- ===== src/Convert/ToPhp.antt =====
-- From Lua to PHP: the second part of src/luaext_convert.c.
use Prim.Native.Nat.{bit_and}
use lua_ext.Base.{
  ℕ, zero, suc, ◌+◌, ◌-◌, ◌%◌, ◌^◌, Bool, true, false, ◌&&◌, not, Option, none, some, List, [], ◌∷◌,
  ◌==◌, if◌then◌else◌, length, add_size, ℤ, pos,
}
use lua_ext.Convert.{
  LuaValue, nil, absent, boolean, integer, float, string, table, function, thread, userdata,
  light_userdata, PhpKey, index, name, Zval, null, flag, long, double, text, array, handle, object,
  Elements, end, exists, update, KeyStep, Chain, step_root, too_deep, circular, stack_full,
  interrupted, float_key, bad_key, colliding_key, no_reference, is_thread, is_userdata, is_absent,
  memory_spent, Result, ok, failed, Env, Ctx, Action, ◌>>=◌, pure, to_fail, depth_limit,
}

-- LUAEXT_CONVERT_IRQ_STRIDE
abbrev pub irq_stride : ℕ
irq_stride = 1024

-- The key under which PHP stores an element.
abbrev pub stored_key : KeyStep → PhpKey
stored_key k = if k.stores_as_index then index k.key_index else name k.key_str

abbrev pub integer_key : ℤ → KeyStep
integer_key z = record { is_string = false; stores_as_index = true; key_index = z; key_str = [] }

abbrev pub string_key : List ℕ → Option ℤ → KeyStep
string_key s none = record {
  is_string = true;
  stores_as_index = false;
  key_index = pos 0;
  key_str = s;
}
string_key s (some z) = record {
  is_string = true;
  stores_as_index = true;
  key_index = z;
  key_str = s;
}

-- The container of a step, from then on.
abbrev pub entered : ℕ → Chain → Chain
entered id [] = []
entered id (s ∷ parents) = record { key = s.key; container = some id } ∷ parents

abbrev pub parents_of : Chain → Chain
parents_of [] = []
parents_of (s ∷ parents) = parents

abbrev pub is_container : ℕ → Option ℕ → Bool
is_container id none = false
is_container id (some other) = other == id

-- The loop over the ancestors in `luaext_convert_table`.
unfoldable pub is_ancestor : ℕ → Chain → Bool
is_ancestor id [] = false
is_ancestor id (s ∷ parents) =
    let rest = is_ancestor id parents in if is_container id s.container then true else rest

module _ {W : Type 0} (E : Env W) (bill : Bool) where
  -- The charge that `luaext_convert_account` asks for, where it asks for one.
  abbrev pub try_charge : ℕ → W → Bool × W
  try_charge bytes w = if bill && not (bytes == 0) then E.budget.charge bytes w else (true, w)

  abbrev pub after_charge : ℕ → Chain → Ctx W → Bool × W → Result (Unit {0}) × Ctx W
  after_charge bytes chain c (true, w) =
      (ok tt, record { world = w; produced = add_size c.produced bytes; elements = c.elements })
  after_charge bytes chain c (false, w) = (
    failed (record { detail = memory_spent bytes; at_step = chain }),
    record { world = w; produced = c.produced; elements = c.elements },
  )

  -- `luaext_convert_account`
  unfoldable pub account : ℕ → Chain → Action W (Unit {0})
  account bytes chain c = after_charge bytes chain c (try_charge bytes c.world)

  abbrev pub after_ref : Chain → Ctx W → Option ℕ × W → Result Zval × Ctx W
  after_ref chain c (some ref, w) =
      (ok (handle ref), record { world = w; produced = c.produced; elements = c.elements })
  after_ref chain c (none, w) = (
    failed (record { detail = no_reference; at_step = chain }),
    record { world = w; produced = c.produced; elements = c.elements },
  )

  -- `luaext_convert_function`, for a sandbox that is there
  unfoldable pub convert_function : ℕ → Chain → Action W Zval
  convert_function f chain c = after_ref chain c (E.make_ref f c.world)

  -- `luaext_convert_key`
  unfoldable pub convert_key : LuaValue → Chain → Action W KeyStep
  convert_key (integer z) chain = pure (integer_key z)
  convert_key (float d) chain = to_fail (float_key d) chain
  convert_key (string s) chain = pure (string_key s (E.numeric s))
  convert_key v chain = to_fail (bad_key v) chain

  -- The interrupt check at an element.
  abbrev pub counted : Ctx W → Ctx W
  counted c = record {
    world = c.world;
    produced = c.produced;
    elements = (c.elements + 1) % 2 ^ 32;
  }

  unfoldable pub check_irq : Chain → Action W (Unit {0})
  check_irq chain c =
      if bit_and (counted c).elements (irq_stride - 1) == 0 && E.pending (counted c).elements
      then to_fail interrupted chain (counted c)
      else pure tt (counted c)

  unfoldable pub check_collision : KeyStep → Elements → Chain → Action W (Unit {0})
  check_collision k target chain =
      if exists (stored_key k) target then to_fail (colliding_key k) chain else pure tt

  -- What is billed for an element: a bucket, and a key that is a string.
  abbrev pub element_bytes : KeyStep → ℕ
  element_bytes k = add_size E.bucket_bytes (if k.stores_as_index then 0 else length k.key_str)

  abbrev pub dropped : Zval → Ctx W → Ctx W
  dropped z c = record { world = E.destroy z c.world; produced = c.produced; elements = c.elements }

  -- The value of an element is destroyed where its account is refused.
  abbrev pub kept_or_dropped :
      PhpKey → Zval → Result (Unit {0}) × Ctx W → Result (PhpKey × Zval) × Ctx W
  kept_or_dropped k z (ok u, c) = (ok (k, z), c)
  kept_or_dropped k z (failed e, c) = (failed e, dropped z c)

  unfoldable pub account_element : Chain → KeyStep → Zval → Action W (PhpKey × Zval)
  account_element chain k z c = kept_or_dropped (stored_key k) z (account (element_bytes k) chain c)

  abbrev pub child_of : KeyStep → Chain → Chain
  child_of k chain = record { key = some k; container = none } ∷ chain

  -- The body of the loop over a table, with the conversion of a value as an argument.
  abbrev pub convert_checked :
      (Chain → LuaValue → Action W Zval) → Chain → LuaValue → KeyStep → Action W (PhpKey × Zval)
  convert_checked convert chain v k = convert (child_of k chain) v >>= account_element chain k

  abbrev pub convert_keyed :
      (Chain → LuaValue → Action W Zval)
      → Chain
      → Elements
      → LuaValue
      → KeyStep
      → Action W (PhpKey × Zval)
  convert_keyed convert chain target v k =
      check_collision k target chain >>= λ u. convert_checked convert chain v k

  unfoldable pub convert_entry :
      (Chain → LuaValue → Action W Zval)
      → Chain
      → Elements
      → LuaValue
      → LuaValue
      → Action W (PhpKey × Zval)
  convert_entry convert chain target kv v =
      check_irq chain >>= λ u. convert_key kv chain >>= convert_keyed convert chain target v

  -- An element that is refused ends the loop, and the array so far is destroyed.
  abbrev pub store_entry :
      (Elements → Action W Zval) → Elements → Result (PhpKey × Zval) × Ctx W → Result Zval × Ctx W
  store_entry next target (ok (k, z), c) = next (update k z target) c
  store_entry next target (failed e, c) = (failed e, dropped (array target) c)

  -- The loop of `luaext_convert_table`
  unfoldable pub walk :
      (Chain → LuaValue → Action W Zval)
      → Chain
      → List (LuaValue × LuaValue)
      → Elements
      → Action W Zval
  walk convert chain [] target = pure (array target)
  walk convert chain ((kv, v) ∷ rest) target =
      λ c. store_entry (walk convert chain rest) target (convert_entry convert chain target kv v c)

  -- `luaext_convert_table`; `none` is a depth that has reached the limit.
  unfoldable pub convert_table :
      Option (Chain → LuaValue → Action W Zval) → ℕ → Chain → ℕ → Action W Zval
  convert_table none depth chain id = to_fail (too_deep (depth_limit E.max_conversion_depth)) chain
  convert_table (some convert) depth chain id =
      if is_ancestor id (parents_of chain)
      then to_fail circular chain
      else if E.stack_grows depth
      then walk convert (entered id chain) (E.entries id) end
      else to_fail stack_full (entered id chain)

  abbrev pub converted_userdata : Option ℕ → Chain → Action W Zval
  converted_userdata (some o) chain = pure (object o)
  converted_userdata none chain = to_fail is_userdata chain

  abbrev pub convert_text : List ℕ → Chain → Action W Zval
  convert_text s chain = account (add_size (length s) E.string_bytes) chain >>= λ u. pure (text s)

  -- The cases of `luaext_convert_value`
  unfoldable pub convert_typed :
      Option (Chain → LuaValue → Action W Zval) → ℕ → Chain → LuaValue → Action W Zval
  convert_typed convert depth chain nil = pure null
  convert_typed convert depth chain (boolean b) = pure (flag b)
  convert_typed convert depth chain (integer z) = pure (long z)
  convert_typed convert depth chain (float d) = pure (double d)
  convert_typed convert depth chain (string s) = convert_text s chain
  convert_typed convert depth chain (table id) = convert_table convert depth chain id
  convert_typed convert depth chain (function f) = convert_function f chain
  convert_typed convert depth chain (thread t) = to_fail is_thread chain
  convert_typed convert depth chain (userdata u) = converted_userdata (E.proxied u) chain
  convert_typed convert depth chain (light_userdata u) = to_fail is_userdata chain
  convert_typed convert depth chain absent = to_fail is_absent chain

  -- `luaext_convert_value`, by the levels that are left below the limit.
  unfoldable pub convert_value : ℕ → ℕ → Chain → LuaValue → Action W Zval
  convert_value zero depth chain v = convert_typed none depth chain v
  convert_value (suc left) depth chain v =
      convert_typed (some (convert_value left (suc depth))) depth chain v

  -- `luaext_convert_to_zval_inner`: what it answers and, in the context, what it has billed
  unfoldable pub to_zval : LuaValue → W → Result Zval × Ctx W
  to_zval v w =
      convert_value (depth_limit E.max_conversion_depth) 0 (step_root ∷ []) v
        (record { world = w; produced = 0; elements = 0 })
