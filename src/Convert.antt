-- ===== src/Convert.antt =====
-- Values between PHP and Lua: src/luaext_convert.c. Lua's tables stand in a heap, by identity, each
-- with its entries in the order in which `lua_next` visits them.
pub mod ToPhp
pub mod ToLua
pub mod Mirror
pub mod Fresh
pub mod Walk
pub mod Sound
pub mod Finite
pub mod Plain
pub mod Answers
pub mod Complete
pub mod Billing
pub mod Refs
pub mod Pushes
pub mod Back
pub mod Rows
pub mod Roundtrip
mod Tests
use Prim.Native.Nat.{bit_and}
use lua_ext.Base.{
  ℕ, zero, suc, ◌+◌, ◌-◌, ◌%◌, ◌^◌, Bool, true, false, not, ◌&&◌, Option, none, some, List, [], ◌∷◌,
  ltb, ◌==◌, if◌then◌else◌, length, add_size, ℤ, pos, negsuc,
}
use lua_ext.Base.Bytes.{same_bytes}
use lua_ext.Base.Budget.{Budget}

-- A value on Lua's stack, by `lua_type`: a float by its bits, a string by its bytes, and what lives
-- in Lua's heap by identity.
pub data LuaValue : Type 0 where
  nil absent : LuaValue
  boolean : Bool → LuaValue
  integer float : ℤ → LuaValue
  string : List ℕ → LuaValue
  table function thread userdata light_userdata : ℕ → LuaValue

-- A key of a PHP array as PHP stores it.
pub data PhpKey : Type 0 where
  index : ℤ → PhpKey
  name : List ℕ → PhpKey

-- A PHP value that a conversion makes. `handle` is a LuaFunction, by its slot, and `object` the
-- instance behind a proxy.
mutual
  pub data Zval : Type 0 where
    null : Zval
    flag : Bool → Zval
    long double : ℤ → Zval
    text : List ℕ → Zval
    array : Elements → Zval
    handle object : ℕ → Zval

  -- The elements of an array, in order.
  pub data Elements : Type 0 where
    end : Elements
    element : PhpKey → Zval → Elements → Elements

abbrev pub same_integer : ℤ → ℤ → Bool
same_integer (pos a) (pos b) = a == b
same_integer (pos a) (negsuc b) = false
same_integer (negsuc a) (pos b) = false
same_integer (negsuc a) (negsuc b) = a == b

abbrev pub same_key : PhpKey → PhpKey → Bool
same_key (index a) (index b) = same_integer a b
same_key (index a) (name b) = false
same_key (name a) (index b) = false
same_key (name a) (name b) = same_bytes a b

-- `zend_hash_index_exists`, `zend_hash_str_exists`
unfoldable pub exists : PhpKey → Elements → Bool
exists k end = false
exists k (element j z es) = let rest = exists k es in if same_key k j then true else rest

-- `zend_hash_index_update`, `zend_hash_str_update`
unfoldable pub update : PhpKey → Zval → Elements → Elements
update k z end = element k z end
update k z (element j y es) =
    let rest = update k z es in if same_key k j then element j z es else element j y rest

-- The key's fields of `luaext_convert_step`.
pub record KeyStep : Type 0 where
  pub is_string : Bool
  pub stores_as_index : Bool
  pub key_index : ℤ
  pub key_str : List ℕ

-- `luaext_convert_step`. The chain of a step and its parents is a list, the innermost first.
pub record Step : Type 0 where
  pub key : Option KeyStep
  pub container : Option ℕ

abbrev pub Chain : Type 0
Chain = List Step

-- `luaext_convert_step_root`
abbrev pub step_root : Step
step_root = record { key = none; container = none }

-- The refusals of `luaext_convert_to_fail`, that of the memory limit, and those of
-- `luaext_convert_push_fail`.
pub data Detail : Type 0 where
  too_deep : ℕ → Detail
  circular stack_full interrupted : Detail
  float_key : ℤ → Detail
  bad_key : LuaValue → Detail
  colliding_key : KeyStep → Detail
  no_reference is_thread is_userdata is_absent : Detail
  memory_spent : ℕ → Detail
  string_too_long unregistered foreign_function dead_function released_function bad_type : Detail

pub record Failure : Type 0 where
  pub detail : Detail
  pub at_step : Chain

pub data Result (A : Type 0) : Type 0 where
  ok : A → Result A
  failed : Failure → Result A

-- What does not change during a conversion. `numeric` is ZEND_HANDLE_NUMERIC_STR, `proxied`
-- luaext_proxy_test, `stack_grows` what lua_checkstack answers at a depth, `pending` whether an
-- interrupt is pending at an element, and `entries` Lua's heap. `make_ref` is
-- luaext_convert_ref_create, and `destroy` zval_ptr_dtor, on the world that they change.
pub record Env (W : Type 0) : Type 0 where
  pub entries : ℕ → List (LuaValue × LuaValue)
  pub numeric : List ℕ → Option ℤ
  pub proxied : ℕ → Option ℕ
  pub stack_grows : ℕ → Bool
  pub pending : ℕ → Bool
  pub max_conversion_depth : ℕ
  pub bucket_bytes : ℕ
  pub string_bytes : ℕ
  pub budget : Budget W
  pub make_ref : ℕ → W → Option ℕ × W
  pub destroy : Zval → W → W

-- The fields of `luaext_convert_to_ctx` that change, and the world.
pub record Ctx (W : Type 0) : Type 0 where
  pub world : W
  pub produced : ℕ
  pub elements : ℕ

abbrev pub Action : Type 0 → Type 0 → Type 0
Action W A = Ctx W → Result A × Ctx W

module _ {W A B : Type 0} where
  -- What follows a step that is done.
  abbrev pub follow : (A → Action W B) → Result A × Ctx W → Result B × Ctx W
  follow f (ok a, c) = f a c
  follow f (failed e, c) = (failed e, c)

  infixl 1 ◌>>=◌
  unfoldable pub ◌>>=◌ : Action W A → (A → Action W B) → Action W B
  (m >>= f) c = follow f (m c)

module _ {W A : Type 0} where
  abbrev pub pure : A → Action W A
  pure a c = (ok a, c)

  -- `luaext_convert_to_fail`
  abbrev pub to_fail : Detail → Chain → Action W A
  to_fail d chain c = (failed (record { detail = d; at_step = chain }), c)

-- LUAEXT_CONVERT_DEFAULT_DEPTH and LUAEXT_CONVERT_DEPTH_CEILING
abbrev pub default_depth : ℕ
default_depth = 64

abbrev pub depth_ceiling : ℕ
depth_ceiling = 512

-- `luaext_convert_depth_limit`
unfoldable pub depth_limit : ℕ → ℕ
depth_limit configured =
    let depth = if configured == 0 then default_depth else configured in
    if ltb depth depth_ceiling then depth else depth_ceiling
