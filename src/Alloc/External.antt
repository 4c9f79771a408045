-- ===== src/Alloc/External.antt =====
-- What src/luaext_alloc.c calls and does not implement: the C and Zend allocators, PHP's memory
-- limit, and the tuning of Lua's collector. All of it is a parameter of the model.
use lua_ext.Base.{ℕ, Option, ℤ}

-- The parameters of `lua_gc(L, LUA_GCPARAM, …)` that the code sets.
pub data GcParam : Type 0 where
  pause step_mul minor_mul minor_major : GcParam

-- A pointer is a number, and `none` is NULL. `World` is everything outside of the accounting: the
-- heap, PHP's memory manager and the Lua state.
pub record Host : Type 1 where
  pub World : Type 0
  pub realloc : Option ℕ → ℕ → World → Option ℕ × World
  pub erealloc : Option ℕ → ℕ → World → Option ℕ × World
  pub free : Option ℕ → World → World
  pub efree : Option ℕ → World → World
  -- `PG(memory_limit)`, a signed number, and `zend_memory_usage(true)`
  pub memory_limit : World → ℤ
  pub memory_usage : World → ℕ
  -- the number that `lua_gc` returns, negative for a refusal
  pub gc_param : GcParam → ℕ → World → ℤ × World
