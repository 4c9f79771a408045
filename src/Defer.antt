-- ===== src/Defer.antt =====
-- Deferred releases: src/luaext_defer.c, the queue of PHP references that Lua's collector may not
-- release itself. What a destructor does with the sandbox is a script of what it defers and of the
-- drains that it causes by calling back.
pub mod Measures
pub mod Drained
pub mod Ended
mod Tests
use lua_ext.Base.{
  ℕ, zero, suc, ◌*◌, ◌%◌, ◌^◌, Bool, true, false, Option, none, some, List, [], ◌∷◌, ◌++◌, ltb,
  ◌==◌, length, if◌then◌else◌,
}

-- `luaext_defer_kind`: a callable that was already moved away is not initialised.
pub data Kind : Type 0 where
  zval : Kind
  fcc : Bool → Kind

-- What a destructor does: defer a reference with a destructor of its own, and drain.
pub data Script : Type 0 where
  done : Script
  defers : Kind → ℕ → Script → Script → Script
  drains : Script → Script

-- `luaext_defer_item`: the reference is a number, with what its destructor does.
pub record Item : Type 0 where
  pub kind : Kind
  pub ref : ℕ
  pub destructor : Script

-- `luaext_deferred`, with the references released so far, the latest first. The list has the items
-- up to `count`.
pub record Deferred : Type 0 where
  pub items : List Item
  pub capacity : ℕ
  pub released : List ℕ

-- LUAEXT_DEFER_INITIAL
abbrev pub initial_capacity : ℕ
initial_capacity = 8

-- `luaext_defer_reserve`
unfoldable pub reserve : Deferred → ℕ
reserve s =
    if ltb (length s.items) s.capacity
    then s.capacity
    else if s.capacity == 0
    then initial_capacity
    else (s.capacity * 2) % 2 ^ 64

-- `luaext_defer_fcc` and `luaext_defer_zval`
unfoldable pub defer : Item → Deferred → Deferred
defer i s = record { items = s.items ++ i ∷ []; capacity = reserve s; released = s.released }

-- The queue's array taken from the sandbox, and what is left when the array is freed.
abbrev pub detached : Deferred → Deferred
detached s = record { items = []; capacity = 0; released = s.released }

abbrev pub has_reference : Kind → Bool
has_reference zval = true
has_reference (fcc b) = b

abbrev pub released_one : ℕ → Deferred → Deferred
released_one n s = record { items = s.items; capacity = s.capacity; released = n ∷ s.released }

abbrev pub Drain : Type 0
Drain = Deferred → Option Deferred

abbrev pub followed : Drain → Option Deferred → Option Deferred
followed next none = none
followed next (some s) = next s

-- A destructor at work, where its drains come back here.
unfoldable pub run_destructor : Drain → Script → Drain
run_destructor drain done s = some s
run_destructor drain (defers kind n d e) s =
    run_destructor drain e (defer (record { kind = kind; ref = n; destructor = d }) s)
run_destructor drain (drains e) s = followed (run_destructor drain e) (drain s)

-- `zend_fcc_dtor` and `zval_ptr_dtor`, under the test of the kind
unfoldable pub release : Drain → Item → Drain
release drain i s =
    if has_reference i.kind
    then run_destructor drain i.destructor (released_one i.ref s)
    else some s

unfoldable pub release_all : Drain → List Item → Drain
release_all drain [] s = some s
release_all drain (i ∷ is) s = followed (release_all drain is) (release drain i s)

abbrev pub unless_empty : List Item → Deferred → Option Deferred → Option Deferred
unless_empty [] s rest = some s
unless_empty (i ∷ is) s rest = rest

-- `luaext_defer_drain`, by how deep drains may stand in each other
unfoldable pub drain : ℕ → Drain
drain zero s = none
drain (suc depth) s = unless_empty s.items s (release_all (drain depth) s.items (detached s))

-- The bound of `pass`
abbrev pub max_passes : ℕ
max_passes = 8

-- The loop of `luaext_defer_shutdown`
unfoldable pub passes : ℕ → ℕ → Drain
passes depth zero s = some s
passes depth (suc more) s = unless_empty s.items s (followed (passes depth more) (drain depth s))

-- `luaext_defer_shutdown`: what is still queued is leaked.
unfoldable pub shutdown : ℕ → Drain
shutdown depth s = followed (λ t. some (detached t)) (passes depth max_passes s)
