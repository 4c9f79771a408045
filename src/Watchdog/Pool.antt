-- ===== src/Watchdog/Pool.antt =====
-- The slot pool of src/luaext_watchdog.c. A slot is a number: those of a block follow one another,
-- and the blocks are numbered as they are chained.
pub mod Exclusive
mod Tests
use lua_ext.Base.Counts.{occurrences}
use lua_ext.Base.{
  ℕ, zero, suc, ◌+◌, ◌*◌, Bool, true, false, Option, none, some, List, [], ◌∷◌, ◌==◌, if◌then◌else◌,
}

-- `luaext_watch_pool`
pub record Pool : Type 0 where
  pub ready : Bool
  pub blocks : ℕ
  pub free : List ℕ

-- What malloc and the mutexes of a new block answer.
pub record Supply : Type 0 where
  pub block_made : Bool
  pub lock_made : ℕ → Bool

-- LUAEXT_WATCH_BLOCK_SLOTS
abbrev pub block_slots : ℕ
block_slots = 64

-- The loop over the slots of a new block: how many are left, the next one's index, the block's first
-- slot and the free list.
unfoldable pub fill_block : (ℕ → Bool) → ℕ → ℕ → ℕ → List ℕ → Option (List ℕ)
fill_block locks zero index base free = some free
fill_block locks (suc left) index base free =
    let rest = fill_block locks left (suc index) base ((base + index) ∷ free) in
    if locks index then rest else none

-- What the block leaves of the pool: itself and its slots, or no slot at all.
abbrev pub chained : Pool → Option (List ℕ) → Pool
chained p none = record { ready = p.ready; blocks = p.blocks; free = [] }
chained p (some free) = record { ready = p.ready; blocks = suc p.blocks; free = free }

abbrev pub grown : Supply → Pool → Pool
grown s p = chained p (
    if s.block_made then fill_block s.lock_made block_slots 0 (p.blocks * block_slots) [] else none)

-- A pool with a free list that is empty grows.
abbrev pub refilled : Supply → Pool → List ℕ → Pool
refilled s p [] = grown s p
refilled s p (x ∷ xs) = p

-- What a call answers, and the pool after it.
pub record Taken : Type 0 where
  pub slot : Option ℕ
  pub pool : Pool

abbrev pub take_free : Pool → List ℕ → Taken
take_free p [] = record { slot = none; pool = p }
take_free p (x ∷ xs) = record {
  slot = some x;
  pool = record { ready = p.ready; blocks = p.blocks; free = xs };
}

abbrev pub take_refilled : Pool → Taken
take_refilled p = take_free p p.free

-- `luaext_watch_pool_take`
unfoldable pub pool_take : Supply → Pool → Taken
pool_take s p =
    if p.ready then take_refilled (refilled s p p.free) else record { slot = none; pool = p }

-- `luaext_watch_pool_give`
unfoldable pub pool_give : ℕ → Pool → Pool
pool_give n p = record { ready = p.ready; blocks = p.blocks; free = n ∷ p.free }

-- The list without the first `n` in it.
abbrev pub struck : ℕ → List ℕ → List ℕ
struck n [] = []
struck n (x ∷ xs) = let rest = struck n xs in if x == n then xs else x ∷ rest

-- The pool, and the slots that sandboxes hold.
pub record Tenancy : Type 0 where
  pub pool : Pool
  pub held : List ℕ

-- A sandbox takes a slot, or gives back one.
pub data Turn : Type 0 where
  taking : Supply → Turn
  giving : ℕ → Turn

abbrev pub holding : Option ℕ → List ℕ → List ℕ
holding none held = held
holding (some x) held = x ∷ held

abbrev pub tenant : List ℕ → Taken → Tenancy
tenant held t = record { pool = t.pool; held = holding t.slot held }

-- A slot that no sandbox holds is not given back.
unfoldable pub turn : Turn → Tenancy → Tenancy
turn (taking s) t = tenant t.held (pool_take s t.pool)
turn (giving n) t =
    if occurrences n t.held == 0
    then t
    else record { pool = pool_give n t.pool; held = struck n t.held }

unfoldable pub turns : List Turn → Tenancy → Tenancy
turns [] t = t
turns (x ∷ xs) t = turns xs (turn x t)

-- The pool as `luaext_watchdog_startup` leaves it.
abbrev pub started : Bool → Tenancy
started ready = record { pool = record { ready = ready; blocks = 0; free = [] }; held = [] }
