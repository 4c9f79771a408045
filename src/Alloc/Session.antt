-- ===== src/Alloc/Session.antt =====
-- A sandbox's memory over time: what Lua, the host-side subsystems and the host's own settings ask
-- of src/luaext_alloc.c, in any order, with the blocks that Lua then holds.
use lua_ext.Base.{
  ℕ, ◌+◌, ◌-◌, Bool, true, false, Option, none, some, List, [], ◌∷◌, ◌==◌, if◌then◌else◌, get_elem?,
  set, ◌≤◌, size_max,
}
use lua_ext.Alloc.External.{Host}
use lua_ext.Alloc.{Memory, lua_alloc, charge, discharge, set_limit}

-- The pointer and the size that Lua has of a block.
abbrev pub Block : Type 0
Block = ℕ × ℕ

abbrev pub total : List Block → ℕ
total [] = 0
total ((p, size) ∷ bs) = size + total bs

abbrev pub remove_at : List Block → ℕ → List Block
remove_at [] i = []
remove_at (b ∷ bs) ℕ.zero = bs
remove_at (b ∷ bs) (ℕ.suc i) = b ∷ remove_at bs i

-- One request. `fresh` passes a type tag for the old size, as `lua_Alloc` does for a NULL;
-- `resize` names a block that Lua holds, and a size of 0 frees it.
pub data Request : Type 0 where
  fresh : ℕ → ℕ → Request
  resize : ℕ → ℕ → Request
  charge_host : ℕ → Request
  discharge_host : ℕ → Request
  limit_to : ℕ → Request

-- `held` is what the host-side subsystems have been granted and not given back.
pub record Session (H : Host) : Type 0 where
  pub memory : Memory H
  pub blocks : List Block
  pub held : ℕ

module _ (H : Host) where
  abbrev pub add_block : ℕ → Option ℕ × Memory H → Session H → Session H
  add_block size (none, m) s = record s { memory = m }
  add_block size (some p, m) s = record s { memory = m; blocks = (p, size) ∷ s.blocks }

  abbrev pub update_block : ℕ → ℕ → Option ℕ × Memory H → Session H → Session H
  update_block i size (none, m) s = record s {
    memory = m;
    blocks = if size == 0 then remove_at s.blocks i else s.blocks;
  }
  update_block i size (some p, m) s = record s { memory = m; blocks = set s.blocks i (p, size) }

  abbrev pub resize_block : ℕ → ℕ → Option Block → Session H → Session H
  resize_block i size none s = s
  resize_block i size (some (p, old)) s =
      update_block i size (lua_alloc H (some p) old size s.memory) s

  abbrev pub hold : ℕ → Bool × Memory H → Session H → Session H
  hold n (true, m) s = record s { memory = m; held = s.held + n }
  hold n (false, m) s = record s { memory = m }

  unfoldable pub serve : Request → Session H → Session H
  serve (fresh tag size) s = add_block size (lua_alloc H none tag size s.memory) s
  serve (resize i size) s = resize_block i size (get_elem? s.blocks i) s
  serve (charge_host n) s = hold n (charge H n s.memory) s
  serve (discharge_host n) s = record s { memory = discharge H n s.memory; held = s.held - n }
  serve (limit_to n) s = record s { memory = set_limit H s.memory n }

  unfoldable pub run : List Request → Session H → Session H
  run [] s = s
  run (r ∷ rs) s = run rs (serve r s)

-- A limit is a `size_t`.
abbrev pub IsWord : Request → Type 0
IsWord (limit_to n) = n ≤ size_max
IsWord (fresh tag size) = Unit
IsWord (resize i size) = Unit
IsWord (charge_host n) = Unit
IsWord (discharge_host n) = Unit

-- The request leaves the limit alone.
abbrev pub KeepsLimit : Request → Type 0
KeepsLimit (limit_to n) = ⊥
KeepsLimit (fresh tag size) = Unit
KeepsLimit (resize i size) = Unit
KeepsLimit (charge_host n) = Unit
KeepsLimit (discharge_host n) = Unit
