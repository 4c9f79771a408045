-- ===== src/Alloc/Ledger.antt =====
-- Over any sequence of requests the counters of src/luaext_alloc.c are the true sums, and a fixed
-- limit bounds them.
use lua_ext.Base.{
  All, ℕ, ◌+◌, ◌≤◌, ◌≡◌, refl, Bool, true, false, Option, none, some, List, [], ◌∷◌, get_elem?, set,
  arith,
}
use lua_ext.Alloc.External.{Host}
use lua_ext.Alloc.{Memory}
use lua_ext.Alloc.Counters.{IsSound}
use lua_ext.Alloc.Blocks.{Booked, size_after, lua_alloc-Booked}
use lua_ext.Alloc.Charges.{ChargeOutcome, charge_lem, discharge_lem, set_limit-IsSound}
use lua_ext.Alloc.Session.{
  Block, total, remove_at, Request, fresh, resize, charge_host, discharge_host, limit_to, Session,
  serve, run, IsWord, add_block, update_block, resize_block, hold,
}

-- `usage` is the size of the blocks that Lua holds, `charged` what the host side holds.
pub record IsBalanced {H : Host} (s : Session H) : Type 0 where
  pub sound : IsSound s.memory.alloc
  pub usage : s.memory.alloc.usage ≡ total s.blocks
  pub charged : s.memory.alloc.charged ≡ s.held

total-set :
    (bs : List Block) (i p old q size : ℕ)
    → get_elem? bs i ≡ some (p, old)
    → total (set bs i (q, size)) + old ≡ total bs + size
total-set [] i p old q size e = cc
total-set (b ∷ bs) ℕ.zero p old q size e = ground arith
total-set (b ∷ bs) (ℕ.suc i) p old q size e = omega (arith, total-set bs i p old q size e)

total-remove_at :
    (bs : List Block) (i p old : ℕ)
    → get_elem? bs i ≡ some (p, old)
    → total (remove_at bs i) + old ≡ total bs
total-remove_at [] i p old e = cc
total-remove_at (b ∷ bs) ℕ.zero p old e = ground arith
total-remove_at (b ∷ bs) (ℕ.suc i) p old e = omega (arith, total-remove_at bs i p old e)

pub old-le-total : (bs : List Block) (i p old : ℕ) → get_elem? bs i ≡ some (p, old) → old ≤ total bs
old-le-total bs i p old e = omega (arith, total-remove_at bs i p old e)

module _ {H : Host} where
  add_block-IsBalanced :
      (size : ℕ) (r : Option ℕ × Memory H) (s : Session H)
      → IsBalanced s
      → Booked 0 (size_after 0 size r.0) s.memory.alloc r.1.alloc
      → IsBalanced (add_block H size r s)
  add_block-IsBalanced size (none, m) s b k = ground arith
  add_block-IsBalanced size (some p, m) s b k = ground arith

  update_block-IsBalanced :
      (i size p old : ℕ) (r : Option ℕ × Memory H) (s : Session H)
      → get_elem? s.blocks i ≡ some (p, old)
      → IsBalanced s
      → Booked old (size_after old size r.0) s.memory.alloc r.1.alloc
      → IsBalanced (update_block H i size r s)
  update_block-IsBalanced i size p old (none, m) s e b k =
      ground (arith, total-remove_at s.blocks i p old e)
  update_block-IsBalanced i size p old (some q, m) s e b k =
      ground (arith, total-set s.blocks i p old q size e)

  resize_block-IsBalanced :
      (i size : ℕ) (o : Option Block) (s : Session H)
      → get_elem? s.blocks i ≡ o
      → IsBalanced s
      → IsBalanced (resize_block H i size o s)
  resize_block-IsBalanced i size none s e b = b
  resize_block-IsBalanced i size (some (p, old)) s e b =
      update_block-IsBalanced i size p old _ s e b (
        lua_alloc-Booked H (some p) old size s.memory b.sound
          (omega (arith, b.usage, old-le-total s.blocks i p old e)))

  hold-IsBalanced :
      (n : ℕ) (r : Bool × Memory H) (s : Session H)
      → IsBalanced s
      → ChargeOutcome H n s.memory r
      → IsBalanced (hold H n r s)
  hold-IsBalanced n (true, m) s b o = ground arith
  hold-IsBalanced n (false, m) s b (e, o) = rw e b

  pub serve-IsBalanced :
      (r : Request) (s : Session H) → IsWord r → IsBalanced s → IsBalanced (serve H r s)
  unfolding serve
  serve-IsBalanced (fresh tag size) s w b =
      add_block-IsBalanced size _ s b
        (lua_alloc-Booked H none tag size s.memory b.sound (omega arith))
  serve-IsBalanced (resize i size) s w b = resize_block-IsBalanced i size _ s refl b
  serve-IsBalanced (charge_host n) s w b = hold-IsBalanced n _ s b (charge_lem H n s.memory b.sound)
  serve-IsBalanced (discharge_host n) s w b = omega (arith, b, discharge_lem H n s.memory b.sound)
  serve-IsBalanced (limit_to n) s w b = omega (arith, b, set_limit-IsSound H n s.memory w b.sound)

  -- For any list of requests whose limits are size_t values, in any order and whatever the
  -- allocators answer: usage stays the sum of the blocks that Lua holds, charged the sum that the
  -- host side holds, and no sum wraps.
  pub run-IsBalanced :
      (rs : List Request) (s : Session H) → All IsWord rs → IsBalanced s → IsBalanced (run H rs s)
  unfolding run
  run-IsBalanced [] s w b = b
  run-IsBalanced (r ∷ rs) s w b = run-IsBalanced rs (serve H r s) w.1 (serve-IsBalanced r s w.0 b)
