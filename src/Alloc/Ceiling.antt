-- ===== src/Alloc/Ceiling.antt =====
-- A fixed limit of src/luaext_alloc.c bounds what Lua and the host side hold together, and the peak.
use lua_ext.Base.{
  All, ℕ, ◌+◌, ◌≤◌, ◌≡◌, ◌≢◌, refl, Bool, true, false, Option, none, some, List, [], ◌∷◌, get_elem?,
  arith,
}
use lua_ext.Alloc.External.{Host}
use lua_ext.Alloc.{Alloc, Memory}
use lua_ext.Alloc.Blocks.{Booked, size_after, lua_alloc-Booked}
use lua_ext.Alloc.Charges.{Charged, ChargeOutcome, charge_lem, discharge_lem}
use lua_ext.Alloc.Session.{
  Block, total, Request, fresh, resize, charge_host, discharge_host, limit_to, Session, serve, run,
  IsWord, KeepsLimit, add_block, update_block, resize_block, hold,
}
use lua_ext.Alloc.Ledger.{IsBalanced, serve-IsBalanced, old-le-total}

-- The limit is `limit`, and neither what is live nor the peak is above it.
pub record IsWithin (limit : ℕ) (a : Alloc) : Type 0 where
  pub set : a.limit ≡ limit
  pub live : a.usage + a.charged ≤ limit
  pub peak : a.peak ≤ limit

KeepsLimit-IsWord : (r : Request) → KeepsLimit r → IsWord r
KeepsLimit-IsWord (limit_to n) k = absurd k
KeepsLimit-IsWord (fresh tag size) k = tt
KeepsLimit-IsWord _ k = tt

module _ {limit : ℕ} (positive : limit ≢ 0) where
  Booked-IsWithin :
      (old new : ℕ) {a a' : Alloc} → Booked old new a a' → IsWithin limit a → IsWithin limit a'
  Booked-IsWithin old new k w = ground arith

  Charged-IsWithin : (n : ℕ) {a a' : Alloc} → Charged n a a' → IsWithin limit a → IsWithin limit a'
  Charged-IsWithin n k w = ground arith

module _ {H : Host} {limit : ℕ} (positive : limit ≢ 0) where
  update_block-IsWithin :
      (i size old : ℕ) (r : Option ℕ × Memory H) (s : Session H)
      → IsWithin limit s.memory.alloc
      → Booked old (size_after old size r.0) s.memory.alloc r.1.alloc
      → IsWithin limit (update_block H i size r s).memory.alloc
  update_block-IsWithin i size old (none, m) s w k = Booked-IsWithin positive _ _ k w
  update_block-IsWithin i size old (some p, m) s w k = Booked-IsWithin positive _ _ k w

  add_block-IsWithin :
      (size : ℕ) (r : Option ℕ × Memory H) (s : Session H)
      → IsWithin limit s.memory.alloc
      → Booked 0 (size_after 0 size r.0) s.memory.alloc r.1.alloc
      → IsWithin limit (add_block H size r s).memory.alloc
  add_block-IsWithin size (none, m) s w k = Booked-IsWithin positive _ _ k w
  add_block-IsWithin size (some p, m) s w k = Booked-IsWithin positive _ _ k w

  resize_block-IsWithin :
      (i size : ℕ) (o : Option Block) (s : Session H)
      → get_elem? s.blocks i ≡ o
      → IsBalanced s
      → IsWithin limit s.memory.alloc
      → IsWithin limit (resize_block H i size o s).memory.alloc
  resize_block-IsWithin i size none s e b w = w
  resize_block-IsWithin i size (some (p, old)) s e b w = update_block-IsWithin i size old _ s w (
      lua_alloc-Booked H (some p) old size s.memory b.sound
        (omega (arith, b.usage, old-le-total s.blocks i p old e)))

  hold-IsWithin :
      (n : ℕ) (r : Bool × Memory H) (s : Session H)
      → IsWithin limit s.memory.alloc
      → ChargeOutcome H n s.memory r
      → IsWithin limit (hold H n r s).memory.alloc
  hold-IsWithin n (true, m) s w o = Charged-IsWithin positive n o w
  hold-IsWithin n (false, m) s w (e, o) = rw e w

  serve-IsWithin :
      (r : Request) (s : Session H)
      → KeepsLimit r
      → IsBalanced s
      → IsWithin limit s.memory.alloc
      → IsWithin limit (serve H r s).memory.alloc
  unfolding serve
  serve-IsWithin (fresh tag size) s k b w =
      add_block-IsWithin size _ s w
        (lua_alloc-Booked H none tag size s.memory b.sound (omega arith))
  serve-IsWithin (resize i size) s k b w = resize_block-IsWithin i size _ s refl b w
  serve-IsWithin (charge_host n) s k b w = hold-IsWithin n _ s w (charge_lem H n s.memory b.sound)
  serve-IsWithin (discharge_host n) s k b w = ground (arith, discharge_lem H n s.memory b.sound)
  serve-IsWithin (limit_to n) s k b w = absurd k

  run-IsWithin :
      (rs : List Request) (s : Session H)
      → All KeepsLimit rs
      → IsBalanced s
      → IsWithin limit s.memory.alloc
      → IsBalanced (run H rs s) × IsWithin limit (run H rs s).memory.alloc
  unfolding run
  run-IsWithin [] s k b w = (b, w)
  run-IsWithin (r ∷ rs) s k b w =
      run-IsWithin rs (serve H r s) k.1 (serve-IsBalanced r s (KeepsLimit-IsWord r k.0) b)
        (serve-IsWithin r s k.0 b w)

  -- While a positive limit is set and not changed, starting from a balanced session within it: the
  -- blocks that Lua holds and the bytes that the host side holds are together never more than the
  -- limit, nor is the recorded peak, for any list of requests that leave the limit alone, in any
  -- order.
  pub run_ceiling :
      (rs : List Request) (s : Session H)
      → All KeepsLimit rs
      → IsBalanced s
      → IsWithin limit s.memory.alloc
      → let s' = run H rs s in (total s'.blocks + s'.held ≤ limit) × (s'.memory.alloc.peak ≤ limit)
  run_ceiling rs s k b w = let (b', w') = run-IsWithin rs s k b w in ground arith
