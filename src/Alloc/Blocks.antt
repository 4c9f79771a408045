-- ===== src/Alloc/Blocks.antt =====
-- `luaext_lua_alloc` as Lua sees it: which size a block has afterwards, and what is booked for it.
use lua_ext.Base.{
  ℕ, ◌+◌, ◌-◌, ◌≤◌, ◌<◌, ◌≡◌, ◌≢◌, ◌⊎◌, Option, none, some, arith, ltb, ◌==◌, if◌then◌else◌, inl,
  inr, Bool-cases, Option-cases, lt→ltb, ltb→lt,
}
use lua_ext.Alloc.External.{Host}
use lua_ext.Alloc.{Alloc, Memory, lua_alloc, shrink_block, release_block, old_size}
use lua_ext.Alloc.Counters.{IsSound, fits-HasRoom, Grown, grow_block-Grown}

-- The size of a block after a call of `lua_Alloc` that asked for `nsize` bytes: a NULL for a
-- positive size leaves the old block as it was.
abbrev pub size_after : ℕ → ℕ → Option ℕ → ℕ
size_after old nsize none = if nsize == 0 then 0 else old
size_after old nsize (some p) = nsize

-- The accounting has moved from `a` to `a'` by exactly the change of a block's size, and no limit
-- that held is broken.
pub record Booked (old new : ℕ) (a a' : Alloc) : Type 0 where
  pub sound : IsSound a'
  pub usage : a'.usage + old ≡ a.usage + new
  pub charged : a'.charged ≡ a.charged
  pub limit : a'.limit ≡ a.limit
  pub peak : (a'.peak ≡ a.peak) ⊎ ((a'.peak ≡ a'.usage + a'.charged) × (a.peak < a'.peak))
  pub ceiling : a.limit ≢ 0 → old < new → a'.usage + a'.charged ≤ a.limit

module _ (H : Host) where
  abbrev Result : Type 0
  Result = Option ℕ × Memory H

  abbrev Books : ℕ → ℕ → Memory H → Result → Type 0
  Books old nsize m r = Booked old (size_after old nsize r.0) m.alloc r.1.alloc

  release_block-Booked :
      (ptr : Option ℕ) (old : ℕ) (m : Memory H)
      → IsSound m.alloc
      → old ≤ m.alloc.usage
      → Booked old 0 m.alloc (release_block H ptr old m).alloc
  unfolding release_block
  release_block-Booked ptr old m h o = ground arith

  Grown-Books :
      (old nsize : ℕ) (m : Memory H) (r : Result)
      → IsSound m.alloc
      → old < nsize
      → Grown H (nsize - old) m r
      → Books old nsize m r
  Grown-Books old nsize m (none, m') h o g = ground arith
  Grown-Books old nsize m (some p, m') h o (e, g) =
      ground (arith, fits-HasRoom m.alloc (nsize - old) h e)

  shrink_block-Booked :
      (ptr : Option ℕ) (old nsize : ℕ) (m : Memory H)
      → IsSound m.alloc
      → old ≤ m.alloc.usage
      → nsize ≤ old
      → Booked old nsize m.alloc (shrink_block H ptr old nsize m).1.alloc
  unfolding shrink_block
  shrink_block-Booked ptr old nsize m h o n = ground arith

  -- A shrink never answers NULL.
  shrink_block-some :
      (p old nsize : ℕ) (m : Memory H) → (shrink_block H (some p) old nsize m).0 ≢ none
  unfolding shrink_block
  shrink_block-some p old nsize m = ground arith

  shrink_size_after :
      (p old nsize : ℕ) (m : Memory H)
      → size_after old nsize (shrink_block H (some p) old nsize m).0 ≡ nsize
  shrink_size_after p old nsize m = elim (Option-cases (shrink_block H (some p) old nsize m).0) [
    | inl e ↦ absurd (shrink_block-some p old nsize m e)
    | inr (q, e) ↦ rw e
  ]

  -- For sound counters and a block whose size Lua names truly and that is counted,
  -- luaext_lua_alloc books exactly the change of that block's size, on every branch; charged and
  -- limit keep their values, the peak stays or rises to what is live, no sum wraps, and a call
  -- that grew the block under a limit leaves what is live within it.
  pub lua_alloc-Booked :
      (ptr : Option ℕ) (osize nsize : ℕ) (m : Memory H)
      → IsSound m.alloc
      → old_size ptr osize ≤ m.alloc.usage
      → let old = old_size ptr osize in
        let (block, m') = lua_alloc H ptr osize nsize m in
        Booked old (size_after old nsize block) m.alloc m'.alloc
  unfolding lua_alloc
  lua_alloc-Booked none osize nsize m h o = elim (Bool-cases (nsize == 0)) [
    | inl z ↦ simp z (release_block-Booked none 0 m h o)
    | inr z ↦
        rw (z, lt→ltb 0 nsize (ground arith))
          (Grown-Books 0 nsize m _ h (ground arith) (grow_block-Grown H none 0 nsize m))
  ]
  lua_alloc-Booked (some p) osize nsize m h o = elim (Bool-cases (nsize == 0)) [
    | inl z ↦ simp z (release_block-Booked (some p) osize m h o)
    | inr z ↦ elim (Bool-cases (ltb osize nsize)) [
      | inl l ↦
          rw (z, l)
            (Grown-Books osize nsize m _ h (ltb→lt osize nsize l)
              (grow_block-Grown H (some p) osize nsize m))
      | inr l ↦
          rw (z, l)
            (rw (shrink_size_after p osize nsize m)
              (shrink_block-Booked (some p) osize nsize m h o (ground arith)))
    ]
  ]
