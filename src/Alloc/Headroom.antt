-- ===== src/Alloc/Headroom.antt =====
-- Under luaext.use_zend_mm: no call reaches ZendMM that could take it past PHP's memory_limit.
use lua_ext.Base.{
  ℕ, suc, ◌+◌, ◌≤◌, ◌<◌, ◌≡◌, ◌≢◌, ◌↔◌, true, Option, none, arith, ltb, ◌==◌, if◌then◌else◌, pos,
  inl, inr, Bool-cases,
}
use lua_ext.Alloc.External.{Host}
use lua_ext.Alloc.{
  Memory, zend_mm_headroom, chunk_margin, lua_alloc, grow_block, shrink_block, old_size,
  zend_mm_refuses,
}

module _ (H : Host) where
  open H use {World, memory_limit, memory_usage}

  -- With a positive memory_limit there is headroom for a demand exactly if it fits in below the
  -- limit beside what is in use and the margin of one chunk.
  zend_mm_headroom_iff :
      (demand n : ℕ) (w : World)
      → memory_limit w ≡ pos (suc n)
      → (zend_mm_headroom H demand w ≡ true) ↔ (memory_usage w + demand + chunk_margin ≤ suc n)
  unfolding zend_mm_headroom
  zend_mm_headroom_iff demand n w e = rw (e, zend_mm_headroom) (ground arith)

  no_headroom-refuses :
      (nsize n : ℕ) (m : Memory H)
      → m.alloc.use_zend_mm ≡ true
      → memory_limit m.world ≡ pos (suc n)
      → suc n < memory_usage m.world + nsize + chunk_margin
      → zend_mm_refuses H nsize m ≡ true
  no_headroom-refuses nsize n m z l short = elim (Bool-cases (zend_mm_headroom H nsize m.world)) [
    | inl e ↦ absurd (omega (arith, (zend_mm_headroom_iff nsize n m.world l).0 e))
    | inr e ↦ rw (z, e)
  ]

  -- With ZendMM in use, a positive memory_limit and too little headroom below it, a call for a
  -- positive size does not reach the allocator: the world outside is as it was, a growth is
  -- answered with NULL and a shrink with the old block.
  pub lua_alloc_no_headroom :
      (ptr : Option ℕ) (osize nsize n : ℕ) (m : Memory H)
      → m.alloc.use_zend_mm ≡ true
      → memory_limit m.world ≡ pos (suc n)
      → suc n < memory_usage m.world + nsize + chunk_margin
      → nsize ≢ 0
      → let (block, m') = lua_alloc H ptr osize nsize m in
        (m'.world ≡ m.world) × (block ≡ (if ltb (old_size ptr osize) nsize then none else ptr))
  unfolding lua_alloc grow_block shrink_block
  lua_alloc_no_headroom ptr osize nsize n m z l short pn =
      let r = no_headroom-refuses nsize n m z l short in
      elim (Bool-cases (nsize == 0)) [
        | inl e ↦ absurd (pn (ground arith))
        | inr e ↦ elim (Bool-cases (ltb (old_size ptr osize) nsize)) [
          | inl g ↦ rw (e, g, r) (ground arith)
          | inr g ↦ rw (e, g, r) (ground arith)
        ]
      ]
