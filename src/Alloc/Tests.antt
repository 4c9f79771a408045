-- ===== src/Alloc/Tests.antt =====
-- src/luaext_alloc.c run on a small sandbox.
use lua_ext.Base.{
  ◌+◌, ◌≤◌, ◌≡◌, refl, true, false, none, some, List, [], ◌∷◌, ltb, if◌then◌else◌, arith,
}
use lua_ext.Alloc.External.{GcParam}
use lua_ext.Alloc.Tuning.{gc_tiers, tier}
use lua_ext.Alloc.{
  Memory, lua_alloc, charge, discharge, tune_gc, old_size, live_bytes, fits, grow_block,
  shrink_block, release_block, install_tier,
}
use lua_ext.Alloc.Blocks.{Booked, size_after, lua_alloc-Booked}
use lua_ext.Alloc.Charges.{discharge-charge}
use lua_ext.Alloc.Session.{
  Session, Request, fresh, resize, charge_host, discharge_host, run, total, serve,
}
use lua_ext.Alloc.Ledger.{IsBalanced, run-IsBalanced}
use lua_ext.Alloc.Ceiling.{run_ceiling}
use lua_ext.Alloc.Collector.{IsTuned, tune_gc-IsTuned}
use lua_ext.Alloc.Headroom.{lua_alloc_no_headroom}
use lua_ext.Alloc.Example.{byte_of, mantissa, example_host, example_gc, small, small-IsSound}

-- A block of 100 bytes that grows to 150.
grows : (lua_alloc example_host (some 5) 100 150 small).0 ≡ some 7
unfolding lua_alloc grow_block fits tune_gc
grows = refl

-- 600 more bytes would reach the limit, and 601 would pass it.
at_limit : (charge example_host 600 small).0 ≡ true
unfolding charge fits tune_gc
at_limit = refl

past_limit : charge example_host 601 small ≡ (false, small)
unfolding charge fits tune_gc
past_limit = refl

-- With 600 bytes more the collector is at its hardest.
tuned : (charge example_host 600 small).1.world.pause ≡ byte_of 100
unfolding charge fits tune_gc install_tier tier gc_tiers
tuned = refl

-- The host rounds a parameter: 70 and 71 are kept as the same byte.
rounded : (byte_of 70 ≡ 54) × (byte_of 71 ≡ 54)
unfolding mantissa
rounded = (refl, refl)

lua_alloc-Booked_example :
    Booked 100
      (size_after 100 150 (lua_alloc example_host (some 5) 100 150 small).0)
      small.alloc
      (lua_alloc example_host (some 5) 100 150 small).1.alloc
lua_alloc-Booked_example =
    lua_alloc-Booked example_host (some 5) 100 150 small small-IsSound (omega arith)

discharge-charge_example :
    let a' = (discharge example_host 600 (charge example_host 600 small).1).alloc in
    (a'.charged ≡ 100) × (a'.usage ≡ 300) × (a'.limit ≡ 1000)
discharge-charge_example = discharge-charge example_host 600 small small-IsSound at_limit

two_blocks : Session example_host
two_blocks = record { memory = small; blocks = (3, 100) ∷ (5, 200) ∷ []; held = 100 }

requests : List Request
requests = fresh 8 64 ∷ resize 1 0 ∷ charge_host 500 ∷ resize 0 400 ∷ discharge_host 100 ∷ []

two_blocks-IsBalanced : IsBalanced two_blocks
unfolding two_blocks
two_blocks-IsBalanced = record { sound = small-IsSound; usage = refl; charged = refl }

-- The block of 400 bytes is refused, so that the old one stays.
after_requests : total (run example_host requests two_blocks).blocks ≡ 264
unfolding two_blocks requests run serve lua_alloc grow_block shrink_block release_block charge
    discharge fits tune_gc install_tier tier
after_requests = refl

run-IsBalanced_example : IsBalanced (run example_host requests two_blocks)
unfolding requests
run-IsBalanced_example =
    run-IsBalanced requests two_blocks (tt, (tt, (tt, (tt, (tt, tt))))) two_blocks-IsBalanced

run_ceiling_example :
    let s' = run example_host requests two_blocks in
    (total s'.blocks + s'.held ≤ 1000) × (s'.memory.alloc.peak ≤ 1000)
unfolding requests two_blocks
run_ceiling_example =
    run_ceiling (omega arith) requests two_blocks (tt, (tt, (tt, (tt, (tt, tt)))))
      two_blocks-IsBalanced (record { set = refl; live = omega arith; peak = omega arith })

small-IsTuned : IsTuned example_gc small
unfolding gc_tiers
small-IsTuned GcParam.pause = refl
small-IsTuned GcParam.step_mul = refl
small-IsTuned GcParam.minor_mul = refl
small-IsTuned GcParam.minor_major = refl

tune_gc-IsTuned_example :
    IsTuned example_gc (tune_gc example_host small)
    × (true ≡ true
        → false ≡ false
        → (tune_gc example_host small).alloc.gc_last_tune ≡ tier (live_bytes small.alloc) 1000)
tune_gc-IsTuned_example = tune_gc-IsTuned example_gc small small-IsTuned

zend : Memory example_host
zend = record small { alloc = record (small.alloc) { use_zend_mm = true } }

lua_alloc_no_headroom_example :
    let (block, m') = lua_alloc example_host (some 5) 100 150000 zend in
    (m'.world ≡ zend.world)
    × (block ≡ (if ltb (old_size (some 5) 100) 150000 then none else some 5))
unfolding zend
lua_alloc_no_headroom_example =
    lua_alloc_no_headroom example_host (some 5) 100 150000 4194303 zend refl refl (omega arith)
      (omega arith)
