-- ===== src/Alloc.antt =====
-- src/luaext_alloc.c: the memory accounting behind Limits::$memoryBytes. The model is of a host
-- with a `size_t` of 64 bits, and keeps its wrap-around.
pub mod External
pub mod Tuning
pub mod Counters
pub mod Blocks
pub mod Charges
pub mod Session
pub mod Ledger
pub mod Collector
pub mod Headroom
pub mod Ceiling
pub mod AsBudget
pub mod Example
mod Tests
use External.{Host, GcParam}
use Tuning.{GcTuning, gc_tiers, tier}
use lua_ext.Base.{
  ℕ, zero, suc, ◌-◌, ◌*◌, Bool, true, false, not, ◌&&◌, Option, none, some, ltb, leb, ◌==◌,
  if◌then◌else◌, size_max, add_size, sub_size, ℤ, pos, negsuc, is_negative,
}

-- `luaext_alloc`
pub record Alloc : Type 0 where
  pub limit : ℕ
  pub usage : ℕ
  pub charged : ℕ
  pub peak : ℕ
  pub gc_last_tune : ℕ
  pub use_zend_mm : Bool

-- `usage + charged`, as the code computes it.
abbrev pub live_bytes : Alloc → ℕ
live_bytes a = add_size a.usage a.charged

-- `luaext_alloc_fits`
unfoldable pub fits : ℕ → ℕ → ℕ → Bool
fits live limit growth =
    if limit == 0
    then leb growth (size_max - live)
    else (ltb live limit && leb growth (limit - live))

-- `chunk_margin`
abbrev pub chunk_margin : ℕ
chunk_margin = 2 * 1024 * 1024

abbrev raised_peak : Alloc → ℕ
raised_peak a = if ltb a.peak (live_bytes a) then live_bytes a else a.peak

-- `if (usage + charged > peak) peak = usage + charged;`
abbrev pub raise_peak : Alloc → Alloc
raise_peak a = record a { peak = raised_peak a }

-- The counters after a block has grown.
abbrev pub book_growth : ℕ → Alloc → Alloc
book_growth growth a = raise_peak (record a { usage = add_size a.usage growth })

-- The counters after a charge; `live` there is the sum taken before, plus `bytes`.
abbrev pub book_charge : ℕ → Alloc → Alloc
book_charge bytes a =
    let live = add_size (live_bytes a) bytes in
    record a { charged = add_size a.charged bytes; peak = if ltb a.peak live then live else a.peak }

-- The size that the old block had: `osize` is a type tag where `ptr` is NULL.
abbrev pub old_size : Option ℕ → ℕ → ℕ
old_size none osize = 0
old_size (some p) osize = osize

-- What of a `luaext_sandbox` this file reads or writes: whether `sandbox->L` is there, and the
-- counters; with them the world outside.
pub record Memory (H : Host) : Type 0 where
  pub has_state : Bool
  pub alloc : Alloc
  pub world : H.World

module _ (H : Host) where
  open H use {World, realloc, erealloc, free, efree, memory_limit, memory_usage, gc_param}

  -- The three calls of `lua_gc` that follow an accepted first one.
  abbrev pub set_rest : GcTuning → World → World
  set_rest t w =
      let w1 = (gc_param GcParam.step_mul t.step_mul w).1 in
      let w2 = (gc_param GcParam.minor_mul t.minor_mul w1).1 in
      (gc_param GcParam.minor_major t.minor_major w2).1

  -- The tail of `luaext_alloc_tune_gc`, once the tier has changed.
  unfoldable pub install_tier : ℕ → Memory H → Memory H
  install_tier t m =
      let (answer, w) = gc_param GcParam.pause (gc_tiers t).pause m.world in
      if is_negative answer then record m { world = w } else record m {
        alloc = record (m.alloc) { gc_last_tune = t };
        world = set_rest (gc_tiers t) w;
      }

  -- `luaext_alloc_tune_gc`
  unfoldable pub tune_gc : Memory H → Memory H
  tune_gc m =
      if not m.has_state
      then m
      else (let t = tier (live_bytes m.alloc) m.alloc.limit in
          if t == m.alloc.gc_last_tune then m else install_tier t m)

  headroom_below : ℕ → ℕ → ℕ → Bool
  headroom_below limit used demand =
      ltb used limit && ltb demand (limit - used) && leb chunk_margin (limit - used - demand)

  -- `luaext_alloc_zend_mm_headroom`
  unfoldable pub zend_mm_headroom : ℕ → World → Bool
  unfolding headroom_below
  zend_mm_headroom demand w = elim (memory_limit w) [
    | pos zero ↦ true
    | pos (suc n) ↦ headroom_below (suc n) (memory_usage w) demand
    | negsuc n ↦ true
  ]

  -- Whether ZendMM is in use and has no room for `nsize` bytes.
  abbrev pub zend_mm_refuses : ℕ → Memory H → Bool
  zend_mm_refuses nsize m = m.alloc.use_zend_mm && not (zend_mm_headroom nsize m.world)

  -- `alloc->use_zend_mm ? erealloc(ptr, nsize) : realloc(ptr, nsize)`
  abbrev pub resize : Bool → Option ℕ → ℕ → World → Option ℕ × World
  resize zend ptr nsize w = if zend then erealloc ptr nsize w else realloc ptr nsize w

  -- The `nsize == 0` branch of `luaext_lua_alloc`; `efree` is not handed NULL.
  unfoldable pub release_block : Option ℕ → ℕ → Memory H → Memory H
  release_block ptr old m = record m {
    alloc = record (m.alloc) { usage = sub_size m.alloc.usage old };
    world =
        if m.alloc.use_zend_mm
        then elim ptr [ none ↦ m.world | some p ↦ efree (some p) m.world ]
        else free ptr m.world;
  }

  -- What follows the call of the allocator: a failed one changes no counter.
  abbrev pub settle_growth : ℕ → Memory H → Option ℕ × World → Option ℕ × Memory H
  settle_growth growth m (none, w) = (none, record m { world = w })
  settle_growth growth m (some p, w) =
      (some p, tune_gc (record m { alloc = book_growth growth m.alloc; world = w }))

  -- The `nsize > old` branch.
  unfoldable pub grow_block : Option ℕ → ℕ → ℕ → Memory H → Option ℕ × Memory H
  grow_block ptr old nsize m =
      if not (fits (live_bytes m.alloc) m.alloc.limit (nsize - old))
      then (none, m)
      else if zend_mm_refuses nsize m
      then (none, m)
      else settle_growth (nsize - old) m (resize m.alloc.use_zend_mm ptr nsize m.world)

  -- The last branch: a shrink, or the same size. A refused one keeps the old block.
  unfoldable pub shrink_block : Option ℕ → ℕ → ℕ → Memory H → Option ℕ × Memory H
  shrink_block ptr old nsize m =
      let (block, w) =
        if zend_mm_refuses nsize m
        then (ptr, m.world)
        else resize m.alloc.use_zend_mm ptr nsize m.world in
      (
        elim block [ none ↦ ptr | some p ↦ some p ],
        record m {
          alloc = record (m.alloc) { usage = sub_size m.alloc.usage (old - nsize) };
          world = w;
        },
      )

  -- `luaext_lua_alloc`
  unfoldable pub lua_alloc : Option ℕ → ℕ → ℕ → Memory H → Option ℕ × Memory H
  lua_alloc ptr osize nsize m =
      let old = old_size ptr osize in
      if nsize == 0
      then (none, release_block ptr old m)
      else if ltb old nsize
      then grow_block ptr old nsize m
      else shrink_block ptr old nsize m

  -- `luaext_alloc_charge`
  unfoldable pub charge : ℕ → Memory H → Bool × Memory H
  charge bytes m =
      if bytes == 0
      then (true, m)
      else if not (fits (live_bytes m.alloc) m.alloc.limit bytes)
      then (false, m)
      else (true, tune_gc (record m { alloc = book_charge bytes m.alloc }))

  -- `luaext_alloc_discharge`
  unfoldable pub discharge : ℕ → Memory H → Memory H
  discharge bytes m =
      let returned = if ltb m.alloc.charged bytes then m.alloc.charged else bytes in
      tune_gc
        (record m { alloc = record (m.alloc) { charged = sub_size m.alloc.charged returned } })

  -- `luaext_alloc_usage`
  unfoldable pub usage : Memory H → ℕ
  usage m = live_bytes m.alloc

  -- `luaext_alloc_set_limit`
  unfoldable pub set_limit : Memory H → ℕ → Memory H
  set_limit m limit = tune_gc (record m { alloc = record (m.alloc) { limit = limit } })
