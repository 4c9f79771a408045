-- ===== src/Alloc/Tuning.antt =====
-- How hard Lua's collector works, by how near the sandbox is to its ceiling
-- (src/luaext_alloc.c, "Collector tuning").
use lua_ext.Base.{ℕ, zero, suc, ◌-◌, ◌/◌, leb, ◌==◌, if◌then◌else◌}

-- `luaext_gc_tuning`
pub record GcTuning : Type 0 where
  pub pause : ℕ
  pub step_mul : ℕ
  pub minor_mul : ℕ
  pub minor_major : ℕ

-- `luaext_gc_tiers`, indexed by tier; the code only indexes it by 0 to 3.
unfoldable pub gc_tiers : ℕ → GcTuning
gc_tiers zero = record { pause = 250; step_mul = 200; minor_mul = 20; minor_major = 70 }
gc_tiers (suc zero) = record { pause = 200; step_mul = 400; minor_mul = 15; minor_major = 50 }
gc_tiers (suc (suc zero)) = record { pause = 150; step_mul = 700; minor_mul = 10; minor_major = 35 }
gc_tiers (suc (suc (suc n))) = record {
  pause = 100;
  step_mul = 1000;
  minor_mul = 5;
  minor_major = 20;
}

-- `luaext_alloc_tier`. The shifts never exceed `limit`, so these subtractions do not wrap.
unfoldable pub tier : ℕ → ℕ → ℕ
tier live limit =
    if limit == 0
    then 0
    else if leb (limit - limit / 8) live
    then 3
    else if leb (limit - limit / 4) live
    then 2
    else if leb (limit / 2) live
    then 1
    else 0
