-- ===== src/Watchdog/Control.antt =====
-- What the owner of a slot does with it, and what the watchdog's thread does with an entry that has
-- surfaced (src/luaext_watchdog.c). Each answers the entry that is put into the heap, if any.
use lua_ext.Base.{
  ℕ, ◌/◌, Bool, true, false, not, ◌&&◌, ◌||◌, Option, none, some, ltb, ◌==◌, if◌then◌else◌,
}
use lua_ext.Watchdog.{
  Slot, Entry, Mask, both, neither, without, join, Reading, evaluate, deadline, stamp, covered,
  open_segments, close_segments,
}

-- What the clocks answer in one of these functions, in the order in which it asks.
pub record Times : Type 0 where
  pub at_open : Reading
  pub at_evaluate : Reading
  pub at_deadline : Reading
  pub now : ℕ

-- `LUAEXT_WATCH_MIN_TICKS`
abbrev pub min_ticks : ℕ
min_ticks = 20

-- `luaext_watchdog_cpu_is_degraded`
unfoldable pub cpu_is_degraded : ℕ → ℕ → Bool
cpu_is_degraded limit resolution =
    if limit == 0
    then false
    else if resolution == 0
    then true
    else ltb (limit / resolution) min_ticks

abbrev pub stamped : Entry × Slot → Option Entry × Slot
stamped (entry, s) = (some entry, s)

abbrev pub queue : Bool → Slot → Option ℕ → Option Entry × Slot
queue skips_covered s none = (none, s)
queue skips_covered s (some d) =
    if skips_covered && covered s d then (none, s) else stamped (stamp s d)

abbrev pub unless_tripped : Bool → ℕ → Times → Bool × Slot → Option Entry × Slot
unless_tripped skips_covered floor t (true, s) = (none, s)
unless_tripped skips_covered floor t (false, s) =
    queue skips_covered s (deadline floor s t.at_deadline t.now)

-- `!luaext_watch_evaluate(slot) && luaext_watch_deadline(slot, &deadline) && …`, and the stamp.
unfoldable pub settle : Bool → ℕ → Times → Slot → Option Entry × Slot
settle skips_covered floor t s = unless_tripped skips_covered floor t (evaluate s t.at_evaluate)

-- `luaext_watchdog_republish`, where there is something to enforce.
abbrev pub republish : ℕ → Times → Slot → Option Entry × Slot
republish floor t s = if s.has_limits then settle true floor t s else (none, s)

-- What the setters store. Neither touches what is billed.
abbrev pub with_cpu_limit : ℕ → ℕ → Slot → Slot
with_cpu_limit ns resolution s = record s {
  cpu_limit = ns;
  cpu_wall_limit = if cpu_is_degraded ns resolution then ns else 0;
  has_limits = not (ns == 0) || not (s.wall_limit == 0);
}

abbrev pub with_wall_limit : ℕ → Slot → Slot
with_wall_limit ns s = record s {
  wall_limit = ns;
  has_limits = not (s.cpu_limit == 0) || not (ns == 0);
}

-- `luaext_watchdog_set_cpu_limit`, whose two locked sections are one step here; lua_ext.Watchdog.System
-- has them apart.
unfoldable pub set_cpu_limit : ℕ → ℕ → ℕ → Times → Slot → Option Entry × Slot
set_cpu_limit floor ns resolution t s = republish floor t (with_cpu_limit ns resolution s)

-- `luaext_watchdog_set_wall_limit`, likewise.
unfoldable pub set_wall_limit : ℕ → ℕ → Times → Slot → Option Entry × Slot
set_wall_limit floor ns t s = republish floor t (with_wall_limit ns s)

-- `luaext_watchdog_arm`
unfoldable pub arm : ℕ → Times → Slot → Option Entry × Slot
arm floor t s =
    if s.armed
    then (none, s)
    else republish floor t
        (open_segments both (record s { armed = true; opened = neither }) t.at_open)

-- `luaext_watchdog_disarm`
unfoldable pub disarm : Times → Slot → Slot
disarm t s = if not s.armed then s else record (close_segments both s t.at_open) {
  armed = false;
  paused = neither;
  cpu_open_failed = false;
}

-- `luaext_watchdog_pause`, for a mask that is not empty.
unfoldable pub pause : Mask → Times → Slot → Slot
pause mask t s = close_segments mask (record s { paused = join s.paused mask }) t.at_open

-- `luaext_watchdog_resume`, for a mask that is not empty. Whether the budget is spent, which it
-- answers too, is left out.
unfoldable pub resume : ℕ → Mask → Times → Slot → Option Entry × Slot
resume floor mask t s =
    let s1 = record s { paused = without s.paused mask } in
    if s1.armed then republish floor t (open_segments mask s1 t.at_open) else (none, s1)

-- `luaext_watch_service`
unfoldable pub service : ℕ → Entry → Times → Slot → Option Entry × Slot
service floor entry t s =
    if s.generation == entry.generation && s.epoch == entry.epoch
    then settle false floor t (record s { queued = false })
    else (none, s)
