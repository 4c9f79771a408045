-- ===== src/Watchdog.antt =====
-- src/luaext_watchdog.c: what a slot has spent, when it trips, and when it may next. The locks make
-- each of these functions one step; what the clocks answer in it is an argument.
pub mod Control
pub mod Heap
pub mod System
pub mod Pool
pub mod InTime
pub mod Steps
pub mod Spent
pub mod Paused
mod Tests
use lua_ext.Base.{
  ℕ, suc, ◌+◌, ◌-◌, ◌/◌, ◌%◌, Bool, true, false, not, ◌&&◌, ◌||◌, Option, none, some, ltb, leb,
  ◌==◌, if◌then◌else◌, size_max, add_size,
}

-- LUAEXT_WATCH_REASON_CPU and LUAEXT_WATCH_REASON_WALL
pub data Reason : Type 0 where
  cpu_spent wall_spent : Reason

-- The part of `luaext_irq` that is written here.
pub record Irq : Type 0 where
  pub reason : Option Reason
  pub interrupted : Bool

-- A set of LUAEXT_WATCH_CPU and LUAEXT_WATCH_WALL.
pub record Mask : Type 0 where
  pub cpu : Bool
  pub wall : Bool

abbrev pub both : Mask
both = record { cpu = true; wall = true }

abbrev pub neither : Mask
neither = record { cpu = false; wall = false }

-- `a & ~b`, `a & b` and `a | b`
abbrev pub without : Mask → Mask → Mask
without a b = record { cpu = a.cpu && not b.cpu; wall = a.wall && not b.wall }

abbrev pub meet : Mask → Mask → Mask
meet a b = record { cpu = a.cpu && b.cpu; wall = a.wall && b.wall }

abbrev pub join : Mask → Mask → Mask
join a b = record { cpu = a.cpu || b.cpu; wall = a.wall || b.wall }

-- `luaext_watch_slot`, without its lock, its clock's handle and `hook_ticks`.
pub record Slot : Type 0 where
  pub generation : ℕ
  pub irq : Option Irq
  pub clock_ok : Bool
  pub cpu_open_failed : Bool
  pub cpu_limit : ℕ
  pub wall_limit : ℕ
  pub cpu_wall_limit : ℕ
  pub cpu_used : ℕ
  pub wall_used : ℕ
  pub cpu_base : ℕ
  pub wall_base : ℕ
  pub armed : Bool
  pub opened : Mask
  pub epoch : ℕ
  pub queued_deadline : ℕ
  pub queued : Bool
  pub paused : Mask
  pub has_limits : Bool

-- `luaext_watch_entry`, without its pointer to the slot.
pub record Entry : Type 0 where
  pub generation : ℕ
  pub epoch : ℕ
  pub deadline : ℕ

-- What the clocks answer: `luaext_clock_read`, which may fail, and `luaext_clock_monotonic_ns`.
pub record Reading : Type 0 where
  pub cpu_now : Option ℕ
  pub wall_now : ℕ

pub record Sample : Type 0 where
  pub cpu : ℕ
  pub wall : ℕ
  pub cpu_lost : Bool

-- `used`, and what has passed since `base` if the segment is open.
abbrev pub with_elapsed : Bool → ℕ → ℕ → ℕ → ℕ
with_elapsed is_open used base now =
    if is_open && ltb base now then add_size used (now - base) else used

abbrev pub sample_cpu : Bool → ℕ → ℕ → Option ℕ → ℕ
sample_cpu measured used base none = used
sample_cpu measured used base (some now) = with_elapsed measured used base now

abbrev pub is_lost : Option ℕ → Bool
is_lost none = true
is_lost (some now) = false

-- `luaext_watch_sample`
unfoldable pub sample : Slot → Reading → Sample
sample s r =
    let measured = s.opened.cpu && s.clock_ok in
    record {
      cpu = sample_cpu measured s.cpu_used s.cpu_base r.cpu_now;
      wall = with_elapsed s.opened.wall s.wall_used s.wall_base r.wall_now;
      cpu_lost = measured && is_lost r.cpu_now;
    }

-- `luaext_watch_raise`
abbrev pub raised : Reason → Option Irq → Option Irq
raised reason none = none
raised reason (some irq) = some (record { reason = some reason; interrupted = true })

-- `limit != 0 && used >= limit`
abbrev pub is_spent : ℕ → ℕ → Bool
is_spent limit used = not (limit == 0) && leb limit used

-- Which budget `luaext_watch_evaluate` finds spent, in its order.
unfoldable pub verdict : Slot → Sample → Option Reason
verdict s m =
    if m.cpu_lost || s.cpu_open_failed
    then some cpu_spent
    else if is_spent s.cpu_limit m.cpu
    then some cpu_spent
    else if is_spent s.cpu_wall_limit m.wall
    then some cpu_spent
    else if is_spent s.wall_limit m.wall
    then some wall_spent
    else none

abbrev pub has_irq : Option Irq → Bool
has_irq none = false
has_irq (some irq) = true

abbrev pub trip : Slot → Option Reason → Bool × Slot
trip s none = (false, s)
trip s (some reason) = (true, record s { irq = raised reason s.irq })

-- `luaext_watch_evaluate`
unfoldable pub evaluate : Slot → Reading → Bool × Slot
evaluate s r =
    if not s.armed || not (has_irq s.irq) then (false, s) else trip s (verdict s (sample s r))

-- `limit > used ? limit - used : 0`, and the smaller of that and `remaining`.
abbrev pub left_of : ℕ → ℕ → ℕ
left_of limit used = if ltb used limit then limit - used else 0

abbrev pub at_most : Bool → ℕ → ℕ → ℕ → ℕ
at_most in_force limit used remaining =
    if in_force && not (limit == 0)
    then (if ltb (left_of limit used) remaining then left_of limit used else remaining)
    else remaining

-- `remaining` in `luaext_watch_deadline`, before the floor. The first limit replaces UINT64_MAX.
unfoldable pub remaining_of : Slot → Sample → ℕ
remaining_of s m =
    let cpu_left =
      if s.opened.cpu && not (s.cpu_limit == 0) then left_of s.cpu_limit m.cpu else size_max in
    at_most s.opened.wall s.wall_limit m.wall
      (at_most s.opened.wall s.cpu_wall_limit m.wall cpu_left)

abbrev pub floored : ℕ → ℕ → ℕ
floored floor remaining = if ltb remaining floor then floor else remaining

-- `remaining > UINT64_MAX - now ? UINT64_MAX : now + remaining`
abbrev pub saturated : ℕ → ℕ → ℕ
saturated now remaining = if ltb (size_max - now) remaining then size_max else now + remaining

-- `luaext_watch_deadline`, with the second answer of the monotonic clock.
unfoldable pub deadline : ℕ → Slot → Reading → ℕ → Option ℕ
deadline floor s r now =
    let m = sample s r in
    let remaining = remaining_of s m in
    if not s.armed || not (has_irq s.irq) || (not s.opened.cpu && not s.opened.wall)
    then none
    else if m.cpu_lost
    then some now
    else if remaining == size_max
    then none
    else some (saturated now (floored floor remaining))

-- `luaext_watch_stamp`
unfoldable pub stamp : Slot → ℕ → Entry × Slot
stamp s d =
    let epoch' = add_size s.epoch 1 in
    (
      record { generation = s.generation; epoch = epoch'; deadline = d },
      record s { epoch = epoch'; queued = true; queued_deadline = d },
    )

-- `luaext_watch_covered`
unfoldable pub covered : Slot → ℕ → Bool
covered s d = s.queued && leb s.queued_deadline d

-- `luaext_watch_open`
abbrev pub open_cpu : Bool → Option ℕ → Slot → Slot
open_cpu false now s = s
open_cpu true none s = record s { cpu_open_failed = true }
open_cpu true (some now) s = record s { cpu_base = now; opened = record (s.opened) { cpu = true } }

abbrev pub open_wall : Bool → ℕ → Slot → Slot
open_wall false now s = s
open_wall true now s = record s { wall_base = now; opened = record (s.opened) { wall = true } }

unfoldable pub open_segments : Mask → Slot → Reading → Slot
open_segments mask s r =
    let fresh = without (without mask s.paused) s.opened in
    open_wall fresh.wall r.wall_now (open_cpu (fresh.cpu && s.clock_ok) r.cpu_now s)

-- `luaext_watch_close`
unfoldable pub close_segments : Mask → Slot → Reading → Slot
close_segments mask s r =
    let closing = meet mask s.opened in
    let m = sample s r in
    record s {
      cpu_used = if closing.cpu && not m.cpu_lost then m.cpu else s.cpu_used;
      wall_used = if closing.wall then m.wall else s.wall_used;
      opened = without s.opened closing;
    }
