-- ===== src/Watchdog/System.antt =====
-- src/luaext_watchdog.c as a whole: slots with their owners' threads, the heap, and the watchdog's
-- thread, one locked section at a time. Every interleaving of those is a list of events.
pub mod Handed
pub mod Tracked
pub mod Awake
mod Tests
use lua_ext.Base.{
  ℕ, suc, ◌+◌, ◌%◌, ◌^◌, Bool, true, false, not, ◌&&◌, ◌||◌, Option, none, some, List, [], ◌∷◌, ltb,
  ◌==◌, if◌then◌else◌, add_size, length,
}
use lua_ext.Watchdog.{Slot, Irq, Entry, Mask, neither, Reading, evaluate}
use lua_ext.Watchdog.Control.{
  Times, with_cpu_limit, with_wall_limit, republish, arm, disarm, pause, resume, service,
}
use lua_ext.Watchdog.Heap.{Queued, deadline_at, heap_push, heap_pop}

-- `luaext_watchdog_acquire`, on a slot that the pool gave. `captured` is the answer of
-- `luaext_clock_capture_self`.
abbrev pub acquire : Option Irq → Bool → Slot → Slot
acquire irq captured s = record s {
  generation = add_size s.generation 1;
  irq = irq;
  cpu_limit = 0;
  wall_limit = 0;
  cpu_wall_limit = 0;
  cpu_used = 0;
  wall_used = 0;
  cpu_base = 0;
  wall_base = 0;
  armed = false;
  opened = neither;
  paused = neither;
  has_limits = false;
  queued = false;
  queued_deadline = 0;
  cpu_open_failed = false;
  clock_ok = captured;
}

-- `luaext_watchdog_release`, which gives the slot back to the pool.
abbrev pub release : Slot → Slot
release s = record s {
  irq = none;
  clock_ok = false;
  armed = false;
  opened = neither;
  paused = neither;
  has_limits = false;
  queued = false;
  generation = add_size s.generation 1;
}

-- `luaext_watchdog_final_check`
unfoldable pub final_check : Slot → Reading → Bool × Slot
final_check s r = if not s.has_limits || not s.armed then (false, s) else evaluate s r

-- `LUAEXT_WATCH_SELF_CHECK_STRIDE`
abbrev pub self_check_stride : ℕ
self_check_stride = 64

-- `luaext_watchdog_self_check`, with the slot's `hook_ticks` apart.
unfoldable pub self_check : ℕ → Slot → Reading → Bool × ℕ × Slot
self_check hook_ticks s r =
    let ticks = (hook_ticks + 1) % 2 ^ 32 in
    if not s.has_limits || not s.armed
    then (false, hook_ticks, s)
    else if ltb ticks self_check_stride
    then (false, ticks, s)
    else ((evaluate s r).0, 0, (evaluate s r).1)

-- What the owner of a slot does with it in one locked section, from the pool and back to it. The
-- setters of the limits are two: what they store, and what they republish.
pub data Act : Type 0 where
  limits_cpu : ℕ → ℕ → Act
  limits_wall : ℕ → Act
  republishes : Act
  arms disarms : Act
  pauses resumes : Mask → Act
  checks : Act
  acquires : Option Irq → Bool → Act
  releases : Act

-- The entry that the act leaves to be published, and the slot.
unfoldable pub act : ℕ → Act → Times → Slot → Option Entry × Slot
act floor (limits_cpu ns resolution) t s = (none, with_cpu_limit ns resolution s)
act floor (limits_wall ns) t s = (none, with_wall_limit ns s)
act floor republishes t s = republish floor t s
act floor arms t s = arm floor t s
act floor disarms t s = (none, disarm t s)
act floor (pauses mask) t s = (none, pause mask t s)
act floor (resumes mask) t s = resume floor mask t s
act floor checks t s = (none, (final_check s t.at_evaluate).1)
act floor (acquires irq captured) t s = (none, acquire irq captured s)
act floor releases t s = (none, release s)

-- A slot, and the entry that its owner has stamped and not yet published.
pub record Cell : Type 0 where
  pub slot : Slot
  pub outbox : Option Entry

-- `luaext_watch_main`: at its waits; with an entry popped and not yet serviced; with an entry stamped
-- and not yet pushed.
pub data Thread : Type 0 where
  waits : Thread
  holds pushes : Queued → Thread

pub record System : Type 0 where
  pub cells : ℕ → Cell
  pub heap : List Queued
  pub thread : Thread

-- `kept` of the two pushes: whether there was memory for the entry, and for `publishes` also whether
-- the thread runs.
pub data Event : Type 0 where
  acts : ℕ → Act → Times → Event
  publishes : ℕ → Bool → Event
  wakes : ℕ → Event
  services : Times → Event
  requeues : Bool → Event

abbrev pub with_cell : ℕ → Cell → System → System
with_cell i c st = record st { cells = λ j. if i == j then c else st.cells j }

abbrev pub acted : ℕ → Option Entry × Slot → System → System
acted i (e, s) st = with_cell i (record { slot = s; outbox = e }) st

-- An owner that has an entry to publish does that first.
abbrev pub act_on : ℕ → ℕ → Act → Times → Option Entry → System → System
act_on floor i a t none st = acted i (act floor a t (st.cells i).slot) st
act_on floor i a t (some e) st = st

-- `luaext_watch_publish`
abbrev pub publish : ℕ → Bool → Option Entry → System → System
publish i kept none st = st
publish i kept (some e) st = record (with_cell i (record (st.cells i) { outbox = none }) st) {
  heap = heap_push kept (record { slot = i; entry = e }) st.heap;
}

abbrev pub popped : Queued × List Queued → System → System
popped (q, heap) st = record st { heap = heap; thread = holds q }

-- A round of `luaext_watch_main` up to the pop, at the instant `now`.
abbrev pub wake : ℕ → Thread → System → System
wake now waits st =
    if length st.heap == 0
    then st
    else if ltb now (deadline_at st.heap 0)
    then st
    else popped (heap_pop st.heap) st
wake now (holds q) st = st
wake now (pushes q) st = st

abbrev pub thread_after : ℕ → Option Entry → Thread
thread_after i none = waits
thread_after i (some e) = pushes (record { slot = i; entry = e })

abbrev pub serviced : ℕ → Option Entry × Slot → System → System
serviced i (e, s) st = record (with_cell i (record (st.cells i) { slot = s }) st) {
  thread = thread_after i e;
}

abbrev pub service_held : ℕ → Times → Thread → System → System
service_held floor t waits st = st
service_held floor t (holds q) st =
    serviced q.slot (service floor q.entry t (st.cells q.slot).slot) st
service_held floor t (pushes q) st = st

abbrev pub requeue : Bool → Thread → System → System
requeue kept waits st = st
requeue kept (holds q) st = st
requeue kept (pushes q) st = record st { heap = heap_push kept q st.heap; thread = waits }

unfoldable pub happen : ℕ → Event → System → System
happen floor (acts i a t) st = act_on floor i a t (st.cells i).outbox st
happen floor (publishes i kept) st = publish i kept (st.cells i).outbox st
happen floor (wakes now) st = wake now st.thread st
happen floor (services t) st = service_held floor t st.thread st
happen floor (requeues kept) st = requeue kept st.thread st

unfoldable pub run : ℕ → List Event → System → System
run floor [] st = st
run floor (e ∷ es) st = run floor es (happen floor e st)
