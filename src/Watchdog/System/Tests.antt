-- ===== src/Watchdog/System/Tests.antt =====
-- src/luaext_watchdog.c run on three heap entries, and on one slot from the pool to its first call.
use lua_ext.Base.{
  ℕ, ◌<◌, ◌≡◌, ◌⊎◌, inl, inr, refl, ◌++◌, true, false, none, some, List, [], ◌∷◌, Perm, arith,
}
use lua_ext.Base.Arrays.{exchange}
use lua_ext.Watchdog.{
  Slot, neither, evaluate, verdict, sample, deadline, remaining_of, stamp, covered, open_segments,
}
use lua_ext.Watchdog.Control.{Times, arm, settle}
use lua_ext.Watchdog.Heap.{Queued, rise, sink, heap_push, heap_pop}
use lua_ext.Watchdog.Heap.Order.{IsHeap}
use lua_ext.Watchdog.Heap.Rise.{heap_push-IsHeap}
use lua_ext.Watchdog.Heap.Sink.{heap_pop-Pops, Pops}
use lua_ext.Watchdog.System.{
  waits, System, Event, acts, publishes, wakes, limits_wall, republishes, arms, acquires, act,
  happen, run, self_check,
}
use lua_ext.Watchdog.System.Awake.{
  IsFresh, IsAwakeBy, sleeps_in_time, armed_in_time, arm_and_publish, opened_for,
}

abbrev due : ℕ → ℕ → Queued
due i d = record { slot = i; entry = record { generation = 1; epoch = 1; deadline = d } }

abbrev three : List Queued
three = due 0 30 ∷ due 1 70 ∷ due 2 50 ∷ []

three-IsHeap : IsHeap three
three-IsHeap c p h = elim (two c p h) [ inl e ↦ rw e (omega arith) | inr e ↦ rw e (omega arith) ]
  where
    two : (c : ℕ) → 0 < c → c < 3 → (c ≡ 1) ⊎ (c ≡ 2)
    two c p h = ground arith

pushed : heap_push true (due 3 20) three ≡ due 3 20 ∷ due 0 30 ∷ due 2 50 ∷ due 1 70 ∷ []
unfolding heap_push rise exchange
pushed = refl

popped_three : heap_pop three ≡ (due 0 30, due 2 50 ∷ due 1 70 ∷ [])
unfolding heap_pop sink exchange
popped_three = refl

heap_push-IsHeap_example :
    IsHeap (heap_push true (due 3 20) three)
    × Perm (heap_push true (due 3 20) three) (due 3 20 ∷ three)
heap_push-IsHeap_example = heap_push-IsHeap (due 3 20) three three-IsHeap

heap_pop-Pops_example : Pops three (heap_pop three)
heap_pop-Pops_example = heap_pop-Pops three three-IsHeap (omega arith)

abbrev at_instant : ℕ → Times
at_instant n = record {
  at_open = record { cpu_now = some n; wall_now = n };
  at_evaluate = record { cpu_now = some n; wall_now = n };
  at_deadline = record { cpu_now = some n; wall_now = n };
  now = n;
}

-- As a zeroed block of the pool holds it.
abbrev zeroed : Slot
zeroed = record {
  generation = 0;
  irq = none;
  clock_ok = false;
  cpu_open_failed = false;
  cpu_limit = 0;
  wall_limit = 0;
  cpu_wall_limit = 0;
  cpu_used = 0;
  wall_used = 0;
  cpu_base = 0;
  wall_base = 0;
  armed = false;
  opened = neither;
  epoch = 0;
  queued_deadline = 0;
  queued = false;
  paused = neither;
  has_limits = false;
}

abbrev started : System
started = record { cells = λ i. record { slot = zeroed; outbox = none }; heap = []; thread = waits }

started-IsFresh : IsFresh started
started-IsFresh = record { empty = refl; resting = refl; unqueued = λ i. refl }

abbrev let_out : List Event
let_out =
    acts 2 (acquires (some (record { reason = none; interrupted = false })) true) (at_instant 10)
    ∷ acts 2 (limits_wall 500) (at_instant 20)
    ∷ acts 2 republishes (at_instant 20)
    ∷ []

abbrev ran : List Event
ran = let_out ++ acts 2 arms (at_instant 100) ∷ publishes 2 true ∷ wakes 200 ∷ []

ran_heap :
    (run 50 ran started).heap
    ≡ record { slot = 2; entry = record { generation = 1; epoch = 1; deadline = 600 } } ∷ []
unfolding run happen act arm settle evaluate verdict sample deadline remaining_of stamp covered
    open_segments heap_push rise exchange
ran_heap = refl

-- At the instant 200 the thread sleeps on.
ran_queued :
    let st = run 50 ran started in
    (st.thread ≡ waits) × ((st.cells 2).outbox ≡ none) × ((st.cells 2).slot.queued ≡ true)
unfolding run happen act arm settle evaluate verdict sample deadline remaining_of stamp covered
    open_segments heap_push rise exchange
ran_queued = (refl, refl, refl)

sleeps_in_time_example :
    IsAwakeBy ((run 50 ran started).cells 2).slot.queued_deadline (run 50 ran started).heap
sleeps_in_time_example =
    sleeps_in_time 50 ran started 2 started-IsFresh (tt, (tt, (tt, (tt, (refl, (tt, tt))))))
      ran_queued.0 ran_queued.1 ran_queued.2

abbrev let_slot : Slot
let_slot = ((run 50 let_out started).cells 2).slot

let_out_ready :
    (((run 50 let_out started).cells 2).outbox ≡ none)
    × (let_slot.armed ≡ false)
    × (let_slot.has_limits ≡ true)
    × ((evaluate (opened_for (at_instant 100) let_slot) (at_instant 100).at_evaluate).0 ≡ false)
    × (deadline 50 (opened_for (at_instant 100) let_slot) (at_instant 100).at_deadline 100
        ≡ some 600)
    × ((run 50 (arm_and_publish 2 (at_instant 100)) (run 50 let_out started)).thread ≡ waits)
unfolding run happen act arm settle evaluate verdict sample deadline remaining_of stamp covered
    open_segments heap_push rise exchange
let_out_ready = (refl, refl, refl, refl, refl, refl)

armed_in_time_example :
    IsAwakeBy 600 (run 50 (arm_and_publish 2 (at_instant 100)) (run 50 let_out started)).heap
armed_in_time_example =
    let (o, a, l, e, g, w) = let_out_ready in
    armed_in_time 50 let_out started 2 (at_instant 100) 600 started-IsFresh (tt, (tt, (tt, tt))) o a
      l e g w

self_check_unarmed : (self_check 60 let_slot (at_instant 900).at_evaluate).1 ≡ 60
unfolding self_check run happen act settle evaluate deadline
self_check_unarmed = refl
