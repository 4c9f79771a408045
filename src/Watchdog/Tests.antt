-- ===== src/Watchdog/Tests.antt =====
-- src/luaext_watchdog.c run on a slot with a CPU limit of 500 and a wall limit of 900.
use lua_ext.Base.{ℕ, ◌+◌, ◌≤◌, ◌≡◌, refl, true, false, none, some, List, [], ◌∷◌, arith}
use lua_ext.Watchdog.{
  Slot, both, neither, Reading, sample, evaluate, verdict, deadline, remaining_of, close_segments,
}
use lua_ext.Watchdog.Control.{Times, set_cpu_limit, cpu_is_degraded, settle, pause, disarm}
use lua_ext.Watchdog.InTime.{deadline_in_time}
use lua_ext.Watchdog.Steps.{Op, cpu_limited, disarmed, step, run_slot, is_raised, AllBillable, Kept}
use lua_ext.Watchdog.Spent.{run_slot-Kept, set_cpu_limit_stops}
use lua_ext.Watchdog.Paused.{pause_stands}

abbrev reading : ℕ → ℕ → Reading
reading cpu wall = record { cpu_now = some cpu; wall_now = wall }

abbrev times : ℕ → ℕ → Times
times cpu wall = record {
  at_open = reading cpu wall;
  at_evaluate = reading cpu wall;
  at_deadline = reading cpu wall;
  now = wall;
}

-- Armed at a CPU time of 1000 and an instant of 5000, with 100 and 200 billed before.
abbrev running : Slot
running = record {
  generation = 3;
  irq = some (record { reason = none; interrupted = false });
  clock_ok = true;
  cpu_open_failed = false;
  cpu_limit = 500;
  wall_limit = 900;
  cpu_wall_limit = 0;
  cpu_used = 100;
  wall_used = 200;
  cpu_base = 1000;
  wall_base = 5000;
  armed = true;
  opened = both;
  epoch = 8;
  queued_deadline = 5300;
  queued = true;
  paused = neither;
  has_limits = true;
}

within : (evaluate running (reading 1150 5250)).0 ≡ false
unfolding evaluate verdict sample
within = refl

-- 250 of the CPU budget are left.
scheduled : deadline 50 running (reading 1150 5250) 5251 ≡ some 5501
unfolding deadline sample remaining_of
scheduled = refl

over : (evaluate running (reading 1410 5700)).0 ≡ true
unfolding evaluate verdict sample
over = refl

deadline_in_time_example : 5501 ≤ 5251 + 450 + 50
deadline_in_time_example =
    deadline_in_time 50 running (reading 1150 5250) (reading 1410 5700) 5251 450 5501 within
      scheduled
      (record {
        before = 1150;
        after = 1410;
        read = refl;
        read_later = refl;
        cpu_passes = omega arith;
        cpu_slower = omega arith;
        wall_passes = omega arith;
        wall_elapsed = omega arith;
        cpu_word = omega arith;
        wall_word = omega arith;
      })
      over

lowered : List (Op × Times)
lowered = (cpu_limited 50 1, times 1100 5100) ∷ (disarmed, times 1200 5200) ∷ []

lowered-AllBillable : AllBillable 50 lowered running
unfolding lowered step set_cpu_limit settle evaluate verdict sample cpu_is_degraded
lowered-AllBillable = (
  record { cpu = omega arith; wall = omega arith },
  (record { cpu = omega arith; wall = omega arith }, tt),
)

-- Billed are 300, and the interrupt is raised.
after_lowered : (run_slot 50 lowered running).cpu_used ≡ 300
unfolding lowered run_slot step set_cpu_limit settle evaluate verdict sample cpu_is_degraded disarm
    close_segments
after_lowered = refl

run_slot-Kept_example : Kept running (run_slot 50 lowered running)
run_slot-Kept_example = run_slot-Kept 50 lowered running lowered-AllBillable

spent_250 : 150 ≤ (sample running (reading 1150 5250)).cpu
unfolding sample
spent_250 = omega arith

set_cpu_limit_stops_example :
    let (entry, s') = set_cpu_limit 50 150 1 (times 1150 5250) running in
    (is_raised s'.irq ≡ true) × (entry ≡ none)
set_cpu_limit_stops_example =
    set_cpu_limit_stops 50 150 1 (times 1150 5250) running refl refl (omega arith) spent_250

pause_stands_example :
    (true ≡ true
      → (sample running (reading 1150 5250)).cpu_lost ≡ false
      → (sample (pause both (times 1150 5250) running) (reading 4000 9000)).cpu
        ≡ (sample running (reading 1150 5250)).cpu)
    × (true ≡ true
        → (sample (pause both (times 1150 5250) running) (reading 4000 9000)).wall
          ≡ (sample running (reading 1150 5250)).wall)
pause_stands_example = pause_stands both (times 1150 5250) running (reading 4000 9000)
