-- ===== src/Watchdog/Steps.antt =====
-- A slot over time: whatever is done to it and in any order, nothing billed is given back and an
-- interrupt stays raised (src/luaext_watchdog.c).
use lua_ext.Base.{
  ℕ, ◌+◌, ◌≤◌, ◌≡◌, refl, Bool, true, false, not, ◌&&◌, ◌||◌, Option, none, some, List, [], ◌∷◌,
  size_max, arith, inl, inr, Bool-cases,
}
use lua_ext.Watchdog.{
  Slot, Irq, Entry, Mask, Reading, Reason, sample, sample_cpu, with_elapsed, evaluate, trip, raised,
  stamp, covered, open_segments, close_segments, has_irq,
}
use lua_ext.Watchdog.Control.{
  Times, settle, unless_tripped, queue, republish, set_cpu_limit, set_wall_limit, arm, disarm,
  pause, resume, service,
}

-- What can be done to a slot between its acquisition and its release.
pub data Op : Type 0 where
  cpu_limited : ℕ → ℕ → Op
  wall_limited : ℕ → Op
  armed disarmed : Op
  paused resumed : Mask → Op
  surfaced : Entry → Op

unfoldable pub step : ℕ → Op → Times → Slot → Slot
step floor (cpu_limited ns resolution) t s = (set_cpu_limit floor ns resolution t s).1
step floor (wall_limited ns) t s = (set_wall_limit floor ns t s).1
step floor armed t s = (arm floor t s).1
step floor disarmed t s = disarm t s
step floor (paused mask) t s = pause mask t s
step floor (resumed mask) t s = (resume floor mask t s).1
step floor (surfaced entry) t s = (service floor entry t s).1

unfoldable pub run_slot : ℕ → List (Op × Times) → Slot → Slot
run_slot floor [] s = s
run_slot floor ((op, t) ∷ ops) s = run_slot floor ops (step floor op t s)

abbrev pub is_raised : Option Irq → Bool
is_raised none = false
is_raised (some irq) = irq.interrupted

-- A segment that is closed at this time bills no more than a 64-bit number holds.
abbrev pub IsBillable : ℕ → Option ℕ → Type 0
IsBillable used none = Unit
IsBillable used (some now) = used + now ≤ size_max

pub record Billable (t : Times) (s : Slot) : Type 0 where
  pub cpu : IsBillable s.cpu_used t.at_open.cpu_now
  pub wall : s.wall_used + t.at_open.wall_now ≤ size_max

abbrev pub AllBillable : ℕ → List (Op × Times) → Slot → Type 0
AllBillable floor [] s = Unit
AllBillable floor ((op, t) ∷ ops) s = Billable t s × AllBillable floor ops (step floor op t s)

-- Nothing that was billed is given back, and a raised interrupt stays raised.
pub record Kept (s s' : Slot) : Type 0 where
  pub cpu : s.cpu_used ≤ s'.cpu_used
  pub wall : s.wall_used ≤ s'.wall_used
  pub sticky : is_raised s.irq ≡ true → is_raised s'.irq ≡ true

pub Kept-refl : (s : Slot) → Kept s s
Kept-refl s = record { cpu = omega arith; wall = omega arith; sticky = λ e. e }

pub Kept-trans : {a b c : Slot} → Kept a b → Kept b c → Kept a c
Kept-trans h k = record {
  cpu = omega (arith, h.cpu, k.cpu);
  wall = omega (arith, h.wall, k.wall);
  sticky = λ e. k.sticky (h.sticky e);
}

pub raised-sticky :
    (reason : Reason) (irq : Option Irq)
    → is_raised irq ≡ true
    → is_raised (raised reason irq) ≡ true
raised-sticky reason none e = e
raised-sticky reason (some irq) e = refl

trip-Kept : (s : Slot) (v : Option Reason) → Kept s (trip s v).1
trip-Kept s none = Kept-refl s
trip-Kept s (some reason) = record {
  cpu = omega arith;
  wall = omega arith;
  sticky = raised-sticky reason s.irq;
}

evaluate-Kept : (s : Slot) (r : Reading) → Kept s (evaluate s r).1
unfolding evaluate
evaluate-Kept s r = elim (Bool-cases (not s.armed || not (has_irq s.irq))) [
  | inl e ↦ rw (e, evaluate) (Kept-refl s)
  | inr e ↦ rw (e, evaluate) (trip-Kept s _)
]

queue-Kept : (b : Bool) (s : Slot) (d : Option ℕ) → Kept s (queue b s d).1
unfolding stamp
queue-Kept b s none = Kept-refl s
queue-Kept b s (some d) = elim (Bool-cases (b && covered s d)) [
  | inl e ↦ rw e (Kept-refl s)
  | inr e ↦ rw e (record { cpu = omega arith; wall = omega arith; sticky = λ k. k })
]

unless_tripped-Kept :
    (b : Bool) (floor : ℕ) (t : Times) (s : Slot) (p : Bool × Slot)
    → Kept s p.1
    → Kept s (unless_tripped b floor t p).1
unless_tripped-Kept b floor t s (true, s') k = k
unless_tripped-Kept b floor t s (false, s') k = Kept-trans k (queue-Kept b s' _)

pub settle-Kept : (b : Bool) (floor : ℕ) (t : Times) (s : Slot) → Kept s (settle b floor t s).1
unfolding settle
settle-Kept b floor t s = unless_tripped-Kept b floor t s _ (evaluate-Kept s t.at_evaluate)

pub republish-Kept : (floor : ℕ) (t : Times) (s : Slot) → Kept s (republish floor t s).1
republish-Kept floor t s = elim (Bool-cases s.has_limits) [
  | inl e ↦ simp e (settle-Kept true floor t s)
  | inr e ↦ simp e (Kept-refl s)
]

pub open_segments-Kept : (mask : Mask) (s : Slot) (r : Reading) → Kept s (open_segments mask s r)
unfolding open_segments
open_segments-Kept mask s r = ground arith

with_elapsed-ge :
    (b : Bool) (used base now : ℕ) → used + now ≤ size_max → used ≤ with_elapsed b used base now
with_elapsed-ge b used base now h = ground arith

sample_cpu-ge :
    (b : Bool) (used base : ℕ) (now : Option ℕ)
    → IsBillable used now
    → used ≤ sample_cpu b used base now
sample_cpu-ge b used base none h = omega arith
sample_cpu-ge b used base (some now) h = with_elapsed-ge b used base now h

pub close_segments-Kept :
    (mask : Mask) (t : Times) (s : Slot) → Billable t s → Kept s (close_segments mask s t.at_open)
unfolding close_segments sample
close_segments-Kept mask t s b = record {
  cpu = ground (
    arith,
    sample_cpu-ge (s.opened.cpu && s.clock_ok) s.cpu_used s.cpu_base t.at_open.cpu_now b.cpu,
  );
  wall =
      ground
        (arith, with_elapsed-ge s.opened.wall s.wall_used s.wall_base t.at_open.wall_now b.wall);
  sticky = λ e. e;
}
