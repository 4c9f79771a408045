-- ===== src/Watchdog/Spent.antt =====
-- Whatever is done to a slot (src/luaext_watchdog.c), what it has spent stays spent, and a limit below
-- that stops the script at once.
use lua_ext.Base.{
  ℕ, ◌≤◌, ◌≡◌, ◌≢◌, refl, ◌∙◌, ap, Bool, true, false, not, ◌&&◌, ◌||◌, Option, none, some, List, [],
  ◌∷◌, ◌==◌, if◌then◌else◌, arith, inl, inr, Bool-cases,
}
use lua_ext.Watchdog.{
  Slot, Mask, Reading, Sample, sample, evaluate, trip, verdict, raised, has_irq, is_spent, both,
  neither, Entry, without, join, Irq, Reason, cpu_spent,
}
use lua_ext.Watchdog.Control.{
  Times, settle, unless_tripped, republish, set_cpu_limit, set_wall_limit, arm, disarm, pause,
  resume, service, with_cpu_limit, with_wall_limit,
}
use lua_ext.Watchdog.InTime.{evaluate-verdict}
use lua_ext.Watchdog.Steps.{
  Op, cpu_limited, wall_limited, armed, disarmed, paused, resumed, surfaced, step, run_slot,
  is_raised, Billable, AllBillable, Kept, Kept-trans, Kept-refl, settle-Kept, republish-Kept,
  open_segments-Kept, close_segments-Kept,
}

-- A change of settings bills nothing.
same_bill :
    {s s' : Slot}
    → s'.cpu_used ≡ s.cpu_used
    → s'.wall_used ≡ s.wall_used
    → s'.irq ≡ s.irq
    → Kept s s'
same_bill c w i = record { cpu = omega (arith, c); wall = omega (arith, w); sticky = λ e. rw i e }

if_Kept :
    (b : Bool) {s : Slot} (x y : Option Entry × Slot)
    → Kept s x.1
    → Kept s y.1
    → Kept s (if b then x else y).1
if_Kept true x y h k = h
if_Kept false x y h k = k

if_slot_Kept :
    (b : Bool) {s : Slot} (x y : Slot) → Kept s x → Kept s y → Kept s (if b then x else y)
if_slot_Kept true x y h k = h
if_slot_Kept false x y h k = k

arm-Kept : (floor : ℕ) (t : Times) (s : Slot) → Kept s (arm floor t s).1
unfolding arm
arm-Kept floor t s =
    let s1 = record s { armed = true; opened = neither } in
    if_Kept s.armed _ _ (Kept-refl s) (
      Kept-trans
        (Kept-trans (same_bill {s' = s1} refl refl refl) (open_segments-Kept both s1 t.at_open))
        (republish-Kept floor t _))

disarm-Kept : (t : Times) (s : Slot) → Billable t s → Kept s (disarm t s)
unfolding disarm
disarm-Kept t s b =
    if_slot_Kept (not s.armed) _ _ (Kept-refl s)
      (Kept-trans (close_segments-Kept both t s b) (same_bill refl refl refl))

pause-Kept : (mask : Mask) (t : Times) (s : Slot) → Billable t s → Kept s (pause mask t s)
unfolding pause
pause-Kept mask t s b =
    let s1 = record s { paused = join s.paused mask } in
    Kept-trans (same_bill {s' = s1} refl refl refl)
      (close_segments-Kept mask t s1 (record { cpu = b.cpu; wall = b.wall }))

resume-Kept : (floor : ℕ) (mask : Mask) (t : Times) (s : Slot) → Kept s (resume floor mask t s).1
unfolding resume
resume-Kept floor mask t s =
    let s1 = record s { paused = without s.paused mask } in
    if_Kept s.armed _ _
      (Kept-trans
        (Kept-trans (same_bill {s' = s1} refl refl refl) (open_segments-Kept mask s1 t.at_open))
        (republish-Kept floor t _))
      (same_bill refl refl refl)

step-Kept : (floor : ℕ) (op : Op) (t : Times) (s : Slot) → Billable t s → Kept s (step floor op t s)
unfolding step set_cpu_limit set_wall_limit service
step-Kept floor (cpu_limited ns resolution) t s b =
    Kept-trans (same_bill {s' = with_cpu_limit ns resolution s} refl refl refl)
      (republish-Kept floor t _)
step-Kept floor (wall_limited ns) t s b =
    Kept-trans (same_bill {s' = with_wall_limit ns s} refl refl refl) (republish-Kept floor t _)
step-Kept floor armed t s b = arm-Kept floor t s
step-Kept floor disarmed t s b = disarm-Kept t s b
step-Kept floor (paused mask) t s b = pause-Kept mask t s b
step-Kept floor (resumed mask) t s b = resume-Kept floor mask t s
step-Kept floor (surfaced entry) t s b =
    if_Kept (s.generation == entry.generation && s.epoch == entry.epoch) _ _
      (Kept-trans (same_bill refl refl refl) (settle-Kept false floor t _)) (Kept-refl s)

-- Limits set anew, arming, disarming, pausing, resuming and entries that surface, in any order and
-- at any times whose sums do not wrap, never lower the CPU time or the wall time that is billed,
-- and never clear an interrupt that is raised.
pub run_slot-Kept :
    (floor : ℕ) (ops : List (Op × Times)) (s : Slot)
    → AllBillable floor ops s
    → Kept s (run_slot floor ops s)
unfolding run_slot
run_slot-Kept floor [] s b = Kept-refl s
run_slot-Kept floor ((op, t) ∷ ops) s b =
    Kept-trans (step-Kept floor op t s b.0) (run_slot-Kept floor ops _ b.1)

raised_some :
    (reason : Reason) (irq : Option Irq) → has_irq irq ≡ true → is_raised (raised reason irq) ≡ true
raised_some reason none e = cc
raised_some reason (some irq) e = refl

verdict_cpu :
    (s : Slot) (m : Sample) → is_spent s.cpu_limit m.cpu ≡ true → verdict s m ≡ some cpu_spent
unfolding verdict
verdict_cpu s m e = elim (Bool-cases (m.cpu_lost || s.cpu_open_failed)) [
  | inl l ↦ rw (l, verdict) refl
  | inr l ↦ rw (l, e, verdict) refl
]

evaluate_cpu :
    (s : Slot) (r : Reading)
    → (not s.armed || not (has_irq s.irq)) ≡ false
    → is_spent s.cpu_limit (sample s r).cpu ≡ true
    → evaluate s r ≡ (true, record s { irq = raised cpu_spent s.irq })
evaluate_cpu s r live e =
    evaluate-verdict s r live ∙ ap (λ (v : Option Reason). trip s v) (verdict_cpu s (sample s r) e)

republish_stops :
    (floor : ℕ) (t : Times) (s : Slot)
    → s.has_limits ≡ true
    → (not s.armed || not (has_irq s.irq)) ≡ false
    → is_spent s.cpu_limit (sample s t.at_evaluate).cpu ≡ true
    → republish floor t s ≡ (none, record s { irq = raised cpu_spent s.irq })
unfolding settle
republish_stops floor t s l live e =
    if_true s.has_limits _ _ l
    ∙ ap (λ (p : Bool × Slot). unless_tripped true floor t p) (evaluate_cpu s t.at_evaluate live e)
  where
    if_true : (b : Bool) (x y : Option Entry × Slot) → b ≡ true → (if b then x else y) ≡ x
    if_true true x y f = refl
    if_true false x y f = cc

-- A CPU limit that is not 0, set on an armed slot with an interrupt to raise, and no more than the
-- CPU time spent, raises the interrupt at once and queues nothing.
pub set_cpu_limit_stops :
    (floor ns resolution : ℕ) (t : Times) (s : Slot)
    → s.armed ≡ true
    → has_irq s.irq ≡ true
    → ns ≢ 0
    → ns ≤ (sample s t.at_evaluate).cpu
    → let (entry, s') = set_cpu_limit floor ns resolution t s in
      (is_raised s'.irq ≡ true) × (entry ≡ none)
unfolding set_cpu_limit sample
set_cpu_limit_stops floor ns resolution t s a i n h =
    let done =
      republish_stops floor t _ (ground (arith, n)) (ground (arith, a, i)) (ground (arith, n, h)) in
    (
      ap (λ (p : Option Entry × Slot). is_raised p.1.irq) done ∙ raised_some cpu_spent s.irq i,
      ap (λ (p : Option Entry × Slot). p.0) done,
    )
