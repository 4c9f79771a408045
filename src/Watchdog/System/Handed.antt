-- ===== src/Watchdog/System/Handed.antt =====
-- What each act of an owner, and the thread, leaves of a slot's claim on an entry of the heap.
use lua_ext.Base.{
  ℕ, ◌≡◌, ◌≢◌, ◌⊎◌, refl, sym, ◌∙◌, ap, Bool, true, false, not, ◌&&◌, ◌||◌, Option, none, some,
  arith, inl, inr, Bool-cases, ◌==◌, if◌then◌else◌,
}
use lua_ext.Watchdog.{
  Slot, Entry, Reading, Mask, both, neither, without, join, Reason, evaluate, trip, stamp, covered,
  has_irq, deadline, open_segments, close_segments,
}
use lua_ext.Watchdog.Control.{
  Times, settle, unless_tripped, queue, republish, arm, disarm, pause, resume, service,
  with_cpu_limit, with_wall_limit,
}
use lua_ext.Watchdog.System.{Act, act, final_check}

-- The entry that stands for the slot as it is.
abbrev pub live : Slot → Entry
live s = record { generation = s.generation; epoch = s.epoch; deadline = s.queued_deadline }

-- What an act leaves to the heap: a slot that counts on an entry has just stamped it, or had it before.
abbrev pub IsHandedOver : Slot → Option Entry × Slot → Type 0
IsHandedOver s p =
    p.1.queued ≡ true
    → (p.0 ≡ some (live p.1)) ⊎ (p.0 ≡ none) × (s.queued ≡ true) × (live p.1 ≡ live s)

-- The fields that a slot shares with the heap.
record SameEntry (s s' : Slot) : Type 0 where
  queued : s'.queued ≡ s.queued
  entry : live s' ≡ live s

same : (s : Slot) → SameEntry s s
same s = record { queued = refl; entry = refl }

SameEntry-trans : {a b c : Slot} → SameEntry a b → SameEntry b c → SameEntry a c
SameEntry-trans h k = record { queued = k.queued ∙ h.queued; entry = k.entry ∙ h.entry }

kept_same : {s s' : Slot} → SameEntry s s' → IsHandedOver s (none, s')
kept_same h e = inr (refl, sym h.queued ∙ e, h.entry)

after_same :
    {s s' : Slot} (p : Option Entry × Slot) → SameEntry s s' → IsHandedOver s' p → IsHandedOver s p
after_same p h k e = elim (k e) [
  | inl f ↦ inl f
  | inr (n, q, f) ↦ inr (n, sym h.queued ∙ q, f ∙ h.entry)
]

if_handed :
    (b : Bool) (s : Slot) (x y : Option Entry × Slot)
    → IsHandedOver s x
    → IsHandedOver s y
    → IsHandedOver s (if b then x else y)
if_handed true s x y h k = h
if_handed false s x y h k = k

if_same :
    (b : Bool) (s x y : Slot) → SameEntry s x → SameEntry s y → SameEntry s (if b then x else y)
if_same true s x y h k = h
if_same false s x y h k = k

trip_same : (s : Slot) (v : Option Reason) → SameEntry s (trip s v).1
trip_same s none = same s
trip_same s (some reason) = record { queued = refl; entry = refl }

evaluate_same : (s : Slot) (r : Reading) → SameEntry s (evaluate s r).1
unfolding evaluate
evaluate_same s r = elim (Bool-cases (not s.armed || not (has_irq s.irq))) [
  | inl e ↦ rw (e, evaluate) (same s)
  | inr e ↦ rw (e, evaluate) (trip_same s _)
]

queue_handed : (b : Bool) (s : Slot) (d : Option ℕ) → IsHandedOver s (queue b s d)
unfolding stamp
queue_handed b s none = kept_same (same s)
queue_handed b s (some d) = if_handed (b && covered s d) s _ _ (kept_same (same s)) (λ e. inl refl)

unless_tripped_handed :
    (b : Bool) (floor : ℕ) (t : Times) (s : Slot) (p : Bool × Slot)
    → SameEntry s p.1
    → IsHandedOver s (unless_tripped b floor t p)
unless_tripped_handed b floor t s (true, s') h = kept_same h
unless_tripped_handed b floor t s (false, s') h =
    let d = deadline floor s' t.at_deadline t.now in
    after_same (queue b s' d) h (queue_handed b s' d)

pub settle_handed :
    (b : Bool) (floor : ℕ) (t : Times) (s : Slot) → IsHandedOver s (settle b floor t s)
unfolding settle
settle_handed b floor t s = unless_tripped_handed b floor t s _ (evaluate_same s t.at_evaluate)

republish_handed :
    (floor : ℕ) (t : Times) (s s' : Slot) → SameEntry s s' → IsHandedOver s (republish floor t s')
republish_handed floor t s s' h =
    after_same (republish floor t s') h
      (if_handed s'.has_limits s' _ _ (settle_handed true floor t s') (kept_same (same s')))

open_same : (mask : Mask) (s : Slot) (r : Reading) → SameEntry s (open_segments mask s r)
unfolding open_segments
open_same mask s r = record { queued = ground arith; entry = ground arith }

close_same : (mask : Mask) (s : Slot) (r : Reading) → SameEntry s (close_segments mask s r)
unfolding close_segments
close_same mask s r = record { queued = refl; entry = refl }

arm_handed : (floor : ℕ) (t : Times) (s : Slot) → IsHandedOver s (arm floor t s)
unfolding arm
arm_handed floor t s =
    let s1 : Slot = record s { armed = true; opened = neither } in
    let fresh : SameEntry s s1 = record { queued = refl; entry = refl } in
    if_handed s.armed s _ _ (kept_same (same s))
      (republish_handed floor t s _ (SameEntry-trans fresh (open_same both s1 t.at_open)))

resume_handed :
    (floor : ℕ) (mask : Mask) (t : Times) (s : Slot) → IsHandedOver s (resume floor mask t s)
unfolding resume
resume_handed floor mask t s =
    let s1 : Slot = record s { paused = without s.paused mask } in
    let fresh : SameEntry s s1 = record { queued = refl; entry = refl } in
    if_handed s.armed s _ _
      (republish_handed floor t s _ (SameEntry-trans fresh (open_same mask s1 t.at_open)))
      (kept_same fresh)

disarm_same : (t : Times) (s : Slot) → SameEntry s (disarm t s)
unfolding disarm
disarm_same t s =
    if_same (not s.armed) s _ _ (same s)
      (SameEntry-trans (close_same both s t.at_open) (record { queued = refl; entry = refl }))

pause_same : (mask : Mask) (t : Times) (s : Slot) → SameEntry s (pause mask t s)
unfolding pause
pause_same mask t s =
    let s1 : Slot = record s { paused = join s.paused mask } in
    let fresh : SameEntry s s1 = record { queued = refl; entry = refl } in
    SameEntry-trans fresh (close_same mask s1 t.at_open)

final_check_same : (s : Slot) (r : Reading) → SameEntry s (final_check s r).1
unfolding final_check
final_check_same s r = elim (Bool-cases (not s.has_limits || not s.armed)) [
  | inl e ↦ rw e (same s)
  | inr e ↦ rw e (evaluate_same s r)
]

-- Whatever an owner does, its slot counts on no entry but one that it hands over or had before.
pub act_handed : (floor : ℕ) (a : Act) (t : Times) (s : Slot) → IsHandedOver s (act floor a t s)
unfolding act
act_handed floor (Act.limits_cpu ns resolution) t s =
    kept_same {s = s} {s' = with_cpu_limit ns resolution s} (record { queued = refl; entry = refl })
act_handed floor (Act.limits_wall ns) t s =
    kept_same {s = s} {s' = with_wall_limit ns s} (record { queued = refl; entry = refl })
act_handed floor Act.republishes t s = republish_handed floor t s s (same s)
act_handed floor Act.arms t s = arm_handed floor t s
act_handed floor Act.disarms t s = kept_same (disarm_same t s)
act_handed floor (Act.pauses mask) t s = kept_same (pause_same mask t s)
act_handed floor (Act.resumes mask) t s = resume_handed floor mask t s
act_handed floor Act.checks t s = kept_same (final_check_same s t.at_evaluate)
act_handed floor (Act.acquires irq captured) t s = λ e. cc
act_handed floor Act.releases t s = λ e. cc

-- What the thread does with an entry that is the slot's own: the slot counts on a new one, or on none.
-- With another entry it does nothing.
abbrev pub IsServiced : Entry → Slot → Option Entry × Slot → Type 0
IsServiced entry s p =
    p.1.queued ≡ true → (p.0 ≡ some (live p.1)) ⊎ (p ≡ (none, s)) × (entry ≢ live s)

matched :
    (entry : Entry) (s s' : Slot) (p : Option Entry × Slot)
    → s'.queued ≡ false
    → IsHandedOver s' p
    → IsServiced entry s p
matched entry s s' p n h e = elim (h e) [
  | inl f ↦ inl f
  | inr (o, q, f) ↦ absurd (false_true (sym n ∙ q))
]
  where
    false_true : false ≡ true → ⊥
    false_true f = cc

mismatched :
    (entry : Entry) (s : Slot)
    → (s.generation == entry.generation && s.epoch == entry.epoch) ≡ false
    → entry ≢ live s
mismatched entry s m f =
    ground (arith, ap (λ (x : Entry). x.generation) f, ap (λ (x : Entry). x.epoch) f)

if_IsServiced :
    (b : Bool) (entry : Entry) (s : Slot) (x : Option Entry × Slot)
    → IsServiced entry s x
    → (b ≡ false → entry ≢ live s)
    → IsServiced entry s (if b then x else (none, s))
if_IsServiced true entry s x h k = h
if_IsServiced false entry s x h k = λ e. inr (refl, k refl)

pub service_handed :
    (floor : ℕ) (entry : Entry) (t : Times) (s : Slot)
    → IsServiced entry s (service floor entry t s)
unfolding service
service_handed floor entry t s =
    let s' : Slot = record s { queued = false } in
    if_IsServiced (s.generation == entry.generation && s.epoch == entry.epoch) entry s _
      (matched entry s s' _ refl (settle_handed false floor t s')) (mismatched entry s)
