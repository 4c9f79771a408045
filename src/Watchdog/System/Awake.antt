-- ===== src/Watchdog/System/Awake.antt =====
-- The watchdog's thread never sleeps past the deadline of a slot that counts on it.
use mathlib.Core.List.{Mem, not-mem-nil}
use lua_ext.Base.{
  ℕ, ◌≤◌, ◌<◌, ◌≡◌, refl, sym, ◌∙◌, ap, Bool, true, false, not, ◌&&◌, ◌||◌, ◌⊎◌, Option, none, some,
  List, [], ◌∷◌, arith, inl, inr, Bool-cases, ◌==◌, leb, length, if◌then◌else◌,
}
use lua_ext.Watchdog.{
  Slot, Entry, Reading, evaluate, trip, Reason, verdict, deadline, stamp, covered, open_segments,
  both, neither, sample, has_irq,
}
use lua_ext.Watchdog.Control.{Times, settle, queue, arm}
use lua_ext.Watchdog.Heap.{Queued, deadline_at}
use lua_ext.Watchdog.Heap.Order.{IsHeap, top_first}
use lua_ext.Watchdog.Heap.Sink.{all_after}
use lua_ext.Watchdog.System.{
  Cell, waits, System, Event, acts, publishes, act_on, publish, Act, arms, act, happen, run,
}
use lua_ext.Watchdog.System.Handed.{live}
use lua_ext.Watchdog.System.Tracked.{IsTracked, AllKept, at, run-IsTracked}

-- Nothing is queued, and the thread waits.
pub record IsFresh (st : System) : Type 0 where
  pub empty : st.heap ≡ []
  pub resting : st.thread ≡ waits
  pub unqueued : (i : ℕ) → (st.cells i).slot.queued ≡ false

-- The thread sleeps until the top's deadline, and that is no later than `d`.
pub record IsAwakeBy (d : ℕ) (heap : List Queued) : Type 0 where
  pub some_entry : 0 < length heap
  pub in_time : deadline_at heap 0 ≤ d

IsFresh-IsTracked : (st : System) → IsFresh st → IsTracked st
IsFresh-IsTracked st f = record {
  ordered = rw f.empty (λ c p q. absurd (omega arith));
  known = λ i e. absurd (neither_way (sym (f.unqueued i) ∙ e));
}
  where
    neither_way : false ≡ true → ⊥
    neither_way e = cc

mem-awake :
    (heap : List Queued) (q : Queued) → IsHeap heap → Mem q heap → IsAwakeBy q.entry.deadline heap
mem-awake [] q h m = absurd (not-mem-nil m)
mem-awake (x ∷ heap) q h m = record {
  some_entry = omega arith;
  in_time = all_after (x ∷ heap) _ (λ i p. top_first (x ∷ heap) i h p) q m;
}

tracked-awake :
    (st : System) (i : ℕ)
    → IsTracked st
    → st.thread ≡ waits
    → (st.cells i).outbox ≡ none
    → (st.cells i).slot.queued ≡ true
    → IsAwakeBy (st.cells i).slot.queued_deadline st.heap
tracked-awake st i v w o q =
    mem-awake st.heap (at i (live (st.cells i).slot)) v.ordered (simp (w, o) at (v.known i q))

-- From a system with nothing queued, after any interleaving of what the owners of slots and the
-- watchdog's thread do in which no push is lost: while the thread waits and the owner of a slot
-- has nothing left to publish, a slot that is marked as queued has the heap's top due no later
-- than its queued deadline.
pub sleeps_in_time :
    (floor : ℕ) (es : List Event) (st : System) (i : ℕ)
    → IsFresh st
    → AllKept es
    → (run floor es st).thread ≡ waits
    → ((run floor es st).cells i).outbox ≡ none
    → ((run floor es st).cells i).slot.queued ≡ true
    → IsAwakeBy ((run floor es st).cells i).slot.queued_deadline (run floor es st).heap
sleeps_in_time floor es st i f k w o q =
    tracked-awake (run floor es st) i (run-IsTracked floor es st k (IsFresh-IsTracked st f)) w o q

-- The slot has an entry that is due by `d`.
record IsPromised (d : ℕ) (s : Slot) : Type 0 where
  queued : s.queued ≡ true
  by : s.queued_deadline ≤ d

queue-IsPromised : (b : Bool) (s : Slot) (d : ℕ) → IsPromised d (queue b s (some d)).1
unfolding stamp covered
queue-IsPromised b s d = elim (Bool-cases (b && (s.queued && leb s.queued_deadline d))) [
  | inl e ↦ rw e (record { queued = ground arith; by = ground arith })
  | inr e ↦ rw e (record { queued = refl; by = omega arith })
]

-- What a trip that does not come about leaves.
trip-untripped :
    (s : Slot) (p : Bool × Slot) → (p ≡ (false, s)) ⊎ (p.0 ≡ true) → p.0 ≡ false → p ≡ (false, s)
trip-untripped s p (inl e) f = e
trip-untripped s p (inr e) f = cc

evaluate_cases : (s : Slot) (r : Reading) → (evaluate s r ≡ (false, s)) ⊎ ((evaluate s r).0 ≡ true)
unfolding evaluate
evaluate_cases s r = elim (Bool-cases (not s.armed || not (has_irq s.irq))) [
  | inl e ↦ inl (rw (e, evaluate) refl)
  | inr e ↦ elim (trip_cases (verdict s (sample s r))) [
    | inl f ↦ inl (rw (e, evaluate) f)
    | inr f ↦ inr (rw (e, evaluate) f)
  ]
]
  where
    trip_cases : (v : Option Reason) → (trip s v ≡ (false, s)) ⊎ ((trip s v).0 ≡ true)
    trip_cases none = inl refl
    trip_cases (some reason) = inr refl

settle-IsPromised :
    (b : Bool) (floor : ℕ) (t : Times) (s : Slot) (d : ℕ)
    → (evaluate s t.at_evaluate).0 ≡ false
    → deadline floor s t.at_deadline t.now ≡ some d
    → IsPromised d (settle b floor t s).1
unfolding settle
settle-IsPromised b floor t s d e f =
    rw (trip-untripped s _ (evaluate_cases s t.at_evaluate) e, f) (queue-IsPromised b s d)

-- The slot as `luaext_watchdog_arm` opens it.
abbrev pub opened_for : Times → Slot → Slot
opened_for t s = open_segments both (record s { armed = true; opened = neither }) t.at_open

open_limits : (s : Slot) (r : Reading) → (open_segments both s r).has_limits ≡ s.has_limits
unfolding open_segments
open_limits s r = ground arith

arm-IsPromised :
    (floor : ℕ) (t : Times) (s : Slot) (d : ℕ)
    → s.armed ≡ false
    → s.has_limits ≡ true
    → (evaluate (opened_for t s) t.at_evaluate).0 ≡ false
    → deadline floor (opened_for t s) t.at_deadline t.now ≡ some d
    → IsPromised d (arm floor t s).1
unfolding arm
arm-IsPromised floor t s d a l e f =
    let k : (opened_for t s).has_limits ≡ true = open_limits _ t.at_open ∙ l in
    simp (a, k) (settle-IsPromised true floor t (opened_for t s) d e f)

here : {A : Type 0} (i : ℕ) (x y : A) → (if i == i then x else y) ≡ x
here i x y = elim (Bool-cases (i == i)) [
  | inl e ↦ rw e refl
  | inr e ↦ absurd (omega (arith, differs e))
]
  where
    differs : (i == i) ≡ false → i < i
    differs e = ground arith

acted_cell :
    (floor : ℕ) (i : ℕ) (a : Act) (t : Times) (st : System) (o : Option Entry)
    → o ≡ none
    → ((act_on floor i a t o st).cells i).slot ≡ (act floor a t (st.cells i).slot).1
acted_cell floor i a t st none e = ap (λ (c : Cell). c.slot) (here i _ (st.cells i))
acted_cell floor i a t st (some x) e = cc

published_cell :
    (i : ℕ) (kept : Bool) (st : System) (o : Option Entry)
    → (st.cells i).outbox ≡ o
    → (publish i kept o st).cells i ≡ record (st.cells i) { outbox = none }
published_cell i kept st none e = λ k. record (st.cells i) { outbox = e k }
published_cell i kept st (some x) e = here i _ (st.cells i)

-- `luaext_watchdog_arm` whole, for slot `i`.
abbrev pub arm_and_publish : ℕ → Times → List Event
arm_and_publish i t = acts i arms t ∷ publishes i true ∷ []

armed_slot :
    (floor : ℕ) (i : ℕ) (t : Times) (st : System)
    → (st.cells i).outbox ≡ none
    → (run floor (arm_and_publish i t) st).cells i
      ≡ record { slot = (arm floor t (st.cells i).slot).1; outbox = none }
unfolding run happen act
armed_slot floor i t st o =
    let st1 = happen floor (acts i arms t) st in
    let c : (st1.cells i).slot ≡ (arm floor t (st.cells i).slot).1 =
      acted_cell floor i arms t st _ o in
    published_cell i true st1 _ refl ∙ ap (λ (s : Slot). record { slot = s; outbox = none }) c

-- From a system with nothing queued, after any interleaving in which no push is lost: if the owner
-- of a slot that is not armed, has limits and has nothing to publish arms it and publishes, and
-- the slot does not trip and is given a deadline, then a thread that waits after that has the
-- heap's top due no later than that deadline.
pub armed_in_time :
    (floor : ℕ) (es : List Event) (st : System) (i : ℕ) (t : Times) (d : ℕ)
    → IsFresh st
    → AllKept es
    → let before = run floor es st in
      let s = (before.cells i).slot in
      let after = run floor (arm_and_publish i t) before in
      (before.cells i).outbox ≡ none
      → s.armed ≡ false
      → s.has_limits ≡ true
      → (evaluate (opened_for t s) t.at_evaluate).0 ≡ false
      → deadline floor (opened_for t s) t.at_deadline t.now ≡ some d
      → after.thread ≡ waits
      → IsAwakeBy d after.heap
armed_in_time floor es st i t d f k o a l e g w =
    let before = run floor es st in
    let after = run floor (arm_and_publish i t) before in
    let c = armed_slot floor i t before o in
    let p = arm-IsPromised floor t (before.cells i).slot d a l e g in
    let tracked =
      run-IsTracked floor (arm_and_publish i t) before (tt, (refl, tt))
        (run-IsTracked floor es st k (IsFresh-IsTracked st f)) in
    let q : (after.cells i).slot.queued ≡ true = ap (λ (x : Cell). x.slot.queued) c ∙ p.queued in
    let h = tracked-awake after i tracked w (ap (λ (x : Cell). x.outbox) c) q in
    record {
      some_entry = h.some_entry;
      in_time = omega (arith, h.in_time, ap (λ (x : Cell). x.slot.queued_deadline) c, p.by);
    }
