-- ===== src/Watchdog/System/Tracked.antt =====
-- No slot that counts on an entry is forgotten: the entry is in the heap, or in the hands of a thread.
use mathlib.Core.Path.{subst}
use mathlib.Core.Logic.{∥∥₁_map}
use mathlib.Core.List.Perm
use mathlib.Core.List.{
  Subset, mem-cons_self, mem-cons_of_mem, mem-append, mem-append_right, perm_middle,
  mem_of_ne_of_mem,
}
use lua_ext.Base.{
  ℕ, ◌≡◌, ◌≢◌, refl, sym, ◌∙◌, ap, Bool, true, false, Option, none, some, List, [], ◌∷◌, ◌++◌, Mem,
  Perm, arith, inl, inr, Bool-cases, ◌==◌, ltb, length, if◌then◌else◌,
}
use lua_ext.Watchdog.{Slot, Entry}
use lua_ext.Watchdog.Control.{Times, service}
use lua_ext.Watchdog.Heap.{Queued, heap_push, heap_pop, deadline_at}
use lua_ext.Watchdog.Heap.Order.{IsHeap}
use lua_ext.Watchdog.Heap.Rise.{heap_push-IsHeap}
use lua_ext.Watchdog.Heap.Sink.{heap_pop-Pops, Pops}
use lua_ext.Watchdog.System.{
  Cell, Thread, waits, holds, pushes, System, Event, acts, publishes, wakes, services, requeues,
  Act, act, act_on, publish, wake, popped, thread_after, service_held, requeue, happen, run,
}
use lua_ext.Watchdog.System.Handed.{live, IsHandedOver, act_handed, IsServiced, service_handed}

abbrev pub at : ℕ → Entry → Queued
at i e = record { slot = i; entry = e }

abbrev pub of_outbox : ℕ → Option Entry → List Queued
of_outbox i none = []
of_outbox i (some e) = at i e ∷ []

abbrev pub of_thread : Thread → List Queued
of_thread waits = []
of_thread (holds q) = q ∷ []
of_thread (pushes q) = q ∷ []

-- The entries of slot `i` that are stamped and not pushed, the thread's, and the heap's.
abbrev pub outstanding : ℕ → Cell → Thread → List Queued → List Queued
outstanding i c thread heap = of_outbox i c.outbox ++ (of_thread thread ++ heap)

abbrev pub IsKnown : ℕ → Cell → Thread → List Queued → Type 0
IsKnown i c thread heap =
    c.slot.queued ≡ true → Mem (at i (live c.slot)) (outstanding i c thread heap)

pub record IsTracked (st : System) : Type 0 where
  pub ordered : IsHeap st.heap
  pub known : (i : ℕ) → IsKnown i (st.cells i) st.thread st.heap

-- No push finds the memory short.
abbrev pub IsKept : Event → Type 0
IsKept (acts i a t) = Unit
IsKept (publishes i kept) = kept ≡ true
IsKept (wakes now) = Unit
IsKept (services t) = Unit
IsKept (requeues kept) = kept ≡ true

abbrev pub AllKept : List Event → Type 0
AllKept [] = Unit
AllKept (e ∷ es) = IsKept e × AllKept es

-- More in the thread and the heap is no less for a slot.
IsKnown-more :
    (i : ℕ) (c : Cell) (t t' : Thread) (h h' : List Queued)
    → Subset (of_thread t ++ h) (of_thread t' ++ h')
    → IsKnown i c t h
    → IsKnown i c t' h'
IsKnown-more i c t t' h h' sub k e =
    let xs = of_outbox i c.outbox in
    mem-append.1
      (∥∥₁_map (mem-append.0 (k e)) λ s. elim s [ inl m ↦ inl m | inr m ↦ inr (sub _ m) ])

-- A cell is replaced.
cell_at :
    (P : ℕ → Cell → Type 0) (cells : ℕ → Cell) (i : ℕ) (c : Cell)
    → P i c
    → ((j : ℕ) → P j (cells j))
    → (j : ℕ) → P j (if i == j then c else cells j)
cell_at P cells i c p q j = elim (Bool-cases (i == j)) [
  | inl e ↦ rw e (subst (λ (k : ℕ). P k c) (ground arith) p)
  | inr e ↦ rw e (q j)
]

act-IsKnown :
    (i : ℕ) (s : Slot) (p : Option Entry × Slot) (t : Thread) (h : List Queued)
    → IsHandedOver s p
    → IsKnown i (record { slot = s; outbox = none }) t h
    → IsKnown i (record { slot = p.1; outbox = p.0 }) t h
act-IsKnown i s p t h o k e = elim (o e) [
  | inl f ↦ rw f mem-cons_self
  | inr (n, q, f) ↦ rw (n, f) (k q)
]

pushed_perm :
    (kept : Bool) (q : Queued) (heap : List Queued)
    → kept ≡ true
    → IsHeap heap
    → IsHeap (heap_push kept q heap) × Perm (heap_push kept q heap) (q ∷ heap)
pushed_perm kept q heap k h = rw k (heap_push-IsHeap q heap h)

mem_without :
    {x : Queued} (q : Queued) (xs ys : List Queued)
    → x ≢ q
    → Mem x (xs ++ (q ∷ ys))
    → Mem x (xs ++ ys)
mem_without {x} q xs ys n m = mem_of_ne_of_mem n (Perm.subset (perm_middle xs ys) x m)

acts-IsTracked :
    (floor : ℕ) (i : ℕ) (a : Act) (t : Times) (st : System) (o : Option Entry)
    → (st.cells i).outbox ≡ o
    → IsTracked st
    → IsTracked (act_on floor i a t o st)
acts-IsTracked floor i a t st (some e) f v = v
acts-IsTracked floor i a t st none f v =
    let s = (st.cells i).slot in
    record {
      ordered = v.ordered;
      known =
          cell_at (λ (j : ℕ) (c : Cell). IsKnown j c st.thread st.heap) st.cells i _
            (act-IsKnown i s (act floor a t s) st.thread st.heap (act_handed floor a t s)
              λ q. simp f at (v.known i q))
            v.known;
    }

publish-IsTracked :
    (i : ℕ) (kept : Bool) (st : System) (o : Option Entry)
    → (st.cells i).outbox ≡ o
    → kept ≡ true
    → IsTracked st
    → IsTracked (publish i kept o st)
publish-IsTracked i kept st none f k v = v
publish-IsTracked i kept st (some e) f k v =
    let (ordered, perm) = pushed_perm kept (at i e) st.heap k v.ordered in
    let heap' = heap_push kept (at i e) st.heap in
    let T = of_thread st.thread in
    let moved : Perm (at i e ∷ (T ++ st.heap)) (T ++ heap') =
      Perm.trans (Perm.symm (perm_middle T st.heap)) (Perm.append_left T (Perm.symm perm)) in
    record {
      ordered = ordered;
      known =
          cell_at (λ (j : ℕ) (c : Cell). IsKnown j c st.thread heap') st.cells i _
            (λ q. Perm.subset moved _ (simp f at (v.known i q)))
            (λ j.
              IsKnown-more j (st.cells j) st.thread st.thread st.heap heap'
                (λ x m. Perm.subset moved x (mem-cons_of_mem (at i e) m)) (v.known j));
    }

requeue-IsTracked :
    (kept : Bool) (st : System) (th : Thread)
    → st.thread ≡ th
    → kept ≡ true
    → IsTracked st
    → IsTracked (requeue kept th st)
requeue-IsTracked kept st waits f k v = v
requeue-IsTracked kept st (holds q) f k v = v
requeue-IsTracked kept st (pushes q) f k v =
    let (ordered, perm) = pushed_perm kept q st.heap k v.ordered in
    record {
      ordered = ordered;
      known = λ j.
          IsKnown-more j (st.cells j) (pushes q) waits st.heap _ (Perm.subset (Perm.symm perm))
            (λ e. simp f at (v.known j e));
    }

wake-IsTracked :
    (now : ℕ) (st : System) (th : Thread)
    → st.thread ≡ th
    → IsTracked st
    → IsTracked (wake now th st)
wake-IsTracked now st (holds q) f v = v
wake-IsTracked now st (pushes q) f v = v
wake-IsTracked now st waits f v = elim (Bool-cases (length st.heap == 0)) [
  | inl e ↦ simp e v
  | inr e ↦ elim (Bool-cases (ltb now (deadline_at st.heap 0))) [
    | inl l ↦ simp (e, l) v
    | inr l ↦ simp (e, l) (taken (heap_pop-Pops st.heap v.ordered (ground arith)))
  ]
]
  where
    taken : Pops st.heap (heap_pop st.heap) → IsTracked (popped (heap_pop st.heap) st)
    taken p = record {
      ordered = p.ordered;
      known = λ j.
          IsKnown-more j (st.cells j) waits (holds _) st.heap _ (Perm.subset (Perm.symm p.same))
            (λ e. simp f at (v.known j e));
    }

-- The slot whose entry the thread holds, after its service; and every other slot.
serviced_own :
    (i : ℕ) (entry : Entry) (c : Cell) (p : Option Entry × Slot) (h : List Queued)
    → IsServiced entry c.slot p
    → IsKnown i c (holds (at i entry)) h
    → IsKnown i (record c { slot = p.1 }) (thread_after i p.0) h
serviced_own i entry c p h v k e = elim (v e) [
  | inl f ↦ rw f (mem-append_right (of_outbox i c.outbox) mem-cons_self)
  | inr (f, n) ↦
      let o = ap (λ (x : Option Entry × Slot). x.0) f in
      let s = ap (λ (x : Option Entry × Slot). x.1) f in
      let q : c.slot.queued ≡ true = sym (ap (λ (x : Slot). x.queued) s) ∙ e in
      rw (o, s)
        (mem_without (at i entry) (of_outbox i c.outbox) h
          (λ g. n (sym (ap (λ (x : Queued). x.entry) g))) (k q))
]

serviced_other :
    (i j : ℕ) (entry : Entry) (c : Cell) (o : Option Entry) (h : List Queued)
    → (i == j) ≡ false
    → IsKnown j c (holds (at i entry)) h
    → IsKnown j c (thread_after i o) h
serviced_other i j entry c o h d k e =
    let rest =
      mem_without (at i entry) (of_outbox j c.outbox) h
        (λ g. differ (ap (λ (x : Queued). x.slot) g)) (k e) in
    elim o as (λ k. Mem (at j (live c.slot)) (outstanding j c (thread_after i k) h)) [
      | none ↦ rest
      | some e' ↦
          Perm.subset (Perm.symm (perm_middle (of_outbox j c.outbox) h)) _ (mem-cons_of_mem _ rest)
    ]
  where
    differ : j ≢ i
    differ = ground arith

service-IsTracked :
    (floor : ℕ) (t : Times) (st : System) (th : Thread)
    → st.thread ≡ th
    → IsTracked st
    → IsTracked (service_held floor t th st)
service-IsTracked floor t st waits f v = v
service-IsTracked floor t st (pushes q) f v = v
service-IsTracked floor t st (holds q) f v =
    let i = q.slot in
    let c = st.cells i in
    let p = service floor q.entry t c.slot in
    record {
      ordered = v.ordered;
      known = λ j. elim (Bool-cases (i == j)) [
        | inl e ↦ rw e (
            subst (λ (k : ℕ). IsKnown k (record c { slot = p.1 }) (thread_after i p.0) st.heap)
              (ground arith)
              (serviced_own i q.entry c p st.heap (service_handed floor q.entry t c.slot)
                λ k. simp f at (v.known i k)))
        | inr e ↦
            rw e
              (serviced_other i j q.entry (st.cells j) p.0 st.heap e λ k. simp f at (v.known j k))
      ];
    }

happen-IsTracked :
    (floor : ℕ) (e : Event) (st : System) → IsKept e → IsTracked st → IsTracked (happen floor e st)
unfolding happen
happen-IsTracked floor (acts i a t) st k v = acts-IsTracked floor i a t st _ refl v
happen-IsTracked floor (publishes i kept) st k v = publish-IsTracked i kept st _ refl k v
happen-IsTracked floor (wakes now) st k v = wake-IsTracked now st _ refl v
happen-IsTracked floor (services t) st k v = service-IsTracked floor t st _ refl v
happen-IsTracked floor (requeues kept) st k v = requeue-IsTracked kept st _ refl k v

pub run-IsTracked :
    (floor : ℕ) (es : List Event) (st : System)
    → AllKept es
    → IsTracked st
    → IsTracked (run floor es st)
unfolding run
run-IsTracked floor [] st k v = v
run-IsTracked floor (e ∷ es) st (k, ks) v =
    run-IsTracked floor es (happen floor e st) ks (happen-IsTracked floor e st k v)
