-- ===== src/Watchdog/Heap/Sink.antt =====
-- `luaext_watch_heap_pop` takes the earliest entry and keeps the order of the others.
use native.Mathlib.Bridge.{le_prop}
use native.Mathlib.Decide.{ℕ_discrete}
use mathlib.Core.List.{Mem, not-mem-nil, forall_mem-cons}
use mathlib.Core.List.Perm
use lua_ext.Base.{
  ℕ, zero, suc, ◌+◌, ◌-◌, ◌*◌, ◌≤◌, ◌<◌, ◌≡◌, ◌≢◌, ◌⊎◌, refl, ◌∙◌, ap, false, ◌&&◌, List, [], ◌∷◌,
  Perm, arith, ltb, ◌==◌, length, set, take, length-set, length-take, Bool-cases, inl, inr,
}
use lua_ext.Base.Arrays.{
  length-exchange, get_or-exchange, exchange-Perm, get_or-set, get_or-take, take-snoc, set-Perm,
  Perm-snoc,
}
use lua_ext.Watchdog.Heap.{
  Queued, no_entry, entry_at, deadline_at, parent, swapped, smallest, earlier, sink, heap_pop,
}
use lua_ext.Watchdog.Heap.Order.{IsHeap, IsBridged, top_first}

-- Only the children of `i` may be due before it.
record IsSinking (heap : List Queued) (i : ℕ) : Type 0 where
  edges :
      (c : ℕ)
      → 0 < c
      → c < length heap
      → parent c ≢ i
      → deadline_at heap (parent c) ≤ deadline_at heap c
  bridged : IsBridged heap i

-- The loop's choice: `i` itself, which then is due before its children; or a child that is due before
-- `i` and not after its sibling.
record IsSmallest (heap : List Queued) (i m : ℕ) : Type 0 where
  least : (c : ℕ) → 0 < c → c < length heap → parent c ≡ i → deadline_at heap m ≤ deadline_at heap c
  child :
      m ≢ i
      → (m < length heap)
        × ((m ≡ i * 2 + 1) ⊎ (m ≡ i * 2 + 2))
        × (deadline_at heap m < deadline_at heap i)

module _ (heap : List Queued) (candidate best : ℕ) where
  earlier_cases :
      (earlier heap candidate best ≡ best)
      ⊎ (earlier heap candidate best ≡ candidate)
        × (candidate < length heap)
        × (deadline_at heap candidate < deadline_at heap best)
  earlier_cases =
      elim (Bool-cases
        (ltb candidate (length heap) && ltb (deadline_at heap candidate) (deadline_at heap best))) [
          | inl e ↦ inr (rw e, ground arith, ground arith)
          | inr e ↦ inl (rw e)
        ]

  earlier-le-best : deadline_at heap (earlier heap candidate best) ≤ deadline_at heap best
  earlier-le-best = elim earlier_cases [
    | inl e ↦ rw e (omega arith)
    | inr (e, _, l) ↦ rw e (omega (arith, l))
  ]

  earlier-le-candidate :
      candidate < length heap
      → deadline_at heap (earlier heap candidate best) ≤ deadline_at heap candidate
  earlier-le-candidate h =
      elim (Bool-cases (ltb (deadline_at heap candidate) (deadline_at heap best))) [
        | inl e ↦ ground (arith, h)
        | inr e ↦ omega (arith, earlier-le-best, not_before e)
      ]
    where
      not_before :
          ltb (deadline_at heap candidate) (deadline_at heap best) ≡ false
          → deadline_at heap best ≤ deadline_at heap candidate
      not_before e = ground arith

children : (c i : ℕ) → 0 < c → parent c ≡ i → (c ≡ i * 2 + 1) ⊎ (c ≡ i * 2 + 1 + 1)
children c i p e = ground arith

smallest-IsSmallest : (heap : List Queued) (i : ℕ) → IsSmallest heap i (smallest heap i)
smallest-IsSmallest heap i =
    let left = earlier heap (i * 2 + 1) i in
    record {
      least = λ c p h e. elim (children c i p e) [
        | inl f ↦ omega (
          arith,
          earlier-le-best heap (i * 2 + 1 + 1) left,
          earlier-le-candidate heap (i * 2 + 1) i (omega (arith, f, h)),
          ap (λ (k : ℕ). deadline_at heap k) f,
        )
        | inr f ↦ omega (
          arith,
          earlier-le-candidate heap (i * 2 + 1 + 1) left (omega (arith, f, h)),
          ap (λ (k : ℕ). deadline_at heap k) f,
        )
      ];
      child = λ n. elim (earlier_cases heap (i * 2 + 1 + 1) left) [
        | inr (e, l, d) ↦
            rw e (l, inr (omega arith), omega (arith, d, earlier-le-best heap (i * 2 + 1) i))
        | inl e ↦ elim (earlier_cases heap (i * 2 + 1) i) [
          | inl f ↦ absurd (n (e ∙ f))
          | inr (f, l, d) ↦ rw (e ∙ f) (l, inl refl, d)
        ]
      ];
    }

swapped-IsSinking :
    (heap : List Queued) (i m : ℕ)
    → IsSinking heap i
    → IsSmallest heap i m
    → m ≢ i
    → i < length heap
    → IsSinking (swapped heap m i) m
swapped-IsSinking heap i m v s n hi =
    let (hm, side, below) = s.child n in
    let size = length-exchange no_entry heap m i in
    let at = get_or-exchange no_entry heap m i hm hi in
    record {
      edges =
          λ c p q r. ground (arith, size, at c, at (parent c), v.edges c, v.bridged m, s.least c);
      bridged = λ c p q r t. ground (arith, size, at c, at (parent m), v.edges c);
    }

settled : (heap : List Queued) (i : ℕ) → IsSinking heap i → smallest heap i ≡ i → IsHeap heap
settled heap i v e =
    let s = smallest-IsSmallest heap i in
    λ c p q. elim (ℕ_discrete (parent c) i) [
      | yes f ↦ omega (
        arith,
        s.least c p q f,
        ap (λ (k : ℕ). deadline_at heap k) e,
        ap (λ (k : ℕ). deadline_at heap k) f,
      )
      | no f ↦ v.edges c p q f
    ]

sink-IsHeap :
    (fuel : ℕ) (heap : List Queued) (i : ℕ)
    → length heap - i ≤ fuel
    → i < length heap
    → IsSinking heap i
    → IsHeap (sink fuel heap i) × Perm (sink fuel heap i) heap
unfolding sink
sink-IsHeap zero heap i f hi v = absurd (omega arith)
sink-IsHeap (suc fuel) heap i f hi v = elim (Bool-cases (smallest heap i == i)) [
  | inl e ↦ rw e (settled heap i v (ground arith), Perm.rfl)
  | inr e ↦
      let m = smallest heap i in
      let n : smallest heap i ≢ i = ground arith in
      let s = smallest-IsSmallest heap i in
      let (hm, side, below) = s.child n in
      let size = length-exchange no_entry heap m i in
      let (h, perm) =
        sink-IsHeap fuel (swapped heap m i) m (omega (arith, size, side, f))
          (omega (arith, size, hm)) (swapped-IsSinking heap i m v s n hi) in
      rw e (h, Perm.trans perm (exchange-Perm no_entry heap m i hm hi))
]

-- What a pop answers, and leaves.
pub record Pops (heap : List Queued) (r : Queued × List Queued) : Type 0 where
  pub ordered : IsHeap r.1
  pub same : Perm (r.0 ∷ r.1) heap
  pub first : (q : Queued) → Mem q heap → r.0.entry.deadline ≤ q.entry.deadline

pub all_after :
    (heap : List Queued) (n : ℕ)
    → ((i : ℕ) → i < length heap → n ≤ deadline_at heap i)
    → (q : Queued) → Mem q heap
    → n ≤ q.entry.deadline
all_after [] n h = λ q m. absurd (not-mem-nil m)
all_after (x ∷ heap) n h =
    (forall_mem-cons λ q. le_prop).1
      (h 0 (omega arith), all_after heap n λ i p. h (suc i) (omega arith))

module _ (heap : List Queued) (k : ℕ) (size : length heap ≡ suc k) (some_left : 0 < k) where
  -- The heap without its top, whose place the last entry takes.
  abbrev cut : List Queued
  cut = set (take k heap) 0 (entry_at heap k)

  length-cut : length cut ≡ k
  length-cut = omega (arith, length-set (take k heap) 0 (entry_at heap k), length-take k heap)

  cut-Perm : Perm (entry_at heap 0 ∷ cut) heap
  cut-Perm =
      let top : entry_at (take k heap) 0 ≡ entry_at heap 0 =
        get_or-take no_entry k heap 0 some_left in
      Perm.trans
        (rw top at
          (set-Perm no_entry (take k heap) 0 (entry_at heap k) (omega (arith, length-take k heap))))
        (Perm.trans (Perm.symm (Perm-snoc (take k heap) (entry_at heap k)))
          (rw (take-snoc no_entry k heap size) Perm.rfl))

  at_cut : (c : ℕ) → 0 < c → c < k → entry_at cut c ≡ entry_at heap c
  at_cut c p h = ground (
    arith,
    get_or-set no_entry (take k heap) 0 c (entry_at heap k) (omega (arith, length-take k heap)),
    get_or-take no_entry k heap c h,
  )

  cut-IsSinking : IsHeap heap → IsSinking cut 0
  cut-IsSinking h = record {
    edges = λ c p q r. omega (
      arith,
      h c p (omega (arith, length-cut, q)),
      ap (λ (e : Queued). e.entry.deadline) (at_cut c p (omega (arith, length-cut, q))),
      ap (λ (e : Queued). e.entry.deadline)
          (at_cut (parent c) (ground (arith, r)) (omega (arith, length-cut, q))),
    );
    bridged = omega arith;
  }

lone : (heap : List Queued) → 0 < length heap → length heap ≤ 1 → Perm (entry_at heap 0 ∷ []) heap
lone [] p q = absurd (omega arith)
lone (x ∷ []) p q = Perm.rfl
lone (x ∷ y ∷ heap) p q = absurd (omega arith)

-- A pop on a heap that is not empty and whose entries are no earlier than their parents answers an
-- entry of which none in the heap is earlier, and leaves a heap in that order with exactly the
-- other entries.
pub heap_pop-Pops : (heap : List Queued) → IsHeap heap → 0 < length heap → Pops heap (heap_pop heap)
unfolding heap_pop
heap_pop-Pops heap h p = elim (Bool-cases (length heap - 1 == 0)) [
  | inl z ↦ rw z (record {
    ordered = omega arith;
    same = lone heap p (ground arith);
    first = all_after heap _ λ i l. top_first heap i h l;
  })
  | inr z ↦
      let k = length heap - 1 in
      let size : length heap ≡ suc k = omega arith in
      let more : 0 < k = ground arith in
      let (ordered, perm) =
        sink-IsHeap k (cut heap k size more) 0 (omega (arith, length-cut heap k size more))
          (omega (arith, length-cut heap k size more)) (cut-IsSinking heap k size more h) in
      rw z (record {
        ordered = ordered;
        same = Perm.trans (Perm.cons _ perm) (cut-Perm heap k size more);
        first = all_after heap _ λ i l. top_first heap i h l;
      })
]
