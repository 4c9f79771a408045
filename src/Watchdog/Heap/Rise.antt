-- ===== src/Watchdog/Heap/Rise.antt =====
-- `luaext_watch_heap_push` keeps the heap's order and adds the entry.
use mathlib.Core.List.Perm
use lua_ext.Base.{
  ℕ, zero, suc, ◌+◌, ◌≤◌, ◌<◌, ◌≡◌, ◌≢◌, true, List, [], ◌∷◌, ◌++◌, Perm, arith, leb, ◌==◌, length,
  length-append, Bool-cases, inl, inr,
}
use lua_ext.Base.Arrays.{length-exchange, get_or-exchange, exchange-Perm, get_or-append, Perm-snoc}
use lua_ext.Watchdog.Heap.{Queued, no_entry, deadline_at, parent, swapped, rise, heap_push}
use lua_ext.Watchdog.Heap.Order.{IsHeap, IsBridged}

-- Only `i` may be due before its parent.
record IsRising (heap : List Queued) (i : ℕ) : Type 0 where
  inside : i < length heap
  edges :
      (c : ℕ) → 0 < c → c < length heap → c ≢ i → deadline_at heap (parent c) ≤ deadline_at heap c
  bridged : IsBridged heap i

swapped-IsRising :
    (heap : List Queued) (i : ℕ)
    → IsRising heap i
    → 0 < i
    → deadline_at heap i < deadline_at heap (parent i)
    → IsRising (swapped heap (parent i) i) (parent i)
swapped-IsRising heap i v p below =
    grind (
      arith,
      length-exchange no_entry heap (parent i) i,
      get_or-exchange no_entry heap (parent i) i,
    )

rise-IsHeap :
    (fuel : ℕ) (heap : List Queued) (i : ℕ)
    → i < fuel
    → IsRising heap i
    → IsHeap (rise fuel heap i) × Perm (rise fuel heap i) heap
unfolding rise
rise-IsHeap zero heap i f v = absurd (omega arith)
rise-IsHeap (suc fuel) heap i f v = elim (Bool-cases (i == 0)) [
  | inl z ↦ rw z (λ c p q. v.edges c p q (ground arith), Perm.rfl)
  | inr z ↦ elim (Bool-cases (leb (deadline_at heap (parent i)) (deadline_at heap i))) [
    | inl settled ↦ rw (z, settled) (λ c p q. ground (arith, v.edges c), Perm.rfl)
    | inr below ↦
        rw (z, below)
          (let (h, perm) =
              rise-IsHeap fuel (swapped heap (parent i) i) (parent i) (ground arith)
                (swapped-IsRising heap i v (ground arith) (ground arith)) in
            (
              h,
              Perm.trans perm
                  (exchange-Perm no_entry heap (parent i) i (omega (arith, v.inside)) v.inside),
            ))
  ]
]

snoc-IsRising :
    (heap : List Queued) (q : Queued) → IsHeap heap → IsRising (heap ++ q ∷ []) (length heap)
snoc-IsRising heap q h = record {
  inside = omega (arith, size);
  edges = λ c p l n. ground (
    arith,
    size,
    h c,
    get_or-append no_entry heap (q ∷ []) c,
    get_or-append no_entry heap (q ∷ []) (parent c),
  );
  bridged = omega (arith, size);
}
  where
    size : length (heap ++ q ∷ []) ≡ length heap + 1
    size = length-append heap (q ∷ [])

-- Where there is room, a push on a heap whose entries are no earlier than their parents keeps that
-- order, and the heap then holds what it held and the new entry.
pub heap_push-IsHeap :
    (q : Queued) (heap : List Queued)
    → IsHeap heap
    → IsHeap (heap_push true q heap) × Perm (heap_push true q heap) (q ∷ heap)
unfolding heap_push
heap_push-IsHeap q heap h =
    let (k, perm) =
      rise-IsHeap (suc (length heap)) (heap ++ q ∷ []) (length heap) (omega arith)
        (snoc-IsRising heap q h) in
    (k, Perm.trans perm (Perm-snoc heap q))
