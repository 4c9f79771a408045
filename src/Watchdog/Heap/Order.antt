-- ===== src/Watchdog/Heap/Order.antt =====
-- The order of the deadline heap.
use lua_ext.Base.{ℕ, zero, suc, ◌≤◌, ◌<◌, ◌≡◌, List, arith, length}
use lua_ext.Watchdog.Heap.{Queued, deadline_at, parent}

-- No entry is due before its parent.
abbrev pub IsHeap : List Queued → Type 0
IsHeap heap = (c : ℕ) → 0 < c → c < length heap → deadline_at heap (parent c) ≤ deadline_at heap c

-- The grandchildren of the parent of `i` are in order with it, past `i`.
abbrev pub IsBridged : List Queued → ℕ → Type 0
IsBridged heap i =
    (c : ℕ)
    → 0 < c
    → c < length heap
    → parent c ≡ i
    → 0 < i
    → deadline_at heap (parent i) ≤ deadline_at heap c

top_first_below :
    (k : ℕ) (heap : List Queued) (i : ℕ)
    → IsHeap heap
    → i < k
    → i < length heap
    → deadline_at heap 0 ≤ deadline_at heap i
top_first_below zero heap i h f p = absurd (omega arith)
top_first_below (suc k) heap zero h f p = omega arith
top_first_below (suc k) heap (suc i) h f p = omega (
  arith,
  h (suc i) (omega arith) p,
  top_first_below k heap (parent (suc i)) h (omega arith) (omega arith),
)

-- Nothing in a heap is due before its top.
pub top_first :
    (heap : List Queued) (i : ℕ)
    → IsHeap heap
    → i < length heap
    → deadline_at heap 0 ≤ deadline_at heap i
top_first heap i h p = top_first_below (suc i) heap i h (omega arith) p
