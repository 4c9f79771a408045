-- ===== src/Watchdog/Heap.antt =====
-- The deadline heap of src/luaext_watchdog.c, a binary heap in an array.
pub mod Order
pub mod Rise
pub mod Sink
use lua_ext.Base.{
  ℕ, zero, suc, ◌+◌, ◌-◌, ◌*◌, ◌/◌, ◌≤◌, Bool, true, false, ◌&&◌, List, [], ◌∷◌, ◌++◌, Perm, ltb,
  leb, ◌==◌, if◌then◌else◌, length, set, get_or, take,
}
use lua_ext.Base.Arrays.{exchange}
use lua_ext.Watchdog.{Entry}

-- `luaext_watch_entry` whole: the slot, by its index, and the rest.
pub record Queued : Type 0 where
  pub slot : ℕ
  pub entry : Entry

-- What lies behind the end of the heap. Nothing reads it.
abbrev pub no_entry : Queued
no_entry = record { slot = 0; entry = record { generation = 0; epoch = 0; deadline = 0 } }

abbrev pub entry_at : List Queued → ℕ → Queued
entry_at heap i = get_or heap i no_entry

-- `luaext_watch.heap[i].deadline`
abbrev pub deadline_at : List Queued → ℕ → ℕ
deadline_at heap i = (entry_at heap i).entry.deadline

abbrev pub swapped : List Queued → ℕ → ℕ → List Queued
swapped heap i j = exchange no_entry heap i j

abbrev pub parent : ℕ → ℕ
parent i = (i - 1) / 2

-- The loop of `luaext_watch_heap_push`, with fuel for its rounds.
unfoldable pub rise : ℕ → List Queued → ℕ → List Queued
rise zero heap i = heap
rise (suc fuel) heap i =
    let risen = rise fuel (swapped heap (parent i) i) (parent i) in
    if i == 0
    then heap
    else if leb (deadline_at heap (parent i)) (deadline_at heap i)
    then heap
    else risen

-- `luaext_watch_heap_push`; `reserved` is the answer of `luaext_watch_heap_reserve`.
unfoldable pub heap_push : Bool → Queued → List Queued → List Queued
heap_push reserved q heap =
    if reserved then rise (suc (length heap)) (heap ++ q ∷ []) (length heap) else heap

-- `candidate`, where it is inside and due before `best`.
abbrev pub earlier : List Queued → ℕ → ℕ → ℕ
earlier heap candidate best =
    if ltb candidate (length heap) && ltb (deadline_at heap candidate) (deadline_at heap best)
    then candidate
    else best

abbrev pub smallest : List Queued → ℕ → ℕ
smallest heap i = earlier heap (i * 2 + 1 + 1) (earlier heap (i * 2 + 1) i)

-- The loop of `luaext_watch_heap_pop`.
unfoldable pub sink : ℕ → List Queued → ℕ → List Queued
sink zero heap i = heap
sink (suc fuel) heap i =
    let best = smallest heap i in
    let sunk = sink fuel (swapped heap best i) best in if best == i then heap else sunk

-- `luaext_watch_heap_pop`: what it answers, and the heap that is left.
unfoldable pub heap_pop : List Queued → Queued × List Queued
heap_pop heap =
    let count = length heap - 1 in
    (
      entry_at heap 0,
      if count == 0 then [] else sink count (set (take count heap) 0 (entry_at heap count)) 0,
    )
