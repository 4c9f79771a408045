-- ===== src/Defer/Tests.antt =====
-- Runs of src/luaext_defer.c.
use lua_ext.Base.{ℕ, ◌+◌, ◌-◌, ◌≡◌, ◌≤◌, refl, true, false, some, List, [], ◌∷◌, arith}
use lua_ext.Base.Counts.{occurrences}
use lua_ext.Defer.{
  zval, fcc, Script, done, defers, drains, Item, Deferred, reserve, defer, run_destructor, release,
  release_all, drain, passes, shutdown,
}
use lua_ext.Defer.Measures.{owed, tallest}
use lua_ext.Defer.Ended.{drain_once, shutdown_releases}

abbrev reference : ℕ → Script → Item
reference n d = record { kind = zval; ref = n; destructor = d }

-- The destructor of 1 defers 2 and drains, then defers 3; 4 has been moved away.
abbrev busy : Script
busy = defers zval 2 done (drains (defers (fcc true) 3 done done))

abbrev moved : Item
moved = record { kind = fcc false; ref = 4; destructor = done }

abbrev queue : List Item → Deferred
queue is = record { items = is; capacity = 8; released = [] }

abbrev example_queue : Deferred
example_queue = queue (reference 1 busy ∷ moved ∷ reference 5 done ∷ [])

-- The inner drain releases 2 before the outer one comes to 5; 3 stays for a later drain.
drained_in_order :
    drain 8 example_queue
    ≡ some (record {
      items = (record { kind = fcc true; ref = 3; destructor = done }) ∷ [];
      capacity = 8;
      released = 5 ∷ 2 ∷ 1 ∷ [];
    })
unfolding drain release_all release run_destructor defer reserve
drained_in_order = refl

shut_down :
    shutdown 8 example_queue
    ≡ some (record { items = []; capacity = 0; released = 3 ∷ 5 ∷ 2 ∷ 1 ∷ [] })
unfolding shutdown passes drain release_all release run_destructor defer reserve
shut_down = refl

-- A chain of `n` destructors that each defer the next.
abbrev chain : ℕ → Script
chain ℕ.zero = done
chain (ℕ.suc n) = defers zval n (chain n) done

-- The ninth of a chain is left when the eight passes are over.
ninth_leaked :
    shutdown 12 (queue (reference 9 (chain 8) ∷ []))
    ≡ some (record { items = []; capacity = 0; released = 1 ∷ 2 ∷ 3 ∷ 4 ∷ 5 ∷ 6 ∷ 7 ∷ 9 ∷ [] })
unfolding shutdown passes drain release_all release run_destructor defer reserve
ninth_leaked = refl

drain_once_example :
    (t : Deferred) × (drain 8 example_queue ≡ some t)
    × ((m : ℕ)
        → owed m t.items + occurrences m t.released
          ≡ owed m example_queue.items + occurrences m example_queue.released)
    × (tallest t.items ≤ tallest example_queue.items - 1)
drain_once_example = drain_once 8 example_queue (omega arith)

shutdown_releases_example :
    (t : Deferred) × (shutdown 8 example_queue ≡ some t)
    × (t.items ≡ [])
    × ((m : ℕ)
        → occurrences m t.released
          ≡ owed m example_queue.items + occurrences m example_queue.released)
shutdown_releases_example = shutdown_releases 8 example_queue (omega arith) (omega arith)
