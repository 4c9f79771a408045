-- ===== src/Defer/Ended.antt =====
-- Every deferred reference is released once: by a drain or left in the queue, and at the shutdown.
use lua_ext.Base.{
  ℕ, zero, suc, ◌+◌, ◌-◌, ◌≤◌, ◌<◌, ◌≡◌, refl, ap, arith, Option, none, some, List, [], ◌∷◌,
}
use lua_ext.Base.Counts.{occurrences}
use lua_ext.Defer.{Item, Deferred, detached, followed, drain, passes, max_passes, shutdown}
use lua_ext.Defer.Measures.{weight, owed, tallest, held}
use lua_ext.Defer.Drained.{Ends, followed-Ends, weaken-Ends, unless_empty-Ends, drain-Ends}

-- Where drains may stand in each other more levels deep than the queue and the destructors in it
-- hold items: a drain ends, whatever the destructors defer and drain on the way; each reference is
-- then released or still queued exactly as often as it was released, queued or held by a
-- destructor before, and if destructors that defer each other made a row, the longest is shorter
-- by one.
pub drain_once :
    (depth : ℕ) (s : Deferred)
    → weight s.items < depth
    → (t : Deferred) × (drain depth s ≡ some t)
      × ((m : ℕ)
          → owed m t.items + occurrences m t.released ≡ owed m s.items + occurrences m s.released)
      × (tallest t.items ≤ tallest s.items - 1)
drain_once depth s light = ended (drain depth s) refl (drain-Ends depth s light)
  where
    ended :
        (r : Option Deferred)
        → drain depth s ≡ r
        → Ends (weight s.items) (λ m. held m s) (tallest s.items - 1) r
        → (t : Deferred) × (drain depth s ≡ some t)
          × ((m : ℕ)
              → owed m t.items + occurrences m t.released
                ≡ owed m s.items + occurrences m s.released)
          × (tallest t.items ≤ tallest s.items - 1)
    ended none e x = absurd x
    ended (some t) e (w, h, b) = (t, e, h, b)

passes-Ends :
    (depth more : ℕ) (s : Deferred)
    → weight s.items < depth
    → Ends (weight s.items) (λ m. held m s) (tallest s.items - more) (passes depth more s)
unfolding passes
passes-Ends depth zero s light = (omega arith, λ m. refl, omega arith)
passes-Ends depth (suc more) s light =
    unless_empty-Ends s.items s (followed (passes depth more) (drain depth s)) (weight s.items)
      (λ m. held m s) (tallest s.items - suc more)
      (λ e.
        let flat : tallest s.items ≡ 0 = ap tallest e in
        (omega arith, λ m. refl, omega (arith, flat)))
      (followed-Ends (passes depth more) (drain depth s) _ _ _ _ (tallest s.items - 1)
        (tallest s.items - suc more) (drain-Ends depth s light)
        (λ t w h z.
          weaken-Ends (passes depth more t) (weight t.items) _ (λ m. held m t) _
            (tallest t.items - more) (tallest s.items - suc more) w h (omega (arith, z))
            (passes-Ends depth more t (omega (arith, w, light)))))

owed_none : (m : ℕ) (is : List Item) → tallest is ≤ 0 → owed m is ≡ 0
owed_none m [] low = refl
owed_none m (i ∷ is) low = absurd (omega (arith, low))

-- Where drains may stand in each other more levels deep than the queue and the destructors in it
-- hold items, and destructors defer each other in rows of eight at most: the shutdown ends with
-- the queue empty, and each reference is then released exactly as often as it was released, queued
-- or held by a destructor before.
pub shutdown_releases :
    (depth : ℕ) (s : Deferred)
    → weight s.items < depth
    → tallest s.items ≤ max_passes
    → (t : Deferred) × (shutdown depth s ≡ some t)
      × (t.items ≡ [])
      × ((m : ℕ) → occurrences m t.released ≡ owed m s.items + occurrences m s.released)
unfolding shutdown
shutdown_releases depth s light low =
    ended (passes depth max_passes s) refl (passes-Ends depth max_passes s light)
  where
    ended :
        (r : Option Deferred)
        → passes depth max_passes s ≡ r
        → Ends (weight s.items) (λ m. held m s) (tallest s.items - max_passes) r
        → (t : Deferred) × (followed (λ t. some (detached t)) (passes depth max_passes s) ≡ some t)
          × (t.items ≡ [])
          × ((m : ℕ) → occurrences m t.released ≡ owed m s.items + occurrences m s.released)
    ended none e x = absurd x
    ended (some u) e (w, h, b) = (
      detached u,
      ap (followed (λ t. some (detached t))) e,
      refl,
      λ m. omega (arith, h m, owed_none m u.items (omega (arith, b, low))),
    )
