-- ===== src/Defer/Drained.antt =====
-- What a drain leaves, destructors that defer and drain again included.
use lua_ext.Base.{
  ℕ, zero, suc, ◌+◌, ◌-◌, ◌≤◌, ◌<◌, ◌≡◌, refl, ap, ◌∙◌, Bool-cases, inl, inr, arith, Option, none,
  some, List, [], ◌∷◌, ◌==◌, if◌then◌else◌,
}
use lua_ext.Defer.{
  Script, done, defers, drains, Item, Deferred, defer, detached, has_reference, released_one, Drain,
  followed, run_destructor, release, release_all, unless_empty, drain,
}
use lua_ext.Defer.Measures.{
  script_weight, weight, owed_by, owed_item, owed, height, tallest, held, weight_snoc, owed_snoc,
  tallest_snoc,
}

-- It ends, with at most so much left, each reference held as often, and the queue at most so tall.
abbrev pub Ends : ℕ → (ℕ → ℕ) → ℕ → Option Deferred → Type 0
Ends w h b none = ⊥
Ends w h b (some t) = (weight t.items ≤ w) × ((m : ℕ) → held m t ≡ h m) × (tallest t.items ≤ b)

pub followed-Ends :
    (next : Drain) (r : Option Deferred) (w w' : ℕ) (h h' : ℕ → ℕ) (b b' : ℕ)
    → Ends w h b r
    → ((t : Deferred)
        → weight t.items ≤ w
        → ((m : ℕ) → held m t ≡ h m)
        → tallest t.items ≤ b
        → Ends w' h' b' (next t))
    → Ends w' h' b' (followed next r)
followed-Ends next none w w' h h' b b' e go = absurd e
followed-Ends next (some t) w w' h h' b b' (x, y, z) go = go t x y z

pub weaken-Ends :
    (r : Option Deferred) (w w' : ℕ) (h h' : ℕ → ℕ) (b b' : ℕ)
    → w ≤ w'
    → ((m : ℕ) → h m ≡ h' m)
    → b ≤ b'
    → Ends w h b r
    → Ends w' h' b' r
weaken-Ends none w w' h h' b b' wl e bl r = r
weaken-Ends (some t) w w' h h' b b' wl e bl (x, y, z) =
    (omega (arith, x, wl), λ m. y m ∙ e m, omega (arith, z, bl))

-- A drain that ends on every queue lighter than `n`.
abbrev EndsBelow : ℕ → Drain → Type 0
EndsBelow n drain =
    (s : Deferred)
    → weight s.items < n
    → Ends (weight s.items) (λ m. held m s) (tallest s.items - 1) (drain s)

run_destructor-Ends :
    (n : ℕ) (drain : Drain)
    → EndsBelow n drain
    → (d : Script) (s : Deferred) (b : ℕ) → weight s.items + script_weight d < n
    → tallest s.items ≤ b
    → height d ≤ b
    → Ends
        (weight s.items + script_weight d)
        (λ m. held m s + owed_by m d)
        b
        (run_destructor drain d s)
unfolding run_destructor defer
run_destructor-Ends n drain all done s b light low fits = (omega arith, λ m. omega arith, low)
run_destructor-Ends n drain all (defers kind k d e) s b light low fits =
    let i : Item = record { kind = kind; ref = k; destructor = d } in
    let heavier = weight_snoc s.items i in
    weaken-Ends (run_destructor drain e (defer i s)) (weight (defer i s).items + script_weight e) _
      (λ m. held m (defer i s) + owed_by m e) _ b b (omega (arith, heavier))
      (λ m. omega (arith, owed_snoc m s.items i)) (omega arith)
      (run_destructor-Ends n drain all e (defer i s) b (omega (arith, heavier, light))
        (tallest_snoc s.items i b low (omega (arith, fits))) (omega (arith, fits)))
run_destructor-Ends n drain all (drains e) s b light low fits =
    followed-Ends (run_destructor drain e) (drain s) (weight s.items) _ (λ m. held m s) _
      (tallest s.items - 1) b (all s (omega (arith, light)))
      (λ t w h z.
        weaken-Ends (run_destructor drain e t) (weight t.items + script_weight e) _
          (λ m. held m t + owed_by m e) _ b b (omega (arith, w)) (λ m. omega (arith, h m))
          (omega arith)
          (run_destructor-Ends n drain all e t b (omega (arith, w, light)) (omega (arith, z, low))
            fits))

held-released_one :
    (m k : ℕ) (s : Deferred) → held m (released_one k s) ≡ held m s + (if k == m then 1 else 0)
held-released_one m k s = elim (Bool-cases (k == m)) [
  | inl e ↦ rw e (omega arith)
  | inr e ↦ rw e (omega arith)
]

release-Ends :
    (n : ℕ) (drain : Drain)
    → EndsBelow n drain
    → (i : Item) (s : Deferred) (b : ℕ) → weight s.items + script_weight i.destructor < n
    → tallest s.items ≤ b
    → height i.destructor ≤ b
    → Ends
        (weight s.items + script_weight i.destructor)
        (λ m. held m s + owed_item m i)
        b
        (release drain i s)
unfolding release
release-Ends n drain all i s b light low fits = elim (Bool-cases (has_reference i.kind)) [
  | inl e ↦ rw e (
      let t = released_one i.ref s in
      weaken-Ends (run_destructor drain i.destructor t)
        (weight t.items + script_weight i.destructor) _ (λ m. held m t + owed_by m i.destructor) _ b
        b (omega arith) (λ m. omega (arith, held-released_one m i.ref s)) (omega arith)
        (run_destructor-Ends n drain all i.destructor t b light low fits))
  | inr e ↦ rw e (omega arith, λ m. omega arith, low)
]

release_all-Ends :
    (n : ℕ) (drain : Drain)
    → EndsBelow n drain
    → (is : List Item) (s : Deferred) (b : ℕ) → weight s.items + weight is ≤ n
    → tallest s.items ≤ b
    → tallest is ≤ 1 + b
    → Ends (weight s.items + weight is) (λ m. held m s + owed m is) b (release_all drain is s)
unfolding release_all
release_all-Ends n drain all [] s b light low fits = (omega arith, λ m. omega arith, low)
release_all-Ends n drain all (i ∷ is) s b light low fits =
    followed-Ends (release_all drain is) (release drain i s) _ _ (λ m. held m s + owed_item m i) _ b
      b (release-Ends n drain all i s b (omega (arith, light)) low (omega (arith, fits)))
      (λ t w h z.
        weaken-Ends (release_all drain is t) (weight t.items + weight is) _
          (λ m. held m t + owed m is) _ b b (omega (arith, w)) (λ m. omega (arith, h m))
          (omega arith)
          (release_all-Ends n drain all is t b (omega (arith, w, light)) z (omega (arith, fits))))

pub unless_empty-Ends :
    (is : List Item) (s : Deferred) (r : Option Deferred)
    → (w : ℕ) (h : ℕ → ℕ) (b : ℕ) → (is ≡ [] → Ends w h b (some s))
    → Ends w h b r
    → Ends w h b (unless_empty is s r)
unless_empty-Ends [] s r w h b empty e = empty refl
unless_empty-Ends (i ∷ is) s r w h b empty e = e

pub drain-Ends : (n : ℕ) → EndsBelow n (drain n)
unfolding drain
drain-Ends zero s light = absurd (omega (arith, light))
drain-Ends (suc n) s light =
    unless_empty-Ends s.items s (release_all (drain n) s.items (detached s)) (weight s.items)
      (λ m. held m s) (tallest s.items - 1)
      (λ e.
        let flat : tallest s.items ≡ 0 = ap tallest e in
        (omega arith, λ m. refl, omega (arith, flat)))
      (weaken-Ends (release_all (drain n) s.items (detached s))
        (weight (detached s).items + weight s.items) _ (λ m. held m (detached s) + owed m s.items) _
        (tallest s.items - 1) _ (omega arith) (λ m. omega arith) (omega arith)
        (release_all-Ends n (drain n) (drain-Ends n) s.items (detached s) (tallest s.items - 1)
          (omega (arith, light)) (omega arith) (omega arith)))
