-- ===== src/Watchdog/InTime.antt =====
-- The deadline that `luaext_watch_deadline` answers is never too late.
use lua_ext.Base.{
  ℕ, ◌+◌, ◌≤◌, ◌≡◌, ◌≢◌, ◌⊎◌, refl, sym, ◌∙◌, ap, Bool, true, false, not, ◌&&◌, ◌||◌, Option, none,
  some, ◌==◌, if◌then◌else◌, size_max, arith, inl, inr, Bool-cases,
}
use lua_ext.Watchdog.{
  Slot, Reading, Sample, sample, with_elapsed, is_spent, verdict, remaining_of, at_most, left_of,
  floored, saturated, deadline, Reason, cpu_spent, wall_spent, has_irq, evaluate, trip,
}

-- From one sample to a later one: the clocks do not run back, the thread's CPU time runs no faster than
-- the wall's, a segment that is not open stands still, and the clock could be read.
pub record Passes (s : Slot) (elapsed : ℕ) (m m' : Sample) : Type 0 where
  pub cpu_passes : m.cpu ≤ m'.cpu
  pub wall_passes : m.wall ≤ m'.wall
  pub cpu_slower : m'.cpu ≤ m.cpu + elapsed
  pub wall_elapsed : m'.wall ≤ m.wall + elapsed
  pub cpu_stands : s.opened.cpu ≡ false → m'.cpu ≡ m.cpu
  pub wall_stands : s.opened.wall ≡ false → m'.wall ≡ m.wall
  pub readable : m'.cpu_lost ≡ false

at_most-le : (in_force : Bool) (limit used rest : ℕ) → at_most in_force limit used rest ≤ rest
at_most-le in_force limit used rest = ground arith

-- A wall budget that is not spent at one sample and is at a later one was left no more than what has
-- passed between.
at_most-spent :
    (in_force : Bool) (limit used later elapsed rest : ℕ)
    → is_spent limit used ≡ false
    → is_spent limit later ≡ true
    → later ≤ used + elapsed
    → (in_force ≡ false → later ≡ used)
    → at_most in_force limit used rest ≤ elapsed
at_most-spent in_force limit used later elapsed rest a b h n = ground (arith, n)

-- And the same of the CPU budget.
cpu_left : Bool → ℕ → ℕ → ℕ
cpu_left in_force limit used = if in_force && not (limit == 0) then left_of limit used else size_max

cpu_left-spent :
    (in_force : Bool) (limit used later elapsed : ℕ)
    → is_spent limit used ≡ false
    → is_spent limit later ≡ true
    → later ≤ used + elapsed
    → (in_force ≡ false → later ≡ used)
    → cpu_left in_force limit used ≤ elapsed
unfolding cpu_left
cpu_left-spent in_force limit used later elapsed a b h n = ground (arith, n)

remaining_of-eq :
    (s : Slot) (m : Sample)
    → remaining_of s m
      ≡ at_most s.opened.wall s.wall_limit m.wall
          (at_most s.opened.wall s.cpu_wall_limit m.wall (cpu_left s.opened.cpu s.cpu_limit m.cpu))
unfolding remaining_of cpu_left
remaining_of-eq s m = refl

-- No budget is spent, and the clock has been read.
record Within (s : Slot) (m : Sample) : Type 0 where
  pub clock : (m.cpu_lost || s.cpu_open_failed) ≡ false
  pub cpu : is_spent s.cpu_limit m.cpu ≡ false
  pub cpu_wall : is_spent s.cpu_wall_limit m.wall ≡ false
  pub wall : is_spent s.wall_limit m.wall ≡ false

verdict-none : (s : Slot) (m : Sample) → verdict s m ≡ none → Within s m
unfolding verdict
verdict-none s m e = elim (Bool-cases (m.cpu_lost || s.cpu_open_failed)) [
  | inl a ↦ absurd (no {r = cpu_spent} (rw (a, verdict) refl) e)
  | inr a ↦ elim (Bool-cases (is_spent s.cpu_limit m.cpu)) [
    | inl b ↦ absurd (no {r = cpu_spent} (rw (a, b, verdict) refl) e)
    | inr b ↦ elim (Bool-cases (is_spent s.cpu_wall_limit m.wall)) [
      | inl c ↦ absurd (no {r = cpu_spent} (rw (a, b, c, verdict) refl) e)
      | inr c ↦ elim (Bool-cases (is_spent s.wall_limit m.wall)) [
        | inl d ↦ absurd (no {r = wall_spent} (rw (a, b, c, d, verdict) refl) e)
        | inr d ↦ record { clock = a; cpu = b; cpu_wall = c; wall = d }
      ]
    ]
  ]
]
  where
    no : {r : Reason} → verdict s m ≡ some r → verdict s m ≡ none → ⊥
    no f g = cc

Within-verdict : (s : Slot) (m : Sample) → Within s m → verdict s m ≡ none
unfolding verdict
Within-verdict s m w = rw (w.clock, w.cpu, w.cpu_wall, w.wall, verdict) refl

-- If nothing is spent at one sample and something is at a later one, the remaining time was no more
-- than what has passed.
remaining_in_time :
    (s : Slot) (m m' : Sample) (elapsed : ℕ)
    → Within s m
    → verdict s m' ≢ none
    → Passes s elapsed m m'
    → remaining_of s m ≤ elapsed
remaining_in_time s m m' elapsed w b p =
    rw (remaining_of-eq s m) (elim (Bool-cases (is_spent s.wall_limit m'.wall)) [
      | inl d ↦ at_most-spent _ _ _ _ _ _ w.wall d p.wall_elapsed p.wall_stands
      | inr d ↦ elim (Bool-cases (is_spent s.cpu_wall_limit m'.wall)) [
        | inl c ↦ below (at_most-spent _ _ _ _ _ _ w.cpu_wall c p.wall_elapsed p.wall_stands)
        | inr c ↦ elim (Bool-cases (is_spent s.cpu_limit m'.cpu)) [
          | inl e ↦ below (below2 (cpu_left-spent _ _ _ _ _ w.cpu e p.cpu_slower p.cpu_stands))
          | inr e ↦
              absurd (
                b (Within-verdict s m' (record { clock = clock; cpu = e; cpu_wall = c; wall = d })))
        ]
      ]
    ])
  where
    below : {rest : ℕ} → rest ≤ elapsed → at_most s.opened.wall s.wall_limit m.wall rest ≤ elapsed
    below h = omega (arith, at_most-le s.opened.wall s.wall_limit m.wall _, h)

    below2 :
        {rest : ℕ} → rest ≤ elapsed → at_most s.opened.wall s.cpu_wall_limit m.wall rest ≤ elapsed
    below2 h = omega (arith, at_most-le s.opened.wall s.cpu_wall_limit m.wall _, h)

    clock : (m'.cpu_lost || s.cpu_open_failed) ≡ false
    clock = ground (arith, w.clock, p.readable)

-- What is assumed of the clocks between two readings: the thread's CPU clock can be read both times,
-- neither clock runs back, CPU time runs no faster than wall time, of which `elapsed` passes, and no sum
-- with what is billed wraps.
pub record Ticks (s : Slot) (elapsed : ℕ) (r r' : Reading) : Type 0 where
  pub before : ℕ
  pub after : ℕ
  pub read : r.cpu_now ≡ some before
  pub read_later : r'.cpu_now ≡ some after
  pub cpu_passes : before ≤ after
  pub cpu_slower : after ≤ before + elapsed
  pub wall_passes : r.wall_now ≤ r'.wall_now
  pub wall_elapsed : r'.wall_now ≤ r.wall_now + elapsed
  pub cpu_word : s.cpu_used + after ≤ size_max
  pub wall_word : s.wall_used + r'.wall_now ≤ size_max

with_elapsed_mono :
    (b : Bool) (used base now later elapsed : ℕ)
    → now ≤ later
    → later ≤ now + elapsed
    → used + later ≤ size_max
    → (with_elapsed b used base now ≤ with_elapsed b used base later)
      × (with_elapsed b used base later ≤ with_elapsed b used base now + elapsed)
with_elapsed_mono b used base now later elapsed h k w = ground arith

sample-Passes :
    (s : Slot) (elapsed : ℕ) (r r' : Reading)
    → Ticks s elapsed r r'
    → Passes s elapsed (sample s r) (sample s r')
unfolding sample
sample-Passes s elapsed r r' t =
    let measured = s.opened.cpu && s.clock_ok in
    let (c1, c2) =
      with_elapsed_mono measured s.cpu_used s.cpu_base t.before t.after elapsed t.cpu_passes
        t.cpu_slower t.cpu_word in
    let (w1, w2) =
      with_elapsed_mono s.opened.wall s.wall_used s.wall_base r.wall_now r'.wall_now elapsed
        t.wall_passes t.wall_elapsed t.wall_word in
    record {
      cpu_passes = rw (t.read, t.read_later) c1;
      wall_passes = w1;
      cpu_slower = rw (t.read, t.read_later) c2;
      wall_elapsed = w2;
      cpu_stands = λ e. rw (t.read, t.read_later) (ground arith);
      wall_stands = λ e. ground arith;
      readable = rw t.read_later (ground arith);
    }

saturated-le : (now n : ℕ) → saturated now n ≤ now + n
saturated-le now n = ground arith

floored-le : (floor n : ℕ) → floored floor n ≤ n + floor
floored-le floor n = ground arith

-- The three tests of `luaext_watch_deadline`.
tests_passed :
    (gone lost forever : Bool) (now x d : ℕ)
    → (if gone then none else if lost then some now else if forever then none else some x) ≡ some d
    → (gone ≡ false) × ((lost ≡ true) × (d ≡ now) ⊎ (d ≡ x))
tests_passed true lost forever now x d e = cc
tests_passed false true forever now x d e = (refl, inl (refl, cc))
tests_passed false false true now x d e = cc
tests_passed false false false now x d e = (refl, inr cc)

record Scheduled (floor : ℕ) (s : Slot) (r : Reading) (now d : ℕ) : Type 0 where
  pub live : (not s.armed || not (has_irq s.irq)) ≡ false
  pub at :
      ((sample s r).cpu_lost ≡ true) × (d ≡ now)
      ⊎ (d ≡ saturated now (floored floor (remaining_of s (sample s r))))

deadline-Scheduled :
    (floor : ℕ) (s : Slot) (r : Reading) (now d : ℕ)
    → deadline floor s r now ≡ some d
    → Scheduled floor s r now d
unfolding deadline
deadline-Scheduled floor s r now d e =
    let m = sample s r in
    let (g, at) = tests_passed _ _ _ now _ d e in record { live = ground (arith, g); at = at }

pub evaluate-verdict :
    (s : Slot) (r : Reading)
    → (not s.armed || not (has_irq s.irq)) ≡ false
    → evaluate s r ≡ trip s (verdict s (sample s r))
unfolding evaluate
evaluate-verdict s r e = rw (e, evaluate) refl

trip-none : (s : Slot) (v : Option Reason) → (trip s v).0 ≡ false → v ≡ none
trip-none s none e = refl
trip-none s (some reason) e = cc

trip-some : (s : Slot) (v : Option Reason) → (trip s v).0 ≡ true → v ≢ none
trip-some s none e = cc
trip-some s (some reason) e = λ f. cc

-- A slot that does not trip at one reading of the clocks and is given a deadline for it, but trips
-- at a later reading while nothing else has been done to it, has its deadline at most the floor
-- after that, counted from the instant that the deadline was computed from; where the CPU clock
-- can be read, neither clock runs back, CPU time runs no faster than wall time and no sum wraps.
pub deadline_in_time :
    (floor : ℕ) (s : Slot) (r r' : Reading) (now elapsed d : ℕ)
    → (evaluate s r).0 ≡ false
    → deadline floor s r now ≡ some d
    → Ticks s elapsed r r'
    → (evaluate s r').0 ≡ true
    → d ≤ now + elapsed + floor
deadline_in_time floor s r r' now elapsed d quiet e t trips =
    let k = deadline-Scheduled floor s r now d e in
    let w =
      verdict-none s (sample s r) (
        trip-none s _
          (sym (ap (λ (x : Bool × Slot). x.0) (evaluate-verdict s r k.live)) ∙ quiet)) in
    let over =
      trip-some s _ (sym (ap (λ (x : Bool × Slot). x.0) (evaluate-verdict s r' k.live)) ∙ trips) in
    let left = remaining_in_time s _ _ elapsed w over (sample-Passes s elapsed r r' t) in
    elim k.at [
      | inl (lost, now_) ↦ omega arith
      | inr later ↦ omega (
        arith,
        later,
        saturated-le now (floored floor (remaining_of s (sample s r))),
        floored-le floor (remaining_of s (sample s r)),
        left,
      )
    ]
