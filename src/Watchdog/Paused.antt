-- ===== src/Watchdog/Paused.antt =====
-- What a pause bills, and that nothing runs while it lasts (src/luaext_watchdog.c).
use lua_ext.Base.{
  ℕ, ◌≡◌, ◌∙◌, sym, refl, Bool, true, false, not, Option, none, some, if◌then◌else◌, arith, inl,
  inr, Bool-cases,
}
use lua_ext.Watchdog.{Slot, Mask, Reading, sample, sample_cpu, close_segments}
use lua_ext.Watchdog.Control.{Times, pause}

sample_cpu_closed : (used base : ℕ) (now : Option ℕ) → sample_cpu false used base now ≡ used
sample_cpu_closed used base none = refl
sample_cpu_closed used base (some now) = refl

if_not : (b : Bool) (x y : ℕ) → b ≡ false → (if not b then x else y) ≡ x
if_not true x y e = cc
if_not false x y e = refl

pause_cpu :
    (mask : Mask) (t : Times) (s : Slot) (r : Reading)
    → mask.cpu ≡ true
    → (sample s t.at_open).cpu_lost ≡ false
    → (sample (pause mask t s) r).cpu ≡ (sample s t.at_open).cpu
unfolding pause close_segments sample
pause_cpu mask t s r m l = elim (Bool-cases s.opened.cpu) [
  | inl o ↦ simp (m, o) (sample_cpu_closed _ s.cpu_base r.cpu_now ∙ if_not _ _ _ (simp o at l))
  | inr o ↦
      simp (m, o)
        (sample_cpu_closed _ s.cpu_base r.cpu_now
          ∙ sym (sample_cpu_closed _ s.cpu_base t.at_open.cpu_now))
]

pause_wall :
    (mask : Mask) (t : Times) (s : Slot) (r : Reading)
    → mask.wall ≡ true
    → (sample (pause mask t s) r).wall ≡ (sample s t.at_open).wall
unfolding pause close_segments sample
pause_wall mask t s r m = ground (arith, m)

-- From a pause on, whatever the clocks answer later, a paused segment reports what it had spent at
-- the pause: the CPU time if its clock could be read then, and the wall time.
pub pause_stands :
    (mask : Mask) (t : Times) (s : Slot) (r : Reading)
    → (mask.cpu ≡ true
        → (sample s t.at_open).cpu_lost ≡ false
        → (sample (pause mask t s) r).cpu ≡ (sample s t.at_open).cpu)
      × (mask.wall ≡ true → (sample (pause mask t s) r).wall ≡ (sample s t.at_open).wall)
pause_stands mask t s r = (pause_cpu mask t s r, pause_wall mask t s r)
