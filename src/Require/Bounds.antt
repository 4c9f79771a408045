-- ===== src/Require/Bounds.antt =====
-- How many modules a sandbox loads, and how deep require goes, also where memory runs out.
use lua_ext.Base.{ℕ, ◌+◌, ◌-◌, ◌≤◌, ◌<◌, ◌^◌, ◌≡◌, arith}
use lua_ext.Require.{Name, Policy, Modules, enter, shallower, clear_mark, require_call}
use lua_ext.Require.Rules.{Admits, Rules, require_call-Goes}

-- No deeper than `top`.
abbrev pub IsWithin : ℕ → Modules → Type 0
IsWithin top s = s.require_depth ≤ top

-- No less deep, and no deeper than `top`.
abbrev pub Deepens : ℕ → Modules → Modules → Type 0
Deepens top s t = (s.require_depth ≤ t.require_depth) × (t.require_depth ≤ top)

module _ (P : Policy) (top : ℕ) (some_depth : 1 ≤ P.max_require_depth)
    (depth_top : P.max_require_depth ≤ top) (word : top < 2 ^ 32) where
  pub depth-admitted :
      (name : Name) (s : Modules) → Admits P name s → s.require_depth + 1 ≤ P.max_require_depth
  depth-admitted name s a = ground (arith, a.shallow, some_depth)

  pub depth-enter :
      (name : Name) (s : Modules)
      → Admits P name s
      → (enter name s).require_depth ≡ s.require_depth + 1
  unfolding enter
  depth-enter name s a = omega (arith, depth-admitted name s a, depth_top, word)

  depth-shallower :
      (name : Name) (s t : Modules)
      → Admits P name s
      → Deepens top (enter name s) t
      → (shallower t).require_depth + 1 ≡ t.require_depth
  unfolding shallower
  depth-shallower name s t a (d, low) = omega (arith, d, low, depth-enter name s a)

  shallower-Deepens :
      (name : Name) (s t : Modules)
      → Admits P name s
      → Deepens top (enter name s) t
      → Deepens top s (shallower t)
  shallower-Deepens name s t a (d, low) =
      omega (arith, d, low, depth-enter name s a, depth-shallower name s t a (d, low))

  enter-Deepens :
      (name : Name) (s t : Modules)
      → Admits P name s
      → Deepens top (enter name s) t
      → Deepens top s t
  enter-Deepens name s t a (d, low) = omega (arith, d, low, depth-enter name s a)

  pub Deepens-Rules : Rules P (IsWithin top) (Deepens top)
  unfolding clear_mark
  Deepens-Rules = record {
    blind = λ s t low (d, l, m). omega (arith, d, low);
    chain = λ s t u (d, low) (d', low'). omega (arith, d, d', low');
    reaches = λ s t low (d, low'). low';
    entered = λ name s low a.
        omega (arith, depth-enter name s a, depth-admitted name s a, depth_top, word);
    abandoned = λ name s t i low a no_memory r. enter-Deepens name s t a r;
    half_left = λ name s t i low a no_memory r. shallower-Deepens name s t a r;
    left_all = λ name s t low a r. shallower-Deepens name s t a r;
    loaded_one = λ name s t low a r. shallower-Deepens name s t a r;
  }

  module _ (some_modules : 1 ≤ P.max_modules) (modules_word : P.max_modules < 2 ^ 32) where
    -- Modules loaded and depth together within the two limits, and no less deep.
    abbrev Fits : Modules → Modules → Type 0
    Fits s t =
        Deepens top s t
        × (s.modules_loaded + s.require_depth ≤ P.max_modules - 1 + P.max_require_depth
            → t.modules_loaded + t.require_depth ≤ P.max_modules - 1 + P.max_require_depth)

    depth_modules :
        (name : Name) (s t : Modules)
        → Admits P name s
        → Fits (enter name s) t
        → t.modules_loaded + t.require_depth ≤ P.max_modules - 1 + P.max_require_depth
    unfolding enter
    depth_modules name s t a (d, f) =
        let few : s.modules_loaded + 1 ≤ P.max_modules = ground (arith, a.few, some_modules) in
        let shallow = depth-admitted name s a in f (omega (arith, few, shallow, depth_top, word))

    Fits-Rules : Rules P (IsWithin top) Fits
    unfolding clear_mark shallower
    Fits-Rules = record {
      blind =
          λ s t low (d, l, m). (Deepens-Rules.blind s t low (d, l, m), λ f. omega (arith, d, m, f));
      chain = λ s t u (d, f) (d', f'). (Deepens-Rules.chain s t u d d', λ x. f' (f x));
      reaches = λ s t low (d, f). d.1;
      entered = Deepens-Rules.entered;
      abandoned = λ name s t i low a no_memory (d, f).
          (enter-Deepens name s t a d, λ x. depth_modules name s t a (d, f));
      half_left = λ name s t i low a no_memory (d, f). (
        shallower-Deepens name s t a d,
        λ x. omega (arith, depth_modules name s t a (d, f), depth-shallower name s t a d),
      );
      left_all = λ name s t low a (d, f). (
        shallower-Deepens name s t a d,
        λ x. omega (arith, depth_modules name s t a (d, f), depth-shallower name s t a d),
      );
      loaded_one = λ name s t low a (d, f). (
        shallower-Deepens name s t a d,
        λ x. omega (
          arith,
          depth_modules name s t a (d, f),
          depth-shallower name s t a d,
          modules_word,
          depth_top,
          word,
        ),
      );
    }

module _ (P : Policy) (some_modules : 1 ≤ P.max_modules) (modules_word : P.max_modules < 2 ^ 32)
    (some_depth : 1 ≤ P.max_require_depth) (depth_word : P.max_require_depth < 2 ^ 32) where
  -- Under limits on modules and on depth that are 32-bit numbers and not 0, with the modules
  -- loaded and the depth together at most one less than the two limits together: a call of require
  -- keeps that bound, whatever the loaders do and wherever memory runs out for its own pushes, so
  -- a sandbox never loads more modules than that.
  pub require_call_bounded :
      (room : ℕ) (name : Name) (s : Modules)
      → s.require_depth < 2 ^ 32
      → s.modules_loaded + s.require_depth ≤ P.max_modules - 1 + P.max_require_depth
      → ((require_call P room name s).1).modules_loaded
          + ((require_call P room name s).1).require_depth
        ≤ P.max_modules - 1 + P.max_require_depth
  require_call_bounded room name s low fits =
      let top = 2 ^ 32 - 1 in
      let deep : P.max_require_depth ≤ top = omega (arith, depth_word) in
      let word : top < 2 ^ 32 = omega arith in
      (require_call-Goes P (IsWithin top) _
          (Fits-Rules P top some_depth deep word some_modules modules_word) room name s
          (omega (arith, low))).1
        fits
