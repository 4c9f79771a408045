-- ===== src/Defer/Measures.antt =====
-- What is still to come of a queue: the references in it and in the destructors of its items.
use lua_ext.Base.{ℕ, ◌+◌, ◌≤◌, ◌≡◌, arith, List, [], ◌∷◌, ◌++◌, ◌==◌, if◌then◌else◌}
use Prim.Native.Nat.{max}
use lua_ext.Base.Counts.{occurrences}
use lua_ext.Defer.{Script, done, defers, drains, Item, Deferred, has_reference}

-- How many items a script defers in all, with those of the destructors in it.
abbrev pub script_weight : Script → ℕ
script_weight done = 0
script_weight (defers kind n d e) = 1 + script_weight d + script_weight e
script_weight (drains e) = script_weight e

abbrev pub weight : List Item → ℕ
weight [] = 0
weight (i ∷ is) = 1 + script_weight i.destructor + weight is

-- How often a reference is to be released.
abbrev pub owed_by : ℕ → Script → ℕ
owed_by m done = 0
owed_by m (defers kind n d e) =
    (if has_reference kind then (if n == m then 1 else 0) + owed_by m d else 0) + owed_by m e
owed_by m (drains e) = owed_by m e

abbrev pub owed_item : ℕ → Item → ℕ
owed_item m i =
    if has_reference i.kind then (if i.ref == m then 1 else 0) + owed_by m i.destructor else 0

abbrev pub owed : ℕ → List Item → ℕ
owed m [] = 0
owed m (i ∷ is) = owed_item m i + owed m is

-- How many destructors defer each other in a row.
abbrev pub height : Script → ℕ
height done = 0
height (defers kind n d e) = max (1 + height d) (height e)
height (drains e) = height e

abbrev pub tallest : List Item → ℕ
tallest [] = 0
tallest (i ∷ is) = max (1 + height i.destructor) (tallest is)

-- Released already, or owed.
abbrev pub held : ℕ → Deferred → ℕ
held m s = owed m s.items + occurrences m s.released

pub weight_snoc :
    (is : List Item) (i : Item) → weight (is ++ i ∷ []) ≡ weight is + 1 + script_weight i.destructor
weight_snoc [] i = omega arith
weight_snoc (x ∷ is) i = omega (arith, weight_snoc is i)

pub owed_snoc :
    (m : ℕ) (is : List Item) (i : Item) → owed m (is ++ i ∷ []) ≡ owed m is + owed_item m i
owed_snoc m [] i = omega arith
owed_snoc m (x ∷ is) i = omega (arith, owed_snoc m is i)

pub tallest_snoc :
    (is : List Item) (i : Item) (b : ℕ)
    → tallest is ≤ b
    → 1 + height i.destructor ≤ b
    → tallest (is ++ i ∷ []) ≤ b
tallest_snoc [] i b low h = omega arith
tallest_snoc (x ∷ is) i b low h = omega (arith, tallest_snoc is i b (omega (arith, low)) h, low)
