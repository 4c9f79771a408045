-- ===== src/Require/Depth.antt =====
-- How much of the stack of C calls nested calls of require take.
use lua_ext.Base.{ℕ, ◌≤◌, ◌≡◌}
use lua_ext.Require.{Name, Modules, Call}
use lua_ext.Require.Bounds.{Deepens}

-- Two ways to answer a call of require that are the same from a depth on.
abbrev AgreeFrom : ℕ → ℕ → Call → Call → Type 0
AgreeFrom top d req req' =
    (name : Name) (s : Modules)
    → s.require_depth ≤ top
    → d ≤ s.require_depth
    → req name s ≡ req' name s

abbrev GoesDeep : ℕ → Call → Type 0
GoesDeep top req =
    (name : Name) (s : Modules) → s.require_depth ≤ top → Deepens top s (req name s).1
