-- ===== src/Require/Tests.antt =====
-- Runs of src/luaext_require.c.
use lua_ext.Base.{
  ℕ, ◌+◌, ◌≡◌, ◌≤◌, refl, false, none, some, [], not, ◌==◌, true, ◌∷◌, arith, if◌then◌else◌,
}
use lua_ext.Base.Bytes.{same_bytes}
use lua_ext.Require.{
  Name, bad_name, circular, too_deep, too_many, not_found, script_error, is_fatal, Outcome,
  returned, raised, Code, finish, requires, Found, code, missing, Policy, Modules, name_bytes_ok,
  name_ok, enter, shallower, clear_mark, run_code, load_module, guarded, require_call,
}
use lua_ext.Require.Balance.{require_call_keeps}
use lua_ext.Require.Bounds.{require_call_bounded}

abbrev as_module : Outcome → Code
as_module (returned v) = finish (returned (some 7))
as_module (raised e) = finish (raised e)

-- A loader that goes on, whatever its call came back with.
abbrev either_way : Outcome → Code
either_way o = finish (returned none)

-- `a` requires `b`, `c` requires itself, `d` raises an error, and `e`
-- requires `c` and goes on whatever happens.
abbrev example_files : Name → Found
example_files n =
    if same_bytes n (b'a' ∷ [])
    then code (requires (b'b' ∷ []) as_module)
    else if same_bytes n (b'b' ∷ [])
    then code (finish (returned none))
    else if same_bytes n (b'c' ∷ [])
    then code (requires (b'c' ∷ []) as_module)
    else if same_bytes n (b'd' ∷ [])
    then code (finish (raised (script_error 3)))
    else if same_bytes n (b'e' ∷ [])
    then code (requires (b'c' ∷ []) either_way)
    else missing

abbrev limits : ℕ → ℕ → Policy
limits modules depth = record {
  max_modules = modules;
  max_require_depth = depth;
  locate = λ i. example_files;
  has_memory = λ i. true;
}

abbrev fresh : Modules
fresh = record {
  loaded = λ n. none;
  loading = λ n. false;
  preload = λ n. none;
  require_depth = 0;
  modules_loaded = 0;
  searches = 0;
  pushes = 0;
}

abbrev answer : Policy → Name → Outcome
answer P name = (require_call P 5 name fresh).0

abbrev after : Policy → Name → Modules
after P name = (require_call P 5 name fresh).1

-- Both modules are loaded under a limit of one: the outer is counted when it is done.
nested_past_limit :
    (answer (limits 1 2) (b'a' ∷ []) ≡ returned (some 7))
    × ((after (limits 1 2) (b'a' ∷ [])).modules_loaded ≡ 2)
unfolding require_call name_ok name_bytes_ok guarded load_module enter shallower clear_mark run_code
    is_fatal
nested_past_limit = (refl, refl)

answered_again :
    (require_call (limits 1 2) 5 (b'b' ∷ []) (after (limits 1 2) (b'b' ∷ []))).0 ≡ returned (some 1)
unfolding require_call name_ok name_bytes_ok guarded load_module enter shallower clear_mark run_code
    is_fatal
answered_again = refl

second_refused :
    (require_call (limits 1 2) 5 (b'd' ∷ []) (after (limits 1 2) (b'b' ∷ []))).0 ≡ raised too_many
unfolding require_call name_ok name_bytes_ok guarded load_module enter shallower clear_mark run_code
    is_fatal
second_refused = refl

refused_names :
    (answer (limits 4 2) (b'a' ∷ b'.' ∷ b'.' ∷ []) ≡ raised bad_name)
    × (answer (limits 4 2) [] ≡ raised bad_name)
    × (answer (limits 4 2) (b'a' ∷ b'.' ∷ []) ≡ raised not_found)
unfolding require_call name_ok name_bytes_ok guarded load_module enter shallower clear_mark run_code
    is_fatal
refused_names = (refl, refl, refl)

itself :
    (answer (limits 4 2) (b'c' ∷ []) ≡ raised circular)
    × ((after (limits 4 2) (b'c' ∷ [])).loading (b'c' ∷ []) ≡ false)
    × (answer (limits 4 2) (b'e' ∷ []) ≡ returned (some 1))
unfolding require_call name_ok name_bytes_ok guarded load_module enter shallower clear_mark run_code
    is_fatal
itself = (refl, refl, refl)

nested_too_deep :
    (answer (limits 4 1) (b'a' ∷ []) ≡ raised too_deep)
    × ((after (limits 4 1) (b'a' ∷ [])).modules_loaded ≡ 0)
unfolding require_call name_ok name_bytes_ok guarded load_module enter shallower clear_mark run_code
    is_fatal
nested_too_deep = (refl, refl)

retried :
    (require_call (limits 4 2) 5 (b'd' ∷ []) (after (limits 4 2) (b'd' ∷ []))).0
    ≡ raised (script_error 3)
unfolding require_call name_ok name_bytes_ok guarded load_module enter shallower clear_mark run_code
    is_fatal
retried = refl

-- No memory for the fourth pushes, which stand behind the mark: the mark and the depth stay, and the
-- module cannot be loaded again.
abbrev tight : Policy
tight = record (limits 4 2) { has_memory = λ i. not (i == 3) }

mark_left :
    ((after tight (b'b' ∷ [])).require_depth ≡ 1)
    × ((require_call tight 5 (b'b' ∷ []) (after tight (b'b' ∷ []))).0 ≡ raised circular)
unfolding require_call name_ok name_bytes_ok guarded load_module enter shallower clear_mark run_code
    is_fatal
mark_left = (refl, refl)

require_call_keeps_example :
    ((after (limits 4 2) (b'd' ∷ [])).require_depth ≡ 0)
    × ((n : Name) → (after (limits 4 2) (b'd' ∷ [])).loading n ≡ false)
require_call_keeps_example =
    require_call_keeps (limits 4 2) (λ i. refl) 5 (b'd' ∷ []) fresh (omega arith)

require_call_bounded_example :
    (after (limits 1 2) (b'a' ∷ [])).modules_loaded + (after (limits 1 2) (b'a' ∷ [])).require_depth
    ≤ 2
require_call_bounded_example =
    require_call_bounded (limits 1 2) (omega arith) (omega arith) (omega arith) (omega arith) 5
      (b'a' ∷ []) fresh (omega arith) (omega arith)
