-- ===== src/Require.antt =====
-- Module loading: src/luaext_require.c. What a loader does is a tree of the calls that it makes,
-- each with what it goes on with; a script can also write into package.loaded and package.preload.
pub mod Rules
pub mod Balance
pub mod Bounds
pub mod Depth
pub mod Search
mod Tests
use lua_ext.Base.{
  ℕ, zero, suc, ◌+◌, ◌-◌, ◌*◌, ◌%◌, ◌^◌, Bool, true, false, not, ◌&&◌, ◌||◌, Option, none, some,
  List, [], ◌∷◌, ◌++◌, ltb, leb, ◌==◌, length, if◌then◌else◌,
}
use lua_ext.Base.Bytes.{same_bytes}

abbrev pub Name : Type 0
Name = List ℕ

-- What is raised: by luaext_require.c, by Lua when memory or its stack of C calls ends, and by a
-- script, caught or not.
pub data Raised : Type 0 where
  bad_name circular too_deep too_many not_found out_of_memory : Raised
  lua_memory c_stack_full : Raised
  script_error fatal_error : ℕ → Raised

-- Whether a script cannot catch it.
unfoldable pub is_fatal : Raised → Bool
is_fatal bad_name = false
is_fatal circular = false
is_fatal too_deep = true
is_fatal too_many = true
is_fatal not_found = false
is_fatal out_of_memory = true
is_fatal lua_memory = true
is_fatal c_stack_full = false
is_fatal (script_error n) = false
is_fatal (fatal_error n) = true

-- What a call comes back with; `returned none` is nil.
pub data Outcome : Type 0 where
  returned : Option ℕ → Outcome
  raised : Raised → Outcome

pub data Code : Type 0 where
  finish : Outcome → Code
  requires : Name → (Outcome → Code) → Code
  assign_loaded : Name → Option ℕ → Code → Code
  preloads : Name → Code → Code → Code
  unpreloads : Name → Code → Code

-- What the file system and the resolver answer to a search.
pub data Found : Type 0 where
  code : Code → Found
  missing : Found
  failing : Raised → Found

-- The limits; what a search that preload does not answer comes back with, by how many there were; and
-- whether Lua has memory for what luaext_require.c pushes at one place, by how often it did.
pub record Policy : Type 0 where
  pub max_modules : ℕ
  pub max_require_depth : ℕ
  pub locate : ℕ → Name → Found
  pub has_memory : ℕ → Bool

-- The registry's tables, and the fields of `luaext_sandbox`.
pub record Modules : Type 0 where
  pub loaded : Name → Option ℕ
  pub loading : Name → Bool
  pub preload : Name → Option Code
  pub require_depth : ℕ
  pub modules_loaded : ℕ
  pub searches : ℕ
  pub pushes : ℕ

-- LUAEXT_REQUIRE_MAX_NAME
abbrev pub max_name : ℕ
max_name = 128

abbrev pub is_between : ℕ → ℕ → ℕ → Bool
is_between low high c = leb low c && leb c high

abbrev pub is_name_byte : ℕ → Bool
is_name_byte c =
    is_between b'A' b'Z' c
    || is_between b'a' b'z' c
    || is_between b'0' b'9' c
    || c == b'_'
    || c == b'.'
    || c == b'-'

abbrev pub starts_with_dot : Name → Bool
starts_with_dot [] = false
starts_with_dot (c ∷ cs) = c == b'.'

-- The loop of `luaext_require_name_ok`
unfoldable pub name_bytes_ok : Name → Bool
name_bytes_ok [] = true
name_bytes_ok (c ∷ cs) =
    let rest = name_bytes_ok cs in
    if not (is_name_byte c) then false else if c == b'.' && starts_with_dot cs then false else rest

-- `luaext_require_name_ok`
unfoldable pub name_ok : Name → Bool
name_ok name = if length name == 0 || ltb max_name (length name) then false else name_bytes_ok name

abbrev pub set_loaded : Name → Option ℕ → Modules → Modules
set_loaded name v s = record s { loaded = λ n. if same_bytes n name then v else s.loaded n }

abbrev pub set_preload : Name → Option Code → Modules → Modules
set_preload name v s = record s { preload = λ n. if same_bytes n name then v else s.preload n }

abbrev pub counted : Modules → Modules
counted s = record s { modules_loaded = (s.modules_loaded + 1) % 2 ^ 64 }

abbrev pub searched : Modules → Modules
searched s = record s { searches = suc s.searches }

abbrev pub pushed : Modules → Modules
pushed s = record s { pushes = suc s.pushes }

-- Marking a load as in progress and going in, with a 32-bit depth.
unfoldable pub enter : Name → Modules → Modules
enter name s = record s {
  loading = λ n. if same_bytes n name then true else s.loading n;
  require_depth = (s.require_depth + 1) % 2 ^ 32;
}

-- Coming out, and taking the mark away.
unfoldable pub shallower : Modules → Modules
shallower s = record s { require_depth = (s.require_depth + 2 ^ 32 - 1) % 2 ^ 32 }

unfoldable pub clear_mark : Name → Modules → Modules
clear_mark name s = record s { loading = λ n. if same_bytes n name then false else s.loading n }

-- LUA_ERRMEM is raised again as a memory limit that no script can catch.
abbrev pub raised_again : Raised → Raised
raised_again lua_memory = out_of_memory
raised_again bad_name = bad_name
raised_again circular = circular
raised_again too_deep = too_deep
raised_again too_many = too_many
raised_again not_found = not_found
raised_again out_of_memory = out_of_memory
raised_again c_stack_full = c_stack_full
raised_again (script_error n) = script_error n
raised_again (fatal_error n) = fatal_error n

abbrev pub Call : Type 0
Call = Name → Modules → Outcome × Modules

-- What a script sees of a call of require: no error that is fatal.
abbrev pub resumed : (Outcome → Modules → Outcome × Modules) → Outcome × Modules → Outcome × Modules
resumed next (returned v, s) = next (returned v) s
resumed next (raised e, s) = if is_fatal e then (raised e, s) else next (raised e) s

-- Running a loader, with require as an argument.
unfoldable pub run_code : Call → Code → Modules → Outcome × Modules
run_code req (finish o) s = (o, s)
run_code req (requires name k) s = resumed (λ o t. run_code req (k o) t) (req name s)
run_code req (assign_loaded name v k) s = run_code req k (set_loaded name v s)
run_code req (preloads name c k) s = run_code req k (set_preload name (some c) s)
run_code req (unpreloads name k) s = run_code req k (set_preload name none s)

-- A loader that answers nil makes the module `true`.
abbrev pub module_value : Option ℕ → ℕ
module_value none = 1
module_value (some v) = v

-- Pushes that are not under a protected call: LUA_ERRMEM leaves the rest undone.
abbrev pub pushing : Policy → (Modules → Outcome × Modules) → Modules → Outcome × Modules
pushing P rest s = if P.has_memory s.pushes then rest (pushed s) else (raised lua_memory, pushed s)

-- The depth goes down before the pushes that take the mark away.
abbrev pub left : Policy → Name → (Modules → Outcome × Modules) → Modules → Outcome × Modules
left P name rest s = pushing P (λ t. rest (clear_mark name t)) (shallower s)

-- The end of `luaext_require_call`, after the loader
abbrev pub concluded : Policy → Name → Outcome × Modules → Outcome × Modules
concluded P name (returned v, s) =
    left P name
      (pushing P λ t.
        (returned (some (module_value v)), counted (set_loaded name (some (module_value v)) t)))
      s
concluded P name (raised e, s) = left P name (λ t. (raised (raised_again e), t)) s

-- After the search of `luaext_require_search`
abbrev pub found_loader : Policy → Call → Name → Modules → Found → Outcome × Modules
found_loader P req name s (code c) = pushing P (λ t. concluded P name (run_code req c t)) s
found_loader P req name s missing = left P name (λ t. (raised not_found, t)) s
found_loader P req name s (failing e) = left P name (λ t. (raised (raised_again e), t)) s

abbrev pub load_preloaded : Policy → Call → Name → Modules → Option Code → Outcome × Modules
load_preloaded P req name s (some c) = found_loader P req name s (code c)
load_preloaded P req name s none = found_loader P req name (searched s) (P.locate s.searches name)

-- `luaext_require_search`, in a protected call: for its pushes too, LUA_ERRMEM is caught.
abbrev pub search_module : Policy → Call → Name → Modules → Outcome × Modules
search_module P req name s =
    if P.has_memory s.pushes
    then load_preloaded P req name (pushed s) (s.preload name)
    else found_loader P req name (pushed s) (failing lua_memory)

-- From the mark on
unfoldable pub load_module : Policy → Call → Name → Modules → Outcome × Modules
load_module P req name s = pushing P (search_module P req name) (enter name s)

-- The guards of `luaext_require_call`, in order
unfoldable pub guarded : Policy → Call → Name → Modules → Outcome × Modules
guarded P req name s =
    if s.loading name
    then (raised circular, s)
    else if not (P.max_require_depth == 0) && leb P.max_require_depth s.require_depth
    then (raised too_deep, s)
    else if not (P.max_modules == 0) && leb P.max_modules s.modules_loaded
    then (raised too_many, s)
    else pushing P (load_module P req name) s

abbrev pub unless_loaded : Option ℕ → Modules → Outcome × Modules → Outcome × Modules
unless_loaded (some v) s rest = (returned (some v), s)
unless_loaded none s rest = rest

-- `luaext_require_call` behind the test of the name
abbrev pub require_named : Policy → Call → Name → Modules → Outcome × Modules
require_named P req name =
    pushing P λ s. unless_loaded (s.loaded name) s (pushing P (guarded P req name) s)

-- `luaext_require_call`, by the C calls that Lua's stack still has room for
unfoldable pub require_call : Policy → ℕ → Call
require_call P zero name s = (raised c_stack_full, s)
require_call P (suc room) name s =
    if name_ok name then require_named P (require_call P room) name s else (raised bad_name, s)
