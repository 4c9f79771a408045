-- ===== src/Require/Search.antt =====
-- The search for a module: the part of src/luaext_require.c between a name and a compiled chunk.
-- The file system, sealing and the canonical form of paths are the other modules' own; the compiler
-- of Lua and the host's resolver are parameters.
pub mod Vouched
pub mod Confined
pub mod Asked
mod Tests
use lua_ext.Base.{
  ℕ, ◌+◌, ◌*◌, ◌%◌, ◌^◌, Bool, true, false, not, ◌&&◌, ◌||◌, Option, none, some, List, [], ◌∷◌,
  ◌++◌, ltb, ◌==◌, length, if◌then◌else◌,
}
use lua_ext.Vfs.{Bytes, Error, Outcome, done, refused, failed, raised, Reply, Env, Sandbox, call}
use lua_ext.VfsPath.{Answer, ok, canonical}
use lua_ext.Seal.{Hashes, Algo, is_sealed, seal_open}
use lua_ext.Require.{Name}

-- The errors of `luaext_require_load` and of its callers. A script can catch each of them.
pub data LoadError : Type 0 where
  no_capability unverified unsealed too_big uncompiled : LoadError
  no_string too_long_reply no_resolve no_source : LoadError

-- What a `ModuleResolver` comes back with: an exception, null, or a `ModuleSource`, whose two strings
-- are `none` where they are none, with its flag.
pub data Resolved : Type 0 where
  throws : Resolved
  provides_none : Resolved
  provides : Option (Bytes × Bytes) → Bool → Resolved

-- `module_resolver_zv`: no object, one without `resolve`, or one that is called with the name and
-- who is asking.
pub data Resolver (B : Type 0) : Type 0 where
  absent : Resolver B
  methodless : Resolver B
  resolver : (Bytes → Bytes → B → Resolved × B) → Resolver B

-- What is configured; `module_paths` is `none` where it is no array, an entry where it is no string,
-- and `compile` is `luaL_loadbufferx`, told whether binary chunks are let in, the code and its name,
-- of which it reads what stands before a NUL.
pub record Setup (B C : Type 0) : Type 1 where
  pub module_paths : Option (List (Option Bytes))
  pub module_resolver : Resolver B
  pub can_load_bytecode : Bool
  pub allow_raw_bytecode : Bool
  pub max_source_bytes : ℕ
  pub hashes : Hashes
  pub seal_mode : Algo
  pub bytecode_key : Bytes
  pub compile : Bool → Bytes → Bytes → Option C

pub data Loaded (C : Type 0) : Type 0 where
  loaded : C → Loaded C
  load_failed : LoadError → Loaded C

-- How a search ends: `stopped` is a raise out of the file system, `pending` an exception of the host,
-- or a VfsError without a message, which leaves no exception behind.
pub data Searched (C : Type 0) : Type 0 where
  found : C → Searched C
  not_here : Searched C
  pending : Searched C
  stopped : Error → Searched C
  load_error : LoadError → Searched C

-- LUAEXT_VFS_PATH_MAX_INPUT
abbrev pub max_input : ℕ
max_input = 8192

abbrev pub mark : ℕ
mark = b'?'

-- The loop that counts the marks of a pattern.
unfoldable pub marks : Bytes → ℕ
marks [] = 0
marks (c ∷ cs) = (if c == mark then 1 else 0) + marks cs

-- The loop that writes the expansion.
unfoldable pub substitute : Name → Bytes → Bytes
substitute name [] = []
substitute name (c ∷ cs) =
    let rest = substitute name cs in if c == mark then name ++ rest else c ∷ rest

-- `luaext_require_expand`
unfoldable pub expand : Bytes → Name → Option Bytes
expand pattern name =
    if ltb max_input ((length pattern + marks pattern * length name) % 2 ^ 64)
    then none
    else some (substitute name pattern)

abbrev pub loaded_from : {C : Type 0} → Option C → Loaded C
loaded_from none = load_failed uncompiled
loaded_from (some c) = loaded c

module _ {B C : Type 0} (S : Setup B C) where
  -- The end of `luaext_require_load`, on what is vouched for.
  abbrev pub compiled : Bool → Bytes → Bytes → Loaded C
  compiled binary name code =
      if not (S.max_source_bytes == 0) && ltb S.max_source_bytes (length code)
      then load_failed too_big
      else loaded_from (S.compile binary code name)

  abbrev pub opened : Bytes → Option Bytes → Loaded C
  opened name none = load_failed unverified
  opened name (some payload) = compiled true name payload

  -- `luaext_require_load`
  unfoldable pub require_load : Bytes → Bytes → Bool → Loaded C
  require_load code name false = compiled false name code
  require_load code name true =
      if not S.can_load_bytecode
      then load_failed no_capability
      else if is_sealed code
      then opened name (seal_open S.hashes code S.seal_mode S.bytecode_key)
      else if S.allow_raw_bytecode
      then compiled true name code
      else load_failed unsealed

  abbrev pub searched_as : Loaded C → Searched C
  searched_as (loaded c) = found c
  searched_as (load_failed e) = load_error e

  module _ {W : Type 0} (E : Env W B) where
    abbrev pub Search : Type 0
    Search = Sandbox W B → Searched C × Sandbox W B

    abbrev is_too_long : Bytes → Bool
    is_too_long b = not (E.max_string_length == 0) && ltb E.max_string_length (length b)

    -- After the call of `read`
    abbrev pub after_read :
        Bytes → Search → Outcome (Option Bytes) × Sandbox W B → Searched C × Sandbox W B
    after_read path next (done none, s) = (load_error no_string, s)
    after_read path next (done (some b), s) = (
      if is_too_long b
          then load_error too_long_reply
          else searched_as (require_load b (b'@' ∷ path) false),
      s,
    )
    after_read path next (refused, s) = next s
    after_read path next (failed, s) = (pending, s)
    after_read path next (raised e, s) = (stopped e, s)

    -- After the call of `exists`
    abbrev pub after_exists : Bytes → Search → Outcome Bool × Sandbox W B → Searched C × Sandbox W B
    after_exists path next (done true, s) = after_read path next (call E true (E.host.read path) s)
    after_exists path next (done false, s) = next s
    after_exists path next (refused, s) = next s
    after_exists path next (failed, s) = (pending, s)
    after_exists path next (raised e, s) = (stopped e, s)

    abbrev pub probe : Answer → Search → Search
    probe (ok path) next s = after_exists path next (call E true (E.host.exists path) s)
    probe _ next s = next s

    -- A pattern's expansion, tried.
    abbrev pub try_expanded : Option Bytes → Search → Search
    try_expanded none next = next
    try_expanded (some x) next =
        probe (canonical x (length x + 2) E.quota.max_path_length E.quota.max_path_depth) next

    abbrev pub try_entry : Name → Option Bytes → Search → Search
    try_entry name none next = next
    try_entry name (some pattern) next = try_expanded (expand pattern name) next

    -- The loop of `luaext_require_search_vfs`
    unfoldable pub try_all : Name → List (Option Bytes) → Search
    try_all name [] s = (not_here, s)
    try_all name (e ∷ es) s = try_entry name e (try_all name es) s

    abbrev pub along : Name → Option (List (Option Bytes)) → Search
    along name none s = (not_here, s)
    along name (some es) s = try_all name es s

    -- `luaext_require_search_vfs`
    unfoldable pub search_vfs : Name → Search
    search_vfs name s = if not E.available then (not_here, s) else along name S.module_paths s

    abbrev pub from_resolver : Resolved × B → Search
    from_resolver (throws, b) s = (pending, record s { backend = b })
    from_resolver (provides_none, b) s = (not_here, record s { backend = b })
    from_resolver (provides none is_bytecode, b) s =
        (load_error no_source, record s { backend = b })
    from_resolver (provides (some (code, chunk_name)) is_bytecode, b) s = (
      if is_too_long code || is_too_long chunk_name
          then load_error too_long_reply
          else searched_as (require_load code chunk_name is_bytecode),
      record s { backend = b },
    )

    -- `luaext_require_ask_resolver`
    abbrev pub asked_resolver : Resolver B → Name → Bytes → Search
    asked_resolver absent name by s = (not_here, s)
    asked_resolver methodless name by s = (load_error no_resolve, s)
    asked_resolver (resolver f) name by s = from_resolver (f name by s.backend) s

    abbrev pub or_ask : Name → Bytes → Searched C × Sandbox W B → Searched C × Sandbox W B
    or_ask name by (not_here, s) = asked_resolver S.module_resolver name by s
    or_ask name by (found c, s) = (found c, s)
    or_ask name by (pending, s) = (pending, s)
    or_ask name by (stopped e, s) = (stopped e, s)
    or_ask name by (load_error e, s) = (load_error e, s)

    -- `luaext_require_search`, behind package.preload
    unfoldable pub search : Name → Bytes → Search
    search name by s = or_ask name by (search_vfs name s)
