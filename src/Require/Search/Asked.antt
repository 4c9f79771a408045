-- ===== src/Require/Search/Asked.antt =====
-- What a search asks of the host's backend.
use lua_ext.Base.{
  ℕ, ◌+◌, ◌≡◌, ◌⊎◌, refl, sym, ap, ◌∙◌, Bool, true, false, not, ◌&&◌, Option, none, some, List, [],
  ◌∷◌, length, if◌then◌else◌, arith, inl, inr,
}
use lua_ext.Vfs.{Bytes, Outcome, done, refused, failed, raised, Reply, Host, Env, Sandbox, call}
use lua_ext.VfsPath.{Answer, ok, out_of_fuel, canonical}
use lua_ext.VfsPath.Canonical.{IsCanonical, canonical-IsCanonical}
use lua_ext.Require.{Name, name_ok}
use lua_ext.Require.Search.Confined.{IsUnder, is_sound, expand_confined}
use lua_ext.Require.Search.{
  Setup, Searched, Search, after_read, after_exists, probe, try_expanded, try_all, along,
  search_vfs, search, or_ask, expand, found, not_here, pending, stopped, load_error, Resolved,
  throws, provides_none, provides, Resolver, absent, methodless, resolver, from_resolver,
  asked_resolver,
}

-- The same environment with another backend.
abbrev pub with_host : {W B : Type 0} → Env W B → Host B → Env W B
with_host E host = record {
  quota = E.quota;
  max_string_length = E.max_string_length;
  available = E.available;
  may_write = E.may_write;
  ranged = E.ranged;
  budget = E.budget;
  host = host;
}

-- Two backends that say the same of whether a path exists and of what it holds.
abbrev pub AgreesAt : {B : Type 0} → Host B → Host B → Bytes → Type 0
AgreesAt host host' path =
    (host.exists path ≡ host'.exists path) × (host.read path ≡ host'.read path)

-- A canonical path within the quotas, under the directory of a pattern of the list.
abbrev pub IsSearched : ℕ → ℕ → List (Option Bytes) → Bytes → Type 0
IsSearched ml md [] path = ⊥
IsSearched ml md (none ∷ es) path = IsSearched ml md es path
IsSearched ml md (some pattern ∷ es) path =
    (IsCanonical ml md path × IsUnder pattern path) ⊎ IsSearched ml md es path

abbrev pub all_sound : List (Option Bytes) → Bool
all_sound [] = true
all_sound (none ∷ es) = all_sound es
all_sound (some pattern ∷ es) = is_sound pattern && all_sound es

module _ {W B C : Type 0} (S : Setup B C) (E : Env W B) (host : Host B) where
  call-host :
      {A : Type 0} (f g : B → Reply A × B) (s : Sandbox W B)
      → f ≡ g
      → call E true f s ≡ call (with_host E host) true g s
  unfolding call lua_ext.Vfs.charge_operation
  call-host f g s e = ap (λ f. call E true f s) e

  after_read-host :
      (path : Bytes) (next : Search S E) (next' : Search S (with_host E host))
      → (r : Outcome (Option Bytes) × Sandbox W B) → ((s : Sandbox W B) → next s ≡ next' s)
      → after_read S E path next r ≡ after_read S (with_host E host) path next' r
  after_read-host path next next' (done none, s) same = refl
  after_read-host path next next' (done (some b), s) same = refl
  after_read-host path next next' (refused, s) same = same s
  after_read-host path next next' (failed, s) same = refl
  after_read-host path next next' (raised e, s) same = refl

  after_exists-host :
      (path : Bytes) (next : Search S E) (next' : Search S (with_host E host))
      → (r : Outcome Bool × Sandbox W B) → AgreesAt E.host host path
      → ((s : Sandbox W B) → next s ≡ next' s)
      → after_exists S E path next r ≡ after_exists S (with_host E host) path next' r
  after_exists-host path next next' (done true, s) agree same =
      after_read-host path next next' (call E true (E.host.read path) s) same
      ∙ ap (after_read S (with_host E host) path next') (call-host _ _ s agree.1)
  after_exists-host path next next' (done false, s) agree same = same s
  after_exists-host path next next' (refused, s) agree same = same s
  after_exists-host path next next' (failed, s) agree same = refl
  after_exists-host path next next' (raised e, s) agree same = refl

  probe-host :
      (r : Answer) (next : Search S E) (next' : Search S (with_host E host)) (s : Sandbox W B)
      → ((path : Bytes) → r ≡ ok path → AgreesAt E.host host path)
      → ((s : Sandbox W B) → next s ≡ next' s)
      → probe S E r next s ≡ probe S (with_host E host) r next' s
  probe-host (ok path) next next' s agree same =
      after_exists-host path next next' (call E true (E.host.exists path) s) (agree path refl) same
      ∙ ap (after_exists S (with_host E host) path next') (call-host _ _ s (agree path refl).0)
  probe-host (lua_ext.VfsPath.refused r) next next' s agree same = same s
  probe-host out_of_fuel next next' s agree same = same s

  try_expanded-host :
      (o : Option Bytes) (next : Search S E) (next' : Search S (with_host E host))
      → (s : Sandbox W B)
      → ((x path : Bytes)
          → o ≡ some x
          → canonical x (length x + 2) E.quota.max_path_length E.quota.max_path_depth ≡ ok path
          → AgreesAt E.host host path)
      → ((s : Sandbox W B) → next s ≡ next' s)
      → try_expanded S E o next s ≡ try_expanded S (with_host E host) o next' s
  try_expanded-host none next next' s agree same = same s
  try_expanded-host (some x) next next' s agree same =
      probe-host (canonical x (length x + 2) E.quota.max_path_length E.quota.max_path_depth) next
        next' s (λ path e. agree x path refl e) same

  module _ (name : Name) (named : name_ok name ≡ true) where
    try_all-host :
        (es : List (Option Bytes)) (s : Sandbox W B)
        → all_sound es ≡ true
        → ((path : Bytes)
            → IsSearched E.quota.max_path_length E.quota.max_path_depth es path
            → AgreesAt E.host host path)
        → try_all S E name es s ≡ try_all S (with_host E host) name es s
    unfolding try_all
    try_all-host [] s sound agree = refl
    try_all-host (none ∷ es) s sound agree = try_all-host es s sound agree
    try_all-host (some pattern ∷ es) s sound agree =
        try_expanded-host (expand pattern name) (try_all S E name es)
          (try_all S (with_host E host) name es) s
          (λ x path expanded accepted. agree path (
            inl (
              canonical-IsCanonical x _ _ _ path accepted,
              expand_confined name pattern x path _ _ _ named (ground arith) expanded accepted,
            )))
          (λ t. try_all-host es t (ground arith) (λ path is. agree path (inr is)))

  or_ask-host :
      (name by : Bytes) (r : Searched C × Sandbox W B)
      → or_ask S E name by r ≡ or_ask S (with_host E host) name by r
  or_ask-host name by (not_here, s) = asked-host S.module_resolver
    where
      from-host :
          (r : Resolved × B) → from_resolver S E r s ≡ from_resolver S (with_host E host) r s
      from-host (throws, b) = refl
      from-host (provides_none, b) = refl
      from-host (provides none is_bytecode, b) = refl
      from-host (provides (some (code, chunk_name)) is_bytecode, b) = refl

      asked-host :
          (r : Resolver B)
          → asked_resolver S E r name by s ≡ asked_resolver S (with_host E host) r name by s
      asked-host absent = refl
      asked-host methodless = refl
      asked-host (resolver f) = from-host (f name by s.backend)
  or_ask-host name by (found c, s) = refl
  or_ask-host name by (pending, s) = refl
  or_ask-host name by (stopped e, s) = refl
  or_ask-host name by (load_error e, s) = refl

  -- For a name that require accepts and search patterns in which no piece with a mark, or behind
  -- one, is dots and marks of two bytes or more: a search comes to the same end in the same state
  -- with two backends that say the same of every canonical path within the quotas that is the
  -- directory that a pattern names in front of its marks, or lies under it; so it uses the answers
  -- on no other path.
  pub search_confined :
      (es : List (Option Bytes)) (name by : Bytes) (s : Sandbox W B)
      → S.module_paths ≡ some es
      → name_ok name ≡ true
      → all_sound es ≡ true
      → ((path : Bytes)
          → IsSearched E.quota.max_path_length E.quota.max_path_depth es path
          → AgreesAt E.host host path)
      → search S E name by s ≡ search S (with_host E host) name by s
  unfolding search search_vfs
  search_confined es name by s paths named sound agree =
      or_ask-host name by (search_vfs S E name s)
      ∙ ap (or_ask S (with_host E host) name by) (searched E.available)
    where
      searched :
          (b : Bool)
          → (if not b then (not_here, s) else along S E name S.module_paths s)
            ≡ (if not b then (not_here, s) else along S (with_host E host) name S.module_paths s)
      searched true =
          ap (λ o. along S E name o s) paths
          ∙ try_all-host name named es s sound agree
          ∙ sym (ap (λ o. along S (with_host E host) name o s) paths)
      searched false = refl
