-- ===== src/Require/Rules.antt =====
-- What every call of require does to the bookkeeping, from what its steps do.
use lua_ext.Base.{
  ℕ, zero, suc, ◌≡◌, refl, Bool, true, false, not, ◌&&◌, Option, none, some, leb, ◌==◌,
  if◌then◌else◌,
}
use lua_ext.Require.{
  Name, bad_name, circular, too_deep, too_many, not_found, lua_memory, is_fatal, raised_again,
  Outcome, returned, raised, Code, finish, requires, assign_loaded, preloads, unpreloads, Found,
  code, missing, failing, Policy, Modules, set_loaded, set_preload, searched, pushed, counted,
  name_ok, enter, shallower, clear_mark, Call, resumed, run_code, module_value, pushing, left,
  concluded, found_loader, load_preloaded, search_module, load_module, guarded, unless_loaded,
  require_named, require_call,
}

-- The same marks, depth and count of modules.
abbrev pub SameBooks : Modules → Modules → Type 0
SameBooks s t =
    (t.require_depth ≡ s.require_depth)
    × ((n : Name) → t.loading n ≡ s.loading n)
    × (t.modules_loaded ≡ s.modules_loaded)

-- What the guards have found out.
pub record Admits (P : Policy) (name : Name) (s : Modules) : Type 0 where
  pub free : s.loading name ≡ false
  pub shallow : (not (P.max_require_depth == 0) && leb P.max_require_depth s.require_depth) ≡ false
  pub few : (not (P.max_modules == 0) && leb P.max_modules s.modules_loaded) ≡ false

-- A relation between the state before and after, for states that are valid, and how the steps keep it.
-- `abandoned` and `half_left` are what a failed push leaves.
pub record Rules (P : Policy) (valid : Modules → Type 0) (R : Modules → Modules → Type 0)
    : Type 0 where
  pub blind : (s t : Modules) → valid s → SameBooks s t → R s t
  pub chain : (s t u : Modules) → R s t → R t u → R s u
  pub reaches : (s t : Modules) → valid s → R s t → valid t
  pub entered : (name : Name) (s : Modules) → valid s → Admits P name s → valid (enter name s)
  pub abandoned :
      (name : Name) (s t : Modules) (i : ℕ)
      → valid s
      → Admits P name s
      → P.has_memory i ≡ false
      → R (enter name s) t
      → R s t
  pub half_left :
      (name : Name) (s t : Modules) (i : ℕ)
      → valid s
      → Admits P name s
      → P.has_memory i ≡ false
      → R (enter name s) t
      → R s (shallower t)
  pub left_all :
      (name : Name) (s t : Modules)
      → valid s
      → Admits P name s
      → R (enter name s) t
      → R s (clear_mark name (shallower t))
  pub loaded_one :
      (name : Name) (s t : Modules)
      → valid s
      → Admits P name s
      → R (enter name s) t
      → R s (counted (clear_mark name (shallower t)))

pub if-Holds :
    (Q : Modules → Type 0) (b : Bool) (x y : Outcome × Modules)
    → (b ≡ true → Q x.1)
    → (b ≡ false → Q y.1)
    → Q (if b then x else y).1
if-Holds Q true x y hx hy = hx refl
if-Holds Q false x y hx hy = hy refl

resumed-Holds :
    (Q : Modules → Type 0)
    → (next : Outcome → Modules → Outcome × Modules) (r : Outcome × Modules) → Q r.1
    → ((o : Outcome) → Q (next o r.1).1)
    → Q (resumed next r).1
resumed-Holds Q next (returned v, t) q go = go (returned v)
resumed-Holds Q next (raised e, t) q go =
    if-Holds Q (is_fatal e) (raised e, t) (next (raised e) t) (λ b. q) (λ b. go (raised e))

module _ (P : Policy) (valid : Modules → Type 0) (R : Modules → Modules → Type 0)
    (rules : Rules P valid R) where
  abbrev pub Goes : Call → Type 0
  Goes req = (name : Name) (s : Modules) → valid s → R s (req name s).1

  stays : (s t : Modules) → valid s → SameBooks s t → R s t
  stays = rules.blind

  -- On from a state with the same books.
  onward : (s t u : Modules) → valid s → SameBooks s t → (valid t → R t u) → R s u
  onward s t u v b go =
      let r = rules.blind s t v b in rules.chain s t u r (go (rules.reaches s t v r))

  pub run_code-Goes :
      (req : Call) → Goes req → (c : Code) (s : Modules) → valid s → R s (run_code req c s).1
  unfolding run_code
  run_code-Goes req all (finish o) s v = stays s s v (refl, λ n. refl, refl)
  run_code-Goes req all (requires name k) s v =
      let t = (req name s).1 in
      let r = all name s v in
      resumed-Holds (R s) (λ o t. run_code req (k o) t) (req name s) r
        (λ o.
          rules.chain s t (run_code req (k o) t).1 r
            (run_code-Goes req all (k o) t (rules.reaches s t v r)))
  run_code-Goes req all (assign_loaded name x k) s v =
      onward s (set_loaded name x s) _ v (refl, λ n. refl, refl)
        (run_code-Goes req all k (set_loaded name x s))
  run_code-Goes req all (preloads name c k) s v =
      onward s (set_preload name (some c) s) _ v (refl, λ n. refl, refl)
        (run_code-Goes req all k (set_preload name (some c) s))
  run_code-Goes req all (unpreloads name k) s v =
      onward s (set_preload name none s) _ v (refl, λ n. refl, refl)
        (run_code-Goes req all k (set_preload name none s))

  -- Pushes in front of anything that changes the books.
  pushing-Goes :
      (rest : Modules → Outcome × Modules) (s : Modules)
      → valid s
      → (valid (pushed s) → R (pushed s) (rest (pushed s)).1)
      → R s (pushing P rest s).1
  pushing-Goes rest s v go =
      if-Holds (R s) (P.has_memory s.pushes) (rest (pushed s)) (raised lua_memory, pushed s)
        (λ b. onward s (pushed s) _ v (refl, λ n. refl, refl) go)
        (λ b. stays s (pushed s) v (refl, λ n. refl, refl))

  -- A load that the guards have let in.
  module _ (name : Name) (s : Modules) (v : valid s) (a : Admits P name s) where
    inside : (t u : Modules) → R (enter name s) t → SameBooks t u → R (enter name s) u
    inside t u r b =
        rules.chain (enter name s) t u r
          (rules.blind t u (rules.reaches (enter name s) t (rules.entered name s v a) r) b)

    left-Goes :
        (rest : Modules → Outcome × Modules) (t : Modules)
        → R (enter name s) t
        → ((u : Modules) → R (enter name s) u → R s (rest (clear_mark name (shallower u))).1)
        → R s (left P name rest t).1
    unfolding shallower clear_mark
    left-Goes rest t r go =
        let u = inside t (pushed t) r (refl, λ n. refl, refl) in
        if-Holds (R s) (P.has_memory t.pushes) (rest (clear_mark name (pushed (shallower t))))
          (raised lua_memory, pushed (shallower t)) (λ b. go (pushed t) u)
          (λ b. rules.half_left name s (pushed t) t.pushes v a b u)

    leaves : (o : Outcome) (t : Modules) → R (enter name s) t → R s (left P name (λ u. (o, u)) t).1
    leaves o t r = left-Goes (λ u. (o, u)) t r (λ u q. rules.left_all name s u v a q)

    concluded-Goes : (r : Outcome × Modules) → R (enter name s) r.1 → R s (concluded P name r).1
    unfolding shallower clear_mark
    concluded-Goes (raised e, t) r = leaves (raised (raised_again e)) t r
    concluded-Goes (returned w, t) r =
        left-Goes
          (pushing P λ u.
            (returned (some (module_value w)), counted (set_loaded name (some (module_value w)) u)))
          t r
          (λ u q.
            let p = inside u (pushed u) q (refl, λ n. refl, refl) in
            let x = some (module_value w) in
            if-Holds (R s) (P.has_memory u.pushes)
              (returned x, counted (set_loaded name x (pushed (clear_mark name (shallower u)))))
              (raised lua_memory, pushed (clear_mark name (shallower u)))
              (λ b.
                rules.loaded_one name s (set_loaded name x (pushed u)) v a
                  (inside u (set_loaded name x (pushed u)) q (refl, λ n. refl, refl)))
              (λ b. rules.left_all name s (pushed u) v a p))

    found_loader-Goes :
        (req : Call)
        → Goes req
        → (t : Modules) (f : Found) → R (enter name s) t
        → R s (found_loader P req name t f).1
    found_loader-Goes req all t missing r = leaves (raised not_found) t r
    found_loader-Goes req all t (failing e) r = leaves (raised (raised_again e)) t r
    found_loader-Goes req all t (code c) r =
        let u = inside t (pushed t) r (refl, λ n. refl, refl) in
        if-Holds (R s) (P.has_memory t.pushes) (concluded P name (run_code req c (pushed t)))
          (raised lua_memory, pushed t)
          (λ b. concluded-Goes (run_code req c (pushed t)) (
            rules.chain _ _ _ u (
              run_code-Goes req all c (pushed t)
                (rules.reaches (enter name s) (pushed t) (rules.entered name s v a) u))))
          (λ b. rules.abandoned name s (pushed t) t.pushes v a b u)

    load_preloaded-Goes :
        (req : Call)
        → Goes req
        → (t : Modules) (c : Option Code) → R (enter name s) t
        → R s (load_preloaded P req name t c).1
    load_preloaded-Goes req all t (some c) r = found_loader-Goes req all t (code c) r
    load_preloaded-Goes req all t none r =
        found_loader-Goes req all (searched t) (P.locate t.searches name)
          (inside t (searched t) r (refl, λ n. refl, refl))

    search_module-Goes :
        (req : Call)
        → Goes req
        → (t : Modules) → R (enter name s) t
        → R s (search_module P req name t).1
    search_module-Goes req all t r =
        let u = inside t (pushed t) r (refl, λ n. refl, refl) in
        if-Holds (R s) (P.has_memory t.pushes)
          (load_preloaded P req name (pushed t) (t.preload name))
          (found_loader P req name (pushed t) (failing lua_memory))
          (λ b. load_preloaded-Goes req all (pushed t) (t.preload name) u)
          (λ b. found_loader-Goes req all (pushed t) (failing lua_memory) u)

    load_module-Goes : (req : Call) → Goes req → R s (load_module P req name s).1
    unfolding load_module
    load_module-Goes req all =
        let t = enter name s in
        let r = rules.blind t (pushed t) (rules.entered name s v a) (refl, λ n. refl, refl) in
        if-Holds (R s) (P.has_memory t.pushes) (search_module P req name (pushed t))
          (raised lua_memory, pushed t) (λ b. search_module-Goes req all (pushed t) r)
          (λ b. rules.abandoned name s (pushed t) t.pushes v a b r)

  guarded-Goes : (req : Call) → Goes req → Goes (guarded P req)
  unfolding guarded
  guarded-Goes req all name s v =
      if-Holds (R s) (s.loading name) (raised circular, s) _ (λ b. same)
        (λ free.
          if-Holds (R s) (not (P.max_require_depth == 0) && leb P.max_require_depth s.require_depth)
            (raised too_deep, s) _ (λ b. same)
            (λ shallow.
              if-Holds (R s) (not (P.max_modules == 0) && leb P.max_modules s.modules_loaded)
                (raised too_many, s) _ (λ b. same)
                (λ few. pushing-Goes (load_module P req name) s v (λ v'.
                  load_module-Goes name (pushed s) v'
                    (record { free = free; shallow = shallow; few = few }) req all))))
    where
      same : R s s
      same = stays s s v (refl, λ n. refl, refl)

  unless_loaded-Goes :
      (o : Option ℕ) (s : Modules) (r : Outcome × Modules)
      → R s s
      → R s r.1
      → R s (unless_loaded o s r).1
  unless_loaded-Goes none s r same q = q
  unless_loaded-Goes (some x) s r same q = same

  require_named-Goes : (req : Call) → Goes req → Goes (require_named P req)
  require_named-Goes req all name s v =
      pushing-Goes (λ t. unless_loaded (t.loaded name) t (pushing P (guarded P req name) t)) s v
        (λ v'.
          unless_loaded-Goes (s.loaded name) (pushed s) _
            (stays (pushed s) (pushed s) v' (refl, λ n. refl, refl))
            (pushing-Goes (guarded P req name) (pushed s) v'
              (guarded-Goes req all name (pushed (pushed s)))))

  pub require_call-Goes : (room : ℕ) → Goes (require_call P room)
  unfolding require_call
  require_call-Goes zero name s v = stays s s v (refl, λ n. refl, refl)
  require_call-Goes (suc room) name s v =
      if-Holds (R s) (name_ok name) (require_named P (require_call P room) name s)
        (raised bad_name, s)
        (λ b. require_named-Goes (require_call P room) (require_call-Goes room) name s v)
        (λ b. stays s s v (refl, λ n. refl, refl))
