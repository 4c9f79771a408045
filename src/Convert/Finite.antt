-- ===== src/Convert/Finite.antt =====
-- A Lua value whose tables end after some levels is never found to be one of its own parents by
-- src/luaext_convert.c.
use mathlib.Core.Path.{subst}
use lua_ext.Base.{
  ℕ, zero, suc, ◌≤◌, ◌≡◌, refl, sym, false, Option, none, some, List, [], ◌∷◌, ◌==◌, ==_iff, arith,
  All, inl, inr, Bool-cases,
}
use lua_ext.Convert.{
  LuaValue, nil, absent, boolean, integer, float, string, table, function, thread, userdata,
  light_userdata, Zval, null, flag, long, double, text, array, handle, object, Elements, end,
  element, Chain, Env,
}
use lua_ext.Convert.ToPhp.{entered, parents_of, is_container, is_ancestor}
use lua_ext.Convert.Mirror.{Mirrors, MirrorsAll, levels, levels_below}

abbrev pub table_of : LuaValue → Option ℕ
table_of nil = none
table_of absent = none
table_of (boolean b) = none
table_of (integer z) = none
table_of (float d) = none
table_of (string s) = none
table_of (table id) = some id
table_of (function f) = none
table_of (thread t) = none
table_of (userdata u) = none
table_of (light_userdata u) = none

module _ {W : Type 0} (E : Env W) where
  -- The table ends after that many levels.
  unfoldable pub IsFinite : ℕ → Option ℕ → Type 0
  IsFinite n none = Unit
  IsFinite zero (some id) = ⊥
  IsFinite (suc n) (some id) = All (λ p. IsFinite n (table_of p.1)) (E.entries id)

  All-IsFinite_mono :
      (n : ℕ) (l : List (LuaValue × LuaValue))
      → ((o : Option ℕ) → IsFinite n o → IsFinite (suc n) o)
      → All (λ p. IsFinite n (table_of p.1)) l
      → All (λ p. IsFinite (suc n) (table_of p.1)) l
  All-IsFinite_mono n [] up h = tt
  All-IsFinite_mono n (p ∷ l) up h = (up (table_of p.1) h.0, All-IsFinite_mono n l up h.1)

  IsFinite-mono : (n : ℕ) (o : Option ℕ) → IsFinite n o → IsFinite (suc n) o
  unfolding IsFinite
  IsFinite-mono n none h = tt
  IsFinite-mono zero (some id) h = elim h [ ]
  IsFinite-mono (suc n) (some id) h =
      All-IsFinite_mono n (E.entries id) (λ o f. IsFinite-mono n o f) h

  mutual
    unfolding Mirrors levels IsFinite

    -- What is mirrored ends.
    pub Mirrors-IsFinite :
        (z : Zval) (v : LuaValue) (n : ℕ) → Mirrors E z v → levels z ≤ n → IsFinite n (table_of v)
    Mirrors-IsFinite null v n m l = rw m tt
    Mirrors-IsFinite (flag b) v n m l = rw m tt
    Mirrors-IsFinite (long b) v n m l = rw m tt
    Mirrors-IsFinite (double b) v n m l = rw m tt
    Mirrors-IsFinite (text b) v n m l = rw m tt
    Mirrors-IsFinite (handle r) v n m l = rw (m.1) tt
    Mirrors-IsFinite (object o) v n m l = rw (m.1) tt
    Mirrors-IsFinite (array es) v zero m l = absurd (omega (arith, l))
    Mirrors-IsFinite (array es) v (suc n) m l =
        rw (m.1) (MirrorsAll-IsFinite es (E.entries m.0) n m.2 (omega (arith, l)))

    MirrorsAll-IsFinite :
        (es : Elements) (l : List (LuaValue × LuaValue)) (n : ℕ)
        → MirrorsAll E es l
        → levels_below es ≤ n
        → All (λ p. IsFinite n (table_of p.1)) l
    MirrorsAll-IsFinite end l n m h = subst (λ l. All (λ p. IsFinite n (table_of p.1)) l) (sym m) tt
    MirrorsAll-IsFinite (element k z es) [] n m h = elim m [ ]
    MirrorsAll-IsFinite (element k z es) ((kv, v) ∷ l) n m h = (
      Mirrors-IsFinite z v n m.1 (omega (arith, h)),
      MirrorsAll-IsFinite es l n m.2 (omega (arith, h)),
    )

  -- Each level of the table `a` has one less of `o`.
  abbrev pub IsBelow : ℕ → Option ℕ → Type 0
  IsBelow a o = (n : ℕ) → IsFinite (suc n) (some a) → IsFinite n o

  -- No finite table is below itself.
  not_below_itself : (n a : ℕ) → IsBelow a (some a) → IsFinite n (some a) → ⊥
  unfolding IsFinite
  not_below_itself zero a below h = h
  not_below_itself (suc n) a below h = not_below_itself n a below (below n h)

  abbrev pub IsBelowStep : Option ℕ → Option ℕ → Type 0
  IsBelowStep none o = Unit
  IsBelowStep (some a) o = IsBelow a o

  -- `o` is below every container of a chain.
  abbrev pub IsUnder : Chain → Option ℕ → Type 0
  IsUnder [] o = Unit
  IsUnder (s ∷ chain) o = IsBelowStep s.container o × IsUnder chain o

  is_container-new :
      (n id : ℕ) (o : Option ℕ)
      → IsFinite n (some id)
      → IsBelowStep o (some id)
      → is_container id o ≡ false
  is_container-new n id none h below = refl
  is_container-new n id (some a) h below = elim (Bool-cases (a == id)) [
    | inl e ↦
        absurd
          (not_below_itself n id (subst (λ x. IsBelow x (some id)) ((==_iff a id).0 e) below) h)
    | inr e ↦ e
  ]

  pub is_ancestor-new :
      (n id : ℕ) (chain : Chain)
      → IsFinite n (some id)
      → IsUnder chain (some id)
      → is_ancestor id chain ≡ false
  unfolding is_ancestor
  is_ancestor-new n id [] h under = refl
  is_ancestor-new n id (s ∷ chain) h under =
      ground
        (arith, is_container-new n id s.container h under.0, is_ancestor-new n id chain h under.1)

  -- An entry is below what its table is below.
  IsBelow-trans :
      (id : ℕ) (o p : Option ℕ) → IsBelow id p → IsBelowStep o (some id) → IsBelowStep o p
  unfolding IsFinite
  IsBelow-trans id none p here above = tt
  IsBelow-trans id (some a) p here above = elim [
    | zero ↦ λ h. absurd (above zero h)
    | suc m ↦ λ h. IsFinite-mono m p (here m (above (suc m) h))
  ]

  IsUnder-trans :
      (id : ℕ) (chain : Chain) (p : Option ℕ)
      → IsBelow id p
      → IsUnder chain (some id)
      → IsUnder chain p
  IsUnder-trans id [] p here above = tt
  IsUnder-trans id (s ∷ chain) p here above =
      (IsBelow-trans id s.container p here above.0, IsUnder-trans id chain p here above.1)

  entered-IsUnder :
      (id : ℕ) (chain : Chain) (p : Option ℕ)
      → IsBelow id p
      → IsUnder (parents_of chain) (some id)
      → IsUnder (entered id chain) p
  entered-IsUnder id [] p here above = tt
  entered-IsUnder id (s ∷ chain) p here above = (here, IsUnder-trans id chain p here above)

  All-IsUnder :
      (id : ℕ) (chain : Chain) (l : List (LuaValue × LuaValue))
      → ((n : ℕ) → IsFinite (suc n) (some id) → All (λ p. IsFinite n (table_of p.1)) l)
      → IsUnder (parents_of chain) (some id)
      → All (λ p. IsUnder (entered id chain) (table_of p.1)) l
  All-IsUnder id chain [] rows above = tt
  All-IsUnder id chain (p ∷ l) rows above = (
    entered-IsUnder id chain (table_of p.1) (λ n h. (rows n h).0) above,
    All-IsUnder id chain l (λ n h. (rows n h).1) above,
  )

  -- The entries of a table are below it and what is above it.
  pub entries-IsUnder :
      (id : ℕ) (chain : Chain)
      → IsUnder (parents_of chain) (some id)
      → All (λ p. IsUnder (entered id chain) (table_of p.1)) (E.entries id)
  unfolding IsFinite
  entries-IsUnder id chain above = All-IsUnder id chain (E.entries id) (λ n h. h) above
