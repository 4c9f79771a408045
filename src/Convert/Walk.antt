-- ===== src/Convert/Walk.antt =====
-- What the walk over a table (src/luaext_convert.c) answers mirrors the table.
use mathlib.Core.List.{append_assoc, append-nil}
use mathlib.Core.Path.{subst}
use lua_ext.Base.{
  ℕ, ◌≤◌, ◌≡◌, inl, inr, refl, sym, Bool, true, false, some, List, [], ◌∷◌, ◌++◌, arith,
  Option-cases, if◌then◌else◌,
}
use lua_ext.Convert.{
  LuaValue, nil, absent, boolean, integer, float, string, table, function, thread, userdata,
  light_userdata, PhpKey, Zval, array, Elements, end, exists, update, KeyStep, Chain, Result, ok,
  failed, Env, Ctx, Action, follow, ◌>>=◌, pure, to_fail, colliding_key,
}
use lua_ext.Convert.ToPhp.{
  stored_key, account, convert_key, check_irq, check_collision, kept_or_dropped, account_element,
  child_of, convert_checked, convert_keyed, convert_entry, walk, store_entry, element_bytes,
}
use lua_ext.Convert.Mirror.{
  key_of, Mirrors, MirrorsAll, IsDistinct, AreDistinct, levels, levels_below,
}
use lua_ext.Convert.Fresh.{update-MirrorsAll, update-AreDistinct, levels-update}

module _ {W A : Type 0} where
  -- What holds of a value that is answered.
  abbrev pub Post : (A → Type 0) → Result A × Ctx W → Type 0
  Post P (ok a, c) = P a
  Post P (failed e, c) = Unit

  pub Post-any : (r : Result A × Ctx W) → Post (λ a. Unit) r
  Post-any (ok a, c) = tt
  Post-any (failed e, c) = tt

pub ok-Post :
    {W A : Type 0} (P : A → Type 0) (r : Result A × Ctx W) (a : A) → Post P r → r.0 ≡ ok a → P a
ok-Post P (ok b, c) a h e = subst P (cc) h
ok-Post P (failed f, c) a h e = cc

pub follow-Post :
    {W A B : Type 0} (P : A → Type 0) (Q : B → Type 0) (f : A → Action W B) (r : Result A × Ctx W)
    → Post P r
    → ((a : A) (c : Ctx W) → P a → Post Q (f a c))
    → Post Q (follow f r)
follow-Post P Q f (ok a, c) h next = next a c h
follow-Post P Q f (failed e, c) h next = tt

pub if-Post :
    {W A : Type 0} (P : A → Type 0) (b : Bool) (x y : Action W A) (c : Ctx W)
    → (b ≡ true → Post P (x c))
    → (b ≡ false → Post P (y c))
    → Post P ((if b then x else y) c)
if-Post P true x y c hx hy = hx refl
if-Post P false x y c hx hy = hy refl

module _ {W : Type 0} (E : Env W) (bill : Bool) where
  -- What a conversion of `v` with `n` levels left answers.
  abbrev pub Reads : ℕ → LuaValue → Zval → Type 0
  Reads n v z = Mirrors E z v × IsDistinct z × (levels z ≤ n)

  -- What an element of a table with `target` before it answers.
  abbrev pub ReadsEntry : ℕ → Elements → LuaValue → LuaValue → PhpKey × Zval → Type 0
  ReadsEntry n target kv v p =
      (key_of E.numeric kv ≡ some p.0) × (exists p.0 target ≡ false) × Reads n v p.1

  pub convert_key-Post :
      (kv : LuaValue) (chain : Chain) (c : Ctx W)
      → Post (λ k. key_of E.numeric kv ≡ some (stored_key k)) (convert_key E bill kv chain c)
  unfolding convert_key key_of
  convert_key-Post nil chain c = tt
  convert_key-Post absent chain c = tt
  convert_key-Post (boolean b) chain c = tt
  convert_key-Post (integer z) chain c = refl
  convert_key-Post (float d) chain c = tt
  convert_key-Post (string s) chain c = elim (Option-cases (E.numeric s)) [
    | inl e ↦ rw e refl
    | inr (z, e) ↦ rw e refl
  ]
  convert_key-Post (table id) chain c = tt
  convert_key-Post (function f) chain c = tt
  convert_key-Post (thread t) chain c = tt
  convert_key-Post (userdata u) chain c = tt
  convert_key-Post (light_userdata u) chain c = tt

  pub check_collision-Post :
      (k : KeyStep) (target : Elements) (chain : Chain) (c : Ctx W)
      → Post (λ u. exists (stored_key k) target ≡ false) (check_collision E bill k target chain c)
  unfolding check_collision
  check_collision-Post k target chain c =
      if-Post (λ u. exists (stored_key k) target ≡ false) (exists (stored_key k) target)
        (to_fail (colliding_key k) chain) (pure tt) c (λ e. tt) (λ e. e)

  pub kept-Post :
      (k : PhpKey) (z : Zval) (P : PhpKey × Zval → Type 0) (r : Result (Unit {0}) × Ctx W)
      → P (k, z)
      → Post P (kept_or_dropped E bill k z r)
  kept-Post k z P (ok u, c) h = h
  kept-Post k z P (failed e, c) h = tt

  pub convert_entry-Post :
      (n : ℕ) (convert : Chain → LuaValue → Action W Zval)
      → ((chain : Chain) (v : LuaValue) (c : Ctx W) → Post (Reads n v) (convert chain v c))
      → (chain : Chain) (target : Elements) (kv v : LuaValue) (c : Ctx W)
      → Post (ReadsEntry n target kv v) (convert_entry E bill convert chain target kv v c)
  unfolding convert_entry ◌>>=◌ account_element
  convert_entry-Post n convert h chain target kv v c =
      follow-Post (λ u. Unit) (ReadsEntry n target kv v)
        (λ u. convert_key E bill kv chain >>= convert_keyed E bill convert chain target v)
        (check_irq E bill chain c) (Post-any (check_irq E bill chain c))
        (λ u c1 any.
          follow-Post (λ k. key_of E.numeric kv ≡ some (stored_key k)) (ReadsEntry n target kv v)
            (convert_keyed E bill convert chain target v) (convert_key E bill kv chain c1)
            (convert_key-Post kv chain c1)
            (λ k c2 stored.
              follow-Post (λ u. exists (stored_key k) target ≡ false) (ReadsEntry n target kv v)
                (λ u. convert_checked E bill convert chain v k)
                (check_collision E bill k target chain c2) (check_collision-Post k target chain c2)
                (λ u c3 new.
                  follow-Post (Reads n v) (ReadsEntry n target kv v)
                    (account_element E bill chain k) (convert (child_of E bill k chain) v c3)
                    (h (child_of E bill k chain) v c3)
                    (λ z c4 reads.
                      kept-Post (stored_key k) z (ReadsEntry n target kv v)
                        (account E bill (element_bytes E bill k) chain c4) (stored, new, reads)))))

  abbrev pub ReadsTable : ℕ → List (LuaValue × LuaValue) → Zval → Type 0
  ReadsTable n l z =
      (es : Elements) × (z ≡ array es) × MirrorsAll E es l × AreDistinct es × (levels_below es ≤ n)

  pub store_entry-Post :
      (n : ℕ) (target : Elements) (kv v : LuaValue) (P : Zval → Type 0)
      (next : Elements → Action W Zval) (r : Result (PhpKey × Zval) × Ctx W)
      → Post (ReadsEntry n target kv v) r
      → ((k : PhpKey) (z : Zval) (c : Ctx W)
          → ReadsEntry n target kv v (k, z)
          → Post P (next (update k z target) c))
      → Post P (store_entry E bill next target r)
  store_entry-Post n target kv v P next (ok (k, z), c) h go = go k z c h
  store_entry-Post n target kv v P next (failed e, c) h go = tt

  pub walk-Post :
      (n : ℕ) (convert : Chain → LuaValue → Action W Zval)
      → ((chain : Chain) (v : LuaValue) (c : Ctx W) → Post (Reads n v) (convert chain v c))
      → (chain : Chain) (rest visited : List (LuaValue × LuaValue)) (target : Elements) (c : Ctx W)
      → MirrorsAll E target visited
      → AreDistinct target
      → levels_below target ≤ n
      → Post (ReadsTable n (visited ++ rest)) (walk E bill convert chain rest target c)
  unfolding walk
  walk-Post n convert h chain [] visited target c m d l =
      (target, refl, subst (MirrorsAll E target) (sym (append-nil visited)) m, d, l)
  walk-Post n convert h chain ((kv, v) ∷ rest) visited target c m d l =
      store_entry-Post n target kv v (ReadsTable n (visited ++ (kv, v) ∷ rest))
        (walk E bill convert chain rest) (convert_entry E bill convert chain target kv v c)
        (convert_entry-Post n convert h chain target kv v c)
        (λ k z c1 read.
          subst (λ l. Post (ReadsTable n l) (walk E bill convert chain rest (update k z target) c1))
            (append_assoc visited ((kv, v) ∷ []) rest)
            (walk-Post n convert h chain rest (visited ++ (kv, v) ∷ []) (update k z target) c1
              (update-MirrorsAll E k z target kv v visited read.1 read.0 read.2.0 m)
              (update-AreDistinct k z target read.1 read.2.1 d)
              (levels-update k z target n read.1 read.2.2 l)))

  -- The walk from its start.
  pub empty-Walk :
      (n : ℕ) (convert : Chain → LuaValue → Action W Zval)
      → ((chain : Chain) (v : LuaValue) (c : Ctx W) → Post (Reads n v) (convert chain v c))
      → (chain : Chain) (l : List (LuaValue × LuaValue)) (c : Ctx W)
      → Post (ReadsTable n l) (walk E bill convert chain l end c)
  unfolding Mirrors IsDistinct levels
  empty-Walk n convert h chain l c = walk-Post n convert h chain l [] end c refl tt (omega arith)
