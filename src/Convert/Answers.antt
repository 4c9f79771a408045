-- ===== src/Convert/Answers.antt =====
-- What the steps of src/luaext_convert.c answer where nothing but the value can refuse.
use mathlib.Core.Path.{subst}
use Prim.Native.Nat.{bit_and}
use lua_ext.Base.{
  ℕ, ◌+◌, ◌-◌, ◌%◌, ◌^◌, ◌≡◌, refl, Bool, true, false, Option, none, some, List, ◌==◌, inl, inr,
  Bool-cases, if◌then◌else◌, ℤ, pos,
}
use lua_ext.Convert.{
  LuaValue, nil, absent, boolean, integer, float, string, table, function, thread, userdata,
  light_userdata, PhpKey, index, name, Zval, Elements, exists, update, KeyStep, Chain, Result, ok,
  failed, Env, Ctx, Action, follow, ◌>>=◌,
}
use lua_ext.Convert.ToPhp.{
  stored_key, account, convert_key, check_irq, check_collision, kept_or_dropped, account_element,
  child_of, convert_checked, convert_keyed, convert_entry, store_entry, element_bytes, irq_stride,
  integer_key, string_key,
}
use lua_ext.Convert.Mirror.{key_of}

module _ {W A : Type 0} where
  -- The action answers `a`, whatever was before it.
  abbrev pub Answers : Action W A → A → Type 0
  Answers m a = (c : Ctx W) → (m c).0 ≡ ok a

  pub if-Answers :
      (b : Bool) (x y : Action W A) (a : A)
      → b ≡ false
      → Answers y a
      → Answers (λ c. (if b then x else y) c) a
  if-Answers true x y a e h = cc
  if-Answers false x y a e h = h

pub follow-Answers :
    {W A B : Type 0} (f : A → Action W B) (r : Result A × Ctx W) (a : A) (b : B)
    → r.0 ≡ ok a
    → Answers (f a) b
    → (follow f r).0 ≡ ok b
follow-Answers f (ok x, c) a b e h = subst (λ a. (f a c).0 ≡ ok b) (cc) (h c)
follow-Answers f (failed x, c) a b e h = cc

-- Where nothing but the value itself can refuse a conversion.
pub record IsCalm {W : Type 0} (E : Env W) : Type 0 where
  pub grows : (depth : ℕ) → E.stack_grows depth ≡ true
  pub quiet : (n : ℕ) → E.pending n ≡ false

pub string_key-stored :
    (s : List ℕ) (o : Option ℤ) (k : PhpKey)
    → some (elim o as (λ x. PhpKey) [ none ↦ name s | some z ↦ index z ]) ≡ some k
    → stored_key (string_key s o) ≡ k
string_key-stored s none k e = cc
string_key-stored s (some z) k e = cc

module _ {W : Type 0} (E : Env W) (calm : IsCalm E) where
  pub account-Answers : (bytes : ℕ) (chain : Chain) → Answers (account E false bytes chain) tt
  unfolding account
  account-Answers bytes chain c = refl

  pub check_irq-Answers : (chain : Chain) → Answers (check_irq E false chain) tt
  unfolding check_irq
  check_irq-Answers chain c =
      let b = bit_and ((c.elements + 1) % 2 ^ 32) (irq_stride - 1) == 0 in
      rw (calm.quiet ((c.elements + 1) % 2 ^ 32))
        (elim (Bool-cases b) [ inl e ↦ rw e refl | inr e ↦ rw e refl ])

  pub check_collision-Answers :
      (k : KeyStep) (target : Elements) (chain : Chain)
      → exists (stored_key k) target ≡ false
      → Answers (check_collision E false k target chain) tt
  unfolding check_collision
  check_collision-Answers k target chain new c = rw new refl

  -- The step that a key of Lua becomes.
  pub key_step : LuaValue → KeyStep
  key_step (integer z) = integer_key z
  key_step (string s) = string_key s (E.numeric s)
  key_step v = integer_key (pos 0)

  pub key_step-stored :
      (kv : LuaValue) (k : PhpKey) → key_of E.numeric kv ≡ some k → stored_key (key_step kv) ≡ k
  unfolding key_step key_of
  key_step-stored nil k e = cc
  key_step-stored absent k e = cc
  key_step-stored (boolean b) k e = cc
  key_step-stored (integer z) k e = cc
  key_step-stored (float d) k e = cc
  key_step-stored (string s) k e = string_key-stored s (E.numeric s) k e
  key_step-stored (table id) k e = cc
  key_step-stored (function f) k e = cc
  key_step-stored (thread t) k e = cc
  key_step-stored (userdata u) k e = cc
  key_step-stored (light_userdata u) k e = cc

  pub convert_key-Answers :
      (kv : LuaValue) (k : PhpKey) (chain : Chain)
      → key_of E.numeric kv ≡ some k
      → Answers (convert_key E false kv chain) (key_step kv)
  unfolding key_step key_of convert_key
  convert_key-Answers nil k chain e c = cc
  convert_key-Answers absent k chain e c = cc
  convert_key-Answers (boolean b) k chain e c = cc
  convert_key-Answers (integer z) k chain e c = refl
  convert_key-Answers (float d) k chain e c = cc
  convert_key-Answers (string s) k chain e c = refl
  convert_key-Answers (table id) k chain e c = cc
  convert_key-Answers (function f) k chain e c = cc
  convert_key-Answers (thread t) k chain e c = cc
  convert_key-Answers (userdata u) k chain e c = cc
  convert_key-Answers (light_userdata u) k chain e c = cc

  pub kept-Answers :
      (k : PhpKey) (z : Zval) (r : Result (Unit {0}) × Ctx W)
      → r.0 ≡ ok tt
      → (kept_or_dropped E false k z r).0 ≡ ok (k, z)
  kept-Answers k z (ok u, c) e = refl
  kept-Answers k z (failed f, c) e = cc

  -- One element whose key is new and whose value is converted.
  pub convert_entry-Answers :
      (convert : Chain → LuaValue → Action W Zval) (chain : Chain) (target : Elements)
      (kv v : LuaValue) (k : PhpKey) (z : Zval)
      → key_of E.numeric kv ≡ some k
      → exists k target ≡ false
      → Answers (convert (child_of E false (key_step kv) chain) v) z
      → Answers (convert_entry E false convert chain target kv v) (k, z)
  unfolding convert_entry ◌>>=◌ account_element
  convert_entry-Answers convert chain target kv v k z stored new h c =
      let ks = key_step kv in
      let is_k = key_step-stored kv k stored in
      follow-Answers
        (λ u. convert_key E false kv chain >>= convert_keyed E false convert chain target v)
        (check_irq E false chain c) tt (k, z) (check_irq-Answers chain c)
        (λ c1.
          follow-Answers (convert_keyed E false convert chain target v)
            (convert_key E false kv chain c1) ks (k, z) (convert_key-Answers kv k chain stored c1)
            (λ c2.
              follow-Answers (λ u. convert_checked E false convert chain v ks)
                (check_collision E false ks target chain c2) tt (k, z)
                (check_collision-Answers ks target chain (rw is_k new) c2)
                (λ c3.
                  follow-Answers (account_element E false chain ks)
                    (convert (child_of E false ks chain) v c3) z (k, z) (h c3)
                    (λ c4.
                      subst
                        (λ j.
                          (kept_or_dropped E false (stored_key ks) z
                            (account E false (element_bytes E false ks) chain c4)).0
                          ≡ ok (j, z))
                        is_k
                        (kept-Answers (stored_key ks) z
                          (account E false (element_bytes E false ks) chain c4)
                          (account-Answers (element_bytes E false ks) chain c4))))))

  pub store-Answers :
      (k : PhpKey) (z y : Zval) (target : Elements) (next : Elements → Action W Zval)
      (r : Result (PhpKey × Zval) × Ctx W)
      → r.0 ≡ ok (k, z)
      → Answers (next (update k z target)) y
      → (store_entry E false next target r).0 ≡ ok y
  store-Answers k z y target next (ok (j, x), c) e h =
      subst (λ (p : PhpKey × Zval). (next (update p.0 p.1 target) c).0 ≡ ok y) (cc) (h c)
  store-Answers k z y target next (failed f, c) e h = cc
