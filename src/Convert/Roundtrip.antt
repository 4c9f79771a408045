-- ===== src/Convert/Roundtrip.antt =====
-- A PHP value that src/luaext_convert.c pushes to Lua and reads back.
mod Tests
use mathlib.Core.Path.{subst}
use lua_ext.Base.{ℕ, zero, suc, ◌≤◌, ◌≡◌, inl, inr, refl, sym, ◌∙◌, ap, false, List, [], ◌∷◌, arith}
use lua_ext.Convert.{LuaValue, PhpKey, Zval, ok, Env, depth_limit}
use lua_ext.Convert.ToPhp.{to_zval}
use lua_ext.Convert.ToLua.{
  PhpValue, Pushed, scalar, fresh, Stores, stored_all, store, Source, deref, push_zval,
}
use lua_ext.Convert.Mirror.{key_of}
use lua_ext.Convert.Pushes.{Fits, FitsAll, tables, tables_below, push_zval-Fits}
use lua_ext.Convert.Answers.{IsCalm}
use lua_ext.Convert.Complete.{to_zval_iff}
use lua_ext.Convert.Back.{IsEntry, IsStored, IsFromStore, IsBack, Agree}
use lua_ext.Convert.Rows.{IsReading, IsRow, scalar_back, All-rows, array_back}

module _ {W : Type 0} (E : Env W) (S : Source) (agree : Agree E S) where
  mutual
    unfolding IsStored Fits tables

    read_back :
        (b : Pushed) (v : LuaValue) (p : PhpValue) (n : ℕ)
        → Fits S b p
        → IsStored E b v
        → tables b ≤ n
        → (z : Zval) × IsReading E S agree n v p z
    read_back (scalar x) v p n fit stored le =
        subst (λ v. (z : Zval) × IsReading E S agree n v p z) (sym stored)
          (scalar_back E S agree n x p (deref S p) refl fit)
    read_back (fresh fs) v p zero fit stored le = absurd (omega (arith, le))
    read_back (fresh fs) v p (suc n) (a, e, fit) (id, ev, from, cover, twins) le =
        subst (λ v. (z : Zval) × IsReading E S agree (suc n) v p z) (sym ev)
          (array_back E S agree n a id fs p e fit
            (All-rows E S agree n (S.arrays a) fs (E.entries id)
              (λ k w h. store_back fs k w a (S.arrays a) n fit h (λ j q i. i) (omega (arith, le)))
              from)
            cover twins)

    store_back :
        (fs : Stores) (k w : LuaValue) (a : ℕ) (la : List (PhpKey × PhpValue)) (n : ℕ)
        → FitsAll S fs la
        → IsFromStore E fs k w
        → ((j : PhpKey) (q : PhpValue) → IsEntry j q la → IsEntry j q (S.arrays a))
        → tables_below fs ≤ n
        → IsRow E S agree n (S.arrays a) k w
    store_back stored_all k w a la n fit from up le = elim from [ ]
    store_back (store i b fs) k w a [] n fit from up le = elim fit [ ]
    store_back (store i b fs) k w a ((j, q) ∷ la) n fit (inl (ek, there, stored)) up le =
        let read = read_back b w q n fit.1 stored (omega (arith, le)) in
        (
          j,
          read.0,
          q,
          ek ∙ fit.0,
          up j q (inl (refl, refl)),
          ap (key_of E.numeric) (ek ∙ fit.0) ∙ agree.normal a j q (up j q (inl (refl, refl))),
          read.1,
        )
    store_back (store i b fs) k w a ((j, q) ∷ la) n fit (inr later) up le =
        store_back fs k w a la n fit.2 later (λ j q i. up j q (inr i)) (omega (arith, le))

-- A PHP value that is pushed, read back from tables that hold what was stored in any order, under
-- the same depth limit and where the stack grows, no interrupt is pending and nothing is billed:
-- the conversion succeeds, and answers the same value but for the order of arrays and elements
-- that are null; where PHP has no string key that is numeric, proxies stand for their objects and
-- no LuaFunction is alive.
pub push_zval-to_zval :
    {W : Type 0} (E : Env W) (S : Source)
    → IsCalm E
    → Agree E S
    → S.max_conversion_depth ≡ E.max_conversion_depth
    → (p : PhpValue) (b : Pushed) (v : LuaValue) (w : W) → push_zval S p ≡ ok b
    → IsStored E b v
    → (z : Zval) × ((to_zval E false v w).0 ≡ ok z) × IsBack S z p
push_zval-to_zval E S calm agree same p b v w pushed stored =
    let fit = push_zval-Fits S p b pushed in
    let limit = depth_limit E.max_conversion_depth in
    let back =
      read_back E S agree b v p limit fit.0 stored
        (subst (λ d. tables b ≤ depth_limit d) same fit.1) in
    let r = back.1 in (back.0, (to_zval_iff E calm v w back.0 r.2).1 (r.0, r.1, r.3), r.4)
