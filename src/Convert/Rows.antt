-- ===== src/Convert/Rows.antt =====
-- The entries of a table that was pushed read as elements of the array (src/luaext_convert.c).
use mathlib.Core.Path.{subst}
use lua_ext.Base.{
  ℕ, suc, ◌≤◌, ◌≡◌, ◌≢◌, inl, inr, refl, sym, ◌∙◌, ap, true, false, some, List, [], ◌∷◌, arith, All,
}
use lua_ext.Convert.{
  LuaValue, nil, table, PhpKey, Zval, null, flag, long, double, text, array, object, Elements, end,
  element, exists, Env,
}
use lua_ext.Convert.ToLua.{
  PhpValue, php_null, php_other, php_flag, php_long, php_double, php_text, php_array, php_object,
  php_function, reference, Stores, stored_all, store, Source, lua_key, is_function, deref,
}
use lua_ext.Convert.Mirror.{
  key_of, Mirrors, MirrorsAll, IsDistinct, AreDistinct, levels, levels_below,
}
use lua_ext.Convert.Pushes.{IsScalarOf, Fits, FitsAll}
use lua_ext.Convert.Plain.{IsPlain, ArePlain}
use lua_ext.Convert.Back.{
  HasKey, IsEntry, NoTwins, Covers, IsFromStore, IsCovered, IsBack, AreBack, Agree, lua_key_inj,
  exists-there, exists-absent,
}

module _ {W : Type 0} (E : Env W) (S : Source) (agree : Agree E S) where
  -- A PHP value that `v` reads as, and that is `p` again.
  abbrev pub IsReading : ℕ → LuaValue → PhpValue → Zval → Type 0
  IsReading n v p z = Mirrors E z v × IsDistinct z × IsPlain z × (levels z ≤ n) × IsBack S z p

  pub scalar_back :
      (n : ℕ) (x : LuaValue) (p q : PhpValue)
      → deref S p ≡ q
      → IsScalarOf S x q
      → (z : Zval) × IsReading n x p z
  unfolding Mirrors IsDistinct IsPlain levels IsBack
  scalar_back n x p php_null e h = (null, (h, tt, tt, omega arith, e))
  scalar_back n x p php_other e h = elim h [ ]
  scalar_back n x p (php_flag b) e h = (flag b, (h, tt, tt, omega arith, e))
  scalar_back n x p (php_long b) e h = (long b, (h, tt, tt, omega arith, e))
  scalar_back n x p (php_double b) e h = (double b, (h, tt, tt, omega arith, e))
  scalar_back n x p (php_text b) e h = (text b, (h, tt, tt, omega arith, e))
  scalar_back n x p (php_array a) e h = elim h [ ]
  scalar_back n x p (php_object o) e (u, eu, ex) =
      (object o, ((u, ex, agree.proxies o u eu), tt, tt, omega arith, e))
  scalar_back n x p (php_function f) e (eq, is) =
      absurd (let no = agree.no_functions f in let same = ap is_function eq in cc)
  scalar_back n x p (reference r) e h = elim h [ ]

  -- An entry of a table that reads as an element of the array `la`.
  abbrev pub IsRow : ℕ → List (PhpKey × PhpValue) → LuaValue → LuaValue → Type 0
  IsRow n la k w =
      (j : PhpKey) × (z : Zval) × (q : PhpValue) × (k ≡ lua_key j)
      × IsEntry j q la
      × (key_of E.numeric k ≡ some j)
      × IsReading n w q z

  -- What the entries of a table read as.
  abbrev AreRows : ℕ → List (PhpKey × PhpValue) → List (LuaValue × LuaValue) → Elements → Type 0
  AreRows n la l es =
      MirrorsAll E es l
      × AreDistinct es
      × ArePlain es
      × (levels_below es ≤ n)
      × AreBack S es la
      × ((j : PhpKey) → All (λ e. e.0 ≢ lua_key j) l → exists j es ≡ false)
      × ((j : PhpKey) → HasKey (lua_key j) l → exists j es ≡ true)

  no_rows : (n : ℕ) (la : List (PhpKey × PhpValue)) → AreRows n la [] end
  unfolding Mirrors IsDistinct IsPlain levels IsBack exists
  no_rows n la = (refl, tt, tt, omega arith, tt, λ j h. refl, λ j h. elim h [ ])

  add_row :
      (n : ℕ) (la : List (PhpKey × PhpValue)) (k w : LuaValue) (l : List (LuaValue × LuaValue))
      (es : Elements)
      → All (λ e. e.0 ≢ k) l
      → IsRow n la k w
      → AreRows n la l es
      → (es : Elements) × AreRows n la ((k, w) ∷ l) es
  unfolding Mirrors IsDistinct IsPlain levels IsBack
  add_row n la k w l es new (j, z, q, ek, entry, stored, reads) rows = (
    element j z es,
    (
      (stored, reads.0, rows.0),
      (rows.5 j (subst (λ k. All (λ e. e.0 ≢ k) l) ek new), reads.1, rows.1),
      (reads.2, rows.2),
      omega (arith, reads.3, rows.3),
      ((q, entry, reads.4), rows.4),
      λ i others.
          exists-absent i j z es (λ same. others.0 (ek ∙ ap lua_key (sym same)))
            (rows.5 i others.1),
      λ i there.
          exists-there i j z es
            (elim there [ inl e ↦ inl (lua_key_inj i j (e ∙ ek)) | inr h ↦ inr (rows.6 i h) ]),
    ),
  )

  rows_back :
      (n : ℕ) (la : List (PhpKey × PhpValue)) (l : List (LuaValue × LuaValue))
      → NoTwins l
      → All (λ e. IsRow n la e.0 e.1) l
      → (es : Elements) × AreRows n la l es
  rows_back n la [] twins rows = (end, no_rows n la)
  rows_back n la ((k, w) ∷ l) twins rows =
      let rest = rows_back n la l twins.1 rows.1 in add_row n la k w l rest.0 twins.0 rows.0 rest.1

  pub All-rows :
      (n : ℕ) (la : List (PhpKey × PhpValue)) (fs : Stores) (l : List (LuaValue × LuaValue))
      → ((k w : LuaValue) → IsFromStore E fs k w → IsRow n la k w)
      → All (λ e. IsFromStore E fs e.0 e.1) l
      → All (λ e. IsRow n la e.0 e.1) l
  All-rows n la fs [] each h = tt
  All-rows n la fs (e ∷ l) each h = (each e.0 e.1 h.0, All-rows n la fs l each h.1)

  nil_is_null : (p q : PhpValue) → deref S p ≡ q → IsScalarOf S nil q → deref S p ≡ php_null
  nil_is_null p php_null e h = e
  nil_is_null p php_other e h = elim h [ ]
  nil_is_null p (php_flag b) e h = cc
  nil_is_null p (php_long b) e h = cc
  nil_is_null p (php_double b) e h = cc
  nil_is_null p (php_text b) e h = cc
  nil_is_null p (php_array a) e h = elim h [ ]
  nil_is_null p (php_object o) e h = cc
  nil_is_null p (php_function f) e h = cc
  nil_is_null p (reference r) e h = elim h [ ]

  IsCovered-back :
      (fs : Stores) (la : List (PhpKey × PhpValue)) (l : List (LuaValue × LuaValue)) (es : Elements)
      → FitsAll S fs la
      → Covers fs l
      → ((j : PhpKey) → HasKey (lua_key j) l → exists j es ≡ true)
      → IsCovered S es la
  unfolding Fits
  IsCovered-back stored_all [] l es fit cover has = tt
  IsCovered-back stored_all (x ∷ la) l es fit cover has = cc
  IsCovered-back (store k b fs) [] l es fit cover has = elim fit [ ]
  IsCovered-back (store k b fs) ((j, q) ∷ la) l es fit cover has = (
    elim (cover.0) [
      | inl bare ↦ inl (nil_is_null q (deref S q) refl (subst (λ b. Fits S b q) bare fit.1))
      | inr there ↦ inr (has j (subst (λ k. HasKey k l) fit.0 there))
    ],
    IsCovered-back fs la l es fit.2 cover.1 has,
  )

  -- An array whose elements are found in the table of `la`.
  pub array_back :
      (n a id : ℕ) (fs : Stores) (p : PhpValue)
      → deref S p ≡ php_array a
      → FitsAll S fs (S.arrays a)
      → All (λ e. IsRow n (S.arrays a) e.0 e.1) (E.entries id)
      → Covers fs (E.entries id)
      → NoTwins (E.entries id)
      → (z : Zval) × IsReading (suc n) (table id) p z
  unfolding Mirrors IsDistinct IsPlain levels IsBack
  array_back n a id fs p e fit rows cover twins =
      let made = rows_back n (S.arrays a) (E.entries id) twins rows in
      let es = made.0 in
      let r = made.1 in
      (
        array es,
        (
          (id, refl, r.0),
          r.1,
          r.2,
          omega (arith, r.3),
          (a, e, r.4, IsCovered-back fs (S.arrays a) (E.entries id) es fit cover r.6),
        ),
      )
