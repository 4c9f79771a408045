-- ===== src/Convert/Pushes.antt =====
-- What src/luaext_convert.c pushes for a PHP value, element by element.
use lua_ext.Base.{
  ℕ, zero, suc, ◌≤◌, ◌≡◌, refl, sym, Bool, true, false, not, ◌&&◌, Option, none, some, List, [],
  ◌∷◌, ltb, ◌==◌, length, if◌then◌else◌, arith,
}
use mathlib.Core.Path.{subst}
use Prim.Native.Nat.{max}
use lua_ext.Convert.{
  LuaValue, nil, boolean, integer, float, string, userdata, PhpKey, Chain, step_root, Detail,
  Result, ok, failed, depth_limit, circular, stack_full, string_too_long, foreign_function,
  dead_function, released_function,
}
use lua_ext.Convert.ToPhp.{entered, parents_of, is_ancestor}
use lua_ext.Convert.ToLua.{
  PhpValue, php_null, php_other, php_flag, php_long, php_double, php_text, php_array, php_object,
  php_function, reference, Pushed, scalar, fresh, Stores, stored_all, store, Source, push_fail,
  lua_key, is_function, then_store, as_table, deref, pushed_child, push_elements, push_array,
  pushed_proxy, push_object, push_function, push_text, push_typed, push_value, push_zval,
}

module _ (S : Source) where
  -- What a value that is no array is pushed as.
  abbrev pub IsScalarOf : LuaValue → PhpValue → Type 0
  IsScalarOf x php_null = x ≡ nil
  IsScalarOf x php_other = ⊥
  IsScalarOf x (php_flag b) = x ≡ boolean b
  IsScalarOf x (php_long z) = x ≡ integer z
  IsScalarOf x (php_double d) = x ≡ float d
  IsScalarOf x (php_text s) = x ≡ string s
  IsScalarOf x (php_array a) = ⊥
  IsScalarOf x (php_object o) = (u : ℕ) × (S.proxy_for o ≡ some u) × (x ≡ userdata u)
  IsScalarOf x (php_function f) = (S.slot (S.ref_of f) ≡ x) × (is_function x ≡ true)
  IsScalarOf x (reference r) = ⊥

  -- A table has one store for each element of its array, in order.
  unfoldable mutual
    pub Fits : Pushed → PhpValue → Type 0
    Fits (scalar x) p = IsScalarOf x (deref S p)
    Fits (fresh fs) p = (a : ℕ) × (deref S p ≡ php_array a) × FitsAll fs (S.arrays a)

    pub FitsAll : Stores → List (PhpKey × PhpValue) → Type 0
    FitsAll stored_all l = l ≡ []
    FitsAll (store k b fs) [] = ⊥
    FitsAll (store k b fs) ((j, q) ∷ l) = (k ≡ lua_key j) × Fits b q × FitsAll fs l

-- The levels of tables.
unfoldable mutual
  pub tables : Pushed → ℕ
  tables (scalar x) = 0
  tables (fresh fs) = suc (tables_below fs)

  pub tables_below : Stores → ℕ
  tables_below stored_all = 0
  tables_below (store k b fs) = max (tables b) (tables_below fs)

-- What holds of a value that is answered.
abbrev Answered : {A : Type 0} → (A → Type 0) → Result A → Type 0
Answered P (ok a) = P a
Answered P (failed e) = Unit

answered_ok : {A : Type 0} (P : A → Type 0) (r : Result A) (a : A) → Answered P r → r ≡ ok a → P a
answered_ok P (ok b) a h e = subst P (cc) h
answered_ok P (failed f) a h e = cc

if_Answered :
    {A : Type 0} (P : A → Type 0) (b : Bool) (x y : Result A)
    → (b ≡ true → Answered P x)
    → (b ≡ false → Answered P y)
    → Answered P (if b then x else y)
if_Answered P true x y hx hy = hx refl
if_Answered P false x y hx hy = hy refl

-- A guard that refuses.
guard-Answered :
    (P : Pushed → Type 0) (b : Bool) (d : Detail) (chain : Chain) (y : Result Pushed)
    → Answered P y
    → Answered P (if b then push_fail d chain else y)
guard-Answered P true d chain y h = tt
guard-Answered P false d chain y h = h

module _ (S : Source) where
  -- What a push of `p` with `n` levels left answers.
  abbrev IsPushOf : ℕ → PhpValue → Pushed → Type 0
  IsPushOf n p b = Fits S b p × (tables b ≤ n)

  abbrev ArePushesOf : ℕ → List (PhpKey × PhpValue) → Stores → Type 0
  ArePushesOf n l fs = FitsAll S fs l × (tables_below fs ≤ n)

  then_store-Answered :
      (n : ℕ) (j : PhpKey) (q : PhpValue) (l : List (PhpKey × PhpValue)) (r : Result Pushed)
      (rest : Result Stores)
      → Answered (IsPushOf n q) r
      → Answered (ArePushesOf n l) rest
      → Answered (ArePushesOf n ((j, q) ∷ l)) (then_store (lua_key j) r rest)
  unfolding Fits tables
  then_store-Answered n j q l (failed e) rest h hs = tt
  then_store-Answered n j q l (ok b) (failed e) h hs = tt
  then_store-Answered n j q l (ok b) (ok fs) h hs = ((refl, h.0, hs.0), omega (arith, h.1, hs.1))

  push_elements-Answered :
      (n : ℕ) (push : Chain → PhpValue → Result Pushed)
      → ((chain : Chain) (p : PhpValue) → Answered (IsPushOf n p) (push chain p))
      → (chain : Chain) (l : List (PhpKey × PhpValue))
      → Answered (ArePushesOf n l) (push_elements S push chain l)
  unfolding push_elements Fits tables
  push_elements-Answered n push h chain [] = (refl, omega arith)
  push_elements-Answered n push h chain ((j, q) ∷ l) =
      then_store-Answered n j q l (push (pushed_child S j chain) q) (push_elements S push chain l)
        (h (pushed_child S j chain) q) (push_elements-Answered n push h chain l)

  abbrev IsPushing : ℕ → Option (Chain → PhpValue → Result Pushed) → Type 0
  IsPushing n none = Unit
  IsPushing n (some push) =
      (m : ℕ) × (n ≡ suc m)
      × ((chain : Chain) (p : PhpValue) → Answered (IsPushOf m p) (push chain p))

  -- What a push after ZVAL_DEREF answers.
  abbrev IsTypedPush : ℕ → PhpValue → Pushed → Type 0
  IsTypedPush n (php_array a) b =
      (fs : Stores) × (b ≡ fresh fs) × FitsAll S fs (S.arrays a) × (suc (tables_below fs) ≤ n)
  IsTypedPush n p b = (x : LuaValue) × (b ≡ scalar x) × IsScalarOf S x p

  as_table-Answered :
      (m a : ℕ) (r : Result Stores)
      → Answered (ArePushesOf m (S.arrays a)) r
      → Answered (IsTypedPush (suc m) (php_array a)) (as_table r)
  as_table-Answered m a (ok fs) h = (fs, refl, h.0, omega (arith, h.1))
  as_table-Answered m a (failed e) h = tt

  push_array-Answered :
      (n : ℕ) (o : Option (Chain → PhpValue → Result Pushed)) (depth : ℕ) (chain : Chain) (a : ℕ)
      → IsPushing n o
      → Answered (IsTypedPush n (php_array a)) (push_array S o depth chain a)
  unfolding push_array
  push_array-Answered n none depth chain a h = tt
  push_array-Answered n (some push) depth chain a (m, e, h) =
      if_Answered (IsTypedPush n (php_array a)) (is_ancestor a (parents_of chain))
        (push_fail circular chain)
        (if S.stack_grows depth
          then as_table (push_elements S push (entered a chain) (S.arrays a))
          else push_fail stack_full (entered a chain))
        (λ c. tt)
        (λ c.
          if_Answered (IsTypedPush n (php_array a)) (S.stack_grows depth)
            (as_table (push_elements S push (entered a chain) (S.arrays a)))
            (push_fail stack_full (entered a chain))
            (λ g.
              subst
                (λ n.
                  Answered (IsTypedPush n (php_array a))
                    (as_table (push_elements S push (entered a chain) (S.arrays a))))
                (sym e)
                (as_table-Answered m a (push_elements S push (entered a chain) (S.arrays a))
                  (push_elements-Answered m push h (entered a chain) (S.arrays a))))
            (λ g. tt))

  proxy-Answered :
      (n o : ℕ) (u : Option ℕ) (chain : Chain)
      → S.proxy_for o ≡ u
      → Answered (IsTypedPush n (php_object o)) (pushed_proxy S u chain)
  proxy-Answered n o none chain e = tt
  proxy-Answered n o (some u) chain e = (userdata u, refl, (u, e, refl))

  push_function-Answered :
      (n depth : ℕ) (chain : Chain) (f : ℕ)
      → Answered (IsTypedPush n (php_function f)) (push_function S depth chain f)
  unfolding push_function
  push_function-Answered n depth chain f =
      let slot = S.slot (S.ref_of f) in
      let P = IsTypedPush n (php_function f) in
      guard-Answered P (not (S.is_own f)) foreign_function chain _ (
        guard-Answered P (ltb (S.ref_of f) 1) dead_function chain _ (
          guard-Answered P (not (S.stack_grows depth)) stack_full chain _ (
            if_Answered P (is_function slot) (ok (scalar slot)) (push_fail released_function chain)
              (λ e. (slot, refl, (refl, e))) (λ e. tt))))

  push_object-Answered :
      (n depth : ℕ) (chain : Chain) (o : ℕ)
      → Answered (IsTypedPush n (php_object o)) (push_object S depth chain o)
  unfolding push_object
  push_object-Answered n depth chain o =
      if_Answered (IsTypedPush n (php_object o)) (S.stack_grows depth)
        (pushed_proxy S (S.proxy_for o) chain) (push_fail stack_full chain)
        (λ g. proxy-Answered n o (S.proxy_for o) chain refl) (λ g. tt)

  push_text-Answered :
      (n : ℕ) (chain : Chain) (s : List ℕ)
      → Answered (IsTypedPush n (php_text s)) (push_text S chain s)
  unfolding push_text
  push_text-Answered n chain s =
      guard-Answered (IsTypedPush n (php_text s))
        (not (S.max_string_length == 0) && ltb S.max_string_length (length s)) string_too_long chain
        (ok (scalar (string s))) (string s, refl, refl)

  push_typed-Answered :
      (n : ℕ) (o : Option (Chain → PhpValue → Result Pushed)) (depth : ℕ) (chain : Chain)
      (p : PhpValue)
      → IsPushing n o
      → Answered (IsTypedPush n p) (push_typed S o depth chain p)
  unfolding push_typed
  push_typed-Answered n o depth chain php_null h = (nil, refl, refl)
  push_typed-Answered n o depth chain php_other h = tt
  push_typed-Answered n o depth chain (php_flag b) h = (boolean b, refl, refl)
  push_typed-Answered n o depth chain (php_long z) h = (integer z, refl, refl)
  push_typed-Answered n o depth chain (php_double d) h = (float d, refl, refl)
  push_typed-Answered n o depth chain (php_text s) h = push_text-Answered n chain s
  push_typed-Answered n o depth chain (php_array a) h = push_array-Answered n o depth chain a h
  push_typed-Answered n o depth chain (php_object x) h = push_object-Answered n depth chain x
  push_typed-Answered n o depth chain (php_function f) h = push_function-Answered n depth chain f
  push_typed-Answered n o depth chain (reference r) h = tt

  scalar_push :
      (n : ℕ) (p : PhpValue) (b : Pushed)
      → (x : LuaValue) × (b ≡ scalar x) × IsScalarOf S x (deref S p)
      → IsPushOf n p b
  unfolding Fits tables
  scalar_push n p b (x, e, h) = rw e (h, omega arith)

  -- From the pushed value after ZVAL_DEREF to that before.
  typed_push :
      (n : ℕ) (p q : PhpValue) (b : Pushed) → deref S p ≡ q → IsTypedPush n q b → IsPushOf n p b
  unfolding Fits tables
  typed_push n p php_null b e h = scalar_push n p b (h.0, h.1, rw e (h.2))
  typed_push n p php_other b e h = scalar_push n p b (h.0, h.1, rw e (h.2))
  typed_push n p (php_flag x) b e h = scalar_push n p b (h.0, h.1, rw e (h.2))
  typed_push n p (php_long x) b e h = scalar_push n p b (h.0, h.1, rw e (h.2))
  typed_push n p (php_double x) b e h = scalar_push n p b (h.0, h.1, rw e (h.2))
  typed_push n p (php_text x) b e h = scalar_push n p b (h.0, h.1, rw e (h.2))
  typed_push n p (php_array a) b e (fs, eb, fit, le) = rw eb ((a, e, fit), le)
  typed_push n p (php_object x) b e h = scalar_push n p b (h.0, h.1, rw e (h.2))
  typed_push n p (php_function x) b e h = scalar_push n p b (h.0, h.1, rw e (h.2))
  typed_push n p (reference x) b e h = scalar_push n p b (h.0, h.1, rw e (h.2))

  typed-Answered :
      (n : ℕ) (p : PhpValue) (r : Result Pushed)
      → Answered (IsTypedPush n (deref S p)) r
      → Answered (IsPushOf n p) r
  typed-Answered n p (ok b) h = typed_push n p (deref S p) b refl h
  typed-Answered n p (failed e) h = tt

  push_value-Answered :
      (n depth : ℕ) (chain : Chain) (p : PhpValue)
      → Answered (IsPushOf n p) (push_value S n depth chain p)
  unfolding push_value
  push_value-Answered zero depth chain p =
      typed-Answered zero p (push_typed S none depth chain (deref S p))
        (push_typed-Answered zero none depth chain (deref S p) tt)
  push_value-Answered (suc n) depth chain p =
      let next = push_value S n (suc depth) in
      typed-Answered (suc n) p (push_typed S (some next) depth chain (deref S p)) (
        push_typed-Answered (suc n) (some next) depth chain (deref S p)
          (n, refl, λ chain q. push_value-Answered n (suc depth) chain q))

  pub push_zval-Fits :
      (p : PhpValue) (b : Pushed)
      → push_zval S p ≡ ok b
      → Fits S b p × (tables b ≤ depth_limit S.max_conversion_depth)
  unfolding push_zval
  push_zval-Fits p b e =
      let limit = depth_limit S.max_conversion_depth in
      answered_ok (IsPushOf limit p) (push_value S limit 0 (step_root ∷ []) p) b
        (push_value-Answered limit 0 (step_root ∷ []) p) e
