-- ===== src/Convert/Billing.antt =====
-- What src/luaext_convert.c bills for a conversion is what the memory accounting was charged.
use Prim.Native.Nat.{bit_and}
use lua_ext.Base.{
  ℕ, zero, suc, ◌+◌, ◌-◌, ◌%◌, ◌^◌, ◌<◌, ◌≡◌, refl, sym, ◌∙◌, ap, Bool, true, false, not, ◌&&◌,
  Option, none, some, List, [], ◌∷◌, ◌==◌, arith, if◌then◌else◌, add_size, word, length,
}
use lua_ext.Base.Budget.{Budget, BudgetLaws}
use lua_ext.Convert.{
  LuaValue, nil, absent, boolean, integer, float, string, table, function, thread, userdata,
  light_userdata, PhpKey, Zval, text, array, Elements, end, exists, update, KeyStep, Chain, Result,
  ok, failed, Env, Ctx, Action, follow, ◌>>=◌, pure, to_fail, step_root, depth_limit, colliding_key,
  interrupted, circular, stack_full,
}
use lua_ext.Convert.ToPhp.{
  stored_key, account, after_charge, try_charge, convert_function, after_ref, convert_key,
  check_irq, check_collision, kept_or_dropped, account_element, child_of, convert_checked,
  convert_keyed, convert_entry, walk, store_entry, convert_table, converted_userdata, convert_typed,
  convert_value, to_zval, entered, is_ancestor, parents_of, element_bytes, counted, dropped,
  irq_stride,
}

-- What is relied on: the accounting's sum is a machine word, and what takes a slot or destroys a
-- value charges nothing.
pub record IsApart {W : Type 0} (E : Env W) (L : BudgetLaws E.budget) : Type 0 where
  pub bounded : (w : W) → L.IsSound w → L.charged w < word
  pub ref_sound : (f : ℕ) (w : W) → L.IsSound w → L.IsSound (E.make_ref f w).1
  pub ref_charged : (f : ℕ) (w : W) → L.IsSound w → L.charged (E.make_ref f w).1 ≡ L.charged w
  pub destroy_sound : (z : Zval) (w : W) → L.IsSound w → L.IsSound (E.destroy z w)
  pub destroy_charged : (z : Zval) (w : W) → L.IsSound w → L.charged (E.destroy z w) ≡ L.charged w

-- Where the sum is a machine word, so is what was produced.
billed_sum :
    (b : Bool) (produced n base total : ℕ)
    → total ≡ base + (if b then produced else 0) + (if b then n else 0)
    → total < word
    → total ≡ base + (if b then add_size produced n else 0)
billed_sum true produced n base total e h = omega arith
billed_sum false produced n base total e h = omega arith

billed_nothing : (b : Bool) (n : ℕ) → b && not (n == 0) ≡ false → (if b then n else 0) ≡ 0
billed_nothing true n e = ground arith
billed_nothing false n e = refl

billed_all : (b : Bool) (n : ℕ) → b && not (n == 0) ≡ true → (if b then n else 0) ≡ n
billed_all true n e = refl
billed_all false n e = cc

module _ {W : Type 0} (E : Env W) (bill : Bool) (L : BudgetLaws E.budget) (apart : IsApart E L)
    (base : ℕ) where
  abbrev billed : ℕ → ℕ
  billed n = if bill then n else 0

  -- The accounting holds `base` and what is billed.
  abbrev IsBilled : Ctx W → Type 0
  IsBilled c = L.IsSound c.world × (L.charged c.world ≡ base + billed c.produced)

  abbrev Keeps : {A : Type 0} → Action W A → Type 0
  Keeps m = (c : Ctx W) → IsBilled c → IsBilled (m c).1

  follow-IsBilled :
      {A B : Type 0} (f : A → Action W B) (r : Result A × Ctx W)
      → IsBilled r.1
      → ((a : A) → Keeps (f a))
      → IsBilled (follow f r).1
  follow-IsBilled f (ok a, c) h next = next a c h
  follow-IsBilled f (failed e, c) h next = h

  -- What a charge does, if one is asked for.
  abbrev Charges : ℕ → W → Bool × W → Type 0
  Charges n w r =
      L.IsSound r.1
      × (r.0 ≡ true → L.charged r.1 ≡ L.charged w + billed n)
      × (r.0 ≡ false → L.charged r.1 ≡ L.charged w)

  if-Charges :
      (b : Bool) (n : ℕ) (w : W)
      → L.IsSound w
      → bill && not (n == 0) ≡ b
      → Charges n w (if b then E.budget.charge n w else (true, w))
  if-Charges true n w h e = (
    L.charge-IsSound n w h,
    λ taken. L.charge_taken n w h taken ∙ ap (λ m. L.charged w + m) (sym (billed_all bill n e)),
    λ refused. ap L.charged (L.charge_refused n w h refused),
  )
  if-Charges false n w h e = (h, λ t. omega (arith, billed_nothing bill n e), λ f. refl)

  charge-IsBilled :
      (n : ℕ) (c : Ctx W) (chain : Chain) (r : Bool × W)
      → IsBilled c
      → Charges n c.world r
      → IsBilled (after_charge E bill n chain c r).1
  charge-IsBilled n c chain (true, w) h charges =
      let total = charges.1 refl in
      (
        charges.0,
        billed_sum bill c.produced n base (L.charged w) (omega (arith, total, h.1))
            (apart.bounded w charges.0),
      )
  charge-IsBilled n c chain (false, w) h charges = (charges.0, charges.2 refl ∙ h.1)

  account-Keeps : (n : ℕ) (chain : Chain) → Keeps (account E bill n chain)
  unfolding account
  account-Keeps n chain c h =
      charge-IsBilled n c chain (try_charge E bill n c.world) h
        (if-Charges (bill && not (n == 0)) n c.world h.0 refl)

  dropped-IsBilled : (z : Zval) (c : Ctx W) → IsBilled c → IsBilled (dropped E bill z c)
  dropped-IsBilled z c h =
      (apart.destroy_sound z c.world h.0, apart.destroy_charged z c.world h.0 ∙ h.1)

  ref-IsBilled :
      (chain : Chain) (c : Ctx W) (r : Option ℕ × W)
      → L.IsSound r.1
      → L.charged r.1 ≡ base + billed c.produced
      → IsBilled (after_ref E bill chain c r).1
  ref-IsBilled chain c (some ref, w) s e = (s, e)
  ref-IsBilled chain c (none, w) s e = (s, e)

  convert_function-Keeps : (f : ℕ) (chain : Chain) → Keeps (convert_function E bill f chain)
  unfolding convert_function
  convert_function-Keeps f chain c h =
      ref-IsBilled chain c (E.make_ref f c.world) (apart.ref_sound f c.world h.0)
        (apart.ref_charged f c.world h.0 ∙ h.1)

  convert_key-Keeps : (kv : LuaValue) (chain : Chain) → Keeps (convert_key E bill kv chain)
  unfolding convert_key
  convert_key-Keeps nil chain c h = h
  convert_key-Keeps absent chain c h = h
  convert_key-Keeps (boolean b) chain c h = h
  convert_key-Keeps (integer z) chain c h = h
  convert_key-Keeps (float d) chain c h = h
  convert_key-Keeps (string s) chain c h = h
  convert_key-Keeps (table id) chain c h = h
  convert_key-Keeps (function f) chain c h = h
  convert_key-Keeps (thread t) chain c h = h
  convert_key-Keeps (userdata u) chain c h = h
  convert_key-Keeps (light_userdata u) chain c h = h

  either-IsBilled :
      {A : Type 0} (b : Bool) (x y : Result A × Ctx W)
      → IsBilled x.1
      → IsBilled y.1
      → IsBilled (if b then x else y).1
  either-IsBilled true x y hx hy = hx
  either-IsBilled false x y hx hy = hy

  if-IsBilled :
      {A : Type 0} (b : Bool) (x y : Action W A) (c : Ctx W)
      → IsBilled (x c).1
      → IsBilled (y c).1
      → IsBilled ((if b then x else y) c).1
  if-IsBilled true x y c hx hy = hx
  if-IsBilled false x y c hx hy = hy

  check_irq-Keeps : (chain : Chain) → Keeps (check_irq E bill chain)
  unfolding check_irq
  check_irq-Keeps chain c h =
      let n = (c.elements + 1) % 2 ^ 32 in
      either-IsBilled (bit_and n (irq_stride - 1) == 0 && E.pending n)
        (to_fail interrupted chain (counted E bill c)) (pure tt (counted E bill c)) h h

  check_collision-Keeps :
      (k : KeyStep) (target : Elements) (chain : Chain)
      → Keeps (check_collision E bill k target chain)
  unfolding check_collision
  check_collision-Keeps k target chain c h =
      if-IsBilled (exists (stored_key k) target) (to_fail (colliding_key k) chain) (pure tt) c h h

  kept-IsBilled :
      (k : PhpKey) (z : Zval) (r : Result (Unit {0}) × Ctx W)
      → IsBilled r.1
      → IsBilled (kept_or_dropped E bill k z r).1
  kept-IsBilled k z (ok u, c) h = h
  kept-IsBilled k z (failed e, c) h = dropped-IsBilled z c h

  account_element-Keeps :
      (chain : Chain) (k : KeyStep) (z : Zval) → Keeps (account_element E bill chain k z)
  unfolding account_element
  account_element-Keeps chain k z c h =
      kept-IsBilled (stored_key k) z (account E bill (element_bytes E bill k) chain c)
        (account-Keeps (element_bytes E bill k) chain c h)

  abbrev IsKeeping : (Chain → LuaValue → Action W Zval) → Type 0
  IsKeeping convert = (chain : Chain) (v : LuaValue) → Keeps (convert chain v)

  convert_keyed-Keeps :
      (convert : Chain → LuaValue → Action W Zval) (chain : Chain) (target : Elements)
      (v : LuaValue)
      → IsKeeping convert
      → (k : KeyStep) → Keeps (convert_keyed E bill convert chain target v k)
  unfolding ◌>>=◌
  convert_keyed-Keeps convert chain target v keep k c h =
      follow-IsBilled (λ u. convert_checked E bill convert chain v k)
        (check_collision E bill k target chain c) (check_collision-Keeps k target chain c h)
        (λ u c1 h1.
          follow-IsBilled (account_element E bill chain k) (convert (child_of E bill k chain) v c1)
            (keep (child_of E bill k chain) v c1 h1) (λ z. account_element-Keeps chain k z))

  convert_entry-Keeps :
      (convert : Chain → LuaValue → Action W Zval) (chain : Chain) (target : Elements)
      (kv v : LuaValue)
      → IsKeeping convert
      → Keeps (convert_entry E bill convert chain target kv v)
  unfolding convert_entry ◌>>=◌
  convert_entry-Keeps convert chain target kv v keep c h =
      follow-IsBilled
        (λ u. convert_key E bill kv chain >>= convert_keyed E bill convert chain target v)
        (check_irq E bill chain c) (check_irq-Keeps chain c h)
        (λ u c1 h1.
          follow-IsBilled (convert_keyed E bill convert chain target v)
            (convert_key E bill kv chain c1) (convert_key-Keeps kv chain c1 h1)
            (convert_keyed-Keeps convert chain target v keep))

  store_entry-IsBilled :
      (next : Elements → Action W Zval) (target : Elements) (r : Result (PhpKey × Zval) × Ctx W)
      → IsBilled r.1
      → ((es : Elements) → Keeps (next es))
      → IsBilled (store_entry E bill next target r).1
  store_entry-IsBilled next target (ok (k, z), c) h keep = keep (update k z target) c h
  store_entry-IsBilled next target (failed e, c) h keep = dropped-IsBilled (array target) c h

  walk-Keeps :
      (convert : Chain → LuaValue → Action W Zval) (chain : Chain)
      → IsKeeping convert
      → (l : List (LuaValue × LuaValue)) (target : Elements)
      → Keeps (walk E bill convert chain l target)
  unfolding walk
  walk-Keeps convert chain keep [] target c h = h
  walk-Keeps convert chain keep ((kv, v) ∷ l) target c h =
      store_entry-IsBilled (walk E bill convert chain l) target
        (convert_entry E bill convert chain target kv v c)
        (convert_entry-Keeps convert chain target kv v keep c h)
        (λ es. walk-Keeps convert chain keep l es)

  abbrev MayKeep : Option (Chain → LuaValue → Action W Zval) → Type 0
  MayKeep none = Unit
  MayKeep (some convert) = IsKeeping convert

  convert_table-Keeps :
      (o : Option (Chain → LuaValue → Action W Zval)) (depth : ℕ) (chain : Chain) (id : ℕ)
      → MayKeep o
      → Keeps (convert_table E bill o depth chain id)
  unfolding convert_table
  convert_table-Keeps none depth chain id keep c h = h
  convert_table-Keeps (some convert) depth chain id keep c h =
      if-IsBilled (is_ancestor id (parents_of chain)) (to_fail circular chain)
        (if E.stack_grows depth
          then walk E bill convert (entered id chain) (E.entries id) end
          else to_fail stack_full (entered id chain))
        c h
        (if-IsBilled (E.stack_grows depth)
          (walk E bill convert (entered id chain) (E.entries id) end)
          (to_fail stack_full (entered id chain)) c
          (walk-Keeps convert (entered id chain) keep (E.entries id) end c h) h)

  userdata-Keeps : (o : Option ℕ) (chain : Chain) → Keeps (converted_userdata E bill o chain)
  userdata-Keeps none chain c h = h
  userdata-Keeps (some x) chain c h = h

  convert_typed-Keeps :
      (o : Option (Chain → LuaValue → Action W Zval)) (depth : ℕ) (chain : Chain) (v : LuaValue)
      → MayKeep o
      → Keeps (convert_typed E bill o depth chain v)
  unfolding convert_typed ◌>>=◌
  convert_typed-Keeps o depth chain nil keep c h = h
  convert_typed-Keeps o depth chain absent keep c h = h
  convert_typed-Keeps o depth chain (boolean b) keep c h = h
  convert_typed-Keeps o depth chain (integer z) keep c h = h
  convert_typed-Keeps o depth chain (float d) keep c h = h
  convert_typed-Keeps o depth chain (string s) keep c h =
      follow-IsBilled (λ u. pure (text s))
        (account E bill (add_size (length s) E.string_bytes) chain c)
        (account-Keeps (add_size (length s) E.string_bytes) chain c h) (λ u c h. h)
  convert_typed-Keeps o depth chain (table id) keep c h =
      convert_table-Keeps o depth chain id keep c h
  convert_typed-Keeps o depth chain (function f) keep c h = convert_function-Keeps f chain c h
  convert_typed-Keeps o depth chain (thread t) keep c h = h
  convert_typed-Keeps o depth chain (userdata u) keep c h = userdata-Keeps (E.proxied u) chain c h
  convert_typed-Keeps o depth chain (light_userdata u) keep c h = h

  convert_value-Keeps : (n depth : ℕ) → IsKeeping (convert_value E bill n depth)
  unfolding convert_value
  convert_value-Keeps zero depth chain v = convert_typed-Keeps none depth chain v tt
  convert_value-Keeps (suc n) depth chain v =
      convert_typed-Keeps (some (convert_value E bill n (suc depth))) depth chain v
        (convert_value-Keeps n (suc depth))

billed_none : (b : Bool) (n : ℕ) → n ≡ n + (if b then 0 else 0)
billed_none true n = omega arith
billed_none false n = omega arith

-- Giving back what was billed.
settled :
    {W : Type 0} (B : Budget W) (L : BudgetLaws B) (b : Bool) (n base : ℕ) (w : W)
    → L.IsSound w
    → L.charged w ≡ base + (if b then n else 0)
    → L.charged (if b then B.discharge n w else w) ≡ base
settled B L true n base w h e = omega (arith, L.discharged n w h, e)
settled B L false n base w h e = omega (arith, e)

-- Where the memory accounting keeps its laws, its sum is a machine word, and making references and
-- destroying values charge nothing: a conversion, done or refused, leaves the accounting with
-- exactly what it reports as billed above what it held, or with nothing where it does not bill,
-- and giving that back leaves what was held before.
pub to_zval-billed :
    {W : Type 0} (E : Env W) (bill : Bool) (L : BudgetLaws E.budget)
    → IsApart E L
    → (v : LuaValue) (w : W) → L.IsSound w
    → let c = (to_zval E bill v w).1 in
      (L.charged c.world ≡ L.charged w + (if bill then c.produced else 0))
      × (L.charged (if bill then E.budget.discharge c.produced c.world else c.world) ≡ L.charged w)
unfolding to_zval
to_zval-billed {W} E bill L apart v w h =
    let start : Ctx W = record { world = w; produced = 0; elements = 0 } in
    let limit = depth_limit E.max_conversion_depth in
    let c = (convert_value E bill limit 0 (step_root ∷ []) v start).1 in
    let kept =
      convert_value-Keeps E bill L apart (L.charged w) limit 0 (step_root ∷ []) v start
        (h, billed_none bill (L.charged w)) in
    (kept.1, settled E.budget L bill c.produced (L.charged w) c.world kept.0 kept.1)
