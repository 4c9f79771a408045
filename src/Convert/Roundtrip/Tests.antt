-- ===== src/Convert/Roundtrip/Tests.antt =====
-- A value pushed by src/luaext_convert.c and read back.
use lua_ext.Base.{ℕ, zero, suc, inl, inr, ◌≡◌, refl, true, false, none, some, List, [], ◌∷◌, pos}
use lua_ext.Alloc.{Memory}
use lua_ext.Alloc.AsBudget.{alloc_budget}
use lua_ext.Alloc.Example.{example_host, small}
use lua_ext.Convert.{
  LuaValue, nil, boolean, integer, string, table, PhpKey, index, name, Zval, Env, ok, depth_limit,
}
use lua_ext.Convert.ToPhp.{to_zval, is_ancestor}
use lua_ext.Convert.ToLua.{
  PhpValue, php_null, php_flag, php_text, php_array, Pushed, scalar, fresh, stored_all, store,
  Source, lua_key, push_zval, push_value, push_typed, push_array, push_elements, push_text,
}
use lua_ext.Convert.Mirror.{key_of}
use lua_ext.Convert.Answers.{IsCalm}
use lua_ext.Convert.Back.{IsStored, IsBack, Agree}
use lua_ext.Convert.Roundtrip.{push_zval-to_zval}

-- An array of PHP with a text, an array and a null, and the tables that it is pushed as; `lua_next`
-- visits them in another order.
abbrev two_arrays : ℕ → List (PhpKey × PhpValue)
two_arrays zero =
    (index (pos 1), php_text (b'h' ∷ b'i' ∷ []))
    ∷ (name (b'k' ∷ []), php_array 1)
    ∷ (name (b'n' ∷ []), php_null)
    ∷ []
two_arrays (suc zero) = (index (pos 7), php_flag true) ∷ []
two_arrays (suc (suc n)) = []

abbrev two_tables : ℕ → List (LuaValue × LuaValue)
two_tables zero = (string (b'k' ∷ []), table 1) ∷ (integer (pos 1), string (b'h' ∷ b'i' ∷ [])) ∷ []
two_tables (suc zero) = (integer (pos 7), boolean true) ∷ []
two_tables (suc (suc n)) = []

abbrev pushing : Source
pushing = record {
  arrays = two_arrays;
  referent = λ r. php_null;
  max_string_length = 0;
  max_conversion_depth = 2;
  stack_grows = λ depth. true;
  proxy_for = λ o. none;
  is_own = λ f. false;
  ref_of = λ f. 0;
  slot = λ r. nil;
}

abbrev reading : Env (Memory example_host)
reading = record {
  entries = two_tables;
  numeric = λ s. none;
  proxied = λ u. none;
  stack_grows = λ depth. true;
  pending = λ n. false;
  max_conversion_depth = 2;
  bucket_bytes = 32;
  string_bytes = 24;
  budget = alloc_budget example_host;
  make_ref = λ f w. (some 1, w);
  destroy = λ z w. w;
}

abbrev pushed_array : Pushed
pushed_array = fresh (
    store (integer (pos 1)) (scalar (string (b'h' ∷ b'i' ∷ []))) (
      store (string (b'k' ∷ []))
        (fresh (store (integer (pos 7)) (scalar (boolean true)) stored_all))
        (store (string (b'n' ∷ [])) (scalar nil) stored_all)))

is_pushed : push_zval pushing (php_array 0) ≡ ok pushed_array
unfolding push_zval push_value push_typed push_array push_elements push_text is_ancestor depth_limit
is_pushed = refl

reading-IsCalm : IsCalm reading
reading-IsCalm = record { grows = λ depth. refl; quiet = λ n. refl }

integer_or_name : (k : PhpKey) → key_of (λ s. none) (lua_key k) ≡ some k
unfolding key_of
integer_or_name (index z) = refl
integer_or_name (name s) = refl

reading-Agree : Agree reading pushing
reading-Agree = record {
  normal = λ a k q entry. integer_or_name k;
  proxies = λ o u e. cc;
  no_functions = λ f. refl;
}

is_stored : IsStored reading pushed_array (table 0)
unfolding IsStored
is_stored = (
  0,
  refl,
  (
    inr (
        inl (
          refl,
          λ e. cc,
          (1, refl, (inl (refl, λ e. cc, refl), tt), (inr (inl refl), tt), (tt, tt)),
        )),
    (inl (refl, λ e. cc, refl), tt),
  ),
  (inr (inr (inl refl)), (inr (inl refl), (inl refl, tt))),
  ((λ e. cc, tt), (tt, tt)),
)

push_zval-to_zval_example :
    (z : Zval) × ((to_zval reading false (table 0) small).0 ≡ ok z) × IsBack pushing z (php_array 0)
push_zval-to_zval_example =
    push_zval-to_zval reading pushing reading-IsCalm reading-Agree refl (php_array 0) pushed_array
      (table 0) small is_pushed is_stored
