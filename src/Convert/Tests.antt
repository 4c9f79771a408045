-- ===== src/Convert/Tests.antt =====
-- Runs of src/luaext_convert.c.
use lua_ext.Base.{
  ℕ, ◌+◌, ◌≡◌, ◌↔◌, ◌≤◌, ◌≢◌, refl, Bool, true, false, Option, none, some, List, [], ◌∷◌, ◌==◌, ℤ,
  pos, if◌then◌else◌, arith,
}
use lua_ext.Alloc.{Memory, charge, discharge, fits, tune_gc}
use lua_ext.Alloc.Tuning.{tier}
use lua_ext.Alloc.AsBudget.{alloc_budget, alloc_budget-BudgetLaws}
use lua_ext.Alloc.Example.{example_host, small, small-IsSound}
use lua_ext.Convert.{
  LuaValue, nil, boolean, integer, string, table, function, index, name, Zval, flag, text, array,
  end, element, exists, update, Env, Result, ok, failed, depth_limit, ◌>>=◌,
}
use lua_ext.Convert.ToPhp.{
  to_zval, convert_value, convert_typed, convert_table, walk, convert_entry, convert_key, check_irq,
  check_collision, account_element, account, is_ancestor,
}
use lua_ext.Convert.Mirror.{Mirrors, IsDistinct, levels}
use lua_ext.Convert.Plain.{IsPlain}
use lua_ext.Convert.Answers.{IsCalm}
use lua_ext.Convert.Complete.{to_zval_iff}
use lua_ext.Convert.Billing.{IsApart, to_zval-billed}
use lua_ext.Convert.Refs.{
  HandleCall, creating, releasing, handle_calls, handle_call, no_handles, ref_create, ref_push,
  ref_release, freelist_push,
}
use lua_ext.Convert.Refs.Runs.{handles_read}

-- Table 1 holds a table and a text, table 2 one value under a numeric string, table 3 itself, and
-- table 4 the keys 1 and "1".
heap : ℕ → List (LuaValue × LuaValue)
heap id =
    if id == 1
    then (integer (pos 1), string (b'h' ∷ b'i' ∷ [])) ∷ (string (b'k' ∷ []), table 2) ∷ []
    else if id == 2
    then (string (b'1' ∷ []), boolean true) ∷ []
    else if id == 3
    then (integer (pos 1), table 3) ∷ []
    else if id == 4
    then (integer (pos 1), nil) ∷ (string (b'1' ∷ []), nil) ∷ []
    else []

-- Of the strings used here only "1" is numeric.
is_one : List ℕ → Option ℤ
is_one [] = none
is_one (c ∷ []) = if c == b'1' then some (pos 1) else none
is_one (c ∷ d ∷ cs) = none

abbrev example_env : Env (Memory example_host)
example_env = record {
  entries = heap;
  numeric = is_one;
  proxied = λ u. none;
  stack_grows = λ depth. true;
  pending = λ n. false;
  max_conversion_depth = 2;
  bucket_bytes = 32;
  string_bytes = 24;
  budget = alloc_budget example_host;
  make_ref = λ f w. (some 1, w);
  destroy = λ z w. w;
}

abbrev example_array : Zval
example_array = array (
    element (index (pos 1)) (text (b'h' ∷ b'i' ∷ []))
      (element (name (b'k' ∷ [])) (array (element (index (pos 1)) (flag true) end)) end))

nested_table : (to_zval example_env true (table 1) small).0 ≡ ok example_array
unfolding to_zval convert_value convert_typed convert_table walk convert_entry convert_key check_irq
    check_collision account_element account is_ancestor exists update depth_limit ◌>>=◌ heap is_one
    charge fits tune_gc tier
nested_table = refl

example-IsCalm : IsCalm example_env
example-IsCalm = record { grows = λ depth. refl; quiet = λ n. refl }

example-IsPlain : IsPlain example_array
unfolding IsPlain
example-IsPlain = (tt, ((tt, tt), tt))

to_zval_iff_example : ((to_zval example_env false (table 1) small).0 ≡ ok example_array) ↔ (
    Mirrors example_env example_array (table 1)
    × IsDistinct example_array
    × (levels example_array ≤ depth_limit 2))
to_zval_iff_example =
    to_zval_iff example_env example-IsCalm (table 1) small example_array example-IsPlain

-- A table that holds itself, and one with two keys that PHP stores as one, are refused.
refused : {A : Type 0} → Result A → Bool
refused (ok a) = false
refused (failed e) = true

circular_refused : refused (to_zval example_env false (table 3) small).0 ≡ true
unfolding to_zval convert_value convert_typed convert_table walk convert_entry convert_key check_irq
    check_collision account_element account is_ancestor exists update depth_limit ◌>>=◌ heap is_one
    refused
circular_refused = refl

collision_refused : refused (to_zval example_env false (table 4) small).0 ≡ true
unfolding to_zval convert_value convert_typed convert_table walk convert_entry convert_key check_irq
    check_collision account_element account is_ancestor exists update depth_limit ◌>>=◌ heap is_one
    refused
collision_refused = refl

example-IsApart : IsApart example_env (alloc_budget-BudgetLaws example_host)
example-IsApart = record {
  bounded = λ w h. ground (arith, h.live_word);
  ref_sound = λ f w h. h;
  ref_charged = λ f w h. refl;
  destroy_sound = λ z w h. h;
  destroy_charged = λ z w h. refl;
}

to_zval-billed_example :
    let c = (to_zval example_env true (table 1) small).1 in
    (c.world.alloc.charged ≡ small.alloc.charged + c.produced)
    × ((discharge example_host c.produced c.world).alloc.charged ≡ small.alloc.charged)
to_zval-billed_example =
    to_zval-billed example_env true (alloc_budget-BudgetLaws example_host) example-IsApart (table 1)
      small small-IsSound

-- Two handles, of which one is given up and its slot taken again.
abbrev some_calls : List HandleCall
some_calls =
    creating true true (function 7)
    ∷ creating true true (function 8)
    ∷ releasing true 1
    ∷ creating true true (function 9)
    ∷ []

kept_handle : (handle_calls some_calls no_handles).live 2 ≡ some (function 8)
unfolding handle_calls handle_call ref_create ref_release freelist_push
kept_handle = refl

next_handle : (ref_create true true nil (handle_calls some_calls no_handles).refs).0 ≡ some 3
unfolding handle_calls handle_call ref_create ref_release freelist_push
next_handle = refl

handles_read_example :
    (ref_push 2 (handle_calls some_calls no_handles).refs ≡ function 8) × (◌≢◌ {A = ℕ} 3 2)
handles_read_example =
    handles_read some_calls 2 (function 8) true true nil 3 kept_handle next_handle
