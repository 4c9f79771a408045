-- ===== src/Convert/Refs.antt =====
-- The registry's slots for Lua values that PHP holds: the last part of src/luaext_convert.c.
pub mod Refined
pub mod Runs
use lua_ext.Base.{
  ℕ, zero, suc, ◌+◌, ◌*◌, ◌^◌, Bool, true, false, Option, none, some, List, [], ◌∷◌, ltb, ◌==◌,
  if◌then◌else◌, length,
}
use lua_ext.Convert.{LuaValue, nil}

-- The fields of `luaext_sandbox` for references, and the refs table in Lua's registry. The free list
-- has the slot at its end first; its length is `ref_freelist_len`.
pub record Refs : Type 0 where
  pub next_ref : ℕ
  pub ref_freelist : List ℕ
  pub ref_freelist_cap : ℕ
  pub slots : ℕ → LuaValue

-- LUAEXT_REF_FIRST, LUAEXT_REF_FREELIST_MAX and INT_MAX
abbrev pub ref_first : ℕ
ref_first = 1

abbrev pub ref_freelist_max : ℕ
ref_freelist_max = 2 ^ 20

abbrev pub int_max : ℕ
int_max = 2147483647

abbrev pub grown_cap : ℕ → ℕ
grown_cap cap = if cap == 0 then 8 else cap * 2

abbrev pub with_free : List ℕ → ℕ → Refs → Refs
with_free free cap s = record {
  next_ref = s.next_ref;
  ref_freelist = free;
  ref_freelist_cap = cap;
  slots = s.slots;
}

-- `luaext_convert_freelist_push`
unfoldable pub freelist_push : ℕ → Refs → Refs
freelist_push ref s =
    if length s.ref_freelist == s.ref_freelist_cap
    then if ltb ref_freelist_max (grown_cap s.ref_freelist_cap)
      then s
      else with_free (ref ∷ s.ref_freelist) (grown_cap s.ref_freelist_cap) s
    else with_free (ref ∷ s.ref_freelist) s.ref_freelist_cap s

-- `lua_rawseti` on the refs table
abbrev pub written : ℕ → LuaValue → Refs → Refs
written ref v s = record {
  next_ref = s.next_ref;
  ref_freelist = s.ref_freelist;
  ref_freelist_cap = s.ref_freelist_cap;
  slots = λ i. if i == ref then v else s.slots i;
}

abbrev pub with_next : ℕ → Refs → Refs
with_next n s = record {
  next_ref = n;
  ref_freelist = s.ref_freelist;
  ref_freelist_cap = s.ref_freelist_cap;
  slots = s.slots;
}

-- The slot that `luaext_convert_ref_create` chooses: a free one, or the next.
abbrev pub first_next : ℕ → ℕ
first_next n = if ltb n ref_first then ref_first else n

abbrev pub next_slot : Refs → Option ℕ × Refs
next_slot s =
    if first_next s.next_ref == int_max
    then (none, with_next (first_next s.next_ref) s)
    else (some (first_next s.next_ref), with_next (suc (first_next s.next_ref)) s)

abbrev pub free_slot : Refs → List ℕ → Option ℕ × Refs
free_slot s [] = next_slot s
free_slot s (ref ∷ free) = (some ref, with_free free s.ref_freelist_cap s)

-- What the protected store leaves.
abbrev pub stored : Bool → LuaValue → Option ℕ × Refs → Option ℕ × Refs
stored ok v (none, s) = (none, s)
stored true v (some ref, s) = (some ref, written ref v s)
stored false v (some ref, s) = (none, freelist_push ref s)

-- `luaext_convert_ref_create`: whether Lua's stack grows, whether the store is done, and the value
unfoldable pub ref_create : Bool → Bool → LuaValue → Refs → Option ℕ × Refs
ref_create grows ok v s = if grows then stored ok v (free_slot s s.ref_freelist) else (none, s)

-- `luaext_convert_ref_push`
unfoldable pub ref_push : ℕ → Refs → LuaValue
ref_push ref s = if ltb ref ref_first then nil else s.slots ref

-- `luaext_convert_ref_release`, where the stack may not grow
unfoldable pub ref_release : Bool → ℕ → Refs → Refs
ref_release grows ref s =
    if ltb ref ref_first then s else freelist_push ref (if grows then written ref nil s else s)

-- What PHP does: it makes handles, and gives up each that it has once.
pub data HandleCall : Type 0 where
  creating : Bool → Bool → LuaValue → HandleCall
  releasing : Bool → ℕ → HandleCall

-- The slots, and what each live handle stands for.
pub record Handles : Type 0 where
  pub refs : Refs
  pub live : ℕ → Option LuaValue

abbrev pub created : LuaValue → (ℕ → Option LuaValue) → Option ℕ × Refs → Handles
created v live (none, s) = record { refs = s; live = live }
created v live (some ref, s) = record { refs = s; live = λ i. if i == ref then some v else live i }

abbrev pub released : Bool → ℕ → Handles → Option LuaValue → Handles
released grows ref h none = h
released grows ref h (some v) = record {
  refs = ref_release grows ref h.refs;
  live = λ i. if i == ref then none else h.live i;
}

unfoldable pub handle_call : HandleCall → Handles → Handles
handle_call (creating grows ok v) h = created v h.live (ref_create grows ok v h.refs)
handle_call (releasing grows ref) h = released grows ref h (h.live ref)

unfoldable pub handle_calls : List HandleCall → Handles → Handles
handle_calls [] h = h
handle_calls (x ∷ xs) h = handle_calls xs (handle_call x h)

-- A sandbox as it is made: zeroed.
abbrev pub no_handles : Handles
no_handles = record {
  refs = record { next_ref = 0; ref_freelist = []; ref_freelist_cap = 0; slots = λ i. nil };
  live = λ i. none;
}
