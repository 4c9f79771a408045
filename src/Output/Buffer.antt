-- ===== src/Output/Buffer.antt =====
-- The output sink of src/luaext_types.h and the buffer of src/luaext_output.c, as far as it is
-- independent of the memory accounting and of the host's callback.
use lua_ext.Base.{
  ℕ, zero, suc, ◌*◌, ◌/◌, Bool, Option, none, some, List, [], ◌∷◌, ◌++◌, ltb, leb, ◌==◌,
  if◌then◌else◌, length, drop, size_max,
}

-- `luaext_output_mode`
pub data Mode : Type 0 where
  buffer callback discard : Mode

-- `luaext_output`. `text` is the string that `buf.s` points to, without NUL; `none` is NULL.
-- `capacity` is `buf.a`. `has_callback` says that `callback` is not IS_UNDEF.
pub record Sink : Type 0 where
  pub mode : Mode
  pub text : Option (List ℕ)
  pub capacity : ℕ
  pub has_callback : Bool
  pub written : ℕ
  pub emitted : ℕ
  pub limit : ℕ
  pub chunk : ℕ
  pub truncated : Bool
  pub buffered_is_stderr : Bool

-- `LUAEXT_OUTPUT_MIN_CAPACITY`
abbrev pub min_capacity : ℕ
min_capacity = 256

-- The bytes that are buffered; their number is `smart_str_get_len`.
abbrev pub bytes : Option (List ℕ) → List ℕ
bytes none = []
bytes (some t) = t

abbrev pub pending : Sink → List ℕ
pending out = bytes out.text

-- `luaext_output_capacity`
abbrev pub capacity_of : Sink → ℕ
capacity_of out = elim out.text [ none ↦ 0 | some t ↦ out.capacity ]

-- The loop of `luaext_output_reserve` that doubles; fuel bounds its rounds.
unfoldable pub doubled : ℕ → ℕ → ℕ → ℕ
doubled zero want needed = want
doubled (suc fuel) want needed =
    let next = doubled fuel (want * 2) needed in
    if ltb want needed then if ltb (size_max / 2) want then needed else next else want

-- A capacity of 256 or more is doubled at most 56 times below the end of a `size_t`.
abbrev pub doublings : ℕ
doublings = 64

unfoldable pub wanted : ℕ → ℕ → ℕ
wanted have needed = doubled doublings (if leb min_capacity have then have else min_capacity) needed

-- `luaext_output_append`
unfoldable pub append : Sink → List ℕ → Sink
append out added = record out { text = some (pending out ++ added) }

-- `luaext_output_consume`
unfoldable pub consume : Sink → ℕ → Sink
consume out count = elim out.text [
  | none ↦ out
  | some t ↦ record out { text = some (drop count t) }
]

-- `zend_memrchr(start, '\n', pending)`, as the number of bytes up to that newline, it included.
unfoldable pub last_line_end : List ℕ → Option ℕ
last_line_end [] = none
last_line_end (c ∷ cs) = elim (last_line_end cs) [
  | some n ↦ some (suc n)
  | none ↦ if c == 10 then some 1 else none
]

-- How many bytes the callback is owed now; `none` is the `break` of the loop.
unfoldable pub owed : Bool → ℕ → List ℕ → Option ℕ
owed all chunk [] = none
owed all chunk (c ∷ cs) =
    let n = length (c ∷ cs) in
    let line = last_line_end (c ∷ cs) in
    if all then some n else if chunk == 0 then some n else if leb chunk n then some chunk else line

-- `luaext_output_set_limit`
unfoldable pub set_limit : Sink → ℕ → Sink
set_limit out limit = record out { limit = limit }
