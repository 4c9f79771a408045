-- ===== src/Output/Write.antt =====
-- `luaext_output_write_channel`, and what the host reads back (src/luaext_output.c).
use lua_ext.Base.{
  ℕ, ◌+◌, ◌-◌, Bool, true, false, not, ◌&&◌, ◌||◌, Option, none, some, List, [], ltb, ◌==◌,
  if◌then◌else◌, length, take, size_max,
}
use lua_ext.Output.Buffer.{Mode, buffer, callback, discard, Sink, pending, capacity_of, append}
use lua_ext.Output.{
  Sandbox, Env, Status, accepted, refused_memory, refused_budget, raised, reserve, release, flush,
  reports,
}

abbrev pub bool_ne : Bool → Bool → Bool
bool_ne true b = not b
bool_ne false b = b

-- What of `length` bytes fits below the cap.
unfoldable pub room_for : ℕ → ℕ → ℕ → ℕ
room_for limit written length =
    let remaining = if ltb written limit then limit - written else 0 in
    if limit == 0 then length else if ltb remaining length then remaining else length

abbrev pub saturating_add : ℕ → ℕ → ℕ
saturating_add counter length =
    if ltb (size_max - counter) length then size_max else counter + length

-- The counters after a write of `length` bytes, all of them counted.
unfoldable pub count_write : ℕ → Bool → Sink → Sink
count_write length is_stderr out = record out {
  buffered_is_stderr = is_stderr;
  written = saturating_add out.written length;
  emitted = saturating_add out.emitted length;
  truncated = out.truncated || ltb (room_for out.limit out.written length) length;
}

abbrev pub keeps : Mode → Bool
keeps discard = false
keeps buffer = true
keeps callback = true

module _ {W : Type 0} (E : Env W) where
  abbrev Outcome : Type 0
  Outcome = Option (Status × Sandbox W)

  -- What a write answers once its bytes are on their way.
  abbrev pub conclude : Bool → Option (Bool × Sandbox W) → Outcome
  conclude overflowed none = none
  conclude overflowed (some (false, sb)) =
      some (if reports E sb then raised else refused_budget, sb)
  conclude overflowed (some (true, sb)) =
      some (if overflowed && sb.overflow_fails then refused_budget else accepted, sb)

  abbrev pub truncate : Sandbox W → Sandbox W
  truncate sb = record sb { out = record (sb.out) { truncated = true } }

  abbrev pub append_reserved : ℕ → Bool → List ℕ → Bool × Sandbox W → Outcome
  append_reserved fuel overflowed kept (false, sb) = some (refused_memory, truncate sb)
  append_reserved fuel overflowed kept (true, sb) =
      conclude overflowed (flush E fuel false (record sb { out = append sb.out kept }))

  -- From the setting of `buffered_is_stderr` on.
  unfoldable pub write_counted : ℕ → List ℕ → Bool → Sandbox W → Outcome
  write_counted fuel text is_stderr sb =
      let room = room_for sb.out.limit sb.out.written (length text) in
      let overflowed = ltb room (length text) in
      let sb1 = record sb { out = count_write (length text) is_stderr sb.out } in
      if ltb 0 room && keeps sb.out.mode
      then append_reserved fuel overflowed (take room text) (reserve E room sb1)
      else conclude overflowed (flush E fuel false sb1)

  abbrev pub after_flush : (Sandbox W → Outcome) → Option (Bool × Sandbox W) → Outcome
  after_flush next none = none
  after_flush next (some (false, sb)) = some (accepted, sb)
  after_flush next (some (true, sb)) = next sb

  -- `luaext_output_write_channel`, for a sandbox and data that are not NULL.
  unfoldable pub write_channel : ℕ → List ℕ → Bool → Sandbox W → Outcome
  write_channel fuel text is_stderr sb =
      let changes =
        bool_ne is_stderr sb.out.buffered_is_stderr && ltb 0 (length (pending sb.out)) in
      if sb.closed
      then some (accepted, sb)
      else if length text == 0
      then some (accepted, sb)
      else if changes
      then after_flush (write_counted fuel text is_stderr) (flush E fuel true sb)
      else write_counted fuel text is_stderr sb

  -- `luaext_output_write`
  unfoldable pub write : ℕ → List ℕ → Sandbox W → Outcome
  write fuel text sb = write_channel fuel text false sb

  -- What `luaext_output_get` takes: the string, its capacity's charge and the budget that it used.
  abbrev pub take_text : Sandbox W → Sandbox W
  take_text sb = record sb {
    out = record (sb.out) { text = none; capacity = 0; written = 0 };
    world = E.budget.discharge (capacity_of sb.out) sb.world;
  }

  abbrev pub read_back : Bool → Option (List ℕ) → Sandbox W → List ℕ × Sandbox W
  read_back takes none sb = ([], sb)
  read_back takes (some t) sb = (t, if takes then take_text sb else sb)

  abbrev pub read_mode : Bool → Mode → Sandbox W → List ℕ × Sandbox W
  read_mode takes buffer sb = read_back takes sb.out.text sb
  read_mode takes callback sb = ([], sb)
  read_mode takes discard sb = ([], sb)

  -- `luaext_output_get`: `none` inside is the NULL of a pending exception.
  abbrev pub read_flushed : Bool → Option (Bool × Sandbox W) → Option (Option (List ℕ) × Sandbox W)
  read_flushed takes none = none
  read_flushed takes (some (false, sb)) = some (none, sb)
  read_flushed takes (some (true, sb)) =
      let (t, sb') = read_mode takes sb.out.mode sb in some (some t, sb')

  unfoldable pub get : ℕ → Bool → Sandbox W → Option (Option (List ℕ) × Sandbox W)
  get fuel takes sb = read_flushed takes (flush E fuel true sb)

  -- `luaext_output_shutdown`: whatever the flush answers, buffer and callback are let go.
  unfoldable pub shutdown : ℕ → Sandbox W → Option (Sandbox W)
  shutdown fuel sb = elim (flush E fuel true sb) [
    | none ↦ none
    | some (answer, sb') ↦
        let sb2 = release E sb' in
        some (record sb2 { out = record (sb2.out) { has_callback = false } })
  ]
