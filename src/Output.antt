-- ===== src/Output.antt =====
-- src/luaext_output.c: where a script's output goes. The memory accounting, the clocks and the
-- host's callback are taken through `Env`.
pub mod Buffer
pub mod Write
pub mod Chunks
pub mod Quiet
pub mod Delivery
pub mod Flush
pub mod Reserve
pub mod Truncation
pub mod Log
pub mod Buffered
pub mod Budgeted
pub mod ReadBack
pub mod Runs
pub mod Example
mod Tests
use Buffer.{
  Mode, buffer, callback, discard, Sink, bytes, pending, capacity_of, wanted, append, consume, owed,
}
use lua_ext.Base.{
  ℕ, zero, suc, ◌+◌, ◌-◌, Bool, true, false, not, ◌&&◌, ◌||◌, Option, none, some, List, [], ◌∷◌,
  ltb, leb, ◌==◌, if◌then◌else◌, length, take, size_max, add_size, sub_size,
}
use lua_ext.Base.Budget.{Budget}

-- What of a `luaext_sandbox` this file reads or writes; `exception` is `EG(exception) != NULL`,
-- `has_state` what `luaext_exec_state` answers, and `world` everything else.
pub record Sandbox (W : Type 0) : Type 0 where
  pub out : Sink
  pub world : W
  pub exception : Bool
  pub has_state : Bool
  pub closed : Bool
  pub co_sweeping : Bool
  pub in_lua : ℕ
  pub in_php : ℕ
  pub php_calls_out : ℕ
  pub bill_host_time : Bool
  pub overflow_fails : Bool

-- The clocks of src/luaext_timers.c, and the host's callback, which may do anything to the sandbox.
pub record Env (W : Type 0) : Type 0 where
  pub budget : Budget W
  pub pause_clocks : W → Bool × W
  pub resume_clocks : W → W
  pub span_begin : W → W
  pub span_end : W → W
  pub call : List ℕ → Bool → Sandbox W → Sandbox W

-- `luaext_output_status`; `raised` is the longjmp of a callback's exception into Lua.
pub data Status : Type 0 where
  accepted refused_memory refused_budget raised : Status

module _ {W : Type 0} (E : Env W) where
  open E use {budget, pause_clocks, resume_clocks, span_begin, span_end, call}

  abbrev pub charged_for : ℕ → Bool × W → Sandbox W → Bool × Sandbox W
  charged_for want (false, w) sb = (false, record sb { world = w })
  charged_for want (true, w) sb = (
    true,
    record sb {
      world = w;
      out = record (sb.out) { text = some (pending sb.out); capacity = want };
    },
  )

  -- `luaext_output_reserve`. `smart_str_get_len` never exceeds the capacity, so that `have - used`
  -- is written with the wrap that C has.
  unfoldable pub reserve : ℕ → Sandbox W → Bool × Sandbox W
  reserve extra sb =
      let have = capacity_of sb.out in
      let used = length (pending sb.out) in
      let want = wanted have (used + extra) in
      if extra == 0 || leb extra (sub_size have used)
      then (true, sb)
      else if ltb (size_max - used) extra
      then (false, sb)
      else charged_for want (budget.charge (sub_size want have) sb.world) sb

  -- `luaext_output_release`
  unfoldable pub release : Sandbox W → Sandbox W
  release sb = record sb {
    out = record (sb.out) { text = none; capacity = 0 };
    world = budget.discharge (capacity_of sb.out) sb.world;
  }

  -- The clocks around a call out: paused unless host time is billed, and resumed if they were.
  abbrev pub enter_host : Sandbox W → Bool × W
  enter_host sb =
      let (paused, w) = if sb.bill_host_time then (false, sb.world) else pause_clocks sb.world in
      (paused, span_begin w)

  abbrev pub leave_host : Bool → Sandbox W → Sandbox W
  leave_host paused sb =
      let w = span_end sb.world in
      record sb { world = if paused then resume_clocks w else w; in_php = sb.in_php - 1 }

  abbrev pub entered : Sandbox W → Sandbox W
  entered sb = record sb {
    world = (enter_host sb).1;
    php_calls_out = sb.php_calls_out + 1;
    in_php = sb.in_php + 1;
  }

  -- The sandbox when the callback comes back.
  abbrev pub called : List ℕ → Sandbox W → Sandbox W
  called chunk sb = call chunk sb.out.buffered_is_stderr (entered sb)

  -- `luaext_output_emit`
  unfoldable pub emit : List ℕ → Sandbox W → Bool × Sandbox W
  emit chunk sb =
      let sb' = leave_host (enter_host sb).0 (called chunk sb) in (not sb'.exception, sb')

  abbrev Flushed : Type 0
  Flushed = Option (Bool × Sandbox W)

  abbrev pub go_on : (Sandbox W → Flushed) → Bool × Sandbox W → Flushed
  go_on next (true, sb) = next sb
  go_on next (false, sb) = some (false, sb)

  -- One chunk: taken out of the buffer before the callback has it.
  abbrev pub emit_next : ℕ → Sandbox W → Bool × Sandbox W
  emit_next n sb = emit (take n (pending sb.out)) (record sb { out = consume sb.out n })

  abbrev pub round : (Sandbox W → Flushed) → Bool → Option ℕ → Sandbox W → Flushed
  round next all none sb = some (true, if all then release sb else sb)
  round next all (some n) sb = go_on next (emit_next n sb)

  -- The loop of `luaext_output_flush`. A callback that writes more on each call keeps it going, so
  -- that it has fuel, and `none` says that it ran out.
  unfoldable pub drain : ℕ → Bool → Sandbox W → Flushed
  drain zero all sb = none
  drain (suc fuel) all sb = round (drain fuel all) all (owed all sb.out.chunk (pending sb.out)) sb

  abbrev pub streams : Sink → Bool
  streams out = elim out.mode [ callback ↦ out.has_callback | _ ↦ false ]

  -- `luaext_output_flush`
  unfoldable pub flush : ℕ → Bool → Sandbox W → Flushed
  flush fuel all sb = elim (streams sb.out) [ true ↦ drain fuel all sb | false ↦ some (true, sb) ]

  -- Whether `luaext_output_report_exception` raises.
  unfoldable pub reports : Sandbox W → Bool
  reports sb = sb.exception && sb.has_state && not (sb.in_lua == 0) && not sb.co_sweeping
