-- ===== src/Vfs/Tests.antt =====
-- src/luaext_vfs.c and src/luaext_iolib.c run on a backend with one file.
use lua_ext.Base.{true, ◌≡◌, refl, false, none, some, List, [], ◌∷◌, arith, pos}
use lua_ext.Alloc.{Memory, charge, discharge, fits}
use lua_ext.Alloc.AsBudget.{alloc_budget-BudgetLaws}
use lua_ext.Alloc.Example.{example_host}
use lua_ext.Vfs.{
  Bytes, Sandbox, handle_at, parse_mode, mode_flags, call, charge_operation, check_range,
  charge_buffer, handle_release, refund_buffer,
}
use lua_ext.Vfs.Files.{
  open_file, sweep, charge_new_file, count_files, count_entries, until_nul, new_handle,
  open_buffered, sweep_handles, close_handle, write_back,
}
use lua_ext.Vfs.Io.{write_one, write_all, file_write, file_close, splice, a_line, from_start}
use lua_ext.Vfs.Splice.{IsWriteOf, write_one-IsWriteOf}
use lua_ext.Vfs.Ledger.{IsLedger}
use lua_ext.Vfs.Ledger.Steps.{IsBounded}
use lua_ext.Vfs.Ledger.Sweeping.{IsCleared}
use lua_ext.Vfs.Ledger.Runs.{
  Op, opens, reads, writes, seeks, closes, perform, run_files, run_files-IsLedger, sweep-IsCleared,
}
use lua_ext.Vfs.Example.{example_env, fresh, File}

abbrev name : Bytes
name = b'/' ∷ b'f' ∷ []

abbrev mode_w : Bytes
mode_w = b'w' ∷ b'+' ∷ []

abbrev hello : Bytes
hello = b'h' ∷ b'i' ∷ 10 ∷ []

abbrev session : List Op
session =
    opens name mode_w
    ∷ writes 0 (hello ∷ [])
    ∷ seeks 0 from_start (pos 0)
    ∷ reads 9 0 (a_line false)
    ∷ []

fresh-IsLedger : IsLedger example_env (alloc_budget-BudgetLaws example_host) 100 fresh
fresh-IsLedger = record {
  sound = record { limit_word = omega arith; live_word = omega arith; peak_covers = omega arith };
  charges = refl;
  summed = refl;
  counted = refl;
  free = tt;
  capped = λ n. omega arith;
  limited = omega arith;
}

example-IsBounded : IsBounded example_env (alloc_budget-BudgetLaws example_host)
example-IsBounded = record {
  total_word = omega arith;
  handles_limited = omega arith;
  handles_word = omega arith;
  memory_word = λ w h. omega (arith, h.live_word);
}

run_files-IsLedger_example :
    IsLedger example_env
      (alloc_budget-BudgetLaws example_host)
      100
      (run_files example_env session fresh)
run_files-IsLedger_example =
    run_files-IsLedger example_env (alloc_budget-BudgetLaws example_host) 100 example-IsBounded refl
      session fresh fresh-IsLedger

sweep-IsCleared_example :
    IsCleared example_env
      (alloc_budget-BudgetLaws example_host)
      100
      example-IsBounded
      (sweep example_env true true false (run_files example_env session fresh))
sweep-IsCleared_example =
    sweep-IsCleared example_env (alloc_budget-BudgetLaws example_host) 100 example-IsBounded refl
      session false fresh fresh-IsLedger

abbrev written : List Op
written = opens name mode_w ∷ writes 0 (hello ∷ []) ∷ []

-- Three bytes are buffered, and nothing has reached the backend.
after_write :
    ((run_files example_env written fresh).buffered_bytes ≡ 3)
    × ((run_files example_env written fresh).backend ≡ none)
unfolding run_files perform open_file parse_mode mode_flags call charge_operation charge_new_file
    count_files count_entries until_nul new_handle open_buffered file_write write_all write_one
    check_range charge_buffer splice charge fits
after_write = (refl, refl)

-- The sweep writes them back.
after_sweep :
    (sweep example_env true true false (run_files example_env written fresh)).backend ≡ some hello
unfolding run_files perform open_file parse_mode mode_flags call charge_operation charge_new_file
    count_files count_entries until_nul new_handle open_buffered file_write write_all write_one
    check_range charge_buffer splice charge fits sweep sweep_handles close_handle write_back
    handle_release refund_buffer discharge
after_sweep = refl

-- Where Lua's stack has no room for the sweep, it does nothing: the file stays open and charged.
swept_without_room :
    let s = run_files example_env written fresh in sweep example_env false true false s ≡ s
unfolding sweep run_files perform open_file parse_mode mode_flags call charge_operation
    charge_new_file count_files count_entries until_nul new_handle open_buffered file_write
    write_all write_one check_range charge_buffer splice charge fits
swept_without_room = refl

-- A file that is opened for writing and closed unwritten is counted, and never made.
counted_not_made :
    let s = run_files example_env (opens name mode_w ∷ closes 0 ∷ []) fresh in
    (s.file_count ≡ 1) × (s.backend ≡ none)
unfolding run_files perform open_file parse_mode mode_flags call charge_operation charge_new_file
    count_files count_entries until_nul new_handle open_buffered file_close close_handle write_back
    handle_release
counted_not_made = (refl, refl)

abbrev opened_once : Sandbox (Memory example_host) File
opened_once = run_files example_env (opens name mode_w ∷ []) fresh

first_open : ((handle_at opened_once 0).closed ≡ false) × ((handle_at opened_once 0).ranged ≡ false)
unfolding run_files perform open_file parse_mode mode_flags call charge_operation charge_new_file
    count_files count_entries until_nul new_handle open_buffered
first_open = (refl, refl)

write_one-IsWriteOf_example :
    IsWriteOf example_env
      (handle_at opened_once 0)
      hello
      0
      (write_one example_env 0 hello opened_once)
write_one-IsWriteOf_example =
    write_one-IsWriteOf example_env 0 hello opened_once first_open.0 first_open.1
