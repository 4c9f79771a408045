-- ===== src/Vfs/Ledger/Runs.antt =====
-- What a script does with files during a call (src/luaext_vfs.c, src/luaext_iolib.c), in any order.
use lua_ext.Base.{ℕ, ◌-◌, ◌&&◌, ltb, ◌≡◌, Bool, true, List, [], ◌∷◌, ℤ, refl}
use lua_ext.Base.Budget.{BudgetLaws}
use lua_ext.Vfs.{Bytes, Env, Sandbox, begin_call, note_file_removed, handle_release}
use lua_ext.Vfs.Files.{open_file, sweep}
use lua_ext.Vfs.Io.{Format, Whence, file_read, file_write, file_seek, file_flush, file_close}
use lua_ext.Vfs.Handles.{if_lem}
use lua_ext.Vfs.Ledger.{IsLedger, same-IsLedger}
use lua_ext.Vfs.Ledger.Steps.{IsBounded, handle_release-IsLedger}
use lua_ext.Vfs.Ledger.Opening.{open_file-Steady}
use lua_ext.Vfs.Ledger.Using.{
  file_read-Steady, file_write-Steady, file_seek-Steady, file_flush-Steady, close_handle-Steady,
}
use lua_ext.Vfs.Ledger.Sweeping.{IsCleared, sweep_lem}

-- `collects` is the collector's `__gc` on a handle, `begins` and `ends` are those of the call; at its
-- end the stack has room for the sweep or not, and an exception is pending or not. The registry has
-- the table of the handles, as it has from the first open to the teardown.
pub data Op : Type 0 where
  opens : Bytes → Bytes → Op
  reads : ℕ → ℕ → Format → Op
  writes : ℕ → List Bytes → Op
  seeks : ℕ → Whence → ℤ → Op
  flushes closes collects : ℕ → Op
  removes begins : Op
  ends : Bool → Bool → Op

module _ {W B : Type 0} (E : Env W B) where
  unfoldable pub perform : Op → Sandbox W B → Sandbox W B
  perform (opens path mode) s = (open_file E path mode s).1
  perform (reads fuel h f) s = (file_read E fuel h f s).1
  perform (writes h bs) s = (file_write E h bs s).1
  perform (seeks h w offset) s = (file_seek E h w offset s).1
  perform (flushes h) s = (file_flush E h s).1
  perform (closes h) s = (file_close E h s).1
  perform (collects h) s = handle_release E h s
  perform removes s = note_file_removed s
  perform begins s = begin_call s
  perform (ends grows pending) s = sweep E grows true pending s

  unfoldable pub run_files : List Op → Sandbox W B → Sandbox W B
  run_files [] s = s
  run_files (op ∷ ops) s = run_files ops (perform op s)

module _ {W B : Type 0} (E : Env W B) (L : BudgetLaws E.budget) (other : ℕ) (bounds : IsBounded E L)
    (available : E.available ≡ true) where
  perform-IsLedger :
      (op : Op) (s : Sandbox W B) → IsLedger E L other s → IsLedger E L other (perform E op s)
  unfolding perform note_file_removed file_close
  perform-IsLedger (opens path mode) s v = open_file-Steady E L other bounds path mode s v
  perform-IsLedger (reads fuel h f) s v = file_read-Steady E L other bounds fuel h f s v
  perform-IsLedger (writes h bs) s v = file_write-Steady E L other bounds h bs s v
  perform-IsLedger (seeks h w offset) s v = file_seek-Steady E L other bounds h w offset s v
  perform-IsLedger (flushes h) s v = file_flush-Steady E L other bounds h s v
  perform-IsLedger (closes h) s v = close_handle-Steady E L other bounds true h s v
  perform-IsLedger (collects h) s v = handle_release-IsLedger E L other bounds h s v
  perform-IsLedger removes s v =
      let t : Sandbox W B = record s { file_count = s.file_count - 1 } in
      if_lem (IsLedger E L other) (s.file_count_known && ltb 0 s.file_count) t s
        (λ _. same-IsLedger E L other s t refl refl refl refl v) (λ _. v)
  perform-IsLedger begins s v = same-IsLedger E L other s (begin_call s) refl refl refl refl v
  perform-IsLedger (ends grows pending) s v =
      (sweep_lem E L other bounds grows pending s available v).0

  -- For an attached file system, limits that are machine words with one on the open handles, and a
  -- memory accounting that keeps its laws: whatever a script does with files in any order, the
  -- backend failing or refusing as it likes, the buffered bytes stay the sum of what the handles
  -- were charged and within VfsQuota::$maxTotalBytes, the memory accounting holds exactly them
  -- beside what others hold, a closed handle holds none, and the open handles are counted and
  -- within VfsQuota::$maxOpenHandles.
  pub run_files-IsLedger :
      (ops : List Op) (s : Sandbox W B)
      → IsLedger E L other s
      → IsLedger E L other (run_files E ops s)
  unfolding run_files
  run_files-IsLedger [] s v = v
  run_files-IsLedger (op ∷ ops) s v =
      run_files-IsLedger ops (perform E op s) (perform-IsLedger op s v)

  -- Under the same assumptions, where Lua's stack has room for the sweep that follows such a run
  -- and the registry has the table of the handles: the sweep, with an exception pending or not,
  -- leaves every handle closed, none counted as open, no byte buffered, and gives back to the
  -- memory accounting all that the file system held.
  pub sweep-IsCleared :
      (ops : List Op) (pending : Bool) (s : Sandbox W B)
      → IsLedger E L other s
      → IsCleared E L other bounds (sweep E true true pending (run_files E ops s))
  sweep-IsCleared ops pending s v =
      (sweep_lem E L other bounds true pending (run_files E ops s) available
          (run_files-IsLedger ops s v)).1
        refl
