-- ===== src/Vfs/Files.antt =====
-- src/luaext_vfs.c: opening files, VfsQuota::$maxFiles, closing and the sweep.
use lua_ext.Base.{
  ℕ, zero, suc, ◌+◌, ◌%◌, ◌^◌, Bool, true, false, not, ◌&&◌, ◌||◌, Option, none, some, List, [],
  ◌∷◌, ◌++◌, ltb, leb, ◌==◌, if◌then◌else◌, length, pos, negsuc,
}
use lua_ext.Base.Bytes.{same_bytes}
use lua_ext.Vfs.{
  Bytes, Handle, Stat, Env, Sandbox, bad_mode, sweeping_now, handles_spent, files_spent,
  not_a_string, Outcome, done, refused, failed, raised, Action, pure, ending, modify, ◌>>=◌, ◌>>◌,
  no_handle, contents, handle_at, put_handle, note_bytes, Mode, parse_mode, call, charge_buffer,
  handle_release, is_over,
}

abbrev pub root : Bytes
root = b'/' ∷ []

-- A C string, as `strlen` ends it.
unfoldable pub until_nul : Bytes → Bytes
until_nul [] = []
until_nul (c ∷ cs) = let rest = until_nul cs in if c == 0 then [] else c ∷ rest

unfoldable pub has_slash : Bytes → Bool
has_slash [] = false
has_slash (c ∷ cs) = c == b'/' || has_slash cs

-- A name that `luaext_vfs_count_files` joins to its directory.
unfoldable pub is_child_name : Bytes → Bool
is_child_name [] = false
is_child_name (c ∷ cs) = not (
    has_slash (c ∷ cs) || same_bytes (c ∷ cs) (b'.' ∷ []) || same_bytes (c ∷ cs) (b'.' ∷ b'.' ∷ []))

unfoldable pub child_of : Bytes → Bytes → Bytes
child_of dir name = let d = until_nul dir in d ++ (if same_bytes d root then name else b'/' ∷ name)

-- `LUAEXT_VFS_COUNT_MAX_DEPTH`
abbrev pub count_max_depth : ℕ
count_max_depth = 128

abbrev pub says_directory : Option Stat → Bool
says_directory none = false
says_directory (some stat) = stat.is_directory

abbrev pub is_unwritten : Handle → Bool
is_unwritten x = x.dirty && elim x.buffer [ none ↦ false | some b ↦ true ]

module _ {W B : Type 0} where
  -- A refusal with a message is an answer too; any other failure ends the count.
  abbrev pub tolerating : {A C : Type 0} → C → (A → Action W B C) → Outcome A → Action W B C
  tolerating c k (done a) = k a
  tolerating c k refused = pure c
  tolerating c k failed = ending failed
  tolerating c k (raised e) = ending (raised e)

  abbrev pub outcome : {A C : Type 0} → Action W B A → (Outcome A → Action W B C) → Action W B C
  outcome m k s = let (o, s') = m s in k o s'

  abbrev pub set_offset : ℕ → ℕ → Sandbox W B → Sandbox W B
  set_offset h n s = put_handle h (record (handle_at s h) { offset = n }) s

  abbrev pub set_buffer : ℕ → Bytes → Bool → Sandbox W B → Sandbox W B
  set_buffer h b dirty s =
      put_handle h (record (handle_at s h) { buffer = some b; dirty = dirty }) s

  abbrev pub at_end : Bool → ℕ → Sandbox W B → Sandbox W B
  at_end append h s =
      if append then set_offset h (length (contents (handle_at s h).buffer)) s else s

  -- `Z_LVAL_P(size) > 0`
  abbrev pub seek_size : ℕ → Option Stat → Sandbox W B → Sandbox W B
  seek_size h none s = s
  seek_size h (some stat) s = elim stat.size [
    | none ↦ s
    | some z ↦ elim z [ pos n ↦ if ltb 0 n then set_offset h n s else s | negsuc n ↦ s ]
  ]

  abbrev pub flushed : ℕ → ℕ → Sandbox W B → Sandbox W B
  flushed h n s = put_handle h (record (handle_at s h) { dirty = false }) (note_bytes n s)

module _ {W B : Type 0} (E : Env W B) where
  -- What the answer of `stat` says is counted, or walked.
  abbrev pub count_found : (Bytes → ℕ → Action W B ℕ) → Bytes → ℕ → Option Stat → Action W B ℕ
  count_found walk path count stat =
      if says_directory stat then walk path count else pure (count + 1)

  -- What one entry adds to `count`; `walk` counts in a directory.
  abbrev pub count_entry : (Bytes → ℕ → Action W B ℕ) → Bytes → Option Bytes → ℕ → Action W B ℕ
  count_entry walk dir none count = pure count
  count_entry walk dir (some name) count =
      if is_child_name name
      then outcome (call E false (E.host.stat (child_of dir name)))
          (tolerating (count + 1) (count_found walk (child_of dir name) count))
      else pure count

  -- The loop over the answer of `list`.
  unfoldable pub count_entries :
      (Bytes → ℕ → Action W B ℕ) → ℕ → Bytes → List (Option Bytes) → ℕ → Action W B ℕ
  count_entries walk ceiling dir [] count = pure count
  count_entries walk ceiling dir (entry ∷ entries) count =
      if ltb ceiling count
      then pure count
      else count_entry walk dir entry count >>= λ n. count_entries walk ceiling dir entries n

  abbrev pub count_listed :
      (Bytes → ℕ → Action W B ℕ) → ℕ → Bytes → ℕ → Option (List (Option Bytes)) → Action W B ℕ
  count_listed walk ceiling dir count none = pure count
  count_listed walk ceiling dir count (some entries) = count_entries walk ceiling dir entries count

  -- `luaext_vfs_count_files`; fuel counts the depths that are left.
  unfoldable pub count_files : ℕ → ℕ → ℕ → Bytes → ℕ → Action W B ℕ
  count_files zero ceiling depth dir count = pure count
  count_files (suc fuel) ceiling depth dir count =
      if is_over E.quota.max_path_depth depth
      then pure count
      else outcome (call E false (E.host.list (until_nul dir)))
          (tolerating count (count_listed (count_files fuel ceiling (depth + 1)) ceiling dir count))

  -- The first count, from the root. Depth 128 is the last that is walked.
  abbrev pub count_all : Action W B ℕ
  count_all = count_files (suc count_max_depth) E.quota.max_files 0 root 0

  abbrev pub know_count : Action W B (Unit {0})
  know_count s =
      if s.file_count_known
      then (done tt, s)
      else (count_all >>= λ n. modify λ s. record s { file_count = n; file_count_known = true }) s

  abbrev pub take_file : Action W B (Unit {0})
  take_file s =
      if leb E.quota.max_files s.file_count
      then (raised files_spent, s)
      else (done tt, record s { file_count = s.file_count + 1 })

  -- `luaext_vfs_charge_new_file`
  unfoldable pub charge_new_file : Action W B (Unit {0})
  charge_new_file = if E.quota.max_files == 0 then pure tt else know_count >> take_file

  -- The handle as `luaext_vfs_open` makes and counts it.
  unfoldable pub new_handle : Bytes → Mode → Action W B ℕ
  new_handle path m s =
      let x : Handle = record no_handle {
        path = some path;
        readable = m.readable;
        writable = m.writable;
        append = m.append;
        ranged = E.ranged;
        closed = false;
      } in
      (
        done (length s.handles),
        record s { handles = s.handles ++ x ∷ []; open_handles = (s.open_handles + 1) % 2 ^ 32 },
      )

  -- A handle whose set-up the backend fails is released. A raise jumps past that.
  abbrev pub or_release : ℕ → Outcome (Unit {0}) × Sandbox W B → Outcome (Unit {0}) × Sandbox W B
  or_release h (done u, s) = (done u, s)
  or_release h (refused, s) = (refused, handle_release E h s)
  or_release h (failed, s) = (failed, handle_release E h s)
  or_release h (raised e, s) = (raised e, s)

  unfoldable pub open_ranged : ℕ → Bytes → Mode → Bool → Action W B (Unit {0})
  open_ranged h path m exists =
      (if m.truncate && exists then call E true (E.host.truncate path 0) else pure tt)
      >> (if m.append && exists
          then (call E true (E.host.stat path) >>= λ stat. modify (seek_size h stat))
          else pure tt)

  abbrev pub load : ℕ → Option Bytes → Action W B (Unit {0})
  load h none s = (raised not_a_string, handle_release E h s)
  load h (some b) s = charge_buffer E h (length b) (set_buffer h b false (note_bytes (length b) s))

  -- The whole file, unless its old contents are thrown away.
  abbrev pub loading : Bool → ℕ → Bytes → Bool → Action W B (Unit {0})
  loading keeps h path dirty =
      if keeps
      then (call E true (E.host.read path) >>= λ b. load h b)
      else modify (set_buffer h [] dirty)

  unfoldable pub open_buffered : ℕ → Bytes → Mode → Bool → Action W B (Unit {0})
  open_buffered h path m exists =
      loading (exists && not m.truncate) h path (m.truncate && exists) >> modify (at_end m.append h)

  abbrev pub set_up : ℕ → Bytes → Mode → Bool → Action W B (Unit {0})
  set_up h path m exists s =
      or_release h
        (if E.ranged then open_ranged h path m exists s else open_buffered h path m exists s)

  -- What `luaext_vfs_open` refuses before it asks the backend.
  abbrev pub entry_test : Mode → Sandbox W B → Outcome (Unit {0})
  entry_test m s =
      if m.writable && not (E.available && E.may_write)
      then refused
      else if s.sweeping
      then raised sweeping_now
      else if not (E.quota.max_open_handles == 0) && leb E.quota.max_open_handles s.open_handles
      then raised handles_spent
      else done tt

  abbrev pub make_handle : Bytes → Mode → Bool → Action W B ℕ
  make_handle path m exists = new_handle path m >>= λ h. set_up h path m exists >> pure h

  abbrev pub open_found : Bytes → Mode → Bool → Action W B ℕ
  open_found path m exists =
      if not exists && not m.writable
      then ending refused
      else (if exists then pure tt else charge_new_file) >> make_handle path m exists

  abbrev pub open_mode : Bytes → Option Mode → Action W B ℕ
  open_mode path none = ending (raised bad_mode)
  open_mode path (some m) =
      (λ s. (entry_test m s, s))
      >> (call E true (E.host.exists path) >>= λ exists. open_found path m exists)

  -- `luaext_vfs_open`, for a canonical path. It answers the handle.
  unfoldable pub open_file : Bytes → Bytes → Action W B ℕ
  open_file path mode = open_mode path (parse_mode mode)

  -- The write that a dirty buffer needs.
  unfoldable pub write_back : Bool → ℕ → Action W B (Unit {0})
  write_back charge h s =
      let x = handle_at s h in
      (call E charge (E.host.write (contents x.path) (contents x.buffer))
          >> modify (flushed h (length (contents x.buffer))))
        s

  abbrev pub released : ℕ → Action W B (Unit {0})
  released h = modify (handle_release E h)

  abbrev pub save : Bool → ℕ → Action W B (Unit {0})
  save charge h s = or_release h (write_back charge h s)

  abbrev pub saving : Bool → ℕ → Handle → Action W B (Unit {0})
  saving charge h x = if is_unwritten x then save charge h else pure tt

  -- `luaext_vfs_handle_close_maybe_charged`
  unfoldable pub close_handle : Bool → ℕ → Action W B (Unit {0})
  close_handle charge h s =
      if (handle_at s h).closed
      then (done tt, s)
      else (saving charge h (handle_at s h) >> released h) s

  -- One round of the loop of `luaext_vfs_sweep`.
  abbrev pub sweep_handle : Bool → ℕ → Sandbox W B → Sandbox W B
  sweep_handle pending h s =
      if (handle_at s h).closed
      then s
      else if pending
      then handle_release E h s
      else (close_handle false h s).1

  -- The loop, over the handles in the order in which they were opened.
  unfoldable pub sweep_handles : Bool → ℕ → Sandbox W B → Sandbox W B
  sweep_handles pending zero s = s
  sweep_handles pending (suc n) s = sweep_handle pending n (sweep_handles pending n s)

  -- `luaext_vfs_sweep`; `grows` is what `lua_checkstack` answers, `has_table` whether the registry
  -- still has the table of the handles, and `pending` is `pending_on_entry`.
  unfoldable pub sweep : Bool → Bool → Bool → Sandbox W B → Sandbox W B
  sweep grows has_table pending s =
      if s.open_handles == 0
      then s
      else if not grows
      then s
      else if not has_table
      then record s { open_handles = 0 }
      else record (sweep_handles pending (length s.handles) (record s { sweeping = true })) {
        sweeping = false;
        open_handles = 0;
      }
