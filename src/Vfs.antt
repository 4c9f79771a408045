-- ===== src/Vfs.antt =====
-- The bridge to the host's file system: src/luaext_vfs.c, and the methods of open files in
-- src/luaext_iolib.c. The host's backend is a parameter.
pub mod Files
pub mod Io
pub mod Handles
pub mod Splice
pub mod Ledger
pub mod Example
mod Tests
use lua_ext.Base.{
  ℕ, suc, ◌+◌, ◌-◌, ◌%◌, ◌^◌, Bool, true, false, not, ◌&&◌, ◌||◌, Option, none, some, List, [], ◌∷◌,
  ◌++◌, ltb, leb, ◌==◌, if◌then◌else◌, length, get_or, set, size_max, add_size, sub_size, ℤ, pos,
  negsuc,
}
use lua_ext.Base.Budget.{Budget}

abbrev pub Bytes : Type 0
Bytes = List ℕ

-- `luaext_vfs_quota`, without `bill_wall_time`.
pub record Quota : Type 0 where
  pub max_open_handles : ℕ
  pub max_file_bytes : ℕ
  pub max_total_bytes : ℕ
  pub max_files : ℕ
  pub max_operations : ℕ
  pub max_path_length : ℕ
  pub max_path_depth : ℕ

-- `luaext_vfs_handle`, without its magic number.
pub record Handle : Type 0 where
  pub path : Option Bytes
  pub buffer : Option Bytes
  pub buffer_charged : ℕ
  pub offset : ℕ
  pub readable : Bool
  pub writable : Bool
  pub append : Bool
  pub ranged : Bool
  pub dirty : Bool
  pub closed : Bool

-- What a method of the backend comes back with: an answer, a VfsError with or without a message that
-- is a string, or another exception.
pub data Reply (A : Type 0) : Type 0 where
  answers : A → Reply A
  declines : Bool → Reply A
  throws : Reply A

-- What is read of a FileStat. `size` is `none` where it is no integer.
pub record Stat : Type 0 where
  pub size : Option ℤ
  pub is_directory : Bool

-- The host's FileSystem and RangedFileSystem. Where a method must return a string, an array or an
-- object, `none` is any other value.
pub record Host (B : Type 0) : Type 0 where
  pub exists : Bytes → B → Reply Bool × B
  pub read : Bytes → B → Reply (Option Bytes) × B
  pub write : Bytes → Bytes → B → Reply (Unit {0}) × B
  pub truncate : Bytes → ℕ → B → Reply (Unit {0}) × B
  pub stat : Bytes → B → Reply (Option Stat) × B
  pub list : Bytes → B → Reply (Option (List (Option Bytes))) × B
  pub read_range : Bytes → ℕ → ℕ → B → Reply (Option Bytes) × B
  pub write_range : Bytes → ℕ → Bytes → B → Reply (Unit {0}) × B

-- What does not change during a call: `available` is `luaext_vfs_available`, `may_write` the
-- capability, `max_string_length` that of `luaext_limits`.
pub record Env (W B : Type 0) : Type 0 where
  pub quota : Quota
  pub max_string_length : ℕ
  pub available : Bool
  pub may_write : Bool
  pub ranged : Bool
  pub budget : Budget W
  pub host : Host B

-- The file system's fields of `luaext_sandbox`, every handle made in the call, the memory
-- accounting's state and the backend's.
pub record Sandbox (W B : Type 0) : Type 0 where
  pub sweeping : Bool
  pub ops_this_call : ℕ
  pub operations : ℕ
  pub bytes : ℕ
  pub open_handles : ℕ
  pub buffered_bytes : ℕ
  pub file_count : ℕ
  pub file_count_known : Bool
  pub handles : List Handle
  pub memory : W
  pub backend : B

-- The calls of `luaext_error_raise`. `out_of_fuel` stands for a loop that does not end.
pub data Error : Type 0 where
  no_filesystem operations_spent : Error
  negative_offset negative_length range_wraps file_bytes_spent : Error
  total_bytes_spent memory_spent : Error
  bad_mode sweeping_now handles_spent files_spent not_a_string : Error
  closed_file reply_too_long seek_wraps : Error
  out_of_fuel : Error

-- Whether a script can catch it: the argument `fatal` of `luaext_error_raise`.
unfoldable pub is_fatal : Error → Bool
is_fatal operations_spent = true
is_fatal total_bytes_spent = true
is_fatal memory_spent = true
is_fatal handles_spent = true
is_fatal files_spent = true
is_fatal _ = false

-- How an operation ends: with a result; with a refusal that the script gets as `nil, message`; with
-- false and no refusal, for a host exception that stays pending; with a raise, which jumps out.
pub data Outcome (A : Type 0) : Type 0 where
  done : A → Outcome A
  refused failed : Outcome A
  raised : Error → Outcome A

abbrev pub Action : Type 0 → Type 0 → Type 0 → Type 0
Action W B A = Sandbox W B → Outcome A × Sandbox W B

module _ {W B A : Type 0} where
  abbrev pub pure : A → Action W B A
  pure a s = (done a, s)

  abbrev pub ending : Outcome A → Action W B A
  ending o s = (o, s)

abbrev pub modify : {W B : Type 0} → (Sandbox W B → Sandbox W B) → Action W B (Unit {0})
modify f s = (done tt, f s)

-- What follows a step, on what the step came to.
abbrev pub follow :
    {W B A C : Type 0} → (A → Action W B C) → Outcome A × Sandbox W B → Outcome C × Sandbox W B
follow f (done a, s) = f a s
follow f (refused, s) = (refused, s)
follow f (failed, s) = (failed, s)
follow f (raised e, s) = (raised e, s)

infixl 5 ◌>>=◌ ◌>>◌
abbrev pub ◌>>=◌ : {W B A C : Type 0} → Action W B A → (A → Action W B C) → Action W B C
◌>>=◌ m f s = follow f (m s)

abbrev pub ◌>>◌ : {W B C : Type 0} → Action W B (Unit {0}) → Action W B C → Action W B C
m >> k = m >>= λ _. k

-- What lies behind the end of the handles. Nothing reads it.
abbrev pub no_handle : Handle
no_handle = record {
  path = none;
  buffer = none;
  buffer_charged = 0;
  offset = 0;
  readable = false;
  writable = false;
  append = false;
  ranged = false;
  dirty = false;
  closed = true;
}

abbrev pub contents : Option Bytes → Bytes
contents none = []
contents (some b) = b

module _ {W B : Type 0} where
  abbrev pub handle_at : Sandbox W B → ℕ → Handle
  handle_at s h = get_or s.handles h no_handle

  abbrev pub put_handle : ℕ → Handle → Sandbox W B → Sandbox W B
  put_handle h x s = record s { handles = set s.handles h x }

  -- `luaext_vfs_begin_call`
  abbrev pub begin_call : Sandbox W B → Sandbox W B
  begin_call s = record s { ops_this_call = 0 }

  -- `luaext_vfs_note_bytes`
  abbrev pub note_bytes : ℕ → Sandbox W B → Sandbox W B
  note_bytes n s = record s { bytes = add_size s.bytes n }

  -- `luaext_vfs_note_file_removed`
  unfoldable pub note_file_removed : Sandbox W B → Sandbox W B
  note_file_removed s =
      if s.file_count_known && ltb 0 s.file_count
      then record s { file_count = s.file_count - 1 }
      else s

-- `luaext_vfs_check_range`; the answer is `*end_position`.
unfoldable pub check_range : Quota → ℤ → ℤ → Outcome ℕ
check_range q (negsuc o) l = raised negative_offset
check_range q (pos o) (negsuc l) = raised negative_length
check_range q (pos o) (pos l) =
    if ltb (size_max - l) o
    then raised range_wraps
    else if not (q.max_file_bytes == 0) && ltb q.max_file_bytes (o + l)
    then raised file_bytes_spent
    else done (o + l)

-- What `luaext_vfs_parse_mode` stores.
pub record Mode : Type 0 where
  pub readable : Bool
  pub writable : Bool
  pub append : Bool
  pub truncate : Bool

-- The loop over the bytes behind the first.
unfoldable pub mode_flags : Bytes → Mode → Option Mode
mode_flags [] m = some m
mode_flags (c ∷ cs) m =
    let rest =
      mode_flags cs (if c == b'+' then record m { readable = true; writable = true } else m) in
    if c == b'+' || c == b'b' then rest else none

abbrev pub no_mode : Mode
no_mode = record { readable = false; writable = false; append = false; truncate = false }

-- `luaext_vfs_parse_mode`, on the bytes before the NUL.
unfoldable pub parse_mode : Bytes → Option Mode
parse_mode [] = none
parse_mode (c ∷ cs) =
    if c == b'r'
    then mode_flags cs (record no_mode { readable = true })
    else if c == b'w'
    then mode_flags cs (record no_mode { writable = true; truncate = true })
    else if c == b'a'
    then mode_flags cs (record no_mode { writable = true; append = true })
    else none

-- `cap != 0 && n > cap`
abbrev pub is_over : ℕ → ℕ → Bool
is_over cap n = not (cap == 0) && ltb cap n

-- The call itself, and what its exception becomes. A VfsError without a message leaves no refusal,
-- and callers take it for a failure.
abbrev pub outcome_of : {A : Type 0} → Reply A → Outcome A
outcome_of (answers a) = done a
outcome_of (declines true) = refused
outcome_of (declines false) = failed
outcome_of throws = failed

abbrev pub cross : {W B A : Type 0} → (B → Reply A × B) → Action W B A
cross f s = let (r, b) = f s.backend in (outcome_of r, record s { backend = b })

module _ {W B : Type 0} (E : Env W B) where
  -- `luaext_vfs_charge_operation`
  unfoldable pub charge_operation : Action W B (Unit {0})
  charge_operation s =
      let n = (s.ops_this_call + 1) % 2 ^ 32 in
      let s1 : Sandbox W B = record s { ops_this_call = n } in
      if is_over E.quota.max_operations n
      then (raised operations_spent, s1)
      else (done tt, record s1 { operations = add_size s1.operations 1 })

  abbrev pub count_crossing : Bool → Action W B (Unit {0})
  count_crossing true = charge_operation
  count_crossing false = modify λ s. record s { operations = add_size s.operations 1 }

  -- `luaext_vfs_call_maybe_charged`, without the clocks' pause.
  unfoldable pub call : {A : Type 0} → Bool → (B → Reply A × B) → Action W B A
  call charge f =
      if E.available then count_crossing charge >> cross f else ending (raised no_filesystem)

  -- `luaext_vfs_charge_buffer_public`
  unfoldable pub charge_buffer : ℕ → ℕ → Action W B (Unit {0})
  charge_buffer h n s =
      let cap = E.quota.max_total_bytes in
      let (charged, w) = E.budget.charge n s.memory in
      let x = handle_at s h in
      if not (cap == 0) && ltb (sub_size cap s.buffered_bytes) n
      then (raised total_bytes_spent, s)
      else if charged
      then (
        done tt,
        put_handle h (record x { buffer_charged = add_size x.buffer_charged n })
            (record s { memory = w; buffered_bytes = add_size s.buffered_bytes n }),
      )
      else (raised memory_spent, record s { memory = w })

  -- `luaext_vfs_refund_buffer`
  unfoldable pub refund_buffer : ℕ → Sandbox W B → Sandbox W B
  refund_buffer n s =
      let held = if ltb s.buffered_bytes n then s.buffered_bytes else n in
      record s {
        buffered_bytes = s.buffered_bytes - held;
        memory = E.budget.discharge held s.memory;
      }

  -- `luaext_vfs_handle_release`
  unfoldable pub handle_release : ℕ → Sandbox W B → Sandbox W B
  handle_release h s =
      let x = handle_at s h in
      let s1 = if x.buffer_charged == 0 then s else refund_buffer x.buffer_charged s in
      put_handle h (record x { buffer_charged = 0; buffer = none; path = none; closed = true })
        (record s1 { open_handles = if x.closed then s1.open_handles else s1.open_handles - 1 })
