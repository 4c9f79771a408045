-- ===== src/Vfs/Io.antt =====
-- The methods of open files: src/luaext_iolib.c.
use lua_ext.Base.{
  ℕ, zero, suc, ◌+◌, ◌-◌, ◌^◌, Bool, true, false, not, ◌&&◌, Option, none, some, List, [], ◌∷◌,
  ◌++◌, ltb, leb, ◌==◌, if◌then◌else◌, length, take, drop, replicate, size_max, add_size, ℤ, pos,
  negsuc, ◌+ℤ◌,
}
use lua_ext.Vfs.{
  Bytes, Handle, Stat, Env, closed_file, not_a_string, reply_too_long, seek_wraps, out_of_fuel,
  done, refused, raised, Action, pure, ending, modify, follow, ◌>>=◌, ◌>>◌, contents, handle_at,
  put_handle, note_bytes, call, check_range, charge_buffer,
}
use lua_ext.Vfs.Files.{set_offset, set_buffer, is_unwritten, write_back, close_handle}

-- `INT64_MAX` and `INT_MAX`
abbrev pub int64_max : ℕ
int64_max = 2 ^ 63 - 1

abbrev pub int_max : ℕ
int_max = 2 ^ 31 - 1

-- `(lua_Integer)` of a `uint64_t`.
abbrev pub as_integer : ℕ → ℤ
as_integer n = if ltb n (2 ^ 63) then pos n else negsuc (2 ^ 64 - 1 - n)

-- The bytes up to and with the first newline, and whether there is one.
unfoldable pub first_line : Bytes → Bytes × Bool
first_line [] = ([], false)
first_line (c ∷ cs) =
    let (line, ended) = first_line cs in if c == 10 then (c ∷ [], true) else (c ∷ line, ended)

-- Without its newline, if it has one and it is not kept.
abbrev pub trimmed : Bool → Bool → Bytes → Bytes
trimmed keep ended line = if not keep && ended then take (length line - 1) line else line

abbrev pub start_of : Handle → ℕ
start_of x =
    let available = length (contents x.buffer) in
    if ltb available x.offset then available else x.offset

-- `:read` without its stack: a number of bytes, a line with or without its newline, or all.
pub data Format : Type 0 where
  a_number : ℤ → Format
  a_line : Bool → Format
  everything : Format

-- The answer of `whence`.
pub data Whence : Type 0 where
  from_start from_here from_end : Whence

-- `LUAEXT_IOLIB_LINE_CHUNK`
abbrev pub line_chunk : ℕ
line_chunk = 512

-- `(uint64_t)wanted`, behind the test that it is not negative.
abbrev pub magnitude : ℤ → ℕ
magnitude (pos n) = n
magnitude (negsuc n) = 0

abbrev pub nil_if_empty : Bool → Bytes → Option Bytes
nil_if_empty wanted b = if length b == 0 && wanted then none else some b

-- The buffer with `b` written at `start`, after zeros if that lies behind its end.
unfoldable pub splice : Bytes → ℕ → Bytes → Bytes
splice old start b =
    take start old ++ (replicate (start - length old) 0 ++ (b ++ drop (start + length b) old))

-- Where a write goes. Append mode moves only a buffered handle.
abbrev pub placed : Handle → Handle
placed x = record x {
  offset = if x.append && not x.ranged then length (contents x.buffer) else x.offset;
}

-- The test of `luaext_iolib_file_seek` in front of its addition.
unfoldable pub sum_wraps : ℤ → ℤ → Bool
sum_wraps (pos b) (pos o) = ltb 0 o && ltb int64_max (b + o)
sum_wraps (pos b) (negsuc o) = false
sum_wraps (negsuc b) (pos o) = false
sum_wraps (negsuc b) (negsuc o) = ltb (2 ^ 63) (b + o + 2)

abbrev pub stat_size : Option Stat → ℤ
stat_size none = pos 0
stat_size (some stat) = elim stat.size [ none ↦ pos 0 | some z ↦ z ]

module _ {W B : Type 0} (E : Env W B) where
  -- `luaext_iolib_check_handle`
  abbrev pub if_open : {A : Type 0} → ℕ → (Handle → Action W B A) → Action W B A
  if_open h k s = if (handle_at s h).closed then (raised closed_file, s) else k (handle_at s h) s

  -- What a ranged read makes of the backend's reply.
  abbrev pub take_reply : ℕ → Option Bytes → Action W B Bytes
  take_reply h none s = (raised not_a_string, s)
  take_reply h (some b) s =
      if ltb int_max (length b)
      then (raised reply_too_long, s)
      else if not (E.max_string_length == 0) && ltb E.max_string_length (length b)
      then (raised reply_too_long, s)
      else (
        done b,
        set_offset h (add_size (handle_at s h).offset (length b)) (note_bytes (length b) s),
      )

  abbrev pub fetch : ℕ → ℕ → Handle → Action W B Bytes
  fetch h n x =
      call E true
        (E.host.read_range (contents x.path) x.offset (if ltb int64_max n then int64_max else n))
      >>= take_reply h

  abbrev pub slice : ℕ → ℕ → Handle → Action W B Bytes
  slice h n x s =
      let b = take n (drop (start_of x) (contents x.buffer)) in
      (done b, set_offset h (start_of x + length b) s)

  abbrev pub read_from : ℕ → ℕ → Handle → Action W B Bytes
  read_from h n x = if x.ranged then fetch h n x else slice h n x

  -- `luaext_iolib_read_bytes`
  unfoldable pub read_bytes : ℕ → ℕ → Action W B Bytes
  read_bytes h n = if_open h (read_from h n)

  -- The line ends in this chunk: what is read past it is handed back.
  abbrev pub line_ended : Bool → ℕ → Bytes → Bytes → Action W B (Option Bytes)
  line_ended keep h line chunk s =
      let (head, ended) = first_line chunk in
      (
        done (some (line ++ trimmed keep ended head)),
        set_offset h ((handle_at s h).offset - (length chunk - length head)) s,
      )

  -- A round of the loop behind its read; `again` is the rounds that follow.
  abbrev pub after_chunk :
      Action W B (Option Bytes) → Bool → ℕ → Bytes → Bool → Bytes → Action W B (Option Bytes)
  after_chunk again keep h line any chunk =
      if length chunk == 0
      then pure (if any then some line else none)
      else if (first_line chunk).1
      then line_ended keep h line chunk
      else again

  -- The loop of `luaext_iolib_read_line` over the chunks of a ranged handle; fuel counts its rounds.
  -- `line` is what was added, and `any` whether a chunk was.
  unfoldable pub read_chunks : ℕ → Bool → ℕ → Bytes → Bool → Action W B (Option Bytes)
  read_chunks zero keep h line any = ending (raised out_of_fuel)
  read_chunks (suc fuel) keep h line any = read_bytes h line_chunk >>= λ chunk.
      after_chunk (read_chunks fuel keep h (line ++ chunk) true) keep h line any chunk

  -- `luaext_iolib_read_line`; `none` for its 0.
  unfoldable pub read_line : ℕ → Bool → ℕ → Action W B (Option Bytes)
  read_line fuel keep h s =
      let x = handle_at s h in
      let (line, ended) = first_line (drop (start_of x) (contents x.buffer)) in
      if x.ranged
      then read_chunks fuel keep h [] false s
      else if leb (length (contents x.buffer)) (start_of x)
      then (done none, s)
      else (done (some (trimmed keep ended line)), set_offset h (start_of x + length line) s)

  abbrev pub read_some : ℕ → ℕ → Action W B (Option Bytes)
  read_some h n = read_bytes h n >>= λ b. pure (nil_if_empty (ltb 0 n) b)

  abbrev pub read_number : ℕ → ℤ → Action W B (Option Bytes)
  read_number h n s =
      follow (λ end. read_some h (magnitude n))
        (check_range E.quota (as_integer (handle_at s h).offset) n, s)

  -- `luaext_iolib_read_one`
  unfoldable pub read_one : ℕ → ℕ → Format → Action W B (Option Bytes)
  read_one fuel h (a_number n) = read_number h n
  read_one fuel h (a_line keep) = read_line fuel keep h
  read_one fuel h everything =
      let cap = E.quota.max_file_bytes in
      read_bytes h (if cap == 0 then size_max else cap) >>= λ b. pure (some b)

  abbrev pub reading : ℕ → ℕ → Format → Handle → Action W B (Option Bytes)
  reading fuel h f x = if x.readable then read_one fuel h f else ending refused

  -- `luaext_iolib_file_read` for one format.
  unfoldable pub file_read : ℕ → ℕ → Format → Action W B (Option Bytes)
  file_read fuel h f = if_open h (reading fuel h f)

  abbrev pub write_buffered : ℕ → Handle → ℕ → Bytes → Action W B (Unit {0})
  write_buffered h x end b =
      let old = contents x.buffer in
      (if ltb (length old) end then charge_buffer E h (end - length old) else pure tt)
      >> modify λ s. set_offset h end (set_buffer h (splice old x.offset b) true s)

  abbrev pub write_ranged : ℕ → Handle → ℕ → Bytes → Action W B (Unit {0})
  write_ranged h x end b =
      call E true (E.host.write_range (contents x.path) x.offset b)
      >> modify λ s. set_offset h end (note_bytes (length b) s)

  abbrev pub write_placed : ℕ → Bytes → Handle → Action W B (Unit {0})
  write_placed h b x s =
      follow (λ end. if x.ranged then write_ranged h x end b else write_buffered h x end b)
        (check_range E.quota (as_integer x.offset) (pos (length b)), put_handle h x s)

  abbrev pub write_here : ℕ → Bytes → Handle → Action W B (Unit {0})
  write_here h b x = write_placed h b (placed x)

  -- A round of the loop of `luaext_iolib_file_write`.
  unfoldable pub write_one : ℕ → Bytes → Action W B (Unit {0})
  write_one h b = if_open h (write_here h b)

  unfoldable pub write_all : ℕ → List Bytes → Action W B (Unit {0})
  write_all h [] = pure tt
  write_all h (b ∷ bs) = write_one h b >> write_all h bs

  abbrev pub writing : ℕ → List Bytes → Handle → Action W B (Unit {0})
  writing h bs x = if x.writable then write_all h bs else ending refused

  -- `luaext_iolib_file_write`, for arguments that are strings.
  unfoldable pub file_write : ℕ → List Bytes → Action W B (Unit {0})
  file_write h bs = if_open h (writing h bs)

  abbrev pub flushing : ℕ → Handle → Action W B (Unit {0})
  flushing h x = if is_unwritten x then write_back E true h else pure tt

  -- `luaext_iolib_file_flush`
  unfoldable pub file_flush : ℕ → Action W B (Unit {0})
  file_flush h = if_open h (flushing h)

  -- `luaext_iolib_file_close`
  unfoldable pub file_close : ℕ → Action W B (Unit {0})
  file_close h = close_handle E true h

  abbrev pub base_of : Handle → Whence → Action W B ℤ
  base_of x from_start = pure (pos 0)
  base_of x from_here = pure (as_integer x.offset)
  base_of x from_end =
      if x.ranged
      then (call E true (E.host.stat (contents x.path)) >>= λ stat. pure (stat_size stat))
      else pure (pos (length (contents x.buffer)))

  abbrev pub go_to : ℕ → ℤ → Action W B ℕ
  go_to h (negsuc n) s = (refused, s)
  go_to h (pos n) s =
      follow (λ end s. (done n, set_offset h n s)) (check_range E.quota (pos n) (pos 0), s)

  abbrev pub sought : ℕ → ℤ → ℤ → Action W B ℕ
  sought h offset base =
      if sum_wraps base offset then ending (raised seek_wraps) else go_to h (base +ℤ offset)

  abbrev pub seeking : ℕ → Whence → ℤ → Handle → Action W B ℕ
  seeking h whence offset x = base_of x whence >>= sought h offset

  -- `luaext_iolib_file_seek`
  unfoldable pub file_seek : ℕ → Whence → ℤ → Action W B ℕ
  file_seek h whence offset = if_open h (seeking h whence offset)
