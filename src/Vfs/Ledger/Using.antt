-- ===== src/Vfs/Ledger/Using.antt =====
-- Whatever is done to open files (src/luaext_iolib.c) keeps the ledger.
use lua_ext.Base.{
  ℕ, zero, suc, ◌+◌, ◌-◌, ◌≡◌, refl, ◌∙◌, ap, Bool, true, false, not, ◌&&◌, Option, none, some,
  List, [], ◌∷◌, ◌++◌, ltb, leb, ◌==◌, if◌then◌else◌, length, pos, negsuc, ℤ, ◌+ℤ◌, size_max, take,
  drop, add_size,
}
use lua_ext.Base.Budget.{BudgetLaws}
use lua_ext.Vfs.{
  Bytes, Handle, Env, Sandbox, Outcome, done, refused, failed, raised, Action, Reply, follow, pure,
  ending, modify, ◌>>=◌, handle_at, put_handle, contents, note_bytes, charge_buffer, call,
  check_range, seek_wraps,
}
use lua_ext.Vfs.Files.{
  set_offset, set_buffer, is_unwritten, write_back, save, saving, released, close_handle,
}
use lua_ext.Vfs.Io.{
  as_integer, int64_max, int_max, first_line, start_of, Format, a_number, a_line, everything,
  Whence, from_start, from_here, from_end, line_chunk, magnitude, nil_if_empty, splice, placed,
  sum_wraps, if_open, take_reply, fetch, slice, read_from, line_ended, after_chunk, read_some,
  reading, writing, flushing, sought, seeking, read_bytes, read_chunks, read_line, read_number,
  read_one, file_read, write_buffered, write_ranged, write_here, write_one, write_all, file_write,
  file_flush, stat_size, base_of, go_to, file_seek,
}
use lua_ext.Vfs.Handles.{open_inside, at_put, follow_lem, if_lem}
use lua_ext.Vfs.Ledger.{put-IsLedger}
use lua_ext.Vfs.Ledger.Steps.{
  IsBounded, charge_buffer-IsLedger, handle_release-IsLedger, or_release-Ledgered,
}
use lua_ext.Vfs.Ledger.Opening.{
  Holds, Steady, set_offset-IsLedger, set_buffer-IsLedger, note_bytes-IsLedger, call-IsLedger,
  bind-Steady, if-Steady,
}

module _ {W B : Type 0} (E : Env W B) (L : BudgetLaws E.budget) (other : ℕ)
    (bounds : IsBounded E L) where
  abbrev Keeps : Sandbox W B → Type 0
  Keeps = Holds E L other bounds

  abbrev Calm : {A : Type 0} → Action W B A → Type 0
  Calm = Steady E L other bounds

  abbrev After : {A : Type 0} → Outcome A × Sandbox W B → Type 0
  After r = Keeps r.1

  -- The test that the handle is open.
  if_open-Holds :
      {A : Type 0} (h : ℕ) (k : Handle → Action W B A) (s : Sandbox W B)
      → Keeps s
      → ((handle_at s h).closed ≡ false → After (k (handle_at s h) s))
      → After (if_open E h k s)
  if_open-Holds h k s v f = if_lem After (handle_at s h).closed _ _ (λ _. v) f

  if_open-Steady :
      {A : Type 0} (h : ℕ) (k : Handle → Action W B A)
      → ((x : Handle) → Calm (k x))
      → Calm (if_open E h k)
  if_open-Steady h k f s v = if_open-Holds h k s v λ _. f (handle_at s h) s v

  moved : (h n : ℕ) (s : Sandbox W B) → Keeps s → Keeps (set_offset h n s)
  moved = set_offset-IsLedger E L other bounds

  called : {A : Type 0} (f : B → Reply A × B) → Calm (call E true f)
  called f = call-IsLedger E L other bounds true f

  noted : (n : ℕ) (s : Sandbox W B) → Keeps s → Keeps (note_bytes n s)
  noted = note_bytes-IsLedger E L other bounds

  either :
      {A : Type 0} (c : Bool) (m n : Action W B A) → Calm m → Calm n → Calm (if c then m else n)
  either = if-Steady E L other bounds

  then_ :
      {A C : Type 0} (m : Action W B A) (f : A → Action W B C)
      → Calm m
      → ((a : A) → Calm (f a))
      → Calm (m >>= f)
  then_ = bind-Steady E L other bounds

  ended : {A : Type 0} (o : Outcome A) → Calm (ending o)
  ended o s v = v

  take_reply-Steady : (h : ℕ) (b : Option Bytes) → Calm (take_reply E h b)
  take_reply-Steady h none s v = v
  take_reply-Steady h (some b) s v =
      if_lem After (ltb int_max (length b)) _ _ (λ _. v)
        λ _.
          if_lem After (not (E.max_string_length == 0) && ltb E.max_string_length (length b)) _ _
            (λ _. v)
            λ _.
              moved h (add_size (handle_at s h).offset (length b)) (note_bytes (length b) s)
                (noted (length b) s v)

  read_bytes-Steady : (h n : ℕ) → Calm (read_bytes E h n)
  unfolding read_bytes
  read_bytes-Steady h n = if_open-Steady h (read_from E h n) λ x.
      let f =
        E.host.read_range (contents x.path) x.offset (if ltb int64_max n then int64_max else n) in
      either x.ranged (fetch E h n x) (slice E h n x)
        (then_ (call E true f) (take_reply E h) (called f) (take_reply-Steady h))
        (λ s v. moved h (start_of x + length (take n (drop (start_of x) (contents x.buffer)))) s v)

  after_chunk-Steady :
      (again : Action W B (Option Bytes)) (keep : Bool) (h : ℕ) (line : Bytes) (any : Bool)
      (chunk : Bytes)
      → Calm again
      → Calm (after_chunk E again keep h line any chunk)
  after_chunk-Steady again keep h line any chunk c =
      either (length chunk == 0) (pure (if any then some line else none)) _ (λ s v. v)
        (either (first_line chunk).1 (line_ended E keep h line chunk) again
          (λ s v.
            moved h ((handle_at s h).offset - (length chunk - length (first_line chunk).0)) s v)
          c)

  read_chunks-Steady :
      (fuel : ℕ) (keep : Bool) (h : ℕ) (line : Bytes) (any : Bool)
      → Calm (read_chunks E fuel keep h line any)
  unfolding read_chunks
  read_chunks-Steady zero keep h line any s v = v
  read_chunks-Steady (suc fuel) keep h line any s v =
      then_ (read_bytes E h line_chunk)
        (λ chunk.
          after_chunk E (read_chunks E fuel keep h (line ++ chunk) true) keep h line any chunk)
        (read_bytes-Steady h line_chunk)
        (λ chunk.
          after_chunk-Steady (read_chunks E fuel keep h (line ++ chunk) true) keep h line any chunk
            (read_chunks-Steady fuel keep h (line ++ chunk) true))
        s v

  read_line-Steady : (fuel : ℕ) (keep : Bool) (h : ℕ) → Calm (read_line E fuel keep h)
  unfolding read_line
  read_line-Steady fuel keep h s v =
      let x = handle_at s h in
      if_lem After x.ranged _ _ (λ _. read_chunks-Steady fuel keep h [] false s v)
        λ _.
          if_lem After (leb (length (contents x.buffer)) (start_of x)) _ _ (λ _. v)
            λ _.
              moved h (start_of x + length (first_line (drop (start_of x) (contents x.buffer))).0) s
                v

  read_number-Steady : (h : ℕ) (n : ℤ) → Calm (read_number E h n)
  read_number-Steady h n s v =
      follow_lem Keeps Keeps (λ _. read_some E h (magnitude n))
        (check_range E.quota (as_integer (handle_at s h).offset) n, s) v (λ s w. w)
        (λ _.
          then_ (read_bytes E h (magnitude n)) (λ b. pure (nil_if_empty (ltb 0 (magnitude n)) b))
            (read_bytes-Steady h (magnitude n)) λ b s w. w)

  read_one-Steady : (fuel h : ℕ) (f : Format) → Calm (read_one E fuel h f)
  unfolding read_one
  read_one-Steady fuel h (a_number n) = read_number-Steady h n
  read_one-Steady fuel h (a_line keep) = read_line-Steady fuel keep h
  read_one-Steady fuel h everything =
      let n = if E.quota.max_file_bytes == 0 then size_max else E.quota.max_file_bytes in
      then_ (read_bytes E h n) (λ b. pure (some b)) (read_bytes-Steady h n) λ b s w. w

  pub file_read-Steady : (fuel h : ℕ) (f : Format) → Calm (file_read E fuel h f)
  unfolding file_read
  file_read-Steady fuel h f = if_open-Steady h (reading E fuel h f) λ x.
      either x.readable (read_one E fuel h f) (ending refused) (read_one-Steady fuel h f) (λ s v. v)

  base_of-Steady : (x : Handle) (w : Whence) → Calm (base_of E x w)
  base_of-Steady x from_start = ended (done (pos 0))
  base_of-Steady x from_here = ended (done (pos x.offset))
  base_of-Steady x from_end =
      let f = E.host.stat (contents x.path) in
      either x.ranged (call E true f >>= λ stat. pure (stat_size stat))
        (pure (pos (length (contents x.buffer))))
        (then_ (call E true f) (λ stat. pure (stat_size stat)) (called f) λ stat s w. w) (λ s v. v)

  go_to-Steady : (h : ℕ) (z : ℤ) → Calm (go_to E h z)
  go_to-Steady h (negsuc n) s v = v
  go_to-Steady h (pos n) s v =
      follow_lem Keeps Keeps (λ end s. (done n, set_offset h n s))
        (check_range E.quota (pos n) (pos 0), s) v (λ s w. w) (λ _ s w. moved h n s w)

  pub file_seek-Steady : (h : ℕ) (w : Whence) (offset : ℤ) → Calm (file_seek E h w offset)
  unfolding file_seek
  file_seek-Steady h w offset = if_open-Steady h (seeking E h w offset) λ x.
      then_ (base_of E x w) (sought E h offset) (base_of-Steady x w) λ base.
        either (sum_wraps base offset) (ending (raised seek_wraps)) (go_to E h (base +ℤ offset))
          (λ s v. v) (go_to-Steady h (base +ℤ offset))

  write_back-Steady : (charge : Bool) (h : ℕ) → Calm (write_back E charge h)
  unfolding write_back
  write_back-Steady charge h s v =
      let x = handle_at s h in
      then_ (call E charge (E.host.write (contents x.path) (contents x.buffer))) _
        (call-IsLedger E L other bounds charge _)
        (λ _ s w.
          put-IsLedger E L other h
            (record (handle_at (note_bytes (length (contents x.buffer)) s) h) { dirty = false })
            (note_bytes (length (contents x.buffer)) s) refl refl
            (noted (length (contents x.buffer)) s w))
        s v

  pub file_flush-Steady : (h : ℕ) → Calm (file_flush E h)
  unfolding file_flush
  file_flush-Steady h = if_open-Steady h (flushing E h) λ x.
      either (is_unwritten x) (write_back E true h) (pure tt) (write_back-Steady true h) (λ s v. v)

  pub close_handle-Steady : (charge : Bool) (h : ℕ) → Calm (close_handle E charge h)
  unfolding close_handle
  close_handle-Steady charge h s v =
      if_lem After (handle_at s h).closed _ _ (λ _. v)
        λ _.
          then_ (saving E charge h (handle_at s h)) (λ _. released E h)
            (either (is_unwritten (handle_at s h)) (save E charge h) (pure tt) save-Steady
              (λ s w. w))
            (λ _ s w. handle_release-IsLedger E L other bounds h s w) s v
    where
      save-Steady : Calm (save E charge h)
      save-Steady s w =
          or_release-Ledgered E L other bounds h (write_back E charge h s)
            (write_back-Steady charge h s w)

  filled :
      (h end : ℕ) (b : Bytes) (s : Sandbox W B)
      → Keeps s
      → Keeps (set_offset h end (set_buffer h b true s))
  filled h end b s v =
      moved h end (set_buffer h b true s) (set_buffer-IsLedger E L other bounds h b true s v)

  -- Room is made in an open handle only.
  grown :
      (c : Bool) (h n : ℕ) (s : Sandbox W B)
      → (handle_at s h).closed ≡ false
      → Keeps s
      → After ((if c then charge_buffer E h n else pure tt) s)
  grown true h n s o v = charge_buffer-IsLedger E L other bounds h n s o v
  grown false h n s o v = v

  write_buffered-Holds :
      (h end : ℕ) (x : Handle) (b : Bytes) (s : Sandbox W B)
      → (handle_at s h).closed ≡ false
      → Keeps s
      → After (write_buffered E h x end b s)
  write_buffered-Holds h end x b s o v =
      follow_lem Keeps Keeps
        (λ _.
          modify
            λ s. set_offset h end (set_buffer h (splice (contents x.buffer) x.offset b) true s))
        ((if ltb (length (contents x.buffer)) end
            then charge_buffer E h (end - length (contents x.buffer))
            else pure tt)
          s)
        (grown (ltb (length (contents x.buffer)) end) h (end - length (contents x.buffer)) s o v)
        (λ s w. w) (λ _ s w. filled h end _ s w)

  write_ranged-Steady : (h end : ℕ) (x : Handle) (b : Bytes) → Calm (write_ranged E h x end b)
  write_ranged-Steady h end x b =
      then_ (call E true (E.host.write_range (contents x.path) x.offset b)) _ (called _)
        (λ _ s w. moved h end (note_bytes (length b) s) (noted (length b) s w))

  write_kind :
      (c : Bool) (h end : ℕ) (x : Handle) (b : Bytes) (s : Sandbox W B)
      → (handle_at s h).closed ≡ false
      → Keeps s
      → After ((if c then write_ranged E h x end b else write_buffered E h x end b) s)
  write_kind true h end x b s o v = write_ranged-Steady h end x b s v
  write_kind false h end x b s o v = write_buffered-Holds h end x b s o v

  write_one-Steady : (h : ℕ) (b : Bytes) → Calm (write_one E h b)
  unfolding write_one
  write_one-Steady h b s v = if_open-Holds h (write_here E h b) s v λ o.
      let x = placed (handle_at s h) in
      let s1 = put_handle h x s in
      let o1 : (handle_at s1 h).closed ≡ false =
        ap (λ (y : Handle). y.closed) (at_put h x s (open_inside h s o)) ∙ o in
      let v1 = put-IsLedger E L other h x s refl refl v in
      checked (check_range E.quota (as_integer x.offset) (pos (length b))) x s1 o1 v1
    where
      checked :
          (r : Outcome ℕ) (x : Handle) (s1 : Sandbox W B)
          → (handle_at s1 h).closed ≡ false
          → Keeps s1
          → After (
              follow
                (λ end. if x.ranged then write_ranged E h x end b else write_buffered E h x end b)
                (r, s1))
      checked (done end) x s1 o1 v1 = write_kind x.ranged h end x b s1 o1 v1
      checked refused x s1 o1 v1 = v1
      checked failed x s1 o1 v1 = v1
      checked (raised e) x s1 o1 v1 = v1

  write_all-Steady : (h : ℕ) (bs : List Bytes) → Calm (write_all E h bs)
  unfolding write_all
  write_all-Steady h [] s v = v
  write_all-Steady h (b ∷ bs) s v =
      then_ (write_one E h b) (λ _. write_all E h bs) (write_one-Steady h b)
        (λ _. write_all-Steady h bs) s v

  pub file_write-Steady : (h : ℕ) (bs : List Bytes) → Calm (file_write E h bs)
  unfolding file_write
  file_write-Steady h bs =
      if_open-Steady h (writing E h bs) λ x.
        either x.writable (write_all E h bs) (ending refused) (write_all-Steady h bs) (λ s v. v)
