-- ===== src/Vfs/Splice.antt =====
-- A write to a buffered file (src/luaext_iolib.c): what the buffer holds behind it, byte by byte.
use lua_ext.Base.{
  ◌^◌, Bool-cases, ℕ, zero, suc, ◌+◌, ◌-◌, ◌≤◌, ◌<◌, ◌≡◌, ◌≢◌, refl, sym, ◌∙◌, ap, Bool, true,
  false, ◌&&◌, some, [], ◌∷◌, ◌++◌, ltb, leb, if◌then◌else◌, arith, inl, inr, length, get_or,
  length-set, take, drop, replicate, length-append, length-take, length-drop, length-replicate,
  size_max, add_size, pos,
}
use lua_ext.Vfs.{
  Bytes, Handle, Env, Sandbox, Outcome, done, refused, failed, raised, contents, Action, follow,
  modify, pure, range_wraps, file_bytes_spent, is_over, handle_at, put_handle, charge_buffer,
  check_range,
}
use lua_ext.Vfs.Files.{set_offset, set_buffer}
use lua_ext.Vfs.Handles.{at_put, at_offset, at_buffer, open_inside, charge_cases}
use lua_ext.Vfs.Io.{
  as_integer, splice, placed, write_one, write_placed, write_buffered, write_ranged,
}

abbrev byte_at : Bytes → ℕ → ℕ
byte_at b i = get_or b i 0

get_or-nil : (i : ℕ) → byte_at [] i ≡ 0
get_or-nil zero = refl
get_or-nil (suc i) = refl

byte_at-append :
    (xs ys : Bytes) (i : ℕ)
    → byte_at (xs ++ ys) i
      ≡ (if ltb i (length xs) then byte_at xs i else byte_at ys (i - length xs))
byte_at-append [] ys i = ground arith
byte_at-append (x ∷ xs) ys zero = ground arith
byte_at-append (x ∷ xs) ys (suc i) = ground (arith, byte_at-append xs ys i)

byte_at-take : (n : ℕ) (xs : Bytes) (i : ℕ) → i < n → byte_at (take n xs) i ≡ byte_at xs i
byte_at-take zero xs i h = absurd (omega arith)
byte_at-take (suc n) [] i h = refl
byte_at-take (suc n) (x ∷ xs) zero h = refl
byte_at-take (suc n) (x ∷ xs) (suc i) h = byte_at-take n xs i (omega arith)

byte_at-drop : (n : ℕ) (xs : Bytes) (i : ℕ) → byte_at (drop n xs) i ≡ byte_at xs (n + i)
byte_at-drop zero xs i = rw (zero_add i) refl
  where
    zero_add : (i : ℕ) → 0 + i ≡ i
    zero_add i = omega arith
byte_at-drop (suc n) [] i = get_or-nil i ∙ sym (get_or-nil (suc n + i))
byte_at-drop (suc n) (x ∷ xs) i = byte_at-drop n xs i ∙ sym (step n)
  where
    step : (n : ℕ) → byte_at (x ∷ xs) (suc n + i) ≡ byte_at xs (n + i)
    step n = rw (add_suc n) refl
      where
        add_suc : (n : ℕ) → suc n + i ≡ suc (n + i)
        add_suc n = omega arith

byte_at-replicate : (n i : ℕ) → byte_at (replicate n 0) i ≡ 0
byte_at-replicate zero i = get_or-nil i
byte_at-replicate (suc n) zero = refl
byte_at-replicate (suc n) (suc i) = byte_at-replicate n i

byte_at-beyond : (xs : Bytes) (i : ℕ) → length xs ≤ i → byte_at xs i ≡ 0
byte_at-beyond [] i h = get_or-nil i
byte_at-beyond (x ∷ xs) zero h = absurd (omega arith)
byte_at-beyond (x ∷ xs) (suc i) h = byte_at-beyond xs i (omega arith)

pub length-splice :
    (old : Bytes) (o : ℕ) (b : Bytes)
    → length (splice old o b)
      ≡ (if ltb (length old) (o + length b) then o + length b else length old)
unfolding splice
length-splice old o b =
    let tail : Bytes = drop (o + length b) old in
    let zeros : Bytes = replicate (o - length old) 0 in
    ground (
      arith,
      length-append (take o old) (zeros ++ (b ++ tail)),
      length-append zeros (b ++ tail),
      length-append b tail,
      length-take o old,
      length-replicate {A = ℕ} (o - length old) 0,
      length-drop (o + length b) old,
    )

-- Each byte of the spliced buffer.
pub byte_at-splice :
    (old : Bytes) (o : ℕ) (b : Bytes) (i : ℕ)
    → get_or (splice old o b) i 0
      ≡ (if leb o i && ltb i (o + length b) then get_or b (i - o) 0 else get_or old i 0)
unfolding splice
byte_at-splice old o b i =
    let tail : Bytes = drop (o + length b) old in
    let zeros : Bytes = replicate (o - length old) 0 in
    ground (
      arith,
      byte_at-append (take o old) (zeros ++ (b ++ tail)) i,
      byte_at-append zeros (b ++ tail) (i - length (take o old)),
      byte_at-append b tail (i - length (take o old) - length zeros),
      length-take o old,
      length-replicate {A = ℕ} (o - length old) 0,
      byte_at-take o old i,
      byte_at-replicate (o - length old) (i - length (take o old)),
      byte_at-beyond old i,
      byte_at-drop (o + length b) old (i - length (take o old) - length zeros - length b),
    )

module _ {W B : Type 0} (E : Env W B) where
  -- What a write of `b` to an open buffered handle leaves of it.
  pub record IsWritten (x : Handle) (b : Bytes) (x' : Handle) : Type 0 where
    pub size : length (contents x'.buffer) ≡ (
        if ltb (length (contents x.buffer)) ((placed x).offset + length b)
        then (placed x).offset + length b
        else length (contents x.buffer))
    pub each :
        (i : ℕ)
        → get_or (contents x'.buffer) i 0 ≡ (
            if leb (placed x).offset i && ltb i ((placed x).offset + length b)
            then get_or b (i - (placed x).offset) 0
            else get_or (contents x.buffer) i 0)
    pub moved : x'.offset ≡ (placed x).offset + length b
    pub dirty : x'.dirty ≡ true
    pub quota : E.quota.max_file_bytes ≢ 0 → (placed x).offset + length b ≤ E.quota.max_file_bytes

  splice-IsWritten :
      (x x' : Handle) (b : Bytes)
      → x'.buffer ≡ some (splice (contents x.buffer) (placed x).offset b)
      → x'.offset ≡ (placed x).offset + length b
      → x'.dirty ≡ true
      → (E.quota.max_file_bytes ≢ 0 → (placed x).offset + length b ≤ E.quota.max_file_bytes)
      → IsWritten x b x'
  splice-IsWritten x x' b e f d q = record {
    size = rw e (length-splice (contents x.buffer) (placed x).offset b);
    each = λ i. rw e (byte_at-splice (contents x.buffer) (placed x).offset b i);
    moved = f;
    dirty = d;
    quota = q;
  }

  -- And what else there is to say: a write that is not done leaves the bytes.
  abbrev pub IsWriteOf : Handle → Bytes → ℕ → Outcome (Unit {0}) × Sandbox W B → Type 0
  IsWriteOf x b h (done u, s) = IsWritten x b (handle_at s h)
  IsWriteOf x b h (refused, s) = (handle_at s h).buffer ≡ x.buffer
  IsWriteOf x b h (failed, s) = (handle_at s h).buffer ≡ x.buffer
  IsWriteOf x b h (raised e, s) = (handle_at s h).buffer ≡ x.buffer

  -- A range that passes ends where it should and inside the quota.
  abbrev IsChecked : ℕ → ℕ → Outcome ℕ → Type 0
  IsChecked o l (done e) =
      (e ≡ o + l) × (E.quota.max_file_bytes ≢ 0 → o + l ≤ E.quota.max_file_bytes)
  IsChecked o l refused = ⊥
  IsChecked o l failed = ⊥
  IsChecked o l (raised e) = Unit

  tests-IsChecked :
      (o l : ℕ) (w q : Bool)
      → (q ≡ false → E.quota.max_file_bytes ≢ 0 → o + l ≤ E.quota.max_file_bytes)
      → IsChecked o l
          (if w then raised range_wraps else if q then raised file_bytes_spent else done (o + l))
  tests-IsChecked o l true q f = tt
  tests-IsChecked o l false true f = tt
  tests-IsChecked o l false false f = (refl, f refl)

  check_range-IsChecked : (o l : ℕ) → IsChecked o l (check_range E.quota (as_integer o) (pos l))
  unfolding check_range
  check_range-IsChecked o l = elim (Bool-cases (ltb o (2 ^ 63))) [
    | inr z ↦ rw z tt
    | inl z ↦ rw z (
        tests-IsChecked o l (ltb (size_max - l) o) (is_over E.quota.max_file_bytes (o + l))
          λ e n. ground (arith, n))
  ]

  -- The buffer is written when it is large enough, or has been charged.
  spliced-IsWritten :
      (h end : ℕ) (b : Bytes) (x : Handle) (s : Sandbox W B)
      → h < length s.handles
      → (handle_at s h).offset ≡ (placed x).offset
      → end ≡ (placed x).offset + length b
      → (E.quota.max_file_bytes ≢ 0 → (placed x).offset + length b ≤ E.quota.max_file_bytes)
      → IsWritten x b (
          handle_at
            (set_offset h end
              (set_buffer h (splice (contents x.buffer) (placed x).offset b) true s))
            h)
  spliced-IsWritten h end b x s p o e q =
      let b' = splice (contents x.buffer) (placed x).offset b in
      rw
        (at_offset h end (set_buffer h b' true s) (
          omega (
            arith,
            length-set s.handles h (record (handle_at s h) { buffer = some b'; dirty = true }),
            p,
          )))
        (rw (at_buffer h b' true s p) (splice-IsWritten x _ b refl e refl q))

  -- Room was made for the write, or not.
  abbrev IsReady : Handle → ℕ → Outcome (Unit {0}) × Sandbox W B → Type 0
  IsReady x h (done u, s) = (h < length s.handles) × ((handle_at s h).offset ≡ (placed x).offset)
  IsReady x h (refused, s) = (handle_at s h).buffer ≡ x.buffer
  IsReady x h (failed, s) = (handle_at s h).buffer ≡ x.buffer
  IsReady x h (raised e, s) = (handle_at s h).buffer ≡ x.buffer

  abbrev fill : ℕ → ℕ → Bytes → Handle → Action W B (Unit {0})
  fill h end b x =
      modify λ s. set_offset h end (set_buffer h (splice (contents x.buffer) x.offset b) true s)

  ready-written :
      (h end : ℕ) (b : Bytes) (x : Handle) (r : Outcome (Unit {0}) × Sandbox W B)
      → IsReady x h r
      → end ≡ (placed x).offset + length b
      → (E.quota.max_file_bytes ≢ 0 → (placed x).offset + length b ≤ E.quota.max_file_bytes)
      → IsWriteOf x b h (follow (λ _. fill h end b (placed x)) r)
  ready-written h end b x (done u, s) (p, o) k q = spliced-IsWritten h end b x s p o k q
  ready-written h end b x (refused, s) v k q = v
  ready-written h end b x (failed, s) v k q = v
  ready-written h end b x (raised e, s) v k q = v

  charge-IsReady :
      (h n : ℕ) (x : Handle) (s : Sandbox W B)
      → h < length s.handles
      → handle_at s h ≡ placed x
      → IsReady x h (charge_buffer E h n s)
  charge-IsReady h n x s p f = elim (charge_cases E h n s) [
    | inl (w, c) ↦ rw c (
      omega (
        arith,
        length-set s.handles h
            (record (handle_at s h) { buffer_charged = add_size (handle_at s h).buffer_charged n }),
        p,
      ),
      ap (λ (y : Handle). y.offset)
            (at_put h
              (record (handle_at s h) {
                buffer_charged = add_size (handle_at s h).buffer_charged n;
              })
              s p)
          ∙ ap (λ (y : Handle). y.offset) f,
    )
    | inr (e, w, c) ↦ rw c (ap (λ (y : Handle). y.buffer) f)
  ]

  -- The second branch of a test that is false.
  otherwise :
      {A : Type 0} (P : A → Type 0) (c : Bool) (m n : A) → c ≡ false → P n → P (if c then m else n)
  otherwise P true m n e v = cc
  otherwise P false m n e v = v

  room-IsReady :
      (c : Bool) (h n : ℕ) (x : Handle) (s : Sandbox W B)
      → h < length s.handles
      → handle_at s h ≡ placed x
      → IsReady x h ((if c then charge_buffer E h n else pure tt) s)
  room-IsReady true h n x s p f = charge-IsReady h n x s p f
  room-IsReady false h n x s p f = (p, ap (λ (y : Handle). y.offset) f)

  put_length :
      (h : ℕ) (x : Handle) (s : Sandbox W B)
      → h < length s.handles
      → h < length (put_handle h x s).handles
  put_length h x s p = omega (arith, length-set s.handles h x)

  checked-written :
      (h : ℕ) (b : Bytes) (x : Handle) (s : Sandbox W B) (o : Outcome ℕ)
      → h < length s.handles
      → x.ranged ≡ false
      → handle_at s h ≡ placed x
      → IsChecked (placed x).offset (length b) o
      → IsWriteOf x b h (
          follow
            (λ end.
              if x.ranged
              then write_ranged E h (placed x) end b
              else write_buffered E h (placed x) end b)
            (o, s))
  checked-written h b x s (done end) p r at (e, q) =
      otherwise (λ (a : Action W B (Unit {0})). IsWriteOf x b h (a s)) x.ranged _ _ r
        (ready-written h end b x _ (room-IsReady _ h _ x s p at) e q)
  checked-written h b x s refused p r at c = absurd c
  checked-written h b x s failed p r at c = absurd c
  checked-written h b x s (raised e) p r at c = ap (λ (y : Handle). y.buffer) at

  placed-written :
      (h : ℕ) (b : Bytes) (x : Handle) (s : Sandbox W B)
      → h < length s.handles
      → x.ranged ≡ false
      → IsWriteOf x b h (write_placed E h b (placed x) s)
  placed-written h b x s p r =
      checked-written h b x (put_handle h (placed x) s) _ (put_length h (placed x) s p) r
        (at_put h (placed x) s p) (check_range-IsChecked (placed x).offset (length b))

  -- A write to an open buffered file that is done leaves each byte from the file's position on as
  -- written, a zero in each gap in front of it and every other byte as it was, with the length,
  -- the position and the mark as changed that belong to it, and ends inside
  -- VfsQuota::$maxFileBytes; one that is not done leaves the buffer as it was.
  pub write_one-IsWriteOf :
      (h : ℕ) (b : Bytes) (s : Sandbox W B)
      → (handle_at s h).closed ≡ false
      → (handle_at s h).ranged ≡ false
      → IsWriteOf (handle_at s h) b h (write_one E h b s)
  unfolding write_one
  write_one-IsWriteOf h b s c r =
      otherwise (λ (y : Outcome (Unit {0}) × Sandbox W B). IsWriteOf (handle_at s h) b h y)
        (handle_at s h).closed _ _ c (placed-written h b (handle_at s h) s (open_inside h s c) r)
