-- ===== src/Vfs/Ledger/Steps.antt =====
-- The steps of src/luaext_vfs.c that move charges and handles keep the ledger.
use lua_ext.Base.{
  ℕ, suc, ◌+◌, ◌-◌, ◌%◌, ◌^◌, ◌≤◌, ◌<◌, ◌≡◌, ◌≢◌, refl, sym, ◌∙◌, Bool, true, false, not, ◌&&◌,
  none, List, [], ◌∷◌, ◌++◌, ltb, ◌==◌, if◌then◌else◌, arith, inl, inr, Bool-cases, add_size,
  sub_size, size_max,
}
use lua_ext.Base.Budget.{BudgetLaws}
use lua_ext.Vfs.{
  Bytes, Handle, Env, Sandbox, Outcome, done, refused, failed, raised, Action, follow,
  total_bytes_spent, memory_spent, handle_at, put_handle, charge_buffer, refund_buffer,
  handle_release, Mode,
}
use lua_ext.Vfs.Files.{new_handle, or_release}
use lua_ext.Vfs.Handles.{open_inside, charged_state, SameHandles}
use lua_ext.Vfs.Ledger.{
  total, opened, IsFree, AllFree, AllFree-set, AllFree-at, total-set, opened-set, total-le,
  opened-pos, IsLedger, same-IsLedger, put-IsLedger,
}

-- The limits are machine words, there is one on the open handles, and the memory accounting counts in
-- a machine word.
pub record IsBounded {W B : Type 0} (E : Env W B) (L : BudgetLaws E.budget) : Type 0 where
  pub total_word : E.quota.max_total_bytes ≤ size_max
  pub handles_limited : E.quota.max_open_handles ≢ 0
  pub handles_word : E.quota.max_open_handles < 2 ^ 32
  pub memory_word : (w : W) → L.IsSound w → L.charged w ≤ size_max

module _ {W B : Type 0} (E : Env W B) (L : BudgetLaws E.budget) (other : ℕ)
    (bounds : IsBounded E L) where
  -- The ledger holds behind a step, however it ended.
  abbrev pub Ledgered : {A : Type 0} → Outcome A × Sandbox W B → Type 0
  Ledgered r = IsLedger E L other r.1

  pub follow-Ledgered :
      {A C : Type 0} (f : A → Action W B C) (r : Outcome A × Sandbox W B)
      → Ledgered r
      → ((a : A) (s : Sandbox W B) → IsLedger E L other s → Ledgered (f a s))
      → Ledgered (follow f r)
  follow-Ledgered f (done a, s) v k = k a s v
  follow-Ledgered f (refused, s) v k = v
  follow-Ledgered f (failed, s) v k = v
  follow-Ledgered f (raised e, s) v k = v

  pub if-Ledgered :
      {A : Type 0} (c : Bool) (x y : Outcome A × Sandbox W B)
      → Ledgered x
      → Ledgered y
      → Ledgered (if c then x else y)
  if-Ledgered true x y v w = v
  if-Ledgered false x y v w = w

  capped_after :
      (held n : ℕ)
      → held + n ≤ size_max
      → held ≤ E.quota.max_total_bytes
      → E.quota.max_total_bytes ≤ size_max
      → E.quota.max_total_bytes ≢ 0
      → (not (E.quota.max_total_bytes == 0) && ltb (sub_size E.quota.max_total_bytes held) n)
        ≡ false
      → add_size held n ≤ E.quota.max_total_bytes
  capped_after held n a b c m t = ground (arith, m)

  taken-IsLedger :
      (h n : ℕ) (s : Sandbox W B)
      → (handle_at s h).closed ≡ false
      → (not (E.quota.max_total_bytes == 0)
          && ltb (sub_size E.quota.max_total_bytes s.buffered_bytes) n)
        ≡ false
      → (E.budget.charge n s.memory).0 ≡ true
      → IsLedger E L other s
      → IsLedger E L other (charged_state h n (E.budget.charge n s.memory).1 s)
  taken-IsLedger h n s c t g v =
      let w = (E.budget.charge n s.memory).1 in
      let sound = L.charge-IsSound n s.memory v.sound in
      let charged = L.charge_taken n s.memory v.sound g in
      let word = bounds.memory_word w sound in
      let p = open_inside h s c in
      let x : Handle = record (handle_at s h) {
        buffer_charged = add_size (handle_at s h).buffer_charged n;
      } in
      let whole : s.buffered_bytes + n ≤ size_max = omega (arith, charged, v.charges, word) in
      let own = total-le s.handles h in
      record {
        sound = sound;
        charges = omega (arith, charged, v.charges, whole);
        summed = omega (arith, v.summed, whole, own, total-set s.handles h x p);
        counted = omega (arith, v.counted, opened-set s.handles h x p);
        free = AllFree-set s.handles h x (λ e. cc) v.free;
        capped = λ m. capped_after s.buffered_bytes n whole (v.capped m) bounds.total_word m t;
        limited = v.limited;
      }

  charge_tests :
      (h n : ℕ) (s : Sandbox W B) (t g : Bool) (w : W)
      → (t ≡ false → g ≡ true → IsLedger E L other (charged_state h n w s))
      → (g ≡ false → w ≡ s.memory)
      → IsLedger E L other s
      → Ledgered {A = Unit {0}} (
          if t
          then (raised total_bytes_spent, s)
          else if g
          then (done tt, charged_state h n w s)
          else (raised memory_spent, record s { memory = w }))
  charge_tests h n s true g w f e v = v
  charge_tests h n s false true w f e v = f refl refl
  charge_tests h n s false false w f e v = same-IsLedger E L other s _ refl (e refl) refl refl v

  pub charge_buffer-IsLedger :
      (h n : ℕ) (s : Sandbox W B)
      → (handle_at s h).closed ≡ false
      → IsLedger E L other s
      → Ledgered (charge_buffer E h n s)
  unfolding charge_buffer
  charge_buffer-IsLedger h n s c v =
      charge_tests h n s _ (E.budget.charge n s.memory).0 (E.budget.charge n s.memory).1
        (λ t g. taken-IsLedger h n s c t g v) (λ g. L.charge_refused n s.memory v.sound g) v

  -- Of a handle's own charge all is given back.
  refunded :
      (n : ℕ) (s : Sandbox W B)
      → n ≤ s.buffered_bytes
      → refund_buffer E n s
        ≡ record s { buffered_bytes = s.buffered_bytes - n; memory = E.budget.discharge n s.memory }
  unfolding refund_buffer
  refunded n s h = elim (Bool-cases (ltb s.buffered_bytes n)) [
    | inl e ↦ absurd (omega (arith, less e))
    | inr e ↦ rw e refl
  ]
    where
      less : ltb s.buffered_bytes n ≡ true → s.buffered_bytes < n
      less e = ground arith

  abbrev emptied : Handle → Handle
  emptied x = record x { buffer_charged = 0; buffer = none; path = none; closed = true }

  -- The two tests of `luaext_vfs_handle_release`.
  abbrev closing : Bool → Bool → ℕ → Sandbox W B → Sandbox W B
  closing c z h s =
      let s1 = if z then s else refund_buffer E (handle_at s h).buffer_charged s in
      put_handle h (emptied (handle_at s h))
        (record s1 { open_handles = if c then s1.open_handles else s1.open_handles - 1 })

  closed-IsLedger :
      (h b : ℕ) (w : W) (s : Sandbox W B)
      → (handle_at s h).closed ≡ false
      → b + (handle_at s h).buffer_charged ≡ s.buffered_bytes
      → L.IsSound w
      → L.charged w ≡ other + b
      → IsLedger E L other s
      → IsLedger E L other (
          put_handle h
            (emptied (handle_at s h))
            (record s { memory = w; buffered_bytes = b; open_handles = s.open_handles - 1 }))
  closed-IsLedger h b w s c e sound charged v =
      let x = emptied (handle_at s h) in
      let p = open_inside h s c in
      record {
        sound = sound;
        charges = charged;
        summed = omega (arith, v.summed, total-set s.handles h x p, e);
        counted =
            ground (arith, v.counted, opened-set s.handles h x p, opened-pos s.handles h c, c);
        free = AllFree-set s.handles h x (λ f. refl) v.free;
        capped = λ m. omega (arith, v.capped m, e);
        limited = omega (arith, v.limited);
      }

  closing-IsLedger :
      (c z : Bool) (h : ℕ) (s : Sandbox W B)
      → (handle_at s h).closed ≡ c
      → ((handle_at s h).buffer_charged == 0) ≡ z
      → IsLedger E L other s
      → IsLedger E L other (closing c z h s)
  closing-IsLedger true true h s e f v =
      put-IsLedger E L other h (emptied (handle_at s h)) s (sym (AllFree-at s.handles h v.free e))
        (sym e) v
  closing-IsLedger true false h s e f v = absurd (differ (AllFree-at s.handles h v.free e) f)
    where
      differ : {n : ℕ} → n ≡ 0 → (n == 0) ≡ false → ⊥
      differ g k = ground arith
  closing-IsLedger false true h s e f v =
      closed-IsLedger h s.buffered_bytes s.memory s e (zero_charge _ f) v.sound v.charges v
    where
      zero_charge : (n : ℕ) → (n == 0) ≡ true → s.buffered_bytes + n ≡ s.buffered_bytes
      zero_charge n k = ground arith
  closing-IsLedger false false h s e f v =
      let n = (handle_at s h).buffer_charged in
      let held : n ≤ s.buffered_bytes = omega (arith, v.summed, total-le s.handles h) in
      rw (refunded n s held) (
        closed-IsLedger h (s.buffered_bytes - n) (E.budget.discharge n s.memory) s e
          (omega (arith, held)) (L.discharge-IsSound n s.memory v.sound)
          (omega (arith, L.discharged n s.memory v.sound, v.charges, held)) v)

  pub handle_release-IsLedger :
      (h : ℕ) (s : Sandbox W B) → IsLedger E L other s → IsLedger E L other (handle_release E h s)
  unfolding handle_release
  handle_release-IsLedger h s v = closing-IsLedger _ _ h s refl refl v

  pub or_release-Ledgered :
      (h : ℕ) (r : Outcome (Unit {0}) × Sandbox W B) → Ledgered r → Ledgered (or_release E h r)
  or_release-Ledgered h (done u, s) v = v
  or_release-Ledgered h (refused, s) v = handle_release-IsLedger h s v
  or_release-Ledgered h (failed, s) v = handle_release-IsLedger h s v
  or_release-Ledgered h (raised e, s) v = v

  pub SameHandles-IsLedger :
      {s s' : Sandbox W B} → SameHandles s s' → IsLedger E L other s → IsLedger E L other s'
  SameHandles-IsLedger {s} {s'} h v =
      same-IsLedger E L other s s' h.handles h.memory h.buffered h.open_handles v

  opened-snoc :
      (hs : List Handle) (x : Handle) → x.closed ≡ false → opened (hs ++ x ∷ []) ≡ suc (opened hs)
  opened-snoc [] x e = rw e refl
  opened-snoc (y ∷ hs) x e = omega (arith, opened-snoc hs x e)

  total-snoc :
      (hs : List Handle) (x : Handle) → x.buffer_charged ≡ 0 → total (hs ++ x ∷ []) ≡ total hs
  total-snoc [] x e = omega (arith, e)
  total-snoc (y ∷ hs) x e = omega (arith, total-snoc hs x e)

  AllFree-snoc : (hs : List Handle) (x : Handle) → IsFree x → AllFree hs → AllFree (hs ++ x ∷ [])
  AllFree-snoc [] x f v = (f, tt)
  AllFree-snoc (y ∷ hs) x f (g, v) = (g, AllFree-snoc hs x f v)

  pub new_handle-IsLedger :
      (path : Bytes) (m : Mode) (s : Sandbox W B)
      → s.open_handles < E.quota.max_open_handles
      → IsLedger E L other s
      → Ledgered (new_handle E path m s)
  unfolding new_handle
  new_handle-IsLedger path m s below v =
      let one : (s.open_handles + 1) % 2 ^ 32 ≡ s.open_handles + 1 =
        omega (arith, below, bounds.handles_word) in
      record {
        sound = v.sound;
        charges = v.charges;
        summed = v.summed ∙ sym (total-snoc s.handles _ refl);
        counted = omega (arith, one, v.counted, opened-snoc s.handles _ refl);
        free = AllFree-snoc s.handles _ (λ e. refl) v.free;
        capped = v.capped;
        limited = omega (arith, one, below);
      }
