-- ===== src/Vfs/Ledger/Opening.antt =====
-- Opening a file keeps the ledger (src/luaext_vfs.c).
use lua_ext.Base.{
  ℕ, ◌<◌, ◌≡◌, ◌≢◌, refl, ◌∙◌, ap, Bool, true, false, not, ◌&&◌, Option, none, some, List, [], ◌∷◌,
  ◌++◌, ltb, leb, ◌==◌, if◌then◌else◌, arith, length, get_or, pos, negsuc, ℤ,
}
use lua_ext.Base.Budget.{BudgetLaws}
use lua_ext.Vfs.{
  Bytes, Handle, Env, Sandbox, Stat, Outcome, done, refused, raised, Action, Reply, follow, pure,
  ending, modify, ◌>>=◌, ◌>>◌, no_handle, handle_at, contents, note_bytes, Mode, parse_mode, call,
  sweeping_now, handles_spent,
}
use lua_ext.Vfs.Files.{
  charge_new_file, new_handle, set_offset, set_buffer, seek_size, open_ranged, load, open_buffered,
  set_up, loading, at_end, make_handle, open_found, open_mode, open_file,
}
use lua_ext.Vfs.Handles.{
  open_inside, SameHandles, refl_handles, follow_lem, if_lem, call-SameHandles, at_buffer,
}
use lua_ext.Vfs.Ledger.Counting.{charge_new_file-IsCalm}
use lua_ext.Vfs.Ledger.{IsLedger, put-IsLedger}
use lua_ext.Vfs.Ledger.Steps.{
  IsBounded, charge_buffer-IsLedger, handle_release-IsLedger, or_release-Ledgered,
  SameHandles-IsLedger, new_handle-IsLedger,
}

module _ {W B : Type 0} (E : Env W B) (L : BudgetLaws E.budget) (other : ℕ)
    (bounds : IsBounded E L) where
  abbrev pub Holds : Sandbox W B → Type 0
  Holds = IsLedger E L other

  pub set_offset-IsLedger : (h n : ℕ) (s : Sandbox W B) → Holds s → Holds (set_offset h n s)
  set_offset-IsLedger h n s v =
      put-IsLedger E L other h (record (handle_at s h) { offset = n }) s refl refl v

  pub set_buffer-IsLedger :
      (h : ℕ) (b : Bytes) (dirty : Bool) (s : Sandbox W B)
      → Holds s
      → Holds (set_buffer h b dirty s)
  set_buffer-IsLedger h b dirty s v =
      put-IsLedger E L other h (record (handle_at s h) { buffer = some b; dirty = dirty }) s refl
        refl v

  pub note_bytes-IsLedger : (n : ℕ) (s : Sandbox W B) → Holds s → Holds (note_bytes n s)
  note_bytes-IsLedger n s v =
      SameHandles-IsLedger E L other bounds {s = s} {s' = note_bytes n s}
        (record {
          handles = refl;
          memory = refl;
          buffered = refl;
          open_handles = refl;
          sweeping = refl;
        })
        v

  pub call-IsLedger :
      {A : Type 0} (charge : Bool) (f : B → Reply A × B) (s : Sandbox W B)
      → Holds s
      → Holds (call E charge f s).1
  call-IsLedger charge f s v =
      SameHandles-IsLedger E L other bounds (call-SameHandles E charge f s) v

  seek_size-IsLedger :
      (h : ℕ) (stat : Option Stat) (s : Sandbox W B) → Holds s → Holds (seek_size h stat s)
  seek_size-IsLedger h none s v = v
  seek_size-IsLedger h (some stat) s v = go stat.size
    where
      go :
          (z : Option ℤ)
          → Holds (elim z [
            | none ↦ s
            | some z ↦ elim z [ pos n ↦ if ltb 0 n then set_offset h n s else s | negsuc n ↦ s ]
          ])
      go none = v
      go (some (pos n)) = if_lem Holds (ltb 0 n) _ _ (λ _. set_offset-IsLedger h n s v) (λ _. v)
      go (some (negsuc n)) = v

  abbrev pub Steady : {A : Type 0} → Action W B A → Type 0
  Steady m = (s : Sandbox W B) → Holds s → Holds (m s).1

  pub bind-Steady :
      {A C : Type 0} (m : Action W B A) (f : A → Action W B C)
      → Steady m
      → ((a : A) → Steady (f a))
      → Steady (m >>= f)
  bind-Steady m f p q s v = follow_lem Holds Holds f (m s) (p s v) (λ s' w. w) q

  pub if-Steady :
      {A : Type 0} (c : Bool) (m n : Action W B A)
      → Steady m
      → Steady n
      → Steady (if c then m else n)
  if-Steady true m n p q = p
  if-Steady false m n p q = q

  open_ranged-Steady :
      (h : ℕ) (path : Bytes) (m : Mode) (exists : Bool) → Steady (open_ranged E h path m exists)
  unfolding open_ranged
  open_ranged-Steady h path m exists =
      bind-Steady _ _
        (if-Steady (m.truncate && exists) (call E true (E.host.truncate path 0)) (pure tt)
          (call-IsLedger true _) (λ s v. v))
        (λ _.
          if-Steady (m.append && exists) _ (pure tt)
            (bind-Steady (call E true (E.host.stat path)) (λ stat. modify (seek_size h stat))
              (call-IsLedger true _) (seek_size-IsLedger h))
            (λ s v. v))

  -- Behind a step that leaves the handles, the ledger holds and handle `h` is open.
  pub record IsReady (h : ℕ) (s : Sandbox W B) : Type 0 where
    pub ledger : Holds s
    pub still_open : (handle_at s h).closed ≡ false

  IsReady-same : (h : ℕ) (s s' : Sandbox W B) → IsReady h s → SameHandles s s' → IsReady h s'
  IsReady-same h s s' v k = record {
    ledger = SameHandles-IsLedger E L other bounds k v.ledger;
    still_open = ap (λ (hs : List Handle). (get_or hs h no_handle).closed) k.handles ∙ v.still_open;
  }

  load-Holds : (h : ℕ) (b : Option Bytes) (s : Sandbox W B) → IsReady h s → Holds (load E h b s).1
  load-Holds h none s v = handle_release-IsLedger E L other bounds h s v.ledger
  load-Holds h (some b) s v =
      let s1 = note_bytes (length b) s in
      charge_buffer-IsLedger E L other bounds h (length b) (set_buffer h b false s1)
        (ap (λ (x : Handle). x.closed) (at_buffer h b false s1 (open_inside h s v.still_open))
          ∙ v.still_open)
        (set_buffer-IsLedger h b false s1 (note_bytes-IsLedger (length b) s v.ledger))

  loaded-Holds :
      (c : Bool) (h : ℕ) (path : Bytes) (dirty : Bool) (s : Sandbox W B)
      → IsReady h s
      → Holds (loading E c h path dirty s).1
  loaded-Holds true h path dirty s v =
      follow_lem (IsReady h) Holds (λ b. load E h b) (call E true (E.host.read path) s)
        (IsReady-same h s _ v (call-SameHandles E true _ s)) (λ s' w. w.ledger) (load-Holds h)
  loaded-Holds false h path dirty s v = set_buffer-IsLedger h [] dirty s v.ledger

  open_buffered-Holds :
      (h : ℕ) (path : Bytes) (m : Mode) (exists : Bool) (s : Sandbox W B)
      → IsReady h s
      → Holds (open_buffered E h path m exists s).1
  unfolding open_buffered
  open_buffered-Holds h path m exists s v =
      follow_lem Holds Holds (λ _. modify (at_end m.append h))
        (loading E (exists && not m.truncate) h path (m.truncate && exists) s)
        (loaded-Holds (exists && not m.truncate) h path (m.truncate && exists) s v) (λ s' w. w)
        (λ _ s' w.
          if_lem Holds m.append (set_offset h (length (contents (handle_at s' h).buffer)) s') s'
            (λ _. set_offset-IsLedger h _ s' w) (λ _. w))

  set_up-Holds :
      (h : ℕ) (path : Bytes) (m : Mode) (exists : Bool) (s : Sandbox W B)
      → IsReady h s
      → Holds (set_up E h path m exists s).1
  set_up-Holds h path m exists s v = or_release-Ledgered E L other bounds h _ (
      if_lem (λ (r : Outcome (Unit {0}) × Sandbox W B). Holds r.1) E.ranged _ _
        (λ _. open_ranged-Steady h path m exists s v.ledger)
        (λ _. open_buffered-Holds h path m exists s v))

  -- There is room for one more handle.
  record IsRoomy (s : Sandbox W B) : Type 0 where
    ledger : Holds s
    room : s.open_handles < E.quota.max_open_handles

  IsRoomy-same : (s s' : Sandbox W B) → IsRoomy s → SameHandles s s' → IsRoomy s'
  IsRoomy-same s s' v k = record {
    ledger = SameHandles-IsLedger E L other bounds k v.ledger;
    room = omega (arith, v.room, k.open_handles);
  }

  last_open : (hs : List Handle) (x : Handle) → get_or (hs ++ x ∷ []) (length hs) no_handle ≡ x
  last_open [] x = refl
  last_open (y ∷ hs) x = last_open hs x

  made :
      (path : Bytes) (m : Mode) (exists : Bool) (s : Sandbox W B)
      → IsRoomy s
      → Holds (make_handle E path m exists s).1
  unfolding new_handle
  made path m exists s v =
      follow_lem Holds Holds (λ _. pure (length s.handles))
        (set_up E (length s.handles) path m exists (new_handle E path m s).1)
        (set_up-Holds (length s.handles) path m exists _ (record {
          ledger = new_handle-IsLedger E L other bounds path m s v.room v.ledger;
          still_open = ap (λ (x : Handle). x.closed) (last_open s.handles _);
        }))
        (λ s' w. w) (λ _ s' w. w)

  found-Holds :
      (path : Bytes) (m : Mode) (exists : Bool) (s : Sandbox W B)
      → IsRoomy s
      → Holds (open_found E path m exists s).1
  found-Holds path m exists s v = refusing (not exists && not m.writable)
    where
      counted : (c : Bool) → SameHandles s ((if c then pure tt else charge_new_file E) s).1
      counted true = refl_handles s
      counted false = charge_new_file-IsCalm E s

      refusing :
          (c : Bool)
          → Holds
              ((if c
                  then ending refused
                  else (if exists then pure tt else charge_new_file E)
                    >> make_handle E path m exists)
                s).1
      refusing true = v.ledger
      refusing false =
          follow_lem IsRoomy Holds (λ _. make_handle E path m exists) _
            (IsRoomy-same s _ v (counted exists)) (λ s' w. w.ledger)
            (λ _ s' w. made path m exists s' w)

  -- The tests that `luaext_vfs_open` makes first.
  entered :
      (path : Bytes) (m : Mode) (s : Sandbox W B) (a b c : Bool)
      → (c ≡ false → s.open_handles < E.quota.max_open_handles)
      → Holds s
      → Holds
          (follow
            (λ _. call E true (E.host.exists path) >>= λ exists. open_found E path m exists)
            (
              if a
                  then refused
                  else if b
                  then raised sweeping_now
                  else if c
                  then raised handles_spent
                  else done tt,
              s,
            )).1
  entered path m s true b c room v = v
  entered path m s false true c room v = v
  entered path m s false false true room v = v
  entered path m s false false false room v =
      follow_lem IsRoomy Holds (λ exists. open_found E path m exists)
        (call E true (E.host.exists path) s)
        (IsRoomy-same s _ (record { ledger = v; room = room refl }) (call-SameHandles E true _ s))
        (λ s' w. w.ledger) (λ exists s' w. found-Holds path m exists s' w)

  opened-Holds :
      (path : Bytes) (mode : Option Mode) (s : Sandbox W B)
      → Holds s
      → Holds (open_mode E path mode s).1
  opened-Holds path none s v = v
  opened-Holds path (some m) s v =
      entered path m s _ _
        (not (E.quota.max_open_handles == 0) && leb E.quota.max_open_handles s.open_handles)
        (λ e. below e bounds.handles_limited) v
    where
      below :
          (not (E.quota.max_open_handles == 0) && leb E.quota.max_open_handles s.open_handles)
            ≡ false
          → E.quota.max_open_handles ≢ 0
          → s.open_handles < E.quota.max_open_handles
      below e n = ground (arith, n)

  pub open_file-Steady : (path mode : Bytes) → Steady (open_file E path mode)
  unfolding open_file
  open_file-Steady path mode s v = opened-Holds path (parse_mode mode) s v
