-- ===== src/Vfs/Ledger/Shutting.antt =====
-- Each handle that the sweep closes stays closed, and none is left open.
use mathlib.Core.Path.{subst}
use lua_ext.Base.{
  ℕ, zero, suc, ◌<◌, ◌≤◌, ◌≡◌, ◌⊎◌, refl, sym, ◌∙◌, ap, Bool, true, false, none, List, [], ◌∷◌, ltb,
  ◌==◌, if◌then◌else◌, arith, inl, inr, Bool-cases, length, length-set, get_or, set, add_size,
}
use lua_ext.Vfs.{
  Handle, Env, Sandbox, Outcome, raised, Reply, answers, declines, throws, follow, pure, ending,
  modify, ◌>>◌, no_handle, handle_at, contents, refund_buffer, handle_release, call, cross,
  outcome_of, count_crossing, no_filesystem,
}
use lua_ext.Vfs.Files.{
  or_release, is_unwritten, flushed, write_back, save, released, close_handle, sweep_handle,
  sweep_handles,
}
use lua_ext.Vfs.Handles.{if_lem}
use lua_ext.Vfs.Ledger.{total, opened, AllFree}

pub nothing-closed : (j : ℕ) → (get_or [] j no_handle).closed ≡ true
nothing-closed zero = refl
nothing-closed (suc j) = refl

shut-set :
    (hs : List Handle) (h j : ℕ) (x : Handle)
    → x.closed ≡ true
    → (j ≡ h) ⊎ ((get_or hs j no_handle).closed ≡ true)
    → (get_or (set hs h x) j no_handle).closed ≡ true
shut-set [] h j x e f = nothing-closed j
shut-set (y ∷ hs) zero zero x e f = e
shut-set (y ∷ hs) zero (suc j) x e (inl f) = absurd (omega (arith, f))
shut-set (y ∷ hs) zero (suc j) x e (inr f) = f
shut-set (y ∷ hs) (suc h) zero x e (inl f) = absurd (omega (arith, f))
shut-set (y ∷ hs) (suc h) zero x e (inr f) = f
shut-set (y ∷ hs) (suc h) (suc j) x e (inl f) = shut-set hs h j x e (inl (omega (arith, f)))
shut-set (y ∷ hs) (suc h) (suc j) x e (inr f) = shut-set hs h j x e (inr f)

kept-set :
    (hs : List Handle) (h j : ℕ) (x : Handle)
    → x.closed ≡ (get_or hs h no_handle).closed
    → (get_or (set hs h x) j no_handle).closed ≡ (get_or hs j no_handle).closed
kept-set [] h j x e = refl
kept-set (y ∷ hs) zero zero x e = e
kept-set (y ∷ hs) zero (suc j) x e = refl
kept-set (y ∷ hs) (suc h) zero x e = refl
kept-set (y ∷ hs) (suc h) (suc j) x e = kept-set hs h j x e

beyond-closed : (hs : List Handle) (j : ℕ) → length hs ≤ j → (get_or hs j no_handle).closed ≡ true
beyond-closed [] j p = nothing-closed j
beyond-closed (y ∷ hs) zero p = absurd (omega arith)
beyond-closed (y ∷ hs) (suc j) p = beyond-closed hs j (omega arith)

pub all_closed-opened :
    (hs : List Handle) → ((j : ℕ) → (get_or hs j no_handle).closed ≡ true) → opened hs ≡ 0
all_closed-opened [] f = refl
all_closed-opened (x ∷ hs) f = rw (f 0) (omega (arith, all_closed-opened hs λ j. f (suc j)))

-- Where nothing is open nothing is charged.
pub opened-total : (hs : List Handle) → AllFree hs → opened hs ≡ 0 → total hs ≡ 0
opened-total [] v e = refl
opened-total (x ∷ hs) (f, v) e = elim (Bool-cases x.closed) [
  | inl c ↦ omega (arith, f c, opened-total hs v (ground arith))
  | inr c ↦ absurd (omega (arith, one c))
]
  where
    one : x.closed ≡ false → 0 < opened (x ∷ hs)
    one c = ground arith

module _ {W B : Type 0} where
  -- Handle `h` is closed, and what was closed still is.
  record IsShut (h : ℕ) (s s' : Sandbox W B) : Type 0 where
    size : length s'.handles ≡ length s.handles
    closed : (j : ℕ) → (j ≡ h) ⊎ ((handle_at s j).closed ≡ true) → (handle_at s' j).closed ≡ true

  -- What was closed still is.
  record IsKeptShut (s s' : Sandbox W B) : Type 0 where
    size : length s'.handles ≡ length s.handles
    closed : (j : ℕ) → (handle_at s' j).closed ≡ (handle_at s j).closed

  IsShut-after : {h : ℕ} {a b c : Sandbox W B} → IsKeptShut a b → IsShut h b c → IsShut h a c
  IsShut-after k v = record {
    size = v.size ∙ k.size;
    closed = λ j f. v.closed j (elim f [ inl e ↦ inl e | inr e ↦ inr (k.closed j ∙ e) ]);
  }

module _ {W B : Type 0} (E : Env W B) where
  released_handles :
      (h : ℕ) (s : Sandbox W B)
      → (handle_release E h s).handles
        ≡ set s.handles h (record (handle_at s h) {
          buffer_charged = 0;
          buffer = none;
          path = none;
          closed = true;
        })
  unfolding handle_release refund_buffer
  released_handles h s = elim (Bool-cases ((handle_at s h).buffer_charged == 0)) [
    | inl e ↦ rw e refl
    | inr e ↦ rw e refl
  ]

  release-IsShut : (h : ℕ) (s : Sandbox W B) → IsShut h s (handle_release E h s)
  release-IsShut h s =
      let x : Handle = record (handle_at s h) {
        buffer_charged = 0;
        buffer = none;
        path = none;
        closed = true;
      } in
      record {
        size =
            ap (λ (hs : List Handle). length hs) (released_handles h s) ∙ length-set s.handles h x;
        closed = λ j f.
            ap (λ (hs : List Handle). (get_or hs j no_handle).closed) (released_handles h s)
            ∙ shut-set s.handles h j x refl f;
      }

  flushed-IsKeptShut : (h n : ℕ) (s : Sandbox W B) → IsKeptShut s (flushed h n s)
  flushed-IsKeptShut h n s =
      let x : Handle = record (handle_at s h) { dirty = false } in
      record { size = length-set s.handles h x; closed = λ j. kept-set s.handles h j x refl }

  -- The write of a close that is not charged, whatever the backend replies.
  abbrev replied : ℕ → ℕ → Reply (Unit {0}) → Sandbox W B → Sandbox W B
  replied h n r s =
      (follow (λ _. released E h)
        (or_release E h (follow (λ _. modify (flushed h n)) (outcome_of r, s)))).1

  replied-IsShut : (h n : ℕ) (s : Sandbox W B) (r : Reply (Unit {0})) → IsShut h s (replied h n r s)
  replied-IsShut h n s (answers u) =
      IsShut-after (flushed-IsKeptShut h n s) (release-IsShut h (flushed h n s))
  replied-IsShut h n s (declines true) = release-IsShut h s
  replied-IsShut h n s (declines false) = release-IsShut h s
  replied-IsShut h n s throws = release-IsShut h s

  uncharged :
      {A : Type 0} (available : Bool) (f : B → Reply A × B) (s : Sandbox W B)
      → available ≡ true
      → (if available then count_crossing E false >> cross f else ending (raised no_filesystem)) s
        ≡ cross f (record s { operations = add_size s.operations 1 })
  uncharged true f s e = refl
  uncharged false f s e = cc

  call-uncharged :
      {A : Type 0} (f : B → Reply A × B) (s : Sandbox W B)
      → E.available ≡ true
      → call E false f s ≡ cross f (record s { operations = add_size s.operations 1 })
  unfolding call
  call-uncharged f s e = uncharged E.available f s e

  saved-IsShut :
      (h : ℕ) (s : Sandbox W B)
      → E.available ≡ true
      → IsShut h s (follow (λ _. released E h) (save E false h s)).1
  unfolding write_back
  saved-IsShut h s e =
      let x = handle_at s h in
      let n = length (contents x.buffer) in
      let f = E.host.write (contents x.path) (contents x.buffer) in
      let s1 : Sandbox W B = record s {
        operations = add_size s.operations 1;
        backend = (f s.backend).1;
      } in
      let v = replied-IsShut h n s1 (f s.backend).0 in
      subst
        (λ (r : Outcome (Unit {0}) × Sandbox W B).
          IsShut h s
            (follow (λ _. released E h) (or_release E h (follow (λ _. modify (flushed h n)) r))).1)
        (sym (call-uncharged f s e)) (record { size = v.size; closed = v.closed })

  saving-IsShut :
      (c : Bool) (h : ℕ) (s : Sandbox W B)
      → E.available ≡ true
      → IsShut h s (follow (λ _. released E h) ((if c then save E false h else pure tt) s)).1
  saving-IsShut true h s e = saved-IsShut h s e
  saving-IsShut false h s e = release-IsShut h s

  already : (h : ℕ) (s : Sandbox W B) → (handle_at s h).closed ≡ true → IsShut h s s
  already h s e = record {
    size = refl;
    closed = λ j f. elim f [ inl g ↦ ap (λ (k : ℕ). (handle_at s k).closed) g ∙ e | inr g ↦ g ];
  }

  close-IsShut :
      (h : ℕ) (s : Sandbox W B) → E.available ≡ true → IsShut h s (close_handle E false h s).1
  unfolding close_handle
  close-IsShut h s e =
      if_lem (λ (r : Outcome (Unit {0}) × Sandbox W B). IsShut h s r.1) (handle_at s h).closed _ _
        (already h s) (λ _. saving-IsShut (is_unwritten (handle_at s h)) h s e)

  sweep_handle-IsShut :
      (pending : Bool) (h : ℕ) (s : Sandbox W B)
      → E.available ≡ true
      → IsShut h s (sweep_handle E pending h s)
  sweep_handle-IsShut pending h s e =
      if_lem (IsShut h s) (handle_at s h).closed _ _ (already h s)
        λ _. if_lem (IsShut h s) pending _ _ (λ _. release-IsShut h s) (λ _. close-IsShut h s e)

  -- The loop has closed the handles below `n`.
  record IsSwept (n : ℕ) (s s' : Sandbox W B) : Type 0 where
    size : length s'.handles ≡ length s.handles
    closed : (j : ℕ) → j < n → (handle_at s' j).closed ≡ true

  sweep_handles-IsSwept :
      (pending : Bool) (n : ℕ) (s : Sandbox W B)
      → E.available ≡ true
      → IsSwept n s (sweep_handles E pending n s)
  unfolding sweep_handles
  sweep_handles-IsSwept pending zero s e = record {
    size = refl;
    closed = λ j p. absurd (omega arith);
  }
  sweep_handles-IsSwept pending (suc n) s e =
      let v = sweep_handles-IsSwept pending n s e in
      let w = sweep_handle-IsShut pending n (sweep_handles E pending n s) e in
      record {
        size = w.size ∙ v.size;
        closed = λ j p. w.closed j (elim (Bool-cases (j == n)) [
          | inl q ↦ inl (ground arith)
          | inr q ↦ inr (v.closed j (ground arith))
        ]);
      }

  pub swept-closed :
      (pending : Bool) (s : Sandbox W B)
      → E.available ≡ true
      → (j : ℕ) → (handle_at (sweep_handles E pending (length s.handles) s) j).closed ≡ true
  swept-closed pending s e j =
      let v = sweep_handles-IsSwept pending (length s.handles) s e in
      elim (Bool-cases (ltb j (length s.handles))) [
        | inl p ↦ v.closed j (ground arith)
        | inr p ↦ beyond-closed _ j (omega (arith, v.size, past p))
      ]
    where
      past : ltb j (length s.handles) ≡ false → length s.handles ≤ j
      past p = ground arith
