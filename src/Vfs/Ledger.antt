-- ===== src/Vfs/Ledger.antt =====
-- The bytes and the handles that src/luaext_vfs.c counts, against those that there are.
pub mod Steps
pub mod Counting
pub mod Opening
pub mod Using
pub mod Shutting
pub mod Sweeping
pub mod Runs
use lua_ext.Base.{
  ℕ, zero, suc, ◌+◌, ◌-◌, ◌%◌, ◌^◌, ◌≤◌, ◌<◌, ◌≡◌, ◌≢◌, ◌⊎◌, refl, sym, ◌∙◌, ap, Bool, true, false,
  not, ◌&&◌, Option, none, some, List, [], ◌∷◌, ◌++◌, ltb, leb, ◌==◌, if◌then◌else◌, arith, inl,
  inr, Bool-cases, length, get_or, set, add_size, sub_size, size_max,
}
use lua_ext.Base.Budget.{Budget, BudgetLaws}
use lua_ext.Vfs.{
  Bytes, Handle, Env, Sandbox, Outcome, done, refused, failed, raised, Action, follow, no_handle,
  handle_at, put_handle, charge_buffer, refund_buffer, handle_release,
}
use lua_ext.Vfs.Handles.{open_inside}

abbrev pub total : List Handle → ℕ
total [] = 0
total (x ∷ hs) = x.buffer_charged + total hs

abbrev pub opened : List Handle → ℕ
opened [] = 0
opened (x ∷ hs) = (if x.closed then 0 else 1) + opened hs

-- A closed handle holds no charge.
abbrev pub IsFree : Handle → Type 0
IsFree x = x.closed ≡ true → x.buffer_charged ≡ 0

abbrev pub AllFree : List Handle → Type 0
AllFree [] = Unit
AllFree (x ∷ hs) = IsFree x × AllFree hs

total-set :
    (hs : List Handle) (h : ℕ) (x : Handle)
    → h < length hs
    → total (set hs h x) + (get_or hs h no_handle).buffer_charged ≡ total hs + x.buffer_charged
total-set [] h x p = absurd (omega arith)
total-set (y ∷ hs) zero x p = omega arith
total-set (y ∷ hs) (suc h) x p = omega (arith, total-set hs h x)

opened-set :
    (hs : List Handle) (h : ℕ) (x : Handle)
    → h < length hs
    → opened (set hs h x) + (if (get_or hs h no_handle).closed then 0 else 1)
      ≡ opened hs + (if x.closed then 0 else 1)
opened-set [] h x p = absurd (omega arith)
opened-set (y ∷ hs) zero x p = omega arith
opened-set (y ∷ hs) (suc h) x p = omega (arith, opened-set hs h x)

AllFree-set : (hs : List Handle) (h : ℕ) (x : Handle) → IsFree x → AllFree hs → AllFree (set hs h x)
AllFree-set [] h x f v = tt
AllFree-set (y ∷ hs) zero x f (_, v) = (f, v)
AllFree-set (y ∷ hs) (suc h) x f (g, v) = (g, AllFree-set hs h x f v)

AllFree-at : (hs : List Handle) (h : ℕ) → AllFree hs → IsFree (get_or hs h no_handle)
AllFree-at [] zero v e = refl
AllFree-at [] (suc h) v e = refl
AllFree-at (y ∷ hs) zero (f, v) e = f e
AllFree-at (y ∷ hs) (suc h) (f, v) e = AllFree-at hs h v e

-- A write outside the array is none.
set_outside : (hs : List Handle) (h : ℕ) (x : Handle) → length hs ≤ h → set hs h x ≡ hs
set_outside [] h x p = refl
set_outside (y ∷ hs) zero x p = absurd (omega arith)
set_outside (y ∷ hs) (suc h) x p =
    ap (λ (t : List Handle). y ∷ t) (set_outside hs h x (omega arith))

total-le : (hs : List Handle) (h : ℕ) → (get_or hs h no_handle).buffer_charged ≤ total hs
total-le [] zero = omega arith
total-le [] (suc h) = omega arith
total-le (y ∷ hs) zero = omega arith
total-le (y ∷ hs) (suc h) = omega (arith, total-le hs h)

opened-pos : (hs : List Handle) (h : ℕ) → (get_or hs h no_handle).closed ≡ false → 0 < opened hs
opened-pos [] zero e = cc
opened-pos [] (suc h) e = cc
opened-pos (y ∷ hs) zero e = rw e (omega arith)
opened-pos (y ∷ hs) (suc h) e = omega (arith, opened-pos hs h e)

module _ {W B : Type 0} (E : Env W B) (L : BudgetLaws E.budget) (other : ℕ) where
  -- Both byte budgets hold what the handles were charged, `other` bytes of the memory's are not the
  -- file system's, and the open handles are those that are not closed.
  pub record IsLedger (s : Sandbox W B) : Type 0 where
    pub sound : L.IsSound s.memory
    pub charges : L.charged s.memory ≡ other + s.buffered_bytes
    pub summed : s.buffered_bytes ≡ total s.handles
    pub counted : s.open_handles ≡ opened s.handles
    pub free : AllFree s.handles
    pub capped : E.quota.max_total_bytes ≢ 0 → s.buffered_bytes ≤ E.quota.max_total_bytes
    pub limited : s.open_handles ≤ E.quota.max_open_handles

  pub same-IsLedger :
      (s s' : Sandbox W B)
      → s'.handles ≡ s.handles
      → s'.memory ≡ s.memory
      → s'.buffered_bytes ≡ s.buffered_bytes
      → s'.open_handles ≡ s.open_handles
      → IsLedger s
      → IsLedger s'
  same-IsLedger s s' h m b o v = record {
    sound = rw m v.sound;
    charges = rw (m, b) v.charges;
    summed = rw (h, b) v.summed;
    counted = rw (h, o) v.counted;
    free = rw h v.free;
    capped = rw b v.capped;
    limited = rw o v.limited;
  }

  -- A handle changes, and neither its charge nor whether it is closed.
  pub put-IsLedger :
      (h : ℕ) (x : Handle) (s : Sandbox W B)
      → x.buffer_charged ≡ (handle_at s h).buffer_charged
      → x.closed ≡ (handle_at s h).closed
      → IsLedger s
      → IsLedger (put_handle h x s)
  put-IsLedger h x s c d v = elim (Bool-cases (ltb h (length s.handles))) [
    | inr out ↦
        same-IsLedger s (put_handle h x s) (set_outside s.handles h x (ground arith)) refl refl refl
          v
    | inl inside ↦
        let p : h < length s.handles = ground arith in
        record {
          sound = v.sound;
          charges = v.charges;
          summed = omega (arith, v.summed, total-set s.handles h x p, c);
          counted = opened_same v.counted (opened-set s.handles h x p);
          free =
              AllFree-set s.handles h x (λ e. c ∙ AllFree-at s.handles h v.free (sym d ∙ e)) v.free;
          capped = v.capped;
          limited = v.limited;
        }
  ]
    where
      opened_same :
          s.open_handles ≡ opened s.handles
          → opened (set s.handles h x) + (if (get_or s.handles h no_handle).closed then 0 else 1)
            ≡ opened s.handles + (if x.closed then 0 else 1)
          → s.open_handles ≡ opened (set s.handles h x)
      opened_same e f = ground (arith, d)
