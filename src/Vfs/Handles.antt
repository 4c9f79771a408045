-- ===== src/Vfs/Handles.antt =====
-- The handles of src/luaext_vfs.c as an array, and what a charge does to them.
use lua_ext.Base.{
  ℕ, zero, suc, ◌<◌, ◌≡◌, ◌⊎◌, refl, ◌∙◌, Bool, true, false, not, ◌&&◌, some, List, [], ◌∷◌, ltb,
  ◌==◌, if◌then◌else◌, arith, inl, inr, Bool-cases, length, get_or, set, add_size, sub_size,
}
use lua_ext.Vfs.{
  Bytes, Handle, Env, Sandbox, Error, Outcome, done, refused, failed, raised, Reply, Action, follow,
  ending, ◌>>=◌, ◌>>◌, call, cross, charge_operation, count_crossing, no_filesystem, no_handle,
  handle_at, put_handle, charge_buffer, total_bytes_spent, memory_spent,
}
use lua_ext.Vfs.Files.{set_offset, set_buffer}

set_here :
    (hs : List Handle) (h : ℕ) (x : Handle) → h < length hs → get_or (set hs h x) h no_handle ≡ x
set_here [] h x p = absurd (omega arith)
set_here (y ∷ hs) zero x p = refl
set_here (y ∷ hs) (suc h) x p = set_here hs h x (omega arith)

open_below : (hs : List Handle) (h : ℕ) → (get_or hs h no_handle).closed ≡ false → h < length hs
open_below [] zero e = cc
open_below [] (suc h) e = cc
open_below (y ∷ hs) zero e = omega arith
open_below (y ∷ hs) (suc h) e = omega (arith, open_below hs h e)

pub if_lem :
    {A : Type 0} (P : A → Type 0) (c : Bool) (x y : A)
    → (c ≡ true → P x)
    → (c ≡ false → P y)
    → P (if c then x else y)
if_lem P true x y v w = v refl
if_lem P false x y v w = w refl

module _ {W B : Type 0} where
  pub at_put :
      (h : ℕ) (x : Handle) (s : Sandbox W B)
      → h < length s.handles
      → handle_at (put_handle h x s) h ≡ x
  at_put h x s p = set_here s.handles h x p

  pub at_offset :
      (h n : ℕ) (s : Sandbox W B)
      → h < length s.handles
      → handle_at (set_offset h n s) h ≡ record (handle_at s h) { offset = n }
  at_offset h n s p = at_put h (record (handle_at s h) { offset = n }) s p

  pub at_buffer :
      (h : ℕ) (b : Bytes) (dirty : Bool) (s : Sandbox W B)
      → h < length s.handles
      → handle_at (set_buffer h b dirty s) h
        ≡ record (handle_at s h) { buffer = some b; dirty = dirty }
  at_buffer h b dirty s p = at_put h (record (handle_at s h) { buffer = some b; dirty = dirty }) s p

  -- Only a handle that was made can be open.
  pub open_inside :
      (h : ℕ) (s : Sandbox W B) → (handle_at s h).closed ≡ false → h < length s.handles
  open_inside h s e = open_below s.handles h e

  -- The state in which a charge of `n` for handle `h` was taken.
  abbrev pub charged_state : ℕ → ℕ → W → Sandbox W B → Sandbox W B
  charged_state h n w s =
      put_handle h
        (record (handle_at s h) { buffer_charged = add_size (handle_at s h).buffer_charged n })
        (record s { memory = w; buffered_bytes = add_size s.buffered_bytes n })

module _ {W B : Type 0} where
  -- A step that leaves the handles, their charges and their number.
  pub record SameHandles (s s' : Sandbox W B) : Type 0 where
    pub handles : s'.handles ≡ s.handles
    pub memory : s'.memory ≡ s.memory
    pub buffered : s'.buffered_bytes ≡ s.buffered_bytes
    pub open_handles : s'.open_handles ≡ s.open_handles
    pub sweeping : s'.sweeping ≡ s.sweeping

  pub SameHandles-trans :
      {a b c : Sandbox W B} → SameHandles a b → SameHandles b c → SameHandles a c
  SameHandles-trans h k = record {
    handles = k.handles ∙ h.handles;
    memory = k.memory ∙ h.memory;
    buffered = k.buffered ∙ h.buffered;
    open_handles = k.open_handles ∙ h.open_handles;
    sweeping = k.sweeping ∙ h.sweeping;
  }

  -- What holds behind a step, and what follows it.
  pub follow_lem :
      {A C : Type 0} (P Q : Sandbox W B → Type 0) (f : A → Action W B C)
      (r : Outcome A × Sandbox W B)
      → P r.1
      → ((s : Sandbox W B) → P s → Q s)
      → ((a : A) (s : Sandbox W B) → P s → Q (f a s).1)
      → Q (follow f r).1
  follow_lem P Q f (done a, s) p q k = k a s p
  follow_lem P Q f (refused, s) p q k = q s p
  follow_lem P Q f (failed, s) p q k = q s p
  follow_lem P Q f (raised e, s) p q k = q s p

  -- A step that leaves the handles, whatever the state.
  abbrev pub IsCalm : {A : Type 0} → Action W B A → Type 0
  IsCalm m = (s : Sandbox W B) → SameHandles s (m s).1

  pub bind-IsCalm :
      {A C : Type 0} (m : Action W B A) (f : A → Action W B C)
      → IsCalm m
      → ((a : A) → IsCalm (f a))
      → IsCalm (m >>= f)
  bind-IsCalm m f p k s =
      follow_lem (SameHandles s) (SameHandles s) f (m s) (p s) (λ s v. v)
        (λ a s' v. SameHandles-trans v (k a s'))

  pub refl_handles : (s : Sandbox W B) → SameHandles s s
  refl_handles s = record {
    handles = refl;
    memory = refl;
    buffered = refl;
    open_handles = refl;
    sweeping = refl;
  }

  follow-SameHandles :
      {A C : Type 0} (f : A → Action W B C) (s : Sandbox W B) (r : Outcome A × Sandbox W B)
      → SameHandles s r.1
      → ((a : A) (s' : Sandbox W B) → SameHandles s s' → SameHandles s (f a s').1)
      → SameHandles s (follow f r).1
  follow-SameHandles f s (done a, s') v k = k a s' v
  follow-SameHandles f s (refused, s') v k = v
  follow-SameHandles f s (failed, s') v k = v
  follow-SameHandles f s (raised e, s') v k = v

  if_same :
      {A : Type 0} (s : Sandbox W B) (c : Bool) (x y : Outcome A × Sandbox W B)
      → SameHandles s x.1
      → SameHandles s y.1
      → SameHandles s (if c then x else y).1
  if_same s true x y v w = v
  if_same s false x y v w = w

  crossed :
      {A : Type 0} (f : B → Reply A × B) (s s' : Sandbox W B)
      → SameHandles s s'
      → SameHandles s (cross f s').1
  crossed f s s' v = record {
    handles = v.handles;
    memory = v.memory;
    buffered = v.buffered;
    open_handles = v.open_handles;
    sweeping = v.sweeping;
  }

module _ {W B : Type 0} (E : Env W B) where
  counted_same : (charge : Bool) (s : Sandbox W B) → SameHandles s (count_crossing E charge s).1
  unfolding charge_operation
  counted_same true s =
      if_same s _ _ _
        (record {
          handles = refl;
          memory = refl;
          buffered = refl;
          open_handles = refl;
          sweeping = refl;
        })
        (record {
          handles = refl;
          memory = refl;
          buffered = refl;
          open_handles = refl;
          sweeping = refl;
        })
  counted_same false s = record {
    handles = refl;
    memory = refl;
    buffered = refl;
    open_handles = refl;
    sweeping = refl;
  }

  call_if :
      {A : Type 0} (available charge : Bool) (f : B → Reply A × B) (s : Sandbox W B)
      → SameHandles s
          ((if available then count_crossing E charge >> cross f else ending (raised no_filesystem))
            s).1
  call_if true charge f s =
      follow-SameHandles (λ _. cross f) s (count_crossing E charge s) (counted_same charge s)
        λ a s' v. crossed f s s' v
  call_if false charge f s = refl_handles s

  -- A call of the backend.
  pub call-SameHandles :
      {A : Type 0} (charge : Bool) (f : B → Reply A × B) (s : Sandbox W B)
      → SameHandles s (call E charge f s).1
  unfolding call
  call-SameHandles charge f s = call_if E.available charge f s

  pub charge_cases :
      (h n : ℕ) (s : Sandbox W B)
      → ((w : W) × (charge_buffer E h n s ≡ (done tt, charged_state h n w s)))
        ⊎ ((e : Error) × (w : W) × (charge_buffer E h n s ≡ (raised e, record s { memory = w })))
  unfolding charge_buffer
  charge_cases h n s =
      elim (Bool-cases (
        not (E.quota.max_total_bytes == 0)
        && ltb (sub_size E.quota.max_total_bytes s.buffered_bytes) n)) [
          | inl t ↦ inr (total_bytes_spent, s.memory, rw t refl)
          | inr t ↦ elim (Bool-cases (E.budget.charge n s.memory).0) [
            | inl g ↦ inl ((E.budget.charge n s.memory).1, rw (t, g) refl)
            | inr g ↦ inr (memory_spent, (E.budget.charge n s.memory).1, rw (t, g) refl)
          ]
        ]
