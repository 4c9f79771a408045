-- ===== src/Output/Quiet.antt =====
-- A host whose output callback takes its chunk and leaves the sandbox alone. What the properties of
-- the streaming mode assume of it, of the clocks and of the memory accounting stands here.
use lua_ext.Base.{ℕ, ◌≡◌, Bool, List, ◌++◌}
use lua_ext.Base.Budget.{BudgetLaws}
use lua_ext.Output.{Sandbox, Env}

-- A step of the world that changes neither the charges nor what has been delivered.
pub record Keeps {W : Type 0} (IsSound : W → Type 0) (charged : W → ℕ) (delivered : W → List ℕ)
    (w w' : W) : Type 0 where
  pub sound : IsSound w → IsSound w'
  pub charges : charged w' ≡ charged w
  pub delivery : delivered w' ≡ delivered w

pub record Quiet {W : Type 0} (E : Env W) (L : BudgetLaws E.budget) : Type 0 where
  -- the bytes that the callback has had, in order
  pub delivered : W → List ℕ
  pub charge_delivery : (n : ℕ) (w : W) → delivered (E.budget.charge n w).1 ≡ delivered w
  pub discharge_delivery : (n : ℕ) (w : W) → delivered (E.budget.discharge n w) ≡ delivered w
  pub pause_keeps : (w : W) → Keeps L.IsSound L.charged delivered w (E.pause_clocks w).1
  pub resume_keeps : (w : W) → Keeps L.IsSound L.charged delivered w (E.resume_clocks w)
  pub begin_keeps : (w : W) → Keeps L.IsSound L.charged delivered w (E.span_begin w)
  pub end_keeps : (w : W) → Keeps L.IsSound L.charged delivered w (E.span_end w)
  pub call_out : (c : List ℕ) (e : Bool) (sb : Sandbox W) → (E.call c e sb).out ≡ sb.out
  pub call_sound :
      (c : List ℕ) (e : Bool) (sb : Sandbox W)
      → L.IsSound sb.world
      → L.IsSound (E.call c e sb).world
  pub call_charges :
      (c : List ℕ) (e : Bool) (sb : Sandbox W)
      → L.charged (E.call c e sb).world ≡ L.charged sb.world
  pub call_delivery :
      (c : List ℕ) (e : Bool) (sb : Sandbox W)
      → delivered (E.call c e sb).world ≡ delivered sb.world ++ c
