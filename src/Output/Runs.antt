-- ===== src/Output/Runs.antt =====
-- Any writes and reads of a sandbox in Buffer mode (src/luaext_output.c), one behind the other.
use lua_ext.Base.{
  ℕ, ◌≤◌, refl, Bool, true, false, Option, none, some, List, [], ◌∷◌, ◌++◌, size_max, inl, inr,
}
use lua_ext.Base.Budget.{BudgetLaws}
use lua_ext.Output.{Sandbox, Env, Status, accepted, refused_memory, refused_budget, raised}
use lua_ext.Output.Log.{Log, tagged}
use lua_ext.Output.Buffered.{Holds, Wrote}
use lua_ext.Output.Budgeted.{write_channel-Wrote}
use lua_ext.Output.ReadBack.{Reads, get-Reads}
use lua_ext.Output.Write.{write_channel, get}

pub data Use : Type 0 where
  writes : List ℕ → Bool → Use
  reads : Bool → Use

module _ {W : Type 0} (E : Env W) where
  abbrev after_write : Option (Status × Sandbox W) → Option (Sandbox W)
  after_write none = none
  after_write (some (status, sb)) = some sb

  abbrev after_read : Option (Option (List ℕ) × Sandbox W) → Option (Sandbox W)
  after_read none = none
  after_read (some (text, sb)) = some sb

  abbrev pub use_once : ℕ → Use → Sandbox W → Option (Sandbox W)
  use_once fuel (writes text is_stderr) sb = after_write (write_channel E fuel text is_stderr sb)
  use_once fuel (reads takes) sb = after_read (get E fuel takes sb)

  abbrev and_then : (Sandbox W → Option (Sandbox W)) → Option (Sandbox W) → Option (Sandbox W)
  and_then next none = none
  and_then next (some sb) = next sb

  unfoldable pub run : ℕ → List Use → Sandbox W → Option (Sandbox W)
  run fuel [] sb = some sb
  run fuel (u ∷ us) sb = and_then (run fuel us) (use_once fuel u sb)

module _ {W : Type 0} (E : Env W) (L : BudgetLaws E.budget) (other limit : ℕ)
    (word : limit ≤ size_max) where
  -- Some log belongs to the sandbox that came out.
  abbrev HasLog : Option (Sandbox W) → Type 0
  HasLog none = ⊥
  HasLog (some sb) = (before : Bool) × (log : Log) × Holds E L other limit before log sb

  written-HasLog :
      (before : Bool) (log : Log) (text : List ℕ) (sb : Sandbox W) (r : Option (Status × Sandbox W))
      → Wrote E L other limit before log text sb r
      → HasLog (after_write E r)
  written-HasLog before log text sb none v = absurd v
  written-HasLog before log text sb (some (accepted, sb')) (h, b) =
      (before, log ++ tagged true text, h)
  written-HasLog before log text sb (some (refused_budget, sb')) (h, b) =
      (before, log ++ tagged true text, h)
  written-HasLog before log text sb (some (refused_memory, sb')) (h, b, c) =
      (before, log ++ tagged false text, h)
  written-HasLog before log text sb (some (raised, sb')) v = absurd v

  read-HasLog :
      (before takes : Bool) (log : Log) (t : List ℕ) (sb : Sandbox W) (r : List ℕ × Sandbox W)
      → Holds E L other limit before log sb
      → Reads E L other limit before t takes sb r
      → HasLog (some r.1)
  read-HasLog before false log t sb r h v = (before, log, rw (v.left_alone refl) h)
  read-HasLog before true log t sb r h v = elim (v.starts_anew refl) [
    | inl same ↦ (before, log, rw same h)
    | inr k ↦ (sb.out.truncated, [], k)
  ]

  used-HasLog :
      (fuel : ℕ) (u : Use) (before : Bool) (log : Log) (sb : Sandbox W)
      → Holds E L other limit before log sb
      → HasLog (use_once E fuel u sb)
  used-HasLog fuel (writes text is_stderr) before log sb h =
      written-HasLog before log text sb _
        (write_channel-Wrote E L other limit before word fuel log text is_stderr sb h)
  used-HasLog fuel (reads takes) before log sb h =
      let (r, e, v) = get-Reads E L other limit before fuel log takes sb h in
      rw e (read-HasLog before takes log _ sb r h v)

  continued :
      (next : Sandbox W → Option (Sandbox W)) (r : Option (Sandbox W))
      → HasLog r
      → ((before : Bool) (log : Log) (sb : Sandbox W)
          → Holds E L other limit before log sb
          → HasLog (next sb))
      → HasLog (and_then E next r)
  continued next none v k = absurd v
  continued next (some sb) (b, l, h) k = k b l sb h

  -- After any writes and reads, refused or not, a log belongs to the sandbox, and none ran out of
  -- fuel.
  pub run-HasLog :
      (fuel : ℕ) (us : List Use) (before : Bool) (log : Log) (sb : Sandbox W)
      → Holds E L other limit before log sb
      → HasLog (run E fuel us sb)
  unfolding run
  run-HasLog fuel [] before log sb h = (before, log, h)
  run-HasLog fuel (u ∷ us) before log sb h =
      continued (run E fuel us) (use_once E fuel u sb) (used-HasLog fuel u before log sb h)
        λ b l t k. run-HasLog fuel us b l t k
