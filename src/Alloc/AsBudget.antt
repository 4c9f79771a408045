-- ===== src/Alloc/AsBudget.antt =====
-- src/luaext_alloc.c as the accounting that the other subsystems charge.
use lua_ext.Base.{ℕ, ◌≡◌, Bool, true, false}
use lua_ext.Base.Budget.{Budget, BudgetLaws}
use lua_ext.Alloc.External.{Host}
use lua_ext.Alloc.{Memory, charge, discharge}
use lua_ext.Alloc.Counters.{IsSound}
use lua_ext.Alloc.Charges.{ChargeOutcome, ChargeOutcome-true, charge_lem, discharge_lem}

module _ (H : Host) where
  abbrev pub alloc_budget : Budget (Memory H)
  alloc_budget = record { charge = charge H; discharge = discharge H }

  pub outcome-IsSound :
      (n : ℕ) (m : Memory H) (r : Bool × Memory H)
      → IsSound m.alloc
      → ChargeOutcome H n m r
      → IsSound r.1.alloc
  outcome-IsSound n m (true, m') h o = o.sound
  outcome-IsSound n m (false, m') h (e, _) = rw e h

  pub outcome-false :
      (n : ℕ) (m : Memory H) (r : Bool × Memory H) → ChargeOutcome H n m r → r.0 ≡ false → r.1 ≡ m
  outcome-false n m (true, m') o e = cc
  outcome-false n m (false, m') (e, _) _ = e

  -- The memory accounting keeps the laws that the subsystems rely on when they charge it.
  abbrev pub alloc_budget-BudgetLaws : BudgetLaws alloc_budget
  alloc_budget-BudgetLaws = record {
    IsSound = λ m. IsSound m.alloc;
    charged = λ m. m.alloc.charged;
    charge-IsSound = λ n m h. outcome-IsSound n m (charge H n m) h (charge_lem H n m h);
    discharge-IsSound = λ n m h. (discharge_lem H n m h).0;
    charge_taken =
        λ n m h e. (ChargeOutcome-true H n m (charge H n m) (charge_lem H n m h) e).charged;
    charge_refused = λ n m h e. outcome-false n m (charge H n m) (charge_lem H n m h) e;
    discharged = λ n m h. (discharge_lem H n m h).1;
  }
