-- ===== src/Output/Flush.antt =====
-- `luaext_output_flush` with a quiet callback: it ends, and delivers in order.
use lua_ext.Base.{
  ℕ, zero, suc, ◌<◌, ◌≡◌, refl, ◌∙◌, ap, Bool, true, false, Option, none, some, List, [], ◌++◌,
  length, length-drop, arith,
}
use lua_ext.Base.Budget.{BudgetLaws}
use lua_ext.Output.Buffer.{pending, owed, capacity_of}
use lua_ext.Output.Chunks.{owed_bounds, owed-all-none, owed-none}
use lua_ext.Output.{Sandbox, Env, emit_next, release, drain, flush, streams, go_on, round}
use lua_ext.Output.Quiet.{Quiet}
use lua_ext.Output.Delivery.{
  IsAccounted, Delivers, emit_next-pending, emit_next-delivery, emit_next-IsAccounted,
  release-IsAccounted,
}

module _ {W : Type 0} {E : Env W} {L : BudgetLaws E.budget} (Q : Quiet E L) (other : ℕ) where
  -- The loop has ended, and this is what it has done.
  abbrev Ends : Bool → Sandbox W → Option (Bool × Sandbox W) → Type 0
  Ends all sb answer = (r : Bool × Sandbox W) × (answer ≡ some r) × Delivers Q other all sb r

  stopped-all :
      (sb : Sandbox W)
      → owed true sb.out.chunk (pending sb.out) ≡ none
      → IsAccounted Q other sb
      → Delivers Q other true sb (true, release E sb)
  unfolding release
  stopped-all sb e a = record {
    bytes_kept =
        rw (owed-all-none sb.out.chunk (pending sb.out) e)
          (ap (λ (d : List ℕ). d ++ []) (Q.discharge_delivery (capacity_of sb.out) sb.world));
    accounted = release-IsAccounted Q other sb a;
    nothing_left = λ _ _. refl;
    no_line_left = λ _ f. cc;
  }

  stopped-lines :
      (sb : Sandbox W)
      → owed false sb.out.chunk (pending sb.out) ≡ none
      → IsAccounted Q other sb
      → Delivers Q other false sb (true, sb)
  stopped-lines sb e a = record {
    bytes_kept = refl;
    accounted = a;
    nothing_left = λ _ f. cc;
    no_line_left = λ _ _. owed-none sb.out.chunk (pending sb.out) e;
  }

  -- A chunk goes out first, and the rest follows.
  emitted-then :
      (all : Bool) (n : ℕ) (sb : Sandbox W) (r : Bool × Sandbox W)
      → Delivers Q other all (emit_next E n sb).1 r
      → Delivers Q other all sb r
  emitted-then all n sb r d = record {
    bytes_kept = d.bytes_kept ∙ emit_next-delivery Q n sb;
    accounted = d.accounted;
    nothing_left = d.nothing_left;
    no_line_left = d.no_line_left;
  }

  thrown :
      (all : Bool) (sb : Sandbox W) → IsAccounted Q other sb → Delivers Q other all sb (false, sb)
  thrown all sb a = record {
    bytes_kept = refl;
    accounted = a;
    nothing_left = λ f. cc;
    no_line_left = λ f. cc;
  }

  go_on-Ends :
      (fuel : ℕ) (all : Bool) (p : Bool × Sandbox W)
      → length (pending p.1.out) < fuel
      → IsAccounted Q other p.1
      → ((sb' : Sandbox W)
          → length (pending sb'.out) < fuel
          → IsAccounted Q other sb'
          → Ends all sb' (drain E fuel all sb'))
      → Ends all p.1 (go_on E (drain E fuel all) p)
  go_on-Ends fuel all (true, s) h a ih = ih s h a
  go_on-Ends fuel all (false, s) h a ih = ((false, s), refl, thrown all s a)

  round-Ends :
      (fuel : ℕ) (all : Bool) (sb : Sandbox W) (o : Option ℕ)
      → owed all sb.out.chunk (pending sb.out) ≡ o
      → length (pending sb.out) < suc fuel
      → IsAccounted Q other sb
      → ((sb' : Sandbox W)
          → length (pending sb'.out) < fuel
          → IsAccounted Q other sb'
          → Ends all sb' (drain E fuel all sb'))
      → Ends all sb (round E (drain E fuel all) all o sb)
  round-Ends fuel true sb none e h a ih = ((true, release E sb), refl, stopped-all sb e a)
  round-Ends fuel false sb none e h a ih = ((true, sb), refl, stopped-lines sb e a)
  round-Ends fuel all sb (some n) e h a ih =
      let (r, e1, d) =
        go_on-Ends fuel all (emit_next E n sb) shorter (emit_next-IsAccounted Q other n sb a) ih in
      (r, e1, emitted-then all n sb r d)
    where
      shorter : length (pending (emit_next E n sb).1.out) < fuel
      shorter = omega (
        arith,
        owed_bounds all sb.out.chunk (pending sb.out) n e,
        length-drop n (pending sb.out),
        ap {B = ℕ} length (emit_next-pending Q n sb),
      )

  drain-Ends :
      (fuel : ℕ) (all : Bool) (sb : Sandbox W)
      → length (pending sb.out) < fuel
      → IsAccounted Q other sb
      → Ends all sb (drain E fuel all sb)
  unfolding drain
  drain-Ends zero all sb h a = absurd (omega arith)
  drain-Ends (suc fuel) all sb h a =
      round-Ends fuel all sb (owed all sb.out.chunk (pending sb.out)) refl h a (drain-Ends fuel all)

  -- With a quiet callback to stream to and more rounds of fuel than bytes are pending, a flush
  -- ends; every byte is delivered or still pending, in order; the charge is the capacity; and if
  -- no exception came up nothing is pending where all was to go, and otherwise nothing or less
  -- than a chunk with no newline in it.
  pub flush-Delivers :
      (fuel : ℕ) (all : Bool) (sb : Sandbox W)
      → streams E sb.out ≡ true
      → length (pending sb.out) < fuel
      → IsAccounted Q other sb
      → (r : Bool × Sandbox W) × (flush E fuel all sb ≡ some r) × Delivers Q other all sb r
  unfolding flush
  flush-Delivers fuel all sb s h a = rw (s, flush) (drain-Ends fuel all sb h a)
