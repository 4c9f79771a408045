-- ===== src/Output/ReadBack.antt =====
-- `luaext_output_get` in Buffer mode: what the host reads, and what taking it gives back.
use lua_ext.Base.{
  ℕ, ◌≡◌, ◌⊎◌, refl, sym, ◌∙◌, ap, Bool, true, false, Option, none, some, List, [], arith, inl, inr,
}
use lua_ext.Base.Budget.{BudgetLaws}
use lua_ext.Output.Buffer.{Mode, buffer, callback, discard, Sink, bytes, pending, capacity_of}
use lua_ext.Output.{Sandbox, Env}
use lua_ext.Output.Reserve.{IsCharged}
use lua_ext.Output.Truncation.{kept}
use lua_ext.Output.Log.{Log, stored, stored_nothing, flagged_nothing}
use lua_ext.Output.Buffered.{Holds, flush-buffer}
use lua_ext.Output.Write.{get, read_mode, read_back, take_text}

module _ {W : Type 0} (E : Env W) (L : BudgetLaws E.budget) (other limit : ℕ) (before : Bool) where
  -- What the host has read: the bytes themselves; and if it takes them, the buffer is empty, its
  -- charge is given back and the budget starts anew, but the count over all time stays.
  pub record Reads (t : List ℕ) (takes : Bool) (sb : Sandbox W) (r : List ℕ × Sandbox W)
      : Type 0 where
    pub bytes_read : r.0 ≡ t
    pub charged : IsCharged L other r.1
    pub emitted : r.1.out.emitted ≡ sb.out.emitted
    pub left_alone : takes ≡ false → r.1 ≡ sb
    pub taken : takes ≡ true → pending r.1.out ≡ []
    pub given_back : takes ≡ true → L.charged r.1.world ≡ other
    pub starts_anew : takes ≡ true → (r.1 ≡ sb) ⊎ Holds E L other limit sb.out.truncated [] r.1

  take_text-IsCharged : (sb : Sandbox W) → IsCharged L other sb → IsCharged L other (take_text E sb)
  take_text-IsCharged sb k = record {
    sound = L.discharge-IsSound (capacity_of sb.out) sb.world k.sound;
    charges = omega (arith, L.discharged (capacity_of sb.out) sb.world k.sound, k.charges);
    sized = record { fits = omega arith; word = omega arith };
  }

  -- With nothing written since, whatever the flag was.
  taken-Holds :
      {log : Log} (sb : Sandbox W)
      → Holds E L other limit before log sb
      → Holds E L other limit sb.out.truncated [] (take_text E sb)
  taken-Holds {log} sb h = record {
    buffers = h.buffers;
    open_still = h.open_still;
    budget = h.budget;
    text = stored_nothing limit;
    count = refl;
    flag = flagged_nothing sb.out.truncated limit;
    charged = take_text-IsCharged sb h.charged;
  }

  unused : (out : Sink) → out.text ≡ none → capacity_of out ≡ 0
  unused out e = rw e refl

  read_back-Reads :
      (t : List ℕ) (log : Log) (takes : Bool) (sb : Sandbox W) (text : Option (List ℕ))
      → sb.out.text ≡ text
      → pending sb.out ≡ t
      → Holds E L other limit before log sb
      → Reads t takes sb (read_back E takes text sb)
  read_back-Reads t log takes sb none e p h =
      let k = h.charged in
      let empty : [] ≡ t = sym (ap (λ (o : Option (List ℕ)). bytes o) e) ∙ p in
      record {
        bytes_read = empty;
        charged = k;
        emitted = refl;
        left_alone = λ _. refl;
        taken = λ _. p ∙ sym empty;
        given_back = λ _. omega (arith, k.charges, unused sb.out e);
        starts_anew = λ _. inl refl;
      }
  read_back-Reads t log true sb (some u) e p h =
      let k = h.charged in
      record {
        bytes_read = sym (ap (λ (o : Option (List ℕ)). bytes o) e) ∙ p;
        charged = take_text-IsCharged sb k;
        emitted = refl;
        left_alone = λ f. cc;
        taken = λ _. refl;
        given_back =
            λ _. omega (arith, L.discharged (capacity_of sb.out) sb.world k.sound, k.charges);
        starts_anew = λ _. inr (taken-Holds sb h);
      }
  read_back-Reads t log false sb (some u) e p h =
      let k = h.charged in
      record {
        bytes_read = sym (ap (λ (o : Option (List ℕ)). bytes o) e) ∙ p;
        charged = k;
        emitted = refl;
        left_alone = λ _. refl;
        taken = λ f. cc;
        given_back = λ f. cc;
        starts_anew = λ f. cc;
      }

  read_mode-Reads :
      (t : List ℕ) (log : Log) (takes : Bool) (sb : Sandbox W) (m : Mode)
      → m ≡ buffer
      → pending sb.out ≡ t
      → Holds E L other limit before log sb
      → Reads t takes sb (read_mode E takes m sb)
  read_mode-Reads t log takes sb buffer e p h = read_back-Reads t log takes sb sb.out.text refl p h
  read_mode-Reads t log takes sb callback e p h = cc
  read_mode-Reads t log takes sb discard e p h = cc

  -- Of a sandbox that holds what belongs to a log of writes, reading answers what the budget keeps
  -- of the log and the memory accounting let in; looking changes nothing; taking empties the
  -- buffer, leaves charged only what others hold, keeps the count over all time, and, unless there
  -- was no buffer and so nothing changes, leaves the sandbox with the empty log, a fresh budget
  -- and the truncation flag as it was.
  pub get-Reads :
      (fuel : ℕ) (log : Log) (takes : Bool) (sb : Sandbox W)
      → Holds E L other limit before log sb
      → (r : List ℕ × Sandbox W) × (get E fuel takes sb ≡ some (some r.0, r.1))
        × Reads (stored (kept limit log)) takes sb r
  unfolding get
  get-Reads fuel log takes sb h = (
    read_mode E takes sb.out.mode sb,
    rw (flush-buffer E L other limit before fuel true sb h.buffers) refl,
    read_mode-Reads (stored (kept limit log)) log takes sb sb.out.mode h.buffers h.text h,
  )
