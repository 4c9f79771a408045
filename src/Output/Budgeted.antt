-- ===== src/Output/Budgeted.antt =====
-- Runs of writes in Buffer mode (src/luaext_output.c): the sink keeps exactly what its budget allows.
use mathlib.Core.List.{append-nil}
use lua_ext.Base.{
  ℕ, ◌≤◌, ◌≡◌, refl, sym, ◌∙◌, ap, Bool, true, false, ◌&&◌, some, List, [], ◌∷◌, ◌++◌, length,
  size_max, arith, inl, inr, Bool-cases, ltb, ltb→lt, ◌==◌,
}
use lua_ext.Base.Budget.{BudgetLaws}
use lua_ext.Output.Buffer.{Mode, pending}
use lua_ext.Output.{Sandbox, Env, accepted, flush}
use lua_ext.Output.Reserve.{SameSettings-rebuffered, IsCharged, reserve-Reserves}
use lua_ext.Output.Truncation.{kept, counted}
use lua_ext.Output.Log.{Log, tagged, stored, stored-accepted}
use lua_ext.Output.Buffered.{
  Holds, Wrote, tallied, tallied-Holds, pending-tallied, mode-tallied, append_reserved-Wrote,
  conclude-Wrote, flush-buffer,
}
use lua_ext.Output.Write.{
  write_channel, write_counted, count_write, room_for, keeps, conclude, bool_ne,
}

module _ {W : Type 0} (E : Env W) (L : BudgetLaws E.budget) (other limit : ℕ) (before : Bool)
    (word : limit ≤ size_max) where
  tallied-IsCharged :
      (text : List ℕ) (is_stderr : Bool) (sb : Sandbox W)
      → IsCharged L other sb
      → IsCharged L other (tallied E L other limit before text is_stderr sb)
  unfolding count_write
  tallied-IsCharged text is_stderr sb k = record {
    sound = k.sound;
    charges = k.charges;
    sized = record { fits = k.sized.fits; word = k.sized.word };
  }

  -- A write that the budget lets nothing in of.
  full-Wrote :
      (fuel : ℕ) (log : Log) (text : List ℕ) (is_stderr : Bool) (sb : Sandbox W)
      → Holds E L other limit before log sb
      → ltb 0 (room_for sb.out.limit sb.out.written (length text)) ≡ false
      → Wrote E L other limit before log text sb (
          conclude E
            (ltb (room_for sb.out.limit sb.out.written (length text)) (length text))
            (flush E fuel false (tallied E L other limit before text is_stderr sb)))
  full-Wrote fuel log text is_stderr sb h z =
      rw
        (flush-buffer E L other limit before fuel false sb1
          (mode-tallied E L other limit before text is_stderr sb ∙ h.buffers))
        (conclude-Wrote E L other limit before log text sb sb1 _ (rw (h.budget, h.count) refl) refl
          (tallied-Holds E L other limit before log text is_stderr sb sb1 word h
            (SameSettings-rebuffered sb1.out sb1.out.text sb1.out.capacity) refl held
            (tallied-IsCharged text is_stderr sb h.charged)))
    where
      sb1 : Sandbox W
      sb1 = tallied E L other limit before text is_stderr sb

      no_room : room_for limit (counted log) (length text) ≡ 0
      no_room =
          let e : room_for sb.out.limit sb.out.written (length text) ≡ 0 = ground (arith, z) in
          rw (h.budget, h.count) at e

      held : pending sb1.out ≡ stored (kept limit (log ++ tagged true text))
      held =
          pending-tallied E L other limit before text is_stderr sb
          ∙ h.text
          ∙ sym (append-nil (stored (kept limit log)))
          ∙ sym (rw (stored-accepted limit log text word, no_room) refl)

  write_counted-Wrote :
      (fuel : ℕ) (log : Log) (text : List ℕ) (is_stderr : Bool) (sb : Sandbox W)
      → Holds E L other limit before log sb
      → Wrote E L other limit before log text sb (write_counted E fuel text is_stderr sb)
  unfolding write_counted
  write_counted-Wrote fuel log text is_stderr sb h =
      elim (Bool-cases (ltb 0 (room_for sb.out.limit sb.out.written (length text)))) [
        | inr z ↦ rw z (full-Wrote fuel log text is_stderr sb h z)
        | inl p ↦
            rw (p, keeping)
              (append_reserved-Wrote E L other limit before fuel log text is_stderr sb _ word h
                (ltb→lt _ _ p)
                (reserve-Reserves E L other _ _ (tallied-IsCharged text is_stderr sb h.charged)))
      ]
    where
      keeping : keeps sb.out.mode ≡ true
      keeping = ap (λ (m : Mode). keeps m) h.buffers

  nothing_written :
      (log : Log) (text : List ℕ) (sb : Sandbox W)
      → length text ≡ 0
      → Holds E L other limit before log sb
      → Wrote E L other limit before log text sb (some (accepted, sb))
  unfolding room_for tagged
  nothing_written log [] sb e h = (rw (append-nil log) h, ground arith)
  nothing_written log (c ∷ cs) sb e h = absurd (omega arith)

  -- For a limit that is a size_t and an open sandbox in Buffer mode that holds, of a log of writes
  -- since the bytes were last taken, what the budget keeps of the log and the memory accounting
  -- let in, with the counter, flag and charge that belong to the log: a write on either channel
  -- ends and leaves that so for the log with this write, whatever it answers. Accepted or blamed
  -- on the budget, it was let in, and the budget is blamed exactly if bytes of it were dropped and
  -- the policy is to fail; refused by the memory accounting, it was not let in, the buffer's bytes
  -- are as they were and the flag is set.
  pub write_channel-Wrote :
      (fuel : ℕ) (log : Log) (text : List ℕ) (is_stderr : Bool) (sb : Sandbox W)
      → Holds E L other limit before log sb
      → Wrote E L other limit before log text sb (write_channel E fuel text is_stderr sb)
  unfolding write_channel
  write_channel-Wrote fuel log text is_stderr sb h = elim (Bool-cases (length text == 0)) [
    | inl z ↦ simp (h.open_still, z) (nothing_written log text sb (ground arith) h)
    | inr n ↦ elim (Bool-cases changes) [
      | inl c ↦
          simp (h.open_still, n, c, flush-buffer E L other limit before fuel true sb h.buffers)
            (write_counted-Wrote fuel log text is_stderr sb h)
      | inr c ↦ simp (h.open_still, n, c) (write_counted-Wrote fuel log text is_stderr sb h)
    ]
  ]
    where
      changes : Bool
      changes = bool_ne is_stderr sb.out.buffered_is_stderr && ltb 0 (length (pending sb.out))
