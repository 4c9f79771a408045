-- ===== src/Output/Delivery.antt =====
-- What `luaext_output_flush` delivers to a quiet callback.
use mathlib.Core.List.{append_assoc}
use lua_ext.Base.{
  ℕ, zero, suc, ◌+◌, ◌<◌, ◌≡◌, ◌⊎◌, refl, sym, ◌∙◌, ap, Bool, true, false, List, [], ◌++◌, length,
  take, drop, take-append-drop, arith, inl, inr, Bool-cases, Option-cases,
}
use lua_ext.Base.Budget.{BudgetLaws}
use lua_ext.Output.Buffer.{Sink, pending, capacity_of, consume}
use lua_ext.Output.Chunks.{has_newline}
use lua_ext.Output.{Sandbox, Env, emit, emit_next, enter_host, leave_host, entered, called, release}
use lua_ext.Output.Quiet.{Quiet, Keeps}

drop-nil : (n : ℕ) → drop {A = ℕ} n [] ≡ []
drop-nil zero = refl
drop-nil (suc n) = refl

pub pending-consume : (out : Sink) (n : ℕ) → pending (consume out n) ≡ drop n (pending out)
unfolding consume
pending-consume out n = elim (Option-cases out.text) [
  | inl e ↦ rw (e, consume) (rw e (sym (drop-nil n)))
  | inr (t, e) ↦ rw (e, consume)
]

capacity-consume : (out : Sink) (n : ℕ) → capacity_of (consume out n) ≡ capacity_of out
unfolding consume
capacity-consume out n = elim (Option-cases out.text) [
  | inl e ↦ rw (e, consume) (rw e)
  | inr (t, e) ↦ rw (e, consume)
]

module _ {W : Type 0} {E : Env W} {L : BudgetLaws E.budget} (Q : Quiet E L) where
  -- The buffer's capacity is charged, beside `other` bytes.
  pub record IsAccounted (other : ℕ) (sb : Sandbox W) : Type 0 where
    pub sound : L.IsSound sb.world
    pub charges : L.charged sb.world ≡ other + capacity_of sb.out

  abbrev Kept : W → W → Type 0
  Kept = Keeps L.IsSound L.charged Q.delivered

  keep_then : (u v w : W) → Kept u v → Kept v w → Kept u w
  keep_then u v w a b = record {
    sound = λ s. b.sound (a.sound s);
    charges = b.charges ∙ a.charges;
    delivery = b.delivery ∙ a.delivery;
  }

  enter_host-Kept : (sb : Sandbox W) → Kept sb.world (enter_host E sb).1
  enter_host-Kept sb = elim (Bool-cases sb.bill_host_time) [
    | inl e ↦ rw e (Q.begin_keeps sb.world)
    | inr e ↦ rw e (keep_then _ _ _ (Q.pause_keeps sb.world) (Q.begin_keeps _))
  ]

  leave_host-Kept : (paused : Bool) (sb : Sandbox W) → Kept sb.world (leave_host E paused sb).world
  leave_host-Kept true sb = keep_then _ _ _ (Q.end_keeps sb.world) (Q.resume_keeps _)
  leave_host-Kept false sb = Q.end_keeps sb.world

  emit-out : (c : List ℕ) (sb : Sandbox W) → (emit E c sb).1.out ≡ sb.out
  unfolding emit
  emit-out c sb = Q.call_out c sb.out.buffered_is_stderr (entered E sb)

  emit-delivery :
      (c : List ℕ) (sb : Sandbox W) → Q.delivered (emit E c sb).1.world ≡ Q.delivered sb.world ++ c
  unfolding emit
  emit-delivery c sb =
      (leave_host-Kept (enter_host E sb).0 (called E c sb)).delivery
      ∙ Q.call_delivery c sb.out.buffered_is_stderr (entered E sb)
      ∙ ap (λ (d : List ℕ). d ++ c) (enter_host-Kept sb).delivery

  emit-IsAccounted :
      (other : ℕ) (c : List ℕ) (sb : Sandbox W)
      → IsAccounted other sb
      → IsAccounted other (emit E c sb).1
  unfolding emit
  emit-IsAccounted other c sb a = record {
    sound = (leave_host-Kept (enter_host E sb).0 (called E c sb)).sound (
        Q.call_sound c sb.out.buffered_is_stderr (entered E sb)
          ((enter_host-Kept sb).sound a.sound));
    charges =
        (leave_host-Kept (enter_host E sb).0 (called E c sb)).charges
        ∙ Q.call_charges c sb.out.buffered_is_stderr (entered E sb)
        ∙ (enter_host-Kept sb).charges
        ∙ a.charges
        ∙ ap (λ (o : Sink). other + capacity_of o) (sym (emit-out c sb));
  }

  pub release-IsAccounted :
      (other : ℕ) (sb : Sandbox W) → IsAccounted other sb → IsAccounted other (release E sb)
  unfolding release
  release-IsAccounted other sb a = record {
    sound = L.discharge-IsSound (capacity_of sb.out) sb.world a.sound;
    charges = omega (arith, L.discharged (capacity_of sb.out) sb.world a.sound, a.charges);
  }

  pub emit_next-pending :
      (n : ℕ) (sb : Sandbox W) → pending (emit_next E n sb).1.out ≡ drop n (pending sb.out)
  emit_next-pending n sb =
      ap (λ (o : Sink). pending o) (emit-out _ (record sb { out = consume sb.out n }))
      ∙ pending-consume sb.out n

  pub emit_next-delivery :
      (n : ℕ) (sb : Sandbox W)
      → Q.delivered (emit_next E n sb).1.world ++ pending (emit_next E n sb).1.out
        ≡ Q.delivered sb.world ++ pending sb.out
  emit_next-delivery n sb =
      rw
        (
          emit_next-pending n sb,
          emit-delivery (take n (pending sb.out)) (record sb { out = consume sb.out n }),
        )
        (append_assoc (Q.delivered sb.world) (take n (pending sb.out)) (drop n (pending sb.out))
          ∙ ap (λ (t : List ℕ). Q.delivered sb.world ++ t) (take-append-drop n (pending sb.out)))

  pub emit_next-IsAccounted :
      (other n : ℕ) (sb : Sandbox W) → IsAccounted other sb → IsAccounted other (emit_next E n sb).1
  emit_next-IsAccounted other n sb a = emit-IsAccounted other _ _ (record {
    sound = a.sound;
    charges = a.charges ∙ ap (λ (k : ℕ). other + k) (sym (capacity-consume sb.out n));
  })

  -- What a flush has done when it ends: every byte is delivered or still pending, in order; the
  -- charge still is the capacity; and after a flush that succeeded what is pending is nothing, or,
  -- where not all was to go, less than a chunk and without a newline.
  pub record Delivers (other : ℕ) (all : Bool) (sb : Sandbox W) (r : Bool × Sandbox W)
      : Type 0 where
    pub bytes_kept :
        Q.delivered r.1.world ++ pending r.1.out ≡ Q.delivered sb.world ++ pending sb.out
    pub accounted : IsAccounted other r.1
    pub nothing_left : r.0 ≡ true → all ≡ true → pending r.1.out ≡ []
    pub no_line_left :
        r.0 ≡ true
        → all ≡ false
        → (pending r.1.out ≡ [])
          ⊎ ((length (pending r.1.out) < r.1.out.chunk) × (has_newline (pending r.1.out) ≡ false))
