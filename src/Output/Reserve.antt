-- ===== src/Output/Reserve.antt =====
-- `luaext_output_reserve`: room in the buffer, charged before it is taken.
use lua_ext.Base.{
  ℕ, ◌+◌, ◌-◌, ◌≤◌, ◌≡◌, refl, sym, ◌∙◌, ap, Bool, true, false, ◌||◌, Option, List, length,
  size_max, sub_size, arith, inl, inr, Bool-cases, ltb, leb, ◌==◌,
}
use lua_ext.Base.Budget.{Budget, BudgetLaws}
use lua_ext.Output.Buffer.{Sink, pending, capacity_of, wanted}
use lua_ext.Output.Chunks.{wanted_bounds}
use lua_ext.Output.{Sandbox, Env, reserve, charged_for}

-- All of the sink but the buffer.
pub record SameSettings (a b : Sink) : Type 0 where
  pub mode : b.mode ≡ a.mode
  pub has_callback : b.has_callback ≡ a.has_callback
  pub written : b.written ≡ a.written
  pub emitted : b.emitted ≡ a.emitted
  pub limit : b.limit ≡ a.limit
  pub chunk : b.chunk ≡ a.chunk
  pub truncated : b.truncated ≡ a.truncated
  pub buffered_is_stderr : b.buffered_is_stderr ≡ a.buffered_is_stderr

pub SameSettings-rebuffered :
    (a : Sink) (t : Option (List ℕ)) (n : ℕ) → SameSettings a (record a { text = t; capacity = n })
SameSettings-rebuffered a t n = record {
  mode = refl;
  has_callback = refl;
  written = refl;
  emitted = refl;
  limit = refl;
  chunk = refl;
  truncated = refl;
  buffered_is_stderr = refl;
}

-- What is buffered fits in the capacity, which is a `size_t`.
pub record IsSized (out : Sink) : Type 0 where
  pub fits : length (pending out) ≤ capacity_of out
  pub word : capacity_of out ≤ size_max

module _ {W : Type 0} {B : Budget W} (L : BudgetLaws B) where
  -- The buffer's capacity is charged, beside `other` bytes.
  pub record IsCharged (other : ℕ) (sb : Sandbox W) : Type 0 where
    pub sound : L.IsSound sb.world
    pub charges : L.charged sb.world ≡ other + capacity_of sb.out
    pub sized : IsSized sb.out

  -- What a reservation of `extra` bytes has done, by its answer.
  abbrev pub Reserves : ℕ → ℕ → Sandbox W → Bool × Sandbox W → Type 0
  Reserves other extra sb (false, sb') = sb' ≡ sb
  Reserves other extra sb (true, sb') =
      (pending sb'.out ≡ pending sb.out)
      × (length (pending sb.out) + extra ≤ capacity_of sb'.out)
      × SameSettings sb.out sb'.out
      × (sb'.closed ≡ sb.closed)
      × (sb'.overflow_fails ≡ sb.overflow_fails)
      × IsCharged other sb'

module _ {W : Type 0} (E : Env W) (L : BudgetLaws E.budget) where
  charged_for-Reserves :
      (other extra want : ℕ) (sb : Sandbox W) (r : Bool × W)
      → E.budget.charge (want - capacity_of sb.out) sb.world ≡ r
      → length (pending sb.out) + extra ≤ want
      → capacity_of sb.out ≤ want
      → want ≤ size_max
      → IsCharged L other sb
      → Reserves L other extra sb (charged_for E want r sb)
  charged_for-Reserves other extra want sb (false, w) e h k l c =
      ap (λ (v : W). record sb { world = v })
        (sym (ap (λ (r : Bool × W). r.1) e)
          ∙ L.charge_refused _ sb.world c.sound (ap (λ (r : Bool × W). r.0) e))
  charged_for-Reserves other extra want sb (true, w) e h k l c = (
    refl,
    h,
    SameSettings-rebuffered sb.out _ _,
    refl,
    refl,
    record {
      sound = rw (sym new_world) (L.charge-IsSound _ sb.world c.sound);
      charges = omega (arith, taken, c.charges);
      sized = record { fits = omega arith; word = l };
    },
  )
    where
      new_world : (E.budget.charge (want - capacity_of sb.out) sb.world).1 ≡ w
      new_world = ap (λ (r : Bool × W). r.1) e

      taken : L.charged w ≡ L.charged sb.world + (want - capacity_of sb.out)
      taken =
          ap (λ (v : W). L.charged v) (sym new_world)
          ∙ L.charge_taken _ sb.world c.sound (ap (λ (r : Bool × W). r.0) e)

  -- Where the capacity is charged and holds what is buffered: a reservation that is granted leaves
  -- room for extra bytes behind what is buffered, keeps that and every setting, and has charged
  -- exactly the new capacity; one that is refused changes nothing.
  pub reserve-Reserves :
      (other extra : ℕ) (sb : Sandbox W)
      → IsCharged L other sb
      → Reserves L other extra sb (reserve E extra sb)
  unfolding reserve
  reserve-Reserves other extra sb c =
      elim (Bool-cases (extra == 0 || leb extra (sub_size have used))) [
        | inl room ↦ rw room (
          refl,
          ground arith,
          SameSettings-rebuffered sb.out sb.out.text sb.out.capacity,
          refl,
          refl,
          c,
        )
        | inr short ↦ elim (Bool-cases (ltb (size_max - used) extra)) [
          | inl huge ↦ rw (short, huge) refl
          | inr word ↦
              rw (short, word)
                (let (n, h, w) = wanted_bounds have (used + extra) c.sized.word (ground arith) in
                  charged_for-Reserves other extra want sb _
                    (ap (λ (k : ℕ). E.budget.charge k sb.world) (omega arith)) n h w c)
        ]
      ]
    where
      have : ℕ
      have = capacity_of sb.out

      used : ℕ
      used = length (pending sb.out)

      want : ℕ
      want = wanted have (used + extra)
