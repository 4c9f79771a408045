-- ===== src/Output/Chunks.antt =====
-- Which bytes the callback is owed (src/luaext_output.c, the loop of `luaext_output_flush`), and the
-- growth of the buffer.
use native.Mathlib.Nat.{pow-suc}
use lua_ext.Base.{
  ℕ, zero, suc, ◌*◌, ◌^◌, ◌≤◌, ◌<◌, ◌≡◌, ◌⊎◌, refl, Bool, true, false, none, some, List, [], ◌∷◌,
  leb, ◌==◌, if◌then◌else◌, length, size_max, arith, inl, inr, Option-cases,
}
use lua_ext.Output.Buffer.{last_line_end, owed, doubled, wanted, min_capacity, doublings}

abbrev pub has_newline : List ℕ → Bool
has_newline [] = false
has_newline (c ∷ cs) = if c == 10 then true else has_newline cs

pub last_line_end_bounds :
    (t : List ℕ) (n : ℕ) → last_line_end t ≡ some n → (0 < n) × (n ≤ length t)
unfolding last_line_end
last_line_end_bounds [] n e = cc
last_line_end_bounds (c ∷ cs) n e = elim (Option-cases (last_line_end cs)) [
  | inl none_after ↦ ground arith
  | inr (k, found) ↦ ground (arith, last_line_end_bounds cs k found)
]

pub last_line_end-none : (t : List ℕ) → last_line_end t ≡ none → has_newline t ≡ false
unfolding last_line_end
last_line_end-none [] e = refl
last_line_end-none (c ∷ cs) e = elim (Option-cases (last_line_end cs)) [
  | inl none_after ↦ ground (arith, last_line_end-none cs none_after)
  | inr (k, found) ↦ ground arith
]

-- A chunk is not empty and is part of what is buffered.
pub owed_bounds :
    (all : Bool) (chunk : ℕ) (t : List ℕ) (n : ℕ)
    → owed all chunk t ≡ some n
    → (0 < n) × (n ≤ length t)
unfolding owed
owed_bounds all chunk [] n e = cc
owed_bounds all chunk (c ∷ cs) n e = ground (arith, last_line_end_bounds (c ∷ cs) n)

-- Nothing is left where everything was to go.
pub owed-all-none : (chunk : ℕ) (t : List ℕ) → owed true chunk t ≡ none → t ≡ []
unfolding owed
owed-all-none chunk [] e = refl
owed-all-none chunk (c ∷ cs) e = cc

-- Otherwise what is left is shorter than a chunk and holds no newline.
pub owed-none :
    (chunk : ℕ) (t : List ℕ)
    → owed false chunk t ≡ none
    → (t ≡ []) ⊎ ((length t < chunk) × (has_newline t ≡ false))
unfolding owed
owed-none chunk [] e = inl refl
owed-none chunk (c ∷ cs) e = inr (ground arith, ground (arith, last_line_end-none (c ∷ cs)))

pow_twice : (want fuel : ℕ) → want * 2 ^ suc fuel ≡ want * 2 * 2 ^ fuel
pow_twice want fuel = rw pow-suc (grind arith)

doubled-ge : (fuel want needed : ℕ) → needed ≤ want * 2 ^ fuel → needed ≤ doubled fuel want needed
unfolding doubled
doubled-ge zero want needed h = omega arith
doubled-ge (suc fuel) want needed h =
    ground (arith, doubled-ge fuel (want * 2) needed (rw (← pow_twice want fuel) h))

doubled-le-size_max :
    (fuel want needed : ℕ)
    → want ≤ size_max
    → needed ≤ size_max
    → doubled fuel want needed ≤ size_max
unfolding doubled
doubled-le-size_max zero want needed h k = h
doubled-le-size_max (suc fuel) want needed h k =
    ground (arith, doubled-le-size_max fuel (want * 2) needed)

doubled-ge-want : (fuel want needed : ℕ) → want ≤ doubled fuel want needed
unfolding doubled
doubled-ge-want zero want needed = omega arith
doubled-ge-want (suc fuel) want needed = ground (arith, doubled-ge-want fuel (want * 2) needed)

-- For a capacity and a need that are size_t values, the loop that doubles the capacity answers one
-- that holds what is needed, is not smaller than the old one and is a size_t.
pub wanted_bounds :
    (have needed : ℕ)
    → have ≤ size_max
    → needed ≤ size_max
    → (needed ≤ wanted have needed) × (have ≤ wanted have needed) × (wanted have needed ≤ size_max)
unfolding wanted
wanted_bounds have needed h k =
    let start = if leb min_capacity have then have else min_capacity in
    (
      doubled-ge doublings start needed (ground arith),
      ground (arith, doubled-ge-want doublings start needed),
      doubled-le-size_max doublings start needed (ground arith) k,
    )
