-- ===== src/Output/Log.antt =====
-- What was written to the buffer of src/luaext_output.c since it was last taken: each byte with
-- whether the memory accounting let its write in. A write that it did not let in uses up the budget
-- like any other, since luaext_output_write_channel counts before it reserves.
use mathlib.Core.Path.{ap₂}
use mathlib.Core.List.{append-nil}
use lua_ext.Base.{
  ℕ, zero, suc, ◌≤◌, ◌≢◌, ◌≡◌, refl, sym, ◌∙◌, ap, Bool, true, false, ◌||◌, List, [], ◌∷◌, ◌++◌,
  length, take, size_max, ltb, ◌==◌, arith, inl, inr, Bool-cases,
}
use lua_ext.Output.Write.{room_for, saturating_add}
use lua_ext.Output.Truncation.{kept, counted, dropped, kept-append, counted-append, dropped-append}

abbrev pub Log : Type 0
Log = List (Bool × ℕ)

unfoldable pub tagged : Bool → List ℕ → Log
tagged b [] = []
tagged b (c ∷ cs) = (b, c) ∷ tagged b cs

-- The bytes that were let in.
unfoldable pub stored : Log → List ℕ
stored [] = []
stored ((true, c) ∷ cs) = c ∷ stored cs
stored ((false, c) ∷ cs) = stored cs

unfoldable pub has_lost : Log → Bool
has_lost [] = false
has_lost ((true, c) ∷ cs) = has_lost cs
has_lost ((false, c) ∷ cs) = true

pub length-tagged : (b : Bool) (text : List ℕ) → length (tagged b text) ≡ length text
unfolding tagged
length-tagged b [] = refl
length-tagged b (c ∷ cs) = ap suc (length-tagged b cs)

take-tagged : (b : Bool) (n : ℕ) (text : List ℕ) → take n (tagged b text) ≡ tagged b (take n text)
unfolding tagged
take-tagged b zero text = refl
take-tagged b (suc n) [] = refl
take-tagged b (suc n) (c ∷ cs) = ap (λ (t : Log). (b, c) ∷ t) (take-tagged b n cs)

stored-tagged : (text : List ℕ) → stored (tagged true text) ≡ text
unfolding tagged stored
stored-tagged [] = refl
stored-tagged (c ∷ cs) = ap (λ (t : List ℕ). c ∷ t) (stored-tagged cs)

stored_lost : (text : List ℕ) → stored (tagged false text) ≡ []
unfolding tagged stored
stored_lost [] = refl
stored_lost (c ∷ cs) = stored_lost cs

stored-append : (xs ys : Log) → stored (xs ++ ys) ≡ stored xs ++ stored ys
unfolding stored
stored-append [] ys = refl
stored-append ((true, c) ∷ xs) ys = ap (λ (t : List ℕ). c ∷ t) (stored-append xs ys)
stored-append ((false, c) ∷ xs) ys = stored-append xs ys

has_lost-tagged : (log : Log) (text : List ℕ) → has_lost (log ++ tagged true text) ≡ has_lost log
unfolding tagged has_lost
has_lost-tagged [] [] = refl
has_lost-tagged [] (c ∷ cs) = has_lost-tagged [] cs
has_lost-tagged ((true, c) ∷ log) text = has_lost-tagged log text
has_lost-tagged ((false, c) ∷ log) text = refl

pub has_lost_refused :
    (log : Log) (text : List ℕ) → length text ≢ 0 → has_lost (log ++ tagged false text) ≡ true
unfolding tagged has_lost
has_lost_refused [] [] n = absurd (n refl)
has_lost_refused [] (c ∷ cs) n = refl
has_lost_refused ((true, c) ∷ log) text n = has_lost_refused log text n
has_lost_refused ((false, c) ∷ log) text n = refl

-- What of a write, let in or not, the budget keeps.
kept-tagged :
    (limit : ℕ) (b : Bool) (log : Log) (text : List ℕ)
    → limit ≤ size_max
    → kept limit (log ++ tagged b text)
      ≡ kept limit log ++ tagged b (take (room_for limit (counted log) (length text)) text)
kept-tagged limit b log text w =
    kept-append limit log (tagged b text) w
    ∙ ap (λ (n : ℕ). kept limit log ++ take (room_for limit (counted log) n) (tagged b text))
        (length-tagged b text)
    ∙ ap (λ (t : Log). kept limit log ++ t) (take-tagged b _ text)

-- A write that is let in adds to what is held what the budget has room for.
pub stored-accepted :
    (limit : ℕ) (log : Log) (text : List ℕ)
    → limit ≤ size_max
    → stored (kept limit (log ++ tagged true text))
      ≡ stored (kept limit log) ++ take (room_for limit (counted log) (length text)) text
stored-accepted limit log text w =
    ap stored (kept-tagged limit true log text w)
    ∙ stored-append (kept limit log) _
    ∙ ap (λ (t : List ℕ). stored (kept limit log) ++ t) (stored-tagged _)

-- One that is not adds nothing.
pub stored-refused :
    (limit : ℕ) (log : Log) (text : List ℕ)
    → limit ≤ size_max
    → stored (kept limit (log ++ tagged false text)) ≡ stored (kept limit log)
stored-refused limit log text w =
    ap stored (kept-tagged limit false log text w)
    ∙ stored-append (kept limit log) _
    ∙ ap (λ (t : List ℕ). stored (kept limit log) ++ t) (stored_lost _)
    ∙ append-nil _

pub counted-tagged :
    (b : Bool) (log : Log) (text : List ℕ)
    → saturating_add (counted log) (length text) ≡ counted (log ++ tagged b text)
counted-tagged b log text =
    ap (λ (n : ℕ). saturating_add (counted log) n) (sym (length-tagged b text))
    ∙ counted-append log (tagged b text)

-- The truncation flag: set before the log began, by the budget, or by a write that was not let in.
abbrev pub flagged : Bool → ℕ → Log → Bool
flagged before limit log = before || (dropped limit log || has_lost log)

or_swap : (a b c d : Bool) → ((a || (b || c)) || d) ≡ (a || ((b || d) || c))
or_swap true b c d = refl
or_swap false true c d = refl
or_swap false false true d = ground arith
or_swap false false false true = refl
or_swap false false false false = refl

pub flagged-accepted :
    (before : Bool) (limit : ℕ) (log : Log) (text : List ℕ)
    → limit ≤ size_max
    → (flagged before limit log || ltb (room_for limit (counted log) (length text)) (length text))
      ≡ flagged before limit (log ++ tagged true text)
flagged-accepted before limit log text w =
    or_swap before (dropped limit log) (has_lost log) _
    ∙ ap₂ {C = Bool} (λ (d : Bool) (l : Bool). before || (d || l)) grown
        (sym (has_lost-tagged log text))
  where
    grown :
        (dropped limit log || ltb (room_for limit (counted log) (length text)) (length text))
        ≡ dropped limit (log ++ tagged true text)
    grown =
        ap (λ (n : ℕ). dropped limit log || ltb (room_for limit (counted log) n) n)
          (sym (length-tagged true text))
        ∙ dropped-append limit log (tagged true text) w

or_true : (a b c : Bool) → c ≡ true → true ≡ (a || (b || c))
or_true true b c e = refl
or_true false true c e = refl
or_true false false c e = sym e

pub flagged-refused :
    (before : Bool) (limit : ℕ) (log : Log) (text : List ℕ)
    → length text ≢ 0
    → true ≡ flagged before limit (log ++ tagged false text)
flagged-refused before limit log text n = or_true before _ _ (has_lost_refused log text n)

take_nothing : {A : Type 0} (n : ℕ) → take {A = A} n [] ≡ []
take_nothing zero = refl
take_nothing (suc n) = refl

pub stored_nothing : (limit : ℕ) → [] ≡ stored (kept limit [])
unfolding stored
stored_nothing limit = elim (Bool-cases (limit == 0)) [
  | inl z ↦ rw z refl
  | inr z ↦ rw (z, take_nothing limit) refl
]

pub flagged_nothing : (before : Bool) (limit : ℕ) → before ≡ flagged before limit []
unfolding has_lost
flagged_nothing true limit = refl
flagged_nothing false limit = ground arith
