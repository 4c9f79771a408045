-- ===== src/Output/Truncation.antt =====
-- Buffer mode: what is kept of a run of writes, and what the truncation flag says.
use native.Mathlib.Decide.{dec_le}
use lua_ext.Base.{
  ℕ, zero, suc, ◌-◌, ◌≤◌, ◌≡◌, ◌≢◌, refl, sym, ◌∙◌, ap, Bool, true, not, ◌&&◌, ◌||◌, List, [], ◌∷◌,
  ◌++◌, length, length-append, take, min, size_max, arith, inl, inr, Bool-cases, ltb, ◌==◌,
  if◌then◌else◌,
}
use lua_ext.Output.Write.{room_for, saturating_add}

-- What a budget of `limit` bytes keeps of all that was written; 0 is no limit.
abbrev pub kept : {A : Type 0} → ℕ → List A → List A
kept limit all = if limit == 0 then all else take limit all

-- The saturating count of what was written.
abbrev pub counted : {A : Type 0} → List A → ℕ
counted all = if ltb size_max (length all) then size_max else length all

-- Whether anything was dropped.
abbrev pub dropped : {A : Type 0} → ℕ → List A → Bool
dropped limit all = not (limit == 0) && ltb limit (length all)

take-append :
    {A : Type 0} (n : ℕ) (xs ys : List A) → take n (xs ++ ys) ≡ take n xs ++ take (n - length xs) ys
take-append {A} zero xs ys =
    let e : zero ≡ zero - length xs = omega arith in ap (λ (k : ℕ). take k ys) e
take-append {A} (suc n) [] ys =
    let e : suc n ≡ suc n - 0 = omega arith in ap (λ (k : ℕ). take k ys) e
take-append {A} (suc n) (x ∷ xs) ys =
    let e : n - length xs ≡ suc n - suc (length xs) = omega arith in
    ap (λ (t : List A). x ∷ t) (take-append n xs ys ∙ ap (λ (k : ℕ). take n xs ++ take k ys) e)

take_all : {A : Type 0} (n : ℕ) (xs : List A) → length xs ≤ n → take n xs ≡ xs
take_all {A} zero [] h = refl
take_all {A} zero (x ∷ xs) h = absurd (omega arith)
take_all {A} (suc n) [] h = refl
take_all {A} (suc n) (x ∷ xs) h = ap (λ (t : List A). x ∷ t) (take_all n xs (omega arith))

take-min : {A : Type 0} (n : ℕ) (xs : List A) → take (min n (length xs)) xs ≡ take n xs
take-min {A} n xs = elim (dec_le n (length xs)) [
  | yes l ↦ ap (λ (k : ℕ). take k xs) (omega arith)
  | no l ↦ take_all (min n (length xs)) xs (omega arith) ∙ sym (take_all n xs (omega arith))
]

room_for-min :
    {A : Type 0} (limit : ℕ) (all text : List A)
    → limit ≢ 0
    → limit ≤ size_max
    → room_for limit (counted all) (length text) ≡ min (limit - length all) (length text)
unfolding room_for
room_for-min limit all text n w = ground arith

room_for_unlimited : (limit written n : ℕ) → (limit == 0) ≡ true → room_for limit written n ≡ n
unfolding room_for
room_for_unlimited limit written n z = rw z

-- What a write adds to what was kept is what `room_for` lets in of it.
pub kept-append :
    {A : Type 0} (limit : ℕ) (all text : List A)
    → limit ≤ size_max
    → kept limit (all ++ text)
      ≡ kept limit all ++ take (room_for limit (counted all) (length text)) text
kept-append {A} limit all text w = elim (Bool-cases (limit == 0)) [
  | inl z ↦
      rw (z, room_for_unlimited limit (counted all) (length text) z)
        (ap (λ (t : List A). all ++ t) (sym (take_all (length text) text (omega arith))))
  | inr z ↦
      rw (z, room_for-min limit all text (ground arith) w)
        (take-append limit all text
          ∙ ap (λ (t : List A). take limit all ++ t) (sym (take-min (limit - length all) text)))
]

pub counted-append :
    {A : Type 0} (all text : List A)
    → saturating_add (counted all) (length text) ≡ counted (all ++ text)
counted-append all text = ground (arith, length-append all text)

pub dropped-append :
    {A : Type 0} (limit : ℕ) (all text : List A)
    → limit ≤ size_max
    → (dropped limit all || ltb (room_for limit (counted all) (length text)) (length text))
      ≡ dropped limit (all ++ text)
unfolding room_for
dropped-append limit all text w = ground (arith, length-append all text)
