-- ===== src/VfsPath/Split.antt =====
-- A reference for the walk of src/luaext_vfs_path.c: the input cut at every separator, and the
-- components visited in turn.
use lua_ext.Base.{
  ℕ, zero, suc, ◌≤◌, ◌<◌, ◌≡◌, ◌⊎◌, refl, sym, ◌∙◌, ap, false, List, [], ◌∷◌, ◌==◌, if◌then◌else◌,
  length, arith, inl, inr, Bool-cases,
}
use lua_ext.VfsPath.{
  Part, slash, Visit, go_on, stop, visit, Walk, done, failed, walk, skip_slashes, take_part,
  Refusal, resume, round,
}

abbrev pub push_byte : ℕ → List Part → List Part
push_byte c [] = (c ∷ []) ∷ []
push_byte c (p ∷ ps) = (c ∷ p) ∷ ps

-- The pieces between the separators, the empty ones included.
unfoldable pub split : List ℕ → List Part
split [] = [] ∷ []
split (c ∷ cs) = let rest = split cs in if c == slash then [] ∷ rest else push_byte c rest

-- The pieces visited in turn; empty ones say nothing.
unfoldable pub resolve : List Part → List Part → Walk
resolve [] parts = done parts
resolve ([] ∷ ps) parts = resolve ps parts
resolve ((c ∷ cs) ∷ ps) parts = elim (visit (c ∷ cs) parts) [
  | stop r ↦ failed r
  | go_on qs ↦ resolve ps qs
]

pub Visit-cases : (v : Visit) → ((r : Refusal) × (v ≡ stop r)) ⊎ ((qs : List Part) × (v ≡ go_on qs))
Visit-cases (stop r) = inl (r, refl)
Visit-cases (go_on qs) = inr (qs, refl)

resolve-skip :
    (rest : List ℕ) (parts : List Part)
    → resolve (split rest) parts ≡ resolve (split (skip_slashes rest)) parts
unfolding resolve split skip_slashes
resolve-skip [] parts = refl
resolve-skip (c ∷ cs) parts = elim (Bool-cases (c == slash)) [
  | inl e ↦ rw e (resolve-skip cs parts)
  | inr e ↦ rw (e, split, e) refl
]

-- The pieces behind the one that `take_part` takes.
abbrev behind : List ℕ → List Part
behind [] = []
behind (c ∷ cs) = split cs

split-take_part : (xs : List ℕ) → split xs ≡ (take_part xs).0 ∷ behind (take_part xs).1
unfolding split take_part
split-take_part [] = refl
split-take_part (c ∷ cs) = elim (Bool-cases (c == slash)) [
  | inl e ↦ rw e refl
  | inr e ↦ rw (e, split-take_part cs) refl
]

resolve-behind :
    (xs : List ℕ) (parts : List Part)
    → resolve (behind (take_part xs).1) parts ≡ resolve (split (take_part xs).1) parts
unfolding split take_part resolve
resolve-behind [] parts = refl
resolve-behind (c ∷ cs) parts = elim (Bool-cases (c == slash)) [
  | inl e ↦ rw (e, split, e) refl
  | inr e ↦ rw e (resolve-behind cs parts)
]

length-skip_slashes : (xs : List ℕ) → length (skip_slashes xs) ≤ length xs
unfolding skip_slashes
length-skip_slashes [] = omega arith
length-skip_slashes (c ∷ cs) = ground (arith, length-skip_slashes cs)

length-take_part : (xs : List ℕ) → length (take_part xs).1 ≤ length xs
unfolding take_part
length-take_part [] = omega arith
length-take_part (c ∷ cs) = ground (arith, length-take_part cs)

head-skip_slashes :
    (xs : List ℕ) (c : ℕ) (cs : List ℕ) → skip_slashes xs ≡ c ∷ cs → (c == slash) ≡ false
unfolding skip_slashes
head-skip_slashes [] c cs e = cc
head-skip_slashes (x ∷ xs) c cs e = ground (arith, head-skip_slashes xs c cs)

take_part_head :
    (c : ℕ) (cs : List ℕ)
    → (c == slash) ≡ false
    → take_part (c ∷ cs) ≡ (c ∷ (take_part cs).0, (take_part cs).1)
unfolding take_part
take_part_head c cs e = rw e refl

-- The rest of the round, once the separators are skipped.
abbrev Walks : ℕ → Type 0
Walks fuel =
    (rest : List ℕ) (qs : List Part)
    → length rest < fuel
    → walk fuel rest qs ≡ resolve (split rest) qs

resume-resolve :
    (fuel : ℕ) (rest : List ℕ) (v : Visit)
    → Walks fuel
    → length rest < fuel
    → ((qs : List Part) → resolve (behind rest) qs ≡ resolve (split rest) qs)
    → resume (walk fuel) rest v ≡ elim v [ stop r ↦ failed r | go_on ps ↦ resolve (behind rest) ps ]
resume-resolve fuel rest (stop r) ih h b = refl
resume-resolve fuel rest (go_on ps) ih h b = ih rest ps h ∙ sym (b ps)

round-resolve :
    (fuel : ℕ) (s rest : List ℕ) (parts : List Part)
    → Walks fuel
    → length rest < suc fuel
    → skip_slashes rest ≡ s
    → round (walk fuel) s parts ≡ resolve (split s) parts
unfolding resolve split
round-resolve fuel [] rest parts ih h e = refl
round-resolve fuel (c ∷ cs) rest parts ih h e =
    let e' = head-skip_slashes rest c cs e in
    rw (split-take_part (c ∷ cs), take_part_head c cs e')
      (resume-resolve fuel (take_part cs).1 _ ih
        (omega (arith, length-take_part cs, ap {B = ℕ} length e, length-skip_slashes rest))
        (resolve-behind cs))

-- With more fuel than bytes, the loop over the input visits exactly the pieces of the input split
-- at its separators, one after the other, with the same outcome.
pub walk-eq-resolve :
    (fuel : ℕ) (rest : List ℕ) (parts : List Part)
    → length rest < fuel
    → walk fuel rest parts ≡ resolve (split rest) parts
unfolding walk
walk-eq-resolve zero rest parts h = absurd (omega arith)
walk-eq-resolve (suc fuel) rest parts h =
    rw (resolve-skip rest parts)
      (round-resolve fuel (skip_slashes rest) rest parts (walk-eq-resolve fuel) h refl)
