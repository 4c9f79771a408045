-- ===== src/VfsPath/Names.antt =====
-- What the walk of src/luaext_vfs_path.c lets through: the names of components, and how much room
-- they take.
use lua_ext.Base.{
  ℕ, suc, ◌+◌, ◌≤◌, ◌<◌, ◌≡◌, ◌≢◌, refl, false, List, [], ◌∷◌, ◌++◌, ◌==◌, reverse, length,
  length-append, arith, inl, inr, Bool-cases, All,
}
use mathlib.Core.List.{reverse-cons}
use lua_ext.VfsPath.{
  Part, slash, Visit, go_on, stop, visit, Walk, done, failed, only_dots, pop_part, max_components,
  write_parts, has_nul,
}
use lua_ext.VfsPath.Split.{split, push_byte, resolve}

-- A byte that may stand in a component.
abbrev pub IsClean : ℕ → Type 0
IsClean c = (c ≢ slash) × (c ≢ 0)

-- A component that may stand in a canonical path: not empty, no separator or NUL in it, and not
-- made of dots alone.
pub record IsName (p : Part) : Type 0 where
  pub nonempty : 0 < length p
  pub clean : All IsClean p
  pub named : only_dots p ≡ false

-- The bytes of the components, with one separator for each.
abbrev pub room : List Part → ℕ
room [] = 0
room (p ∷ ps) = suc (length p) + room ps

push_byte-IsClean :
    (c : ℕ) (ps : List Part) → IsClean c → All (All IsClean) ps → All (All IsClean) (push_byte c ps)
push_byte-IsClean c [] h hs = ((h, tt), tt)
push_byte-IsClean c (p ∷ ps) h hs = ((h, hs.0), hs.1)

pub split-IsClean : (xs : List ℕ) → has_nul xs ≡ false → All (All IsClean) (split xs)
unfolding split has_nul
split-IsClean [] h = (tt, tt)
split-IsClean (c ∷ cs) h = elim (Bool-cases (c == slash)) [
  | inl e ↦ rw e (tt, split-IsClean cs (ground arith))
  | inr e ↦ rw e (
      push_byte-IsClean c (split cs) (ground arith, ground arith) (split-IsClean cs (ground arith)))
]

push_byte-ne-nil : (c : ℕ) (ps : List Part) → push_byte c ps ≢ []
push_byte-ne-nil c [] e = cc
push_byte-ne-nil c (p ∷ ps) e = cc

pub split-ne-nil : (xs : List ℕ) → split xs ≢ []
unfolding split
split-ne-nil [] = λ e. cc
split-ne-nil (c ∷ cs) = elim (Bool-cases (c == slash)) [
  | inl b ↦ rw b (λ e. cc)
  | inr b ↦ rw b (push_byte-ne-nil c (split cs))
]

push_byte-room : (c : ℕ) (ps : List Part) → ps ≢ [] → room (push_byte c ps) ≡ suc (room ps)
push_byte-room c [] n = absurd (n refl)
push_byte-room c (p ∷ ps) n = omega arith

pub room-split : (xs : List ℕ) → room (split xs) ≡ suc (length xs)
unfolding split
room-split [] = refl
room-split (c ∷ cs) = elim (Bool-cases (c == slash)) [
  | inl e ↦ rw e (omega (arith, room-split cs))
  | inr e ↦ rw e (omega (arith, room-split cs, push_byte-room c (split cs) (split-ne-nil cs)))
]

-- The components that have survived so far, and the room that they take.
pub record IsKept (k : ℕ) (parts : List Part) : Type 0 where
  pub names : All IsName parts
  pub count : length parts ≤ max_components
  pub fits : room parts ≤ k

pop_part-IsKept :
    (k : ℕ) (parts qs : List Part) → IsKept k parts → pop_part parts ≡ go_on qs → IsKept k qs
pop_part-IsKept k [] qs h e = cc
pop_part-IsKept k (p ∷ ps) qs h e = ground arith

visit-IsKept :
    (k : ℕ) (part : Part) (parts qs : List Part)
    → 0 < length part
    → All IsClean part
    → IsKept k parts
    → visit part parts ≡ go_on qs
    → IsKept (suc (length part) + k) qs
unfolding visit
visit-IsKept k part parts qs pn c h e = ground (arith, pop_part-IsKept k parts qs h)

IsKept_mono : {j k : ℕ} {parts : List Part} → j ≤ k → IsKept j parts → IsKept k parts
IsKept_mono l h = record { names = h.names; count = h.count; fits = omega arith }

-- A walk that goes on behind a component went on from it.
pub resolve_go :
    (v : Visit) (ps qs : List Part)
    → ◌≡◌ {A = Walk} (elim v [ stop r ↦ failed r | go_on rs ↦ resolve ps rs ]) (done qs)
    → (rs : List Part) × (v ≡ go_on rs) × (resolve ps rs ≡ done qs)
resolve_go (stop r) ps qs e = cc
resolve_go (go_on rs) ps qs e = (rs, refl, e)

pub resolve-IsKept :
    (k : ℕ) (ps parts qs : List Part)
    → All (All IsClean) ps
    → IsKept k parts
    → resolve ps parts ≡ done qs
    → IsKept (room ps + k) qs
unfolding resolve
resolve-IsKept k [] parts qs c h e = ground arith
resolve-IsKept k ([] ∷ ps) parts qs c h e =
    IsKept_mono (omega arith) (resolve-IsKept k ps parts qs c.1 h e)
resolve-IsKept k ((b ∷ bs) ∷ ps) parts qs c h e =
    let (rs, e1, e2) = resolve_go (visit (b ∷ bs) parts) ps qs e in
    IsKept_mono (omega arith) (
      resolve-IsKept (suc (length (b ∷ bs)) + k) ps rs qs c.1
        (visit-IsKept k (b ∷ bs) parts rs (omega arith) c.0 h e1) e2)

pub length-write_parts : (ps : List Part) → length (write_parts ps) ≡ room ps
unfolding write_parts
length-write_parts [] = refl
length-write_parts (p ∷ ps) = omega (arith, length-append p (write_parts ps), length-write_parts ps)

room-append : (ps qs : List Part) → room (ps ++ qs) ≡ room ps + room qs
room-append [] qs = omega arith
room-append (p ∷ ps) qs = omega (arith, room-append ps qs)

pub room-reverse : (ps : List Part) → room (reverse ps) ≡ room ps
room-reverse [] = refl
room-reverse (p ∷ ps) =
    rw (reverse-cons p ps) (omega (arith, room-append (reverse ps) (p ∷ []), room-reverse ps))
