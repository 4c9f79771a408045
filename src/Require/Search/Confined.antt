-- ===== src/Require/Search/Confined.antt =====
-- Where the paths of a search lie: under the directory that a pattern names before its first mark.
use mathlib.Core.List.{append_assoc, append-nil, reverse-append}
use lua_ext.Base.{
  ℕ, suc, ◌≡◌, ◌≢◌, refl, sym, ap, ◌∙◌, Bool, true, false, not, ◌&&◌, ◌||◌, Bool-cases, Option,
  none, some, List, [], ◌∷◌, ◌++◌, map, reverse, ltb, ◌==◌, length, if◌then◌else◌, arith, inl, inr,
  All,
}
use lua_ext.VfsPath.{
  Part, slash, dot, is_dot, is_dot_dot, only_dots, visit, go_on, Walk, done, failed, no_fuel,
  write_parts, canonical, ok,
}
use lua_ext.VfsPath.Split.{split, push_byte, resolve, walk-eq-resolve, Visit-cases}
use lua_ext.VfsPath.Names.{split-ne-nil}
use lua_ext.VfsPath.Canonical.{canonical-Accepts, assemble-ok}
use lua_ext.Vfs.{Bytes}
use lua_ext.Require.{Name, name_ok, name_bytes_ok}
use lua_ext.Require.Search.{mark, substitute, expand}

abbrev has_mark : Part → Bool
has_mark [] = false
has_mark (c ∷ cs) = c == mark || has_mark cs

-- A byte that is neither a dot nor a mark.
abbrev has_other : Part → Bool
has_other [] = false
has_other (c ∷ cs) = not (c == dot || c == mark) || has_other cs

-- A piece that no module name makes a `..` of: of one byte at most, or with a byte of its own.
abbrev is_steady : Part → Bool
is_steady p = ltb (length p) 2 || has_other p

abbrev all_steady : List Part → Bool
all_steady [] = true
all_steady (p ∷ ps) = is_steady p && all_steady ps

-- The pieces in front of the first with a mark, and that one with the rest.
abbrev fixed_parts : List Part → List Part
fixed_parts [] = []
fixed_parts (p ∷ ps) = if has_mark p then [] else p ∷ fixed_parts ps

abbrev open_parts : List Part → List Part
open_parts [] = []
open_parts (p ∷ ps) = if has_mark p then p ∷ ps else open_parts ps

abbrev directory_of : Walk → Option Bytes
directory_of (done parts) = some (write_parts (reverse parts))
directory_of (failed r) = none
directory_of no_fuel = none

-- The directory that a pattern names in front of its marks, without a separator at the end.
abbrev pub directory : Bytes → Option Bytes
directory pattern = directory_of (resolve (fixed_parts (split pattern)) [])

-- A pattern whose pieces with marks, and those behind them, cannot become `..`.
abbrev pub is_sound : Bytes → Bool
is_sound pattern = all_steady (open_parts (split pattern))

abbrev push_all : Name → List Part → List Part
push_all [] ps = ps
push_all (c ∷ cs) ps = push_byte c (push_all cs ps)

abbrev HasNoSlash : Name → Type 0
HasNoSlash = All (λ c. c ≢ slash)

split-append : (name xs : Bytes) → HasNoSlash name → split (name ++ xs) ≡ push_all name (split xs)
unfolding split
split-append [] xs h = refl
split-append (c ∷ cs) xs h =
    let apart : (c == slash) ≡ false = ground (arith, h.0) in
    rw (apart, split-append cs xs h.1) refl

push_all-cons :
    (name : Name) (p : Part) (ps : List Part) → push_all name (p ∷ ps) ≡ (name ++ p) ∷ ps
push_all-cons [] p ps = refl
push_all-cons (c ∷ cs) p ps = rw (push_all-cons cs p ps) refl

map-push_byte :
    (name : Name) (c : ℕ) (ps : List Part)
    → (c == mark) ≡ false
    → map (substitute name) (push_byte c ps) ≡ push_byte c (map (substitute name) ps)
unfolding substitute
map-push_byte name c [] e = rw e refl
map-push_byte name c (p ∷ ps) e = rw e refl

map-push_mark :
    (name : Name) (ps : List Part)
    → ps ≢ []
    → map (substitute name) (push_byte mark ps) ≡ push_all name (map (substitute name) ps)
unfolding substitute
map-push_mark name [] n = absurd (n refl)
map-push_mark name (p ∷ ps) n =
    sym (push_all-cons name (substitute name p) (map (substitute name) ps))

-- The pieces of an expansion are the expansions of the pieces.
split-substitute :
    (name pattern : Bytes)
    → HasNoSlash name
    → split (substitute name pattern) ≡ map (substitute name) (split pattern)
unfolding substitute split
split-substitute name [] h = refl
split-substitute name (c ∷ cs) h = elim (Bool-cases (c == mark)) [
  | inl e ↦
      let q : c ≡ mark = ground (arith, e) in
      rw (q, split-append name (substitute name cs) h, split-substitute name cs h)
        (sym (map-push_mark name (split cs) (split-ne-nil cs)))
  | inr e ↦ rw e (elim (Bool-cases (c == slash)) [
    | inl s ↦ rw (s, split-substitute name cs h) refl
    | inr s ↦ rw (s, split-substitute name cs h) (sym (map-push_byte name c (split cs) e))
  ])
]

bytes_ok-HasNoSlash : (name : Name) → name_bytes_ok name ≡ true → HasNoSlash name
unfolding name_bytes_ok
bytes_ok-HasNoSlash [] e = tt
bytes_ok-HasNoSlash (c ∷ cs) e = (ground arith, bytes_ok-HasNoSlash cs (ground arith))

bytes_ok-is_dot_dot : (name : Name) → name_bytes_ok name ≡ true → is_dot_dot name ≡ false
unfolding name_bytes_ok is_dot_dot
bytes_ok-is_dot_dot [] e = refl
bytes_ok-is_dot_dot (a ∷ []) e = refl
bytes_ok-is_dot_dot (a ∷ b ∷ []) e = ground arith
bytes_ok-is_dot_dot (a ∷ b ∷ c ∷ cs) e = refl

name_ok-bytes_ok : (name : Name) → name_ok name ≡ true → name_bytes_ok name ≡ true
unfolding name_ok
name_ok-bytes_ok name e = ground arith

-- What a steady piece becomes.
only_dots-append : (xs ys : Bytes) → only_dots ys ≡ false → only_dots (xs ++ ys) ≡ false
unfolding only_dots
only_dots-append [] ys e = e
only_dots-append (x ∷ xs) ys e = ground (arith, only_dots-append xs ys e)

only_dots-other : (name p : Bytes) → has_other p ≡ true → only_dots (substitute name p) ≡ false
unfolding only_dots substitute
only_dots-other name [] e = cc
only_dots-other name (c ∷ cs) e = elim (Bool-cases (c == mark)) [
  | inl m ↦
      rw m
        (only_dots-append name (substitute name cs) (only_dots-other name cs (ground (arith, m))))
  | inr m ↦ rw m (ground (arith, only_dots-other name cs))
]

is_dot_dot-only_dots : (p : Part) → only_dots p ≡ false → is_dot_dot p ≡ false
unfolding only_dots is_dot_dot
is_dot_dot-only_dots [] e = refl
is_dot_dot-only_dots (a ∷ []) e = refl
is_dot_dot-only_dots (a ∷ b ∷ []) e = ground arith
is_dot_dot-only_dots (a ∷ b ∷ c ∷ cs) e = refl

is_dot_dot-substitute :
    (name : Name) (p : Part)
    → name_bytes_ok name ≡ true
    → is_steady p ≡ true
    → is_dot_dot (substitute name p) ≡ false
unfolding substitute is_dot_dot
is_dot_dot-substitute name [] n e = refl
is_dot_dot-substitute name (c ∷ []) n e = elim (Bool-cases (c == mark)) [
  | inl m ↦ rw (m, append-nil name) (bytes_ok-is_dot_dot name n)
  | inr m ↦ rw m refl
]
is_dot_dot-substitute name (c ∷ d ∷ cs) n e =
    is_dot_dot-only_dots _ (only_dots-other name (c ∷ d ∷ cs) (ground (arith, e)))

all_steady-is_dot_dot :
    (name : Name) (ps : List Part)
    → name_bytes_ok name ≡ true
    → all_steady ps ≡ true
    → All (λ p. is_dot_dot p ≡ false) (map (substitute name) ps)
all_steady-is_dot_dot name [] n e = tt
all_steady-is_dot_dot name (p ∷ ps) n e =
    (is_dot_dot-substitute name p n (ground arith), all_steady-is_dot_dot name ps n (ground arith))

substitute-fixed : (name : Name) (p : Part) → has_mark p ≡ false → substitute name p ≡ p
unfolding substitute
substitute-fixed name [] e = refl
substitute-fixed name (c ∷ cs) e =
    let other : (c == mark) ≡ false = ground arith in
    rw other (ap (λ (t : Bytes). c ∷ t) (substitute-fixed name cs (ground arith)))

-- The expanded pieces: those in front of the marks as they are.
map-substitute :
    (name : Name) (ps : List Part)
    → map (substitute name) ps ≡ fixed_parts ps ++ map (substitute name) (open_parts ps)
map-substitute name [] = refl
map-substitute name (p ∷ ps) = elim (Bool-cases (has_mark p)) [
  | inl m ↦ rw m refl
  | inr m ↦ rw (m, substitute-fixed name p m, map-substitute name ps) refl
]

visit-grows :
    (p : Part) (parts qs : List Part)
    → is_dot_dot p ≡ false
    → visit p parts ≡ go_on qs
    → (more : List Part) × (qs ≡ more ++ parts)
unfolding visit
visit-grows p parts qs down e = elim (Bool-cases (is_dot p)) [
  | inl d ↦ ([], ground (arith, e, d))
  | inr d ↦ (p ∷ [], ground (arith, e, d, down))
]

-- Pieces that stay down leave what was there.
resolve-grows :
    (ps parts kept : List Part)
    → All (λ p. is_dot_dot p ≡ false) ps
    → resolve ps parts ≡ done kept
    → (more : List Part) × (kept ≡ more ++ parts)
unfolding resolve
resolve-grows [] parts kept all e = ([], ground arith)
resolve-grows ([] ∷ ps) parts kept all e = resolve-grows ps parts kept all.1 e
resolve-grows ((c ∷ cs) ∷ ps) parts kept all e = elim (Visit-cases (visit (c ∷ cs) parts)) [
  | inl (r, v) ↦ absurd (ground (arith, v, e))
  | inr (qs, v) ↦
      let (m, q) = visit-grows (c ∷ cs) parts qs all.0 v in
      let (m', q') = resolve-grows ps qs kept all.1 (ground (arith, v, e)) in
      (m' ++ m, q' ∙ ap (λ (t : List Part). m' ++ t) q ∙ sym (append_assoc m' m parts))
]

resolve-append :
    (ps qs parts kept : List Part)
    → resolve (ps ++ qs) parts ≡ done kept
    → (mid : List Part) × (resolve ps parts ≡ done mid) × (resolve qs mid ≡ done kept)
unfolding resolve
resolve-append [] qs parts kept e = (parts, refl, e)
resolve-append ([] ∷ ps) qs parts kept e = resolve-append ps qs parts kept e
resolve-append ((c ∷ cs) ∷ ps) qs parts kept e = elim (Visit-cases (visit (c ∷ cs) parts)) [
  | inl (r, v) ↦ absurd (ground (arith, v, e))
  | inr (there, v) ↦
      let (mid, f, g) = resolve-append ps qs there kept (ground (arith, v, e)) in
      (mid, rw (resolve, v) f, g)
]

write_parts-append : (ps qs : List Part) → write_parts (ps ++ qs) ≡ write_parts ps ++ write_parts qs
unfolding write_parts
write_parts-append [] qs = refl
write_parts-append (p ∷ ps) qs =
    rw (write_parts-append ps qs)
      (ap (λ (t : Bytes). slash ∷ t) (sym (append_assoc p (write_parts ps) (write_parts qs))))

-- A path at the directory of a pattern or under it.
abbrev pub IsUnder : Bytes → Bytes → Type 0
IsUnder pattern path =
    (dir : Bytes) × (more : List Part) × (directory pattern ≡ some dir)
    × (path ≡ dir ++ write_parts more)

pub expand_confined :
    (name pattern input out : Bytes) (out_size max_length max_depth : ℕ)
    → name_ok name ≡ true
    → is_sound pattern ≡ true
    → expand pattern name ≡ some input
    → canonical input out_size max_length max_depth ≡ ok out
    → IsUnder pattern out
unfolding expand
expand_confined name pattern input out os ml md named sound expanded accepted =
    let bytes = name_ok-bytes_ok name named in
    let a = canonical-Accepts input os ml md out accepted in
    let (written, some_part, deep, long) = assemble-ok ml md a.kept out a.assembled in
    let same : substitute name pattern ≡ input = ground (arith, expanded) in
    let pieces : split input
        ≡ fixed_parts (split pattern) ++ map (substitute name) (open_parts (split pattern)) =
      ap split (sym same)
      ∙ split-substitute name pattern (bytes_ok-HasNoSlash name bytes)
      ∙ map-substitute name (split pattern) in
    let (here, inside, onward) = resolve-append (fixed_parts (split pattern)) _ [] a.kept (
      ap (λ (t : List Part). resolve t []) (sym pieces)
      ∙ sym (walk-eq-resolve (suc (length input)) input [] (omega arith))
      ∙ a.walked) in
    let (more, grown) =
      resolve-grows _ here a.kept
        (all_steady-is_dot_dot name (open_parts (split pattern)) bytes sound) onward in
    (
      write_parts (reverse here),
      reverse more,
      ap directory_of inside,
      written
          ∙ ap (λ (t : List Part). write_parts (reverse t)) grown
          ∙ ap write_parts (reverse-append more here)
          ∙ write_parts-append (reverse here) (reverse more),
    )
