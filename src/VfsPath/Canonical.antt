-- ===== src/VfsPath/Canonical.antt =====
-- What `luaext_vfs_path_canonical` promises of an accepted path.
use lua_ext.Base.{
  ℕ, suc, ◌+◌, ◌≤◌, ◌<◌, ◌≡◌, ◌≢◌, refl, sym, ◌∙◌, ap, false, List, [], ◌∷◌, reverse, length, arith,
  inl, inr, All, All-reverse, length-reverse,
}
use lua_ext.VfsPath.{
  Part, Walk, done, failed, no_fuel, walk, ok, out_of_fuel, max_components, write_parts, has_nul,
  canonical, assemble, finish, visit,
}
use lua_ext.VfsPath.Split.{split, resolve, walk-eq-resolve, Visit-cases}
use lua_ext.VfsPath.Names.{
  IsName, IsKept, room, split-IsClean, room-split, resolve-IsKept, length-write_parts, room-reverse,
}

-- `max` bounds `n`, where 0 is no bound.
abbrev pub Bounds : ℕ → ℕ → Type 0
Bounds max n = max ≢ 0 → n ≤ max

-- A path in canonical form within its quotas: a separator and a name, once or more.
pub record IsCanonical (max_length max_depth : ℕ) (out : List ℕ) : Type 0 where
  pub parts : List Part
  pub written : out ≡ write_parts parts
  pub names : All IsName parts
  pub some_part : 0 < length parts
  pub count : length parts ≤ max_components
  pub depth : Bounds max_depth (length parts)
  pub size : Bounds max_length (length out)

-- What the code has found when it accepts.
pub record Accepts (input : List ℕ) (out_size max_length max_depth : ℕ) (out : List ℕ)
    : Type 0 where
  pub kept : List Part
  pub walked : walk (suc (length input)) input [] ≡ done kept
  pub no_nul : has_nul input ≡ false
  pub fits : length input + 2 ≤ out_size
  pub assembled : assemble max_length max_depth kept ≡ ok out

finish-ok :
    (max_length max_depth : ℕ) (w : Walk) (out : List ℕ)
    → finish max_length max_depth w ≡ ok out
    → (kept : List Part) × (w ≡ done kept) × (assemble max_length max_depth kept ≡ ok out)
finish-ok ml md (done kept) out e = (kept, refl, e)
finish-ok ml md (failed r) out e = cc
finish-ok ml md no_fuel out e = cc

pub canonical-Accepts :
    (input : List ℕ) (os ml md : ℕ) (out : List ℕ)
    → canonical input os ml md ≡ ok out
    → Accepts input os ml md out
unfolding canonical
canonical-Accepts input os ml md out e =
    let (kept, w, a) = finish-ok ml md (walk (suc (length input)) input []) out (ground arith) in
    record { kept = kept; walked = w; no_nul = ground arith; fits = ground arith; assembled = a }

pub assemble-ok :
    (ml md : ℕ) (kept : List Part) (out : List ℕ)
    → assemble ml md kept ≡ ok out
    → (out ≡ write_parts (reverse kept))
      × (0 < length kept)
      × Bounds md (length kept)
      × Bounds ml (length out)
unfolding assemble
assemble-ok ml md kept out e = (ground arith, ground arith, λ n. ground arith, λ n. ground arith)

abbrev start-IsKept : IsKept 0 []
start-IsKept = record { names = tt; count = omega arith; fits = omega arith }

Accepts-IsKept :
    {input : List ℕ} {os ml md : ℕ} {out : List ℕ}
    → (a : Accepts input os ml md out) → IsKept (suc (length input)) a.kept
Accepts-IsKept {input} a =
    let k =
      resolve-IsKept 0 (split input) [] a.kept (split-IsClean input a.no_nul) start-IsKept
        (sym (walk-eq-resolve (suc (length input)) input [] (omega arith)) ∙ a.walked) in
    record { names = k.names; count = k.count; fits = omega (arith, k.fits, room-split input) }

-- A path that canonicalisation accepts is a separator and a name, once or more: no name is empty,
-- made of dots only, or has a separator or a NUL in it, and the number of names and the length are
-- within the quotas.
pub canonical-IsCanonical :
    (input : List ℕ) (out_size max_length max_depth : ℕ) (out : List ℕ)
    → canonical input out_size max_length max_depth ≡ ok out
    → IsCanonical max_length max_depth out
canonical-IsCanonical input os ml md out e =
    let a = canonical-Accepts input os ml md out e in
    let k = Accepts-IsKept a in
    let (w, p, d, s) = assemble-ok ml md a.kept out a.assembled in
    record {
      parts = reverse a.kept;
      written = w;
      names = All-reverse IsName a.kept k.names;
      some_part = omega (arith, length-reverse a.kept);
      count = omega (arith, length-reverse a.kept, k.count);
      depth = λ n. omega (arith, length-reverse a.kept, d n);
      size = s;
    }

-- A path that is accepted is at most one byte longer than the input, and with its terminator it
-- fits in the output buffer.
pub canonical_in_bounds :
    (input : List ℕ) (out_size max_length max_depth : ℕ) (out : List ℕ)
    → canonical input out_size max_length max_depth ≡ ok out
    → (length out ≤ length input + 1) × (length out + 1 ≤ out_size)
canonical_in_bounds input os ml md out e =
    let a = canonical-Accepts input os ml md out e in
    let k = Accepts-IsKept a in
    let (w, p, d, s) = assemble-ok ml md a.kept out a.assembled in
    let l : length out ≡ room a.kept =
      ap length w ∙ length-write_parts (reverse a.kept) ∙ room-reverse a.kept in
    (omega (arith, l, k.fits), omega (arith, l, k.fits, a.fits))

resolve-ends : (ps parts : List Part) → resolve ps parts ≢ no_fuel
unfolding resolve
resolve-ends [] parts = λ e. cc
resolve-ends ([] ∷ ps) parts = resolve-ends ps parts
resolve-ends ((c ∷ cs) ∷ ps) parts = elim (Visit-cases (visit (c ∷ cs) parts)) [
  | inl (r, e) ↦ rw (e, resolve) (λ h. cc)
  | inr (qs, e) ↦ rw (e, resolve) (resolve-ends ps qs)
]

assemble-ends : (ml md : ℕ) (kept : List Part) → assemble ml md kept ≢ out_of_fuel
unfolding assemble
assemble-ends ml md kept e = ground arith

finish-ends : (ml md : ℕ) (w : Walk) → w ≢ no_fuel → finish ml md w ≢ out_of_fuel
finish-ends ml md (done kept) n = assemble-ends ml md kept
finish-ends ml md (failed r) n = λ e. cc
finish-ends ml md no_fuel n = absurd (n refl)

walk-ends : (input : List ℕ) → walk (suc (length input)) input [] ≢ no_fuel
walk-ends input =
    rw (walk-eq-resolve (suc (length input)) input [] (omega arith)) (resolve-ends _ [])

-- The walk over the components ends for every input, buffer and quota: the answer is a path or a
-- refusal.
pub canonical_ends :
    (input : List ℕ) (out_size max_length max_depth : ℕ)
    → canonical input out_size max_length max_depth ≢ out_of_fuel
unfolding canonical
canonical_ends input os ml md e = ground (arith, finish-ends ml md _ (walk-ends input))
