-- ===== src/VfsPath/Meaning.antt =====
-- Which component a path names, whatever its quotas: a reference in which `..` climbs.
use lua_ext.Base.{
  ℕ, suc, ◌≡◌, ◌≢◌, ◌⊎◌, refl, sym, ◌∙◌, Bool, true, false, ◌&&◌, List, [], ◌∷◌, ◌==◌, reverse,
  if◌then◌else◌, length, arith, inl, inr, Option, none, some,
}
use lua_ext.VfsPath.{
  Part, dot, Walk, done, failed, no_fuel, walk, Refusal, escape, ok, refused, visit, Visit, go_on,
  stop, pop_part, write_parts, canonical, assemble, finish, is_dot, is_dot_dot,
}
use lua_ext.VfsPath.Split.{split, resolve, walk-eq-resolve}
use lua_ext.VfsPath.Names.{resolve_go}
use lua_ext.VfsPath.Canonical.{canonical-Accepts, assemble-ok}

abbrev same : List ℕ → List ℕ → Bool
same [] [] = true
same [] (b ∷ bs) = false
same (a ∷ as') [] = false
same (a ∷ as') (b ∷ bs) = a == b && same as' bs

abbrev parent : List Part → Option (List Part)
parent [] = none
parent (p ∷ ps) = some ps

-- Where one piece of a path leads from the names `here`, the innermost first: an empty piece and
-- `.` stay, `..` climbs and falls off at the root, and any other piece descends.
move : Part → List Part → Option (List Part)
move [] here = some here
move (c ∷ cs) here =
    if same (c ∷ cs) (dot ∷ [])
    then some here
    else if same (c ∷ cs) (dot ∷ dot ∷ [])
    then parent here
    else some ((c ∷ cs) ∷ here)

pub follow : List Part → List Part → Option (List Part)
unfolding move
follow [] here = some here
follow (p ∷ ps) here = elim (move p here) [ none ↦ none | some there ↦ follow ps there ]

is_dot-same : (p : Part) → is_dot p ≡ same p (dot ∷ [])
unfolding is_dot
is_dot-same [] = refl
is_dot-same (a ∷ []) = ground arith
is_dot-same (a ∷ b ∷ cs) = ground arith

is_dot_dot-same : (p : Part) → is_dot_dot p ≡ same p (dot ∷ dot ∷ [])
unfolding is_dot_dot
is_dot_dot-same [] = refl
is_dot_dot-same (a ∷ []) = ground arith
is_dot_dot-same (a ∷ b ∷ []) = ground arith
is_dot_dot-same (a ∷ b ∷ c ∷ cs) = ground arith

pop_part-parent : (parts qs : List Part) → pop_part parts ≡ go_on qs → parent parts ≡ some qs
pop_part-parent [] qs e = cc
pop_part-parent (p ∷ ps) qs e = ground arith

pop_part-escape : (parts : List Part) → pop_part parts ≡ stop escape → parent parts ≡ none
pop_part-escape [] e = refl
pop_part-escape (p ∷ ps) e = cc

visit-move :
    (c : ℕ) (cs : List ℕ) (parts qs : List Part)
    → visit (c ∷ cs) parts ≡ go_on qs
    → move (c ∷ cs) parts ≡ some qs
unfolding visit move
visit-move c cs parts qs e =
    rw (← is_dot-same (c ∷ cs), ← is_dot_dot-same (c ∷ cs))
      (ground (arith, pop_part-parent parts qs))

visit-escape :
    (c : ℕ) (cs : List ℕ) (parts : List Part)
    → visit (c ∷ cs) parts ≡ stop escape
    → move (c ∷ cs) parts ≡ none
unfolding visit move
visit-escape c cs parts e =
    rw (← is_dot-same (c ∷ cs), ← is_dot_dot-same (c ∷ cs)) (ground (arith, pop_part-escape parts))

resolve-follow : (ps parts qs : List Part) → resolve ps parts ≡ done qs → follow ps parts ≡ some qs
unfolding resolve follow
resolve-follow [] parts qs e = ground arith
resolve-follow ([] ∷ ps) parts qs e = resolve-follow ps parts qs e
resolve-follow ((c ∷ cs) ∷ ps) parts qs e =
    let (rs, e1, e2) = resolve_go (visit (c ∷ cs) parts) ps qs e in
    rw (visit-move c cs parts rs e1, follow) (resolve-follow ps rs qs e2)

resolve_failed :
    (v : Visit) (ps : List Part) (r : Refusal)
    → ◌≡◌ {A = Walk} (elim v [ stop r ↦ failed r | go_on rs ↦ resolve ps rs ]) (failed r)
    → (v ≡ stop r) ⊎ ((rs : List Part) × (v ≡ go_on rs) × (resolve ps rs ≡ failed r))
resolve_failed (stop q) ps r e = inl (ground arith)
resolve_failed (go_on rs) ps r e = inr (rs, refl, e)

resolve-escape : (ps parts : List Part) → resolve ps parts ≡ failed escape → follow ps parts ≡ none
unfolding resolve follow
resolve-escape [] parts e = cc
resolve-escape ([] ∷ ps) parts e = resolve-escape ps parts e
resolve-escape ((c ∷ cs) ∷ ps) parts e = elim (resolve_failed (visit (c ∷ cs) parts) ps escape e) [
  | inl v ↦ rw (visit-escape c cs parts v, follow)
  | inr (rs, v, f) ↦ rw (visit-move c cs parts rs v, follow) (resolve-escape ps rs f)
]

assemble-ne-escape : (ml md : ℕ) (kept : List Part) → assemble ml md kept ≢ refused escape
unfolding assemble
assemble-ne-escape ml md kept e = ground arith

finish-escape : (ml md : ℕ) (w : Walk) → finish ml md w ≡ refused escape → w ≡ failed escape
finish-escape ml md (done kept) e = absurd (assemble-ne-escape ml md kept e)
finish-escape ml md (failed r) e = ground arith
finish-escape ml md no_fuel e = cc

canonical-escape :
    (input : List ℕ) (os ml md : ℕ)
    → canonical input os ml md ≡ refused escape
    → walk (suc (length input)) input [] ≡ failed escape
unfolding canonical
canonical-escape input os ml md e = finish-escape ml md _ (ground arith)

-- A path that canonicalisation accepts names what the pieces of the input lead to from the root,
-- step by step; an input refused as an escape is one whose pieces climb above the root.
pub canonical_follows :
    (input : List ℕ) (out_size max_length max_depth : ℕ)
    → ((out : List ℕ)
        → canonical input out_size max_length max_depth ≡ ok out
        → (here : List Part) × (follow (split input) [] ≡ some here)
          × (out ≡ write_parts (reverse here)))
      × (canonical input out_size max_length max_depth ≡ refused escape
          → follow (split input) [] ≡ none)
canonical_follows input os ml md = (accepted, escaped)
  where
    looped : walk (suc (length input)) input [] ≡ resolve (split input) []
    looped = walk-eq-resolve (suc (length input)) input [] (omega arith)

    accepted :
        (out : List ℕ)
        → canonical input os ml md ≡ ok out
        → (here : List Part) × (follow (split input) [] ≡ some here)
          × (out ≡ write_parts (reverse here))
    accepted out e =
        let a = canonical-Accepts input os ml md out e in
        (
          a.kept,
          resolve-follow (split input) [] a.kept (sym looped ∙ a.walked),
          (assemble-ok ml md a.kept out a.assembled).0,
        )

    escaped : canonical input os ml md ≡ refused escape → follow (split input) [] ≡ none
    escaped e = resolve-escape (split input) [] (sym looped ∙ canonical-escape input os ml md e)
