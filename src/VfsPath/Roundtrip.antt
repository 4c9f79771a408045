-- ===== src/VfsPath/Roundtrip.antt =====
-- Canonicalising a canonical path changes nothing.
use mathlib.Core.List.{reverse_aux, reverse-reverse}
use native.Mathlib.Decide.{ℕ_discrete}
use lua_ext.Base.{
  ℕ, suc, ◌+◌, ◌≤◌, ◌<◌, ◌≡◌, refl, sym, ◌∙◌, ap, false, List, [], ◌∷◌, ◌++◌, ◌==◌, reverse, length,
  arith, All, length-reverse,
}
use lua_ext.VfsPath.{
  Part, slash, done, walk, ok, visit, go_on, max_components, write_parts, has_nul, canonical,
  assemble, exceeds,
}
use lua_ext.VfsPath.Split.{split, resolve, walk-eq-resolve}
use lua_ext.VfsPath.Names.{IsName, IsClean}
use lua_ext.VfsPath.Canonical.{IsCanonical, Bounds, canonical-IsCanonical}

has_nul-append :
    (xs ys : List ℕ) → has_nul xs ≡ false → has_nul ys ≡ false → has_nul (xs ++ ys) ≡ false
unfolding has_nul
has_nul-append [] ys h k = k
has_nul-append (x ∷ xs) ys h k = ground (arith, has_nul-append xs ys)

has_nul_of_clean : (p : Part) → All IsClean p → has_nul p ≡ false
unfolding has_nul
has_nul_of_clean [] h = refl
has_nul_of_clean (c ∷ cs) h = ground (arith, has_nul_of_clean cs h.1, h.0.1)

has_nul-write_parts : (ps : List Part) → All IsName ps → has_nul (write_parts ps) ≡ false
unfolding write_parts has_nul
has_nul-write_parts [] h = refl
has_nul-write_parts (p ∷ ps) h =
    has_nul-append p (write_parts ps) (has_nul_of_clean p h.0.clean) (has_nul-write_parts ps h.1)

clean-ne-slash : (b : ℕ) → IsClean b → (b == slash) ≡ false
clean-ne-slash b c = ground (arith, c.0)

split-piece :
    (ps : List Part) (p : Part)
    → All IsName ps
    → All IsClean p
    → split (p ++ write_parts ps) ≡ p ∷ ps
unfolding split write_parts
split-piece [] [] h c = refl
split-piece (q ∷ qs) [] h c = rw (split-piece qs q h.1 h.0.clean)
split-piece ps (b ∷ bs) h c = rw (clean-ne-slash b c.0, split-piece ps bs h c.1)

-- A name is pushed, while there is room for one more.
visit-name :
    (p : Part) (parts : List Part)
    → IsName p
    → length parts < max_components
    → visit p parts ≡ go_on (p ∷ parts)
unfolding visit
visit-name [] parts n h = absurd (omega (arith, n.nonempty))
visit-name (a ∷ []) parts n h = ground (arith, n.named)
visit-name (a ∷ b ∷ []) parts n h = ground (arith, n.named)
visit-name (a ∷ b ∷ c ∷ cs) parts n h = ground (arith, n.named)

resolve-names :
    (ps parts : List Part)
    → All IsName ps
    → length ps + length parts ≤ max_components
    → resolve ps parts ≡ done (reverse_aux ps parts)
unfolding resolve
resolve-names [] parts n h = refl
resolve-names ([] ∷ ps) parts n h = absurd (omega (arith, n.0.nonempty))
resolve-names ((c ∷ cs) ∷ ps) parts n h =
    rw (visit-name (c ∷ cs) parts n.0 (omega arith), resolve)
      (resolve-names ps ((c ∷ cs) ∷ parts) n.1 (omega arith))

split-write_parts :
    (ps : List Part) → All IsName ps → 0 < length ps → split (write_parts ps) ≡ [] ∷ ps
unfolding split write_parts
split-write_parts [] n h = absurd (omega arith)
split-write_parts (p ∷ ps) n h = rw (split-piece ps p n.1 n.0.clean)

walk-write_parts :
    (ps : List Part)
    → All IsName ps
    → 0 < length ps
    → length ps ≤ max_components
    → walk (suc (length (write_parts ps))) (write_parts ps) [] ≡ done (reverse ps)
unfolding resolve
walk-write_parts ps n h c =
    walk-eq-resolve _ (write_parts ps) [] (omega arith)
    ∙ rw (split-write_parts ps n h, resolve) (resolve-names ps [] n (omega arith))

exceeds-false : (max n : ℕ) → Bounds max n → exceeds n max ≡ false
exceeds-false max n b = elim (ℕ_discrete max 0) [
  | yes e ↦ ground arith
  | no ne ↦ ground (arith, b ne)
]

assemble-reverse :
    (ml md : ℕ) (ps : List Part)
    → 0 < length ps
    → Bounds md (length ps)
    → Bounds ml (length (write_parts ps))
    → assemble ml md (reverse ps) ≡ ok (write_parts ps)
unfolding assemble
assemble-reverse ml md ps h d l =
    rw (reverse-reverse ps, length-reverse ps)
      (ground (arith, exceeds-false md (length ps) d, exceeds-false ml (length (write_parts ps)) l))

canonical-write_parts :
    (ps : List Part) (os ml md : ℕ)
    → All IsName ps
    → 0 < length ps
    → length ps ≤ max_components
    → Bounds md (length ps)
    → Bounds ml (length (write_parts ps))
    → length (write_parts ps) + 2 ≤ os
    → canonical (write_parts ps) os ml md ≡ ok (write_parts ps)
unfolding canonical
canonical-write_parts ps os ml md n p c d l h =
    rw
      (
        walk-write_parts ps n p c,
        exceeds-false ml (length (write_parts ps)) l,
        has_nul-write_parts ps n,
        assemble-reverse ml md ps p d l,
      )
      (ground arith)

-- A path in canonical form within the quotas is answered as it is, given a buffer two bytes longer
-- than it.
canonical-eq_self :
    (out : List ℕ) (out_size max_length max_depth : ℕ)
    → IsCanonical max_length max_depth out
    → length out + 2 ≤ out_size
    → canonical out out_size max_length max_depth ≡ ok out
canonical-eq_self out os ml md c h =
    ap (λ (o : List ℕ). canonical o os ml md) c.written
    ∙ canonical-write_parts c.parts os ml md c.names c.some_part c.count c.depth
        (λ n. omega (arith, ap length c.written, c.size n)) (omega (arith, ap length c.written))
    ∙ ap ok (sym c.written)

-- Canonicalising is idempotent: the path that an input was answered by is answered by itself under
-- the same quotas, given a buffer two bytes longer than it.
pub canonical_idempotent :
    (input : List ℕ) (out_size again max_length max_depth : ℕ) (out : List ℕ)
    → canonical input out_size max_length max_depth ≡ ok out
    → length out + 2 ≤ again
    → canonical out again max_length max_depth ≡ ok out
canonical_idempotent input os again ml md out e h =
    canonical-eq_self out again ml md (canonical-IsCanonical input os ml md out e) h
