-- ===== src/VfsPath/Tests.antt =====
-- src/luaext_vfs_path.c run on a few paths.
use lua_ext.Base.{ℕ, ◌+◌, ◌≤◌, ◌≡◌, refl, none, some, List, [], ◌∷◌, arith, length, reverse}
use lua_ext.VfsPath.{
  Part, walk, ok, refused, escape, component, canonical, write_parts, has_nul, skip_slashes,
  take_part, visit, assemble,
}
use lua_ext.VfsPath.Split.{split, resolve, walk-eq-resolve}
use lua_ext.VfsPath.Canonical.{IsCanonical, canonical-IsCanonical, canonical_in_bounds}
use lua_ext.VfsPath.Roundtrip.{canonical_idempotent}
use lua_ext.VfsPath.Meaning.{follow, canonical_follows}

-- a//./b/../c
winding : List ℕ
winding = b'a' ∷ b'/' ∷ b'/' ∷ b'.' ∷ b'/' ∷ b'b' ∷ b'/' ∷ b'.' ∷ b'.' ∷ b'/' ∷ b'c' ∷ []

-- /a/c
straight : List ℕ
straight = b'/' ∷ b'a' ∷ b'/' ∷ b'c' ∷ []

-- a/../..
climbing : List ℕ
climbing = b'a' ∷ b'/' ∷ b'.' ∷ b'.' ∷ b'/' ∷ b'.' ∷ b'.' ∷ []

winding-canonical : canonical winding 64 32 8 ≡ ok straight
unfolding winding straight canonical walk has_nul skip_slashes take_part visit assemble write_parts
winding-canonical = refl

climbing-canonical : canonical climbing 64 32 8 ≡ refused escape
unfolding climbing canonical walk has_nul skip_slashes take_part visit
climbing-canonical = refl

ellipsis-canonical : canonical (b'a' ∷ b'/' ∷ b'.' ∷ b'.' ∷ b'.' ∷ []) 64 32 8 ≡ refused component
unfolding canonical walk has_nul skip_slashes take_part visit
ellipsis-canonical = refl

walk-eq-resolve_example : walk 12 winding [] ≡ resolve (split winding) []
unfolding winding
walk-eq-resolve_example = walk-eq-resolve 12 winding [] (omega arith)

canonical-IsCanonical_example : IsCanonical 32 8 straight
canonical-IsCanonical_example = canonical-IsCanonical winding 64 32 8 straight winding-canonical

canonical_in_bounds_example : (length straight ≤ length winding + 1) × (length straight + 1 ≤ 64)
canonical_in_bounds_example = canonical_in_bounds winding 64 32 8 straight winding-canonical

canonical_idempotent_example : canonical straight 6 32 8 ≡ ok straight
unfolding straight
canonical_idempotent_example =
    canonical_idempotent winding 64 6 32 8 straight winding-canonical (omega arith)

canonical_follows_example :
    ((out : List ℕ)
      → canonical winding 64 32 8 ≡ ok out
      → (here : List Part) × (follow (split winding) [] ≡ some here)
        × (out ≡ write_parts (reverse here)))
    × (canonical winding 64 32 8 ≡ refused escape → follow (split winding) [] ≡ none)
canonical_follows_example = canonical_follows winding 64 32 8
