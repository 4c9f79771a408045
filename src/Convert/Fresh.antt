-- ===== src/Convert/Fresh.antt =====
-- An array of PHP to which a key that it has not is added.
use lua_ext.Base.{ℕ, ◌≤◌, ◌≡◌, inl, inr, refl, false, some, List, [], ◌∷◌, ◌++◌, arith, Bool-cases}
use lua_ext.Convert.{LuaValue, PhpKey, Zval, Elements, end, element, exists, update, Env, same_key}
use lua_ext.Convert.Mirror.{
  key_of, Mirrors, MirrorsAll, IsDistinct, AreDistinct, levels, levels_below, same_key→eq,
  same_key_refl,
}

pub same_key_sym : (k j : PhpKey) → same_key k j ≡ false → same_key j k ≡ false
same_key_sym k j e = elim (Bool-cases (same_key j k)) [
  | inl same ↦ absurd (ground (arith, same_key→eq j k same, same_key_refl k, same_key_refl j))
  | inr other ↦ other
]

-- `k` is new to `element j z es` where it is new to both.
pub exists-element :
    (k j : PhpKey) (z : Zval) (es : Elements)
    → exists k (element j z es) ≡ false
    → (same_key k j ≡ false) × (exists k es ≡ false)
unfolding exists
exists-element k j z es e = ground arith

-- A key that is new goes to the end.
pub update-element :
    (k j : PhpKey) (z y : Zval) (es : Elements)
    → same_key k j ≡ false
    → update k z (element j y es) ≡ element j y (update k z es)
unfolding update
update-element k j z y es e = ground arith

pub exists-update :
    (k j : PhpKey) (z : Zval) (es : Elements)
    → same_key j k ≡ false
    → exists j es ≡ false
    → exists j (update k z es) ≡ false
unfolding exists update
exists-update k j z end e h = rw e refl
exists-update k j z (element i y es) e h =
    let parts = exists-element j i y es h in
    ground (arith, parts.0, parts.1, exists-update k j z es e parts.1)

module _ {W : Type 0} (E : Env W) where
  pub update-MirrorsAll :
      (k : PhpKey) (z : Zval) (es : Elements) (kv v : LuaValue) (l : List (LuaValue × LuaValue))
      → exists k es ≡ false
      → key_of E.numeric kv ≡ some k
      → Mirrors E z v
      → MirrorsAll E es l
      → MirrorsAll E (update k z es) (l ++ (kv, v) ∷ [])
  unfolding Mirrors update
  update-MirrorsAll k z end kv v [] new stored m ms = (stored, m, refl)
  update-MirrorsAll k z end kv v (x ∷ l) new stored m ms = cc
  update-MirrorsAll k z (element j y es) kv v [] new stored m ms = elim ms [ ]
  update-MirrorsAll k z (element j y es) kv v ((x, w) ∷ l) new stored m ms =
      let parts = exists-element k j y es new in
      rw (update-element k j z y es parts.0)
        (ms.0, ms.1, update-MirrorsAll k z es kv v l parts.1 stored m ms.2)

pub update-AreDistinct :
    (k : PhpKey) (z : Zval) (es : Elements)
    → exists k es ≡ false
    → IsDistinct z
    → AreDistinct es
    → AreDistinct (update k z es)
unfolding IsDistinct update exists
update-AreDistinct k z end new d ds = (refl, d, ds)
update-AreDistinct k z (element j y es) new d ds =
    let parts = exists-element k j y es new in
    rw (update-element k j z y es parts.0) (
      exists-update k j z es (same_key_sym k j parts.0) ds.0,
      ds.1,
      update-AreDistinct k z es parts.1 d ds.2,
    )

pub levels-update :
    (k : PhpKey) (z : Zval) (es : Elements) (n : ℕ)
    → exists k es ≡ false
    → levels z ≤ n
    → levels_below es ≤ n
    → levels_below (update k z es) ≤ n
unfolding levels update
levels-update k z end n new l ls = omega arith
levels-update k z (element j y es) n new l ls =
    let parts = exists-element k j y es new in
    rw (update-element k j z y es parts.0)
      (omega (arith, levels-update k z es n parts.1 l (omega arith)))
