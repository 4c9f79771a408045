-- ===== src/Convert/Plain.antt =====
-- Values of PHP without functions, and arrays joined: what the walk of src/luaext_convert.c adds up
-- to.
use lua_ext.Base.{◌≡◌, refl, ap, false}
use lua_ext.Convert.{
  PhpKey, Zval, null, flag, long, double, text, array, handle, object, Elements, end, element,
  exists, update,
}
use lua_ext.Convert.Fresh.{same_key_sym, exists-element, update-element, exists-update}

-- No function handle in a value.
unfoldable mutual
  pub IsPlain : Zval → Type 0
  IsPlain null = Unit
  IsPlain (flag b) = Unit
  IsPlain (long z) = Unit
  IsPlain (double d) = Unit
  IsPlain (text s) = Unit
  IsPlain (array es) = ArePlain es
  IsPlain (handle r) = ⊥
  IsPlain (object o) = Unit

  pub ArePlain : Elements → Type 0
  ArePlain end = Unit
  ArePlain (element k z es) = IsPlain z × ArePlain es

-- The elements of one array behind those of another.
unfoldable pub joined : Elements → Elements → Elements
joined end es = es
joined (element k z target) es = element k z (joined target es)

-- No key of `es` stands in `target`.
unfoldable pub AreNew : Elements → Elements → Type 0
AreNew end target = Unit
AreNew (element k z es) target = (exists k target ≡ false) × AreNew es target

pub update-joined :
    (k : PhpKey) (z : Zval) (target es : Elements)
    → exists k target ≡ false
    → joined (update k z target) es ≡ joined target (element k z es)
unfolding joined update
update-joined k z end es new = refl
update-joined k z (element j y target) es new =
    let parts = exists-element k j y target new in
    rw (update-element k j z y target parts.0)
      (ap (element j y) (update-joined k z target es parts.1))

pub joined-end : (target : Elements) → joined target end ≡ target
unfolding joined
joined-end end = refl
joined-end (element k z target) = ap (element k z) (joined-end target)

-- A key that is in neither stays out of both.
pub update-AreNew :
    (k : PhpKey) (z : Zval) (es target : Elements)
    → exists k es ≡ false
    → AreNew es target
    → AreNew es (update k z target)
unfolding AreNew
update-AreNew k z end target new others = tt
update-AreNew k z (element j y es) target new others =
    let parts = exists-element k j y es new in
    (
      exists-update k j z target (same_key_sym k j parts.0) others.0,
      update-AreNew k z es target parts.1 others.1,
    )

pub AreNew-end : (es : Elements) → AreNew es end
unfolding AreNew exists
AreNew-end end = tt
AreNew-end (element k z es) = (refl, AreNew-end es)
