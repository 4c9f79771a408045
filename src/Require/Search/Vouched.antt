-- ===== src/Require/Search/Vouched.antt =====
-- What the compiler is given of a module: nothing binary that is not vouched for.
use lua_ext.Base.{
  ◌≡◌, ◌≢◌, ◌≤◌, ◌↔◌, refl, ap, ◌∙◌, Bool, true, false, Option, none, some, length, arith,
}
use lua_ext.Vfs.{Bytes}
use lua_ext.Seal.{is_sealed, seal_wrap, seal_open}
use lua_ext.Seal.Equal.{HashLaws}
use lua_ext.Seal.Opened.{seal_open_iff, wrapped-is_sealed}
use lua_ext.Require.Search.{Setup, loaded, loaded_from, compiled, opened, require_load}

module _ {B C : Type 0} (S : Setup B C) where
  -- A length within the limit on sources.
  abbrev pub FitsSource : Bytes → Type 0
  FitsSource code = S.max_source_bytes ≢ 0 → length code ≤ S.max_source_bytes

  loaded_from_iff : (o : Option C) (c : C) → (loaded_from o ≡ loaded c) ↔ (o ≡ some c)
  loaded_from_iff none c = (λ e. cc, λ e. cc)
  loaded_from_iff (some d) c = (λ e. ground arith, λ e. ground arith)

  compiled_iff :
      (binary : Bool) (name code : Bytes) (c : C)
      → (compiled S binary name code ≡ loaded c)
        ↔ (FitsSource code × (S.compile binary code name ≡ some c))
  compiled_iff binary name code c = ground (arith, loaded_from_iff (S.compile binary code name) c)

  -- What a blob that is let in as binary amounts to.
  abbrev Vouches : Bytes → Option Bytes → C → Type 0
  Vouches name o c =
      (payload : Bytes) × (o ≡ some payload)
      × FitsSource payload
      × (S.compile true payload name ≡ some c)

  opened_iff :
      (name : Bytes) (o : Option Bytes) (c : C) → (opened S name o ≡ loaded c) ↔ Vouches name o c
  opened_iff name none c = (λ e. cc, λ v. let (p, e, f, k) = v in cc)
  opened_iff name (some payload) c = (
    λ e. let (f, k) = (compiled_iff true name payload c).0 e in (payload, refl, f, k),
    λ v.
        let (p, e, f, k) = v in
        (compiled_iff true name payload c).1 (ground (arith, f), ground (arith, k)),
  )

  require_load-binary :
      (code name : Bytes) (c : C)
      → S.allow_raw_bytecode ≡ false
      → require_load S code name true ≡ loaded c
      → (S.can_load_bytecode ≡ true)
        × Vouches name (seal_open S.hashes code S.seal_mode S.bytecode_key) c
  unfolding require_load
  require_load-binary code name c raw e = (ground arith, (opened_iff name _ c).0 (ground arith))

  require_load-sealed :
      (code name : Bytes) (c : C)
      → S.can_load_bytecode ≡ true
      → is_sealed code ≡ true
      → Vouches name (seal_open S.hashes code S.seal_mode S.bytecode_key) c
      → require_load S code name true ≡ loaded c
  unfolding require_load
  require_load-sealed code name c cap sealed v = rw (cap, sealed) ((opened_iff name _ c).1 v)

  pub require_load_text :
      (code name : Bytes) (c : C)
      → (require_load S code name false ≡ loaded c)
        ↔ (FitsSource code × (S.compile false code name ≡ some c))
  unfolding require_load
  require_load_text code name c = compiled_iff false name code c

  module _ (L : HashLaws S.hashes) where
    -- Where the digests of ext/hash have the sizes that it states, these are not 0, and raw
    -- bytecode is not allowed: a module that comes as bytecode is loaded exactly if the sandbox
    -- may load bytecode and the blob is what sealing a payload under the sandbox's mode and key
    -- makes, where the payload is within the limit on sources and compiles with binary chunks let
    -- in.
    pub require_load_iff :
        (code name : Bytes) (c : C)
        → S.allow_raw_bytecode ≡ false
        → (require_load S code name true ≡ loaded c) ↔ (
            (S.can_load_bytecode ≡ true)
            × ((payload : Bytes) × (code ≡ seal_wrap S.hashes payload S.seal_mode S.bytecode_key)
                × (S.max_source_bytes ≢ 0 → length payload ≤ S.max_source_bytes)
                × (S.compile true payload name ≡ some c)))
    require_load_iff code name c raw = (
      λ e.
          let (cap, (p, o, f, k)) = require_load-binary code name c raw e in
          (cap, (p, (seal_open_iff L code S.seal_mode S.bytecode_key p).0 o, f, k)),
      λ v.
          let (cap, (p, o, f, k)) = v in
          require_load-sealed code name c cap
            (ap is_sealed o ∙ wrapped-is_sealed L p S.seal_mode S.bytecode_key)
            (p, (seal_open_iff L code S.seal_mode S.bytecode_key p).1 o, f, k),
    )
