-- ===== src/Seal/Tests.antt =====
-- src/luaext_seal.c run with a hash of two bytes: a length and a sum.
use lua_ext.Base.{ℕ, ◌≡◌, ◌≢◌, ◌↔◌, refl, none, some, List, [], ◌∷◌}
use lua_ext.Seal.{
  checksum, authenticated, seal_digest, seal_wrap, seal_open, seal_equal, differences, is_sealed,
  seal_checksum,
}
use lua_ext.Seal.Example.{toys, toys-HashLaws, chunk}
use lua_ext.Seal.Opened.{seal_open_iff, seal_open-downgrade, seal_open_two_keys}

abbrev other_chunk : List ℕ
other_chunk = 27 ∷ 77 ∷ []

wrapped : seal_wrap toys chunk checksum [] ≡ 76 ∷ 88 ∷ 66 ∷ 67 ∷ 1 ∷ 1 ∷ 4 ∷ 105 ∷ 27 ∷ 76 ∷ []
unfolding seal_wrap seal_digest seal_checksum
wrapped = refl

-- A byte of the payload has changed.
tampered : seal_open toys (76 ∷ 88 ∷ 66 ∷ 67 ∷ 1 ∷ 1 ∷ 4 ∷ 105 ∷ 27 ∷ 77 ∷ []) checksum [] ≡ none
unfolding seal_open seal_digest seal_checksum seal_equal differences is_sealed
tampered = refl

seal_open_iff_example :
    (seal_open toys (seal_wrap toys chunk authenticated (9 ∷ [])) authenticated (9 ∷ [])
      ≡ some chunk)
    ↔ (seal_wrap toys chunk authenticated (9 ∷ []) ≡ seal_wrap toys chunk authenticated (9 ∷ []))
seal_open_iff_example =
    seal_open_iff toys-HashLaws (seal_wrap toys chunk authenticated (9 ∷ [])) authenticated (9 ∷ [])
      chunk

other_algo : authenticated ≢ checksum
other_algo = λ e. cc

seal_open-downgrade_example :
    seal_open toys (seal_wrap toys chunk checksum []) authenticated (9 ∷ []) ≡ none
seal_open-downgrade_example =
    seal_open-downgrade toys-HashLaws chunk checksum authenticated [] (9 ∷ []) other_algo

-- The checksum does not look at the key.
keyless : seal_open toys (seal_wrap toys chunk checksum (8 ∷ [])) checksum (9 ∷ []) ≡ some chunk
unfolding seal_wrap seal_open seal_digest seal_checksum seal_equal differences is_sealed
keyless = refl

seal_open_two_keys_example :
    (chunk ≡ chunk)
    × (seal_digest toys checksum (8 ∷ []) chunk ≡ seal_digest toys checksum (9 ∷ []) chunk)
seal_open_two_keys_example =
    seal_open_two_keys toys-HashLaws chunk checksum (8 ∷ []) (9 ∷ []) chunk keyless
