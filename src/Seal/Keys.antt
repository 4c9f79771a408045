-- ===== src/Seal/Keys.antt =====
-- The key of the HMAC of src/luaext_seal.c.
use lua_ext.Base.{ℕ, ◌≤◌, ◌<◌, ◌≡◌, refl, ap, true, false, List, [], ◌∷◌, ltb, length, arith}
use lua_ext.Seal.{HashOps, seal_hmac, key_block, block_len, update_payload, pad}

key_block-long_key :
    (O : HashOps) (key : List ℕ)
    → block_len < length key
    → length (O.hash_final (O.hash_update key O.hash_init)) ≤ block_len
    → key_block O key ≡ key_block O (O.hash_final (O.hash_update key O.hash_init))
unfolding key_block
key_block-long_key O key long short =
    let is_long : ltb block_len (length key) ≡ true = ground arith in
    let is_short : ltb block_len (length (O.hash_final (O.hash_update key O.hash_init))) ≡ false =
      ground arith in
    rw (is_long, is_short) refl

-- A key longer than the block gives the digests that its own hash gives as a key, where that hash
-- is no longer than the block.
pub seal_hmac-long_key :
    (O : HashOps) (key : List ℕ) (v algo : ℕ) (payload : List ℕ)
    → block_len < length key
    → length (O.hash_final (O.hash_update key O.hash_init)) ≤ block_len
    → seal_hmac O key v algo payload
      ≡ seal_hmac O (O.hash_final (O.hash_update key O.hash_init)) v algo payload
unfolding seal_hmac
seal_hmac-long_key O key v algo payload long short =
    ap
      (λ (block : List ℕ). O.hash_final (
        O.hash_update
          (O.hash_final (
            update_payload O payload (
              O.hash_update (algo ∷ [])
                (O.hash_update (v ∷ []) (O.hash_update (pad O 0x36 block) O.hash_init)))))
          (O.hash_update (pad O 0x5c block) O.hash_init)))
      (key_block-long_key O key long short)
