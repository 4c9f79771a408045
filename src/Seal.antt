-- ===== src/Seal.antt =====
-- src/luaext_seal.c and src/luaext_seal.h: sealing bytecode. Strings are lists of bytes, and the two
-- hash functions of ext/hash are parameters.
pub mod Equal
pub mod Opened
pub mod Keys
pub mod Example
mod Tests
use Prim.Native.Nat.{bit_or, bit_xor}
use lua_ext.Base.{
  ℕ, ◌+◌, ◌-◌, Bool, true, false, not, ◌&&◌, ◌||◌, Option, none, some, List, [], ◌∷◌, ◌++◌, ltb,
  leb, ◌==◌, map, if◌then◌else◌, length, take, drop, get_or, replicate,
}
use lua_ext.Base.Bytes.{same_bytes}

-- `php_hash_ops`: the calls on a context.
pub record HashOps : Type 1 where
  pub Context : Type 0
  pub hash_init : Context
  pub hash_update : List ℕ → Context → Context
  pub hash_final : Context → List ℕ
  pub digest_size : ℕ

-- What `luaext_seal_startup` has found.
pub record Hashes : Type 1 where
  pub sha256 : HashOps
  pub xxh128 : HashOps

-- `luaext_seal_algo`
pub data Algo : Type 0 where
  checksum authenticated : Algo

-- `(unsigned char)algo`
abbrev pub algo_byte : Algo → ℕ
algo_byte checksum = 1
algo_byte authenticated = 2

-- `LUAEXT_SEAL_MAGIC`, "LXBC"
abbrev pub magic : List ℕ
magic = b'L' ∷ b'X' ∷ b'B' ∷ b'C' ∷ []

-- `LUAEXT_SEAL_MAGIC_LEN`, `LUAEXT_SEAL_PREFIX_LEN` and `LUAEXT_SEAL_VERSION`
abbrev pub magic_len : ℕ
magic_len = 4

abbrev pub prefix_len : ℕ
prefix_len = 6

abbrev pub version : ℕ
version = 1

-- `sizeof(block)`
abbrev pub block_len : ℕ
block_len = 64

-- `luaext_seal_is_sealed`, for a blob that is not NULL.
unfoldable pub is_sealed : List ℕ → Bool
is_sealed blob = leb prefix_len (length blob) && same_bytes (take magic_len blob) magic

-- The loop of `luaext_seal_equal`, over the `length` bytes of both sides.
unfoldable pub differences : ℕ → List ℕ → List ℕ → ℕ
differences difference [] right = difference
differences difference (x ∷ left) [] = difference
differences difference (x ∷ left) (y ∷ right) =
    differences (bit_or difference (bit_xor x y)) left right

-- `luaext_seal_equal`
unfoldable pub seal_equal : List ℕ → List ℕ → Bool
seal_equal left right = differences 0 left right == 0

module _ (O : HashOps) where
  open O use {hash_init, hash_update, hash_final, digest_size, Context}

  -- `if (payload_len > 0) ops->hash_update(…)`
  abbrev pub update_payload : List ℕ → Context → Context
  update_payload payload c = if ltb 0 (length payload) then hash_update payload c else c

  -- `luaext_seal_checksum`
  unfoldable pub seal_checksum : ℕ → ℕ → List ℕ → List ℕ
  seal_checksum v algo payload =
      hash_final (update_payload payload (hash_update (algo ∷ []) (hash_update (v ∷ []) hash_init)))

  -- What is written over the front of `block`, which was all zeros.
  abbrev pub padded : List ℕ → List ℕ
  padded front = front ++ replicate (block_len - length front) 0

  unfoldable pub key_block : List ℕ → List ℕ
  key_block key =
      if ltb block_len (length key)
      then padded (hash_final (hash_update key hash_init))
      else padded key

  -- `pad[index] = (unsigned char)(block[index] ^ byte)`
  abbrev pub pad : ℕ → List ℕ → List ℕ
  pad byte block = map (λ b. bit_xor b byte) block

  -- `luaext_seal_hmac`
  unfoldable pub seal_hmac : List ℕ → ℕ → ℕ → List ℕ → List ℕ
  seal_hmac key v algo payload =
      let block = key_block key in
      let inner = hash_final (
        update_payload payload (
          hash_update (algo ∷ [])
            (hash_update (v ∷ []) (hash_update (pad 0x36 block) hash_init)))) in
      hash_final (hash_update inner (hash_update (pad 0x5c block) hash_init))

module _ (F : Hashes) where
  -- `luaext_seal_digest_len`
  abbrev pub digest_len : Algo → ℕ
  digest_len checksum = F.xxh128.digest_size
  digest_len authenticated = F.sha256.digest_size

  -- `luaext_seal_digest`
  unfoldable pub seal_digest : Algo → List ℕ → List ℕ → List ℕ
  seal_digest authenticated key payload =
      seal_hmac F.sha256 key version (algo_byte authenticated) payload
  seal_digest checksum key payload = seal_checksum F.xxh128 version (algo_byte checksum) payload

  -- `luaext_seal_wrap`
  unfoldable pub seal_wrap : List ℕ → Algo → List ℕ → List ℕ
  seal_wrap payload algo key =
      magic ++ (version ∷ algo_byte algo ∷ (seal_digest algo key payload ++ payload))

  -- `luaext_seal_open`: the payload of a blob that verifies.
  unfoldable pub seal_open : List ℕ → Algo → List ℕ → Option (List ℕ)
  seal_open blob expected key =
      let claimed = take (digest_len expected) (drop prefix_len blob) in
      let body = drop (prefix_len + digest_len expected) blob in
      if not (is_sealed blob) || (digest_len expected == 0)
      then none
      else if not (get_or blob magic_len 0 == version)
      then none
      else if not (get_or blob (magic_len + 1) 0 == algo_byte expected)
      then none
      else if ltb (length blob) (prefix_len + digest_len expected)
      then none
      else if not (seal_equal (seal_digest expected key body) claimed)
      then none
      else some body
