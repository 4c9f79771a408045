-- ===== src/Seal/Equal.antt =====
-- `luaext_seal_equal` compares, and the digests have the length that is compared.
use Prim.Native.Nat.{bit_or, bit_xor}
use lua_ext.Base.{ℕ, ◌≡◌, ◌≢◌, ◌↔◌, refl, sym, true, List, [], ◌∷◌, length, arith}
use lua_ext.Base.Bytes.{bit_or-zero_iff, bit_xor-zero_iff}
use lua_ext.Seal.{
  Hashes, Algo, checksum, authenticated, digest_len, seal_digest, seal_checksum, seal_hmac,
  differences, seal_equal,
}

-- What the code relies on in ext/hash: a digest has the size that its algorithm states, which is not 0.
pub record HashLaws (F : Hashes) : Type 0 where
  pub sha256_size : (c : F.sha256.Context) → length (F.sha256.hash_final c) ≡ F.sha256.digest_size
  pub xxh128_size : (c : F.xxh128.Context) → length (F.xxh128.hash_final c) ≡ F.xxh128.digest_size
  pub sha256_some : F.sha256.digest_size ≢ 0
  pub xxh128_some : F.xxh128.digest_size ≢ 0

pub length-seal_digest :
    {F : Hashes} (L : HashLaws F) (a : Algo) (key payload : List ℕ)
    → length (seal_digest F a key payload) ≡ digest_len F a
unfolding seal_digest seal_checksum seal_hmac
length-seal_digest L checksum key payload = L.xxh128_size _
length-seal_digest L authenticated key payload = L.sha256_size _

pub digest_len_some : {F : Hashes} → HashLaws F → (a : Algo) → digest_len F a ≢ 0
digest_len_some L checksum = L.xxh128_some
digest_len_some L authenticated = L.sha256_some

differences-zero :
    (d : ℕ) (left right : List ℕ)
    → length left ≡ length right
    → differences d left right ≡ 0
    → (d ≡ 0) × (left ≡ right)
unfolding differences
differences-zero d [] [] h e = (e, refl)
differences-zero d [] (y ∷ right) h e = absurd (omega arith)
differences-zero d (x ∷ left) [] h e = absurd (omega arith)
differences-zero d (x ∷ left) (y ∷ right) h e =
    let (z, r) = differences-zero (bit_or d (bit_xor x y)) left right (omega arith) e in
    let (f, g) = (bit_or-zero_iff d (bit_xor x y)).0 z in
    (f, rw ((bit_xor-zero_iff x y).0 g, r) refl)

differences_self : (xs : List ℕ) → differences 0 xs xs ≡ 0
unfolding differences
differences_self [] = refl
differences_self (x ∷ xs) = rw ((bit_xor-zero_iff x x).1 refl) (differences_self xs)

-- Over two strings of one length the loop that collects every difference answers true exactly if
-- they are equal.
pub seal_equal_iff :
    (left right : List ℕ)
    → length left ≡ length right
    → (seal_equal left right ≡ true) ↔ (left ≡ right)
unfolding seal_equal
seal_equal_iff left right h = (
  λ e. (differences-zero 0 left right h (ground arith)).1,
  λ e. rw (sym e) (ground (arith, differences_self left)),
)
