-- ===== src/Seal/Opened.antt =====
-- What `luaext_seal_open` accepts: exactly what `luaext_seal_wrap` makes.
use lua_ext.Base.{
  ℕ, zero, suc, ◌+◌, ◌≤◌, ◌≡◌, ◌≢◌, ◌↔◌, refl, sym, ◌∙◌, ap, true, false, none, some, List, [], ◌∷◌,
  ◌++◌, ltb, ◌==◌, length, length-append, length-take, length-drop, take, drop, take-append-drop,
  get_or, arith,
}
use lua_ext.Seal.{
  Hashes, Algo, checksum, authenticated, algo_byte, magic, magic_len, prefix_len, version,
  is_sealed, seal_equal, digest_len, seal_digest, seal_wrap, seal_open,
}
use lua_ext.Seal.Equal.{HashLaws, length-seal_digest, digest_len_some, seal_equal_iff}

drop-add : (m n : ℕ) (xs : List ℕ) → drop (m + n) xs ≡ drop n (drop m xs)
drop-add zero n xs = let e : zero + n ≡ n = omega arith in ap (λ (k : ℕ). drop k xs) e
drop-add (suc m) zero [] =
    let e : suc m + zero ≡ suc m = omega arith in ap (λ (k : ℕ). drop {A = ℕ} k []) e
drop-add (suc m) (suc n) [] =
    let e : suc m + suc n ≡ suc (m + suc n) = omega arith in ap (λ (k : ℕ). drop {A = ℕ} k []) e
drop-add (suc m) n (x ∷ xs) =
    let e : suc m + n ≡ suc (m + n) = omega arith in
    ap (λ (k : ℕ). drop k (x ∷ xs)) e ∙ drop-add m n xs

take-length_append : (xs ys : List ℕ) (n : ℕ) → length xs ≡ n → take n (xs ++ ys) ≡ xs
take-length_append [] ys zero e = refl
take-length_append [] ys (suc n) e = absurd (omega arith)
take-length_append (x ∷ xs) ys zero e = absurd (omega arith)
take-length_append (x ∷ xs) ys (suc n) e =
    ap (λ (t : List ℕ). x ∷ t) (take-length_append xs ys n (omega arith))

drop-length_append : (xs ys : List ℕ) (n : ℕ) → length xs ≡ n → drop n (xs ++ ys) ≡ ys
drop-length_append [] ys zero e = refl
drop-length_append [] ys (suc n) e = absurd (omega arith)
drop-length_append (x ∷ xs) ys zero e = absurd (omega arith)
drop-length_append (x ∷ xs) ys (suc n) e = drop-length_append xs ys n (omega arith)

-- A blob that claims to be sealed, by its first six bytes.
sealed_prefix :
    (blob : List ℕ) (v a : ℕ)
    → is_sealed blob ≡ true
    → get_or blob magic_len 0 ≡ v
    → get_or blob (magic_len + 1) 0 ≡ a
    → blob ≡ magic ++ (v ∷ a ∷ drop prefix_len blob)
unfolding is_sealed
sealed_prefix [] v a s e f = cc
sealed_prefix (p ∷ []) v a s e f = ground arith
sealed_prefix (p ∷ q ∷ []) v a s e f = ground arith
sealed_prefix (p ∷ q ∷ r ∷ []) v a s e f = ground arith
sealed_prefix (p ∷ q ∷ r ∷ t ∷ []) v a s e f = ground arith
sealed_prefix (p ∷ q ∷ r ∷ t ∷ u ∷ []) v a s e f = ground arith
sealed_prefix (p ∷ q ∷ r ∷ t ∷ u ∷ w ∷ rest) v a s e f = ground arith

module _ {F : Hashes} (L : HashLaws F) where
  -- The tests that a blob has passed.
  record Passed (blob : List ℕ) (a : Algo) (key payload : List ℕ) : Type 0 where
    pub sealed : is_sealed blob ≡ true
    pub v : get_or blob magic_len 0 ≡ version
    pub algo : get_or blob (magic_len + 1) 0 ≡ algo_byte a
    pub long : prefix_len + digest_len F a ≤ length blob
    pub equal :
        seal_equal (seal_digest F a key payload) (take (digest_len F a) (drop prefix_len blob))
        ≡ true
    pub body : drop (prefix_len + digest_len F a) blob ≡ payload

  seal_open-Passed :
      (blob : List ℕ) (a : Algo) (key payload : List ℕ)
      → seal_open F blob a key ≡ some payload
      → Passed blob a key payload
  unfolding seal_open
  seal_open-Passed blob a key payload e = ground arith

  Passed-wrapped :
      (blob : List ℕ) (a : Algo) (key payload : List ℕ)
      → Passed blob a key payload
      → blob ≡ seal_wrap F payload a key
  unfolding seal_wrap
  Passed-wrapped blob a key payload p =
      sealed_prefix blob _ _ p.sealed p.v p.algo
      ∙ ap (λ (t : List ℕ). magic ++ (version ∷ algo_byte a ∷ t))
          (sym (take-append-drop (digest_len F a) (drop prefix_len blob))
            ∙ rw (digest, behind) refl)
    where
      claimed_length : length (take (digest_len F a) (drop prefix_len blob)) ≡ digest_len F a
      claimed_length = omega (
        arith,
        length-take (digest_len F a) (drop prefix_len blob),
        length-drop prefix_len blob,
        p.long,
      )

      digest : take (digest_len F a) (drop prefix_len blob) ≡ seal_digest F a key payload
      digest =
          sym (
            (seal_equal_iff _ _ (length-seal_digest L a key payload ∙ sym claimed_length)).0
              p.equal)

      behind : drop (digest_len F a) (drop prefix_len blob) ≡ payload
      behind = sym (drop-add prefix_len (digest_len F a) blob) ∙ p.body

  module _ (payload : List ℕ) (a : Algo) (key : List ℕ) where
    wrapped_length :
        length (seal_wrap F payload a key) ≡ prefix_len + digest_len F a + length payload
    unfolding seal_wrap
    wrapped_length = omega (
      arith,
      length-append (seal_digest F a key payload) payload,
      length-seal_digest L a key payload,
    )

    pub wrapped-is_sealed : is_sealed (seal_wrap F payload a key) ≡ true
    unfolding is_sealed seal_wrap
    wrapped-is_sealed = ground arith

    wrapped_body : drop (prefix_len + digest_len F a) (seal_wrap F payload a key) ≡ payload
    unfolding seal_wrap
    wrapped_body =
        drop-add prefix_len (digest_len F a) _
        ∙ drop-length_append _ payload (digest_len F a) (length-seal_digest L a key payload)

    wrapped_claim :
        take (digest_len F a) (drop prefix_len (seal_wrap F payload a key))
        ≡ seal_digest F a key payload
    unfolding seal_wrap
    wrapped_claim =
        take-length_append _ payload (digest_len F a) (length-seal_digest L a key payload)

    is_version : (get_or (seal_wrap F payload a key) magic_len 0 == version) ≡ true
    unfolding seal_wrap
    is_version = refl

    is_algo : (get_or (seal_wrap F payload a key) (magic_len + 1) 0 == algo_byte a) ≡ true
    unfolding seal_wrap
    is_algo = ground arith

    pub seal_open-wrap : seal_open F (seal_wrap F payload a key) a key ≡ some payload
    unfolding seal_open
    seal_open-wrap =
        rw
          (
            wrapped-is_sealed, some_digest, is_version, is_algo, long, wrapped_body, wrapped_claim,
            equal,
          )
          refl
      where
        some_digest : (digest_len F a == 0) ≡ false
        some_digest = ground (arith, digest_len_some L a)

        long : ltb (length (seal_wrap F payload a key)) (prefix_len + digest_len F a) ≡ false
        long = ground (arith, wrapped_length)

        equal : seal_equal (seal_digest F a key payload) (seal_digest F a key payload) ≡ true
        equal = (seal_equal_iff _ _ refl).1 refl

  -- Where the digests of ext/hash have the sizes that it states, and these are not 0: a blob opens
  -- to a payload under an algorithm and a key exactly if it is what sealing that payload under
  -- that algorithm and that key makes.
  pub seal_open_iff :
      (blob : List ℕ) (a : Algo) (key payload : List ℕ)
      → (seal_open F blob a key ≡ some payload) ↔ (blob ≡ seal_wrap F payload a key)
  seal_open_iff blob a key payload = (
    λ e. Passed-wrapped blob a key payload (seal_open-Passed blob a key payload e),
    λ e. rw e (seal_open-wrap payload a key),
  )

  algo-refused :
      (blob : List ℕ) (a b : Algo) (key : List ℕ)
      → get_or blob (magic_len + 1) 0 ≡ algo_byte b
      → a ≢ b
      → seal_open F blob a key ≡ none
  unfolding seal_open
  algo-refused blob checksum checksum key e n = absurd (n refl)
  algo-refused blob checksum authenticated key e n = ground arith
  algo-refused blob authenticated checksum key e n = ground arith
  algo-refused blob authenticated authenticated key e n = absurd (n refl)

  -- Where the digests of ext/hash have the sizes that it states, and these are not 0: what was
  -- sealed under one algorithm does not open under the other, whatever the keys.
  pub seal_open-downgrade :
      (payload : List ℕ) (sealed_by expected : Algo) (key key' : List ℕ)
      → expected ≢ sealed_by
      → seal_open F (seal_wrap F payload sealed_by key) expected key' ≡ none
  unfolding seal_wrap
  seal_open-downgrade payload b a key key' n = algo-refused _ a b key' refl n

  -- Where the digests of ext/hash have the sizes that it states, and these are not 0: if what one
  -- key sealed opens under another key, the payload is the same and so are the two keys' digests
  -- of it.
  pub seal_open_two_keys :
      (payload : List ℕ) (a : Algo) (key key' p : List ℕ)
      → seal_open F (seal_wrap F payload a key) a key' ≡ some p
      → (p ≡ payload) × (seal_digest F a key payload ≡ seal_digest F a key' payload)
  seal_open_two_keys payload a key key' p e =
      let same = (seal_open_iff _ a key' p).0 e in
      let q : p ≡ payload =
        sym (wrapped_body p a key')
        ∙ sym (ap (λ (t : List ℕ). drop (prefix_len + digest_len F a) t) same)
        ∙ wrapped_body payload a key in
      (
        q,
        sym (wrapped_claim payload a key)
            ∙ ap (λ (t : List ℕ). take (digest_len F a) (drop prefix_len t)) same
            ∙ wrapped_claim p a key'
            ∙ ap (λ (t : List ℕ). seal_digest F a key' t) q,
      )
