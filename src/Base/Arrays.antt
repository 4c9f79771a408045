-- ===== src/Base/Arrays.antt =====
-- Lists as C arrays: reads with a default, which stands for what lies behind the end and is never
-- relied on, and writes that trade one element for another.
use Prim.Native.Nat.{ℕ, zero, suc, ◌<◌}
use mathlib.Core.Path.{◌≡◌, refl, ap, ◌∙◌}
use mathlib.Core.Logic.{∥∥₁_elim}
use mathlib.Core.List.{List, [], ◌∷◌, ◌++◌, Perm, Permᴰ, perm_middle, append-nil}
use mathlib.Core.List.Perm
use native.Mathlib.Nat.{ℕ_set}
use native.Mathlib.Omega.{arith}
use lua_ext.Base.Tests.{◌==◌, if◌then◌else◌}
use lua_ext.Base.Lists.{length, set, get_or, take, length-set}

module _ {A : Type 0} where
  Permᴰ-length : {xs ys : List A} → Permᴰ xs ys → length xs ≡ length ys
  Permᴰ-length Permᴰ.nil = refl
  Permᴰ-length (Permᴰ.cons x p) = ap suc (Permᴰ-length p)
  Permᴰ-length (Permᴰ.swap x y) = refl
  Permᴰ-length (Permᴰ.trans p q) = Permᴰ-length p ∙ Permᴰ-length q

  pub Perm-length : {xs ys : List A} → Perm xs ys → length xs ≡ length ys
  Perm-length p = ∥∥₁_elim p (ℕ_set _ _) Permᴰ-length

  pub Perm-snoc : (xs : List A) (x : A) → Perm (xs ++ x ∷ []) (x ∷ xs)
  Perm-snoc xs x = rw (append-nil xs) at (perm_middle {a = x} xs [])

module _ {A : Type 0} (d : A) where
  -- `swap = a[i]; a[i] = a[j]; a[j] = swap;`
  unfoldable pub exchange : List A → ℕ → ℕ → List A
  exchange xs i j = set (set xs i (get_or xs j d)) j (get_or xs i d)

  pub get_or-set :
      (xs : List A) (i j : ℕ) (v : A)
      → i < length xs
      → get_or (set xs i v) j d ≡ (if i == j then v else get_or xs j d)
  get_or-set [] i j v h = absurd (omega arith)
  get_or-set (x ∷ xs) zero zero v h = refl
  get_or-set (x ∷ xs) zero (suc j) v h = ground arith
  get_or-set (x ∷ xs) (suc i) zero v h = ground arith
  get_or-set (x ∷ xs) (suc i) (suc j) v h = ground (arith, get_or-set xs i j v)

  pub get_or-append :
      (xs ys : List A) (i : ℕ) → i < length xs → get_or (xs ++ ys) i d ≡ get_or xs i d
  get_or-append [] ys i h = absurd (omega arith)
  get_or-append (x ∷ xs) ys zero h = refl
  get_or-append (x ∷ xs) ys (suc i) h = get_or-append xs ys i (omega arith)

  pub get_or-take : (n : ℕ) (xs : List A) (i : ℕ) → i < n → get_or (take n xs) i d ≡ get_or xs i d
  get_or-take zero xs i h = absurd (omega arith)
  get_or-take (suc n) [] i h = refl
  get_or-take (suc n) (x ∷ xs) zero h = refl
  get_or-take (suc n) (x ∷ xs) (suc i) h = get_or-take n xs i (omega arith)

  pub take-snoc : (n : ℕ) (xs : List A) → length xs ≡ suc n → take n xs ++ get_or xs n d ∷ [] ≡ xs
  take-snoc n [] h = absurd (omega arith)
  take-snoc zero (x ∷ []) h = refl
  take-snoc zero (x ∷ y ∷ xs) h = absurd (omega arith)
  take-snoc (suc n) (x ∷ xs) h = ap (λ (t : List A). x ∷ t) (take-snoc n xs (omega arith))

  -- A write trades what was there for the new element.
  pub set-Perm :
      (xs : List A) (i : ℕ) (v : A) → i < length xs → Perm (get_or xs i d ∷ set xs i v) (v ∷ xs)
  set-Perm [] i v h = absurd (omega arith)
  set-Perm (x ∷ xs) zero v h = Perm.swap v x xs
  set-Perm (x ∷ xs) (suc i) v h =
      Perm.trans (Perm.swap x _ _)
        (Perm.trans (Perm.cons x (set-Perm xs i v (omega arith))) (Perm.swap v x xs))

  module _ (xs : List A) (i j : ℕ) where
    pub length-exchange : length (exchange xs i j) ≡ length xs
    unfolding exchange
    length-exchange = length-set (set xs i (get_or xs j d)) j _ ∙ length-set xs i _

    module _ (hi : i < length xs) (hj : j < length xs) where
      hj' : j < length (set xs i (get_or xs j d))
      hj' = omega (arith, length-set xs i (get_or xs j d))

      pub get_or-exchange :
          (k : ℕ)
          → get_or (exchange xs i j) k d
            ≡ (if j == k then get_or xs i d else if i == k then get_or xs j d else get_or xs k d)
      unfolding exchange
      get_or-exchange k = ground (
        arith,
        get_or-set (set xs i (get_or xs j d)) j k (get_or xs i d) hj',
        get_or-set xs i k (get_or xs j d) hi,
      )

      pub exchange-Perm : Perm (exchange xs i j) xs
      unfolding exchange
      exchange-Perm =
          let same : get_or (set xs i (get_or xs j d)) j d ≡ get_or xs j d =
            ground (arith, get_or-set xs i j (get_or xs j d) hi) in
          Perm.cons_inv (
            Perm.trans (rw same at (set-Perm (set xs i (get_or xs j d)) j (get_or xs i d) hj'))
              (set-Perm xs i (get_or xs j d) hi))
