-- ===== src/Watchdog/Pool/Exclusive.antt =====
-- That no slot of the watchdog's pool is held twice.
use lua_ext.Base.{
  ℕ, zero, suc, ◌+◌, ◌*◌, ◌≤◌, ◌<◌, ◌≡◌, ◌≢◌, ◌⊎◌, inl, inr, refl, ap, Bool, true, false, Option,
  none, some, List, [], ◌∷◌, ◌==◌, if◌then◌else◌, arith, Bool-cases,
}
use lua_ext.Watchdog.Pool.{
  Pool, Supply, Taken, Tenancy, Turn, block_slots, fill_block, chained, grown, refilled, take_free,
  take_refilled, pool_take, pool_give, struck, holding, tenant, turn, turns, started, taking,
  giving,
}
use lua_ext.Base.Counts.{occurrences, occurrences-cons}

-- How often a slot stands in the free list or is held.
unfoldable pub uses : ℕ → Tenancy → ℕ
uses n t = occurrences n t.pool.free + occurrences n t.held

-- Every slot is free once or held once, and none lies outside the blocks.
unfoldable pub IsExclusive : Tenancy → Type 0
IsExclusive t = (n : ℕ) → (uses n t ≤ 1) × (t.pool.blocks * block_slots ≤ n → uses n t ≡ 0)

-- What a block adds to the free list, for one slot.
abbrev FilledBy : ℕ → ℕ → ℕ → List ℕ → Option (List ℕ) → Type 0
FilledBy n low high free none = Unit
FilledBy n low high free (some out) =
    (occurrences n out ≤ suc (occurrences n free))
    × ((n < low) ⊎ (high ≤ n) → occurrences n out ≡ occurrences n free)

FilledBy-step :
    (n index base left : ℕ) (free : List ℕ) (out : Option (List ℕ))
    → FilledBy n (base + suc index) (base + suc index + left) ((base + index) ∷ free) out
    → FilledBy n (base + index) (base + index + suc left) free out
FilledBy-step n index base left free none h = h
FilledBy-step n index base left free (some out) h =
    let at_most = h.0 in
    let outside = h.1 in
    elim (occurrences-cons n (base + index) free) [
      | inl here ↦
          let same = outside (inl (omega (arith, here.0))) in
          (omega (arith, same, here.1), λ away. ground arith)
      | inr there ↦ (omega (arith, there.1), λ away. ground (arith, there.0, there.1))
    ]

FilledBy-if :
    (b : Bool) (n low high : ℕ) (free : List ℕ) (out : Option (List ℕ))
    → FilledBy n low high free out
    → FilledBy n low high free (if b then out else none)
FilledBy-if true n low high free out h = h
FilledBy-if false n low high free out h = tt

-- Each slot of the block is put once on the list, and no other.
fill_block-FilledBy :
    (locks : ℕ → Bool) (n left index base : ℕ) (free : List ℕ)
    → FilledBy n (base + index) (base + index + left) free (fill_block locks left index base free)
unfolding fill_block
fill_block-FilledBy locks n zero index base free = (omega arith, λ away. refl)
fill_block-FilledBy locks n (suc left) index base free =
    FilledBy-if (locks index) n (base + index) (base + index + suc left) free
      (fill_block locks left (suc index) base ((base + index) ∷ free))
      (FilledBy-step n index base left free
        (fill_block locks left (suc index) base ((base + index) ∷ free))
        (fill_block-FilledBy locks n left (suc index) base ((base + index) ∷ free)))

-- A pool that grows uses only slots outside the blocks that it had.
chained-IsExclusive :
    (p : Pool) (held : List ℕ) (out : Option (List ℕ))
    → ((n : ℕ) → FilledBy n (p.blocks * 64 + 0) (p.blocks * 64 + 0 + 64) [] out)
    → IsExclusive (record { pool = p; held = held })
    → IsExclusive (record { pool = chained p out; held = held })
unfolding IsExclusive uses
chained-IsExclusive p held none filled h n =
    let one = h n in let inside = one.0 in let outside = one.1 in (omega arith, λ far. ground arith)
chained-IsExclusive p held (some out) filled h n =
    let one = h n in
    let new = filled n in
    let inside = one.0 in
    let outside = one.1 in
    let new_at_most = new.0 in let new_outside = new.1 in (ground arith, λ far. ground arith)

grown-IsExclusive :
    (s : Supply) (p : Pool) (held : List ℕ)
    → IsExclusive (record { pool = p; held = held })
    → IsExclusive (record { pool = grown s p; held = held })
grown-IsExclusive s p held h =
    chained-IsExclusive p held
      (if s.block_made
        then fill_block s.lock_made block_slots 0 (p.blocks * block_slots) []
        else none)
      (λ n.
        FilledBy-if s.block_made n (p.blocks * 64 + 0) (p.blocks * 64 + 0 + 64) []
          (fill_block s.lock_made 64 0 (p.blocks * 64) [])
          (fill_block-FilledBy s.lock_made n 64 0 (p.blocks * 64) []))
      h

refilled-IsExclusive :
    (s : Supply) (p : Pool) (held free : List ℕ)
    → IsExclusive (record { pool = p; held = held })
    → IsExclusive (record { pool = refilled s p free; held = held })
refilled-IsExclusive s p held [] h = grown-IsExclusive s p held h
refilled-IsExclusive s p held (x ∷ xs) h = h

-- A slot goes from the head of the free list to the sandbox.
take_free-IsExclusive :
    (p : Pool) (held free : List ℕ)
    → ((n : ℕ)
        → (occurrences n free + occurrences n held ≤ 1)
          × (p.blocks * 64 ≤ n → occurrences n free + occurrences n held ≡ 0))
    → IsExclusive (record { pool = p; held = held })
    → IsExclusive (tenant held (take_free p free))
unfolding IsExclusive uses
take_free-IsExclusive p held [] each h n = h n
take_free-IsExclusive p held (x ∷ xs) each h n =
    let one = each n in
    let inside = one.0 in
    let outside = one.1 in
    let in_free = occurrences-cons n x xs in
    let in_held = occurrences-cons n x held in (ground arith, λ far. ground arith)

taken-IsExclusive :
    (p : Pool) (held : List ℕ)
    → IsExclusive (record { pool = p; held = held })
    → IsExclusive (tenant held (take_refilled p))
unfolding IsExclusive uses
taken-IsExclusive p held h = take_free-IsExclusive p held p.free h h

if-Tenancy :
    (b : Bool) (P : Tenancy → Type 0) (x y : Tenancy)
    → P x
    → (b ≡ false → P y)
    → P (if b then x else y)
if-Tenancy true P x y hx hy = hx
if-Tenancy false P x y hx hy = hy refl

if-Taken :
    (b : Bool) (held : List ℕ) (x y : Taken)
    → IsExclusive (tenant held x)
    → IsExclusive (tenant held y)
    → IsExclusive (tenant held (if b then x else y))
if-Taken true held x y hx hy = hx
if-Taken false held x y hx hy = hy

pool_take-IsExclusive :
    (s : Supply) (t : Tenancy) → IsExclusive t → IsExclusive (tenant t.held (pool_take s t.pool))
unfolding pool_take
pool_take-IsExclusive s t h =
    if-Taken t.pool.ready t.held (take_refilled (refilled s t.pool t.pool.free))
      (record { slot = none; pool = t.pool })
      (taken-IsExclusive (refilled s t.pool t.pool.free) t.held
        (refilled-IsExclusive s t.pool t.held t.pool.free h))
      h

struck-occurrences :
    (n m : ℕ) (xs : List ℕ)
    → occurrences m xs ≢ 0
    → occurrences n (m ∷ struck m xs) ≡ occurrences n xs
struck-occurrences n m [] there = ground arith
struck-occurrences n m (x ∷ xs) there = elim (Bool-cases (x == m)) [
  | inl e ↦ rw e (ground arith)
  | inr e ↦
      let ih = struck-occurrences n m xs (λ none_there. there (rw e none_there)) in
      rw e (ground arith)
]

given-IsExclusive :
    (m : ℕ) (t : Tenancy)
    → occurrences m t.held ≢ 0
    → IsExclusive t
    → IsExclusive (record { pool = pool_give m t.pool; held = struck m t.held })
unfolding IsExclusive uses pool_give
given-IsExclusive m t there h n =
    let one = h n in
    let inside = one.0 in
    let outside = one.1 in
    let in_free = occurrences-cons n m t.pool.free in
    let in_held = occurrences-cons n m (struck m t.held) in
    let moved = struck-occurrences n m t.held there in (ground arith, λ far. ground arith)

turn-IsExclusive : (e : Turn) (t : Tenancy) → IsExclusive t → IsExclusive (turn e t)
unfolding turn
turn-IsExclusive (taking s) t h = pool_take-IsExclusive s t h
turn-IsExclusive (giving m) t h =
    if-Tenancy (occurrences m t.held == 0) IsExclusive t
      (record { pool = pool_give m t.pool; held = struck m t.held }) h
      (λ there. given-IsExclusive m t (ground arith) h)

turns-IsExclusive : (es : List Turn) (t : Tenancy) → IsExclusive t → IsExclusive (turns es t)
unfolding turns
turns-IsExclusive [] t h = h
turns-IsExclusive (e ∷ es) t h = turns-IsExclusive es (turn e t) (turn-IsExclusive e t h)

started-IsExclusive : (ready : Bool) → IsExclusive (started ready)
unfolding IsExclusive uses
started-IsExclusive ready n = (omega arith, λ far. refl)

taken_once :
    (n : ℕ) (held : List ℕ) (t : Taken)
    → IsExclusive (tenant held t)
    → t.slot ≡ some n
    → occurrences n held ≡ 0
unfolding IsExclusive uses
taken_once n held t h e =
    let one = h n in
    let inside = one.0 in
    let holds_it = ap (λ o. occurrences n (holding o held)) e in
    let first = occurrences-cons n n held in ground arith

-- From the pool as module startup leaves it, after any sequence of takes and of gives of held
-- slots, malloc and the mutexes answering as they like: a slot that a take hands out is held by no
-- one.
pub handed_out_once :
    (es : List Turn) (ready : Bool) (s : Supply) (n : ℕ)
    → (pool_take s (turns es (started ready)).pool).slot ≡ some n
    → occurrences n (turns es (started ready)).held ≡ 0
handed_out_once es ready s n taken =
    let after = turns es (started ready) in
    taken_once n after.held (pool_take s after.pool)
      (pool_take-IsExclusive s after
        (turns-IsExclusive es (started ready) (started-IsExclusive ready)))
      taken
