-- ===== src/Convert/Refs/Refined.antt =====
-- The slots refine a store of handles: each reads as what it was made of, and none is given twice.
use lua_ext.Base.{
  ℕ, suc, ◌≤◌, ◌<◌, ◌≡◌, ◌≢◌, ◌⊎◌, inl, inr, refl, ap, Bool, true, false, Option, none, some, List,
  [], ◌∷◌, ltb, ◌==◌, if◌then◌else◌, arith, Bool-cases, length,
}
use lua_ext.Base.Counts.{occurrences, occurrences-cons}
use lua_ext.Convert.{LuaValue}
use lua_ext.Convert.Refs.{
  Refs, freelist_push, with_free, with_next, first_next, next_slot, free_slot, ref_freelist_max,
  grown_cap, int_max,
}

-- What is owed to a handle.
abbrev pub IsHeld : Refs → ℕ → LuaValue → Type 0
IsHeld s r v = (s.slots r ≡ v) × (1 ≤ r) × (r < s.next_ref) × (occurrences r s.ref_freelist ≡ 0)

abbrev pub IsListed : Refs → ℕ → Type 0
IsListed s r =
    (occurrences r s.ref_freelist ≤ 1)
    × (occurrences r s.ref_freelist ≢ 0 → (1 ≤ r) × (r < s.next_ref))

-- Every live handle has its value in its slot, and its slot is not free.
unfoldable pub IsRefined : Refs → (ℕ → Option LuaValue) → Type 0
IsRefined s live =
    ((r : ℕ) (v : LuaValue) → live r ≡ some v → IsHeld s r v) × ((r : ℕ) → IsListed s r)

pub if-Refs : (P : Refs → Type 0) (b : Bool) (x y : Refs) → P x → P y → P (if b then x else y)
if-Refs P true x y hx hy = hx
if-Refs P false x y hx hy = hy

-- A slot is put on the free list, or is lost.
freelist_push-either :
    (P : Refs → Type 0) (ref : ℕ) (s : Refs)
    → P s
    → ((cap : ℕ) → P (with_free (ref ∷ s.ref_freelist) cap s))
    → P (freelist_push ref s)
unfolding freelist_push
freelist_push-either P ref s lost free =
    if-Refs P (length s.ref_freelist == s.ref_freelist_cap)
      (if ltb ref_freelist_max (grown_cap s.ref_freelist_cap)
        then s
        else with_free (ref ∷ s.ref_freelist) (grown_cap s.ref_freelist_cap) s)
      (with_free (ref ∷ s.ref_freelist) s.ref_freelist_cap s)
      (if-Refs P (ltb ref_freelist_max (grown_cap s.ref_freelist_cap)) s
        (with_free (ref ∷ s.ref_freelist) (grown_cap s.ref_freelist_cap) s) lost
        (free (grown_cap s.ref_freelist_cap)))
      (free s.ref_freelist_cap)

freed-IsRefined :
    (ref cap : ℕ) (s : Refs) (live : ℕ → Option LuaValue)
    → IsRefined s live
    → live ref ≡ none
    → occurrences ref s.ref_freelist ≡ 0
    → 1 ≤ ref
    → ref < s.next_ref
    → IsRefined (with_free (ref ∷ s.ref_freelist) cap s) live
unfolding IsRefined
freed-IsRefined ref cap s live i dead absent first below = (
  λ r v e.
      let held = i.0 r v e in
      let count = occurrences-cons r ref s.ref_freelist in
      let other : ref ≢ r = λ same. let q = ap live same in cc in
      (held.0, held.1, held.2, ground arith),
  λ r.
      let listed = i.1 r in
      let count = occurrences-cons r ref s.ref_freelist in
      (ground (arith, listed.0), λ there. ground (arith, listed.1)),
)

pub freelist_push-IsRefined :
    (ref : ℕ) (s : Refs) (live : ℕ → Option LuaValue)
    → IsRefined s live
    → live ref ≡ none
    → occurrences ref s.ref_freelist ≡ 0
    → 1 ≤ ref
    → ref < s.next_ref
    → IsRefined (freelist_push ref s) live
freelist_push-IsRefined ref s live i dead absent first below =
    freelist_push-either (λ x. IsRefined x live) ref s i
      (λ cap. freed-IsRefined ref cap s live i dead absent first below)

-- What a choice of a slot leaves.
abbrev pub IsChosen : (ℕ → Option LuaValue) → Option ℕ × Refs → Type 0
IsChosen live (none, s) = IsRefined s live
IsChosen live (some ref, s) =
    IsRefined s live
    × (live ref ≡ none)
    × (occurrences ref s.ref_freelist ≡ 0)
    × (1 ≤ ref)
    × (ref < s.next_ref)

later_IsRefined :
    (n : ℕ) (s : Refs) (live : ℕ → Option LuaValue)
    → s.next_ref ≤ n
    → IsRefined s live
    → IsRefined (with_next n s) live
unfolding IsRefined
later_IsRefined n s live le i = (
  λ r v e. let held = i.0 r v e in (held.0, held.1, omega (arith, held.2), held.3),
  λ r.
      let listed = i.1 r in
      (listed.0, λ there. let x = listed.1 there in (x.0, omega (arith, x.1))),
)

-- The live handle of a slot that cannot be live.
not_live :
    (s : Refs) (live : ℕ → Option LuaValue) (r : ℕ) (o : Option LuaValue)
    → live r ≡ o
    → IsRefined s live
    → (s.next_ref ≤ r) ⊎ (occurrences r s.ref_freelist ≢ 0)
    → live r ≡ none
unfolding IsRefined
not_live s live r none e i h = e
not_live s live r (some v) e i h = let held = i.0 r v e in absurd (ground (arith, held.2, held.3))

if-IsChosen :
    (live : ℕ → Option LuaValue) (b : Bool) (x y : Option ℕ × Refs)
    → IsChosen live x
    → IsChosen live y
    → IsChosen live (if b then x else y)
if-IsChosen live true x y hx hy = hx
if-IsChosen live false x y hx hy = hy

-- No slot from the next one on is free.
not_free :
    (s : Refs) (live : ℕ → Option LuaValue) (r : ℕ)
    → IsRefined s live
    → s.next_ref ≤ r
    → occurrences r s.ref_freelist ≡ 0
unfolding IsRefined
not_free s live r i le = elim (Bool-cases (occurrences r s.ref_freelist == 0)) [
  | inl e ↦ ground arith
  | inr e ↦ let inside = (i.1 r).1 (λ z. ground arith) in absurd (omega (arith, inside.1))
]

first_next-bounds : (n : ℕ) → (1 ≤ first_next n) × (n ≤ first_next n)
first_next-bounds n = ground arith

next_slot-IsChosen :
    (s : Refs) (live : ℕ → Option LuaValue) → IsRefined s live → IsChosen live (next_slot s)
next_slot-IsChosen s live i =
    let n = first_next s.next_ref in
    let bounds = first_next-bounds s.next_ref in
    if-IsChosen live (n == int_max) (none, with_next n s) (some n, with_next (suc n) s)
      (later_IsRefined n s live bounds.1 i)
      (
        later_IsRefined (suc n) s live (omega (arith, bounds.1)) i,
        not_live s live n (live n) refl i (inl bounds.1),
        not_free s live n i bounds.1,
        bounds.0,
        omega arith,
      )

taken_IsRefined :
    (ref : ℕ) (free : List ℕ) (s : Refs) (live : ℕ → Option LuaValue)
    → s.ref_freelist ≡ ref ∷ free
    → IsRefined s live
    → IsRefined (with_free free s.ref_freelist_cap s) live
unfolding IsRefined
taken_IsRefined ref free s live e i = (
  λ r v l.
      let held = i.0 r v l in
      let same = ap (occurrences r) e in
      let count = occurrences-cons r ref free in (held.0, held.1, held.2, ground (arith, held.3)),
  λ r.
      let listed = i.1 r in
      let same = ap (occurrences r) e in
      let count = occurrences-cons r ref free in
      (ground (arith, listed.0), λ there. listed.1 (ground arith)),
)

taken_absent :
    (ref : ℕ) (free : List ℕ) (s : Refs) (live : ℕ → Option LuaValue)
    → s.ref_freelist ≡ ref ∷ free
    → IsRefined s live
    → (occurrences ref s.ref_freelist ≢ 0)
      × (occurrences ref free ≡ 0)
      × (1 ≤ ref)
      × (ref < s.next_ref)
unfolding IsRefined
taken_absent ref free s live e i =
    let listed = i.1 ref in
    let same = ap (occurrences ref) e in
    let count = occurrences-cons ref ref free in
    let there : occurrences ref s.ref_freelist ≢ 0 = ground arith in
    let inside = listed.1 there in (there, ground (arith, listed.0), inside.0, inside.1)

pub free_slot-IsChosen :
    (s : Refs) (live : ℕ → Option LuaValue) (free : List ℕ)
    → s.ref_freelist ≡ free
    → IsRefined s live
    → IsChosen live (free_slot s free)
free_slot-IsChosen s live [] e i = next_slot-IsChosen s live i
free_slot-IsChosen s live (ref ∷ free) e i =
    let there = taken_absent ref free s live e i in
    (
      taken_IsRefined ref free s live e i,
      not_live s live ref (live ref) refl i (inr there.0),
      there.1,
      there.2,
      there.3,
    )
