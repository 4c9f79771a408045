-- ===== src/Convert/Refs/Runs.antt =====
-- The slots through any calls: a live handle reads as its value.
use lua_ext.Base.{
  ℕ, ◌≤◌, ◌<◌, ◌≡◌, ◌≢◌, refl, sym, ◌∙◌, ap, Bool, true, false, Option, none, some, List, [], ◌∷◌,
  ltb, ◌==◌, ==_iff, if◌then◌else◌, arith,
}
use lua_ext.Base.Counts.{occurrences}
use lua_ext.Convert.{LuaValue, nil}
use lua_ext.Convert.Refs.{
  Refs, Handles, HandleCall, creating, releasing, freelist_push, written, free_slot, stored,
  ref_create, ref_push, ref_release, created, released, handle_call, handle_calls, no_handles,
}
use lua_ext.Convert.Refs.Refined.{
  freelist_push-IsRefined, IsChosen, free_slot-IsChosen, IsHeld, IsRefined, if-Refs,
}

abbrev pub IsRefinedBy : Handles → Type 0
IsRefinedBy h = IsRefined h.refs h.live

abbrev pub Held : Refs → (ℕ → Option LuaValue) → Type 0
Held s live = (r : ℕ) (v : LuaValue) → live r ≡ some v → IsHeld s r v

written-Held :
    (b : Bool) (ref r : ℕ) (v w : LuaValue) (s : Refs) (live : ℕ → Option LuaValue)
    → r == ref ≡ b
    → (if b then some v else live r) ≡ some w
    → Held s live
    → occurrences ref s.ref_freelist ≡ 0
    → 1 ≤ ref
    → ref < s.next_ref
    → ((if b then v else s.slots r) ≡ w)
      × (1 ≤ r)
      × (r < s.next_ref)
      × (occurrences r s.ref_freelist ≡ 0)
written-Held true ref r v w s live same e held absent first below =
    let q = (==_iff r ref).0 same in
    (cc, omega (arith, q), omega (arith, q), ap (λ x. occurrences x s.ref_freelist) q ∙ absent)
written-Held false ref r v w s live other e held absent first below = held r w e

-- A value in a slot that was neither live nor free.
written-IsRefined :
    (ref : ℕ) (v : LuaValue) (s : Refs) (live : ℕ → Option LuaValue)
    → IsRefined s live
    → occurrences ref s.ref_freelist ≡ 0
    → 1 ≤ ref
    → ref < s.next_ref
    → IsRefined (written ref v s) (λ i. if i == ref then some v else live i)
unfolding IsRefined
written-IsRefined ref v s live i absent first below =
    (λ r w e. written-Held (r == ref) ref r v w s live refl e i.0 absent first below, i.1)

stored-IsRefined :
    (ok : Bool) (v : LuaValue) (live : ℕ → Option LuaValue) (c : Option ℕ × Refs)
    → IsChosen live c
    → IsRefinedBy (created v live (stored ok v c))
stored-IsRefined ok v live (none, s) h = h
stored-IsRefined true v live (some ref, s) h = written-IsRefined ref v s live h.0 h.2 h.3 h.4
stored-IsRefined false v live (some ref, s) h =
    freelist_push-IsRefined ref s live h.0 h.1 h.2 h.3 h.4

forgotten-Held :
    (b grows : Bool) (ref r : ℕ) (v : LuaValue) (s : Refs) (live : ℕ → Option LuaValue)
    → (if b then none else live r) ≡ some v
    → Held s live
    → ((if grows then (if b then nil else s.slots r) else s.slots r) ≡ v)
      × (1 ≤ r)
      × (r < s.next_ref)
      × (occurrences r s.ref_freelist ≡ 0)
forgotten-Held true grows ref r v s live e held = cc
forgotten-Held false true ref r v s live e held = held r v e
forgotten-Held false false ref r v s live e held = held r v e

-- A slot that is given up.
forgotten-IsRefined :
    (grows : Bool) (ref : ℕ) (s : Refs) (live : ℕ → Option LuaValue)
    → IsRefined s live
    → IsRefined (if grows then written ref nil s else s) (λ i. if i == ref then none else live i)
unfolding IsRefined
forgotten-IsRefined true ref s live i =
    (λ r v e. forgotten-Held (r == ref) true ref r v s live e i.0, i.1)
forgotten-IsRefined false ref s live i =
    (λ r v e. forgotten-Held (r == ref) false ref r v s live e i.0, i.1)

same_free :
    (grows : Bool) (ref : ℕ) (s : Refs)
    → ((if grows then written ref nil s else s).ref_freelist ≡ s.ref_freelist)
      × ((if grows then written ref nil s else s).next_ref ≡ s.next_ref)
same_free true ref s = (refl, refl)
same_free false ref s = (refl, refl)

self_dead : (ref : ℕ) (live : ℕ → Option LuaValue) → (if ref == ref then none else live ref) ≡ none
self_dead ref live = ground arith

-- A live handle is given up.
ref_release-IsRefined :
    (grows : Bool) (ref : ℕ) (v : LuaValue) (s : Refs) (live : ℕ → Option LuaValue)
    → IsRefined s live
    → IsHeld s ref v
    → IsRefined (ref_release grows ref s) (λ i. if i == ref then none else live i)
unfolding ref_release
ref_release-IsRefined grows ref v s live i held =
    let gone = if grows then written ref nil s else s in
    let same = same_free grows ref s in
    if-Refs (λ x. IsRefined x (λ i. if i == ref then none else live i)) (ltb ref 1) s
      (freelist_push ref gone) (forgotten-IsRefined false ref s live i)
      (freelist_push-IsRefined ref gone (λ i. if i == ref then none else live i)
        (forgotten-IsRefined grows ref s live i) (self_dead ref live)
        (ap (occurrences ref) same.0 ∙ held.3) held.1 (omega (arith, held.2, same.1)))

released-IsRefined :
    (grows : Bool) (ref : ℕ) (h : Handles) (o : Option LuaValue)
    → h.live ref ≡ o
    → IsRefinedBy h
    → IsRefinedBy (released grows ref h o)
unfolding IsRefined
released-IsRefined grows ref h none e i = i
released-IsRefined grows ref h (some v) e i =
    ref_release-IsRefined grows ref v h.refs h.live i (i.0 ref v e)

if-created :
    (b : Bool) (v : LuaValue) (live : ℕ → Option LuaValue) (x y : Option ℕ × Refs)
    → IsRefinedBy (created v live x)
    → IsRefinedBy (created v live y)
    → IsRefinedBy (created v live (if b then x else y))
if-created true v live x y hx hy = hx
if-created false v live x y hx hy = hy

handle_call-IsRefined :
    (x : HandleCall) (h : Handles) → IsRefinedBy h → IsRefinedBy (handle_call x h)
unfolding handle_call ref_create
handle_call-IsRefined (creating grows ok v) h i =
    if-created grows v h.live (stored ok v (free_slot h.refs h.refs.ref_freelist)) (none, h.refs)
      (stored-IsRefined ok v h.live (free_slot h.refs h.refs.ref_freelist)
        (free_slot-IsChosen h.refs h.live h.refs.ref_freelist refl i))
      i
handle_call-IsRefined (releasing grows ref) h i = released-IsRefined grows ref h (h.live ref) refl i

handle_calls-IsRefined :
    (xs : List HandleCall) (h : Handles) → IsRefinedBy h → IsRefinedBy (handle_calls xs h)
unfolding handle_calls
handle_calls-IsRefined [] h i = i
handle_calls-IsRefined (x ∷ xs) h i =
    handle_calls-IsRefined xs (handle_call x h) (handle_call-IsRefined x h i)

no_handles-IsRefined : IsRefinedBy no_handles
unfolding IsRefined
no_handles-IsRefined = (λ r v e. cc, λ r. (omega arith, λ there. absurd (there refl)))

ref_push-held : (r : ℕ) (s : Refs) (v : LuaValue) → IsHeld s r v → ref_push r s ≡ v
unfolding ref_push
ref_push-held r s v h = ground (arith, h.0, h.1)

new_slot :
    (ok : Bool) (v : LuaValue) (live : ℕ → Option LuaValue) (c : Option ℕ × Refs) (q : ℕ)
    → IsChosen live c
    → (stored ok v c).0 ≡ some q
    → live q ≡ none
new_slot ok v live (none, s) q h e = cc
new_slot true v live (some ref, s) q h e = let same : ref ≡ q = cc in ap live (sym same) ∙ h.1
new_slot false v live (some ref, s) q h e = cc

ref_create-new :
    (grows ok : Bool) (v : LuaValue) (h : Handles) (q : ℕ)
    → IsRefinedBy h
    → (ref_create grows ok v h.refs).0 ≡ some q
    → h.live q ≡ none
unfolding ref_create
ref_create-new true ok v h q i e =
    new_slot ok v h.live (free_slot h.refs h.refs.ref_freelist) q
      (free_slot-IsChosen h.refs h.live h.refs.ref_freelist refl i) e
ref_create-new false ok v h q i e = cc

-- After any sequence of taking slots and of giving up those that are held, stores failing and the
-- stack refusing to grow as they like: a slot that is held reads as the value that it was taken
-- for, and a slot that is taken next is another one.
pub handles_read :
    (xs : List HandleCall) (r : ℕ) (v : LuaValue) (grows ok : Bool) (w : LuaValue) (q : ℕ)
    → (handle_calls xs no_handles).live r ≡ some v
    → (ref_create grows ok w (handle_calls xs no_handles).refs).0 ≡ some q
    → (ref_push r (handle_calls xs no_handles).refs ≡ v) × (q ≢ r)
unfolding IsRefined
handles_read xs r v grows ok w q e new =
    let h = handle_calls xs no_handles in
    let i = handle_calls-IsRefined xs no_handles no_handles-IsRefined in
    let dead = ref_create-new grows ok w h q i new in
    (ref_push-held r h.refs v (i.0 r v e), λ same. let again = ap h.live same in cc)
