-- ===== src/Vfs/Ledger/Sweeping.antt =====
-- The sweep at the end of a call (src/luaext_vfs.c) closes every handle and gives every byte back.
use lua_ext.Base.{
  ℕ, zero, suc, ◌≡◌, refl, sym, Bool, true, false, List, [], ◌∷◌, ◌==◌, arith, inl, inr, Bool-cases,
  length, get_or,
}
use lua_ext.Base.Budget.{BudgetLaws}
use lua_ext.Vfs.{Handle, Env, Sandbox, no_handle, handle_at}
use lua_ext.Vfs.Files.{sweep_handles, sweep}
use lua_ext.Vfs.Handles.{if_lem}
use lua_ext.Vfs.Ledger.{opened, IsLedger}
use lua_ext.Vfs.Ledger.Steps.{IsBounded, handle_release-IsLedger}
use lua_ext.Vfs.Ledger.Using.{close_handle-Steady}
use lua_ext.Vfs.Ledger.Shutting.{nothing-closed, all_closed-opened, opened-total, swept-closed}

module _ {W B : Type 0} (E : Env W B) (L : BudgetLaws E.budget) (other : ℕ)
    (bounds : IsBounded E L) where
  sweep_handles-IsLedger :
      (pending : Bool) (n : ℕ) (s : Sandbox W B)
      → IsLedger E L other s
      → IsLedger E L other (sweep_handles E pending n s)
  unfolding sweep_handles
  sweep_handles-IsLedger pending zero s v = v
  sweep_handles-IsLedger pending (suc n) s v =
      let s1 = sweep_handles E pending n s in
      let w = sweep_handles-IsLedger pending n s v in
      if_lem (IsLedger E L other) (handle_at s1 n).closed _ _ (λ _. w)
        λ _.
          if_lem (IsLedger E L other) pending _ _
            (λ _. handle_release-IsLedger E L other bounds n s1 w)
            (λ _. close_handle-Steady E L other bounds false n s1 w)

  -- Nothing of the call's files is left.
  pub record IsCleared (s : Sandbox W B) : Type 0 where
    pub none_open : s.open_handles ≡ 0
    pub none_buffered : s.buffered_bytes ≡ 0
    pub given_back : L.charged s.memory ≡ other
    pub all_closed : (h : ℕ) → (handle_at s h).closed ≡ true

  opened-all : (hs : List Handle) → opened hs ≡ 0 → (h : ℕ) → (get_or hs h no_handle).closed ≡ true
  opened-all [] e h = nothing-closed h
  opened-all (x ∷ hs) e zero = ground arith
  opened-all (x ∷ hs) e (suc h) = opened-all hs (omega arith) h

  cleared : (s : Sandbox W B) → IsLedger E L other s → s.open_handles ≡ 0 → IsCleared s
  cleared s v e =
      let z : opened s.handles ≡ 0 = omega (arith, v.counted, e) in
      let t = opened-total s.handles v.free z in
      record {
        none_open = e;
        none_buffered = omega (arith, v.summed, t);
        given_back = omega (arith, v.charges, v.summed, t);
        all_closed = opened-all s.handles z;
      }

  finished-IsLedger :
      (s : Sandbox W B)
      → IsLedger E L other s
      → opened s.handles ≡ 0
      → IsLedger E L other (record s { sweeping = false; open_handles = 0 })
  finished-IsLedger s v z = record {
    sound = v.sound;
    charges = v.charges;
    summed = v.summed;
    counted = sym z;
    free = v.free;
    capped = v.capped;
    limited = omega arith;
  }

  started-IsLedger :
      (s : Sandbox W B) → IsLedger E L other s → IsLedger E L other (record s { sweeping = true })
  started-IsLedger s v = record {
    sound = v.sound;
    charges = v.charges;
    summed = v.summed;
    counted = v.counted;
    free = v.free;
    capped = v.capped;
    limited = v.limited;
  }

  -- The sweep, in a state whose ledger is right.
  pub sweep_lem :
      (grows pending : Bool) (s : Sandbox W B)
      → E.available ≡ true
      → IsLedger E L other s
      → IsLedger E L other (sweep E grows true pending s)
        × (grows ≡ true → IsCleared (sweep E grows true pending s))
  unfolding sweep
  sweep_lem grows pending s e v = elim (Bool-cases (s.open_handles == 0)) [
    | inl z ↦ rw z (v, λ _. cleared s v (ground arith))
    | inr z ↦ elim (Bool-cases grows) [
      | inr f ↦ simp (z, f) (v, λ t. absurd cc)
      | inl t ↦
          let s1 : Sandbox W B = record s { sweeping = true } in
          let s2 = sweep_handles E pending (length s.handles) s1 in
          let w = sweep_handles-IsLedger pending (length s.handles) s1 (started-IsLedger s v) in
          let o = all_closed-opened s2.handles (swept-closed E pending s1 e) in
          let f = finished-IsLedger s2 w o in simp (z, t) (f, λ _. cleared _ f refl)
    ]
  ]
