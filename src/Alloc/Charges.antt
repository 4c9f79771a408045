-- ===== src/Alloc/Charges.antt =====
-- Host-side charges (`luaext_alloc_charge`, `luaext_alloc_discharge`) and the limit.
use lua_ext.Base.{
  ℕ, ◌+◌, ◌-◌, ◌≤◌, ◌<◌, ◌≡◌, refl, sym, ◌∙◌, ◌≢◌, ◌⊎◌, Bool, true, false, arith, size_max, inl,
  inr, Bool-cases, ◌==◌,
}
use lua_ext.Alloc.External.{Host}
use lua_ext.Alloc.{Alloc, Memory, charge, discharge, set_limit, fits, live_bytes}
use lua_ext.Alloc.Counters.{
  IsSound, HasRoom, fits-HasRoom, HasRoom-fits, tune_gc-SameCounters, live_bytes-eq,
}

-- What a charge of `n` bytes has done, by its answer.
pub record Charged (n : ℕ) (a a' : Alloc) : Type 0 where
  pub sound : IsSound a'
  pub charged : a'.charged ≡ a.charged + n
  pub usage : a'.usage ≡ a.usage
  pub limit : a'.limit ≡ a.limit
  pub peak : (a'.peak ≡ a.peak) ⊎ ((a'.peak ≡ a'.usage + a'.charged) × (a.peak < a'.peak))
  pub ceiling : a.limit ≢ 0 → 0 < n → a'.usage + a'.charged ≤ a.limit

abbrev pub ChargeOutcome : (H : Host) → ℕ → Memory H → Bool × Memory H → Type 0
ChargeOutcome H n m (true, m') = Charged n m.alloc m'.alloc
ChargeOutcome H n m (false, m') = (m' ≡ m) × ¬ HasRoom m.alloc n

module _ (H : Host) where
  -- For sound counters: a charge that is taken has grown charged by it and leaves what is live
  -- within the limit, and one that is refused had no room and changes nothing at all.
  pub charge_lem : (n : ℕ) (m : Memory H) → IsSound m.alloc → ChargeOutcome H n m (charge H n m)
  unfolding charge
  charge_lem n m h = elim (Bool-cases (n == 0)) [
    | inl z ↦ rw z (ground arith)
    | inr z ↦ elim (Bool-cases (fits (live_bytes m.alloc) m.alloc.limit n)) [
      | inl f ↦ rw (z, f) (grind (arith, tune_gc-SameCounters H, fits-HasRoom, live_bytes-eq))
      | inr f ↦ rw (z, f) (refl, λ r. cc (sym f ∙ HasRoom-fits m.alloc n h (ground arith) r))
    ]
  ]

  -- A discharge gives back what it names, and never more than is charged.
  pub discharge_lem :
      (n : ℕ) (m : Memory H)
      → IsSound m.alloc
      → let a' = (discharge H n m).alloc in
        IsSound a'
        × (a'.charged ≡ m.alloc.charged - n)
        × (a'.usage ≡ m.alloc.usage)
        × (a'.limit ≡ m.alloc.limit)
        × (a'.peak ≡ m.alloc.peak)
  unfolding discharge
  discharge_lem n m h = grind (arith, tune_gc-SameCounters H)

  pub ChargeOutcome-true :
      (n : ℕ) (m : Memory H) (r : Bool × Memory H)
      → ChargeOutcome H n m r
      → r.0 ≡ true
      → Charged n m.alloc r.1.alloc
  ChargeOutcome-true n m (true, m') o e = o
  ChargeOutcome-true n m (false, m') o e = cc

  -- For sound counters: a charge that is taken and then discharged leaves charged, usage and limit
  -- as they were.
  pub discharge-charge :
      (n : ℕ) (m : Memory H)
      → IsSound m.alloc
      → (charge H n m).0 ≡ true
      → let a' = (discharge H n (charge H n m).1).alloc in
        (a'.charged ≡ m.alloc.charged) × (a'.usage ≡ m.alloc.usage) × (a'.limit ≡ m.alloc.limit)
  discharge-charge n m h e =
      let c = ChargeOutcome-true n m (charge H n m) (charge_lem n m h) e in
      omega (arith, c, discharge_lem n (charge H n m).1 c.sound)

  pub set_limit-IsSound :
      (n : ℕ) (m : Memory H)
      → n ≤ size_max
      → IsSound m.alloc
      → let a' = (set_limit H m n).alloc in
        IsSound a' × (a'.limit ≡ n) × (a'.usage ≡ m.alloc.usage) × (a'.charged ≡ m.alloc.charged)
  unfolding set_limit
  set_limit-IsSound n m w h = grind (arith, tune_gc-SameCounters H)
