-- ===== src/Alloc/Collector.antt =====
-- The collector's parameters agree with the tier that src/luaext_alloc.c remembers.
use lua_ext.Base.{
  ℕ, suc, ◌-◌, ◌/◌, ◌≤◌, ◌≡◌, ◌≢◌, ◌↔◌, refl, ◌∙◌, Bool, true, false, arith, ◌==◌, if◌then◌else◌,
  is_negative, inl, inr, Bool-cases,
}
use lua_ext.Alloc.External.{Host, GcParam}
use lua_ext.Alloc.Tuning.{GcTuning, gc_tiers, tier}
use lua_ext.Alloc.{Memory, tune_gc, install_tier, live_bytes, set_rest}

-- What is live as a share of the limit: the least tier is 1 from a half on, 2 from three quarters
-- and 3 from seven eighths.
abbrev pub threshold : ℕ → ℕ → ℕ
threshold ℕ.zero limit = 0
threshold (suc ℕ.zero) limit = limit / 2
threshold (suc (suc ℕ.zero)) limit = limit - limit / 4
threshold (suc (suc (suc k))) limit = limit - limit / 8

-- With a limit, the tier is at least k, for k up to 3, exactly if what is live has reached the
-- k-th threshold: a half, three quarters and seven eighths of the limit, as the shifts round them.
pub tier-threshold :
    (k live limit : ℕ) → limit ≢ 0 → k ≤ 3 → (k ≤ tier live limit) ↔ (threshold k limit ≤ live)
unfolding tier
tier-threshold ℕ.zero live limit n h = ground arith
tier-threshold (suc ℕ.zero) live limit n h = ground arith
tier-threshold (suc (suc ℕ.zero)) live limit n h = ground arith
tier-threshold (suc (suc (suc ℕ.zero))) live limit n h = ground arith
tier-threshold (suc (suc (suc (suc k)))) live limit n h = absurd (omega arith)

-- Under the same limit, more live bytes never choose a lower tier.
tier_mono : (a b limit : ℕ) → a ≤ b → tier a limit ≤ tier b limit
unfolding tier
tier_mono a b limit h = ground arith

abbrev pub field : GcParam → GcTuning → ℕ
field GcParam.pause t = t.pause
field GcParam.step_mul t = t.step_mul
field GcParam.minor_mul t = t.minor_mul
field GcParam.minor_major t = t.minor_major

abbrev pub same_param : GcParam → GcParam → Bool
same_param GcParam.pause GcParam.pause = true
same_param GcParam.step_mul GcParam.step_mul = true
same_param GcParam.minor_mul GcParam.minor_mul = true
same_param GcParam.minor_major GcParam.minor_major = true
same_param _ _ = false

-- What the code relies on in `lua_gc(L, LUA_GCPARAM, …)`: it refuses everything, and changes
-- nothing, while the collector is stopped; otherwise it sets that one parameter, to what
-- it keeps of the value (the parameter is a byte, and `stored` rounds); and it neither stops nor
-- starts the collector.
pub record GcLaws (H : Host) : Type 0 where
  pub param_of : GcParam → H.World → ℕ
  pub stopped : H.World → Bool
  pub stored : ℕ → ℕ
  pub answer : (p : GcParam) (v : ℕ) (w : H.World) → is_negative (H.gc_param p v w).0 ≡ stopped w
  pub keeps : (p : GcParam) (v : ℕ) (w : H.World) → stopped (H.gc_param p v w).1 ≡ stopped w
  pub refused :
      (p q : GcParam) (v : ℕ) (w : H.World)
      → stopped w ≡ true
      → param_of q (H.gc_param p v w).1 ≡ param_of q w
  pub accepted :
      (p q : GcParam) (v : ℕ) (w : H.World)
      → stopped w ≡ false
      → param_of q (H.gc_param p v w).1 ≡ (if same_param q p then stored v else param_of q w)

module _ {H : Host} (G : GcLaws H) where
  open G use {param_of, stopped, stored, answer, keeps, refused, accepted}

  -- The collector runs with what it keeps of the parameters of the tier that is remembered.
  abbrev pub IsTuned : Memory H → Type 0
  IsTuned m = (p : GcParam) → param_of p m.world ≡ stored (field p (gc_tiers m.alloc.gc_last_tune))

  module _ (t : GcTuning) (w : H.World) (running : stopped w ≡ false) where
    w1 : H.World
    w1 = (H.gc_param GcParam.step_mul t.step_mul w).1

    w2 : H.World
    w2 = (H.gc_param GcParam.minor_mul t.minor_mul w1).1

    running1 : stopped w1 ≡ false
    unfolding w1
    running1 = keeps GcParam.step_mul t.step_mul w ∙ running

    running2 : stopped w2 ≡ false
    unfolding w2
    running2 = keeps GcParam.minor_mul t.minor_mul w1 ∙ running1

    -- The three calls that follow set the rest, and leave what the first one set.
    install_rest :
        param_of GcParam.pause w ≡ stored t.pause
        → (p : GcParam) → param_of p (set_rest H t w) ≡ stored (field p t)
    unfolding w1 w2
    install_rest e GcParam.pause =
        accepted GcParam.minor_major GcParam.pause t.minor_major w2 running2
        ∙ accepted GcParam.minor_mul GcParam.pause t.minor_mul w1 running1
        ∙ accepted GcParam.step_mul GcParam.pause t.step_mul w running
        ∙ e
    install_rest e GcParam.step_mul =
        accepted GcParam.minor_major GcParam.step_mul t.minor_major w2 running2
        ∙ accepted GcParam.minor_mul GcParam.step_mul t.minor_mul w1 running1
        ∙ accepted GcParam.step_mul GcParam.step_mul t.step_mul w running
    install_rest e GcParam.minor_mul =
        accepted GcParam.minor_major GcParam.minor_mul t.minor_major w2 running2
        ∙ accepted GcParam.minor_mul GcParam.minor_mul t.minor_mul w1 running1
    install_rest e GcParam.minor_major =
        accepted GcParam.minor_major GcParam.minor_major t.minor_major w2 running2

  install_tier-IsTuned :
      (t : ℕ) (m : Memory H)
      → IsTuned m
      → IsTuned (install_tier H t m)
        × (stopped m.world ≡ false → (install_tier H t m).alloc.gc_last_tune ≡ t)
  unfolding install_tier
  install_tier-IsTuned t m h = elim (Bool-cases (stopped m.world)) [
    | inl s ↦
        rw (answer GcParam.pause (gc_tiers t).pause m.world ∙ s)
          (λ p. refused GcParam.pause p (gc_tiers t).pause m.world s ∙ h p, λ r. cc)
    | inr r ↦ rw (answer GcParam.pause (gc_tiers t).pause m.world ∙ r) (
      install_rest (gc_tiers t) _ (keeps GcParam.pause _ m.world ∙ r)
          (accepted GcParam.pause GcParam.pause _ m.world r),
      λ _. refl,
    )
  ]

  -- Where lua_gc keeps its laws and the collector runs with what lua_gc keeps of the parameters of
  -- the tier that gc_last_tune remembers (it rounds them), it does so after luaext_alloc_tune_gc,
  -- also across a refusal; and with a state whose collector is not stopped, that is the tier of
  -- what is live.
  pub tune_gc-IsTuned :
      (m : Memory H)
      → IsTuned m
      → IsTuned (tune_gc H m)
        × (m.has_state ≡ true
            → stopped m.world ≡ false
            → (tune_gc H m).alloc.gc_last_tune ≡ tier (live_bytes m.alloc) m.alloc.limit)
  unfolding tune_gc
  tune_gc-IsTuned m h = elim (Bool-cases m.has_state) [
    | inr e ↦ simp e (h, λ f. cc)
    | inl e ↦ elim (Bool-cases (tier (live_bytes m.alloc) m.alloc.limit == m.alloc.gc_last_tune)) [
      | inl same ↦ simp (e, same) (h, λ _ _. ground arith)
      | inr other ↦
          simp (e, other)
            (let (k, l) = install_tier-IsTuned (tier (live_bytes m.alloc) m.alloc.limit) m h in
              (k, λ _. l))
    ]
  ]
