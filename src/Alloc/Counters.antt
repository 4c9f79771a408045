-- ===== src/Alloc/Counters.antt =====
-- What each operation of src/luaext_alloc.c does to the counters, whatever the host answers.
use native.Mathlib.Decide.{ℕ_discrete}
use lua_ext.Base.{
  ℕ, ◌+◌, ◌-◌, ◌≤◌, ◌<◌, ◌≡◌, ◌≢◌, true, Option, none, some, arith, size_max, inl, inr, Bool-cases,
}
use lua_ext.Alloc.External.{Host}
use lua_ext.Alloc.Tuning.{tier}
use lua_ext.Alloc.{
  settle_growth, zend_mm_refuses, Alloc, Memory, live_bytes, fits, book_growth, book_charge,
  tune_gc, install_tier, grow_block,
}

-- The counters of two accounts agree: all but which tier is installed.
pub record SameCounters (a b : Alloc) : Type 0 where
  pub limit : b.limit ≡ a.limit
  pub usage : b.usage ≡ a.usage
  pub charged : b.charged ≡ a.charged
  pub peak : b.peak ≡ a.peak

-- No counter is past the end of a `size_t`, and the peak is a bound of what is live.
pub record IsSound (a : Alloc) : Type 0 where
  pub limit_word : a.limit ≤ size_max
  pub live_word : a.usage + a.charged ≤ size_max
  pub peak_covers : a.usage + a.charged ≤ a.peak

pub SameCounters-IsSound : {a b : Alloc} → SameCounters a b → IsSound a → IsSound b
SameCounters-IsSound s h = omega arith

-- The sum that the code takes does not wrap.
pub live_bytes-eq : (a : Alloc) → IsSound a → live_bytes a ≡ a.usage + a.charged
live_bytes-eq a h = omega arith

-- What fits in stays below the end of a `size_t`, and below the limit where there is one.
pub record HasRoom (a : Alloc) (growth : ℕ) : Type 0 where
  pub word : a.usage + a.charged + growth ≤ size_max
  pub ceiling : a.limit ≢ 0 → a.usage + a.charged + growth ≤ a.limit

pub fits-HasRoom :
    (a : Alloc) (growth : ℕ)
    → IsSound a
    → fits (live_bytes a) a.limit growth ≡ true
    → HasRoom a growth
unfolding fits
fits-HasRoom a growth h e = record {
  word = ground (arith, live_bytes-eq a h);
  ceiling = λ n. ground (arith, live_bytes-eq a h);
}

pub HasRoom-fits :
    (a : Alloc) (growth : ℕ)
    → IsSound a
    → 0 < growth
    → HasRoom a growth
    → fits (live_bytes a) a.limit growth ≡ true
unfolding fits
HasRoom-fits a growth h p r = elim (ℕ_discrete a.limit 0) [
  | yes e ↦ ground (arith, live_bytes-eq a h)
  | no n ↦ ground (arith, live_bytes-eq a h, r.ceiling n)
]

pub book_growth-IsSound :
    (a : Alloc) (growth : ℕ) → IsSound a → HasRoom a growth → IsSound (book_growth growth a)
book_growth-IsSound a growth h r = ground (arith, r.word)

pub book_charge-IsSound : (a : Alloc) (n : ℕ) → IsSound a → HasRoom a n → IsSound (book_charge n a)
book_charge-IsSound a n h r = ground (arith, r.word, live_bytes-eq a h)

pub book_growth_usage :
    (a : Alloc) (growth : ℕ) → HasRoom a growth → (book_growth growth a).usage ≡ a.usage + growth
book_growth_usage a growth r = omega (arith, r.word)

pub book_charge_charged :
    (a : Alloc) (n : ℕ) → HasRoom a n → (book_charge n a).charged ≡ a.charged + n
book_charge_charged a n r = omega (arith, r.word)

module _ (H : Host) where
  install_tier-SameCounters :
      (t : ℕ) (m : Memory H) → SameCounters m.alloc (install_tier H t m).alloc
  unfolding install_tier
  install_tier-SameCounters t m = ground arith

  pub tune_gc-SameCounters : (m : Memory H) → SameCounters m.alloc (tune_gc H m).alloc
  unfolding tune_gc
  tune_gc-SameCounters m =
      ground (arith, install_tier-SameCounters (tier (live_bytes m.alloc) m.alloc.limit) m)

  -- What a call that asks for `growth` more bytes has done to the counters: it has the room and
  -- counts them, or it changes nothing.
  abbrev pub Grown : ℕ → Memory H → Option ℕ × Memory H → Type 0
  Grown growth m (none, m') = SameCounters m.alloc m'.alloc
  Grown growth m (some p, m') =
      (fits (live_bytes m.alloc) m.alloc.limit growth ≡ true)
      × SameCounters (book_growth growth m.alloc) m'.alloc

  settle_growth-Grown :
      (growth : ℕ) (m : Memory H) (r : Option ℕ × H.World)
      → fits (live_bytes m.alloc) m.alloc.limit growth ≡ true
      → Grown growth m (settle_growth H growth m r)
  settle_growth-Grown growth m (none, w) e = omega arith
  settle_growth-Grown growth m (some p, w) e = (e, tune_gc-SameCounters _)

  pub grow_block-Grown :
      (ptr : Option ℕ) (old nsize : ℕ) (m : Memory H)
      → Grown (nsize - old) m (grow_block H ptr old nsize m)
  unfolding grow_block
  grow_block-Grown ptr old nsize m =
      elim (Bool-cases (fits (live_bytes m.alloc) m.alloc.limit (nsize - old))) [
        | inr e ↦ rw e (omega arith)
        | inl e ↦ elim (Bool-cases (zend_mm_refuses H nsize m)) [
          | inl z ↦ rw (e, z) (omega arith)
          | inr z ↦ rw (e, z) (settle_growth-Grown _ m _ e)
        ]
      ]
