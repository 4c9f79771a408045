-- ===== src/Require/Balance.antt =====
-- What a call of require leaves of the bookkeeping, whatever the loaders do, where its own pushes find
-- memory.
use lua_ext.Base.{
  ℕ, ◌<◌, ◌^◌, true, false, Bool-cases, ◌≡◌, ap, ◌∙◌, inl, inr, arith, if◌then◌else◌,
}
use lua_ext.Base.Bytes.{same_bytes, same_bytes→eq}
use lua_ext.Require.{Name, Policy, Modules, enter, shallower, clear_mark, require_call}
use lua_ext.Require.Rules.{Rules, require_call-Goes}

-- The same depth and the same loads in progress.
abbrev pub Keeps : Modules → Modules → Type 0
Keeps s t = (t.require_depth ≡ s.require_depth) × ((n : Name) → t.loading n ≡ s.loading n)

unmarked :
    (s t : Modules) (name n : Name)
    → s.loading name ≡ false
    → t.loading n ≡ (if same_bytes n name then true else s.loading n)
    → (if same_bytes n name then false else t.loading n) ≡ s.loading n
unmarked s t name n free e = elim (Bool-cases (same_bytes n name)) [
  | inl same ↦
      let marked : s.loading n ≡ false = ap s.loading (same_bytes→eq n name same) ∙ free in
      ground (arith, marked)
  | inr other ↦ ground (arith, e)
]

clear-Keeps :
    (name : Name) (s t : Modules)
    → s.require_depth < 2 ^ 32
    → s.loading name ≡ false
    → Keeps (enter name s) t
    → Keeps s (clear_mark name (shallower t))
unfolding enter shallower clear_mark
clear-Keeps name s t low free (d, l) = (omega (arith, d), λ n. unmarked s t name n free (l n))

module _ (P : Policy) (memory : (i : ℕ) → P.has_memory i ≡ true) where
  never : (i : ℕ) → P.has_memory i ≡ false → ⊥
  never i no_memory = ground (arith, memory i)

  Keeps-Rules : Rules P (λ s. s.require_depth < 2 ^ 32) Keeps
  unfolding enter
  Keeps-Rules = record {
    blind = λ s t low (d, l, m). (d, l);
    chain = λ s t u (d, l) (d', l'). (d' ∙ d, λ n. l' n ∙ l n);
    reaches = λ s t low (d, l). omega (arith, d, low);
    entered = λ name s low a. omega arith;
    abandoned = λ name s t i low a no_memory r. absurd (never i no_memory);
    half_left = λ name s t i low a no_memory r. absurd (never i no_memory);
    left_all = λ name s t low a r. clear-Keeps name s t low a.free r;
    loaded_one = λ name s t low a r. clear-Keeps name s t low a.free r;
  }

  -- Where each of luaext_require.c's own pushes outside a protected call finds memory, and from
  -- any depth that is a 32-bit number, whatever the loaders do, other calls of require and errors
  -- that they catch or do not catch included: a call of require, done or failed, leaves the depth
  -- as it was and each module marked as in progress exactly if it was before, so a load that
  -- failed can be tried again.
  pub require_call_keeps :
      (room : ℕ) (name : Name) (s : Modules)
      → s.require_depth < 2 ^ 32
      → (((require_call P room name s).1).require_depth ≡ s.require_depth)
        × ((n : Name) → ((require_call P room name s).1).loading n ≡ s.loading n)
  require_call_keeps room name s low =
      require_call-Goes P (λ s. s.require_depth < 2 ^ 32) Keeps Keeps-Rules room name s low
