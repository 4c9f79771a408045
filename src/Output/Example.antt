-- ===== src/Output/Example.antt =====
-- A host to evaluate src/luaext_output.c against: its callback keeps what it is given, its clocks do
-- nothing and its memory accounting has room for 10000 bytes.
use lua_ext.Base.{
  ℕ, ◌+◌, ◌-◌, ◌≤◌, ◌≡◌, refl, Bool, true, false, List, [], ◌++◌, none, arith, leb, if◌then◌else◌,
}
use lua_ext.Base.Budget.{Budget, BudgetLaws}
use lua_ext.Output.Buffer.{Mode}
use lua_ext.Output.{Sandbox, Env}
use lua_ext.Output.Quiet.{Keeps, Quiet}

pub record Outside : Type 0 where
  pub held : ℕ
  pub sent : List ℕ

abbrev pub has_room : ℕ → Outside → Bool
has_room n w = leb (w.held + n) 10000

abbrev pub example_budget : Budget Outside
example_budget = record {
  charge = λ n w. (has_room n w, if has_room n w then record w { held = w.held + n } else w);
  discharge = λ n w. record w { held = w.held - n };
}

abbrev pub Within : Outside → Type 0
Within w = w.held ≤ 10000

pub charge-Within : (n : ℕ) (w : Outside) → Within w → Within (example_budget.charge n w).1
charge-Within n w h = ground arith

pub charge-held :
    (n : ℕ) (w : Outside)
    → (example_budget.charge n w).0 ≡ true
    → (example_budget.charge n w).1.held ≡ w.held + n
charge-held n w e = ground arith

pub charge-refused :
    (n : ℕ) (w : Outside)
    → (example_budget.charge n w).0 ≡ false
    → (example_budget.charge n w).1 ≡ w
charge-refused n w e = rw (e, has_room) refl

pub charge-sent : (n : ℕ) (w : Outside) → (example_budget.charge n w).1.sent ≡ w.sent
charge-sent n w = ground arith

abbrev pub example_laws : BudgetLaws example_budget
example_laws = record {
  IsSound = Within;
  charged = λ w. w.held;
  charge-IsSound = charge-Within;
  discharge-IsSound = λ n w h. omega arith;
  charge_taken = λ n w h e. charge-held n w e;
  charge_refused = λ n w h e. charge-refused n w e;
  discharged = λ n w h. refl;
}

abbrev pub example_env : Env Outside
example_env = record {
  budget = example_budget;
  pause_clocks = λ w. (true, w);
  resume_clocks = λ w. w;
  span_begin = λ w. w;
  span_end = λ w. w;
  call = λ chunk is_stderr sb. record sb {
    world = record (sb.world) { sent = sb.world.sent ++ chunk };
  };
}

abbrev pub still : (w : Outside) → Keeps Within (λ w'. w'.held) (λ w'. w'.sent) w w
still w = record { sound = λ h. h; charges = refl; delivery = refl }

abbrev pub example_quiet : Quiet example_env example_laws
example_quiet = record {
  delivered = λ w. w.sent;
  charge_delivery = charge-sent;
  discharge_delivery = λ n w. refl;
  pause_keeps = still;
  resume_keeps = still;
  begin_keeps = still;
  end_keeps = still;
  call_out = λ c e sb. refl;
  call_sound = λ c e sb h. h;
  call_charges = λ c e sb. refl;
  call_delivery = λ c e sb. refl;
}

-- A sandbox in the given mode, with nothing written, and 40 bytes charged for something else.
abbrev pub fresh : Mode → ℕ → ℕ → Sandbox Outside
fresh mode limit chunk = record {
  out = record {
    mode = mode;
    text = none;
    capacity = 0;
    has_callback = true;
    written = 0;
    emitted = 0;
    limit = limit;
    chunk = chunk;
    truncated = false;
    buffered_is_stderr = false;
  };
  world = record { held = 40; sent = [] };
  exception = false;
  has_state = true;
  closed = false;
  co_sweeping = false;
  in_lua = 1;
  in_php = 0;
  php_calls_out = 0;
  bill_host_time = false;
  overflow_fails = false;
}
