-- ===== src/Alloc/Example.antt =====
-- A host to evaluate src/luaext_alloc.c against: it hands out pointers in order, has no room for
-- more than 4096 bytes in one block, and keeps the collector's parameters as bytes.
use lua_ext.Base.{
  ℕ, suc, ◌+◌, ◌-◌, ◌*◌, ◌/◌, ◌≡◌, leb, refl, arith, Bool, true, false, Option, none, some, ltb,
  if◌then◌else◌, ℤ, pos, negsuc, is_negative,
}
use lua_ext.Alloc.External.{Host, GcParam}
use lua_ext.Alloc.{Memory}
use lua_ext.Alloc.Counters.{IsSound}
use lua_ext.Alloc.Collector.{GcLaws, same_param}

pub record Machine : Type 0 where
  pub pause : ℕ
  pub step_mul : ℕ
  pub minor_mul : ℕ
  pub minor_major : ℕ
  pub stopped : Bool
  pub next : ℕ
  pub php_limit : ℤ
  pub php_used : ℕ

abbrev pub next_block : Option ℕ → ℕ → Machine → Option ℕ × Machine
next_block ptr size w =
    if ltb 4096 size then (none, w) else (some w.next, record w { next = w.next + 1 })

abbrev pub param : GcParam → Machine → ℕ
param GcParam.pause w = w.pause
param GcParam.step_mul w = w.step_mul
param GcParam.minor_mul w = w.minor_mul
param GcParam.minor_major w = w.minor_major

-- The low four bits of the five that are kept of `n`, with the exponent `e` above them.
unfoldable pub mantissa : ℕ → ℕ → ℕ → ℕ
mantissa ℕ.zero e n = 255
mantissa (suc fuel) e n =
    let rest = mantissa fuel (e + 1) (n / 2) in if ltb n 32 then (n - 16) + 16 * e else rest

-- What `lua_gc` keeps of a parameter: a byte, in 1/128, rounded.
abbrev pub byte_of : ℕ → ℕ
byte_of v =
    let n = (v * 128 + 99) / 100 in
    if leb 396800 v then 255 else if ltb n 16 then n else mantissa 15 1 n

abbrev pub set_param : GcParam → ℕ → Machine → Machine
set_param GcParam.pause v w = record w { pause = byte_of v }
set_param GcParam.step_mul v w = record w { step_mul = byte_of v }
set_param GcParam.minor_mul v w = record w { minor_mul = byte_of v }
set_param GcParam.minor_major v w = record w { minor_major = byte_of v }

abbrev pub answer_param : Bool → GcParam → ℕ → Machine → ℤ × Machine
answer_param true p v w = (negsuc 0, w)
answer_param false p v w = (pos (param p w), set_param p v w)

abbrev pub example_host : Host
example_host = record {
  World = Machine;
  realloc = next_block;
  erealloc = next_block;
  free = λ ptr w. w;
  efree = λ ptr w. w;
  memory_limit = λ w. w.php_limit;
  memory_usage = λ w. w.php_used;
  gc_param = λ p v w. answer_param w.stopped p v w;
}

pub answer_negative :
    (b : Bool) (p : GcParam) (v : ℕ) (w : Machine) → is_negative (answer_param b p v w).0 ≡ b
answer_negative true p v w = refl
answer_negative false p v w = refl

pub answer_stopped :
    (b : Bool) (p : GcParam) (v : ℕ) (w : Machine) → (answer_param b p v w).1.stopped ≡ w.stopped
answer_stopped true p v w = refl
answer_stopped false GcParam.pause v w = refl
answer_stopped false GcParam.step_mul v w = refl
answer_stopped false GcParam.minor_mul v w = refl
answer_stopped false GcParam.minor_major v w = refl

pub answer_refused :
    (b : Bool) (p q : GcParam) (v : ℕ) (w : Machine)
    → b ≡ true
    → param q (answer_param b p v w).1 ≡ param q w
answer_refused true p q v w e = refl
answer_refused false p q v w e = cc

pub param-set_param :
    (p q : GcParam) (v : ℕ) (w : Machine)
    → param q (set_param p v w) ≡ (if same_param q p then byte_of v else param q w)
param-set_param GcParam.pause GcParam.pause v w = refl
param-set_param GcParam.pause GcParam.step_mul v w = refl
param-set_param GcParam.pause GcParam.minor_mul v w = refl
param-set_param GcParam.pause GcParam.minor_major v w = refl
param-set_param GcParam.step_mul GcParam.pause v w = refl
param-set_param GcParam.step_mul GcParam.step_mul v w = refl
param-set_param GcParam.step_mul GcParam.minor_mul v w = refl
param-set_param GcParam.step_mul GcParam.minor_major v w = refl
param-set_param GcParam.minor_mul GcParam.pause v w = refl
param-set_param GcParam.minor_mul GcParam.step_mul v w = refl
param-set_param GcParam.minor_mul GcParam.minor_mul v w = refl
param-set_param GcParam.minor_mul GcParam.minor_major v w = refl
param-set_param GcParam.minor_major GcParam.pause v w = refl
param-set_param GcParam.minor_major GcParam.step_mul v w = refl
param-set_param GcParam.minor_major GcParam.minor_mul v w = refl
param-set_param GcParam.minor_major GcParam.minor_major v w = refl

pub answer_accepted :
    (b : Bool) (p q : GcParam) (v : ℕ) (w : Machine)
    → b ≡ false
    → param q (answer_param b p v w).1 ≡ (if same_param q p then byte_of v else param q w)
answer_accepted true p q v w e = cc
answer_accepted false p q v w e = param-set_param p q v w

abbrev pub example_gc : GcLaws example_host
example_gc = record {
  param_of = param;
  stopped = λ w. w.stopped;
  stored = byte_of;
  answer = λ p v w. answer_negative w.stopped p v w;
  keeps = λ p v w. answer_stopped w.stopped p v w;
  refused = λ p q v w e. answer_refused w.stopped p q v w e;
  accepted = λ p q v w e. answer_accepted w.stopped p q v w e;
}

-- A sandbox with a limit of 1000 bytes, of which 300 are a script's and 100 the host side's.
abbrev pub small : Memory example_host
small = record {
  has_state = true;
  alloc = record {
    limit = 1000;
    usage = 300;
    charged = 100;
    peak = 450;
    gc_last_tune = 0;
    use_zend_mm = false;
  };
  world = record {
    pause = byte_of 250;
    step_mul = byte_of 200;
    minor_mul = byte_of 20;
    minor_major = byte_of 70;
    stopped = false;
    next = 7;
    php_limit = pos 4194304;
    php_used = 2000000;
  };
}

pub small-IsSound : IsSound small.alloc
small-IsSound = record {
  limit_word = omega arith;
  live_word = omega arith;
  peak_covers = omega arith;
}
