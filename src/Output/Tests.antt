-- ===== src/Output/Tests.antt =====
-- src/luaext_output.c run on a few writes.
use lua_ext.Base.{ℕ, ◌≡◌, refl, Bool, true, false, Option, none, some, List, [], ◌∷◌, arith}
use lua_ext.Output.Buffer.{
  buffer, callback, pending, last_line_end, owed, consume, append, wanted, doubled,
}
use lua_ext.Output.{Sandbox, accepted, refused_memory, reserve, flush, drain, emit}
use lua_ext.Output.Delivery.{IsAccounted, Delivers}
use lua_ext.Output.Flush.{flush-Delivers}
use lua_ext.Output.Truncation.{kept}
use lua_ext.Output.Log.{tagged, stored, has_lost}
use lua_ext.Output.Buffered.{Holds, Wrote}
use lua_ext.Output.Budgeted.{write_channel-Wrote}
use lua_ext.Output.ReadBack.{Reads, get-Reads}
use lua_ext.Output.Write.{write_channel, write_counted, room_for, count_write, get}
use lua_ext.Output.Example.{Outside, example_env, example_laws, example_quiet, fresh}

-- hi, a newline, ho
lines : List ℕ
lines = b'h' ∷ b'i' ∷ 10 ∷ b'h' ∷ b'o' ∷ []

streaming : Sandbox Outside
streaming = record (fresh callback 0 8) {
  out = record ((fresh callback 0 8).out) { text = some lines; capacity = 256 };
  world = record { held = 296; sent = [] };
}

-- What a flush of whole lines leaves behind.
left_pending : Option (Bool × Sandbox Outside) → List ℕ
left_pending none = []
left_pending (some (answer, sb)) = pending sb.out

flushed_lines : left_pending (flush example_env 6 false streaming) ≡ b'h' ∷ b'o' ∷ []
unfolding left_pending streaming lines flush drain owed last_line_end emit consume
flushed_lines = refl

streaming-IsAccounted : IsAccounted example_quiet 40 streaming
unfolding streaming
streaming-IsAccounted = record { sound = omega arith; charges = refl }

flush-Delivers_example :
    (r : Bool × Sandbox Outside) × (flush example_env 6 false streaming ≡ some r)
    × Delivers example_quiet 40 false streaming r
unfolding streaming lines
flush-Delivers_example =
    flush-Delivers example_quiet 40 6 false streaming refl (omega arith) streaming-IsAccounted

-- Four of five bytes have been written to the buffer, which has charged 256 for them, and the
-- fifth was dropped.
abbrev written : Sandbox Outside
written = record (fresh buffer 4 8) {
  out = record ((fresh buffer 4 8).out) {
    text = some (b'h' ∷ b'i' ∷ 10 ∷ b'h' ∷ []);
    capacity = 256;
    written = 5;
    emitted = 5;
    truncated = true;
  };
  world = record { held = 296; sent = [] };
}

after_lines : write_channel example_env 1 lines false (fresh buffer 4 8) ≡ some (accepted, written)
unfolding lines write_channel write_counted room_for count_write reserve wanted doubled flush append
after_lines = refl

written-Holds : Holds example_env example_laws 40 4 false (tagged true lines) written
unfolding tagged lines stored has_lost
written-Holds = record {
  buffers = refl;
  open_still = refl;
  budget = refl;
  text = refl;
  count = refl;
  flag = refl;
  charged = record {
    sound = omega arith;
    charges = refl;
    sized = record { fits = omega arith; word = omega arith };
  };
}

-- A write that the memory accounting refused is counted, and keeps nothing.
abbrev crowded : Sandbox Outside
crowded = record (fresh buffer 8 8) { world = record { held = 9990; sent = [] } }

abbrev counted_only : Sandbox Outside
counted_only = record (fresh buffer 8 8) {
  out = record ((fresh buffer 8 8).out) { written = 5; emitted = 5; truncated = true };
}

after_refusal :
    write_channel example_env 1 lines false crowded
    ≡ some (refused_memory, record counted_only { world = crowded.world })
unfolding lines write_channel write_counted room_for count_write reserve wanted doubled
after_refusal = refl

-- Then memory is free again.
counted_only-Holds : Holds example_env example_laws 40 8 false (tagged false lines) counted_only
unfolding tagged lines stored has_lost
counted_only-Holds = record {
  buffers = refl;
  open_still = refl;
  budget = refl;
  text = refl;
  count = refl;
  flag = refl;
  charged = record {
    sound = omega arith;
    charges = refl;
    sized = record { fits = omega arith; word = omega arith };
  };
}

write_channel-Wrote_example :
    Wrote example_env example_laws 40 8 false
      (tagged false lines)
      lines
      counted_only
      (write_channel example_env 1 lines true counted_only)
write_channel-Wrote_example =
    write_channel-Wrote example_env example_laws 40 8 false (omega arith) 1 (tagged false lines)
      lines true counted_only counted_only-Holds

get-Reads_example :
    (r : List ℕ × Sandbox Outside) × (get example_env 1 true written ≡ some (some r.0, r.1))
    × Reads example_env example_laws 40 4 false (stored (kept 4 (tagged true lines))) true written r
get-Reads_example =
    get-Reads example_env example_laws 40 4 false 1 (tagged true lines) true written written-Holds
