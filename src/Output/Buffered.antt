-- ===== src/Output/Buffered.antt =====
-- `luaext_output_write_channel` in Buffer mode.
use mathlib.Core.Path.{ap₂}
use lua_ext.Base.{
  ℕ, ◌+◌, ◌≤◌, ◌<◌, ◌≡◌, ◌≢◌, refl, sym, ◌∙◌, ap, Bool, true, false, ◌&&◌, Option, none, some, List,
  ◌++◌, length, length-append, length-take, take, size_max, arith, inl, inr, Bool-cases,
  Option-cases, ltb,
}
use lua_ext.Base.Budget.{BudgetLaws}
use lua_ext.Output.Buffer.{Mode, buffer, callback, Sink, pending, capacity_of, append}
use lua_ext.Output.{
  Sandbox, Env, Status, accepted, refused_memory, refused_budget, raised, flush, streams,
}
use lua_ext.Output.Reserve.{SameSettings, IsCharged, Reserves}
use lua_ext.Output.Truncation.{kept, counted}
use lua_ext.Output.Log.{
  Log, tagged, stored, flagged, stored-accepted, stored-refused, counted-tagged, flagged-accepted,
  flagged-refused,
}
use lua_ext.Output.Write.{conclude, append_reserved, count_write, room_for, truncate}

module _ {W : Type 0} (E : Env W) (L : BudgetLaws E.budget) (other limit : ℕ) (before : Bool) where
  -- An open sandbox in Buffer mode to which `log` has been written since its bytes were last taken,
  -- when its flag was `before`: it holds what the budget keeps of the log and was let in, counts
  -- all of it, and its flag says whether anything was lost.
  pub record Holds (log : Log) (sb : Sandbox W) : Type 0 where
    pub buffers : sb.out.mode ≡ buffer
    pub open_still : sb.closed ≡ false
    pub budget : sb.out.limit ≡ limit
    pub text : pending sb.out ≡ stored (kept limit log)
    pub count : sb.out.written ≡ counted log
    pub flag : sb.out.truncated ≡ flagged before limit log
    pub charged : IsCharged L other sb

  -- What a write of `text` has done, by its answer: it was let in, and the budget is blamed exactly
  -- if it keeps not all of it and the policy is to fail; or the memory accounting refused it, and
  -- then the buffer's bytes are as they were and the flag is set.
  abbrev pub Wrote : Log → List ℕ → Sandbox W → Option (Status × Sandbox W) → Type 0
  Wrote log text sb none = ⊥
  Wrote log text sb (some (accepted, sb')) =
      Holds (log ++ tagged true text) sb'
      × ((ltb (room_for limit (counted log) (length text)) (length text) && sb.overflow_fails)
          ≡ false)
  Wrote log text sb (some (refused_budget, sb')) =
      Holds (log ++ tagged true text) sb'
      × ((ltb (room_for limit (counted log) (length text)) (length text) && sb.overflow_fails)
          ≡ true)
  Wrote log text sb (some (refused_memory, sb')) =
      Holds (log ++ tagged false text) sb'
      × (pending sb'.out ≡ pending sb.out)
      × (sb'.out.truncated ≡ true)
  Wrote log text sb (some (raised, sb')) = ⊥

  pub flush-buffer :
      (fuel : ℕ) (all : Bool) (sb : Sandbox W)
      → sb.out.mode ≡ buffer
      → flush E fuel all sb ≡ some (true, sb)
  unfolding flush
  flush-buffer fuel all sb e = rw (idle, flush)
    where
      idle : streams E sb.out ≡ false
      idle =
          ap (λ (m : Mode). elim m as (λ _. Bool) [ callback ↦ sb.out.has_callback | _ ↦ false ]) e

  pub conclude-Wrote :
      (log : Log) (text : List ℕ) (sb sb' : Sandbox W) (over : Bool)
      → over ≡ ltb (room_for limit (counted log) (length text)) (length text)
      → sb'.overflow_fails ≡ sb.overflow_fails
      → Holds (log ++ tagged true text) sb'
      → Wrote log text sb (conclude E over (some (true, sb')))
  conclude-Wrote log text sb sb' over e f h = elim (Bool-cases (over && sb'.overflow_fails)) [
    | inl b ↦ rw b (h, blame ∙ b)
    | inr b ↦ rw b (h, blame ∙ b)
  ]
    where
      blame :
          (ltb (room_for limit (counted log) (length text)) (length text) && sb.overflow_fails)
          ≡ (over && sb'.overflow_fails)
      blame = ap₂ {C = Bool} ◌&&◌ (sym e) (sym f)

  capacity-append :
      (out : Sink) (t : List ℕ) → 0 < capacity_of out → capacity_of (append out t) ≡ capacity_of out
  unfolding append
  capacity-append out t h = elim (Option-cases out.text) [
    | inl e ↦ absurd (empty e h)
    | inr (u, e) ↦ rw e refl
  ]
    where
      empty : out.text ≡ none → 0 < capacity_of out → ⊥
      empty e = rw e (λ n. omega arith)

  -- The sandbox with the counters of this write.
  abbrev pub tallied : List ℕ → Bool → Sandbox W → Sandbox W
  tallied text is_stderr sb = record sb { out = count_write (length text) is_stderr sb.out }

  pub pending-tallied :
      (text : List ℕ) (is_stderr : Bool) (sb : Sandbox W)
      → pending (tallied text is_stderr sb).out ≡ pending sb.out
  unfolding count_write
  pending-tallied text is_stderr sb = refl

  pub mode-tallied :
      (text : List ℕ) (is_stderr : Bool) (sb : Sandbox W)
      → (tallied text is_stderr sb).out.mode ≡ sb.out.mode
  unfolding count_write
  mode-tallied text is_stderr sb = refl

  pub tallied-Holds :
      (log : Log) (text : List ℕ) (is_stderr : Bool) (sb sb' : Sandbox W)
      → limit ≤ size_max
      → Holds log sb
      → SameSettings (tallied text is_stderr sb).out sb'.out
      → sb'.closed ≡ sb.closed
      → pending sb'.out ≡ stored (kept limit (log ++ tagged true text))
      → IsCharged L other sb'
      → Holds (log ++ tagged true text) sb'
  unfolding count_write
  tallied-Holds log text is_stderr sb sb' w h same c t k = record {
    buffers = same.mode ∙ h.buffers;
    open_still = c ∙ h.open_still;
    budget = same.limit ∙ h.budget;
    text = t;
    count = same.written ∙ rw h.count (counted-tagged true log text);
    flag =
        same.truncated ∙ rw (h.flag, h.budget, h.count) (flagged-accepted before limit log text w);
    charged = k;
  }

  refused-Holds :
      (log : Log) (text : List ℕ) (is_stderr : Bool) (sb : Sandbox W)
      → limit ≤ size_max
      → length text ≢ 0
      → Holds log sb
      → Holds (log ++ tagged false text) (truncate E (tallied text is_stderr sb))
  unfolding count_write
  refused-Holds log text is_stderr sb w n h = record {
    buffers = h.buffers;
    open_still = h.open_still;
    budget = h.budget;
    text = h.text ∙ sym (stored-refused limit log text w);
    count = rw h.count (counted-tagged false log text);
    flag = flagged-refused before limit log text n;
    charged = record {
      sound = h.charged.sound;
      charges = h.charged.charges;
      sized = record { fits = h.charged.sized.fits; word = h.charged.sized.word };
    };
  }

  room_for_nothing : (limit written n : ℕ) → n ≡ 0 → 0 < room_for limit written n → ⊥
  unfolding room_for
  room_for_nothing limit written n e p = ground arith

  SameSettings-append : (a b : Sink) (t : List ℕ) → SameSettings a b → SameSettings a (append b t)
  unfolding append
  SameSettings-append a b t s = record {
    mode = s.mode;
    has_callback = s.has_callback;
    written = s.written;
    emitted = s.emitted;
    limit = s.limit;
    chunk = s.chunk;
    truncated = s.truncated;
    buffered_is_stderr = s.buffered_is_stderr;
  }

  pending-append : (out : Sink) (t : List ℕ) → pending (append out t) ≡ pending out ++ t
  unfolding append
  pending-append out t = refl

  IsCharged-append :
      (room : ℕ) (text : List ℕ) (sb : Sandbox W)
      → 0 < room
      → length (pending sb.out) + room ≤ capacity_of sb.out
      → IsCharged L other sb
      → IsCharged L other (record sb { out = append sb.out (take room text) })
  IsCharged-append room text sb p f k =
      let same = capacity-append sb.out (take room text) (omega arith) in
      record {
        sound = k.sound;
        charges = omega (arith, same, k.charges);
        sized = record {
          fits = omega (
            arith,
            same,
            ap {B = ℕ} length (pending-append sb.out (take room text)),
            length-append (pending sb.out) (take room text),
            length-take room text,
          );
          word = omega (arith, same, k.sized.word);
        };
      }

  pub append_reserved-Wrote :
      (fuel : ℕ) (log : Log) (text : List ℕ) (is_stderr : Bool) (sb : Sandbox W)
      (r : Bool × Sandbox W)
      → let room = room_for sb.out.limit sb.out.written (length text) in
        limit ≤ size_max
        → Holds log sb
        → 0 < room
        → Reserves L other room (tallied text is_stderr sb) r
        → Wrote log text sb (append_reserved E fuel (ltb room (length text)) (take room text) r)
  append_reserved-Wrote fuel log text is_stderr sb (false, sb') w h p v =
      rw v
        (refused-Holds log text is_stderr sb w written h, pending-tallied text is_stderr sb, refl)
    where
      written : length text ≢ 0
      written e = room_for_nothing sb.out.limit sb.out.written (length text) e p
  append_reserved-Wrote fuel log text is_stderr sb (true, sb') w h p (t, f, same, c, o, k) =
      rw (flush-buffer fuel false sb2 (settings.mode ∙ mode-tallied text is_stderr sb ∙ h.buffers))
        (conclude-Wrote log text sb sb2 _ over o (
          tallied-Holds log text is_stderr sb sb2 w h settings c held
            (IsCharged-append room text sb' p fits k)))
    where
      room : ℕ
      room = room_for sb.out.limit sb.out.written (length text)

      sb2 : Sandbox W
      sb2 = record sb' { out = append sb'.out (take room text) }

      settings : SameSettings (tallied text is_stderr sb).out sb2.out
      settings = SameSettings-append _ sb'.out (take room text) same

      held : pending sb2.out ≡ stored (kept limit (log ++ tagged true text))
      held =
          pending-append sb'.out (take room text)
          ∙ ap (λ (x : List ℕ). x ++ take room text)
              (t ∙ pending-tallied text is_stderr sb ∙ h.text)
          ∙ rw (h.budget, h.count) (sym (stored-accepted limit log text w))

      over : ltb room (length text) ≡ ltb (room_for limit (counted log) (length text)) (length text)
      over = rw (h.budget, h.count) refl

      fits : length (pending sb'.out) + room ≤ capacity_of sb'.out
      fits = omega (arith, f, ap {B = ℕ} length t)
