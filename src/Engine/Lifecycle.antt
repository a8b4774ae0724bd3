-- ===== src/Engine/Lifecycle.antt =====
-- crates/engine/src/lib.rs, the output's life: the destination connects and drops, output is unsent,
-- and the broadcast is told to end.
pub mod Resume
use stream_delay.Base.{
  ℕ, ◌+◌, ◌-◌, Bool, true, false, not, ◌&&◌, ◌||◌, Option, none, some, [], min, max, ltb, leb,
  if◌then◌else◌, is_some_and, is_some, or_else, find, checked_sub, length,
}
use stream_delay.Base.Int.{pos}
use stream_delay.Engine.{Time, sec, no_ts, Pending, HoldFrame, Output, Engine}
use stream_delay.Engine.Rolling.{entry, arrival_or, sync_at_or_before}
use stream_delay.Engine.Splice.{splice_to}
use stream_delay.Engine.Change.{on_out, back_under_max, back_to_target}

-- A hold goes on over a new connection, sent again at once.
abbrev pub hold_again : Time → Option HoldFrame → Option HoldFrame
hold_again now none = none
hold_again now (some h) = some (record h { needs_headers = true; next = now })

-- What a new connection resets.
unfoldable pub connected : Time → Output → Output
connected now o = record o {
  connected = true;
  hold = hold_again now o.hold;
  generation = o.generation + 1;
  fresh = true;
  last_out_ts = 0;
  last_kind_ts = no_ts;
  last_pts = pos 0;
  sent_headers = [];
  sent_metadata = none;
  first_emitted = none;
}

-- `matches!(pending, Hold { .. } | Dump { .. })`.
abbrev pub is_holding : Pending → Bool
is_holding (Pending.hold _ _) = true
is_holding (Pending.dump _ _ _ _) = true
is_holding _ = false

abbrev pub need_sync : Engine → Engine
need_sync g = on_out (λ o. record o { need_sync = true }) g

-- The broadcast goes on over the new connection, from the keyframe `k`.
unfoldable pub resume_at : Time → ℕ → Engine → Engine
resume_at now k g =
    let delay = max g.out.delay (now - arrival_or g.buffer k now) in
    let g₁ =
      on_out (λ o. record o { grew_on_reconnect = o.grew_on_reconnect || ltb o.delay delay }) g in
    let g₂ = back_under_max (splice_to k delay g₁) in
    if g.config.restore_after_reconnect then back_to_target g₂ else g₂

-- `output_connected`. It returns the new `generation`.
unfoldable pub output_connected : Time → Engine → Engine
output_connected now g =
    let c = on_out (connected now) g in
    if is_holding c.out.pending
    then need_sync c
    else if not c.out.started
    then c
    else elim (sync_at_or_before c.buffer c.out.next_seq) [
      | none ↦ need_sync c
      | some k ↦ resume_at now k c
    ]

-- Where sending goes on after `last_written`.
abbrev pub resume_seq : Option ℕ → Output → Option ℕ
resume_seq (some s) o = some (s + 1)
resume_seq none o = o.first_emitted

abbrev pub back_to : Option ℕ → ℕ → ℕ
back_to none next_seq = next_seq
back_to (some r) next_seq = min next_seq r

-- `output_disconnected`.
unfoldable pub output_disconnected : Option ℕ → Engine → Engine
output_disconnected last_written g =
    on_out
      (λ o. record o {
        connected = false;
        next_seq = back_to (resume_seq last_written o) o.next_seq;
      })
      g

abbrev pub forget_sent : Output → Output
forget_sent o = record o { sent_headers = []; sent_metadata = none }

-- `unsend`.
unfoldable pub unsend : Option ℕ → Engine → Engine
unsend taken g =
    if not g.out.connected
    then g
    else on_out
        (λ o. record o {
          next_seq = back_to (resume_seq taken o) o.next_seq;
          sent_headers = [];
          sent_metadata = none;
        })
        g

-- `lost` of `dump_after`: some of what was emitted was thrown away.
abbrev pub lost_output : Option ℕ → Output → Bool
lost_output (some s) o = ltb (s + 1) o.next_seq
lost_output none o = is_some o.first_emitted

-- `dump_after` where there is nothing left to dump.
unfoldable pub nothing_left : Option ℕ → Engine → Engine
nothing_left taken g =
    if not g.out.connected
    then g
    else on_out
        (λ o. record o {
          need_sync = if lost_output taken o && not o.pending_headers then true else o.need_sync;
          sent_headers = [];
          sent_metadata = none;
        })
        g

-- `drained`, `effective_delay`, `has_buffered`, `last_seq`.
unfoldable pub drained : Engine → Bool
drained g = leb g.buffer.next_seq g.out.next_seq

unfoldable pub effective_delay : Engine → Time
effective_delay g = if g.out.started then g.out.delay else g.out.target

unfoldable pub has_buffered : Engine → Bool
has_buffered g = ltb 0 (length g.buffer.ring)

unfoldable pub last_seq : Engine → Option ℕ
last_seq g = checked_sub g.buffer.next_seq 1

-- `output_wanted`.
abbrev pub cursor : Engine → Option ℕ
cursor g =
    if g.out.need_sync then find (λ s. leb g.out.next_seq s) g.buffer.syncs else some g.out.next_seq

abbrev pub due_soon : Time → Option ℕ → Engine → Bool
due_soon now none g = false
due_soon now (some s) g =
    is_some_and (entry g.buffer s) (λ e. leb (e.arrival + g.out.delay) (now + sec + sec + sec))

unfoldable pub output_wanted : Time → Engine → Bool
output_wanted now g =
    is_some g.out.hold || (g.out.connected && not (drained g)) || due_soon now (cursor g) g

-- `end_after`, `cancel_end`, `end_reached`.
unfoldable pub end_after : ℕ → Engine → Engine
end_after seq g = on_out (λ o. record o { end_mark = some seq }) g

unfoldable pub cancel_end : Engine → Engine
cancel_end g = on_out (λ o. record o { end_mark = none }) g

abbrev pub past_end : Output → Bool
past_end o = is_some_and o.end_mark (λ m. ltb m o.next_seq)

unfoldable pub end_reached : Engine → Bool
end_reached g = past_end g.out

-- `set_keep_history`, `set_restore_after_reconnect`.
unfoldable pub set_keep_history : Bool → Engine → Engine
set_keep_history keep g = record g { config = record g.config { keep_history = keep } }

unfoldable pub set_restore_after_reconnect : Bool → Engine → Engine
set_restore_after_reconnect restore g = record g {
  config = record g.config { restore_after_reconnect = restore };
}
