-- ===== src/Engine/Drop.antt =====
-- crates/engine/src/lib.rs: throwing the buffer away, ending a broadcast, and starting the next.
use stream_delay.Base.{
  ℕ, ◌+◌, true, false, none, some, max, if◌then◌else◌, opt_eq, map_or, last?, retain,
}
use stream_delay.Engine.{Pending, Output, Engine}
use stream_delay.Engine.Rolling.{clear, drop_before}
use stream_delay.Engine.Sessions.{count_sessions, forget_headers, session_id}
use stream_delay.Engine.Splice.{covers}
use stream_delay.Engine.Change.{on_out}

-- `drop_buffer`, up to `count_sessions`: the running encoder session stays.
unfoldable pub emptied : Engine → Engine
emptied g =
    let current = if g.ingest_active then session_id (last? g.sessions) else none in
    count_sessions (record g {
      buffer = clear g.buffer;
      sessions = retain (λ s. opt_eq (some s.id) current) g.sessions;
    })

-- `drop_buffer`.
unfoldable pub drop_buffer : Engine → Engine
drop_buffer g =
    on_out (λ o. record o { next_seq = g.buffer.next_seq; need_sync = true })
      (forget_headers (emptied g))

-- `output_reset`; the argument is the engine's `next_seq`.
unfoldable pub reset_output : ℕ → Output → Output
reset_output next_seq o = record o {
  connected = false;
  started = false;
  need_sync = true;
  current_session = none;
  next_seq = next_seq;
  delay = o.target;
  history_short = false;
  memory_short = false;
  hold = none;
  slate_unconfirmed = false;
  cover_lost = false;
  grew_on_reconnect = false;
  gate = none;
  end_mark = none;
  mask_visible = if covers o.pending then false else o.mask_visible;
  pending = Pending.idle;
}

unfoldable pub output_reset : Engine → Engine
output_reset g = on_out (reset_output g.buffer.next_seq) g

-- `discard`.
unfoldable pub discard : Engine → Engine
discard g = output_reset (drop_buffer g)

-- The engine's `drop_before`.
unfoldable pub drop_entries : ℕ → Engine → Engine
drop_entries seq g = forget_headers (record g { buffer = drop_before seq g.buffer })

-- `restart_after_end`.
unfoldable pub restart_after_end : Engine → Engine
restart_after_end g =
    let from = map_or g.buffer.next_seq (λ m. m + 1) g.out.end_mark in
    let dropped = drop_entries from g in
    on_out (λ o. record o { next_seq = max from dropped.buffer.base_seq }) (output_reset dropped)
