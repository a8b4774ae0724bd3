-- ===== src/Engine/Splice.antt =====
-- crates/engine/src/lib.rs: moving the cursor to a keyframe (a splice), rewriting timestamps, and
-- taking on a pending change.
pub mod Times
use stream_delay.Base.{
  ℕ, ◌+◌, ◌-◌, ◌*◌, ◌/◌, Bool, true, false, not, ◌&&◌, ◌||◌, Option, none, some, max, if◌then◌else◌,
  opt_eq, map_or,
}
use stream_delay.Base.Int.{ℤ, pos, pos_part, sub_ℕ, ◌+ℤ◌, ◌-ℤ◌}
use stream_delay.Flv.Hevc.{cra}
use stream_delay.Engine.{
  Time, ms, Kind, Entry, Pending, HoldFrame, Output, Engine, kind_ts, set_kind_ts,
}
use stream_delay.Engine.Rolling.{entry}
use stream_delay.Engine.Sessions.{frame_ms}

-- `after_sent`.
unfoldable pub after_sent : Output → ℕ → ℤ → ℕ
after_sent o frame cts =
    max (o.last_out_ts + max frame 1) (pos_part (o.last_pts +ℤ pos (max frame 1) -ℤ cts))

-- `splice_to` once the entry `e` numbered `k` is found.
unfoldable pub spliced : Entry → ℕ → ℕ → ℕ → Output → Output
spliced e base k delay o = record o {
  ts_offset = sub_ℕ base e.ts;
  fresh = false;
  gate = some (record { session = e.session; ts = e.ts });
  skip_leading_after = if opt_eq e.hevc_nal (some cra) then some k else none;
  splices = if o.started then o.splices + 1 else o.splices;
  started = true;
  next_seq = k;
  delay = delay;
  need_sync = false;
  current_session = some e.session;
  pending_headers = true;
}

-- The timestamp that the keyframe spliced to is sent with.
unfoldable pub splice_base : Engine → Entry → ℕ
splice_base g e = if g.out.fresh then 0 else after_sent g.out (frame_ms g.sessions e.session) e.cts

-- `splice_to`.
unfoldable pub splice_to : ℕ → ℕ → Engine → Engine
splice_to k delay g = elim (entry g.buffer k) [
  | none ↦ g
  | some e ↦ record g { out = spliced e (splice_base g e) k delay g.out }
]

-- `t.max(last)` where there is a last timestamp of that kind.
abbrev pub not_before : ℕ → Option ℕ → ℕ
not_before t none = t
not_before t (some last) = max t last

-- The timestamp `out_ts` returns.
unfoldable pub out_time : Output → Kind → ℕ → ℕ
out_time o kind ts = not_before (pos_part (pos ts +ℤ o.ts_offset)) (kind_ts o.last_kind_ts kind)

-- `out_ts`, for its effect.
unfoldable pub sent_at : Kind → ℕ → Output → Output
sent_at kind t o = record o {
  last_kind_ts = set_kind_ts o.last_kind_ts kind t;
  last_out_ts = max o.last_out_ts t;
}

-- `Pending::covers`, `after_dump` and `cancellable`.
abbrev pub covers : Pending → Bool
covers (Pending.mask _ _ _ _ _ _) = true
covers (Pending.dump _ _ _ _) = true
covers _ = false

abbrev pub after_dump : Pending → Bool
after_dump (Pending.replay _ _) = true
after_dump (Pending.hold _ _) = true
after_dump (Pending.dump _ _ _ _) = true
after_dump (Pending.mask _ _ _ _ _ dump) = dump
after_dump _ = false

abbrev pub is_idle : Pending → Bool
is_idle Pending.idle = true
is_idle _ = false

abbrev pub is_hold : Pending → Bool
is_hold (Pending.hold _ _) = true
is_hold _ = false

abbrev pub is_mask : Pending → Bool
is_mask (Pending.mask _ _ _ _ _ _) = true
is_mask _ = false

unfoldable pub cancellable : Pending → Bool
cancellable p = not (is_idle p) && not (after_dump p)

-- `*dump_delay_mut() = d`, where there is one.
unfoldable pub with_dump_delay : ℕ → Pending → Option Pending
with_dump_delay d (Pending.replay from _) = some (Pending.replay from d)
with_dump_delay d (Pending.hold from _) = some (Pending.hold from d)
with_dump_delay d (Pending.dump _ started from shown) = some (Pending.dump d started from shown)
with_dump_delay d (Pending.mask _ started anchor mute shown true) =
    some (Pending.mask d started anchor mute shown true)
with_dump_delay d _ = none

-- `set_pending`.
unfoldable pub set_pending : Pending → Output → Output
set_pending p o = record o {
  mask_visible = if covers o.pending then false else o.mask_visible;
  hold = if is_hold p then o.hold else none;
  pending = p;
}

-- `end_hold`; the clock does not run backwards, so `now - h.last` stays at or above 0.
unfoldable pub end_hold : Time → Output → Output
end_hold now o = elim o.hold [
  | none ↦ o
  | some h ↦ record o { hold = none; last_out_ts = o.last_out_ts + (now - h.last) / ms }
]
