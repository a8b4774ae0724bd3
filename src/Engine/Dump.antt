-- ===== src/Engine/Dump.antt =====
-- crates/engine/src/lib.rs, dumps: what has not aired is thrown away, and a replay, the slate or a
-- hold follows.
pub mod Discards
use stream_delay.Base.{
  ℕ, ◌+◌, ◌-◌, ◌*◌, Bool, true, false, not, ◌&&◌, ◌||◌, Option, none, some, [], ◌∷◌, ◌++◌, map, min,
  max, ltb, leb, if◌then◌else◌, is_some, is_some_and, last?, rfind, checked_sub,
}
use stream_delay.Flv.Hevc.{cra, cra_to_bla}
use stream_delay.Flv.{Bytes}
use stream_delay.Engine.{
  Time, ms, Kind, kind_eq, DelayMode, DumpOutcome, Entry, HeaderRec, Session, Buffer, Pending,
  HoldFrame, Output, Engine,
}
use stream_delay.Engine.Rolling.{entry, cut_at, newest_sync_arrived_by, arrival_or}
use stream_delay.Engine.Sessions.{count_sessions, frame_ms, headers_at}
use stream_delay.Engine.Splice.{splice_to, set_pending}
use stream_delay.Engine.Change.{on_out}
use stream_delay.Engine.Drop.{drop_buffer}

-- `dump_delay`.
unfoldable pub dump_delay : Engine → ℕ
dump_delay g =
    min (if ltb 0 g.out.target then g.out.target else g.out.delay) (g.config.max_delay_ms * ms)

-- `can_dump`.
unfoldable pub can_dump : Engine → Bool
can_dump g =
    not g.out.started
    || is_some g.out.end_mark
    || not g.ingest_active
    || leb (500 * ms) (dump_delay g)

-- The first sequence number that has not aired.
abbrev pub cut : Engine → ℕ
cut g = max g.out.next_seq g.buffer.base_seq

-- `replay_from`.
unfoldable pub replay_from : Time → ℕ → Engine → Option ℕ
replay_from now delay g =
    if not g.config.keep_history
    then none
    else newest_sync_arrived_by g.buffer (checked_sub (arrival_or g.buffer (cut g) now) delay)

-- `dump_would_replay`.
unfoldable pub dump_would_replay : Time → Engine → Bool
dump_would_replay now g =
    g.out.started
    && not (is_some g.out.end_mark)
    && g.ingest_active
    && leb (500 * ms) (dump_delay g)
    && is_some (replay_from now (dump_delay g) g)

abbrev pub before : ℕ → HeaderRec → HeaderRec
before seq h = record h { seq = min h.seq (seq - 1) }

-- `split_session`.
unfoldable pub split_session : ℕ → Engine → Engine
split_session seq g = elim (last? g.sessions) [
  | none ↦ g
  | some current ↦
      let next : Session = record current {
        id = g.next_session;
        headers = map (before seq) current.headers;
      } in
      count_sessions
        (record g { next_session = g.next_session + 1; sessions = g.sessions ++ (next ∷ []) })
]

-- `replay_instead`: what has not aired is cut off, and what is recorded next is a new session.
unfoldable pub cut_unaired : Engine → Engine
cut_unaired g = let from = cut g in split_session from (record g { buffer = cut_at from g.buffer })

-- `replay_instead`, once the keyframe `k` to replay from is found.
unfoldable pub replay_at : Time → ℕ → ℕ → Engine → Engine
replay_at now delay k g =
    let g' = on_out (set_pending (Pending.replay (cut g) delay)) (cut_unaired g) in
    splice_to k (now - arrival_or g'.buffer k now) g'

-- The payload of a held frame: a CRA one, sent again after other frames, is marked as a new start.
unfoldable pub held_payload : Entry → Bytes
held_payload e =
    let is_cra = is_some_and e.hevc_nal (λ t. leb cra t && leb t cra) in
    elim e.nal_offset [
      | none ↦ e.payload
      | some offset ↦
          if is_cra
          then (elim (cra_to_bla e.payload offset) [ none ↦ e.payload | some bla ↦ bla ])
          else e.payload
    ]

unfoldable pub hold_frame : Time → Engine → Entry → HoldFrame
hold_frame now g e = record {
  payload = held_payload e;
  cts = e.cts;
  frame_ms = frame_ms g.sessions e.session;
  headers = headers_at g.sessions e.session e.seq;
  last = now;
  next = now;
  needs_headers = false;
}

-- `aired_keyframe`.
unfoldable pub aired_keyframe : Time → Engine → Option HoldFrame
aired_keyframe now g = elim (rfind (λ s. ltb s g.out.next_seq) g.buffer.syncs) [
  | none ↦ none
  | some k ↦ elim (entry g.buffer k) [
    | none ↦ none
    | some e ↦ if kind_eq e.kind Kind.video then some (hold_frame now g e) else none
  ]
]

-- The dump that throws the buffer away, and what covers the gap.
unfoldable pub dump_all : Time → ℕ → Bool → Engine → Engine × DumpOutcome
dump_all now delay cover g =
    let frame = aired_keyframe now g in
    let d = drop_buffer g in
    let from = d.buffer.next_seq in
    if cover
    then (
      on_out
          (λ o. record (set_pending (Pending.dump delay now from none) o) {
            slate_change = o.slate_change + 1;
            mask_visible = true;
            hold = frame;
          })
          d,
      DumpOutcome.cover,
    )
    else (
      on_out (λ o. record (set_pending (Pending.hold from delay) o) { hold = frame }) d,
      DumpOutcome.hold,
    )

abbrev pub is_rewind : DelayMode → Bool
is_rewind DelayMode.rewind = true
is_rewind DelayMode.mask = false

-- The delay asked for is set, whatever history there is.
unfoldable pub retarget : ℕ → Engine → Engine
retarget delay g = on_out (λ o. record o { history_short = false; target = delay }) g

-- `dump` during a broadcast that goes on.
unfoldable pub dump_running : Time → DelayMode → Bool → Engine → Engine × DumpOutcome
dump_running now mode cover g =
    let delay = dump_delay g in
    let g' = retarget delay g in
    elim (if is_rewind mode then replay_from now delay g' else none) [
      | some k ↦ (replay_at now delay k g', DumpOutcome.replay)
      | none ↦ dump_all now delay cover g'
    ]

-- `dump`.
unfoldable pub dump : Time → DelayMode → Bool → Engine → Engine × DumpOutcome
dump now mode cover g =
    if not g.out.started
    then (drop_buffer g, DumpOutcome.hold)
    else if is_some g.out.end_mark || not g.ingest_active
    then (on_out (set_pending Pending.idle) (drop_buffer g), DumpOutcome.hold)
    else dump_running now mode cover g
