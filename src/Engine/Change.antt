-- ===== src/Engine/Change.antt =====
-- crates/engine/src/lib.rs, `run_pending`: the change under way takes effect when its keyframe is
-- there. The `loop` runs at most three times (a dump that waits for its slate becomes a mask or a
-- hold, and `AfterAir` becomes `GoLiveNow`), so it is written as calls of the branches.
pub mod Frame
pub mod Calm
pub mod Target
use stream_delay.Base.{
  ℕ, ◌+◌, ◌-◌, ◌*◌, Bool, true, false, not, ◌&&◌, ◌||◌, Option, none, some, max, min, ltb, leb,
  if◌then◌else◌, is_some_and, is_none_or, find, rfind, last?,
}
use stream_delay.Engine.{
  Time, ms, sec, slate_confirm_wait, Buffer, IngestTracker, Pending, Output, Engine,
}
use stream_delay.Engine.Rolling.{
  entry, arrival_or, newest_sync_arrived_by, first_sync_since, sync_at_or_before,
}
use stream_delay.Engine.Splice.{splice_to, set_pending, end_hold, is_idle}

-- `keyframe_interval`: as measured, within a millisecond and a minute; two seconds until it is.
unfoldable pub keyframe_interval : IngestTracker → Time
keyframe_interval t = elim t.gop_ms [ none ↦ 2 * sec | some n ↦ min (max n 1) 60_000 * ms ]

-- `restart_point`.
unfoldable pub restart_point : Engine → Option ℕ
restart_point g =
    if g.out.started
    then some
        (elim (sync_at_or_before g.buffer g.out.next_seq) [ none ↦ g.out.next_seq | some k ↦ k ])
    else none

-- The interval before the sync point `k`: between its arrival and that of the one before it.
unfoldable pub interval_before : Buffer → ℕ → Option Time
interval_before b k = elim (rfind (λ s. ltb s k) b.syncs) [
  | none ↦ none
  | some p ↦ elim (entry b k) [
    | none ↦ none
    | some e ↦ elim (entry b p) [ none ↦ none | some d ↦ some (e.arrival - d.arrival) ]
  ]
]

-- `gap_after`.
unfoldable pub gap_after : Buffer → ℕ → Time → Bool
gap_after b k over =
    is_some_and (last? b.syncs) (λ s. ltb k s)
    && is_some_and (interval_before b k) (λ i. ltb i over)

abbrev pub with_pending : Pending → Output → Output
with_pending p o = record o { pending = p }

abbrev pub on_out : (Output → Output) → Engine → Engine
on_out f g = record g { out = f g.out }

-- `Pending::GoLiveNow`.
unfoldable pub run_go_live : Time → ℕ → Engine → Engine
run_go_live now after_seq g = elim (last? g.buffer.syncs) [
  | none ↦ g
  | some k ↦
      if ltb after_seq k
      then (on_out (with_pending Pending.idle) (
          if ltb g.out.next_seq k || g.out.need_sync
          then splice_to k (now - arrival_or g.buffer k now) g
          else on_out (λ o. record o { delay = min o.delay o.target }) g))
      else g
]

-- `Pending::AfterAir`.
unfoldable pub run_after_air : Time → ℕ → Engine → Engine
run_after_air now mark_seq g =
    let last = g.buffer.next_seq - 1 in
    if ltb mark_seq g.out.next_seq
    then run_go_live now last (on_out (with_pending (Pending.go_live_now last)) g)
    else g

-- `Pending::Reduce`.
unfoldable pub reduce_to : Time → ℕ → ℕ → Engine → Engine
reduce_to now delay k g =
    let arrival = arrival_or g.buffer k now in
    if ltb g.out.next_seq k && not (gap_after g.buffer k (now - arrival - delay))
    then on_out (with_pending Pending.idle) (splice_to k (now - arrival) g)
    else g

unfoldable pub run_reduce : Time → ℕ → Engine → Engine
run_reduce now delay g =
    if ltb g.out.delay (delay + 500 * ms)
    then on_out (with_pending Pending.idle) g
    else elim (newest_sync_arrived_by g.buffer
        (if leb delay now then some (now - delay) else none)) [
          | none ↦ g
          | some k ↦ reduce_to now delay k g
        ]

-- `Pending::Mask`, once the anchor is known.
unfoldable pub mask_from : Time → ℕ → ℕ → Engine → Engine
mask_from now delay anchor g = elim (entry g.buffer anchor) [
  | none ↦ on_out (set_pending Pending.idle) g
  | some e ↦
      if leb (e.arrival + delay) now
      then on_out (set_pending Pending.idle) (splice_to anchor (now - e.arrival) g)
      else g
]

-- `Pending::Mask` while it looks for its anchor, the first keyframe from `from` on.
unfoldable pub find_anchor : Time → Time → ℕ → Time → Bool → Option Time → Bool → Engine → Engine
find_anchor now from delay started mute shown dump g = elim (first_sync_since g.buffer from) [
  | none ↦ g
  | some a ↦
      mask_from now delay a
        (on_out (with_pending (Pending.mask delay started (some a) mute shown dump)) g)
]

abbrev pub margin : Engine → Time
margin g = g.config.mask_margin_ms * ms

unfoldable pub run_mask : Time → ℕ → Time → Option ℕ → Bool → Option Time → Bool → Engine → Engine
run_mask now delay started (some a) mute shown dump g = mask_from now delay a g
run_mask now delay started none mute (some t) dump g =
    find_anchor now (t + margin g) delay started mute (some t) dump g
run_mask now delay started none mute none dump g =
    if leb (started + slate_confirm_wait) now
    then find_anchor now (started + margin g) delay started mute none dump
        (on_out (λ o. record o { slate_unconfirmed = true }) g)
    else g

abbrev pub before_end : Option ℕ → ℕ → ℕ → Bool
before_end end_mark from s = leb from s && is_none_or end_mark (λ m. leb s m)

-- `Pending::Hold`.
unfoldable pub run_hold : Time → ℕ → ℕ → Engine → Engine
run_hold now from delay g = elim (find (before_end g.out.end_mark from) g.buffer.syncs) [
  | some k ↦
      let arrival = arrival_or g.buffer k now in
      if leb (arrival + delay) now
      then on_out (λ o. record o { pending = Pending.idle; cover_lost = false })
          (splice_to k (now - arrival) (on_out (end_hold now) g))
      else g
  | none ↦ elim g.out.end_mark [
    | none ↦ g
    | some m ↦
        on_out
          (λ o. record o {
            next_seq = max o.next_seq (m + 1);
            pending = Pending.idle;
            hold = none;
            cover_lost = false;
          })
          g
  ]
]

-- `Pending::Dump`, once the slate was confirmed.
unfoldable pub dump_covered : Time → Time → ℕ → Time → Option Time → Engine → Engine
dump_covered now after delay started shown g = elim (first_sync_since g.buffer after) [
  | none ↦ g
  | some anchor ↦
      let arrival = arrival_or g.buffer anchor now in
      let mute = g.config.mute_under_slate in
      mask_from now delay anchor (
        on_out (with_pending (Pending.mask delay started (some anchor) mute shown true))
          (splice_to anchor (now - arrival) (on_out (end_hold now) g)))
]

-- `Pending::Dump`.
unfoldable pub run_dump : Time → ℕ → Time → ℕ → Option Time → Engine → Engine
run_dump now delay started from (some t) g =
    dump_covered now (t + margin g) delay started (some t) g
run_dump now delay started from none g =
    if leb (started + slate_confirm_wait) now
    then run_hold now from delay
        (on_out (λ o. set_pending (Pending.hold from delay) (record o { cover_lost = true })) g)
    else g

-- `Pending::Replay`.
unfoldable pub run_replay : Time → ℕ → ℕ → Engine → Engine
run_replay now from delay g = elim (find (λ s. leb from s) g.buffer.syncs) [
  | none ↦ g
  | some k ↦
      let arrival = arrival_or g.buffer k now in
      if leb (arrival + delay) now
      then on_out (with_pending Pending.idle) (splice_to k (now - arrival) g)
      else g
]

unfoldable pub run_change : Time → Pending → Engine → Engine
run_change now Pending.idle g = g
run_change now (Pending.go_live_now after_seq) g = run_go_live now after_seq g
run_change now (Pending.after_air mark_seq) g = run_after_air now mark_seq g
run_change now (Pending.reduce delay) g = run_reduce now delay g
run_change now (Pending.mask delay started anchor mute shown dump) g =
    run_mask now delay started anchor mute shown dump g
run_change now (Pending.dump delay started from shown) g = run_dump now delay started from shown g
run_change now (Pending.hold from delay) g = run_hold now from delay g
run_change now (Pending.replay from delay) g = run_replay now from delay g

-- `run_pending`.
unfoldable pub run_pending : Time → Engine → Engine
run_pending now g = run_change now g.out.pending g

-- `back_under_max`.
unfoldable pub back_under_max : Engine → Engine
back_under_max g =
    let most = g.config.max_delay_ms * ms in
    if is_idle g.out.pending && ltb (most + keyframe_interval g.stats) g.out.delay
    then on_out (λ o. set_pending (Pending.reduce most) (record o { target = min o.target most })) g
    else g

-- Whether `back_to_target` may replace the change under way.
abbrev pub gives_way : ℕ → Pending → Bool
gives_way target Pending.idle = true
gives_way target (Pending.reduce delay) = ltb target delay
gives_way target _ = false

-- `back_to_target`.
unfoldable pub back_to_target : Engine → Engine
back_to_target g =
    let target = g.out.target in
    if leb (target + 500 * ms) g.out.delay && gives_way target g.out.pending
    then on_out
        (set_pending (
          if ltb 0 target
          then Pending.reduce target
          else Pending.go_live_now (g.buffer.next_seq - 1)))
        g
    else g
