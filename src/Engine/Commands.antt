-- ===== src/Engine/Commands.antt =====
-- crates/engine/src/lib.rs, `command`: the streamer's commands and their answers.
pub mod Replies
use stream_delay.Base.{
  ℕ, ◌+◌, ◌-◌, ◌*◌, ◌/◌, ◌^◌, Bool, true, false, not, ◌&&◌, ◌||◌, Option, none, some, min, ltb, leb,
  ◌==◌, if◌then◌else◌, is_some, or_else, get_elem?, head?, checked_sub,
}
use stream_delay.Engine.{
  Time, ms, DelayMode, GoLiveWhen, Command, DumpOutcome, Ack, EngineError, Pending, Output, Engine,
}
use stream_delay.Engine.Rolling.{entry, newest_sync_arrived_by, arrival_or}
use stream_delay.Engine.Tracker.{bitrate_bps}
use stream_delay.Engine.Splice.{
  splice_to, set_pending, is_idle, is_mask, after_dump, with_dump_delay,
}
use stream_delay.Engine.Change.{on_out, run_pending, gap_after, back_under_max}
use stream_delay.Engine.Lifecycle.{unsend, nothing_left}
use stream_delay.Engine.Dump.{retarget, can_dump, dump}

-- `Result<Ack, EngineError>`.
pub data Reply : Type 0 where
  done : Ack → Reply
  refused : EngineError → Reply

-- `check_memory`. The products fit in the 128 bits that the source computes them in.
unfoldable pub needed_bytes : ℕ → ℕ → ℕ
needed_bytes bits_per_s delay_ms = bits_per_s / 8 * delay_ms / 1000 * 6 / 5

unfoldable pub check_memory : ℕ → Engine → Option EngineError
check_memory delay_ms g =
    let bits_per_s = bitrate_bps g.stats in
    let needed = needed_bytes bits_per_s delay_ms in
    let mb = 2 ^ 20 in
    if not g.ingest_active || bits_per_s == 0
    then none
    else if ltb g.config.ram_cap_bytes needed
    then some
        (EngineError.not_enough_memory ((needed + (mb - 1)) / mb) (g.config.ram_cap_bytes / mb))
    else none

-- `rewind`: where no keyframe is old enough, the oldest one, or the one after it if memory is full.
unfoldable pub oldest_inside : Engine → Option ℕ
oldest_inside g =
    let full = leb (g.config.ram_cap_bytes * 9) ((g.buffer.bytes + g.session_bytes) * 10) in
    or_else (if full then get_elem? g.buffer.syncs 1 else none) (head? g.buffer.syncs)

unfoldable pub history_held : Time → Engine → Time
history_held now g = elim (head? g.buffer.ring) [ none ↦ 0 | some f ↦ now - f.arrival ]

-- The jump back to `k`; `exact` says that a keyframe was old enough.
unfoldable pub rewind_to : Time → ℕ → Bool → ℕ → Engine → Engine
rewind_to now d exact k g =
    let delay = now - arrival_or g.buffer k now in
    let spliced = splice_to k delay g in
    if not (ltb g.out.delay delay)
    then g
    else if exact && gap_after g.buffer k (delay - d)
    then on_out (set_pending (Pending.reduce d)) spliced
    else spliced

unfoldable pub rewind : Time → ℕ → Engine → Engine
rewind now d g = elim (newest_sync_arrived_by g.buffer (checked_sub now d)) [
  | some k ↦ rewind_to now d true k g
  | none ↦
      let short =
        on_out (λ o. record o { history_short = true; history_then = history_held now g }) g in
      elim (oldest_inside g) [ none ↦ short | some k ↦ rewind_to now d false k short ]
]

-- `ack`.
abbrev pub effective : Output → ℕ
effective o = elim o.pending [ Pending.replay _ delay ↦ delay | _ ↦ o.delay ]

unfoldable pub ack : Engine → Ack
ack g = record {
  target_ms = g.out.target / ms;
  effective_ms = effective g.out / ms;
  pending = not (is_idle g.out.pending);
  history_short = g.out.history_short;
  dump = none;
}

-- The end of every command that is carried out.
unfoldable pub finish : Time → Engine → Engine × Reply
finish now g = let g' = run_pending now g in (g', Reply.done (ack g'))

-- What every command but `Cancel` and `SlateShown` resets.
unfoldable pub reset_flags : Engine → Engine
reset_flags g =
    on_out
      (λ o. record o {
        memory_short = false;
        slate_unconfirmed = false;
        cover_lost = false;
        grew_on_reconnect = false;
      })
      g

-- `SlateShown`: the first confirmation counts.
unfoldable pub confirmed : Time → Pending → Pending
confirmed now (Pending.mask delay started none mute none dump) =
    Pending.mask delay started none mute (some now) dump
confirmed now (Pending.dump delay started from none) = Pending.dump delay started from (some now)
confirmed now p = p

unfoldable pub slate_shown : Time → ℕ → Engine → Engine
slate_shown now change g =
    if change == g.out.slate_change
    then on_out (λ o. record o { pending = confirmed now o.pending }) g
    else g

-- `Cancel`.
unfoldable pub cancel : Engine → Engine
cancel g =
    let stopped =
      on_out
        (λ o.
          let delay = min o.delay (g.config.max_delay_ms * ms) in
          record (set_pending Pending.idle o) {
            target = if ltb delay (500 * ms) then 0 else delay;
          })
        g in
    if after_dump g.out.pending
    then g
    else if g.out.started
    then back_under_max stopped
    else stopped

-- `GoLive`.
unfoldable pub going_live : GoLiveWhen → ℕ → Pending
going_live GoLiveWhen.at_once last = Pending.go_live_now last
going_live GoLiveWhen.after_air last = Pending.after_air last

unfoldable pub go_live : GoLiveWhen → Engine → Engine
go_live when g =
    let last = g.buffer.next_seq - 1 in
    on_out
      (λ o.
        let o' = record o { target = 0; history_short = false } in
        if o.started
        then set_pending (going_live when last) o'
        else set_pending Pending.idle (record o' { delay = 0 }))
      g

-- `SetDelay` in mask mode: the slate is asked for.
unfoldable pub mask_change : Time → ℕ → Output → Output
mask_change now d o = record (set_pending (Pending.mask d now none false none false) o) {
  slate_change = o.slate_change + 1;
  mask_visible = true;
}

abbrev pub is_mask_mode : DelayMode → Bool
is_mask_mode DelayMode.mask = true
is_mask_mode DelayMode.rewind = false

-- `SetDelay` to `d` once what it replaces is given up.
unfoldable pub change_delay : Time → ℕ → Bool → Engine → Engine
change_delay now d masked g =
    if not g.out.started
    then on_out (λ o. record o { delay = d }) g
    else if d == 0
    then go_live GoLiveWhen.at_once (reset_flags g)
    else if ltb g.out.delay d
    then (if masked then on_out (mask_change now d) g else rewind now d g)
    else if ltb d g.out.delay
    then on_out (set_pending (Pending.reduce d)) g
    else g

-- `SetDelay` outside a dump.
unfoldable pub set_delay_to : Time → ℕ → Bool → Engine → Engine × Reply
set_delay_to now d masked g =
    if d == g.out.target && masked && is_mask g.out.pending
    then (g, Reply.done (ack g))
    else finish now (change_delay now d masked (on_out (set_pending Pending.idle) (retarget d g)))

-- `SetDelay`, after its checks. During a dump the new delay says how far the delay builds back up.
unfoldable pub set_delay : Time → ℕ → DelayMode → Engine → Engine × Reply
set_delay now delay_ms mode g =
    let d = delay_ms * ms in
    elim (if ltb 0 delay_ms then with_dump_delay d g.out.pending else none) [
      | some p ↦ finish now (on_out (λ o. record o { pending = p }) (retarget d g))
      | none ↦ set_delay_to now d (is_mask_mode mode || not g.config.keep_history) g
    ]

abbrev pub acked : DumpOutcome → Reply → Reply
acked outcome (Reply.done a) = Reply.done (record a { dump = some outcome })
acked outcome r = r

-- `Dump`.
unfoldable pub dump_command : Time → DelayMode → Bool → Engine → Engine × Reply
dump_command now mode cover g =
    let (d, outcome) = dump now mode cover g in
    let (d', reply) = finish now d in
    if can_dump g then (d', acked outcome reply) else (g, Reply.refused EngineError.nothing_to_dump)

-- `command`.
unfoldable pub command : Time → Command → Engine → Engine × Reply
command now (Command.slate_shown change) g = finish now (slate_shown now change g)
command now Command.cancel g = finish now (cancel g)
command now (Command.dump mode cover) g = dump_command now mode cover (reset_flags g)
command now (Command.go_live when) g = finish now (go_live when (reset_flags g))
command now (Command.set_delay delay_ms mode) g =
    if ltb g.config.max_delay_ms delay_ms
    then (g, Reply.refused (EngineError.too_large delay_ms g.config.max_delay_ms))
    else elim (check_memory delay_ms g) [
      | some e ↦ (g, Reply.refused e)
      | none ↦ set_delay now delay_ms mode (reset_flags g)
    ]

-- `dump_after`.
unfoldable pub dump_after : Time → Option ℕ → DelayMode → Bool → Engine → Engine × Reply
dump_after now taken mode cover g =
    if can_dump g
    then command now (Command.dump mode cover) (unsend taken g)
    else (nothing_left taken g, Reply.refused EngineError.nothing_to_dump)
