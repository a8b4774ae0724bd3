-- ===== src/Engine/Poll.antt =====
-- crates/engine/src/lib.rs, `poll_budget`: what is due goes to the destination.
pub mod Order
pub mod Due
pub mod Held
pub mod Progress
use stream_delay.Base.{
  ℕ, zero, suc, ◌+◌, ◌-◌, ◌*◌, Bool, true, false, not, ◌&&◌, ◌||◌, Option, none, some, List, [],
  ◌∷◌, ◌++◌, min, max, ltb, leb, ◌==◌, if◌then◌else◌, opt_eq, is_some, is_some_and, is_none_or,
  map_or, or_else, length, head?, last?, find, retain, sum_of,
}
use stream_delay.Flv.{Bytes}
use stream_delay.Engine.{
  Time, ms, replay_gap_held_after, Kind, kind_eq, OutMsg, Entry, Buffer, Pending, Output, Engine,
}
use stream_delay.Engine.Rolling.{entry, arrival_or, next_session_start, arrived_by}
use stream_delay.Engine.Sessions.{headers_at, session_id}
use stream_delay.Engine.Splice.{splice_to, set_pending, is_idle}
use stream_delay.Engine.Change.{on_out, run_pending, back_under_max}
use stream_delay.Engine.Evict.{evict}
use stream_delay.Engine.Lifecycle.{is_holding, past_end}
use stream_delay.Engine.Dump.{aired_keyframe}
use stream_delay.Engine.Emit.{emit_headers, emit_entry, emit_hold_frame}

-- How a round of the loop ends: by leaving it, with the time to call again, or by going on, with what
-- it sent.
pub data Turn : Type 0 where
  leave : Engine → List OutMsg → Option Time → Turn
  again : Engine → List OutMsg → Turn

-- Whether, after the search for a keyframe, the round leaves the loop, goes on to the next, or sends.
pub data Start : Type 0 where
  halt : Engine → Option Time → Start
  skip : Engine → Start
  ready : Engine → Start

abbrev pub engine_of : Turn → Engine
engine_of (Turn.leave g _ _) = g
engine_of (Turn.again g _) = g

abbrev pub engine_of_start : Start → Engine
engine_of_start (Start.halt g _) = g
engine_of_start (Start.skip g) = g
engine_of_start (Start.ready g) = g

-- A replay that ran out: well before what follows is due its last keyframe holds.
unfoldable pub replay_out : Time → ℕ → ℕ → Engine → Turn
replay_out now from delay g =
    let due : Time = elim (find (λ s. leb from s) g.buffer.syncs) [
      | none ↦ now + delay
      | some k ↦ elim (entry g.buffer k) [ none ↦ now + delay | some e ↦ e.arrival + delay ]
    ] in
    let frame = aired_keyframe now g in
    if ltb (now + replay_gap_held_after) due
    then Turn.again
        (on_out
          (λ o. record (set_pending (Pending.hold from delay) o) { hold = frame; need_sync = true })
          g)
        []
    else Turn.leave g [] none

-- The cursor fell behind the ring's front.
unfoldable pub catch_up : Engine → Engine
catch_up g =
    if ltb g.out.next_seq g.buffer.base_seq
    then on_out (λ o. record o { next_seq = g.buffer.base_seq; need_sync = true }) g
    else g

-- The next entry is of another encoder session.
unfoldable pub enters_session : Engine → Bool
enters_session g =
    is_some_and g.out.current_session
      (λ cs. is_some_and (entry g.buffer g.out.next_seq) (λ e. not (e.session == cs)))

unfoldable pub check_session : Engine → Engine
check_session g =
    if not g.out.need_sync && enters_session g
    then on_out (λ o. record o { need_sync = true }) g
    else g

abbrev pub session_of : Option Entry → Option ℕ
session_of none = none
session_of (some e) = some e.session

-- The sync points from the cursor on, of the session there.
unfoldable pub candidates : Engine → List ℕ
candidates g =
    retain
      (λ s.
        leb g.out.next_seq s
        && opt_eq (session_of (entry g.buffer s)) (session_of (entry g.buffer g.out.next_seq)))
      g.buffer.syncs

-- The newest of them that already meets the delay, else the first.
unfoldable pub start_point : Time → Engine → Option ℕ
start_point now g =
    let due = λ (s : ℕ). is_some_and (entry g.buffer s) (λ e. leb (e.arrival + g.out.delay) now) in
    elim (head? (candidates g)) [
      | none ↦ none
      | some first ↦
          if g.out.started
          then some first
          else or_else (last? (retain due (candidates g))) (some first)
    ]

-- Nothing to start from: an old session is left behind.
unfoldable pub no_start : Engine → Start
no_start g = elim (session_of (entry g.buffer g.out.next_seq)) [
  | none ↦ Start.halt g none
  | some s ↦
      if opt_eq (session_id (last? g.sessions)) (some s)
      then Start.halt g none
      else Start.skip (on_out (λ o. record o { next_seq = next_session_start g.buffer s }) g)
]

-- The splice to the keyframe `k` that is due.
unfoldable pub start_at : Time → ℕ → Engine → Start
start_at now k g =
    let delay = max g.out.delay (now - arrival_or g.buffer k now) in
    let late = not g.out.started && is_idle g.out.pending && leb (g.out.target + 500 * ms) delay in
    let g₁ = splice_to k delay g in
    let g₂ =
      if late
      then on_out (λ o. set_pending (Pending.reduce o.target) o) g₁
      else back_under_max g₁ in
    if past_end g₂.out then Start.halt g₂ none else Start.ready g₂

-- The search for a keyframe, where the output needs one.
unfoldable pub resync : Time → Engine → Start
resync now g =
    let due = λ (k : ℕ). arrival_or g.buffer k now + g.out.delay in
    elim (start_point now g) [
      | none ↦ no_start g
      | some k ↦
          if is_some_and g.out.end_mark (λ m. ltb m k)
          then Start.halt
              (on_out (λ o. record o { next_seq = map_or o.next_seq (λ m. m + 1) o.end_mark }) g)
              none
          else if ltb now (due k)
          then Start.halt g (some (due k))
          else start_at now k g
    ]

-- Under the slate after a dump the sound is left out.
abbrev pub is_muted : Pending → Entry → Bool
is_muted (Pending.mask _ _ _ true _ _) e = kind_eq e.kind Kind.audio && not (is_some e.config)
is_muted _ e = false

unfoldable pub left_out : Engine → Engine
left_out g = on_out (λ o. record o { dropped = o.dropped + 1; next_seq = o.next_seq + 1 }) g

abbrev pub sent_size : List OutMsg → ℕ
sent_size out = sum_of (λ m. length m.payload) out

-- What a poll gives: the engine, what it sent, and when to call again.
abbrev pub Polled : Type 0
Polled = Engine × List OutMsg × Option Time

unfoldable pub joined : List OutMsg → Option Polled → Option Polled
joined sent none = none
joined sent (some (g, later, wake)) = some (g, sent ++ later, wake)

-- The earlier of two times to call again.
abbrev pub earlier : Option Time → Option Time → Option Time
earlier (some a) (some b) = some (min a b)
earlier (some a) none = some a
earlier none b = b

-- The time to call again is at most `pending_wake`.
unfoldable pub woken : Option Time → Option Polled → Option Polled
woken pending_wake none = none
woken pending_wake (some (g, sent, wake)) = some (g, sent, earlier wake pending_wake)

-- What follows a round: nothing, or the rest of the loop.
unfoldable pub go_on : (Engine → List OutMsg → Option Polled) → Turn → Option Polled
go_on rest (Turn.leave g sent wake) = some (g, sent, wake)
go_on rest (Turn.again g sent) = joined sent (rest g sent)

module _ (fingerprint : Bytes → ℕ) where
  -- The entry `e` is sent, after the headers that a splice left pending.
  unfoldable pub send : Entry → Engine → Engine × List OutMsg
  send e g =
      let o = g.out in
      let (o₁, first) =
        if o.pending_headers
        then emit_headers fingerprint (headers_at g.sessions e.session e.seq) e.ts o
        else (o, []) in
      let (o₂, sent) =
        emit_entry fingerprint e
          (record o₁ { first_emitted = or_else o₁.first_emitted (some o₁.next_seq) }) in
      (record g { out = record o₂ { next_seq = o₂.next_seq + 1 } }, first ++ sent)

  -- The round's end: the entry `e` at the cursor is held back, left out, or sent.
  unfoldable pub send_due : Time → ℕ → ℕ → Entry → Engine → Turn
  send_due now max_bytes emitted e g =
      let due = e.arrival + g.out.delay in
      let (g', sent) = send e g in
      if ltb now due
      then Turn.leave g [] (some due)
      else if leb max_bytes emitted
      then Turn.leave g [] (some (now + 50 * ms))
      else if is_muted g.out.pending e
      then Turn.again (run_pending now (left_out g)) []
      else Turn.again (run_pending now g') sent

  unfoldable pub send_next : Time → ℕ → ℕ → Engine → Turn
  send_next now max_bytes emitted g = elim (entry g.buffer g.out.next_seq) [
    | none ↦ Turn.leave g [] none
    | some e ↦ send_due now max_bytes emitted e g
  ]

  unfoldable pub from_start : Time → ℕ → ℕ → Start → Turn
  from_start now max_bytes emitted (Start.halt g wake) = Turn.leave g [] wake
  from_start now max_bytes emitted (Start.skip g) = Turn.again g []
  from_start now max_bytes emitted (Start.ready g) = send_next now max_bytes emitted g

  -- A round with nothing in the way of sending.
  unfoldable pub advance : Time → ℕ → ℕ → Engine → Turn
  advance now max_bytes emitted g =
      let g₁ = catch_up g in
      let g₂ = check_session g₁ in
      if past_end g₁.out
      then Turn.leave g₁ [] none
      else if g₂.out.need_sync
      then from_start now max_bytes emitted (resync now g₂)
      else send_next now max_bytes emitted g₂

  -- One round of the loop.
  unfoldable pub turn : Time → ℕ → ℕ → Engine → Turn
  turn now max_bytes emitted g =
      let (o, sent, wake) = emit_hold_frame fingerprint now g.out in
      if is_holding g.out.pending
      then Turn.leave (record g { out = o }) sent wake
      else elim g.out.pending [
        | Pending.replay from delay ↦
            if leb from g.out.next_seq
            then replay_out now from delay g
            else advance now max_bytes emitted g
        | _ ↦ advance now max_bytes emitted g
      ]

  -- The loop, on fuel; `none` means that the fuel ran out.
  unfoldable pub rounds : ℕ → Time → ℕ → ℕ → Engine → Option Polled
  rounds zero now max_bytes emitted g = none
  rounds (suc fuel) now max_bytes emitted g =
      go_on (λ g' sent. rounds fuel now max_bytes (emitted + sent_size sent) g')
        (turn now max_bytes emitted g)

  -- `poll_budget`.
  unfoldable pub poll_budget : ℕ → Time → ℕ → Engine → Option Polled
  poll_budget fuel now max_bytes g =
      let g' = run_pending now (evict now g) in
      let pending_wake = if is_idle g'.out.pending then none else some (now + 50 * ms) in
      if not g'.out.connected
      then some (g', [], pending_wake)
      else woken pending_wake (rounds fuel now max_bytes 0 g')
