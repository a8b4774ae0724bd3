-- ===== src/Engine/Poll/Order.antt =====
-- crates/engine/src/lib.rs, `poll_budget`: the timestamps of what a poll sends, kind by kind.
use stream_delay.Base.{
  ℕ, zero, suc, ◌+◌, Bool, not, Option, none, some, List, arith, ltb, leb, if◌then◌else◌, find,
  Bool-cases, Option-cases, ◌∙◌, inl, inr, subst, sym,
}
use stream_delay.Flv.{Bytes}
use stream_delay.Engine.{Time, replay_gap_held_after, KindTs, OutMsg, Entry, Engine, Pending}
use stream_delay.Engine.Rolling.{entry, pop_until}
use stream_delay.Engine.Sessions.{headers_at}
use stream_delay.Engine.Splice.{set_pending}
use stream_delay.Engine.Change.{run_pending}
use stream_delay.Engine.Change.Calm.{Calm, splice_to-Calm, run_pending-Calm, back_under_max-Calm}
use stream_delay.Engine.Lifecycle.{is_holding, past_end}
use stream_delay.Engine.Evict.{evict, evict_groups, memory_short, shorten, drop_group}
use stream_delay.Engine.Sound.Dropped.{forget_sessions-OnlySessions}
use stream_delay.Engine.Emit.Order.{
  Ascends, AllBy, AllBy-later, IsTimed, Goes, quiet-Goes, Goes-append, emit_headers-Goes,
  emit_entry-Goes, emit_hold_frame-Goes,
}
use stream_delay.Engine.Poll.Progress.{Progress, onward, progress, poll_progress}
use stream_delay.Engine.Poll.{
  Turn, Start, engine_of, engine_of_start, replay_out, catch_up, check_session, no_start, start_at,
  resync, left_out, sent_size, is_muted, send, send_due, send_next, from_start, advance, turn,
}

drop_group-Calm : (end : ℕ) (g : Engine) → Calm g (drop_group end g)
unfolding drop_group
drop_group-Calm end g =
    let only = forget_sessions-OnlySessions (record g { buffer = pop_until end g.buffer }) in
    ground arith

evict_groups-Calm :
    (fuel : ℕ) (now : Time) (keep restart : Option ℕ) (lost : Bool) (g : Engine)
    → Calm g (evict_groups fuel now keep restart lost g).0
unfolding evict_groups
evict_groups-Calm zero now keep restart lost g = ground arith
evict_groups-Calm (suc fuel) now keep restart lost g =
    grind (arith, evict_groups-Calm fuel, drop_group-Calm)

memory_short-Calm : (now : Time) (g : Engine) → Calm g (memory_short now g)
unfolding memory_short shorten set_pending
memory_short-Calm now g = grind arith

pub evict-Calm : (now : Time) (g : Engine) → Calm g (evict now g)
unfolding evict
evict-Calm now g = grind (arith, evict_groups-Calm, memory_short-Calm)

catch_up-Calm : (g : Engine) → Calm g (catch_up g)
unfolding catch_up
catch_up-Calm g = ground arith

check_session-Calm : (g : Engine) → Calm g (check_session g)
unfolding check_session
check_session-Calm g = ground arith

replay_out-Calm : (now from d : ℕ) (g : Engine) → Calm g (engine_of (replay_out now from d g))
unfolding replay_out set_pending
replay_out-Calm now from d g = ground arith

no_start-Calm : (g : Engine) → Calm g (engine_of_start (no_start g))
unfolding no_start
no_start-Calm g = grind arith

start_at-Calm : (now k : ℕ) (g : Engine) → Calm g (engine_of_start (start_at now k g))
unfolding start_at set_pending
start_at-Calm now k g = grind (arith, splice_to-Calm, back_under_max-Calm)

resync-Calm : (now : Time) (g : Engine) → Calm g (engine_of_start (resync now g))
unfolding resync
resync-Calm now g = grind (arith, no_start-Calm, start_at-Calm)

Calm-trans : (g g' g'' : Engine) → Calm g g' → Calm g' g'' → Calm g g''
Calm-trans g g' g'' c d = (d.0 ∙ c.0, omega arith)

pub Calm-AllBy : (g g' : Engine) → Calm g g' → IsTimed g.out → IsTimed g'.out
Calm-AllBy g g' c h = subst (λ k. AllBy k g'.out.last_out_ts) (sym c.0) (AllBy-later c.1 h)

-- What is sent from the last timestamps `k` on leads to the engine `g`.
abbrev Leads : KindTs → List OutMsg → Engine → Type 0
Leads k xs g = Goes k xs g.out.last_kind_ts g.out.last_out_ts

Calm-Leads :
    {k : KindTs} {xs : List OutMsg} (g g' : Engine) → Leads k xs g → Calm g g' → Leads k xs g'
Calm-Leads {k = k} {xs = xs} g g' l c = record {
  ascends = subst (λ k'. Ascends k xs k') (sym c.0) l.ascends;
  timed = Calm-AllBy g g' c l.timed;
}

abbrev TurnLeads : KindTs → Turn → Type 0
TurnLeads k (Turn.leave g xs _) = Leads k xs g
TurnLeads k (Turn.again g xs) = Leads k xs g

abbrev ProgressLeads : KindTs → Progress → Type 0
ProgressLeads k (g, xs) = Leads k xs g

module _ (fp : Bytes → ℕ) where
  send-Leads :
      (e : Entry) (g : Engine)
      → IsTimed g.out
      → Leads g.out.last_kind_ts (send fp e g).1 (send fp e g).0
  unfolding send
  send-Leads e g h = elim (Bool-cases g.out.pending_headers) [
    | inl p ↦ simp (p) (
        let first = emit_headers-Goes fp (headers_at g.sessions e.session e.seq) e.ts g.out h in
        Goes-append first (emit_entry-Goes fp e _ first.timed))
    | inr p ↦ simp (p) (emit_entry-Goes fp e _ h)
  ]

  send_due-Leads :
      (now most emitted : ℕ) (e : Entry) (g : Engine)
      → IsTimed g.out
      → TurnLeads g.out.last_kind_ts (send_due fp now most emitted e g)
  unfolding send_due left_out
  send_due-Leads now most emitted e g h =
      let sent = send-Leads e g h in
      let next = (send fp e g).0 in
      elim (Bool-cases (ltb now (e.arrival + g.out.delay))) [
        | inl p ↦ simp (p) (quiet-Goes h)
        | inr p ↦ simp (p) (elim (Bool-cases (leb most emitted)) [
          | inl q ↦ simp (q) (quiet-Goes h)
          | inr q ↦ simp (q) (elim (Bool-cases (is_muted g.out.pending e)) [
            | inl r ↦ simp (r) (
                Calm-Leads g (run_pending now (left_out g)) (quiet-Goes h)
                  (run_pending-Calm now (left_out g)))
            | inr r ↦
                simp (r) (Calm-Leads next (run_pending now next) sent (run_pending-Calm now next))
          ])
        ])
      ]

  send_next-Leads :
      (now most emitted : ℕ) (g : Engine)
      → IsTimed g.out
      → TurnLeads g.out.last_kind_ts (send_next fp now most emitted g)
  unfolding send_next
  send_next-Leads now most emitted g h = elim (Option-cases (entry g.buffer g.out.next_seq)) [
    | inl n ↦ rw (n, send_next) (quiet-Goes h)
    | inr e ↦ rw (e.1, send_next) (send_due-Leads now most emitted e.0 g h)
  ]

  start_engine_lem :
      (now most emitted : ℕ) (g : Engine) (t : Start)
      → Calm g (engine_of_start t)
      → IsTimed g.out
      → TurnLeads g.out.last_kind_ts (from_start fp now most emitted t)
  unfolding from_start
  start_engine_lem now most emitted g (Start.halt g' w) c h = Calm-Leads g g' (quiet-Goes h) c
  start_engine_lem now most emitted g (Start.skip g') c h = Calm-Leads g g' (quiet-Goes h) c
  start_engine_lem now most emitted g (Start.ready g') c h =
      subst (λ k. TurnLeads k (send_next fp now most emitted g')) c.0
        (send_next-Leads now most emitted g' (Calm-AllBy g g' c h))

  advance-Leads :
      (now most emitted : ℕ) (g : Engine)
      → IsTimed g.out
      → TurnLeads g.out.last_kind_ts (advance fp now most emitted g)
  unfolding advance
  advance-Leads now most emitted g h =
      let caught = catch_up g in
      let g' = check_session caught in
      let c = catch_up-Calm g in
      let c' : Calm g g' = Calm-trans g caught g' c (check_session-Calm caught) in
      elim (Bool-cases (past_end caught.out)) [
        | inl p ↦ simp (p) (Calm-Leads g caught (quiet-Goes h) c)
        | inr p ↦ simp (p) (elim (Bool-cases g'.out.need_sync) [
          | inl q ↦ simp (q) (
              start_engine_lem now most emitted g (resync now g')
                (Calm-trans g g' (engine_of_start (resync now g')) c' (resync-Calm now g')) h)
          | inr q ↦ simp (q) (
              subst (λ k. TurnLeads k (send_next fp now most emitted g')) c'.0
                (send_next-Leads now most emitted g' (Calm-AllBy g g' c' h)))
        ])
      ]

  replay_out-Leads :
      (now from d : ℕ) (g : Engine)
      → IsTimed g.out
      → TurnLeads g.out.last_kind_ts (replay_out now from d g)
  unfolding replay_out set_pending
  replay_out-Leads now from d g h =
      let due : Time = elim (find (λ s. leb from s) g.buffer.syncs) [
        | none ↦ now + d
        | some k ↦ elim (entry g.buffer k) [ none ↦ now + d | some e ↦ e.arrival + d ]
      ] in
      elim (Bool-cases (ltb (now + replay_gap_held_after) due)) [
        | inl p ↦ rw (p) (quiet-Goes h)
        | inr p ↦ rw (p) (quiet-Goes h)
      ]

  turn-Leads :
      (now most emitted : ℕ) (g : Engine)
      → IsTimed g.out
      → TurnLeads g.out.last_kind_ts (turn fp now most emitted g)
  unfolding turn
  turn-Leads now most emitted g h = elim (Bool-cases (is_holding g.out.pending)) [
    | inl p ↦ simp (p) (emit_hold_frame-Goes fp now g.out h)
    | inr p ↦ simp (p) (moving g.out.pending)
  ]
    where
      moving :
          (p : Pending)
          → TurnLeads g.out.last_kind_ts (elim p [
            | Pending.replay from delay ↦
                if leb from g.out.next_seq
                then replay_out now from delay g
                else advance fp now most emitted g
            | _ ↦ advance fp now most emitted g
          ])
      moving Pending.idle = advance-Leads now most emitted g h
      moving (Pending.go_live_now s) = advance-Leads now most emitted g h
      moving (Pending.after_air s) = advance-Leads now most emitted g h
      moving (Pending.reduce d) = advance-Leads now most emitted g h
      moving (Pending.mask d s a m w b) = advance-Leads now most emitted g h
      moving (Pending.dump d s f w) = advance-Leads now most emitted g h
      moving (Pending.hold f d) = advance-Leads now most emitted g h
      moving (Pending.replay from d) = elim (Bool-cases (leb from g.out.next_seq)) [
        | inl p ↦ rw (p) (replay_out-Leads now from d g h)
        | inr p ↦ rw (p) (advance-Leads now most emitted g h)
      ]

  onward-Leads :
      (k : KindTs) (rest : Engine → List OutMsg → Progress) (t : Turn)
      → ((g : Engine) (sent : List OutMsg)
          → IsTimed g.out
          → ProgressLeads g.out.last_kind_ts (rest g sent))
      → TurnLeads k t
      → ProgressLeads k (onward rest t)
  onward-Leads k rest (Turn.leave g sent w) h l = l
  onward-Leads k rest (Turn.again g sent) h l = Goes-append l (h g sent l.timed)

  progress-Leads :
      (n now most emitted : ℕ) (g : Engine)
      → IsTimed g.out
      → ProgressLeads g.out.last_kind_ts (progress fp n now most emitted g)
  unfolding progress
  progress-Leads zero now most emitted g h = quiet-Goes h
  progress-Leads (suc n) now most emitted g h =
      onward-Leads g.out.last_kind_ts _ (turn fp now most emitted g)
        (λ g' sent h'. progress-Leads n now most (emitted + sent_size sent) g' h')
        (turn-Leads now most emitted g h)

  poll_progress-Leads :
      (n now most : ℕ) (g : Engine)
      → IsTimed g.out
      → ProgressLeads g.out.last_kind_ts (poll_progress fp n now most g)
  unfolding poll_progress
  poll_progress-Leads n now most g h =
      let evicted = evict now g in
      let g' = run_pending now evicted in
      let c = Calm-trans g evicted g' (evict-Calm now g) (run_pending-Calm now evicted) in
      let h' = Calm-AllBy g g' c h in
      elim (Bool-cases (not g'.out.connected)) [
        | inl off ↦ rw (off, poll_progress) (Calm-Leads g g' (quiet-Goes h) c)
        | inr on ↦
            rw (on, poll_progress)
              (subst (λ k. ProgressLeads k (progress fp n now most 0 g')) c.0
                (progress-Leads n now most 0 g' h'))
      ]

  -- When no kind of message ran ahead of the latest timestamp, what a poll has sent after any number of
  -- rounds has timestamps that, before they wrap to 32 bits, never go back within a kind; they start from
  -- the last ones sent, and end at those of the engine that the rounds lead to, where again no kind runs
  -- ahead.
  pub poll_progress-Ascends :
      (n now most : ℕ) (g : Engine)
      → IsTimed g.out
      → let (g', sent) = poll_progress fp n now most g in
        Ascends g.out.last_kind_ts sent g'.out.last_kind_ts × IsTimed g'.out
  poll_progress-Ascends n now most g h =
      let l = poll_progress-Leads n now most g h in (l.ascends, l.timed)
