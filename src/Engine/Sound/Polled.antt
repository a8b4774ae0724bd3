-- ===== src/Engine/Sound/Polled.antt =====
-- crates/engine/src/lib.rs, `poll_budget`: the engine's invariant, round by round.
use stream_delay.Base.{
  ℕ, zero, suc, ◌+◌, ◌-◌, ◌≡◌, false, inl, inr, Option, none, some, List, [], ◌∷◌, arith, not,
  Bool-cases, max,
}
use stream_delay.Flv.{Bytes}
use stream_delay.Engine.{Time, Engine, Output, Pending, OutMsg, Entry, Kind, Header, Headers}
use stream_delay.Engine.Rolling.{entry, arrival_or}
use stream_delay.Engine.Rolling.Valid.{base-le-next}
use stream_delay.Engine.Rolling.Search.{entry_bounds, next_session_start-le}
use stream_delay.Engine.Splice.{splice_to, set_pending, sent_at}
use stream_delay.Engine.Change.{on_out, run_pending}
use stream_delay.Engine.Evict.{evict}
use stream_delay.Engine.Emit.{
  emit_metadata, emit_frame, emit_media, mark_sent, emit_config, emit_configs, emit_headers,
  emit_entry, emit_hold_configs, emit_hold_headers, send_hold_frame, emit_hold_frame,
}
use stream_delay.Engine.Poll.{
  Turn, Start, engine_of, engine_of_start, replay_out, catch_up, check_session, no_start, start_at,
  resync, left_out, send, send_due, send_next, from_start, advance, turn, sent_size,
}
use stream_delay.Engine.Poll.Progress.{Progress, onward, progress, poll_progress}
use stream_delay.Engine.Sound.{
  IsSound, splice_to-IsSound, run_pending-IsSound, back_under_max-IsSound,
}
use stream_delay.Engine.Sound.Dropped.{evict-IsSound}

-- What sending leaves alone in the output: the cursor, the end mark, the delays, the change under
-- way and the session.
pub record SameCourse (o o' : Output) : Type 0 where
  pub next_seq : o'.next_seq ≡ o.next_seq
  pub end_mark : o'.end_mark ≡ o.end_mark
  pub target : o'.target ≡ o.target
  pub delay : o'.delay ≡ o.delay
  pub pending : o'.pending ≡ o.pending
  pub need_sync : o'.need_sync ≡ o.need_sync
  pub started : o'.started ≡ o.started
  pub current_session : o'.current_session ≡ o.current_session

SameCourse-trans : (a b c : Output) → SameCourse a b → SameCourse b c → SameCourse a c
SameCourse-trans a b c h k = ground arith

emit_metadata-SameCourse :
    (m : Option Bytes) (ts : ℕ) (o : Output) → SameCourse o (emit_metadata m ts o).0
unfolding emit_metadata sent_at
emit_metadata-SameCourse m ts o = ground arith

emit_frame-SameCourse : (e : Entry) (o : Output) → SameCourse o (emit_frame e o).0
unfolding emit_frame sent_at
emit_frame-SameCourse e o = ground arith

emit_media-SameCourse : (e : Entry) (o : Output) → SameCourse o (emit_media e o).0
unfolding emit_media
emit_media-SameCourse e o = grind (arith, emit_frame-SameCourse)

module _ (fp : Bytes → ℕ) where
  emit_config-SameCourse :
      (k : Kind) (c : ℕ) (p : Bytes) (ts : ℕ) (seq : Option ℕ) (o : Output)
      → SameCourse o (emit_config fp k c p ts seq o).0
  unfolding emit_config mark_sent sent_at
  emit_config-SameCourse k c p ts seq o = ground arith

  emit_configs-SameCourse :
      (hs : List Header) (ts : ℕ) (o : Output) → SameCourse o (emit_configs fp hs ts o).0
  unfolding emit_configs
  emit_configs-SameCourse [] ts o = ground arith
  emit_configs-SameCourse (h ∷ hs) ts o =
      let next = (emit_config fp h.kind h.class h.payload ts none o).0 in
      SameCourse-trans o next (emit_configs fp hs ts next).0
        (emit_config-SameCourse h.kind h.class h.payload ts none o)
        (emit_configs-SameCourse hs ts next)

  emit_headers-SameCourse :
      (h : Headers) (ts : ℕ) (o : Output) → SameCourse o (emit_headers fp h ts o).0
  unfolding emit_headers
  emit_headers-SameCourse h ts o =
      let begun = record o { pending_headers = false } in
      let next = (emit_metadata h.metadata ts begun).0 in
      ground (
        arith,
        emit_metadata-SameCourse h.metadata ts begun,
        emit_configs-SameCourse h.config ts next,
      )

  emit_entry-SameCourse : (e : Entry) (o : Output) → SameCourse o (emit_entry fp e o).0
  unfolding emit_entry
  emit_entry-SameCourse e o = grind (arith, emit_config-SameCourse, emit_media-SameCourse)

  emit_hold_configs-SameCourse :
      (hs : List Header) (t : ℕ) (o : Output) → SameCourse o (emit_hold_configs fp hs t o).0
  unfolding emit_hold_configs mark_sent
  emit_hold_configs-SameCourse [] t o = ground arith
  emit_hold_configs-SameCourse (h ∷ hs) t o = grind (arith, emit_hold_configs-SameCourse hs)

  emit_hold_headers-SameCourse :
      (h : Headers) (t : ℕ) (o : Output) → SameCourse o (emit_hold_headers fp h t o).0
  unfolding emit_hold_headers
  emit_hold_headers-SameCourse h t o = grind (arith, emit_hold_configs-SameCourse)

  emit_hold_frame-SameCourse : (now : Time) (o : Output) → SameCourse o (emit_hold_frame fp now o).0
  unfolding emit_hold_frame send_hold_frame
  emit_hold_frame-SameCourse now o = grind (arith, emit_hold_headers-SameCourse)

replay_out-IsSound :
    (now from d : ℕ) (g : Engine) → IsSound g → IsSound (engine_of (replay_out now from d g))
unfolding replay_out set_pending
replay_out-IsSound now from d g s = ground arith

catch_up-IsSound : (g : Engine) → IsSound g → IsSound (catch_up g)
unfolding catch_up
catch_up-IsSound g s = ground (arith, base-le-next g.buffer s.buffer)

check_session-IsSound : (g : Engine) → IsSound g → IsSound (check_session g)
unfolding check_session
check_session-IsSound g s = ground arith

no_start-IsSound : (g : Engine) → IsSound g → IsSound (engine_of_start (no_start g))
unfolding no_start
no_start-IsSound g s = grind (arith, next_session_start-le)

reduced-IsSound :
    (g : Engine) → IsSound g → IsSound (on_out (λ o. set_pending (Pending.reduce o.target) o) g)
unfolding set_pending
reduced-IsSound g s = ground arith

start_at-IsSound :
    (now k : ℕ) (g : Engine) → IsSound g → IsSound (engine_of_start (start_at now k g))
unfolding start_at
start_at-IsSound now k g s =
    let delay = max g.out.delay (now - arrival_or g.buffer k now) in
    let spliced = splice_to k delay g in
    let sound = splice_to-IsSound k delay g s in
    ground (arith, reduced-IsSound spliced sound, back_under_max-IsSound spliced sound)

resync-IsSound : (now : Time) (g : Engine) → IsSound g → IsSound (engine_of_start (resync now g))
unfolding resync
resync-IsSound now g s = grind (arith, no_start-IsSound, start_at-IsSound)

module _ (fp : Bytes → ℕ) where
  send-IsSound :
      (e : Entry) (g : Engine)
      → entry g.buffer g.out.next_seq ≡ some e
      → IsSound g
      → IsSound (send fp e g).0
  unfolding send
  send-IsSound e g h s =
      let facts = entry_bounds g.buffer g.out.next_seq {e = e} s.buffer h in
      grind (arith, emit_headers-SameCourse fp, emit_entry-SameCourse fp)

  left_out-IsSound :
      (e : Entry) (g : Engine)
      → entry g.buffer g.out.next_seq ≡ some e
      → IsSound g
      → IsSound (left_out g)
  unfolding left_out
  left_out-IsSound e g h s =
      let facts = entry_bounds g.buffer g.out.next_seq {e = e} s.buffer h in ground arith

  send_due-IsSound :
      (now most emitted : ℕ) (e : Entry) (g : Engine)
      → entry g.buffer g.out.next_seq ≡ some e
      → IsSound g
      → IsSound (engine_of (send_due fp now most emitted e g))
  unfolding send_due
  send_due-IsSound now most emitted e g h s = ground (
    arith,
    run_pending-IsSound now (left_out g) (left_out-IsSound e g h s),
    run_pending-IsSound now (send fp e g).0 (send-IsSound e g h s),
  )

  send_next-IsSound :
      (now most emitted : ℕ) (g : Engine)
      → IsSound g
      → IsSound (engine_of (send_next fp now most emitted g))
  unfolding send_next
  send_next-IsSound now most emitted g s = grind (arith, send_due-IsSound)

  from_start-IsSound :
      (now most emitted : ℕ) (t : Start)
      → IsSound (engine_of_start t)
      → IsSound (engine_of (from_start fp now most emitted t))
  unfolding from_start
  from_start-IsSound now most emitted (Start.halt g w) s = s
  from_start-IsSound now most emitted (Start.skip g) s = s
  from_start-IsSound now most emitted (Start.ready g) s = send_next-IsSound now most emitted g s

  advance-IsSound :
      (now most emitted : ℕ) (g : Engine)
      → IsSound g
      → IsSound (engine_of (advance fp now most emitted g))
  unfolding advance
  advance-IsSound now most emitted g s =
      let caught = catch_up-IsSound g s in
      let g' = check_session (catch_up g) in
      let checked = check_session-IsSound (catch_up g) caught in
      ground (
        arith,
        caught,
        send_next-IsSound now most emitted g' checked,
        from_start-IsSound now most emitted (resync now g') (resync-IsSound now g' checked),
      )

  turn-IsSound :
      (now most emitted : ℕ) (g : Engine)
      → IsSound g
      → IsSound (engine_of (turn fp now most emitted g))
  unfolding turn
  turn-IsSound now most emitted g s =
      grind (arith, replay_out-IsSound, advance-IsSound, emit_hold_frame-SameCourse fp)

  onward-IsSound :
      (rest : Engine → List OutMsg → Progress) (t : Turn)
      → ((g : Engine) (sent : List OutMsg) → IsSound g → IsSound (rest g sent).0)
      → IsSound (engine_of t)
      → IsSound (onward rest t).0
  onward-IsSound rest (Turn.leave g sent w) h s = s
  onward-IsSound rest (Turn.again g sent) h s = h g sent s

  progress-IsSound :
      (n now most emitted : ℕ) (g : Engine)
      → IsSound g
      → IsSound (progress fp n now most emitted g).0
  unfolding progress
  progress-IsSound zero now most emitted g s = s
  progress-IsSound (suc n) now most emitted g s =
      onward-IsSound _ (turn fp now most emitted g)
        (λ g' sent s'. progress-IsSound n now most (emitted + sent_size sent) g' s')
        (turn-IsSound now most emitted g s)

  -- A poll keeps the invariant, in every round.
  pub poll_progress-IsSound :
      (n now most : ℕ) (g : Engine) → IsSound g → IsSound (poll_progress fp n now most g).0
  unfolding poll_progress
  poll_progress-IsSound n now most g s =
      let g' = run_pending now (evict now g) in
      let begun : IsSound g' = run_pending-IsSound now (evict now g) (evict-IsSound now g s) in
      elim (Bool-cases (not g'.out.connected)) [
        | inl off ↦ rw (off, poll_progress) begun
        | inr on ↦ rw (on, poll_progress) (progress-IsSound n now most 0 g' begun)
      ]
