-- ===== src/Engine/Poll/Due.antt =====
-- crates/engine/src/lib.rs, `poll_budget`: when entries go out.
use stream_delay.Base.{
  ℕ, ◌+◌, ◌-◌, ◌≤◌, ◌≡◌, refl, Bool, true, false, not, ◌&&◌, Option, none, some, List, [], ◌∷◌, max,
  arith, leb, Bool-cases, Option-cases, or_else, ap, ◌∙◌, inl, inr, subst, sym, opt_eq, is_some,
  is_some_and, is_none_or, all, all-append, all_mono,
}
use stream_delay.Flv.{Bytes}
use stream_delay.Engine.{Time, OutMsg, Kind, Entry, Header, Headers, HoldFrame, Output, Engine}
use stream_delay.Engine.Rolling.{entry, arrival_or}
use stream_delay.Engine.Rolling.Valid.{IsValid}
use stream_delay.Engine.Rolling.Search.{entry_bounds}
use stream_delay.Engine.Sessions.{headers_at}
use stream_delay.Engine.Splice.{splice_to, spliced, set_pending}
use stream_delay.Engine.Change.{back_under_max}
use stream_delay.Engine.Lifecycle.{past_end}
use stream_delay.Engine.Emit.{
  emit_metadata, emit_frame, emit_media, emit_config, emit_configs, emit_headers, emit_entry,
  emit_hold_configs, emit_hold_headers, send_hold_frame, emit_hold_frame,
}
use stream_delay.Engine.Poll.{
  Turn, Start, engine_of_start, replay_out, catch_up, check_session, no_start, start_at, resync,
  send, send_due, send_next, from_start, advance, turn,
}

-- The messages of the headers and of a held frame have no number; those of an entry have its number.
abbrev pub is_plain : OutMsg → Bool
is_plain m = not (is_some m.seq)

abbrev is_of : ℕ → OutMsg → Bool
is_of n m = opt_eq m.seq (some n)

-- The message repeats an entry of the buffer at or before the end mark, which arrived at least `delay`
-- before `now`; or it repeats none.
abbrev pub is_due : Time → Engine → OutMsg → Bool
is_due now g m = is_none_or m.seq (λ s.
    is_some_and (entry g.buffer s) (λ e. leb (e.arrival + g.out.delay) now)
    && is_none_or g.out.end_mark (λ k. leb s k))

abbrev pub round_sends : Turn → List OutMsg
round_sends (Turn.leave _ sent _) = sent
round_sends (Turn.again _ sent) = sent

emit_metadata-is_plain :
    (m : Option Bytes) (ts : ℕ) (o : Output) → all is_plain (emit_metadata m ts o).1 ≡ true
unfolding emit_metadata
emit_metadata-is_plain m ts o = grind arith

emit_media-is_of : (e : Entry) (o : Output) → all (is_of e.seq) (emit_media e o).1 ≡ true
unfolding emit_media emit_frame
emit_media-is_of e o = grind arith

module _ (fp : Bytes → ℕ) where
  emit_config-is_plain :
      (kind : Kind) (class : ℕ) (payload : Bytes) (ts : ℕ) (o : Output)
      → all is_plain (emit_config fp kind class payload ts none o).1 ≡ true
  unfolding emit_config
  emit_config-is_plain kind class payload ts o = grind arith

  emit_configs-is_plain :
      (hs : List Header) (ts : ℕ) (o : Output) → all is_plain (emit_configs fp hs ts o).1 ≡ true
  unfolding emit_configs
  emit_configs-is_plain [] ts o = refl
  emit_configs-is_plain (h ∷ hs) ts o =
      let (o', sent) = emit_config fp h.kind h.class h.payload ts none o in
      all-append is_plain sent (emit_configs fp hs ts o').1
        (emit_config-is_plain h.kind h.class h.payload ts o) (emit_configs-is_plain hs ts o')

  emit_headers-is_plain :
      (hs : Headers) (ts : ℕ) (o : Output) → all is_plain (emit_headers fp hs ts o).1 ≡ true
  unfolding emit_headers
  emit_headers-is_plain hs ts o =
      let begun = record o { pending_headers = false } in
      let (o', sent) = emit_metadata hs.metadata ts begun in
      all-append is_plain sent (emit_configs fp hs.config ts o').1
        (emit_metadata-is_plain hs.metadata ts begun) (emit_configs-is_plain hs.config ts o')

  emit_entry-is_of : (e : Entry) (o : Output) → all (is_of e.seq) (emit_entry fp e o).1 ≡ true
  unfolding emit_entry emit_config
  emit_entry-is_of e o = grind (arith, emit_media-is_of)

  emit_hold_configs-is_plain :
      (hs : List Header) (t : ℕ) (o : Output) → all is_plain (emit_hold_configs fp hs t o).1 ≡ true
  unfolding emit_hold_configs
  emit_hold_configs-is_plain [] t o = refl
  emit_hold_configs-is_plain (h ∷ hs) t o = grind (arith, emit_hold_configs-is_plain hs t)

  emit_hold_headers-is_plain :
      (hs : Headers) (t : ℕ) (o : Output) → all is_plain (emit_hold_headers fp hs t o).1 ≡ true
  unfolding emit_hold_headers
  emit_hold_headers-is_plain hs t o = grind (arith, emit_hold_configs-is_plain)

  send_hold_frame-is_plain :
      (now : Time) (f : HoldFrame) (o : Output) → all is_plain (send_hold_frame fp now f o).1 ≡ true
  unfolding send_hold_frame
  send_hold_frame-is_plain now f o = grind (arith, emit_hold_headers-is_plain, all-append)

  pub emit_hold_frame-is_plain :
      (now : Time) (o : Output) → all is_plain (emit_hold_frame fp now o).1 ≡ true
  unfolding emit_hold_frame
  emit_hold_frame-is_plain now o = grind (arith, send_hold_frame-is_plain)

-- A message with the entry's number, of an entry that is due.
is_of-is_due :
    (now : Time) (g : Engine) (e : Entry)
    → entry g.buffer e.seq ≡ some e
    → e.arrival + g.out.delay ≤ now
    → is_none_or g.out.end_mark (λ k. leb e.seq k) ≡ true
    → (m : OutMsg) → is_of e.seq m ≡ true
    → is_due now g m ≡ true
is_of-is_due now g e found le mark m h = grind arith

is_plain-is_due : (now : Time) (g : Engine) (m : OutMsg) → is_plain m ≡ true → is_due now g m ≡ true
is_plain-is_due now g m h = ground arith

-- From `g` to `g'` the buffer and the end mark stay, and the delay does not shrink.
abbrev Onward : Engine → Engine → Type 0
Onward g g' =
    (g'.buffer ≡ g.buffer) × (g.out.delay ≤ g'.out.delay) × (g'.out.end_mark ≡ g.out.end_mark)

catch_up-Onward : (g : Engine) → Onward g (catch_up g)
unfolding catch_up
catch_up-Onward g = ground arith

check_session-Onward : (g : Engine) → Onward g (check_session g)
unfolding check_session
check_session-Onward g = ground arith

splice_to-Onward : (k d : ℕ) (g : Engine) → g.out.delay ≤ d → Onward g (splice_to k d g)
unfolding splice_to spliced
splice_to-Onward k d g h = ground arith

start_at-Onward : (now : Time) (k : ℕ) (g : Engine) → Onward g (engine_of_start (start_at now k g))
unfolding start_at set_pending back_under_max
start_at-Onward now k g =
    let delay = max g.out.delay (now - arrival_or g.buffer k now) in
    let spliced = splice_to-Onward k delay g (omega arith) in grind arith

is_due-Onward :
    (now : Time) (g g' : Engine)
    → Onward g g'
    → (m : OutMsg) → is_due now g' m ≡ true
    → is_due now g m ≡ true
is_due-Onward now g g' on m h = grind arith

no_start-Onward : (g : Engine) → Onward g (engine_of_start (no_start g))
unfolding no_start
no_start-Onward g = grind arith

resync-Onward : (now : Time) (g : Engine) → Onward g (engine_of_start (resync now g))
unfolding resync
resync-Onward now g = grind (arith, no_start-Onward, start_at-Onward)

-- A start that lets the round send is not past the end mark.
abbrev in_time : Start → Bool
in_time (Start.halt _ _) = true
in_time (Start.skip _) = true
in_time (Start.ready g) = not (past_end g.out)

start_at-in_time : (now : Time) (k : ℕ) (g : Engine) → in_time (start_at now k g) ≡ true
unfolding start_at
start_at-in_time now k g = ground arith

resync-in_time : (now : Time) (g : Engine) → in_time (resync now g) ≡ true
unfolding resync no_start
resync-in_time now g = grind (arith, start_at-in_time)

Onward-trans : (g g' g'' : Engine) → Onward g g' → Onward g' g'' → Onward g g''
Onward-trans g g' g'' c d = (d.0 ∙ c.0, omega arith, d.2 ∙ c.2)

check_session-past_end :
    (g : Engine) → past_end g.out ≡ false → past_end (check_session g).out ≡ false
unfolding check_session
check_session-past_end g h = ground arith

replay_out-is_due :
    (now : Time) (g : Engine) (from delay : ℕ) → round_sends (replay_out now from delay g) ≡ []
unfolding replay_out
replay_out-is_due now g from delay = ground arith

module _ (fp : Bytes → ℕ) where
  send-is_due :
      (now : Time) (e : Entry) (g : Engine)
      → entry g.buffer e.seq ≡ some e
      → e.arrival + g.out.delay ≤ now
      → is_none_or g.out.end_mark (λ k. leb e.seq k) ≡ true
      → all (is_due now g) (send fp e g).1 ≡ true
  unfolding send
  send-is_due now e g found le mark =
      let of_entry = all_mono (is_of e.seq) (is_due now g) (is_of-is_due now g e found le mark) in
      let plain = all_mono is_plain (is_due now g) (is_plain-is_due now g) in
      elim (Bool-cases g.out.pending_headers) [
        | inl p ↦ simp (p) (
            let (o', first) = emit_headers fp (headers_at g.sessions e.session e.seq) e.ts g.out in
            let begun = record o' { first_emitted = or_else o'.first_emitted (some o'.next_seq) } in
            all-append (is_due now g) first (emit_entry fp e begun).1
              (plain first
                (emit_headers-is_plain fp (headers_at g.sessions e.session e.seq) e.ts g.out))
              (of_entry _ (emit_entry-is_of fp e begun)))
        | inr p ↦ simp (p) (of_entry _ (emit_entry-is_of fp e _))
      ]

  send_due-is_due :
      (now most emitted : ℕ) (e : Entry) (g : Engine)
      → entry g.buffer e.seq ≡ some e
      → is_none_or g.out.end_mark (λ k. leb e.seq k) ≡ true
      → all (is_due now g) (round_sends (send_due fp now most emitted e g)) ≡ true
  unfolding send_due
  send_due-is_due now most emitted e g found mark = grind (arith, send-is_due)

  send_next-is_due :
      (now most emitted : ℕ) (g : Engine)
      → IsValid g.buffer
      → past_end g.out ≡ false
      → all (is_due now g) (round_sends (send_next fp now most emitted g)) ≡ true
  unfolding send_next
  send_next-is_due now most emitted g v h = elim (Option-cases (entry g.buffer g.out.next_seq)) [
    | inl n ↦ rw (n, send_next) refl
    | inr e ↦
        rw (e.1, send_next)
          (let at = entry_bounds g.buffer g.out.next_seq {e = e.0} v e.1 in
            send_due-is_due now most emitted e.0 g (ap (entry g.buffer) at.0 ∙ e.1) (ground arith))
  ]

  from_start-is_due :
      (now most emitted : ℕ) (t : Start)
      → IsValid (engine_of_start t).buffer
      → in_time t ≡ true
      → all (is_due now (engine_of_start t)) (round_sends (from_start fp now most emitted t)) ≡ true
  unfolding from_start
  from_start-is_due now most emitted (Start.halt g w) v h = refl
  from_start-is_due now most emitted (Start.skip g) v h = refl
  from_start-is_due now most emitted (Start.ready g) v h =
      send_next-is_due now most emitted g v (ground arith)

  advance-is_due :
      (now most emitted : ℕ) (g : Engine)
      → IsValid g.buffer
      → all (is_due now g) (round_sends (advance fp now most emitted g)) ≡ true
  unfolding advance
  advance-is_due now most emitted g v =
      let caught = catch_up g in
      let g' = check_session caught in
      let on = Onward-trans g caught g' (catch_up-Onward g) (check_session-Onward caught) in
      elim (Bool-cases (past_end caught.out)) [
        | inl p ↦ simp (p) refl
        | inr p ↦ simp (p) (elim (Bool-cases g'.out.need_sync) [
          | inl q ↦ simp (q) (
              let t = resync now g' in
              let on' = Onward-trans g g' (engine_of_start t) on (resync-Onward now g') in
              all_mono (is_due now (engine_of_start t)) (is_due now g)
                (is_due-Onward now g (engine_of_start t) on')
                (round_sends (from_start fp now most emitted t))
                (from_start-is_due now most emitted t (subst (λ b. IsValid b) (sym on'.0) v)
                  (resync-in_time now g')))
          | inr q ↦ simp (q) (
              all_mono (is_due now g') (is_due now g) (is_due-Onward now g g' on)
                (round_sends (send_next fp now most emitted g'))
                (send_next-is_due now most emitted g' (subst (λ b. IsValid b) (sym on.0) v)
                  (check_session-past_end caught p)))
        ])
      ]

  -- While the buffer is valid, every message that a round of the loop sends either has no number, or
  -- has the number of an entry of the buffer that arrived the delay in force before the round, or
  -- longer ago, and that is not past the end mark.
  pub turn-is_due :
      (now most emitted : ℕ) (g : Engine)
      → IsValid g.buffer
      → all (is_due now g) (round_sends (turn fp now most emitted g)) ≡ true
  unfolding turn
  turn-is_due now most emitted g v =
      let held =
        all_mono is_plain (is_due now g) (is_plain-is_due now g) (emit_hold_frame fp now g.out).1
          (emit_hold_frame-is_plain fp now g.out) in
      let moved = advance-is_due now most emitted g v in grind (arith, replay_out-is_due)
