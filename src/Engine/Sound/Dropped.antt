-- ===== src/Engine/Sound/Dropped.antt =====
-- crates/engine/src/lib.rs: the engine's invariant where content is dropped, by eviction and the ways a broadcast is
-- thrown away.
use stream_delay.Base.{
  ℕ, zero, suc, ◌+◌, ◌≡◌, refl, Bool, false, Option, List, [], ◌∷◌, map, arith, map_or, any, sum_of,
}
use stream_delay.Engine.{Time, Engine, HeaderRec, Session}
use stream_delay.Engine.Rolling.{pop_until, drop_before, clear}
use stream_delay.Engine.Rolling.Valid.{
  pop_until-IsValid, drop_before-IsValid, clear-IsValid, next-pop_until, next-drop_before,
  next-clear, base-le-next,
}
use stream_delay.Engine.Sessions.{
  session_cost, count_sessions, kept_headers, forgets, forget_session, forget_headers,
  drop_sessions, forget_sessions,
}
use stream_delay.Engine.Splice.{set_pending}
use stream_delay.Engine.Evict.{drop_group, evict_groups, shorten, memory_short, evict}
use stream_delay.Engine.Drop.{
  emptied, drop_entries, drop_buffer, reset_output, output_reset, discard, restart_after_end,
}
use stream_delay.Engine.Sound.{IsSound}

kept_headers-same :
    (base : ℕ) (hs : List HeaderRec) → forgets base hs ≡ false → kept_headers base hs ≡ hs
unfolding kept_headers forgets
kept_headers-same base [] h = refl
kept_headers-same base (x ∷ hs) h = ground (arith, kept_headers-same base hs)

forget_session-same :
    (base : ℕ) (ss : List Session)
    → any (λ s. forgets base s.headers) ss ≡ false
    → map (forget_session base) ss ≡ ss
forget_session-same base [] h = refl
forget_session-same base (s ∷ ss) h =
    ground (arith, kept_headers-same base s.headers, forget_session-same base ss)

-- Only the sessions, and what they count, differ.
abbrev pub OnlySessions : Engine → Engine → Type 0
OnlySessions g g' = g' ≡ record g { sessions = g'.sessions; session_bytes = g'.session_bytes }

pub forget_headers-OnlySessions : (g : Engine) → OnlySessions g (forget_headers g)
unfolding forget_headers count_sessions
forget_headers-OnlySessions g = ground arith

pub forget_sessions-OnlySessions : (g : Engine) → OnlySessions g (forget_sessions g)
unfolding forget_sessions drop_sessions count_sessions
forget_sessions-OnlySessions g = ground (arith, forget_headers-OnlySessions g)

abbrev Counted : Engine → Type 0
Counted g = g.session_bytes ≡ sum_of session_cost g.sessions

forget_headers-Counted : (g : Engine) → Counted g → Counted (forget_headers g)
unfolding forget_headers count_sessions
forget_headers-Counted g h = ground (arith, forget_session-same g.buffer.base_seq g.sessions)

forget_sessions-Counted : (g : Engine) → Counted g → Counted (forget_sessions g)
unfolding forget_sessions drop_sessions count_sessions
forget_sessions-Counted g h = ground (arith, forget_headers-Counted g h)

-- A value of the invariant for another engine with the same output and buffer.
sessions-IsSound : (g g' : Engine) → OnlySessions g g' → Counted g' → IsSound g → IsSound g'
sessions-IsSound g g' e c s = ground arith

pub forget_headers-IsSound : (g : Engine) → IsSound g → IsSound (forget_headers g)
forget_headers-IsSound g s =
    sessions-IsSound g (forget_headers g) (forget_headers-OnlySessions g)
      (forget_headers-Counted g s.sessions) s

forget_sessions-IsSound : (g : Engine) → IsSound g → IsSound (forget_sessions g)
forget_sessions-IsSound g s =
    sessions-IsSound g (forget_sessions g) (forget_sessions-OnlySessions g)
      (forget_sessions-Counted g s.sessions) s

drop_group-IsSound : (end : ℕ) (g : Engine) → IsSound g → IsSound (drop_group end g)
unfolding drop_group
drop_group-IsSound end g s =
    forget_sessions-IsSound (record g { buffer = pop_until end g.buffer })
      (ground (arith, next-pop_until end g.buffer, pop_until-IsValid end g.buffer s.buffer))

evict_groups-IsSound :
    (fuel now : ℕ) (keep restart : Option ℕ) (lost : Bool) (g : Engine)
    → IsSound g
    → IsSound (evict_groups fuel now keep restart lost g).0
unfolding evict_groups
evict_groups-IsSound zero now keep restart lost g s = s
evict_groups-IsSound (suc fuel) now keep restart lost g s =
    grind (arith, drop_group-IsSound, evict_groups-IsSound fuel)

next-emptied : (g : Engine) → (emptied g).buffer.next_seq ≡ g.buffer.next_seq
unfolding emptied count_sessions clear
next-emptied g = refl

memory_short-IsSound : (now : Time) (g : Engine) → IsSound g → IsSound (memory_short now g)
unfolding memory_short shorten set_pending
memory_short-IsSound now g s = ground arith

-- Eviction keeps the invariant.
pub evict-IsSound : (now : Time) (g : Engine) → IsSound g → IsSound (evict now g)
unfolding evict
evict-IsSound now g s = grind (arith, memory_short-IsSound, evict_groups-IsSound)

emptied-IsSound : (g : Engine) → IsSound g → IsSound (emptied g)
unfolding emptied count_sessions
emptied-IsSound g s = ground (arith, clear-IsValid g.buffer, next-clear g.buffer)

-- Throwing the buffer away keeps the invariant.
pub drop_buffer-IsSound : (g : Engine) → IsSound g → IsSound (drop_buffer g)
unfolding drop_buffer
drop_buffer-IsSound g s = ground (
  arith,
  forget_headers-IsSound (emptied g) (emptied-IsSound g s),
  forget_headers-OnlySessions (emptied g),
  next-emptied g,
)

pub output_reset-IsSound : (g : Engine) → IsSound g → IsSound (output_reset g)
unfolding output_reset reset_output
output_reset-IsSound g s = ground arith

pub discard-IsSound : (g : Engine) → IsSound g → IsSound (discard g)
unfolding discard
discard-IsSound g s = output_reset-IsSound (drop_buffer g) (drop_buffer-IsSound g s)

drop_entries-IsSound : (seq : ℕ) (g : Engine) → IsSound g → IsSound (drop_entries seq g)
unfolding drop_entries
drop_entries-IsSound seq g s =
    forget_headers-IsSound (record g { buffer = drop_before seq g.buffer })
      (ground (arith, next-drop_before seq g.buffer, drop_before-IsValid seq g.buffer s.buffer))

next-drop_entries :
    (seq : ℕ) (g : Engine) → (drop_entries seq g).buffer.next_seq ≡ g.buffer.next_seq
unfolding drop_entries
next-drop_entries seq g = ground (
  arith,
  next-drop_before seq g.buffer,
  forget_headers-OnlySessions (record g { buffer = drop_before seq g.buffer }),
)

-- The start of the next broadcast keeps the invariant: the cursor stays within what was received.
pub restart_after_end-IsSound : (g : Engine) → IsSound g → IsSound (restart_after_end g)
unfolding restart_after_end output_reset reset_output
restart_after_end-IsSound g s =
    let from = map_or g.buffer.next_seq (λ m. m + 1) g.out.end_mark in
    ground (
      arith,
      drop_entries-IsSound from g s,
      next-drop_entries from g,
      base-le-next (drop_entries from g).buffer,
    )
