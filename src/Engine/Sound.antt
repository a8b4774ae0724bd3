-- ===== src/Engine/Sound.antt =====
-- crates/engine/src/lib.rs: the engine's invariant, and what moves the cursor.
pub mod Dropped
pub mod Received
pub mod Living
pub mod Commanded
pub mod Polled
use stream_delay.Base.{
  ℕ, ◌+◌, ◌-◌, ◌*◌, ◌≤◌, ◌<◌, ◌≡◌, refl, Bool, true, false, Option, none, some, arith, ltb, leb,
  if◌then◌else◌, is_none_or, inl, inr, Option-cases, sum_of,
}
use stream_delay.Engine.{Time, ms, Engine, Pending, Output}
use stream_delay.Engine.Rolling.{entry}
use stream_delay.Engine.Rolling.Valid.{IsValid}
use stream_delay.Engine.Rolling.Search.{entry_bounds}
use stream_delay.Engine.Sessions.{session_cost}
use stream_delay.Engine.Splice.{splice_to, spliced, set_pending, end_hold}
use stream_delay.Engine.Change.{
  run_go_live, run_after_air, run_reduce, reduce_to, mask_from, find_anchor, run_mask, run_hold,
  dump_covered, run_dump, run_replay, run_change, run_pending, back_under_max, back_to_target,
}

-- The buffer is valid, the sessions are counted, the cursor and the end mark lie within what was
-- received, and the delay asked for is at most the maximum.
pub record IsSound (g : Engine) : Type 0 where
  pub buffer : IsValid g.buffer
  pub sessions : g.session_bytes ≡ sum_of session_cost g.sessions
  pub cursor : g.out.next_seq ≤ g.buffer.next_seq
  pub mark : is_none_or g.out.end_mark (λ m. ltb m g.buffer.next_seq) ≡ true
  pub target : g.out.target ≤ g.config.max_delay_ms * ms

pub splice_to-IsSound : (k d : ℕ) (g : Engine) → IsSound g → IsSound (splice_to k d g)
unfolding splice_to spliced
splice_to-IsSound k d g s = elim (Option-cases (entry g.buffer k)) [
  | inl e ↦ rw (e, splice_to) s
  | inr f ↦
      let facts = entry_bounds g.buffer k {e = f.0} s.buffer f.1 in
      rw (f.1, splice_to) (ground arith)
]

run_go_live-IsSound : (now n : ℕ) (g : Engine) → IsSound g → IsSound (run_go_live now n g)
unfolding run_go_live
run_go_live-IsSound now n g s = grind (arith, splice_to-IsSound)

run_after_air-IsSound : (now n : ℕ) (g : Engine) → IsSound g → IsSound (run_after_air now n g)
unfolding run_after_air
run_after_air-IsSound now n g s = grind (arith, run_go_live-IsSound)

reduce_to-IsSound : (now d k : ℕ) (g : Engine) → IsSound g → IsSound (reduce_to now d k g)
unfolding reduce_to
reduce_to-IsSound now d k g s = grind (arith, splice_to-IsSound)

run_reduce-IsSound : (now d : ℕ) (g : Engine) → IsSound g → IsSound (run_reduce now d g)
unfolding run_reduce
run_reduce-IsSound now d g s = grind (arith, reduce_to-IsSound)

mask_from-IsSound : (now d k : ℕ) (g : Engine) → IsSound g → IsSound (mask_from now d k g)
unfolding mask_from set_pending
mask_from-IsSound now d k g s = grind (arith, splice_to-IsSound)

find_anchor-IsSound :
    (now from d started : ℕ) (mute : Bool) (shown : Option Time) (dump : Bool) (g : Engine)
    → IsSound g
    → IsSound (find_anchor now from d started mute shown dump g)
unfolding find_anchor
find_anchor-IsSound now from d started mute shown dump g s = grind (arith, mask_from-IsSound)

run_mask-IsSound :
    (now d started : ℕ) (a : Option ℕ) (mute : Bool) (shown : Option Time) (dump : Bool)
    (g : Engine)
    → IsSound g
    → IsSound (run_mask now d started a mute shown dump g)
unfolding run_mask
run_mask-IsSound now d started a mute shown dump g s =
    grind (arith, mask_from-IsSound, find_anchor-IsSound)

run_hold-IsSound : (now from d : ℕ) (g : Engine) → IsSound g → IsSound (run_hold now from d g)
unfolding run_hold end_hold
run_hold-IsSound now from d g s = grind (arith, splice_to-IsSound)

dump_covered-IsSound :
    (now after d started : ℕ) (shown : Option Time) (g : Engine)
    → IsSound g
    → IsSound (dump_covered now after d started shown g)
unfolding dump_covered end_hold
dump_covered-IsSound now after d started shown g s =
    grind (arith, splice_to-IsSound, mask_from-IsSound)

run_dump-IsSound :
    (now d started from : ℕ) (shown : Option Time) (g : Engine)
    → IsSound g
    → IsSound (run_dump now d started from shown g)
unfolding run_dump set_pending
run_dump-IsSound now d started from shown g s =
    grind (arith, dump_covered-IsSound, run_hold-IsSound)

run_replay-IsSound : (now from d : ℕ) (g : Engine) → IsSound g → IsSound (run_replay now from d g)
unfolding run_replay
run_replay-IsSound now from d g s = grind (arith, splice_to-IsSound)

run_change-IsSound :
    (now : Time) (p : Pending) (g : Engine) → IsSound g → IsSound (run_change now p g)
unfolding run_change
run_change-IsSound now Pending.idle g s = s
run_change-IsSound now (Pending.go_live_now n) g s = run_go_live-IsSound now n g s
run_change-IsSound now (Pending.after_air n) g s = run_after_air-IsSound now n g s
run_change-IsSound now (Pending.reduce d) g s = run_reduce-IsSound now d g s
run_change-IsSound now (Pending.mask d t a m w b) g s = run_mask-IsSound now d t a m w b g s
run_change-IsSound now (Pending.dump d t f w) g s = run_dump-IsSound now d t f w g s
run_change-IsSound now (Pending.hold f d) g s = run_hold-IsSound now f d g s
run_change-IsSound now (Pending.replay f d) g s = run_replay-IsSound now f d g s

pub run_pending-IsSound : (now : Time) (g : Engine) → IsSound g → IsSound (run_pending now g)
unfolding run_pending
run_pending-IsSound now g s = run_change-IsSound now g.out.pending g s

pub back_under_max-IsSound : (g : Engine) → IsSound g → IsSound (back_under_max g)
unfolding back_under_max set_pending
back_under_max-IsSound g s = grind arith

pub back_to_target-IsSound : (g : Engine) → IsSound g → IsSound (back_to_target g)
unfolding back_to_target set_pending
back_to_target-IsSound g s = grind arith
