-- ===== src/Engine/Change/Calm.antt =====
-- crates/engine/src/lib.rs, `run_pending`: the timestamps that the changes leave.
use stream_delay.Base.{ℕ, Option, Bool, ◌≡◌, ◌≤◌, arith}
use stream_delay.Engine.{Time, Engine, Pending}
use stream_delay.Engine.Splice.{splice_to, spliced, set_pending, end_hold}
use stream_delay.Engine.Change.{
  run_go_live, run_after_air, run_reduce, reduce_to, mask_from, find_anchor, run_mask, run_hold,
  dump_covered, run_dump, run_replay, run_change, run_pending, back_under_max, back_to_target,
}

-- From `g` to `g'` nothing was sent.
abbrev pub Calm : Engine → Engine → Type 0
Calm g g' = (g'.out.last_kind_ts ≡ g.out.last_kind_ts) × (g.out.last_out_ts ≤ g'.out.last_out_ts)

pub splice_to-Calm : (k d : ℕ) (g : Engine) → Calm g (splice_to k d g)
unfolding splice_to spliced
splice_to-Calm k d g = ground arith

run_go_live-Calm : (now s : ℕ) (g : Engine) → Calm g (run_go_live now s g)
unfolding run_go_live
run_go_live-Calm now s g = grind (arith, splice_to-Calm)

run_after_air-Calm : (now s : ℕ) (g : Engine) → Calm g (run_after_air now s g)
unfolding run_after_air
run_after_air-Calm now s g = grind (arith, run_go_live-Calm)

reduce_to-Calm : (now d k : ℕ) (g : Engine) → Calm g (reduce_to now d k g)
unfolding reduce_to
reduce_to-Calm now d k g = grind (arith, splice_to-Calm)

run_reduce-Calm : (now d : ℕ) (g : Engine) → Calm g (run_reduce now d g)
unfolding run_reduce
run_reduce-Calm now d g = grind (arith, reduce_to-Calm)

mask_from-Calm : (now d k : ℕ) (g : Engine) → Calm g (mask_from now d k g)
unfolding mask_from set_pending
mask_from-Calm now d k g = grind (arith, splice_to-Calm)

find_anchor-Calm :
    (now from d started : ℕ) (mute : Bool) (shown : Option Time) (dump : Bool) (g : Engine)
    → Calm g (find_anchor now from d started mute shown dump g)
unfolding find_anchor
find_anchor-Calm now from d started mute shown dump g = grind (arith, mask_from-Calm)

run_mask-Calm :
    (now d started : ℕ) (a : Option ℕ) (mute : Bool) (shown : Option Time) (dump : Bool)
    (g : Engine)
    → Calm g (run_mask now d started a mute shown dump g)
unfolding run_mask
run_mask-Calm now d started a mute shown dump g = grind (arith, mask_from-Calm, find_anchor-Calm)

run_hold-Calm : (now from d : ℕ) (g : Engine) → Calm g (run_hold now from d g)
unfolding run_hold end_hold
run_hold-Calm now from d g = grind (arith, splice_to-Calm)

dump_covered-Calm :
    (now after d started : ℕ) (shown : Option Time) (g : Engine)
    → Calm g (dump_covered now after d started shown g)
unfolding dump_covered end_hold
dump_covered-Calm now after d started shown g = grind (arith, splice_to-Calm, mask_from-Calm)

run_dump-Calm :
    (now d started from : ℕ) (shown : Option Time) (g : Engine)
    → Calm g (run_dump now d started from shown g)
unfolding run_dump set_pending
run_dump-Calm now d started from shown g = grind (arith, dump_covered-Calm, run_hold-Calm)

run_replay-Calm : (now from d : ℕ) (g : Engine) → Calm g (run_replay now from d g)
unfolding run_replay
run_replay-Calm now from d g = grind (arith, splice_to-Calm)

run_change-Calm : (now : Time) (p : Pending) (g : Engine) → Calm g (run_change now p g)
unfolding run_change
run_change-Calm now Pending.idle g = ground arith
run_change-Calm now (Pending.go_live_now s) g = run_go_live-Calm now s g
run_change-Calm now (Pending.after_air s) g = run_after_air-Calm now s g
run_change-Calm now (Pending.reduce d) g = run_reduce-Calm now d g
run_change-Calm now (Pending.mask d s a m w b) g = run_mask-Calm now d s a m w b g
run_change-Calm now (Pending.dump d s f w) g = run_dump-Calm now d s f w g
run_change-Calm now (Pending.hold f d) g = run_hold-Calm now f d g
run_change-Calm now (Pending.replay f d) g = run_replay-Calm now f d g

pub run_pending-Calm : (now : Time) (g : Engine) → Calm g (run_pending now g)
unfolding run_pending
run_pending-Calm now g = run_change-Calm now g.out.pending g

pub back_under_max-Calm : (g : Engine) → Calm g (back_under_max g)
unfolding back_under_max set_pending
back_under_max-Calm g = grind arith

pub back_to_target-Calm : (g : Engine) → Calm g (back_to_target g)
unfolding back_to_target set_pending
back_to_target-Calm g = grind arith
