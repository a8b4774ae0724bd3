-- ===== src/Engine/Change/Target.antt =====
-- crates/engine/src/lib.rs, `run_pending`: the delay that was asked for.
use stream_delay.Base.{ℕ, Option, Bool, ◌≡◌, refl, arith}
use stream_delay.Engine.{Time, Engine, Pending}
use stream_delay.Engine.Splice.{splice_to, spliced, set_pending, end_hold}
use stream_delay.Engine.Change.{
  run_go_live, run_after_air, run_reduce, reduce_to, mask_from, find_anchor, run_mask, run_hold,
  dump_covered, run_dump, run_replay, run_change, run_pending,
}

-- From `g` to `g'` the delay asked for stays.
abbrev pub SameTarget : Engine → Engine → Type 0
SameTarget g g' = g'.out.target ≡ g.out.target

pub splice_to-SameTarget : (k d : ℕ) (g : Engine) → SameTarget g (splice_to k d g)
unfolding splice_to spliced
splice_to-SameTarget k d g = ground arith

run_go_live-SameTarget : (now s : ℕ) (g : Engine) → SameTarget g (run_go_live now s g)
unfolding run_go_live
run_go_live-SameTarget now s g = grind (arith, splice_to-SameTarget)

run_after_air-SameTarget : (now s : ℕ) (g : Engine) → SameTarget g (run_after_air now s g)
unfolding run_after_air
run_after_air-SameTarget now s g = grind (arith, run_go_live-SameTarget)

reduce_to-SameTarget : (now d k : ℕ) (g : Engine) → SameTarget g (reduce_to now d k g)
unfolding reduce_to
reduce_to-SameTarget now d k g = grind (arith, splice_to-SameTarget)

run_reduce-SameTarget : (now d : ℕ) (g : Engine) → SameTarget g (run_reduce now d g)
unfolding run_reduce
run_reduce-SameTarget now d g = grind (arith, reduce_to-SameTarget)

mask_from-SameTarget : (now d k : ℕ) (g : Engine) → SameTarget g (mask_from now d k g)
unfolding mask_from set_pending
mask_from-SameTarget now d k g = grind (arith, splice_to-SameTarget)

find_anchor-SameTarget :
    (now from d started : ℕ) (mute : Bool) (shown : Option Time) (dump : Bool) (g : Engine)
    → SameTarget g (find_anchor now from d started mute shown dump g)
unfolding find_anchor
find_anchor-SameTarget now from d started mute shown dump g = grind (arith, mask_from-SameTarget)

run_mask-SameTarget :
    (now d started : ℕ) (a : Option ℕ) (mute : Bool) (shown : Option Time) (dump : Bool)
    (g : Engine)
    → SameTarget g (run_mask now d started a mute shown dump g)
unfolding run_mask
run_mask-SameTarget now d started a mute shown dump g =
    grind (arith, mask_from-SameTarget, find_anchor-SameTarget)

run_hold-SameTarget : (now from d : ℕ) (g : Engine) → SameTarget g (run_hold now from d g)
unfolding run_hold end_hold
run_hold-SameTarget now from d g = grind (arith, splice_to-SameTarget)

dump_covered-SameTarget :
    (now after d started : ℕ) (shown : Option Time) (g : Engine)
    → SameTarget g (dump_covered now after d started shown g)
unfolding dump_covered end_hold
dump_covered-SameTarget now after d started shown g =
    grind (arith, splice_to-SameTarget, mask_from-SameTarget)

run_dump-SameTarget :
    (now d started from : ℕ) (shown : Option Time) (g : Engine)
    → SameTarget g (run_dump now d started from shown g)
unfolding run_dump set_pending
run_dump-SameTarget now d started from shown g =
    grind (arith, dump_covered-SameTarget, run_hold-SameTarget)

run_replay-SameTarget : (now from d : ℕ) (g : Engine) → SameTarget g (run_replay now from d g)
unfolding run_replay
run_replay-SameTarget now from d g = grind (arith, splice_to-SameTarget)

run_change-SameTarget : (now : Time) (p : Pending) (g : Engine) → SameTarget g (run_change now p g)
unfolding run_change
run_change-SameTarget now Pending.idle g = refl
run_change-SameTarget now (Pending.go_live_now s) g = run_go_live-SameTarget now s g
run_change-SameTarget now (Pending.after_air s) g = run_after_air-SameTarget now s g
run_change-SameTarget now (Pending.reduce d) g = run_reduce-SameTarget now d g
run_change-SameTarget now (Pending.mask d s a m w b) g = run_mask-SameTarget now d s a m w b g
run_change-SameTarget now (Pending.dump d s f w) g = run_dump-SameTarget now d s f w g
run_change-SameTarget now (Pending.hold f d) g = run_hold-SameTarget now f d g
run_change-SameTarget now (Pending.replay f d) g = run_replay-SameTarget now f d g

pub run_pending-SameTarget : (now : Time) (g : Engine) → SameTarget g (run_pending now g)
unfolding run_pending
run_pending-SameTarget now g = run_change-SameTarget now g.out.pending g
