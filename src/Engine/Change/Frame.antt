-- ===== src/Engine/Change/Frame.antt =====
-- crates/engine/src/lib.rs, `run_pending`: the parts of the engine other than the output.
use stream_delay.Base.{ℕ, Option, Bool, ◌≡◌, refl, arith}
use stream_delay.Engine.{Time, Engine, Pending}
use stream_delay.Engine.Splice.{splice_to}
use stream_delay.Engine.Change.{
  run_go_live, run_after_air, run_reduce, reduce_to, mask_from, find_anchor, run_mask, run_hold,
  dump_covered, run_dump, run_replay, run_change, run_pending, back_under_max, back_to_target,
}

-- `g'` differs from `g` in the output only.
abbrev pub OnlyOut : Engine → Engine → Type 0
OnlyOut g g' = g' ≡ record g { out = g'.out }

pub splice_to-OnlyOut : (k d : ℕ) (g : Engine) → OnlyOut g (splice_to k d g)
unfolding splice_to
splice_to-OnlyOut k d g = ground arith

run_go_live-OnlyOut : (now s : ℕ) (g : Engine) → OnlyOut g (run_go_live now s g)
unfolding run_go_live
run_go_live-OnlyOut now s g = grind (arith, splice_to-OnlyOut)

run_after_air-OnlyOut : (now s : ℕ) (g : Engine) → OnlyOut g (run_after_air now s g)
unfolding run_after_air
run_after_air-OnlyOut now s g = grind (arith, run_go_live-OnlyOut)

reduce_to-OnlyOut : (now d k : ℕ) (g : Engine) → OnlyOut g (reduce_to now d k g)
unfolding reduce_to
reduce_to-OnlyOut now d k g = grind (arith, splice_to-OnlyOut)

run_reduce-OnlyOut : (now d : ℕ) (g : Engine) → OnlyOut g (run_reduce now d g)
unfolding run_reduce
run_reduce-OnlyOut now d g = grind (arith, reduce_to-OnlyOut)

mask_from-OnlyOut : (now d k : ℕ) (g : Engine) → OnlyOut g (mask_from now d k g)
unfolding mask_from
mask_from-OnlyOut now d k g = grind (arith, splice_to-OnlyOut)

find_anchor-OnlyOut :
    (now from d started : ℕ) (mute : Bool) (shown : Option Time) (dump : Bool) (g : Engine)
    → OnlyOut g (find_anchor now from d started mute shown dump g)
unfolding find_anchor
find_anchor-OnlyOut now from d started mute shown dump g = grind (arith, mask_from-OnlyOut)

run_mask-OnlyOut :
    (now d started : ℕ) (a : Option ℕ) (mute : Bool) (shown : Option Time) (dump : Bool)
    (g : Engine)
    → OnlyOut g (run_mask now d started a mute shown dump g)
unfolding run_mask
run_mask-OnlyOut now d started a mute shown dump g =
    grind (arith, mask_from-OnlyOut, find_anchor-OnlyOut)

run_hold-OnlyOut : (now from d : ℕ) (g : Engine) → OnlyOut g (run_hold now from d g)
unfolding run_hold
run_hold-OnlyOut now from d g = grind (arith, splice_to-OnlyOut)

dump_covered-OnlyOut :
    (now after d started : ℕ) (shown : Option Time) (g : Engine)
    → OnlyOut g (dump_covered now after d started shown g)
unfolding dump_covered
dump_covered-OnlyOut now after d started shown g =
    grind (arith, splice_to-OnlyOut, mask_from-OnlyOut)

run_dump-OnlyOut :
    (now d started from : ℕ) (shown : Option Time) (g : Engine)
    → OnlyOut g (run_dump now d started from shown g)
unfolding run_dump
run_dump-OnlyOut now d started from shown g = grind (arith, dump_covered-OnlyOut, run_hold-OnlyOut)

run_replay-OnlyOut : (now from d : ℕ) (g : Engine) → OnlyOut g (run_replay now from d g)
unfolding run_replay
run_replay-OnlyOut now from d g = grind (arith, splice_to-OnlyOut)

run_change-OnlyOut : (now : Time) (p : Pending) (g : Engine) → OnlyOut g (run_change now p g)
unfolding run_change
run_change-OnlyOut now Pending.idle g = refl
run_change-OnlyOut now (Pending.go_live_now s) g = run_go_live-OnlyOut now s g
run_change-OnlyOut now (Pending.after_air s) g = run_after_air-OnlyOut now s g
run_change-OnlyOut now (Pending.reduce d) g = run_reduce-OnlyOut now d g
run_change-OnlyOut now (Pending.mask d s a m w b) g = run_mask-OnlyOut now d s a m w b g
run_change-OnlyOut now (Pending.dump d s f w) g = run_dump-OnlyOut now d s f w g
run_change-OnlyOut now (Pending.hold f d) g = run_hold-OnlyOut now f d g
run_change-OnlyOut now (Pending.replay f d) g = run_replay-OnlyOut now f d g

-- `run_pending` changes the output only.
pub run_pending-OnlyOut : (now : Time) (g : Engine) → OnlyOut g (run_pending now g)
unfolding run_pending
run_pending-OnlyOut now g = run_change-OnlyOut now g.out.pending g

pub back_under_max-OnlyOut : (g : Engine) → OnlyOut g (back_under_max g)
unfolding back_under_max
back_under_max-OnlyOut g = grind arith

pub back_to_target-OnlyOut : (g : Engine) → OnlyOut g (back_to_target g)
unfolding back_to_target
back_to_target-OnlyOut g = grind arith
