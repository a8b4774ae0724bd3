-- ===== src/Engine/Commands/Replies.antt =====
-- crates/engine/src/lib.rs, `command`: what the answer to a command says of the engine.
use stream_delay.Base.{ℕ, ◌*◌, ◌≤◌, ◌≡◌, refl, Bool, true, false, arith, ◌==◌}
use stream_delay.Engine.{Time, ms, DelayMode, Command, Ack, EngineError, Pending, Engine}
use stream_delay.Engine.Splice.{set_pending}
use stream_delay.Engine.Change.{on_out}
use stream_delay.Engine.Change.Target.{SameTarget, splice_to-SameTarget, run_pending-SameTarget}
use stream_delay.Engine.Dump.{retarget}
use stream_delay.Engine.Commands.{
  Reply, rewind_to, rewind, ack, finish, reset_flags, go_live, mask_change, change_delay,
  set_delay_to, set_delay, dump_command, command,
}

abbrev is_done : Reply → Bool
is_done (Reply.done _) = true
is_done (Reply.refused _) = false

finish-is_done : (now : Time) (g : Engine) → is_done (finish now g).1 ≡ true
unfolding finish
finish-is_done now g = refl

set_delay-is_done :
    (now : Time) (n : ℕ) (mode : DelayMode) (g : Engine) → is_done (set_delay now n mode g).1 ≡ true
unfolding set_delay set_delay_to
set_delay-is_done now n mode g = grind (arith, finish-is_done)

-- What a refusal leaves: of a dump, the engine with its four warnings taken back, of any other command
-- the engine as it was.
abbrev pub after_refusal : Command → Engine → Engine
after_refusal (Command.dump mode cover) g = record g {
  out = record g.out {
    memory_short = false;
    slate_unconfirmed = false;
    cover_lost = false;
    grew_on_reconnect = false;
  };
}
after_refusal _ g = g

-- A command that is refused changes nothing, and a dump that is refused nothing but the four warnings
-- that the user interface shows, which it takes back.
pub command-refused :
    (now : Time) (c : Command) (g : Engine) (e : EngineError)
    → (command now c g).1 ≡ Reply.refused e
    → (command now c g).0 ≡ after_refusal c g
unfolding command dump_command reset_flags
command-refused now (Command.slate_shown change) g e h = grind (arith, finish-is_done)
command-refused now Command.cancel g e h = grind (arith, finish-is_done)
command-refused now (Command.go_live when) g e h = grind (arith, finish-is_done)
command-refused now (Command.dump mode cover) g e h = grind (arith, finish-is_done)
command-refused now (Command.set_delay n mode) g e h = grind (arith, set_delay-is_done)

rewind-SameTarget : (now d : ℕ) (g : Engine) → SameTarget g (rewind now d g)
unfolding rewind rewind_to set_pending
rewind-SameTarget now d g = grind (arith, splice_to-SameTarget)

change_delay-target :
    (now d : ℕ) (masked : Bool) (g : Engine)
    → g.out.target ≡ d
    → (change_delay now d masked g).out.target ≡ d
unfolding change_delay go_live mask_change set_pending reset_flags
change_delay-target now d masked g h = grind (arith, rewind-SameTarget)

-- The delay that an answer names; a refusal names none.
abbrev names : ℕ → Reply → Bool
names n (Reply.done a) = a.target_ms == n
names n (Reply.refused _) = false

finish-names : (now n : ℕ) (g : Engine) → g.out.target ≡ n * ms → names n (finish now g).1 ≡ true
unfolding finish ack
finish-names now n g h = let same = run_pending-SameTarget now g in ground arith

set_delay_to-names :
    (now n : ℕ) (masked : Bool) (g : Engine) → names n (set_delay_to now (n * ms) masked g).1 ≡ true
unfolding set_delay_to set_pending retarget ack
set_delay_to-names now n masked g =
    let begun = on_out (set_pending Pending.idle) (retarget (n * ms) g) in
    let named =
      finish-names now n (change_delay now (n * ms) masked begun)
        (change_delay-target now (n * ms) masked begun refl) in
    ground arith

set_delay-names :
    (now n : ℕ) (mode : DelayMode) (g : Engine) → names n (set_delay now n mode g).1 ≡ true
unfolding set_delay retarget
set_delay-names now n mode g = grind (arith, finish-names now n, set_delay_to-names now n)

-- A delay that is accepted is at most the maximum, and the answer names it as the delay asked for.
pub set_delay-accepted :
    (now n : ℕ) (mode : DelayMode) (g : Engine) (a : Ack)
    → (command now (Command.set_delay n mode) g).1 ≡ Reply.done a
    → (n ≤ g.config.max_delay_ms) × (a.target_ms ≡ n)
unfolding command
set_delay-accepted now n mode g a h =
    let named = set_delay-names now n mode (reset_flags g) in ground arith
