-- ===== src/Engine/Sound/Living.antt =====
-- crates/engine/src/lib.rs: the engine's invariant over the output's connections and the end of a broadcast.
use stream_delay.Base.{ℕ, ◌<◌, Bool, Option, arith}
use stream_delay.Engine.{Time, Engine}
use stream_delay.Engine.Lifecycle.{
  connected, resume_at, output_connected, output_disconnected, unsend, nothing_left, end_after,
  cancel_end, set_keep_history, set_restore_after_reconnect,
}
use stream_delay.Engine.Change.{on_out}
use stream_delay.Engine.Sound.{
  IsSound, splice_to-IsSound, back_under_max-IsSound, back_to_target-IsSound,
}

resume_at-IsSound : (now k : ℕ) (g : Engine) → IsSound g → IsSound (resume_at now k g)
unfolding resume_at
resume_at-IsSound now k g s =
    grind (arith, splice_to-IsSound, back_under_max-IsSound, back_to_target-IsSound)

connected-IsSound : (now : Time) (g : Engine) → IsSound g → IsSound (on_out (connected now) g)
unfolding connected
connected-IsSound now g s = ground arith

pub output_connected-IsSound :
    (now : Time) (g : Engine) → IsSound g → IsSound (output_connected now g)
unfolding output_connected
output_connected-IsSound now g s = grind (arith, resume_at-IsSound, connected-IsSound)

pub output_disconnected-IsSound :
    (w : Option ℕ) (g : Engine) → IsSound g → IsSound (output_disconnected w g)
unfolding output_disconnected
output_disconnected-IsSound w g s = ground arith

pub unsend-IsSound : (t : Option ℕ) (g : Engine) → IsSound g → IsSound (unsend t g)
unfolding unsend
unsend-IsSound t g s = ground arith

pub nothing_left-IsSound : (t : Option ℕ) (g : Engine) → IsSound g → IsSound (nothing_left t g)
unfolding nothing_left
nothing_left-IsSound t g s = ground arith

-- The mark that ends a broadcast is the number of something received.
pub end_after-IsSound :
    (seq : ℕ) (g : Engine) → seq < g.buffer.next_seq → IsSound g → IsSound (end_after seq g)
unfolding end_after
end_after-IsSound seq g h s = ground arith

pub cancel_end-IsSound : (g : Engine) → IsSound g → IsSound (cancel_end g)
unfolding cancel_end
cancel_end-IsSound g s = ground arith

pub set_keep_history-IsSound :
    (keep : Bool) (g : Engine) → IsSound g → IsSound (set_keep_history keep g)
unfolding set_keep_history
set_keep_history-IsSound keep g s = ground arith

pub set_restore_after_reconnect-IsSound :
    (restore : Bool) (g : Engine) → IsSound g → IsSound (set_restore_after_reconnect restore g)
unfolding set_restore_after_reconnect
set_restore_after_reconnect-IsSound restore g s = ground arith
