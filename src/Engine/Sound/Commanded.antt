-- ===== src/Engine/Sound/Commanded.antt =====
-- crates/engine/src/lib.rs: commands and the engine's invariant.
use stream_delay.Base.{
  ℕ, ◌-◌, ◌*◌, ◌≤◌, ◌≡◌, refl, Bool, inl, inr, Option, none, arith, if◌then◌else◌, Option-cases,
}
use stream_delay.Engine.{Time, ms, Engine, Pending, DelayMode, GoLiveWhen, Command}
use stream_delay.Engine.Rolling.{cut_at, arrival_or}
use stream_delay.Engine.Rolling.Valid.{cut_at-IsValid, base-le-next}
use stream_delay.Engine.Sessions.{count_sessions}
use stream_delay.Engine.Splice.{set_pending}
use stream_delay.Engine.Change.{on_out}
use stream_delay.Engine.Drop.{drop_buffer}
use stream_delay.Engine.Dump.{
  dump_delay, retarget, cut_unaired, cut, split_session, is_rewind, replay_from, replay_at,
  dump_all, dump_running, dump,
}
use stream_delay.Engine.Lifecycle.{unsend}
use stream_delay.Engine.Commands.{
  rewind_to, rewind, finish, reset_flags, slate_shown, cancel, go_live, mask_change, change_delay,
  set_delay_to, set_delay, dump_command, command, dump_after,
}
use stream_delay.Engine.Sound.{
  IsSound, splice_to-IsSound, run_pending-IsSound, back_under_max-IsSound,
}
use stream_delay.Engine.Sound.Dropped.{drop_buffer-IsSound}
use stream_delay.Engine.Sound.Living.{unsend-IsSound, nothing_left-IsSound}

rewind_to-IsSound :
    (now d : ℕ) (exact : Bool) (k : ℕ) (g : Engine)
    → IsSound g
    → IsSound (rewind_to now d exact k g)
unfolding rewind_to set_pending
rewind_to-IsSound now d exact k g s = grind (arith, splice_to-IsSound)

rewind-IsSound : (now d : ℕ) (g : Engine) → IsSound g → IsSound (rewind now d g)
unfolding rewind
rewind-IsSound now d g s = grind (arith, rewind_to-IsSound)

finish-IsSound : (now : Time) (g : Engine) → IsSound g → IsSound (finish now g).0
unfolding finish
finish-IsSound now g s = run_pending-IsSound now g s

reset_flags-IsSound : (g : Engine) → IsSound g → IsSound (reset_flags g)
unfolding reset_flags
reset_flags-IsSound g s = ground arith

config-reset_flags : (g : Engine) → (reset_flags g).config ≡ g.config
unfolding reset_flags
config-reset_flags g = refl

slate_shown-IsSound : (now n : ℕ) (g : Engine) → IsSound g → IsSound (slate_shown now n g)
unfolding slate_shown
slate_shown-IsSound now n g s = ground arith

cancel-IsSound : (g : Engine) → IsSound g → IsSound (cancel g)
unfolding cancel set_pending
cancel-IsSound g s = grind (arith, back_under_max-IsSound)

go_live-IsSound : (w : GoLiveWhen) (g : Engine) → IsSound g → IsSound (go_live w g)
unfolding go_live set_pending
go_live-IsSound w g s = ground arith

change_delay-IsSound :
    (now d : ℕ) (masked : Bool) (g : Engine) → IsSound g → IsSound (change_delay now d masked g)
unfolding change_delay mask_change set_pending
change_delay-IsSound now d masked g s =
    grind (arith, rewind-IsSound, go_live-IsSound, reset_flags-IsSound)

idle-IsSound : (g : Engine) → IsSound g → IsSound (on_out (set_pending Pending.idle) g)
unfolding set_pending
idle-IsSound g s = ground arith

retarget-IsSound :
    (d : ℕ) (g : Engine) → d ≤ g.config.max_delay_ms * ms → IsSound g → IsSound (retarget d g)
unfolding retarget
retarget-IsSound d g h s = ground arith

set_delay_to-IsSound :
    (now d : ℕ) (masked : Bool) (g : Engine)
    → d ≤ g.config.max_delay_ms * ms
    → IsSound g
    → IsSound (set_delay_to now d masked g).0
unfolding set_delay_to
set_delay_to-IsSound now d masked g h s =
    let begun = on_out (set_pending Pending.idle) (retarget d g) in
    ground (
      arith,
      finish-IsSound now (change_delay now d masked begun) (
          change_delay-IsSound now d masked begun
            (idle-IsSound (retarget d g) (retarget-IsSound d g h s))),
    )

set_delay-IsSound :
    (now n : ℕ) (mode : DelayMode) (g : Engine)
    → n ≤ g.config.max_delay_ms
    → IsSound g
    → IsSound (set_delay now n mode g).0
unfolding set_delay
set_delay-IsSound now n mode g h s =
    grind (arith, finish-IsSound, retarget-IsSound, set_delay_to-IsSound)

split_session-IsSound : (seq : ℕ) (g : Engine) → IsSound g → IsSound (split_session seq g)
unfolding split_session count_sessions
split_session-IsSound seq g s = ground arith

cut_unaired-IsSound : (g : Engine) → g.out.end_mark ≡ none → IsSound g → IsSound (cut_unaired g)
unfolding cut_unaired
cut_unaired-IsSound g h s =
    split_session-IsSound (cut g) (record g { buffer = cut_at (cut g) g.buffer })
      (record {
        buffer =
            cut_at-IsValid (cut g) g.buffer s.buffer (omega arith)
              (omega (arith, base-le-next g.buffer s.buffer));
        sessions = s.sessions;
        cursor = unfold cut_at in omega arith;
        mark = rw h;
        target = s.target;
      })

replay_at-IsSound :
    (now d k : ℕ) (g : Engine) → g.out.end_mark ≡ none → IsSound g → IsSound (replay_at now d k g)
unfolding replay_at
replay_at-IsSound now d k g h s =
    let g' = on_out (set_pending (Pending.replay (cut g) d)) (cut_unaired g) in
    splice_to-IsSound k (now - arrival_or g'.buffer k now) g'
      (unfold set_pending in ground (arith, cut_unaired-IsSound g h s))

dump_all-IsSound :
    (now d : ℕ) (cover : Bool) (g : Engine) → IsSound g → IsSound (dump_all now d cover g).0
unfolding dump_all set_pending
dump_all-IsSound now d cover g s = ground (arith, drop_buffer-IsSound g s)

dump_running-IsSound :
    (now : Time) (mode : DelayMode) (cover : Bool) (g : Engine)
    → g.out.end_mark ≡ none
    → IsSound g
    → IsSound (dump_running now mode cover g).0
unfolding dump_running
dump_running-IsSound now mode cover g h s =
    let delay = dump_delay g in
    let t = retarget delay g in
    let sound : IsSound t = retarget-IsSound delay g (unfold dump_delay in omega arith) s in
    let mark : t.out.end_mark ≡ none = unfold retarget in h in
    let k = if is_rewind mode then replay_from now delay t else none in
    elim (Option-cases k) [
      | inl n ↦ rw (n, dump_running) (dump_all-IsSound now delay cover t sound)
      | inr f ↦ rw (f.1, dump_running) (replay_at-IsSound now delay f.0 t mark sound)
    ]

dump-IsSound :
    (now : Time) (mode : DelayMode) (cover : Bool) (g : Engine)
    → IsSound g
    → IsSound (dump now mode cover g).0
unfolding dump
dump-IsSound now mode cover g s = ground (
  arith,
  drop_buffer-IsSound g s,
  idle-IsSound (drop_buffer g) (drop_buffer-IsSound g s),
  dump_running-IsSound now mode cover g,
)

dump_command-IsSound :
    (now : Time) (mode : DelayMode) (cover : Bool) (g : Engine)
    → IsSound g
    → IsSound (dump_command now mode cover g).0
unfolding dump_command
dump_command-IsSound now mode cover g s =
    ground (arith, finish-IsSound now (dump now mode cover g).0 (dump-IsSound now mode cover g s))

-- Every command keeps the invariant, whether it is carried out or refused.
pub command-IsSound :
    (now : Time) (c : Command) (g : Engine) → IsSound g → IsSound (command now c g).0
unfolding command
command-IsSound now (Command.slate_shown n) g s =
    finish-IsSound now (slate_shown now n g) (slate_shown-IsSound now n g s)
command-IsSound now Command.cancel g s = finish-IsSound now (cancel g) (cancel-IsSound g s)
command-IsSound now (Command.dump mode cover) g s =
    dump_command-IsSound now mode cover (reset_flags g) (reset_flags-IsSound g s)
command-IsSound now (Command.go_live w) g s =
    finish-IsSound now (go_live w (reset_flags g))
      (go_live-IsSound w (reset_flags g) (reset_flags-IsSound g s))
command-IsSound now (Command.set_delay n mode) g s = ground (
  arith,
  set_delay-IsSound now n mode (reset_flags g),
  reset_flags-IsSound g s,
  config-reset_flags g,
)

pub dump_after-IsSound :
    (now : Time) (taken : Option ℕ) (mode : DelayMode) (cover : Bool) (g : Engine)
    → IsSound g
    → IsSound (dump_after now taken mode cover g).0
unfolding dump_after
dump_after-IsSound now taken mode cover g s = ground (
  arith,
  command-IsSound now (Command.dump mode cover) (unsend taken g) (unsend-IsSound taken g s),
  nothing_left-IsSound taken g s,
)
