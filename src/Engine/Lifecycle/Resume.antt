-- ===== src/Engine/Lifecycle/Resume.antt =====
-- crates/engine/src/lib.rs, `output_connected`: where a new connection goes on.
use stream_delay.Base.{
  ℕ, ◌-◌, ◌||◌, ◌≤◌, ◌≡◌, some, max, arith, ltb, leb, Option-cases, inl, inr, rfind-passes,
}
use stream_delay.Engine.{Time, Engine, Buffer}
use stream_delay.Engine.Rolling.{sync_at_or_before, arrival_or}
use stream_delay.Engine.Splice.{splice_to, spliced, set_pending}
use stream_delay.Engine.Change.{back_under_max, back_to_target, on_out}
use stream_delay.Engine.Lifecycle.{connected, resume_at, output_connected}

-- The cursor does not move on, and the delay does not shrink.
abbrev pub NotAhead : Engine → Engine → Type 0
NotAhead g g' = (g'.out.next_seq ≤ g.out.next_seq) × (g.out.delay ≤ g'.out.delay)

splice_to-NotAhead :
    (k d : ℕ) (g : Engine) → k ≤ g.out.next_seq → g.out.delay ≤ d → NotAhead g (splice_to k d g)
unfolding splice_to spliced
splice_to-NotAhead k d g h le = ground arith

back_under_max-NotAhead : (g : Engine) → NotAhead g (back_under_max g)
unfolding back_under_max set_pending
back_under_max-NotAhead g = ground arith

back_to_target-NotAhead : (g : Engine) → NotAhead g (back_to_target g)
unfolding back_to_target set_pending
back_to_target-NotAhead g = ground arith

resume_at-NotAhead :
    (now : Time) (k : ℕ) (g : Engine) → k ≤ g.out.next_seq → NotAhead g (resume_at now k g)
unfolding resume_at
resume_at-NotAhead now k g h =
    let delay = max g.out.delay (now - arrival_or g.buffer k now) in
    let grown =
      on_out (λ o. record o { grew_on_reconnect = o.grew_on_reconnect || ltb o.delay delay }) g in
    let spliced = splice_to-NotAhead k delay grown h (omega arith) in
    ground (
      arith,
      back_under_max-NotAhead (splice_to k delay grown),
      back_to_target-NotAhead (back_under_max (splice_to k delay grown)),
    )

connected-NotAhead : (now : Time) (g : Engine) → NotAhead g (on_out (connected now) g)
unfolding connected
connected-NotAhead now g = ground arith

sync_at_or_before-le : (b : Buffer) (seq : ℕ) {k : ℕ} → sync_at_or_before b seq ≡ some k → k ≤ seq
unfolding sync_at_or_before
sync_at_or_before-le b seq {k} h =
    let passed = rfind-passes (λ s. leb s seq) b.syncs {a = k} h in ground arith

-- A connection neither moves the cursor on nor shortens the delay, whatever was under way.
pub output_connected-NotAhead : (now : Time) (g : Engine) → NotAhead g (output_connected now g)
unfolding output_connected
output_connected-NotAhead now g =
    let c = on_out (connected now) g in
    let first = connected-NotAhead now g in
    elim (Option-cases (sync_at_or_before c.buffer c.out.next_seq)) [
      | inl n ↦ ground arith
      | inr k ↦
          let at = sync_at_or_before-le c.buffer c.out.next_seq {k = k.0} k.1 in
          let resumed = resume_at-NotAhead now k.0 c at in ground arith
    ]
