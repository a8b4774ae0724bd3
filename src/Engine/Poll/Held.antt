-- ===== src/Engine/Poll/Held.antt =====
-- crates/engine/src/lib.rs, `poll_budget`: while the output holds after a dump.
use stream_delay.Base.{
  ℕ, suc, ◌+◌, ◌*◌, ◌≡◌, refl, Bool, true, false, Option, none, some, arith, if◌then◌else◌,
  Bool-cases, inl, inr, all,
}
use stream_delay.Flv.{Bytes}
use stream_delay.Engine.{Time, ms, Engine}
use stream_delay.Engine.Splice.{is_idle}
use stream_delay.Engine.Change.{run_pending}
use stream_delay.Engine.Evict.{evict}
use stream_delay.Engine.Lifecycle.{is_holding}
use stream_delay.Engine.Poll.{Polled, woken, go_on, turn, rounds, poll_budget}
use stream_delay.Engine.Poll.Due.{is_plain, emit_hold_frame-is_plain}

-- The poll gave a result, and sent only messages without a number.
abbrev pub airs_nothing : Option Polled → Bool
airs_nothing none = false
airs_nothing (some (_, sent, _)) = all is_plain sent

woken-airs_nothing :
    (wake : Option Time) (r : Option Polled) → airs_nothing (woken wake r) ≡ airs_nothing r
unfolding woken
woken-airs_nothing wake none = refl
woken-airs_nothing wake (some (g, sent, w)) = refl

module _ (fp : Bytes → ℕ) where
  rounds-held :
      (fuel now most emitted : ℕ) (g : Engine)
      → is_holding g.out.pending ≡ true
      → airs_nothing (rounds fp (suc fuel) now most emitted g) ≡ true
  unfolding rounds turn go_on
  rounds-held fuel now most emitted g h = rw (h) (emit_hold_frame-is_plain fp now g.out)

  -- While the output holds, or waits for the slate, after a dump, with fuel for one round, a poll gives a
  -- result, and what it sends is only the held frame and its headers: no entry of the buffer.
  pub poll_budget-held :
      (fuel now most : ℕ) (g : Engine)
      → is_holding (run_pending now (evict now g)).out.pending ≡ true
      → airs_nothing (poll_budget fp (suc fuel) now most g) ≡ true
  unfolding poll_budget
  poll_budget-held fuel now most g h =
      let g' = run_pending now (evict now g) in
      let wake = if is_idle g'.out.pending then none else some (now + 50 * ms) in
      let same = woken-airs_nothing wake (rounds fp (suc fuel) now most 0 g') in
      let held = rounds-held fuel now most 0 g' h in
      elim (Bool-cases g'.out.connected) [ inl on ↦ ground arith | inr off ↦ ground arith ]
