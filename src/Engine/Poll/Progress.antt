-- ===== src/Engine/Poll/Progress.antt =====
-- crates/engine/src/lib.rs, `poll_budget`: how far a poll has come after a number of rounds of its loop,
-- whether it goes on or has ended.
use stream_delay.Base.{
  ℕ, zero, suc, ◌+◌, ◌*◌, ◌≡◌, refl, ap, inl, inr, Option, none, some, List, [], ◌++◌, not,
  Bool-cases, if◌then◌else◌,
}
use stream_delay.Flv.{Bytes}
use stream_delay.Engine.{Time, ms, OutMsg, Engine}
use stream_delay.Engine.Splice.{is_idle}
use stream_delay.Engine.Change.{run_pending}
use stream_delay.Engine.Evict.{evict}
use stream_delay.Engine.Poll.{
  Turn, turn, Polled, joined, woken, go_on, sent_size, rounds, poll_budget,
}

-- The engine, and what was sent so far.
abbrev pub Progress : Type 0
Progress = Engine × List OutMsg

abbrev pub with_sent : List OutMsg → Progress → Progress
with_sent sent (g, later) = (g, sent ++ later)

abbrev pub onward : (Engine → List OutMsg → Progress) → Turn → Progress
onward rest (Turn.leave g sent wake) = (g, sent)
onward rest (Turn.again g sent) = with_sent sent (rest g sent)

-- A poll that returned has come to what it returned.
abbrev pub IsWhere : Progress → Option Polled → Type 0
IsWhere p none = Unit
IsWhere p (some (g, sent, wake)) = (g ≡ p.0) × (sent ≡ p.1)

joined-IsWhere :
    (sent : List OutMsg) (p : Progress) (r : Option Polled)
    → IsWhere p r
    → IsWhere (with_sent sent p) (joined sent r)
unfolding joined
joined-IsWhere sent p none h = h
joined-IsWhere sent p (some (g, later, w)) (e, f) = (e, ap (λ l. sent ++ l) f)

woken-IsWhere :
    (w : Option Time) (p : Progress) (r : Option Polled) → IsWhere p r → IsWhere p (woken w r)
unfolding woken
woken-IsWhere w p none h = h
woken-IsWhere w p (some (g, sent, v)) h = h

go_on-IsWhere :
    (next : Engine → List OutMsg → Progress) (rest : Engine → List OutMsg → Option Polled)
    (t : Turn)
    → ((g : Engine) (sent : List OutMsg) → IsWhere (next g sent) (rest g sent))
    → IsWhere (onward next t) (go_on rest t)
unfolding go_on
go_on-IsWhere next rest (Turn.leave g sent w) h = (refl, refl)
go_on-IsWhere next rest (Turn.again g sent) h =
    joined-IsWhere sent (next g sent) (rest g sent) (h g sent)

module _ (fingerprint : Bytes → ℕ) where
  -- After `n` rounds, or fewer if the loop has ended.
  unfoldable pub progress : ℕ → Time → ℕ → ℕ → Engine → Progress
  progress zero now max_bytes emitted g = (g, [])
  progress (suc n) now max_bytes emitted g =
      onward (λ g' sent. progress n now max_bytes (emitted + sent_size sent) g')
        (turn fingerprint now max_bytes emitted g)

  unfoldable pub poll_progress : ℕ → Time → ℕ → Engine → Progress
  poll_progress n now max_bytes g =
      let g' = run_pending now (evict now g) in
      if not g'.out.connected then (g', []) else progress n now max_bytes 0 g'

  rounds-IsWhere :
      (n now max_bytes emitted : ℕ) (g : Engine)
      → IsWhere (progress n now max_bytes emitted g) (rounds fingerprint n now max_bytes emitted g)
  unfolding rounds progress
  rounds-IsWhere zero now max_bytes emitted g = tt
  rounds-IsWhere (suc n) now max_bytes emitted g =
      go_on-IsWhere _ _ (turn fingerprint now max_bytes emitted g)
        (λ g' sent. rounds-IsWhere n now max_bytes (emitted + sent_size sent) g')

  pub poll_budget-IsWhere :
      (n now max_bytes : ℕ) (g : Engine)
      → IsWhere (poll_progress n now max_bytes g) (poll_budget fingerprint n now max_bytes g)
  unfolding poll_budget poll_progress
  poll_budget-IsWhere n now max_bytes g =
      let g' = run_pending now (evict now g) in
      let wake = if is_idle g'.out.pending then none else some (now + 50 * ms) in
      elim (Bool-cases (not g'.out.connected)) [
        | inl off ↦ rw (off, poll_budget, poll_progress) (refl, refl)
        | inr on ↦
            rw (on, poll_budget, poll_progress)
              (woken-IsWhere wake (progress n now max_bytes 0 g')
                (rounds fingerprint n now max_bytes 0 g') (rounds-IsWhere n now max_bytes 0 g'))
      ]
