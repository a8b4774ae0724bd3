-- ===== src/Rtmp/Ts/Follows.antt =====
-- crates/rtmp/src/ts.rs: times, their wrapped timestamps and what is recovered from these.
use stream_delay.Base.{ℕ, ◌+◌, ◌%◌, ◌^◌, ◌≤◌, ◌<◌, ◌≡◌, refl, some, List, [], ◌∷◌, map, ap, arith}
use stream_delay.Base.Int.{pos, pos_part, ◌+ℤ◌}
use stream_delay.Rtmp.Ts.{TsUnwrapper, new_unwrapper, wrapping_sub, as_i32, unwrap}

-- The unwrapper has seen the time `t` last.
pub record IsAt (t : ℕ) (u : TsUnwrapper) : Type 0 where
  pub last_is : u.last ≡ some (t % 2 ^ 32)
  pub current_is : u.current ≡ pos t

step_lem :
    (t t' : ℕ)
    → t' < t + 2 ^ 31
    → t ≤ t' + 2 ^ 31
    → pos t +ℤ as_i32 (wrapping_sub (t' % 2 ^ 32) (t % 2 ^ 32)) ≡ pos t'
unfolding ◌+ℤ◌
step_lem t t' h k = ground arith

-- The timestamps unwrapped one after the other.
abbrev pub unwrap_all : List ℕ → TsUnwrapper → List ℕ
unwrap_all [] u = []
unwrap_all (ts ∷ rest) u = let (u', t) = unwrap ts u in t ∷ unwrap_all rest u'

-- Times that step forward by less than half the range of a timestamp, and back by at most half of it.
pub data Steps : ℕ → List ℕ → Type 0 where
  still : {t : ℕ} → Steps t []
  step :
      {t t' : ℕ} {rest : List ℕ}
      → t' < t + 2 ^ 31
      → t ≤ t' + 2 ^ 31
      → Steps t' rest
      → Steps t (t' ∷ rest)

unwrap-step :
    (t t' : ℕ) (u : TsUnwrapper)
    → IsAt t u
    → t' < t + 2 ^ 31
    → t ≤ t' + 2 ^ 31
    → IsAt t' (unwrap (t' % 2 ^ 32) u).0 × ((unwrap (t' % 2 ^ 32) u).1 ≡ t')
unfolding unwrap
unwrap-step t t' u at h k =
    let same = step_lem t t' h k in
    rw (at.last_is, at.current_is) (record { last_is = refl; current_is = same }, ap pos_part same)

unwrap_all-Steps :
    (t : ℕ) (ts : List ℕ) (u : TsUnwrapper)
    → IsAt t u
    → Steps t ts
    → unwrap_all (map (λ x. x % 2 ^ 32) ts) u ≡ ts
unwrap_all-Steps t [] u at still = refl
unwrap_all-Steps t (t' ∷ ts) u at (step h k rest) =
    let stepped = unwrap-step t t' u at h k in
    rw (stepped.1, unwrap_all-Steps t' ts (unwrap (t' % 2 ^ 32) u).0 stepped.0 rest) refl

-- Times from a first one below 2^32 on, each less than half the range of a timestamp after the one before
-- or at most half of it before, are recovered from what is left of them in 32 bits.
pub unwrap_all-wrapped :
    (t : ℕ) (ts : List ℕ)
    → t < 2 ^ 32
    → Steps t ts
    → unwrap_all (map (λ x. x % 2 ^ 32) (t ∷ ts)) new_unwrapper ≡ t ∷ ts
unfolding unwrap
unwrap_all-wrapped t ts h s =
    let whole : t % 2 ^ 32 ≡ t = omega arith in
    let u : TsUnwrapper = record { last = some (t % 2 ^ 32); current = pos (t % 2 ^ 32) } in
    let at : IsAt t u = record { last_is = refl; current_is = ap pos whole } in
    rw (unwrap_all-Steps t ts u at s, whole) refl
