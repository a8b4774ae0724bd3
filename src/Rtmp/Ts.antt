-- ===== src/Rtmp/Ts.antt =====
-- crates/rtmp/src/ts.rs: RTMP timestamps, which wrap to 32 bits, made into ones that do not.
pub mod Follows
use stream_delay.Base.{ℕ, ◌+◌, ◌-◌, ◌%◌, ◌^◌, Option, none, some, ltb, if◌then◌else◌}
use stream_delay.Base.Int.{ℤ, pos, pos_part, sub_ℕ, ◌+ℤ◌}

-- `current` is `last` unwrapped.
pub record TsUnwrapper : Type 0 where
  pub last : Option ℕ
  pub current : ℤ

-- `TsUnwrapper::new`.
abbrev pub new_unwrapper : TsUnwrapper
new_unwrapper = record { last = none; current = pos 0 }

-- `ts.wrapping_sub(last)`.
abbrev pub wrapping_sub : ℕ → ℕ → ℕ
wrapping_sub a b = (a + 2 ^ 32 - b) % 2 ^ 32

-- `as i32`, as an integer of more bits.
abbrev pub as_i32 : ℕ → ℤ
as_i32 w = if ltb w (2 ^ 31) then pos w else sub_ℕ w (2 ^ 32)

-- `current` after the timestamp `ts`.
abbrev pub current_after : ℕ → Option ℕ → ℤ → ℤ
current_after ts none current = pos ts
current_after ts (some last) current = current +ℤ as_i32 (wrapping_sub ts last)

-- `unwrap`.
unfoldable pub unwrap : ℕ → TsUnwrapper → TsUnwrapper × ℕ
unwrap ts u =
    let current = current_after ts u.last u.current in
    (record { last = some ts; current = current }, pos_part current)
