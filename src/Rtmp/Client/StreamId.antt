-- ===== src/Rtmp/Client/StreamId.antt =====
-- crates/rtmp/src/session/client.rs: the stream id that a server gives as an f64, and back.
use stream_delay.Base.{
  ℕ, zero, suc, ◌+◌, ◌-◌, ◌*◌, ◌/◌, ◌%◌, ◌^◌, ◌≤◌, ◌&&◌, ◌||◌, Option, none, some, [], ◌∷◌, ltb,
  leb, ◌==◌, if◌then◌else◌, ◌≡◌, arith,
}
use stream_delay.Flv.{Bytes}

-- `u32::MAX`.
abbrev pub u32_max : ℕ
u32_max = 4294967295

-- The exponent of an f64, with its bias of 1023, and its fraction with the leading 1: eight bytes.
abbrev pub scaled : ℕ → ℕ → Option ℕ
scaled e fraction =
    if ltb e 1023 || e == 2047
    then none
    else if ltb 1075 e
    then some (fraction * 2 ^ (e - 1075))
    else if fraction % 2 ^ (1075 - e) == 0
    then some (fraction / 2 ^ (1075 - e))
    else none

-- `is_finite` and `fract() == 0.0`: the whole number of at least 1 that an f64 is. Zero and the negative
-- numbers are below the range that is allowed, and give `none` as well.
unfoldable pub integer_of : Bytes → Option ℕ
integer_of (b0 ∷ b1 ∷ b2 ∷ b3 ∷ b4 ∷ b5 ∷ b6 ∷ b7 ∷ []) =
    if leb 128 b0
    then none
    else scaled (b0 * 16 + b1 / 16) (
        2 ^ 52
        + b1 % 16 * 2 ^ 48
        + b2 * 2 ^ 40
        + b3 * 2 ^ 32
        + b4 * 2 ^ 24
        + b5 * 2 ^ 16
        + b6 * 2 ^ 8
        + b7)
integer_of _ = none

-- `(1.0..=f64::from(u32::MAX)).contains(&id)`.
abbrev pub in_range : Option ℕ → Option ℕ
in_range none = none
in_range (some v) = if leb 1 v && leb v u32_max then some v else none

unfoldable pub stream_id_of : Bytes → Option ℕ
stream_id_of id = in_range (integer_of id)

-- `self.stream_id as f64`: the place of the leading 1 of a number, and the eight bytes.
unfoldable pub top_bit : ℕ → ℕ → ℕ
top_bit zero v = 0
top_bit (suc k) v = let rest = top_bit k v in if leb (2 ^ suc k) v then suc k else rest

abbrev pub f64_bytes : ℕ → ℕ → Bytes
f64_bytes e m =
    (e / 16)
    ∷ (e % 16 * 16 + m / 2 ^ 48)
    ∷ (m / 2 ^ 40 % 256)
    ∷ (m / 2 ^ 32 % 256)
    ∷ (m / 2 ^ 24 % 256)
    ∷ (m / 2 ^ 16 % 256)
    ∷ (m / 2 ^ 8 % 256)
    ∷ (m % 256)
    ∷ []

unfoldable pub f64_of : ℕ → Bytes
f64_of v =
    let k = top_bit 31 v in
    if v == 0 then f64_bytes 0 0 else f64_bytes (1023 + k) (v * 2 ^ (52 - k) - 2 ^ 52)

in_range-bounds : (i : Option ℕ) {v : ℕ} → in_range i ≡ some v → (1 ≤ v) × (v ≤ u32_max)
in_range-bounds none h = absurd (cc)
in_range-bounds (some i) h = ground arith

-- A stream id that is accepted is a u32, and not that of the connection.
pub stream_id_of-bounds : (id : Bytes) {v : ℕ} → stream_id_of id ≡ some v → (1 ≤ v) × (v ≤ u32_max)
unfolding stream_id_of
stream_id_of-bounds id h = in_range-bounds (integer_of id) h
