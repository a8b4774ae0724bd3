-- ===== src/Flv/Reader.antt =====
-- crates/flv/src/lib.rs, `Reader`: a cursor over a payload. A read returns `none` past the end, and
-- otherwise the value with the moved cursor.
use stream_delay.Base.{
  ℕ, zero, suc, ◌+◌, ◌-◌, ◌*◌, ◌%◌, Option, none, some, ltb, ◌==◌, if◌then◌else◌, get_elem?, length,
}
use stream_delay.Base.Int.{ℤ, pos, negsuc}
use stream_delay.Flv.{Bytes}

pub record Reader : Type 0 where
  pub b : Bytes
  pub at : ℕ

abbrev pub R : Type 0 → Type 0
R A = Reader → Option (A × Reader)

infixl 5 ◌>>=◌ ◌>>◌
abbrev pub ◌>>=◌ : {A B : Type 0} → R A → (A → R B) → R B
◌>>=◌ m f r = elim (m r) [ none ↦ none | some (a, r') ↦ f a r' ]

abbrev pub ◌>>◌ : {A B : Type 0} → R A → R B → R B
m >> k = m >>= λ _. k

abbrev pub pure : {A : Type 0} → A → R A
pure a r = some (a, r)

abbrev pub fail : {A : Type 0} → R A
fail r = none

-- `m.unwrap_or(d)`: a read that fails leaves the cursor where it was.
abbrev pub unwrap_or : {A : Type 0} → R A → A → R A
unwrap_or m d r = elim (m r) [ none ↦ some (d, r) | some p ↦ some p ]

-- The cursor itself, `r.pos`.
abbrev pub position : R ℕ
position r = some (r.at, r)

-- `u8`.
unfoldable pub u8 : R ℕ
u8 r = elim (get_elem? r.b r.at) [ none ↦ none | some v ↦ some (v, record r { at = r.at + 1 }) ]

-- `u16`, big-endian.
unfoldable pub u16 : R ℕ
unfolding u8
u16 = do hi ← u8; lo ← u8; pure (hi * 256 + lo)

-- `si24`: a signed 24-bit big-endian integer. All three bytes are there, or nothing is read.
abbrev sign24 : ℕ → ℤ
sign24 v = if ltb v 0x80_0000 then pos v else negsuc (0xff_ffff - v)

unfoldable pub si24 : R ℤ
unfolding u8
si24 = do a ← u8; b ← u8; c ← u8; pure (sign24 (a * 0x1_0000 + b * 0x100 + c))

-- `fourcc`.
pub record Fourcc : Type 0 where
  pub c0 : ℕ
  pub c1 : ℕ
  pub c2 : ℕ
  pub c3 : ℕ

unfoldable pub fourcc : R Fourcc
unfolding u8
fourcc = do a ← u8; b ← u8; c ← u8; d ← u8; pure (record { c0 = a; c1 = b; c2 = c; c3 = d })

-- `skip`.
unfoldable pub skip : ℕ → R (Unit {0})
skip n r = if ltb (length r.b) (r.at + n) then none else some (tt, record r { at = r.at + n })

-- One ModEx block: its size (in one byte, or in two more), its data and the next packet type.
skip_block : R ℕ
unfolding u8 u16 skip
skip_block = do
  n ← u8
  size ← if n == 255 then u16 else pure n
  skip (size + 1)
  next ← u8
  pure (next % 16)

-- `skip_mod_ex`. The first argument is `16 - guard`, the blocks that may still come.
unfoldable pub skip_blocks : ℕ → ℕ → ℕ → R ℕ
unfolding skip_block
skip_blocks zero packet_type mod_ex = if packet_type == mod_ex then fail else pure packet_type
skip_blocks (suc left) packet_type mod_ex =
    if packet_type == mod_ex
    then skip_block >>= (λ next. skip_blocks left next mod_ex)
    else pure packet_type

unfoldable pub skip_mod_ex : ℕ → ℕ → R ℕ
unfolding skip_blocks
skip_mod_ex packet_type mod_ex = skip_blocks 16 packet_type mod_ex
