-- ===== src/Flv/Hevc.antt =====
-- crates/flv/src/lib.rs, `hevc`: NAL unit types, and the rewrite of CRA slices as BLA ones that
-- splices and holds need.
pub mod Rewrite
use stream_delay.Base.{
  ℕ, suc, ◌+◌, ◌-◌, ◌*◌, ◌/◌, ◌%◌, Bool, false, ◌&&◌, ◌||◌, Option, none, some, ◌∷◌, leb, ltb, ◌==◌,
  if◌then◌else◌, ◌++◌, length, take, drop,
}
use stream_delay.Flv.{Bytes}

abbrev pub cra : ℕ
cra = 21

abbrev pub bla_w_lp : ℕ
bla_w_lp = 16

unfoldable pub is_leading : ℕ → Bool
is_leading t = leb 6 t && leb t 9

unfoldable pub is_irap : ℕ → Bool
is_irap t = leb 16 t && leb t 23

unfoldable pub is_trailing : ℕ → Bool
is_trailing t = leb t 5

-- `(byte >> 1) & 0x3f`: the NAL unit type in a header byte.
abbrev pub nal_type : ℕ → ℕ
nal_type byte = byte / 2 % 64

-- `(byte & 0x81) | (BLA_W_LP << 1)`: the type replaced, the two other bits kept.
abbrev pub as_bla : ℕ → ℕ
as_bla byte = byte / 128 % 2 * 128 + bla_w_lp * 2 + byte % 2

-- `u32::from_be_bytes`.
abbrev pub be32 : ℕ → ℕ → ℕ → ℕ → ℕ
be32 a b c d = a * 0x100_0000 + b * 0x1_0000 + c * 0x100 + d

-- The header byte of a NAL unit, rewritten if it is a CRA slice's.
unfoldable pub rewrite_header : ℕ → ℕ
rewrite_header byte = if nal_type byte == cra then as_bla byte else byte

-- The loop of `cra_to_bla` over what is left from `pos` on: that part rewritten, and `changed`.
-- Each round goes past five bytes or more, so fuel for every byte is enough.
unfoldable pub rewrite_units : ℕ → Bytes → Bytes × Bool
unfolding rewrite_header
rewrite_units (suc fuel) (a ∷ b ∷ c ∷ d ∷ header ∷ rest) =
    let len = be32 a b c d in
    let later : Bytes × Bool = rewrite_units fuel (drop (len - 1) rest) in
    if len == 0 || ltb (length rest + 1) len then (a ∷ b ∷ c ∷ d ∷ header ∷ rest, false) else (
      a ∷ b ∷ c ∷ d ∷ rewrite_header header ∷ (take (len - 1) rest ++ later.0),
      (nal_type header == cra) || later.1,
    )
rewrite_units _ rest = (rest, false)

-- `cra_to_bla`. With an offset past the end there is nothing to rewrite.
unfoldable pub cra_to_bla : Bytes → ℕ → Option Bytes
unfolding rewrite_units
cra_to_bla payload offset =
    let (units, changed) = rewrite_units (length payload) (drop offset payload) in
    if changed then some (take offset payload ++ units) else none

-- `first_hevc_vcl`: the type of the first coded slice (types below 32), with the same fuel.
unfoldable pub first_vcl : ℕ → Bytes → Option ℕ
first_vcl (suc fuel) (a ∷ b ∷ c ∷ d ∷ header ∷ e ∷ rest) =
    let len = be32 a b c d in
    let later : Option ℕ = first_vcl fuel (drop (len - 1) (e ∷ rest)) in
    if len == 0 || ltb (length rest + 2) len
    then none
    else if ltb (nal_type header) 32
    then some (nal_type header)
    else later
first_vcl _ _ = none

unfoldable pub first_hevc_vcl : Bytes → Option ℕ
unfolding first_vcl
first_hevc_vcl b = first_vcl (length b) b
