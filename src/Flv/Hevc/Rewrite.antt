-- ===== src/Flv/Hevc/Rewrite.antt =====
-- crates/flv/src/lib.rs, `hevc::cra_to_bla`: frames as NAL units, before and after.
use stream_delay.Base.{
  ℕ, zero, suc, ◌+◌, ◌-◌, ◌*◌, ◌/◌, ◌%◌, ◌^◌, ◌<◌, ◌≤◌, Bool, true, false, ◌&&◌, ◌||◌, none, some,
  List, [], ◌∷◌, ◌++◌, map, length, take, drop, all, ltb, ◌==◌, if◌then◌else◌, ◌≡◌, refl, ap, ◌∙◌,
  arith, length-append,
}
use stream_delay.Flv.{Bytes}
use stream_delay.Flv.Hevc.{nal_type, cra, bla_w_lp, be32, rewrite_header, rewrite_units, cra_to_bla}

-- The header byte of a CRA slice becomes that of a BLA one, any other byte keeps its type; the first
-- and the last bit stay as they are.
pub rewrite_header_lem :
    (byte : ℕ)
    → byte < 256
    → (nal_type (rewrite_header byte) ≡ (if nal_type byte == cra then bla_w_lp else nal_type byte))
      × (rewrite_header byte % 2 ≡ byte % 2)
      × (rewrite_header byte / 128 ≡ byte / 128)
unfolding rewrite_header
rewrite_header_lem byte h = ground arith

-- A NAL unit: its header byte and the rest of it. A frame is its units, each behind its length in four
-- bytes, and perhaps a few bytes more.
abbrev pub NalUnit : Type 0
NalUnit = ℕ × Bytes

abbrev pub unit_len : Bytes → ℕ
unit_len body = length body + 1

abbrev pub put_frame : Bytes → List NalUnit → Bytes
put_frame tail [] = tail
put_frame tail ((header, body) ∷ us) =
    (unit_len body / 2 ^ 24)
    ∷ (unit_len body / 2 ^ 16 % 256)
    ∷ (unit_len body / 2 ^ 8 % 256)
    ∷ (unit_len body % 256)
    ∷ header
    ∷ (body ++ put_frame tail us)

-- A header is a byte, a length has four.
abbrev pub unit_fits : NalUnit → Bool
unit_fits (header, body) = ltb header 256 && ltb (unit_len body) (2 ^ 32)

abbrev pub unit_is_cra : NalUnit → Bool
unit_is_cra (header, body) = header / 2 % 64 == 21

abbrev pub has_cra : List NalUnit → Bool
has_cra [] = false
has_cra (u ∷ us) = unit_is_cra u || has_cra us

-- A CRA slice as a BLA one, of type 16: only the six bits of the type are others.
abbrev pub unit_as_bla : NalUnit → NalUnit
unit_as_bla (header, body) =
    (if header / 2 % 64 == 21 then header / 128 * 128 + 32 + header % 2 else header, body)

drop-length-append : (b x : Bytes) → drop (length b) (b ++ x) ≡ x
drop-length-append [] x = refl
drop-length-append (c ∷ b) x = drop-length-append b x

take-length-append : (b x : Bytes) → take (length b) (b ++ x) ≡ b
take-length-append [] x = refl
take-length-append (c ∷ b) x = ap (λ r. c ∷ r) (take-length-append b x)

rewrite_header_as_bla :
    (header : ℕ) (body : Bytes)
    → header < 256
    → rewrite_header header ≡ (unit_as_bla (header, body)).0
unfolding rewrite_header
rewrite_header_as_bla header body h = ground arith

-- One round, over a unit that is there in full.
rewrite_units_step :
    (fuel a b c d header : ℕ) (body rest : Bytes)
    → be32 a b c d ≡ length body + 1
    → rewrite_units (suc fuel) (a ∷ b ∷ c ∷ d ∷ header ∷ (body ++ rest)) ≡ (
      a ∷ b ∷ c ∷ d ∷ rewrite_header header ∷ (body ++ (rewrite_units fuel rest).0),
      (nal_type header == cra) || (rewrite_units fuel rest).1,
    )
unfolding rewrite_units
rewrite_units_step fuel a b c d header body rest e =
    let sized = length-append body rest in
    let fine : (length body + 1 == 0 || ltb (length (body ++ rest) + 1) (length body + 1)) ≡ false =
      ground arith in
    let whole : length body + 1 - 1 ≡ length body = omega arith in
    rw (e, fine, whole, drop-length-append body rest, take-length-append body rest) refl

unit_len_lem :
    (body : Bytes)
    → unit_len body < 2 ^ 32
    → be32
        (unit_len body / 2 ^ 24)
        (unit_len body / 2 ^ 16 % 256)
        (unit_len body / 2 ^ 8 % 256)
        (unit_len body % 256)
      ≡ length body + 1
unit_len_lem body h = omega arith

short_tail : (fuel : ℕ) (tail : Bytes) → length tail ≤ 4 → rewrite_units fuel tail ≡ (tail, false)
unfolding rewrite_units
short_tail zero tail h = refl
short_tail (suc fuel) [] h = refl
short_tail (suc fuel) (a ∷ []) h = refl
short_tail (suc fuel) (a ∷ b ∷ []) h = refl
short_tail (suc fuel) (a ∷ b ∷ c ∷ []) h = refl
short_tail (suc fuel) (a ∷ b ∷ c ∷ d ∷ []) h = refl
short_tail (suc fuel) (a ∷ b ∷ c ∷ d ∷ e ∷ rest) h = absurd (omega arith)

rewrite_units-put_frame :
    (fuel : ℕ) (us : List NalUnit) (tail : Bytes)
    → length (put_frame tail us) ≤ fuel
    → length tail ≤ 4
    → all unit_fits us ≡ true
    → rewrite_units fuel (put_frame tail us) ≡ (put_frame tail (map unit_as_bla us), has_cra us)
rewrite_units-put_frame fuel [] tail le short fits = short_tail fuel tail short
rewrite_units-put_frame zero ((header, body) ∷ us) tail le short fits = absurd (omega arith)
rewrite_units-put_frame (suc fuel) ((header, body) ∷ us) tail le short fits =
    let sized = length-append body (put_frame tail us) in
    let later = rewrite_units-put_frame fuel us tail (omega arith) short (ground arith) in
    let byte : header < 256 = ground arith in
    let long : unit_len body < 2 ^ 32 = ground arith in
    rewrite_units_step fuel _ _ _ _ header body (put_frame tail us) (unit_len_lem body long)
    ∙ rw (rewrite_header_as_bla header body byte, later) refl

-- Of a frame that starts at `length start` and is NAL units, each with its length, and at most four
-- bytes more, `cra_to_bla` gives the same units with CRA slices made into BLA ones, only the type in
-- their header byte changed, and all other bytes as they were; and nothing where there is no CRA slice.
pub cra_to_bla-put_frame :
    (start : Bytes) (us : List NalUnit) (tail : Bytes)
    → length tail ≤ 4
    → all unit_fits us ≡ true
    → cra_to_bla (start ++ put_frame tail us) (length start)
      ≡ (if has_cra us then some (start ++ put_frame tail (map unit_as_bla us)) else none)
unfolding cra_to_bla
cra_to_bla-put_frame start us tail short fits =
    let frame = put_frame tail us in
    let sized = length-append start frame in
    let units =
      rewrite_units-put_frame (length (start ++ frame)) us tail (omega arith) short fits in
    rw (drop-length-append start frame, take-length-append start frame, units) refl
