-- ===== src/Rtmp/Chunk/Headers.antt =====
-- crates/rtmp/src/chunk.rs: reading the headers that the encoder writes.
use stream_delay.Base.{
  ℕ, ◌^◌, ◌≤◌, ◌<◌, Bool, true, false, Option, none, some, ◌++◌, leb, if◌then◌else◌, length, ◌≡◌,
  ◌≢◌, refl, sym, arith, length-append, Bool-cases, inl, inr,
}
use stream_delay.Flv.{Bytes}
use stream_delay.Rtmp.Wire.{
  u24, be32, le32, put_u24, put_u32, put_u32_le, take-length, drop-length, length-put_u32,
}
use stream_delay.Rtmp.Chunk.{StreamState, extended_mark}
use stream_delay.Rtmp.Chunk.Decode.{
  go, slice, long_id, basic_header, byte_at, fields, Extension, read_extension, repeated_extension,
  extension,
}
use stream_delay.Rtmp.Chunk.Encode.{put_basic_header, put_header, put_extended}

-- A slice of the bytes in front.
pub slice-append : (xs r : Bytes) (n : ℕ) → n ≡ length xs → slice n (xs ++ r) ≡ go (xs, r)
unfolding slice
slice-append xs r n e = rw (e, take-length, drop-length) (ground (arith, length-append xs r))

long_id-one : (low : ℕ) (b : Bytes) → 2 ≤ low → long_id low b ≡ go (low, b)
unfolding long_id
long_id-one low b h = ground arith

pub basic_header-put_basic_header :
    (fmt csid : ℕ) (r : Bytes)
    → fmt < 4
    → 2 ≤ csid
    → csid ≤ 65599
    → basic_header (put_basic_header fmt csid ++ r) ≡ go (fmt, csid, r)
unfolding basic_header put_basic_header long_id
basic_header-put_basic_header fmt csid r h lo hi = ground arith

-- What a header of format 0 says.
abbrev pub field_of : ℕ → ℕ
field_of timestamp = if leb extended_mark timestamp then extended_mark else timestamp

pub length-put_header :
    (timestamp type_id stream_id size : ℕ)
    → length (put_header timestamp type_id stream_id size) ≡ 11
unfolding put_header put_u24 put_u32_le
length-put_header timestamp type_id stream_id size = refl

pub fields-put_header :
    (timestamp type_id stream_id size : ℕ) (st : StreamState)
    → stream_id < 2 ^ 32
    → size < 2 ^ 24
    → fields 0 (put_header timestamp type_id stream_id size) st ≡ record {
      ts_field = field_of timestamp;
      length = size;
      type_id = type_id;
      stream_id = stream_id;
    }
unfolding fields put_header put_u24 put_u32_le u24 le32 byte_at
fields-put_header timestamp type_id stream_id size st hs hn = ground arith

-- The extended timestamp, in the first chunk and where the others repeat it.
abbrev pub is_extended : ℕ → Bool
is_extended timestamp = leb extended_mark timestamp

be32_of : (v : ℕ) → v < 2 ^ 32 → be32 (put_u32 v) ≡ v
unfolding be32 put_u32
be32_of v h = omega arith

read_extension-put_u32 :
    (v : ℕ) (r : Bytes)
    → v < 2 ^ 32
    → read_extension (put_u32 v ++ r)
      ≡ go (record { extended = true; ext_value = v; learned = none; rest = r })
unfolding read_extension
read_extension-put_u32 v r h =
    rw (slice-append (put_u32 v) r 4 (sym (length-put_u32 v)), be32_of v h) refl

repeated_extension-put_u32 :
    (repeats : Option Bool) (v : ℕ) (r : Bytes)
    → v < 2 ^ 32
    → repeats ≢ some false
    → (x : Extension) × (repeated_extension repeats v (put_u32 v ++ r) ≡ go x)
      × (x.rest ≡ r)
      × (x.learned ≢ some false)
unfolding repeated_extension
repeated_extension-put_u32 (some true) v r h k =
    rw (slice-append (put_u32 v) r 4 (sym (length-put_u32 v))) (_, refl, refl, cc)
repeated_extension-put_u32 (some false) v r h k = absurd (k refl)
repeated_extension-put_u32 none v r h k =
    rw (slice-append (put_u32 v) r 4 (sym (length-put_u32 v)), be32_of v h)
      (_, refl, ground arith, ground arith)

pub extension_first :
    (repeats : Option Bool) (st : StreamState) (timestamp : ℕ) (r : Bytes)
    → timestamp < 2 ^ 32
    → extension repeats 0 false st (field_of timestamp) (put_extended timestamp ++ r)
      ≡ go (record {
        extended = is_extended timestamp;
        ext_value = if is_extended timestamp then timestamp else st.ext_value;
        learned = none;
        rest = r;
      })
unfolding extension put_extended read_extension
extension_first repeats st timestamp r h = ground (arith, read_extension-put_u32 timestamp r h)

-- A peer that does not repeat it has shown so.
pub extension_repeated :
    (repeats : Option Bool) (st : StreamState) (timestamp ts_field : ℕ) (r : Bytes)
    → timestamp < 2 ^ 32
    → repeats ≢ some false
    → st.extended ≡ is_extended timestamp
    → (is_extended timestamp ≡ true → st.ext_value ≡ timestamp)
    → (x : Extension) × (extension repeats 3 true st ts_field (put_extended timestamp ++ r) ≡ go x)
      × (x.rest ≡ r)
      × (x.learned ≢ some false)
unfolding extension put_extended repeated_extension
extension_repeated repeats st timestamp ts_field r h k e1 e2 =
    elim (Bool-cases (leb extended_mark timestamp)) [
      | inl e ↦ rw (e1, e, e2 e) (repeated_extension-put_u32 repeats timestamp r h k)
      | inr e ↦ rw (e1, e) (_, refl, refl, cc)
    ]
