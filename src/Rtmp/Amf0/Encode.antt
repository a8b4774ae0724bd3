-- ===== src/Rtmp/Amf0/Encode.antt =====
-- crates/rtmp/src/amf0.rs: encoding. A writer's value is what it appends.
use stream_delay.Base.{
  ℕ, suc, min, Bool, true, false, List, [], ◌∷◌, ◌++◌, leb, if◌then◌else◌, take, length,
}
use stream_delay.Flv.{Bytes}
use stream_delay.Rtmp.Wire.{put_u16, put_u32}
use stream_delay.Rtmp.Amf0.{
  Amf0Value, number, boolean, string, object, null, undefined, ecma_array, strict_array, date,
  long_string, typed_object, Props, no_props, prop, Items, no_items, item,
}

-- `u16::MAX`.
abbrev pub u16_max : ℕ
u16_max = 65535

-- `put_short_string`.
unfoldable pub put_short_string : Bytes → Bytes
put_short_string s = let n = min (length s) u16_max in put_u16 n ++ take n s

-- A long string, and a string in the form that holds it.
unfoldable pub put_long : Bytes → Bytes
put_long s = 0x0c ∷ (put_u32 (length s) ++ s)

unfoldable pub put_string : Bytes → Bytes
put_string s = if leb (length s) u16_max then 0x02 ∷ put_short_string s else put_long s

-- `props.len()`, `items.len()`.
abbrev pub props_len : Props → ℕ
props_len no_props = 0
props_len (prop k v ps) = suc (props_len ps)

abbrev pub items_len : Items → ℕ
items_len no_items = 0
items_len (item v xs) = suc (items_len xs)

-- `u8::from`.
abbrev pub from_bool : Bool → ℕ
from_bool true = 1
from_bool false = 0

-- `encode`, `put_props` and the loop over the elements of a strict array.
unfoldable mutual
  pub encode : Amf0Value → Bytes
  encode (number n) = 0x00 ∷ n
  encode (boolean b) = 0x01 ∷ from_bool b ∷ []
  encode (string s) = put_string s
  encode (object ps) = 0x03 ∷ put_props ps
  encode null = 0x05 ∷ []
  encode undefined = 0x06 ∷ []
  encode (ecma_array ps) = 0x08 ∷ (put_u32 (props_len ps) ++ put_props ps)
  encode (strict_array xs) = 0x0a ∷ (put_u32 (items_len xs) ++ put_items xs)
  encode (date millis tz) = 0x0b ∷ (millis ++ put_u16 tz)
  encode (long_string s) = put_long s
  encode (typed_object class ps) = 0x10 ∷ (put_short_string class ++ put_props ps)

  pub put_props : Props → Bytes
  put_props no_props = 0x00 ∷ 0x00 ∷ 0x09 ∷ []
  put_props (prop k v ps) = put_short_string k ++ (encode v ++ put_props ps)

  pub put_items : Items → Bytes
  put_items no_items = []
  put_items (item v xs) = encode v ++ put_items xs

-- `encode_all`.
unfoldable pub encode_all : List Amf0Value → Bytes
encode_all [] = []
encode_all (v ∷ vs) = encode v ++ encode_all vs
