-- ===== src/Rtmp/Amf0.antt =====
-- crates/rtmp/src/amf0.rs: the values of commands and metadata; the children decode and encode them.
-- An f64 is the eight bytes of its bit pattern, an i16 the number of its two, and a string the bytes of its
-- UTF-8 form.
pub mod Text
pub mod Decode
pub mod Encode
pub mod Reads
pub mod Fits
pub mod RoundTrip
pub mod Ends
pub mod Whole
use stream_delay.Base.{
  ℕ, Bool, true, false, ◌&&◌, Option, none, some, List, [], ◌∷◌, ◌==◌, if◌then◌else◌,
}
use stream_delay.Flv.{Bytes}

-- `MAX_DEPTH`.
abbrev pub max_depth : ℕ
max_depth = 64

mutual
  pub data Amf0Value : Type 0 where
    number : Bytes → Amf0Value
    boolean : Bool → Amf0Value
    string : Bytes → Amf0Value
    object : Props → Amf0Value
    null : Amf0Value
    undefined : Amf0Value
    ecma_array : Props → Amf0Value
    strict_array : Items → Amf0Value
    date : Bytes → ℕ → Amf0Value
    long_string : Bytes → Amf0Value
    typed_object : Bytes → Props → Amf0Value

  -- `Vec<(String, Amf0Value)>`.
  pub data Props : Type 0 where
    no_props : Props
    prop : Bytes → Amf0Value → Props → Props

  -- `Vec<Amf0Value>` inside a value.
  pub data Items : Type 0 where
    no_items : Items
    item : Amf0Value → Items → Items

pub data Amf0Error : Type 0 where
  eof too_deep : Amf0Error
  unsupported_marker : ℕ → Amf0Error

-- `as_str`.
abbrev pub as_str : Amf0Value → Option Bytes
as_str (string s) = some s
as_str (long_string s) = some s
as_str _ = none

-- `as_number`.
abbrev pub as_number : Amf0Value → Option Bytes
as_number (number n) = some n
as_number _ = none

-- `props`.
abbrev pub props_of : Amf0Value → Option Props
props_of (object p) = some p
props_of (ecma_array p) = some p
props_of (typed_object class p) = some p
props_of _ = none

-- `==` on strings.
abbrev pub str_eq : Bytes → Bytes → Bool
str_eq [] [] = true
str_eq (a ∷ s) (b ∷ t) = a == b && str_eq s t
str_eq _ _ = false

-- `get`: the first property of that name.
abbrev pub find_prop : Bytes → Props → Option Amf0Value
find_prop key no_props = none
find_prop key (prop k v ps) = if str_eq k key then some v else find_prop key ps

abbrev pub get_in : Bytes → Option Props → Option Amf0Value
get_in key none = none
get_in key (some ps) = find_prop key ps

abbrev pub get : Bytes → Amf0Value → Option Amf0Value
get key v = get_in key (props_of v)
