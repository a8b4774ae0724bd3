-- ===== src/Rtmp/Amf0/Decode.antt =====
-- crates/rtmp/src/amf0.rs: decoding. Where `Reader` keeps the data and a position, a read here takes
-- the bytes from the position on and returns those after it.
use stream_delay.Base.{
  ℕ, zero, suc, ◌+◌, Bool, true, false, not, ◌&&◌, ◌||◌, List, [], ◌∷◌, ltb, ◌==◌, if◌then◌else◌,
  take, drop, length,
}
use stream_delay.Flv.{Bytes}
use stream_delay.Rtmp.Wire.{u16, be32}
use stream_delay.Rtmp.Amf0.{Amf0Value, Props, Items, Amf0Error, max_depth}
use stream_delay.Rtmp.Amf0.Text.{lossy}

-- `stuck` is no value of the code: the recursion ran out of fuel.
pub data Read (A : Type 0) : Type 0 where
  stuck : Read A
  err : Amf0Error → Read A
  ok : A → Bytes → Read A

abbrev pub R : Type 0 → Type 0
R A = Bytes → Read A

infixl 5 ◌>>=◌ ◌>>◌
abbrev pub ◌>>=◌ : {A B : Type 0} → R A → (A → R B) → R B
◌>>=◌ m f b = elim (m b) [ stuck ↦ stuck | err e ↦ err e | ok a r ↦ f a r ]

abbrev pub ◌>>◌ : {A B : Type 0} → R A → R B → R B
m >> k = m >>= λ _. k

abbrev pub pure : {A : Type 0} → A → R A
pure a b = ok a b

-- `take`.
unfoldable pub read : ℕ → R Bytes
read n b = if ltb (length b) n then err Amf0Error.eof else ok (take n b) (drop n b)

unfoldable pub u8 : R ℕ
u8 [] = err Amf0Error.eof
u8 (x ∷ b) = ok x b

unfoldable pub read_u16 : R ℕ
read_u16 = do b ← read 2; pure (u16 b)

unfoldable pub read_u32 : R ℕ
read_u32 = do b ← read 4; pure (be32 b)

-- `f64`.
unfoldable pub read_f64 : R Bytes
read_f64 = read 8

unfoldable pub short_string : R Bytes
short_string = do n ← read_u16; s ← read n; pure (lossy s)

unfoldable pub read_long_string : R Bytes
read_long_string = do n ← read_u32; s ← read n; pure (lossy s)

-- The markers that `value` matches on.
pub data Marker : Type 0 where
  number boolean string object null undefined ecma_array strict_array date long_string
        typed_object :
      Marker
  other : ℕ → Marker

unfoldable pub marker_of : ℕ → Marker
marker_of m =
    if m == 0x00
    then Marker.number
    else if m == 0x01
    then Marker.boolean
    else if m == 0x02
    then Marker.string
    else if m == 0x03
    then Marker.object
    else if m == 0x05
    then Marker.null
    else if m == 0x06
    then Marker.undefined
    else if m == 0x08
    then Marker.ecma_array
    else if m == 0x0a
    then Marker.strict_array
    else if m == 0x0b
    then Marker.date
    else if m == 0x0c || m == 0x0f
    then Marker.long_string
    else if m == 0x10
    then Marker.typed_object
    else Marker.other m

-- Whether an empty key ends the properties: at the end of the data, or by an end marker.
abbrev pub at_end : Bytes → Bool
at_end [] = true
at_end (x ∷ b) = x == 0x09

abbrev pub is_empty : Bytes → Bool
is_empty [] = true
is_empty (x ∷ b) = false

abbrev pub rest_of : Bytes → Bytes
rest_of [] = []
rest_of (x ∷ b) = b

-- Every element needs at least one byte.
unfoldable pub counted : (ℕ → R Items) → ℕ → R Items
counted items n b = elim (ltb (length b) n) [ true ↦ err Amf0Error.eof | false ↦ items n b ]

-- What follows a marker (`value`), given how properties and the elements of an array are read.
unfoldable pub body : R Props → (ℕ → R Items) → Marker → R Amf0Value
body props items Marker.number = do x ← read_f64; pure (Amf0Value.number x)
body props items Marker.boolean = do x ← u8; pure (Amf0Value.boolean (not (x == 0)))
body props items Marker.string = do s ← short_string; pure (Amf0Value.string s)
body props items Marker.object = do ps ← props; pure (Amf0Value.object ps)
body props items Marker.null = pure Amf0Value.null
body props items Marker.undefined = pure Amf0Value.undefined
body props items Marker.ecma_array = do count ← read_u32; ps ← props; pure (Amf0Value.ecma_array ps)
body props items Marker.strict_array = do
  n ← read_u32
  xs ← counted items n
  pure (Amf0Value.strict_array xs)
body props items Marker.date = do millis ← read_f64; tz ← read_u16; pure (Amf0Value.date millis tz)
body props items Marker.long_string = do s ← read_long_string; pure (Amf0Value.long_string s)
body props items Marker.typed_object = do
  class ← short_string
  ps ← props
  pure (Amf0Value.typed_object class ps)
body props items (Marker.other m) = λ b. err (Amf0Error.unsupported_marker m)

-- `value`, `props` and the loop over the elements of a strict array, on fuel. Each call but the
-- array's follows a byte that was read.
unfoldable mutual
  pub value : ℕ → ℕ → R Amf0Value
  value zero depth b = stuck
  value (suc fuel) depth b =
      if ltb max_depth depth
      then err Amf0Error.too_deep
      else (u8 >>= λ m. body (props fuel depth) (items fuel depth) (marker_of m)) b

  pub props : ℕ → ℕ → R Props
  props zero depth = λ b. stuck
  props (suc fuel) depth = do
    key ← short_string
    λ b. elim (is_empty key && at_end b) [
      | true ↦ ok Props.no_props (rest_of b)
      | false ↦ (do v ← value fuel (depth + 1); ps ← props fuel depth; pure (Props.prop key v ps)) b
    ]

  pub items : ℕ → ℕ → ℕ → R Items
  items fuel depth zero = pure Items.no_items
  items zero depth (suc n) = λ b. stuck
  items (suc fuel) depth (suc n) = do
    v ← value fuel (depth + 1)
    xs ← items fuel depth n
    pure (Items.item v xs)

-- `decode_one`: the first value and the bytes after it (the code returns how many came before).
unfoldable pub decode_one : R Amf0Value
decode_one b = value (suc (length b)) 0 b

-- `decode_all`.
unfoldable pub decode_loop : ℕ → Bytes → Read (List Amf0Value)
decode_loop fuel [] = ok [] []
decode_loop zero (x ∷ b) = stuck
decode_loop (suc fuel) (x ∷ b) = elim (decode_one (x ∷ b)) [
  | stuck ↦ stuck
  | err e ↦ err e
  | ok v r ↦ (decode_loop fuel >>= λ vs. pure (v ∷ vs)) r
]

unfoldable pub decode_all : Bytes → Read (List Amf0Value)
decode_all b = decode_loop (length b) b
