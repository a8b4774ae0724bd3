-- ===== src/Rtmp/Amf0/Fits.antt =====
-- crates/rtmp/src/amf0.rs: the values that the format holds, and one step of decoding what is encoded.
use stream_delay.Base.{
  ℕ, suc, ◌+◌, ◌^◌, ◌≤◌, ◌<◌, false, ◌&&◌, [], ◌∷◌, ◌++◌, ltb, leb, if◌then◌else◌, length, ◌≡◌,
  refl, sym, ◌∙◌, arith, length-append, append_assoc, Bool-cases, inl, inr,
}
use stream_delay.Flv.{Bytes}
use stream_delay.Rtmp.Wire.{be32, put_u16, put_u32, length-put_u32}
use stream_delay.Rtmp.Amf0.{
  Amf0Value, number, boolean, string, object, null, undefined, ecma_array, strict_array, date,
  long_string, typed_object, Props, no_props, prop, Items, no_items, item, max_depth,
}
use stream_delay.Rtmp.Amf0.Text.{lossy, lossy_rounds}
use stream_delay.Rtmp.Amf0.Decode.{
  ok, ◌>>=◌, pure, read, u8, read_u32, short_string, read_long_string, marker_of, at_end, is_empty,
  body, value, props, items,
}
use stream_delay.Rtmp.Amf0.Encode.{
  u16_max, put_short_string, put_long, put_string, items_len, encode, put_items,
}
use stream_delay.Rtmp.Amf0.Reads.{
  bind-ok, read-append, short_string-put_short_string, read_long_string-append,
}

-- What the format can hold, `d` values deep: texts, keys and class names that fit their forms, eight
-- bytes for a number, and 64 values inside each other at most.
abbrev pub IsText : Bytes → Type 0
IsText s = lossy s ≡ s

unfoldable mutual
  pub Fits : ℕ → Amf0Value → Type 0
  Fits d (number x) = (d ≤ max_depth) × (length x ≡ 8)
  Fits d (boolean b) = d ≤ max_depth
  Fits d (string s) = (d ≤ max_depth) × IsText s × (length s < 2 ^ 32)
  Fits d (object ps) = (d ≤ max_depth) × FitsProps d ps
  Fits d null = d ≤ max_depth
  Fits d undefined = d ≤ max_depth
  Fits d (ecma_array ps) = (d ≤ max_depth) × FitsProps d ps
  Fits d (strict_array xs) = (d ≤ max_depth) × FitsItems d xs × (items_len xs < 2 ^ 32)
  Fits d (date millis tz) = (d ≤ max_depth) × (length millis ≡ 8) × (tz < 2 ^ 16)
  Fits d (long_string s) = (d ≤ max_depth) × IsText s × (length s < 2 ^ 32)
  Fits d (typed_object class ps) =
      (d ≤ max_depth) × IsText class × (length class ≤ u16_max) × FitsProps d ps

  pub FitsProps : ℕ → Props → Type 0
  FitsProps d no_props = Unit
  FitsProps d (prop k v ps) = IsText k × (length k ≤ u16_max) × Fits (d + 1) v × FitsProps d ps

  pub FitsItems : ℕ → Items → Type 0
  FitsItems d no_items = Unit
  FitsItems d (item v xs) = Fits (d + 1) v × FitsItems d xs

-- A string too long for its form comes back as a long string.
unfoldable mutual
  pub normal : Amf0Value → Amf0Value
  normal (number x) = number x
  normal (boolean b) = boolean b
  normal (string s) = if leb (length s) u16_max then string s else long_string s
  normal (object ps) = object (normal_props ps)
  normal null = null
  normal undefined = undefined
  normal (ecma_array ps) = ecma_array (normal_props ps)
  normal (strict_array xs) = strict_array (normal_items xs)
  normal (date millis tz) = date millis tz
  normal (long_string s) = long_string s
  normal (typed_object class ps) = typed_object class (normal_props ps)

  pub normal_props : Props → Props
  normal_props no_props = no_props
  normal_props (prop k v ps) = prop k (normal v) (normal_props ps)

  pub normal_items : Items → Items
  normal_items no_items = no_items
  normal_items (item v xs) = item (normal v) (normal_items xs)

pub value_marker :
    (f d m : ℕ) (b : Bytes)
    → d ≤ max_depth
    → value (suc f) d (m ∷ b) ≡ body (props f d) (items f d) (marker_of m) b
unfolding value u8
value_marker f d m b h = let shallow : ltb max_depth d ≡ false = ground arith in rw shallow refl

zero_key : (b : Bytes) → short_string (0 ∷ 0 ∷ b) ≡ ok [] b
unfolding put_short_string put_u16 lossy lossy_rounds
zero_key b = short_string-put_short_string [] b (omega arith) refl

pub props_end : (f d : ℕ) (r : Bytes) → props (suc f) d (0 ∷ 0 ∷ 9 ∷ r) ≡ ok no_props r
unfolding value
props_end f d r = bind-ok short_string _ _ (zero_key (9 ∷ r))

pub props_prop :
    (f d : ℕ) (k b : Bytes)
    → IsText k
    → length k ≤ u16_max
    → at_end b ≡ false
    → props (suc f) d (put_short_string k ++ b)
      ≡ (value f (d + 1) >>= λ v. props f d >>= λ ps. pure (prop k v ps)) b
unfolding value
props_prop f d k b t h e =
    bind-ok short_string _ _ (short_string-put_short_string k b h t)
    ∙ (let goes_on : (is_empty k && at_end b) ≡ false = ground arith in rw goes_on refl)

pub items_item :
    (f d n : ℕ) (b : Bytes)
    → items (suc f) d (suc n) b
      ≡ (value f (d + 1) >>= λ v. items f d n >>= λ xs. pure (item v xs)) b
unfolding value
items_item f d n b = refl

-- An encoding starts with a marker that does not end properties.
pub first_encode : (v : Amf0Value) (r : Bytes) → at_end (encode v ++ r) ≡ false
unfolding encode put_string put_long
first_encode (number x) r = refl
first_encode (boolean b) r = refl
first_encode (string s) r = ground arith
first_encode (object ps) r = refl
first_encode null r = refl
first_encode undefined r = refl
first_encode (ecma_array ps) r = refl
first_encode (strict_array xs) r = refl
first_encode (date millis tz) r = refl
first_encode (long_string s) r = refl
first_encode (typed_object class ps) r = refl

pub length-encode : (v : Amf0Value) → 1 ≤ length (encode v)
unfolding encode put_string put_long
length-encode (number x) = omega arith
length-encode (boolean b) = omega arith
length-encode (string s) = ground arith
length-encode (object ps) = omega arith
length-encode null = omega arith
length-encode undefined = omega arith
length-encode (ecma_array ps) = omega arith
length-encode (strict_array xs) = omega arith
length-encode (date millis tz) = omega arith
length-encode (long_string s) = omega arith
length-encode (typed_object class ps) = omega arith

pub any_u32 : (n : ℕ) (r : Bytes) → read_u32 (put_u32 n ++ r) ≡ ok (be32 (put_u32 n)) r
unfolding read_u32
any_u32 n r = bind-ok (read 4) _ _ (read-append 4 (put_u32 n) r (sym (length-put_u32 n)))

pub items_len-le : (xs : Items) → items_len xs ≤ length (put_items xs)
unfolding encode
items_len-le no_items = omega arith
items_len-le (item v xs) =
    omega (arith, items_len-le xs, length-encode v, length-append (encode v) (put_items xs))

-- The two forms of a string.
pub string_encode :
    (f d : ℕ) (s r : Bytes)
    → d ≤ max_depth
    → IsText s
    → length s < 2 ^ 32
    → value (suc f) d (put_string s ++ r)
      ≡ ok (if leb (length s) u16_max then string s else long_string s) r
unfolding put_string put_long body marker_of
string_encode f d s r h t w = elim (Bool-cases (leb (length s) u16_max)) [
  | inl short ↦ rw short (
      value_marker f d 2 _ h
      ∙ bind-ok short_string _ _ (short_string-put_short_string s r (ground arith) t))
  | inr long ↦ rw long (
      value_marker f d 12 _ h
      ∙ (rw (append_assoc (put_u32 (length s)) s r)
          (bind-ok read_long_string _ _ (read_long_string-append s r w t))))
]
