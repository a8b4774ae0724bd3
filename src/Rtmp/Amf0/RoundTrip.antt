-- ===== src/Rtmp/Amf0/RoundTrip.antt =====
-- crates/rtmp/src/amf0.rs: decoding what was encoded, value by value.
use stream_delay.Base.{
  ℕ, zero, suc, ◌+◌, ◌^◌, ◌≤◌, ◌<◌, Bool, true, false, ◌++◌, ltb, length, ◌≡◌, refl, sym, ◌∙◌,
  arith, length-append, append_assoc,
}
use stream_delay.Flv.{Bytes}
use stream_delay.Rtmp.Wire.{put_u16, put_u32, length-put_u32}
use stream_delay.Rtmp.Amf0.{
  Amf0Value, number, boolean, string, object, null, undefined, ecma_array, strict_array, date,
  long_string, typed_object, Props, no_props, prop, Items, no_items, item, max_depth,
}
use stream_delay.Rtmp.Amf0.Decode.{
  R, ok, u8, read_u16, read_u32, read_f64, short_string, read_long_string, marker_of, counted, body,
  value, props, items, decode_one,
}
use stream_delay.Rtmp.Amf0.Encode.{
  u16_max, put_short_string, put_long, items_len, encode, put_props, put_items, props_len,
}
use stream_delay.Rtmp.Amf0.Reads.{
  bind-ok, read-append, read_u16-put_u16, read_u32-put_u32, short_string-put_short_string,
  read_long_string-append,
}
use stream_delay.Rtmp.Amf0.Fits.{
  IsText, Fits, FitsProps, FitsItems, normal, normal_props, normal_items, value_marker, props_end,
  props_prop, items_item, first_encode, length-encode, any_u32, items_len-le, string_encode,
}

length-put_short_string : (s : Bytes) → 2 ≤ length (put_short_string s)
unfolding put_short_string put_u16
length-put_short_string s = ground arith

length-put_props : (ps : Props) → 3 ≤ length (put_props ps)
unfolding encode
length-put_props no_props = omega arith
length-put_props (prop k v ps) = omega (
  arith,
  length-put_props ps,
  length-append (put_short_string k) (encode v ++ put_props ps),
  length-append (encode v) (put_props ps),
)

length-object :
    (ps : Props)
    → length (encode (object ps)) ≡ suc (length (put_props ps)) × (3 ≤ length (put_props ps))
unfolding encode
length-object ps = (refl, length-put_props ps)

length-ecma_array :
    (ps : Props)
    → (length (encode (ecma_array ps)) ≡ length (put_props ps) + 5) × (3 ≤ length (put_props ps))
unfolding encode
length-ecma_array ps =
    let n = props_len ps in
    (omega (arith, length-append (put_u32 n) (put_props ps), length-put_u32 n), length-put_props ps)

length-strict_array : (xs : Items) → length (encode (strict_array xs)) ≡ length (put_items xs) + 5
unfolding encode
length-strict_array xs =
    let n = items_len xs in
    omega (arith, length-append (put_u32 n) (put_items xs), length-put_u32 n)

length-typed_object :
    (class : Bytes) (ps : Props)
    → (length (put_props ps) < length (encode (typed_object class ps)))
      × (3 ≤ length (put_props ps))
unfolding encode
length-typed_object class ps =
    (omega (arith, length-append (put_short_string class) (put_props ps)), length-put_props ps)

length-prop :
    (k : Bytes) (v : Amf0Value) (ps : Props)
    → (length (encode v) + length (put_props ps) + 2 ≤ length (put_props (prop k v ps)))
      × (3 ≤ length (put_props ps))
unfolding encode
length-prop k v ps = (
  omega (
    arith,
    length-put_short_string k,
    length-append (put_short_string k) (encode v ++ put_props ps),
    length-append (encode v) (put_props ps),
  ),
  length-put_props ps,
)

length-item :
    (v : Amf0Value) (xs : Items)
    → (length (put_items (item v xs)) ≡ length (encode v) + length (put_items xs))
      × (1 ≤ length (encode v))
unfolding encode
length-item v xs = (length-append (encode v) (put_items xs), length-encode v)

counted_enough : (is : ℕ → R Items) (n : ℕ) (b : Bytes) → n ≤ length b → counted is n b ≡ is n b
unfolding counted
counted_enough is n b h =
    let enough : ltb (length b) n ≡ false = ground arith in rw (enough, counted) refl

-- One value, from how its parts are read.
module _ (f d : ℕ) (r : Bytes) (h : d ≤ max_depth) where
  number_step :
      (x : Bytes) → length x ≡ 8 → value (suc f) d (encode (number x) ++ r) ≡ ok (number x) r
  unfolding encode body marker_of read_f64
  number_step x n = value_marker f d 0 _ h ∙ bind-ok read_f64 _ _ (read-append 8 x r (sym n))

  boolean_step : (b : Bool) → value (suc f) d (encode (boolean b) ++ r) ≡ ok (boolean b) r
  unfolding encode body marker_of u8
  boolean_step true = value_marker f d 1 _ h
  boolean_step false = value_marker f d 1 _ h

  object_step :
      (ps qs : Props)
      → props f d (put_props ps ++ r) ≡ ok qs r
      → value (suc f) d (encode (object ps) ++ r) ≡ ok (object qs) r
  unfolding encode body marker_of
  object_step ps qs e = value_marker f d 3 _ h ∙ bind-ok (props f d) _ _ e

  ecma_step :
      (ps qs : Props)
      → props f d (put_props ps ++ r) ≡ ok qs r
      → value (suc f) d (encode (ecma_array ps) ++ r) ≡ ok (ecma_array qs) r
  unfolding encode body marker_of
  ecma_step ps qs e =
      value_marker f d 8 _ h
      ∙ rw (append_assoc (put_u32 (props_len ps)) (put_props ps) r) (
          bind-ok read_u32 _ _ (any_u32 (props_len ps) (put_props ps ++ r))
          ∙ bind-ok (props f d) _ _ e)

  strict_step :
      (xs ys : Items)
      → items_len xs < 2 ^ 32
      → items f d (items_len xs) (put_items xs ++ r) ≡ ok ys r
      → value (suc f) d (encode (strict_array xs) ++ r) ≡ ok (strict_array ys) r
  unfolding encode body marker_of
  strict_step xs ys w e =
      let n = items_len xs in
      let enough : n ≤ length (put_items xs ++ r) =
        omega (arith, items_len-le xs, length-append (put_items xs) r) in
      value_marker f d 10 _ h
      ∙ rw (append_assoc (put_u32 n) (put_items xs) r) (
          bind-ok read_u32 _ _ (read_u32-put_u32 n (put_items xs ++ r) w)
          ∙ bind-ok (counted (items f d) n) _ (put_items xs ++ r)
              (counted_enough (items f d) n (put_items xs ++ r) enough ∙ e))

  date_step :
      (millis : Bytes) (tz : ℕ)
      → length millis ≡ 8
      → tz < 2 ^ 16
      → value (suc f) d (encode (date millis tz) ++ r) ≡ ok (date millis tz) r
  unfolding encode body marker_of read_f64
  date_step millis tz n w =
      value_marker f d 11 _ h
      ∙ rw (append_assoc millis (put_u16 tz) r) (
          bind-ok read_f64 _ _ (read-append 8 millis (put_u16 tz ++ r) (sym n))
          ∙ bind-ok read_u16 _ _ (read_u16-put_u16 tz r w))

  long_step :
      (s : Bytes)
      → IsText s
      → length s < 2 ^ 32
      → value (suc f) d (encode (long_string s) ++ r) ≡ ok (long_string s) r
  unfolding encode body marker_of put_long
  long_step s t w =
      value_marker f d 12 _ h
      ∙ rw (append_assoc (put_u32 (length s)) s r)
          (bind-ok read_long_string _ _ (read_long_string-append s r w t))

  typed_step :
      (class : Bytes) (ps qs : Props)
      → IsText class
      → length class ≤ u16_max
      → props f d (put_props ps ++ r) ≡ ok qs r
      → value (suc f) d (encode (typed_object class ps) ++ r) ≡ ok (typed_object class qs) r
  unfolding encode body marker_of
  typed_step class ps qs t w e =
      value_marker f d 16 _ h
      ∙ rw (append_assoc (put_short_string class) (put_props ps) r) (
          bind-ok short_string _ _ (short_string-put_short_string class (put_props ps ++ r) w t)
          ∙ bind-ok (props f d) _ _ e)

prop_step :
    (f d : ℕ) (k : Bytes) (v w : Amf0Value) (ps qs : Props) (r : Bytes)
    → IsText k
    → length k ≤ u16_max
    → value f (d + 1) (encode v ++ (put_props ps ++ r)) ≡ ok w (put_props ps ++ r)
    → props f d (put_props ps ++ r) ≡ ok qs r
    → props (suc f) d (put_props (prop k v ps) ++ r) ≡ ok (prop k w qs) r
unfolding encode
prop_step f d k v w ps qs r t h e1 e2 =
    let later = put_props ps ++ r in
    rw
      (
        append_assoc (put_short_string k) (encode v ++ put_props ps) r,
        append_assoc (encode v) (put_props ps) r,
      )
      (props_prop f d k (encode v ++ later) t h (first_encode v later)
        ∙ bind-ok (value f (d + 1)) _ _ e1
        ∙ bind-ok (props f d) _ _ e2)

item_step :
    (f d : ℕ) (v w : Amf0Value) (xs ys : Items) (r : Bytes)
    → value f (d + 1) (encode v ++ (put_items xs ++ r)) ≡ ok w (put_items xs ++ r)
    → items f d (items_len xs) (put_items xs ++ r) ≡ ok ys r
    → items (suc f) d (suc (items_len xs)) (put_items (item v xs) ++ r) ≡ ok (item w ys) r
unfolding encode
item_step f d v w xs ys r e1 e2 = rw (append_assoc (encode v) (put_items xs) r) (
    items_item f d (items_len xs) _
    ∙ bind-ok (value f (d + 1)) _ _ e1
    ∙ bind-ok (items f d (items_len xs)) _ _ e2)

string_step :
    (f d : ℕ) (s r : Bytes)
    → d ≤ max_depth
    → IsText s
    → length s < 2 ^ 32
    → value (suc f) d (encode (string s) ++ r) ≡ ok (normal (string s)) r
unfolding encode normal
string_step f d s r h t w = string_encode f d s r h t w

null_step : (f d : ℕ) (r : Bytes) → d ≤ max_depth → value (suc f) d (encode null ++ r) ≡ ok null r
unfolding encode body marker_of
null_step f d r h = value_marker f d 5 _ h

undefined_step :
    (f d : ℕ) (r : Bytes) → d ≤ max_depth → value (suc f) d (encode undefined ++ r) ≡ ok undefined r
unfolding encode body marker_of
undefined_step f d r h = value_marker f d 6 _ h

no_props_step : (f d : ℕ) (r : Bytes) → props (suc f) d (put_props no_props ++ r) ≡ ok no_props r
unfolding encode
no_props_step f d r = props_end f d r

no_items_step : (f d : ℕ) (r : Bytes) → items (suc f) d 0 (put_items no_items ++ r) ≡ ok no_items r
unfolding value encode
no_items_step f d r = refl

-- The three ways a part is read, with fuel for the bytes that are its own.
mutual
  unfolding normal Fits

  value-encode :
      (v : Amf0Value) (f d : ℕ) (r : Bytes)
      → Fits d v
      → length (encode v) ≤ suc f
      → value (suc f) d (encode v ++ r) ≡ ok (normal v) r
  value-encode (number x) f d r (h, n) hf = number_step f d r h x n
  value-encode (boolean b) f d r h hf = boolean_step f d r h b
  value-encode (string s) f d r (h, t, w) hf = string_step f d s r h t w
  value-encode (object ps) zero d r (h, k) hf = absurd (omega (arith, length-object ps))
  value-encode (object ps) (suc f) d r (h, k) hf =
      object_step (suc f) d r h ps _ (props-encode ps f d r k (omega (arith, length-object ps)))
  value-encode null f d r h hf = null_step f d r h
  value-encode undefined f d r h hf = undefined_step f d r h
  value-encode (ecma_array ps) zero d r (h, k) hf = absurd (omega (arith, length-ecma_array ps))
  value-encode (ecma_array ps) (suc f) d r (h, k) hf =
      ecma_step (suc f) d r h ps _ (props-encode ps f d r k (omega (arith, length-ecma_array ps)))
  value-encode (strict_array xs) zero d r (h, k, w) hf =
      absurd (omega (arith, length-strict_array xs))
  value-encode (strict_array xs) (suc f) d r (h, k, w) hf =
      strict_step (suc f) d r h xs _ w
        (items-encode xs f d r k (omega (arith, length-strict_array xs)))
  value-encode (date millis tz) f d r (h, n, w) hf = date_step f d r h millis tz n w
  value-encode (long_string s) f d r (h, t, w) hf = long_step f d r h s t w
  value-encode (typed_object class ps) zero d r (h, t, w, k) hf =
      absurd (omega (arith, length-typed_object class ps))
  value-encode (typed_object class ps) (suc f) d r (h, t, w, k) hf =
      typed_step (suc f) d r h class ps _ t w
        (props-encode ps f d r k (omega (arith, length-typed_object class ps)))

  props-encode :
      (ps : Props) (f d : ℕ) (r : Bytes)
      → FitsProps d ps
      → length (put_props ps) ≤ suc f
      → props (suc f) d (put_props ps ++ r) ≡ ok (normal_props ps) r
  props-encode no_props f d r h hf = no_props_step f d r
  props-encode (prop k v ps) zero d r (t, w, fv, fps) hf =
      absurd (omega (arith, length-prop k v ps))
  props-encode (prop k v ps) (suc f) d r (t, w, fv, fps) hf =
      prop_step (suc f) d k v _ ps _ r t w
        (value-encode v f (d + 1) (put_props ps ++ r) fv (omega (arith, length-prop k v ps)))
        (props-encode ps f d r fps (omega (arith, length-prop k v ps)))

  items-encode :
      (xs : Items) (f d : ℕ) (r : Bytes)
      → FitsItems d xs
      → length (put_items xs) ≤ f
      → items (suc f) d (items_len xs) (put_items xs ++ r) ≡ ok (normal_items xs) r
  items-encode no_items f d r h hf = no_items_step f d r
  items-encode (item v xs) zero d r (fv, fxs) hf = absurd (omega (arith, length-item v xs))
  items-encode (item v xs) (suc f) d r (fv, fxs) hf =
      item_step (suc f) d v _ xs _ r
        (value-encode v f (d + 1) (put_items xs ++ r) fv (omega (arith, length-item v xs)))
        (items-encode xs f d r fxs (omega (arith, length-item v xs)))

-- Decoding gives back a value that was encoded, and the bytes behind it, for every value that the format
-- can hold: at most 64 values inside each other, texts of well-formed UTF-8, keys and class names of at
-- most 65535 bytes. A string longer than that comes back as a long string.
pub decode_one-encode :
    (v : Amf0Value) (r : Bytes) → Fits 0 v → decode_one (encode v ++ r) ≡ ok (normal v) r
unfolding decode_one
decode_one-encode v r h =
    value-encode v (length (encode v ++ r)) 0 r h (omega (arith, length-append (encode v) r))
