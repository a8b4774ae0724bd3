-- ===== src/Rtmp/Amf0/Reads.antt =====
-- crates/rtmp/src/amf0.rs: the reads of `Reader` over what the writers append.
use stream_delay.Base.{
  ℕ, ◌^◌, ◌≤◌, ◌<◌, min, [], ◌∷◌, ◌++◌, take, length, ◌≡◌, refl, sym, ap, ◌∙◌, arith, length-append,
  append_assoc,
}
use stream_delay.Flv.{Bytes}
use stream_delay.Rtmp.Wire.{
  u16, be32, put_u16, put_u32, length-put_u16, length-put_u32, take-length, drop-length,
}
use stream_delay.Rtmp.Amf0.Text.{lossy}
use stream_delay.Rtmp.Amf0.Decode.{
  R, stuck, err, ok, ◌>>=◌, read, read_u16, read_u32, short_string, read_long_string,
}
use stream_delay.Rtmp.Amf0.Encode.{u16_max, put_short_string}

pub read-append : (n : ℕ) (xs r : Bytes) → n ≡ length xs → read n (xs ++ r) ≡ ok xs r
unfolding read
read-append n xs r e =
    rw (e, take-length xs r, drop-length xs r) (ground (arith, length-append xs r))

-- A read that succeeds, and what comes after it.
pub bind-ok :
    {A B : Type 0} (m : R A) (f : A → R B) (b : Bytes) {a : A} {r : Bytes}
    → m b ≡ ok a r
    → (m >>= f) b ≡ f a r
bind-ok m f b {a} {r} e = ap (λ x. elim x [ stuck ↦ stuck | err e ↦ err e | ok a r ↦ f a r ]) e

u16_of : (v : ℕ) → v < 2 ^ 16 → u16 (put_u16 v) ≡ v
unfolding u16 put_u16
u16_of v h = omega arith

be32_of : (v : ℕ) → v < 2 ^ 32 → be32 (put_u32 v) ≡ v
unfolding be32 put_u32
be32_of v h = omega arith

pub read_u16-put_u16 : (v : ℕ) (r : Bytes) → v < 2 ^ 16 → read_u16 (put_u16 v ++ r) ≡ ok v r
unfolding read_u16
read_u16-put_u16 v r h =
    bind-ok (read 2) _ _ (read-append 2 (put_u16 v) r (sym (length-put_u16 v)))
    ∙ ap (λ x. ok x r) (u16_of v h)

pub read_u32-put_u32 : (v : ℕ) (r : Bytes) → v < 2 ^ 32 → read_u32 (put_u32 v ++ r) ≡ ok v r
unfolding read_u32
read_u32-put_u32 v r h =
    bind-ok (read 4) _ _ (read-append 4 (put_u32 v) r (sym (length-put_u32 v)))
    ∙ ap (λ x. ok x r) (be32_of v h)

-- A string that fits in its form is not cut.
pub put_short_string_lem :
    (s : Bytes) → length s ≤ u16_max → put_short_string s ≡ put_u16 (length s) ++ s
unfolding put_short_string
put_short_string_lem s h =
    let n : min (length s) u16_max ≡ length s = omega arith in
    rw n (ap (λ t. put_u16 (length s) ++ t) (take_whole s))
  where
    take_whole : (t : Bytes) → take (length t) t ≡ t
    take_whole [] = refl
    take_whole (x ∷ t) = ap (λ u. x ∷ u) (take_whole t)

pub short_string-put_short_string :
    (s r : Bytes)
    → length s ≤ u16_max
    → lossy s ≡ s
    → short_string (put_short_string s ++ r) ≡ ok s r
unfolding short_string
short_string-put_short_string s r h t =
    let n = length s in
    rw (put_short_string_lem s h, append_assoc (put_u16 n) s r)
      (bind-ok read_u16 _ _ (read_u16-put_u16 n (s ++ r) (omega arith))
        ∙ bind-ok (read n) _ _ (read-append n s r refl)
        ∙ ap (λ x. ok x r) t)

pub read_long_string-append :
    (s r : Bytes)
    → length s < 2 ^ 32
    → lossy s ≡ s
    → read_long_string (put_u32 (length s) ++ (s ++ r)) ≡ ok s r
unfolding read_long_string
read_long_string-append s r h t =
    bind-ok read_u32 _ _ (read_u32-put_u32 (length s) (s ++ r) h)
    ∙ bind-ok (read (length s)) _ _ (read-append (length s) s r refl)
    ∙ ap (λ x. ok x r) t
