-- ===== src/Rtmp/Amf0/Ends.antt =====
-- crates/rtmp/src/amf0.rs: the recursion of decoding, and its end.
use stream_delay.Base.{
  ℕ, zero, suc, ◌+◌, ◌-◌, ◌≤◌, ◌<◌, true, false, ◌&&◌, [], ◌∷◌, ltb, length, ◌≡◌, ◌≢◌, refl, arith,
  Bool-cases, inl, inr,
}
use stream_delay.Flv.{Bytes}
use stream_delay.Rtmp.Wire.{length-drop}
use stream_delay.Rtmp.Amf0.{Amf0Value, Props, Items, no_props, prop, max_depth}
use stream_delay.Rtmp.Amf0.Decode.{
  Read, R, stuck, err, ok, ◌>>=◌, pure, read, u8, read_u16, read_u32, read_f64, short_string,
  read_long_string, Marker, marker_of, at_end, is_empty, rest_of, counted, body, value, props,
  items, decode_one, decode_loop, decode_all,
}

-- A read that ends, with fewer than `n` bytes left where it succeeds.
abbrev Ends : {A : Type 0} → ℕ → Read A → Type 0
Ends n stuck = ⊥
Ends n (err e) = Unit
Ends n (ok a r) = length r < n

bind-Ends :
    {A B : Type 0} (m : R A) (f : A → R B) (b : Bytes) (n n' : ℕ)
    → Ends n (m b)
    → ((a : A) (r : Bytes) → length r < n → Ends n' (f a r))
    → Ends n' ((m >>= f) b)
bind-Ends {A} m f b n n' h k = after (m b) h
  where
    after :
        (x : Read A)
        → Ends n x
        → Ends n' (elim x [ stuck ↦ stuck | err e ↦ err e | ok a r ↦ f a r ])
    after stuck e = absurd e
    after (err e) t = tt
    after (ok a r) lt = k a r lt

read-Ends : (n : ℕ) (b : Bytes) → Ends (suc (length b) - n) (read n b)
unfolding read
read-Ends n b = elim (Bool-cases (ltb (length b) n)) [
  | inl t ↦ rw (t, read) tt
  | inr f ↦ rw (f, read) (ground (arith, length-drop n b))
]

u8-Ends : (b : Bytes) → Ends (length b) (u8 b)
unfolding u8
u8-Ends [] = tt
u8-Ends (x ∷ b) = omega arith

read_u16-Ends : (b : Bytes) → Ends (suc (length b)) (read_u16 b)
unfolding read_u16
read_u16-Ends b = bind-Ends (read 2) _ b _ _ (read-Ends 2 b) (λ a r lt. omega arith)

-- Four bytes are gone, if they were there.
read_u32-Ends : (b : Bytes) → Ends (suc (length b) - 4) (read_u32 b)
unfolding read_u32
read_u32-Ends b = bind-Ends (read 4) _ b _ _ (read-Ends 4 b) (λ a r lt. lt)

short_string-Ends : (b : Bytes) → Ends (length b) (short_string b)
unfolding short_string read_u16
short_string-Ends b =
    bind-Ends read_u16 _ b (length b) _
      (bind-Ends (read 2) _ b _ _ (read-Ends 2 b) (λ a r lt. omega arith))
      (λ n r lt. bind-Ends (read n) _ r _ _ (read-Ends n r) (λ a r' lt'. omega arith))

long_string-Ends : (b : Bytes) → Ends (suc (length b)) (read_long_string b)
unfolding read_long_string
long_string-Ends b =
    bind-Ends read_u32 _ b _ _ (read_u32-Ends b)
      (λ n r lt. bind-Ends (read n) _ r _ _ (read-Ends n r) (λ a r' lt'. omega arith))

counted-Ends :
    (is : ℕ → R Items) (n : ℕ) (b : Bytes)
    → Ends (suc (length b)) (is n b)
    → Ends (suc (length b)) (counted is n b)
unfolding counted
counted-Ends is n b h = elim (Bool-cases (ltb (length b) n)) [
  | inl t ↦ rw (t, counted) tt
  | inr f ↦ rw (f, counted) h
]

-- The readers of properties and of elements end on the bytes they are given.
body-Ends :
    (ps : R Props) (is : ℕ → R Items) (m : Marker) (b : Bytes)
    → ((r : Bytes) → length r ≤ length b → Ends (suc (length r)) (ps r))
    → ((n : ℕ) (r : Bytes) → length r + 4 ≤ length b → Ends (suc (length r)) (is n r))
    → Ends (suc (length b)) (body ps is m b)
unfolding body read_f64
body-Ends ps is Marker.number b hp hi =
    bind-Ends (read 8) _ b _ _ (read-Ends 8 b) (λ a r lt. omega arith)
body-Ends ps is Marker.boolean b hp hi = bind-Ends u8 _ b _ _ (u8-Ends b) (λ a r lt. omega arith)
body-Ends ps is Marker.string b hp hi =
    bind-Ends short_string _ b _ _ (short_string-Ends b) (λ a r lt. omega arith)
body-Ends ps is Marker.object b hp hi = bind-Ends ps _ b _ _ (hp b (omega arith)) (λ a r lt. lt)
body-Ends ps is Marker.null b hp hi = omega arith
body-Ends ps is Marker.undefined b hp hi = omega arith
body-Ends ps is Marker.ecma_array b hp hi =
    bind-Ends read_u32 _ b _ _ (read_u32-Ends b)
      (λ n r lt. bind-Ends ps _ r _ _ (hp r (omega arith)) (λ a r' lt'. omega arith))
body-Ends ps is Marker.strict_array b hp hi =
    bind-Ends read_u32 _ b _ _ (read_u32-Ends b) (λ n r lt.
      bind-Ends (counted is n) _ r (suc (length r)) _ (counted-Ends is n r (hi n r (omega arith)))
        (λ a r' lt'. omega arith))
body-Ends ps is Marker.date b hp hi =
    bind-Ends (read 8) _ b _ _ (read-Ends 8 b)
      (λ a r lt. bind-Ends read_u16 _ r _ _ (read_u16-Ends r) (λ a' r' lt'. omega arith))
body-Ends ps is Marker.long_string b hp hi =
    bind-Ends read_long_string _ b _ _ (long_string-Ends b) (λ a r lt. lt)
body-Ends ps is Marker.typed_object b hp hi =
    bind-Ends short_string _ b _ _ (short_string-Ends b)
      (λ s r lt. bind-Ends ps _ r _ _ (hp r (omega arith)) (λ a r' lt'. omega arith))
body-Ends ps is (Marker.other m) b hp hi = tt

Ends-le : {A : Type 0} (n n' : ℕ) (x : Read A) → n ≤ n' → Ends n x → Ends n' x
Ends-le n n' stuck h e = e
Ends-le n n' (err e) h t = tt
Ends-le n n' (ok a r) h lt = omega arith

rest_of-le : (b : Bytes) → length (rest_of b) ≤ length b
rest_of-le [] = omega arith
rest_of-le (x ∷ b) = omega arith

-- After a key.
key-Ends :
    (key b : Bytes) (more : R Props)
    → Ends (suc (length b)) (more b)
    → Ends
        (suc (length b))
        (elim (is_empty key && at_end b) [ true ↦ ok no_props (rest_of b) | false ↦ more b ])
key-Ends key b more h = elim (Bool-cases (is_empty key && at_end b)) [
  | inl done ↦ rw done (omega (arith, rest_of-le b))
  | inr goes_on ↦ rw goes_on h
]

mutual
  unfolding value

  value-Ends : (f d : ℕ) (b : Bytes) → length b < f → Ends (length b) (value f d b)
  value-Ends zero d b h = absurd (omega arith)
  value-Ends (suc f) d b h = elim (Bool-cases (ltb max_depth d)) [
    | inl deep ↦ rw (deep, value) tt
    | inr shallow ↦
        rw (shallow, value)
          (bind-Ends u8 _ b _ _ (u8-Ends b) (λ m r lt.
            Ends-le (suc (length r)) (length b) _ (omega arith) (
              body-Ends (props f d) (items f d) (marker_of m) r
                (λ r' le. props-Ends f d r' (omega arith))
                (λ n r' le. items-Ends f d n r' (omega arith)))))
  ]

  props-Ends : (f d : ℕ) (b : Bytes) → length b < f → Ends (suc (length b)) (props f d b)
  props-Ends zero d b h = absurd (omega arith)
  props-Ends (suc f) d b h =
      bind-Ends short_string _ b (length b) (suc (length b)) (short_string-Ends b) (λ key r lt.
        Ends-le (suc (length r)) (suc (length b)) _ (omega arith) (
          key-Ends key r (value f (d + 1) >>= λ v. props f d >>= λ ps. pure (prop key v ps)) (
            bind-Ends (value f (d + 1)) _ r (length r) (suc (length r))
              (value-Ends f (d + 1) r (omega arith))
              (λ v r' lt'.
                bind-Ends (props f d) _ r' (suc (length r')) (suc (length r))
                  (props-Ends f d r' (omega arith)) (λ ps r'' lt''. omega arith)))))

  items-Ends : (f d n : ℕ) (b : Bytes) → suc (length b) < f → Ends (suc (length b)) (items f d n b)
  items-Ends zero d n b h = absurd (omega arith)
  items-Ends (suc f) d zero b h = omega arith
  items-Ends (suc f) d (suc n) b h =
      bind-Ends (value f (d + 1)) _ b (length b) (suc (length b))
        (value-Ends f (d + 1) b (omega arith))
        (λ v r lt.
          bind-Ends (items f d n) _ r (suc (length r)) (suc (length b))
            (items-Ends f d n r (omega arith)) (λ xs r' lt'. omega arith))

decode_one-Ends : (b : Bytes) → Ends (length b) (decode_one b)
unfolding decode_one
decode_one-Ends b = value-Ends (suc (length b)) 0 b (omega arith)

pure-ne-stuck :
    {A B : Type 0} (m : R A) (g : A → B) (b : Bytes)
    → m b ≢ stuck
    → (m >>= λ a. pure (g a)) b ≢ stuck
pure-ne-stuck {A} {B} m g b h = after (m b) h
  where
    after :
        (x : Read A)
        → x ≢ stuck
        → elim x [ stuck ↦ stuck | err e ↦ err e | ok a r ↦ pure (g a) r ] ≢ stuck
    after stuck e = absurd (e refl)
    after (err m) e = cc
    after (ok a r) e = cc

decode_loop-ne-stuck : (f : ℕ) (b : Bytes) → length b ≤ f → decode_loop f b ≢ stuck
unfolding decode_loop
decode_loop-ne-stuck zero [] h = cc
decode_loop-ne-stuck (suc f) [] h = cc
decode_loop-ne-stuck zero (x ∷ b) h = absurd (omega arith)
decode_loop-ne-stuck (suc f) (x ∷ b) h =
    after (decode_loop-ne-stuck f) (decode_one (x ∷ b)) (decode_one-Ends (x ∷ b)) refl
  where
    after :
        ((r : Bytes) → length r ≤ f → decode_loop f r ≢ stuck)
        → (s : Read Amf0Value) → Ends (suc (length b)) s
        → decode_one (x ∷ b) ≡ s
        → decode_loop (suc f) (x ∷ b) ≢ stuck
    after later stuck t e = absurd t
    after later (err m) t e = rw (e, decode_loop) cc
    after later (ok v r) lt e =
        rw (e, decode_loop) (pure-ne-stuck (decode_loop f) (λ vs. v ∷ vs) r (later r (omega arith)))

-- Decoding ends on every input, well formed or not: the values are all read, or there is an error. The
-- recursion into properties and elements never runs out of fuel.
pub decode_all-ends : (b : Bytes) → decode_all b ≢ stuck
unfolding decode_all
decode_all-ends b = decode_loop-ne-stuck (length b) b (omega arith)
