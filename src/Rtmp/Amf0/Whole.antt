-- ===== src/Rtmp/Amf0/Whole.antt =====
-- crates/rtmp/src/amf0.rs: a sequence of values, encoded and decoded.
use stream_delay.Base.{
  ℕ, zero, suc, ◌≤◌, List, [], ◌∷◌, ◌++◌, length, map, ◌≡◌, refl, ◌∙◌, arith, length-append,
}
use stream_delay.Flv.{Bytes}
use stream_delay.Rtmp.Amf0.{Amf0Value}
use stream_delay.Rtmp.Amf0.Decode.{ok, ◌>>=◌, pure, decode_one, decode_loop, decode_all}
use stream_delay.Rtmp.Amf0.Encode.{encode, encode_all}
use stream_delay.Rtmp.Amf0.Reads.{bind-ok}
use stream_delay.Rtmp.Amf0.Fits.{Fits, normal, length-encode}
use stream_delay.Rtmp.Amf0.RoundTrip.{decode_one-encode}

abbrev pub AllFit : List Amf0Value → Type 0
AllFit [] = Unit
AllFit (v ∷ vs) = Fits 0 v × AllFit vs

decode_loop_step :
    (f : ℕ) (b : Bytes) {v : Amf0Value} {r : Bytes}
    → 1 ≤ length b
    → decode_one b ≡ ok v r
    → decode_loop (suc f) b ≡ (decode_loop f >>= λ vs. pure (v ∷ vs)) r
unfolding decode_loop
decode_loop_step f [] h e = absurd (omega arith)
decode_loop_step f (x ∷ b) h e = rw (e, decode_loop) refl

no_more : (f : ℕ) → decode_loop f [] ≡ ok [] []
unfolding decode_loop
no_more zero = refl
no_more (suc f) = refl

decode_loop-encode_all :
    (vs : List Amf0Value) (f : ℕ)
    → AllFit vs
    → length (encode_all vs) ≤ f
    → decode_loop f (encode_all vs) ≡ ok (map normal vs) []
unfolding encode_all
decode_loop-encode_all [] f h hf = no_more f
decode_loop-encode_all (v ∷ vs) zero (h, hs) hf =
    absurd (omega (arith, length-encode v, length-append (encode v) (encode_all vs)))
decode_loop-encode_all (v ∷ vs) (suc f) (h, hs) hf =
    let sizes = length-append (encode v) (encode_all vs) in
    let some_byte = length-encode v in
    decode_loop_step f (encode v ++ encode_all vs) (omega arith)
      (decode_one-encode v (encode_all vs) h)
    ∙ bind-ok (decode_loop f) _ _ (decode_loop-encode_all vs f hs (omega arith))

-- Values that the format can hold, encoded one after the other, decode to the list of their normal forms,
-- with nothing left: the same values, but for strings of more than 65535 bytes, which come back as long
-- strings.
pub decode_all-encode_all :
    (vs : List Amf0Value) → AllFit vs → decode_all (encode_all vs) ≡ ok (map normal vs) []
unfolding decode_all
decode_all-encode_all vs h = decode_loop-encode_all vs (length (encode_all vs)) h (omega arith)
