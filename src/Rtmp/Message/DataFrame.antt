-- ===== src/Rtmp/Message/DataFrame.antt =====
-- crates/rtmp/src/message.rs, `with_set_data_frame`: what it does to a payload that it has made.
use stream_delay.Base.{true, false, none, some, ◌++◌, ◌≡◌, refl, subst, arith, Bool-cases, inl, inr}
use stream_delay.Flv.{Bytes}
use stream_delay.Rtmp.Amf0.{Amf0Value, Amf0Error, as_str}
use stream_delay.Rtmp.Amf0.Text.{lossy, lossy_rounds}
use stream_delay.Rtmp.Amf0.Decode.{Read, stuck, err, ok, decode_one}
use stream_delay.Rtmp.Amf0.Encode.{encode}
use stream_delay.Rtmp.Amf0.Fits.{Fits, normal}
use stream_delay.Rtmp.Amf0.RoundTrip.{decode_one-encode}
use stream_delay.Rtmp.Message.{set_data_frame, is_str, with_set_data_frame}

-- The name itself, encoded in front of any bytes.
frame_Fits : Fits 0 (Amf0Value.string set_data_frame)
unfolding Fits lossy lossy_rounds
frame_Fits = (omega arith, refl, omega arith)

frame_first :
    (p : Bytes)
    → decode_one (encode (Amf0Value.string set_data_frame) ++ p)
      ≡ ok (Amf0Value.string set_data_frame) p
unfolding normal
frame_first p = decode_one-encode (Amf0Value.string set_data_frame) p frame_Fits

-- A payload that starts with the name is kept as it is.
kept :
    (q : Bytes) {v : Amf0Value} {r : Bytes}
    → decode_one q ≡ ok v r
    → is_str set_data_frame (as_str v) ≡ true
    → with_set_data_frame q ≡ some q
unfolding with_set_data_frame
kept q e h = rw (e, with_set_data_frame, h) refl

prefixed :
    (p : Bytes) {v : Amf0Value} {r : Bytes}
    → decode_one p ≡ ok v r
    → is_str set_data_frame (as_str v) ≡ false
    → with_set_data_frame p ≡ some (encode (Amf0Value.string set_data_frame) ++ p)
unfolding with_set_data_frame
prefixed p e h = rw (e, with_set_data_frame, h) refl

no_stuck : (p : Bytes) → decode_one p ≡ stuck → with_set_data_frame p ≡ none
unfolding with_set_data_frame
no_stuck p e = rw (e, with_set_data_frame) refl

no_error : (p : Bytes) {m : Amf0Error} → decode_one p ≡ err m → with_set_data_frame p ≡ none
unfolding with_set_data_frame
no_error p e = rw (e, with_set_data_frame) refl

-- What `with_set_data_frame` makes of a payload, it leaves as it is when it is given it again: the name
-- `@setDataFrame` is put in front at most once.
pub with_set_data_frame-twice :
    (p q : Bytes) → with_set_data_frame p ≡ some q → with_set_data_frame q ≡ some q
with_set_data_frame-twice p q h = after (decode_one p) refl
  where
    after : (s : Read Amf0Value) → decode_one p ≡ s → with_set_data_frame q ≡ some q
    after stuck e = cc (no_stuck p e, h)
    after (err m) e = cc (no_error p e, h)
    after (ok v r) e = elim (Bool-cases (is_str set_data_frame (as_str v))) [
      | inl named ↦
          let same : p ≡ q = cc (kept p e named, h) in
          subst (λ x. with_set_data_frame x ≡ some x) same (kept p e named)
      | inr other ↦
          let front = encode (Amf0Value.string set_data_frame) ++ p in
          let same : front ≡ q = cc (prefixed p e other, h) in
          subst (λ x. with_set_data_frame x ≡ some x) same (kept front (frame_first p) refl)
    ]
