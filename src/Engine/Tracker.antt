-- ===== src/Engine/Tracker.antt =====
-- crates/engine/src/snapshot.rs, `IngestTracker`: what is measured of the encoder. Frame rates and
-- the other figures that only the user interface shows are left out.
use stream_delay.Base.{
  ℕ, ◌+◌, ◌-◌, ◌*◌, ◌/◌, true, false, ◌||◌, Option, none, some, List, [], ◌∷◌, ◌++◌, ltb,
  if◌then◌else◌, sum_of,
}
use stream_delay.Flv.{VideoCodec, AudioCodec, VideoInfo, AudioInfo}
use stream_delay.Engine.{Time, sec, Sample, IngestTracker}

-- `Some(codec).filter(|c| *c != Other).or(known)`.
abbrev pub known_video : VideoCodec → Option VideoCodec → Option VideoCodec
known_video VideoCodec.other known = known
known_video codec known = some codec

abbrev pub known_audio : AudioCodec → Option AudioCodec → Option AudioCodec
known_audio AudioCodec.other known = known
known_audio codec known = some codec

abbrev pub gop_after : Option ℕ → ℕ → Option ℕ → Option ℕ
gop_after none ts known = known
gop_after (some last) ts known = some (ts - last)

-- `IngestTracker::video`.
unfoldable pub see_video : Time → VideoInfo → ℕ → IngestTracker → IngestTracker
see_video now info ts t = record t {
  video_codec = known_video info.codec t.video_codec;
  enhanced = t.enhanced || info.enhanced;
  multitrack = t.multitrack || info.multitrack;
  gop_ms = if info.keyframe then gop_after t.last_key_ts ts t.gop_ms else t.gop_ms;
  last_key_ts = if info.keyframe then some ts else t.last_key_ts;
  window =
      if info.config
      then t.window
      else t.window ++ (record { at = now; size = 0; frame = true } ∷ []);
}

-- `IngestTracker::audio`.
unfoldable pub see_audio : AudioInfo → IngestTracker → IngestTracker
see_audio info t = record t {
  audio_codec = known_audio info.codec t.audio_codec;
  enhanced = t.enhanced || info.enhanced;
  multitrack = t.multitrack || info.multitrack;
}

abbrev pub window_length : Time
window_length = 2 * sec

-- The loop of `IngestTracker::bytes`: samples older than the window go from the front.
unfoldable pub recent : Time → List Sample → List Sample
recent now [] = []
recent now (s ∷ rest) =
    let later = recent now rest in if ltb (s.at + window_length) now then later else s ∷ rest

-- `IngestTracker::bytes`.
unfoldable pub see_bytes : Time → ℕ → IngestTracker → IngestTracker
see_bytes now n t = record t {
  window = recent now (t.window ++ (record { at = now; size = n; frame = false } ∷ []));
}

-- `IngestTracker::bitrate_bps`.
unfoldable pub bitrate_bps : IngestTracker → ℕ
bitrate_bps t = sum_of (λ s. s.size) t.window * 8 * sec / window_length
