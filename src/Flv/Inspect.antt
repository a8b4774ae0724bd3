-- ===== src/Flv/Inspect.antt =====
-- crates/flv/src/lib.rs, `inspect_video` and `inspect_audio`: legacy FLV tags and Enhanced RTMP
-- headers (FourCC codecs, ModEx blocks, multitrack).
use stream_delay.Base.{
  ℕ, ◌+◌, ◌*◌, ◌/◌, ◌%◌, Bool, true, false, not, ◌&&◌, ◌||◌, Option, none, some, ltb, ◌==◌,
  if◌then◌else◌, drop, length,
}
use stream_delay.Base.Int.{pos}
use stream_delay.Flv.{Bytes, VideoCodec, AudioCodec, VideoInfo, AudioInfo}
use stream_delay.Flv.Reader.{
  R, ◌>>=◌, ◌>>◌, pure, unwrap_or, position, u8, si24, Fourcc, fourcc, skip, skip_mod_ex,
}
use stream_delay.Flv.Hevc.{first_hevc_vcl}

-- `f == *b"…"`.
abbrev is : Fourcc → ℕ → ℕ → ℕ → ℕ → Bool
is f a b c d = f.c0 == a && f.c1 == b && f.c2 == c && f.c3 == d

unfoldable pub video_codec_from_fourcc : Fourcc → VideoCodec
video_codec_from_fourcc f =
    if is f b'a' b'v' b'c' b'1'
    then VideoCodec.avc
    else if is f b'h' b'v' b'c' b'1'
    then VideoCodec.hevc
    else if is f b'a' b'v' b'0' b'1'
    then VideoCodec.av1
    else if is f b'v' b'p' b'0' b'9'
    then VideoCodec.vp9
    else if is f b'v' b'p' b'0' b'8'
    then VideoCodec.vp8
    else VideoCodec.other

unfoldable pub audio_codec_from_fourcc : Fourcc → AudioCodec
audio_codec_from_fourcc f =
    if is f b'm' b'p' b'4' b'a'
    then AudioCodec.aac
    else if is f b'.' b'm' b'p' b'3'
    then AudioCodec.mp3
    else if is f b'O' b'p' b'u' b's'
    then AudioCodec.opus
    else if is f b'f' b'L' b'a' b'C'
    then AudioCodec.flac
    else if is f b'a' b'c' b'-' b'3'
    then AudioCodec.ac3
    else if is f b'e' b'c' b'-' b'3'
    then AudioCodec.eac3
    else AudioCodec.other

abbrev pub is_hevc : VideoCodec → Bool
is_hevc VideoCodec.hevc = true
is_hevc _ = false

abbrev pub is_other : VideoCodec → Bool
is_other VideoCodec.other = true
is_other _ = false

-- The codecs whose coded frames carry a composition time.
abbrev has_composition_time : VideoCodec → Bool
has_composition_time VideoCodec.avc = true
has_composition_time VideoCodec.hevc = true
has_composition_time _ = false

-- Frame types, and packet types of Enhanced RTMP.
abbrev key_frame : ℕ
key_frame = 1

abbrev command_frame : ℕ
command_frame = 5

abbrev sequence_start : ℕ
sequence_start = 0

abbrev coded_frames : ℕ
coded_frames = 1

abbrev coded_frames_x : ℕ
coded_frames_x = 3

abbrev video_metadata : ℕ
video_metadata = 4

abbrev mpeg2ts_sequence_start : ℕ
mpeg2ts_sequence_start = 5

abbrev video_multitrack : ℕ
video_multitrack = 6

abbrev mod_ex : ℕ
mod_ex = 7

abbrev multichannel_config : ℕ
multichannel_config = 4

abbrev audio_multitrack : ℕ
audio_multitrack = 5

-- `condition.then_some(value)`.
abbrev then_some : Bool → ℕ → Option ℕ
then_some c v = if c then some v else none

-- `nal_offset.and_then(|o| first_hevc_vcl(payload.get(o..)?))`.
abbrev vcl_at : Bytes → Option ℕ → Option ℕ
vcl_at payload none = none
vcl_at payload (some o) = if ltb (length payload) o then none else first_hevc_vcl (drop o payload)

-- `command`: no coded data.
abbrev command_info : Bool → VideoInfo
command_info enhanced = record {
  codec = VideoCodec.other;
  keyframe = false;
  config = false;
  config_class = 0;
  enhanced = enhanced;
  multitrack = false;
  composition_time = pos 0;
  hevc_nal_type = none;
  nal_offset = none;
  config_offset = none;
}

abbrev legacy_codec : ℕ → VideoCodec
legacy_codec id =
    if id == 7
    then VideoCodec.avc
    else if id == 12
    then VideoCodec.hevc
    else if id == 13
    then VideoCodec.av1
    else VideoCodec.other

-- The legacy tag, after its first byte `b0`.
unfoldable pub legacy_video : Bytes → ℕ → R VideoInfo
unfolding u8 si24
legacy_video payload b0 = if b0 / 16 == command_frame then pure (command_info false) else do
  let codec = legacy_codec (b0 % 16)
  let has_packet_type = not (is_other codec)
  packet_type ← if has_packet_type then u8 else pure 1
  let config = has_packet_type && packet_type == 0
  composition_time ←
      if has_packet_type && packet_type == 1 then unwrap_or si24 (pos 0) else pure (pos 0)
  at ← position
  let nal_offset = then_some (is_hevc codec && packet_type == 1) at
  pure (record {
    codec = codec;
    keyframe = b0 / 16 == key_frame && packet_type == 1;
    config = config;
    config_class = 0;
    enhanced = false;
    multitrack = false;
    composition_time = composition_time;
    hevc_nal_type = vcl_at payload nal_offset;
    nal_offset = nal_offset;
    config_offset = then_some (is_hevc codec && config) (at + 3);
  })

-- What comes before an Enhanced RTMP body: the packet type, the FourCC, the track and whether the
-- message is multitrack.
record Track : Type 0 where
  packet_type : ℕ
  codes : Fourcc
  track_id : ℕ
  multitrack : Bool

video_track : ℕ → R Track
unfolding u8 fourcc skip
video_track packet_type =
    if packet_type == video_multitrack
    then (do
      b ← u8
      f ← fourcc
      track ← unwrap_or u8 0
      (if b / 16 == 0 then pure tt else unwrap_or (skip 3) tt)
      pure (record { packet_type = b % 16; codes = f; track_id = track; multitrack = true }))
    else do
      f ← fourcc
      pure (record { packet_type = packet_type; codes = f; track_id = 0; multitrack = false })

-- A body that carries coded data, configuration or metadata.
enhanced_body : Bytes → ℕ → ℕ → R VideoInfo
unfolding si24 video_track video_codec_from_fourcc
enhanced_body payload frame_type first = do
  t ← video_track first
  let config = t.packet_type == sequence_start || t.packet_type == mpeg2ts_sequence_start
  let codec = video_codec_from_fourcc t.codes
  composition_time ←
      if t.packet_type == coded_frames && has_composition_time codec
      then unwrap_or si24 (pos 0)
      else pure (pos 0)
  let coded = t.packet_type == coded_frames || t.packet_type == coded_frames_x
  at ← position
  let nal_offset = then_some (is_hevc codec && coded && not t.multitrack) at
  let starts = t.packet_type == sequence_start
  pure (record {
    codec = codec;
    keyframe = frame_type == key_frame && coded;
    config = config;
    config_class = t.track_id * 256 + t.packet_type;
    enhanced = true;
    multitrack = t.multitrack;
    composition_time = composition_time;
    hevc_nal_type = vcl_at payload nal_offset;
    nal_offset = nal_offset;
    config_offset = then_some (is_hevc codec && starts && not t.multitrack) at;
  })

-- The Enhanced RTMP header, after its first byte `b0`.
unfoldable pub enhanced_video : Bytes → ℕ → R VideoInfo
unfolding skip_mod_ex enhanced_body
enhanced_video payload b0 = do
  let frame_type = b0 / 16 % 8
  first ← skip_mod_ex (b0 % 16) mod_ex
  if not (first == video_metadata) && frame_type == command_frame
      then pure (command_info true)
      else enhanced_body payload frame_type first

-- What a reader finds from the start of a payload.
abbrev read_all : {A : Type 0} → R A → Bytes → Option A
read_all m payload = elim (m (record { b = payload; at = 0 })) [
  | none ↦ none
  | some (a, _) ↦ some a
]

-- `inspect_video`.
unfoldable pub inspect_video : Bytes → Option VideoInfo
unfolding u8 legacy_video enhanced_video
inspect_video payload =
    read_all
      (u8 >>= λ b0. if ltb b0 128 then legacy_video payload b0 else enhanced_video payload b0)
      payload

legacy_audio : ℕ → R AudioInfo
unfolding u8
legacy_audio format = do
  let codec =
      if format == 10
      then AudioCodec.aac
      else if format == 2 || format == 14
      then AudioCodec.mp3
      else AudioCodec.other
  first ← if format == 10 then u8 else pure 1
  pure (record {
    codec = codec;
    config = first == 0;
    config_class = 0;
    enhanced = false;
    multitrack = false;
  })

audio_track : ℕ → R Track
unfolding u8 fourcc
audio_track packet_type =
    if packet_type == audio_multitrack
    then (do
      b ← u8
      f ← fourcc
      track ← unwrap_or u8 0
      pure (record { packet_type = b % 16; codes = f; track_id = track; multitrack = true }))
    else do
      f ← fourcc
      pure (record { packet_type = packet_type; codes = f; track_id = 0; multitrack = false })

enhanced_audio : ℕ → R AudioInfo
unfolding skip_mod_ex audio_track
enhanced_audio b0 = do
  first ← skip_mod_ex (b0 % 16) mod_ex
  t ← audio_track first
  pure (record {
    codec = audio_codec_from_fourcc t.codes;
    config = t.packet_type == sequence_start || t.packet_type == multichannel_config;
    config_class = t.track_id * 256 + t.packet_type;
    enhanced = true;
    multitrack = t.multitrack;
  })

-- `inspect_audio`.
unfoldable pub inspect_audio : Bytes → Option AudioInfo
unfolding u8 legacy_audio enhanced_audio
inspect_audio payload =
    read_all (u8 >>= λ b0. if b0 / 16 == 9 then enhanced_audio b0 else legacy_audio (b0 / 16))
      payload
