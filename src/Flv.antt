-- ===== src/Flv.antt =====
-- crates/flv/src/lib.rs: what the relay reads from the bodies of audio and video messages. Here the
-- codecs and the two records of findings; the children read them from the bytes.
pub mod Reader
pub mod Hevc
pub mod Inspect
use stream_delay.Base.{ℕ, Bool, List, Option}
use stream_delay.Base.Int.{ℤ}

-- A payload: bytes, each a number below 256.
abbrev pub Bytes : Type 0
Bytes = List ℕ

pub data VideoCodec : Type 0 where
  avc hevc av1 vp9 vp8 other : VideoCodec

pub data AudioCodec : Type 0 where
  aac mp3 opus flac ac3 eac3 other : AudioCodec

pub record VideoInfo : Type 0 where
  pub codec : VideoCodec
  pub keyframe : Bool
  pub config : Bool
  pub config_class : ℕ
  pub enhanced : Bool
  pub multitrack : Bool
  pub composition_time : ℤ
  pub hevc_nal_type : Option ℕ
  pub nal_offset : Option ℕ
  pub config_offset : Option ℕ

pub record AudioInfo : Type 0 where
  pub codec : AudioCodec
  pub config : Bool
  pub config_class : ℕ
  pub enhanced : Bool
  pub multitrack : Bool
