-- ===== src/Transcode/Codecs.antt =====
-- include/transcode/encoder.hpp, decoder.hpp and scaler.hpp: what the transcoder asks of the codecs
-- and the scaler, which call openh264, fdk-aac and libyuv. They are a parameter of the transcoder.
use rtmp_abr_transcoder.Base.{ℕ, Bool, List, Option}
use rtmp_abr_transcoder.Base.Numbers.{ℤ}

pub record EncoderConfig : Type 0 where
  pub width : ℤ
  pub height : ℤ
  pub bitrate_kbps : ℤ
  pub fps : ℤ
  pub gop_size : ℤ
  pub preset : List ℕ

-- The timestamp is written by the transcoder.
pub record EncodedPacket : Type 0 where
  pub data' : List ℕ
  pub keyframe : Bool
  pub timestamp : ℕ

-- A method that returns false gives `none` or false; the object may have changed all the same.
pub record Codecs : Type 1 where
  pub VideoEncoder : Type 0
  pub AudioEncoder : Type 0
  pub Scaler : Type 0
  pub Picture : Type 0
  pub Sound : Type 0
  pub new_video_encoder : VideoEncoder
  pub new_audio_encoder : AudioEncoder
  pub new_scaler : Scaler
  pub initialize_video : EncoderConfig → VideoEncoder → Bool × VideoEncoder
  pub encode_video : Picture → VideoEncoder → Option (List EncodedPacket) × VideoEncoder
  pub get_sps : VideoEncoder → List ℕ
  pub get_pps : VideoEncoder → List ℕ
  pub initialize_scaler : ℤ → ℤ → ℤ → ℤ → Scaler → Bool × Scaler
  pub scale : Picture → Scaler → Option Picture × Scaler
  pub initialize_audio : ℤ → ℤ → ℤ → AudioEncoder → Bool × AudioEncoder
  pub encode_audio : Sound → AudioEncoder → Option (List EncodedPacket) × AudioEncoder
  pub get_audio_specific_config : AudioEncoder → List ℕ

-- A decoded picture and a decoded piece of sound, with what the transcoder reads of them.
pub record VideoFrame (P : Type 0) : Type 0 where
  pub picture : P
  pub width : ℤ
  pub height : ℤ
  pub timestamp : ℕ
  pub keyframe : Bool

pub record AudioFrame (S : Type 0) : Type 0 where
  pub sound : S
  pub sample_rate : ℤ
  pub channels : ℤ
  pub timestamp : ℕ
