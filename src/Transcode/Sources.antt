-- ===== src/Transcode/Sources.antt =====
-- on_source_metadata and on_audio_data of src/transcode/transcoder.cpp: what reaches the decoders,
-- which are a parameter.
use rtmp_abr_transcoder.Base.{
  ℕ, ◌/◌, ◌%◌, Bool, true, not, List, [], ◌∷◌, Option, none, some, ltb, ◌==◌, if◌then◌else◌, length,
  drop,
}
use rtmp_abr_transcoder.Base.Options.{◌>>=◌}
use rtmp_abr_transcoder.Base.Numbers.{ℤ}
use rtmp_abr_transcoder.Bytes.{byte_at}
use rtmp_abr_transcoder.Relay.Pusher.{Client}
use rtmp_abr_transcoder.Transcode.Codecs.{Codecs, AudioFrame}
use rtmp_abr_transcoder.Transcode.Outputs.{Transcoder, process_audio_frame}

-- The decoders of H.264 and AAC.
pub record Decoders (S : Type 0) : Type 1 where
  pub VideoDecoder : Type 0
  pub AudioDecoder : Type 0
  pub initialize_video : VideoDecoder → Bool × VideoDecoder
  pub initialize_audio : List ℕ → AudioDecoder → Bool × AudioDecoder
  pub decode_audio : List ℕ → ℕ → AudioDecoder → Option (List (AudioFrame S)) × AudioDecoder

-- The members of Transcoder that belong to the source, beside the size of the picture.
pub record Source (S : Type 0) (d : Decoders S) : Type 0 where
  pub video_decoder : d.VideoDecoder
  pub audio_decoder : d.AudioDecoder
  pub source_width : ℤ
  pub source_height : ℤ
  pub source_fps : ℤ
  pub source_sample_rate : ℤ
  pub source_channels : ℤ
  pub audio_initialized : Bool

module _ {S : Type 0} {d : Decoders S} where
  unfoldable pub on_source_metadata : ℤ → ℤ → ℤ → ℤ → ℤ → Source S d → Source S d
  on_source_metadata width height fps sample_rate channels s = record s {
    source_width = width;
    source_height = height;
    source_fps = fps;
    source_sample_rate = sample_rate;
    source_channels = channels;
    video_decoder = (d.initialize_video s.video_decoder).1;
  }

  -- The branch of an AudioSpecificConfig. A failure leaves the flag as it was.
  unfoldable pub configure_audio : List ℕ → Source S d → Source S d
  configure_audio asc s =
      let (ready, decoder) = d.initialize_audio asc s.audio_decoder in
      if ready
      then record s { audio_decoder = decoder; audio_initialized = true }
      else record s { audio_decoder = decoder }

  -- The branch of raw AAC: the frames, none where the decoder fails.
  unfoldable pub decode_raw : List ℕ → ℕ → Source S d → List (AudioFrame S) × Source S d
  decode_raw aac timestamp s =
      let (frames, decoder) = d.decode_audio aac timestamp s.audio_decoder in
      (elim frames [ none ↦ [] | some fs ↦ fs ], record s { audio_decoder = decoder })

  -- The frames that process_audio_frame is given.
  unfoldable pub on_audio_data : List ℕ → ℕ → Source S d → List (AudioFrame S) × Source S d
  on_audio_data data' timestamp s =
      if ltb (length data') 2
      then ([], s)
      else if not (byte_at data' 0 / 16 % 16 == 10)
      then ([], s)
      else if byte_at data' 1 == 0
      then (if ltb (length data') 4 then ([], s) else ([], configure_audio (drop 2 data') s))
      else if byte_at data' 1 == 1
      then (if not s.audio_initialized
          then ([], s)
          else if ltb (length data') 3
          then ([], s)
          else decode_raw (drop 2 data') timestamp s)
      else ([], s)

module _ {k : Codecs} {C : Type 0} (api : Client C) where
  -- The loop over the frames of on_audio_data.
  unfoldable pub process_audio_frames :
      List (AudioFrame k.Sound) → Transcoder k C → Option (Transcoder k C)
  process_audio_frames [] t = some t
  process_audio_frames (frame ∷ frames) t = do
    t' ← process_audio_frame api frame t
    process_audio_frames frames t'
