-- ===== src/Transcode/Outputs.antt =====
-- The outputs of src/transcode/transcoder.cpp: what becomes of a decoded frame. The client of an
-- output is the interface that the relay's pushers have as well. Where the code follows a null
-- pointer, an operation is `none`. The pending packets of an output are left out: none are added.
use rtmp_abr_transcoder.Base.{
  ℕ, ◌+◌, ◌-◌, ◌%◌, ◌^◌, Bool, true, false, List, [], ◌∷◌, ◌++◌, Option, none, some, if◌then◌else◌,
}
use rtmp_abr_transcoder.Base.Options.{◌>>=◌}
use rtmp_abr_transcoder.Base.Texts.{codes}
use rtmp_abr_transcoder.Base.Numbers.{ℤ, pos, negsuc}
use rtmp_abr_transcoder.Messages.Control.{Message, type_number, audio, video}
use rtmp_abr_transcoder.Relay.Pusher.{Client}
use rtmp_abr_transcoder.Transcode.Codecs.{
  EncoderConfig, EncodedPacket, Codecs, VideoFrame, AudioFrame,
}
use rtmp_abr_transcoder.Transcode.Flv.{build_flv_video_packet, build_flv_audio_packet}
use rtmp_abr_transcoder.Transcode.Timestamps.{Clock, video_timestamp, audio_timestamp}

pub record OutputConfig : Type 0 where
  pub name : List ℕ
  pub width : ℤ
  pub height : ℤ
  pub video_bitrate_kbps : ℤ
  pub audio_bitrate_kbps : ℤ
  pub rtmp_url : List ℕ

pub record Output (k : Codecs) (C : Type 0) : Type 0 where
  pub config : OutputConfig
  pub scaler : k.Scaler
  pub video_encoder : k.VideoEncoder
  pub audio_encoder : k.AudioEncoder
  pub pusher : Option C
  pub connected : Bool
  pub publishing : Bool
  pub video_initialized : Bool
  pub audio_initialized : Bool
  pub stream_id : ℕ

-- The members that the frames change.
pub record Transcoder (k : Codecs) (C : Type 0) : Type 0 where
  pub outputs : List (Output k C)
  pub source_width : ℤ
  pub source_height : ℤ
  pub clock : Clock
  pub video_frame_count : ℕ
  pub actual_audio_sample_rate : ℕ

-- Of an int as a uint32_t.
abbrev pub to_u32 : ℤ → ℕ
to_u32 (pos n) = n % 2 ^ 32
to_u32 (negsuc n) = 2 ^ 32 - 1 - n % 2 ^ 32

abbrev pub encoder_config : OutputConfig → EncoderConfig
encoder_config config = record {
  width = config.width;
  height = config.height;
  bitrate_kbps = config.video_bitrate_kbps;
  fps = pos 30;
  gop_size = pos 60;
  preset = codes "fast";
}

module _ {k : Codecs} {C : Type 0} where
  unfoldable pub new_output : OutputConfig → Output k C
  new_output config = record {
    config = config;
    scaler = k.new_scaler;
    video_encoder = k.new_video_encoder;
    audio_encoder = k.new_audio_encoder;
    pusher = none;
    connected = false;
    publishing = false;
    video_initialized = false;
    audio_initialized = false;
    stream_id = 0;
  }

  -- It always returns true.
  unfoldable pub add_output : OutputConfig → Transcoder k C → Transcoder k C
  add_output config t = record t { outputs = t.outputs ++ (new_output config ∷ []) }

  unfoldable pub stop : Transcoder k C → Transcoder k C
  stop t = record t { outputs = [] }

  -- The initialization of the encoder and of the scaler, and whether the frame is processed further.
  unfoldable pub prepare_scaler : VideoFrame k.Picture → Output k C → Bool × Output k C
  prepare_scaler frame o =
      let (ready, scaler) =
        k.initialize_scaler frame.width frame.height o.config.width o.config.height o.scaler in
      (ready, record o { scaler = scaler; video_initialized = ready })

  unfoldable pub prepare_video : VideoFrame k.Picture → Output k C → Bool × Output k C
  prepare_video frame o =
      let (ready, encoder) = k.initialize_video (encoder_config o.config) o.video_encoder in
      let o' = record o { video_encoder = encoder } in
      if o.video_initialized
      then (true, o)
      else if ready
      then prepare_scaler frame o'
      else (false, o')

  -- The packets of a frame, none where the scaler or the encoder fails.
  unfoldable pub encode_scaled : Option k.Picture → Output k C → List EncodedPacket × Output k C
  encode_scaled none o = ([], o)
  encode_scaled (some picture) o =
      let (packets, encoder) = k.encode_video picture o.video_encoder in
      (elim packets [ none ↦ [] | some ps ↦ ps ], record o { video_encoder = encoder })

  unfoldable pub video_packets : VideoFrame k.Picture → Output k C → List EncodedPacket × Output k C
  video_packets frame o =
      let (ready, prepared) = prepare_video frame o in
      let (scaled, scaler) = k.scale frame.picture prepared.scaler in
      if ready then encode_scaled scaled (record prepared { scaler = scaler }) else ([], prepared)

  unfoldable pub prepare_audio : AudioFrame k.Sound → Output k C → Bool × Output k C
  prepare_audio frame o =
      let (ready, encoder) =
        k.initialize_audio frame.sample_rate frame.channels o.config.audio_bitrate_kbps
          o.audio_encoder in
      if o.audio_initialized
      then (true, o)
      else (ready, record o { audio_encoder = encoder; audio_initialized = ready })

  unfoldable pub audio_packets : AudioFrame k.Sound → Output k C → List EncodedPacket × Output k C
  audio_packets frame o =
      let (ready, prepared) = prepare_audio frame o in
      let (packets, encoder) = k.encode_audio frame.sound prepared.audio_encoder in
      if ready
      then (elim packets [ none ↦ [] | some ps ↦ ps ], record prepared { audio_encoder = encoder })
      else ([], prepared)

  abbrev pub video_message : Output k C → EncodedPacket → Message
  video_message o packet = record {
    type_id = type_number video;
    timestamp = packet.timestamp;
    stream_id = o.stream_id;
    payload = build_flv_video_packet packet.keyframe packet.data';
  }

  abbrev pub audio_message : ℕ → Output k C → EncodedPacket → Message
  audio_message sample_rate o packet = record {
    type_id = type_number audio;
    timestamp = packet.timestamp;
    stream_id = o.stream_id;
    payload = build_flv_audio_packet sample_rate packet.data';
  }

  module _ (api : Client C) where
    -- A call of the pusher.
    unfoldable pub on_pusher : (C → C) → Output k C → Option (Output k C)
    on_pusher call o = elim o.pusher [
      | none ↦ none
      | some c ↦ some (record o { pusher = some (call c) })
    ]

    -- The common part of push_video_packet and push_audio_packet.
    unfoldable pub push_packet : Message → Output k C → Option (Output k C)
    push_packet msg o = if o.publishing then on_pusher (api.send_message msg) o else some o

    unfoldable pub push_video_packet : EncodedPacket → Output k C → Option (Output k C)
    push_video_packet packet o = push_packet (video_message o packet) o

    unfoldable pub push_audio_packet : ℕ → EncodedPacket → Output k C → Option (Output k C)
    push_audio_packet sample_rate packet o = push_packet (audio_message sample_rate o packet) o

    -- The loops over the packets, which get the timestamp of the frame.
    unfoldable pub push_video : ℕ → List EncodedPacket → Output k C → Option (Output k C)
    push_video ts [] o = some o
    push_video ts (packet ∷ packets) o = do
      o' ← push_video_packet (record packet { timestamp = ts }) o
      push_video ts packets o'

    unfoldable pub push_audio : ℕ → ℕ → List EncodedPacket → Output k C → Option (Output k C)
    push_audio rate ts [] o = some o
    push_audio rate ts (packet ∷ packets) o = do
      o' ← push_audio_packet rate (record packet { timestamp = ts }) o
      push_audio rate ts packets o'

    -- The loops over the outputs.
    unfoldable pub video_to_outputs :
        ℕ → VideoFrame k.Picture → List (Output k C) → Option (List (Output k C))
    video_to_outputs ts frame [] = some []
    video_to_outputs ts frame (o ∷ os) = do
      o' ← push_video ts (video_packets frame o).0 (video_packets frame o).1
      os' ← video_to_outputs ts frame os
      some (o' ∷ os')

    unfoldable pub audio_to_outputs :
        ℕ → ℕ → AudioFrame k.Sound → List (Output k C) → Option (List (Output k C))
    audio_to_outputs rate ts frame [] = some []
    audio_to_outputs rate ts frame (o ∷ os) = do
      o' ← push_audio rate ts (audio_packets frame o).0 (audio_packets frame o).1
      os' ← audio_to_outputs rate ts frame os
      some (o' ∷ os')

    -- A frame that has no time is dropped.
    unfoldable pub video_at :
        Option ℕ → VideoFrame k.Picture → List (Output k C) → Option (List (Output k C))
    video_at none frame os = some os
    video_at (some ts) frame os = video_to_outputs ts frame os

    unfoldable pub audio_at :
        Option ℕ → ℕ → AudioFrame k.Sound → List (Output k C) → Option (List (Output k C))
    audio_at none rate frame os = some os
    audio_at (some ts) rate frame os = audio_to_outputs rate ts frame os

    unfoldable pub process_video_frame :
        VideoFrame k.Picture → Transcoder k C → Option (Transcoder k C)
    process_video_frame frame t =
        let (clock, emitted) =
          video_timestamp (record { timestamp = frame.timestamp; keyframe = frame.keyframe })
            t.clock in
        let t' = record t {
          source_width = frame.width;
          source_height = frame.height;
          video_frame_count = (t.video_frame_count + 1) % 2 ^ 64;
          clock = clock;
        } in
        (do outputs ← video_at emitted frame t.outputs; some (record t' { outputs = outputs }))

    unfoldable pub process_audio_frame :
        AudioFrame k.Sound → Transcoder k C → Option (Transcoder k C)
    process_audio_frame frame t =
        let (clock, emitted) = audio_timestamp frame.timestamp t.clock in
        let rate = to_u32 frame.sample_rate in
        let t' = record t { actual_audio_sample_rate = rate; clock = clock } in
        (do outputs ← audio_at emitted rate frame t.outputs; some (record t' { outputs = outputs }))
