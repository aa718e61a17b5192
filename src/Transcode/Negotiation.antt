-- ===== src/Transcode/Negotiation.antt =====
-- An output from the connection of its client to the first packet.
use rtmp_abr_transcoder.Base.{
  ℕ, ◌<◌, ◌≡◌, refl, ap, ◌∙◌, Bool, true, not, ◌&&◌, List, ◌∷◌, Option, some, ◌==◌, if◌then◌else◌,
  length, Bool-cases, inl, inr,
}
use rtmp_abr_transcoder.Base.Options.{◌>>=◌}
use rtmp_abr_transcoder.Base.Texts.{codes, IsWithout}
use rtmp_abr_transcoder.Messages.Control.{Message, type_number, audio, video}
use rtmp_abr_transcoder.Amf0.Value.{Value, Fields, number, string, object, lookup}
use rtmp_abr_transcoder.Amf0.RoundTrip.{AreWire}
use rtmp_abr_transcoder.Relay.Types.{one, two}
use rtmp_abr_transcoder.Relay.Pusher.{Client}
use rtmp_abr_transcoder.Relay.Addressing.{url_of}
use rtmp_abr_transcoder.Transcode.Flv.{build_avc_decoder_config, build_aac_sequence_header}
use rtmp_abr_transcoder.Transcode.Timestamps.{Clock, start_publishing_clock}
use rtmp_abr_transcoder.Transcode.Codecs.{Codecs}
use rtmp_abr_transcoder.Transcode.Outputs.{Output, on_pusher}
use rtmp_abr_transcoder.Transcode.Publishing.{
  double_to_u32, stream_name_of, output_connect, output_create_stream, publish_message,
  send_and_flush, send_avc_header, send_aac_header, on_publish_ready, on_output_connected,
  on_output_message,
}
use rtmp_abr_transcoder.Transcode.Answers.{
  answer, result_answer, status_answer, connects, creates, publishes, confirms,
}
use rtmp_abr_transcoder.Transcode.OutputUrls.{tc_url_of, stream_name_of-url_of}

-- A client that has sent connect, createStream and publish, each flushed at once.
abbrev pub negotiated : {C : Type 0} → Client C → List ℕ → List ℕ → List ℕ → ℕ → C → C
negotiated api tc_url app stream id c =
    let connecting = api.flush (api.send_command (output_connect app tc_url) c) in
    let creating = api.flush (api.send_command output_create_stream connecting) in
    send_and_flush api (publish_message id stream) creating

module _ {k : Codecs} {C : Type 0} (api : Client C) (memory rate : ℕ) where
  -- The callbacks of an output for the connection and three messages.
  unfoldable pub negotiate :
      Message → Message → Message → Clock × Output k C → Option (Clock × Output k C)
  negotiate connected created published (clock, o) = do
    o' ← on_output_connected api o
    world ← on_output_message api memory rate connected (clock, o')
    world' ← on_output_message api memory rate created world
    on_output_message api memory rate published world'

  -- The sequence headers that an output sends to a client.
  abbrev avc_message : Output k C → Message
  avc_message o = record {
    type_id = type_number video;
    timestamp = 0;
    stream_id = o.stream_id;
    payload = build_avc_decoder_config (k.get_sps o.video_encoder) (k.get_pps o.video_encoder);
  }

  abbrev aac_message : Output k C → Message
  aac_message o = record {
    type_id = type_number audio;
    timestamp = 0;
    stream_id = o.stream_id;
    payload = build_aac_sequence_header rate (k.get_audio_specific_config o.audio_encoder);
  }

  abbrev has_avc : Output k C → Bool
  has_avc o =
      o.video_initialized
      && (not (length (k.get_sps o.video_encoder) == 0)
          && not (length (k.get_pps o.video_encoder) == 0))

  abbrev has_aac : Output k C → Bool
  has_aac o = o.audio_initialized && not (length (k.get_audio_specific_config o.audio_encoder) == 0)

  abbrev pub headers : Output k C → C → C
  headers o c =
      let with_avc = if has_avc o then send_and_flush api (avc_message o) c else c in
      if has_aac o then send_and_flush api (aac_message o) with_avc else with_avc

  sends_avc :
      (o : Output k C) (c : C)
      → send_avc_header api (record o { pusher = some c })
        ≡ some (record o {
          pusher = some (if has_avc o then send_and_flush api (avc_message o) c else c);
        })
  unfolding send_avc_header on_pusher
  sends_avc o c = elim (Bool-cases (has_avc o)) [ inl e ↦ rw e refl | inr e ↦ rw e refl ]

  sends_aac :
      (o : Output k C) (c : C)
      → send_aac_header api rate (record o { pusher = some c })
        ≡ some (record o {
          pusher = some (if has_aac o then send_and_flush api (aac_message o) c else c);
        })
  unfolding send_aac_header on_pusher
  sends_aac o c = elim (Bool-cases (has_aac o)) [ inl e ↦ rw e refl | inr e ↦ rw e refl ]

  readies :
      (clock : Clock) (o : Output k C) (c : C)
      → on_publish_ready api rate (clock, record o { pusher = some c })
        ≡ some (
          start_publishing_clock clock,
          record o { publishing = true; pusher = some (headers o c) },
        )
  unfolding on_publish_ready
  readies clock o c =
      let o' : Output k C = record o { publishing = true } in
      rw
        (
          sends_avc o' c,
          sends_aac o' (if has_avc o then send_and_flush api (avc_message o) c else c),
        )
        refl

  -- An output whose URL has a protocol, a host, an application and a stream, and whose client
  -- tells of the connection, then brings the answers to connect and to createStream and the status
  -- NetStream.Publish.Start, publishes on the stream id that the server gave: its client was given
  -- connect for the application, with the URL up to it, createStream, publish for the stream, on
  -- that stream id, and behind them the sequence headers of the encoders that are initialized and
  -- have one, each with a flush, and the clock of the transcoder has started. The protocol has no
  -- colon, the host and the stream have no slash, the application has none and is not empty; the
  -- answers have arguments that the format can carry, and the id is a number that a uint32_t
  -- holds.
  pub negotiate-publishes :
      (protocol host app stream : List ℕ) (o : Output k C) (c : C) (clock : Clock)
      → (connected : List Value) → (n id : ℕ) (created : Value) (more_created : List Value)
      → (status : Value) (info : Fields) (more_status : List Value)
      → o.config.rtmp_url ≡ url_of protocol host app stream
      → IsWithout 58 protocol
      → IsWithout 47 host
      → IsWithout 47 app
      → 0 < length app
      → IsWithout 47 stream
      → AreWire connected
      → AreWire (created ∷ number n ∷ more_created)
      → double_to_u32 n ≡ some id
      → AreWire (status ∷ object info ∷ more_status)
      → lookup (codes "code") info ≡ some (string (codes "NetStream.Publish.Start"))
      → negotiate
          (answer (result_answer one connected))
          (answer (result_answer two (created ∷ number n ∷ more_created)))
          (answer (status_answer (status ∷ object info ∷ more_status)))
          (clock, record o { pusher = some c })
        ≡ some (
          start_publishing_clock clock,
          record o {
            connected = true;
            publishing = true;
            stream_id = id;
            pusher = some (
                headers
                  (record o { stream_id = id })
                  (negotiated api (tc_url_of protocol host app) app stream id c));
          },
        )
  unfolding negotiate
  negotiate-publishes protocol host app stream o c clock connected n id created more_created status
        info more_status url w w' w'' p w3 a1 a2 e a3 e' =
      let c1 = api.flush (api.send_command (output_connect app (tc_url_of protocol host app)) c) in
      let c2 = api.flush (api.send_command output_create_stream c1) in
      let o1 : Output k C = record o { connected = true } in
      let name : stream_name_of o.config.rtmp_url ≡ stream =
        ap stream_name_of url ∙ stream_name_of-url_of protocol host app stream w3 in
      let c3 = send_and_flush api (publish_message id (stream_name_of o.config.rtmp_url)) c2 in
      let o3 : Output k C = record o1 { stream_id = id } in
      rw
        (
          connects api memory rate protocol host app stream o c url w w' w'' p,
          creates api memory rate clock connected o1 c1 a1,
          publishes api memory rate clock n id created more_created o1 c2 a2 e,
          confirms api memory rate clock status info more_status (record o3 { pusher = some c3 }) a3
              e',
          readies clock o3 c3,
        )
        (rw name refl)
