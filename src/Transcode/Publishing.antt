-- ===== src/Transcode/Publishing.antt =====
-- The callbacks of an output's client in src/transcode/transcoder.cpp, with on_publish_ready, start
-- and stop. Where the code follows a null pointer, or casts a double that no uint32_t holds, an
-- operation is `none`.
use rtmp_abr_transcoder.Base.{
  ℕ, ◌+◌, ◌-◌, ◌/◌, ◌%◌, ◌^◌, true, false, not, ◌&&◌, List, [], ◌∷◌, Option, none, some, Result, ok,
  err, ltb, ◌==◌, if◌then◌else◌, length, take, drop,
}
use rtmp_abr_transcoder.Base.Options.{◌>>=◌}
use rtmp_abr_transcoder.Base.Texts.{host_port_of, codes, same_text, find, find_from}
use rtmp_abr_transcoder.Messages.Control.{Message, type_number, audio, video, command_amf0}
use rtmp_abr_transcoder.Amf0.Value.{Value, null, number, string, object, no_fields, insert, lookup}
use rtmp_abr_transcoder.Commands.{CommandMessage, parse_command, encode_command}
use rtmp_abr_transcoder.Net.Socket.{SocketError}
use rtmp_abr_transcoder.Net.Address.{rfind}
use rtmp_abr_transcoder.Relay.Types.{one, two}
use rtmp_abr_transcoder.Relay.Pusher.{Client}
use rtmp_abr_transcoder.Transcode.Flv.{build_avc_decoder_config, build_aac_sequence_header}
use rtmp_abr_transcoder.Transcode.Timestamps.{Clock, start_publishing_clock}
use rtmp_abr_transcoder.Transcode.Codecs.{Codecs}
use rtmp_abr_transcoder.Transcode.Outputs.{Output, on_pusher}

-- static_cast<uint32_t>(double), of the bits of the double.
unfoldable pub double_to_u32 : ℕ → Option ℕ
double_to_u32 bits =
    let exponent = bits / 2 ^ 52 % 2 ^ 11 in
    let significand = bits % 2 ^ 52 + 2 ^ 52 in
    if ltb exponent 1023
    then some 0
    else if ltb bits (2 ^ 63) && ltb exponent 1055
    then some (significand / 2 ^ (1075 - exponent))
    else none

-- The path of a URL, from the first slash behind the host on, with its position.
unfoldable pub url_path : List ℕ → Option (ℕ × List ℕ)
url_path url = do
  proto_end ← find (codes "://") url
  path_start ← find_from (codes "/") (proto_end + 3) url
  some (path_start, drop path_start url)

-- The application of a path.
unfoldable pub path_app : List ℕ → List ℕ
path_app path = elim (find_from (codes "/") 1 path) [
  | none ↦ drop 1 path
  | some app_end ↦ take (app_end - 1) (drop 1 path)
]

-- The stream of a URL: what stands behind its last slash.
unfoldable pub stream_name_of : List ℕ → List ℕ
stream_name_of url = elim (rfind 47 url) [
  | none ↦ codes "stream"
  | some last_slash ↦ drop (last_slash + 1) url
]

abbrev pub output_connect : List ℕ → List ℕ → CommandMessage
output_connect app tc_url = record {
  name = codes "connect";
  transaction_id = one;
  arguments =
      object (
        insert (codes "tcUrl") (string tc_url) (
          insert (codes "type") (string (codes "nonprivate"))
            (insert (codes "app") (string app) no_fields)))
      ∷ [];
}

abbrev pub output_create_stream : CommandMessage
output_create_stream = record {
  name = codes "createStream";
  transaction_id = two;
  arguments = null ∷ [];
}

-- The publish command, in a message on the stream that the server gave.
abbrev pub publish_message : ℕ → List ℕ → Message
publish_message stream_id stream_name = record {
  type_id = type_number command_amf0;
  timestamp = 0;
  stream_id = stream_id;
  payload = encode_command (record {
    name = codes "publish";
    transaction_id = 0;
    arguments = null ∷ string stream_name ∷ string (codes "live") ∷ [];
  });
}

-- The second argument.
abbrev pub second : List Value → Option Value
second (a ∷ b ∷ values) = some b
second _ = none

-- A value that is a text.
abbrev pub text_in : Option Value → Option (List ℕ)
text_in (some (string text)) = some text
text_in _ = none

-- The code of an onStatus whose second argument is an object that has one.
unfoldable pub status_code : List Value → Option (List ℕ)
status_code arguments = elim (second arguments) [
  | some (object info) ↦ text_in (lookup (codes "code") info)
  | _ ↦ none
]

-- The stream id of an answer to createStream.
unfoldable pub stream_number : List Value → Option ℕ
stream_number arguments = elim (second arguments) [ some (number n) ↦ some n | _ ↦ none ]

-- A message and a flush.
abbrev pub send_and_flush : {C : Type 0} → Client C → Message → C → C
send_and_flush api msg c = api.flush (api.send_message msg c)

-- Socket::parse_address.
abbrev pub AddressParser : Type 0
AddressParser = List ℕ → Result SocketError (List ℕ × ℕ)

abbrev pub connect_to :
    {C : Type 0} → (List ℕ → ℕ → C → C) → Result SocketError (List ℕ × ℕ) → C → C
connect_to connect (ok (host, port)) c = connect host port c
connect_to connect (err e) c = c

module _ {k : Codecs} {C : Type 0} (api : Client C) where
  unfoldable pub send_avc_header : Output k C → Option (Output k C)
  send_avc_header o =
      let sps = k.get_sps o.video_encoder in
      let pps = k.get_pps o.video_encoder in
      if o.video_initialized && (not (length sps == 0) && not (length pps == 0))
      then on_pusher api
          (send_and_flush api (record {
            type_id = type_number video;
            timestamp = 0;
            stream_id = o.stream_id;
            payload = build_avc_decoder_config sps pps;
          }))
          o
      else some o

  unfoldable pub send_aac_header : ℕ → Output k C → Option (Output k C)
  send_aac_header rate o =
      let asc = k.get_audio_specific_config o.audio_encoder in
      if o.audio_initialized && not (length asc == 0)
      then on_pusher api
          (send_and_flush api (record {
            type_id = type_number audio;
            timestamp = 0;
            stream_id = o.stream_id;
            payload = build_aac_sequence_header rate asc;
          }))
          o
      else some o

  -- The clock belongs to the transcoder, `rate` is its sample rate.
  unfoldable pub on_publish_ready : ℕ → Clock × Output k C → Option (Clock × Output k C)
  on_publish_ready rate (clock, o) = do
    with_video ← send_avc_header (record o { publishing = true })
    with_audio ← send_aac_header rate with_video
    some (start_publishing_clock clock, with_audio)

  -- The connect command for an application, if there is one.
  unfoldable pub send_connect : List ℕ → List ℕ → Output k C → Option (Output k C)
  send_connect app tc_url o =
      if length app == 0
      then some o
      else on_pusher api (λ c. api.flush (api.send_command (output_connect app tc_url) c)) o

  unfoldable pub connect_output : List ℕ → Output k C → Option (Output k C)
  connect_output url o = elim (url_path url) [
    | none ↦ some o
    | some (path_start, path) ↦
        send_connect (path_app path) (take (path_start + length (path_app path) + 1) url) o
  ]

  -- The connected callback.
  unfoldable pub on_output_connected : Output k C → Option (Output k C)
  on_output_connected o = connect_output o.config.rtmp_url (record o { connected = true })

  -- The answer to createStream.
  unfoldable pub on_stream_created : Option ℕ → Output k C → Option (Output k C)
  on_stream_created none o = some (record o { connected = false; publishing = false })
  on_stream_created (some n) o = do
    stream_id ← double_to_u32 n
    on_pusher api
        (send_and_flush api (publish_message stream_id (stream_name_of o.config.rtmp_url)))
        (record o { stream_id = stream_id })

  unfoldable pub on_output_result : CommandMessage → Output k C → Option (Output k C)
  on_output_result cmd o =
      if cmd.transaction_id == one
      then on_pusher api (λ c. api.flush (api.send_command output_create_stream c)) o
      else if cmd.transaction_id == two
      then on_stream_created (stream_number cmd.arguments) o
      else some o

  -- An onStatus: other codes are only logged.
  unfoldable pub on_output_status :
      ℕ → Option (List ℕ) → Clock × Output k C → Option (Clock × Output k C)
  on_output_status rate none world = some world
  on_output_status rate (some code) world =
      if same_text code (codes "NetStream.Publish.Start")
      then on_publish_ready rate world
      else some world

  unfoldable pub on_output_command :
      ℕ → CommandMessage → Clock × Output k C → Option (Clock × Output k C)
  on_output_command rate cmd (clock, o) =
      if same_text cmd.name (codes "_result")
      then (do o' ← on_output_result cmd o; some (clock, o'))
      else if same_text cmd.name (codes "onStatus")
      then on_output_status rate (status_code cmd.arguments) (clock, o)
      else some (clock, o)

  -- The message callback. `memory` is what an unwritten transaction id holds.
  unfoldable pub on_output_message :
      ℕ → ℕ → Message → Clock × Output k C → Option (Clock × Output k C)
  on_output_message memory rate msg world =
      if msg.type_id == type_number command_amf0
      then elim (parse_command memory msg.payload) [
        | none ↦ some world
        | some cmd ↦ on_output_command rate cmd world
      ]
      else some world

  -- The disconnected callback.
  unfoldable pub on_output_disconnected : Output k C → Output k C
  on_output_disconnected o = record o { connected = false; publishing = false }

  -- One pass of the loop of start(): `fresh` is a new client, and `connect` its call.
  module _ (fresh : C) (connect : List ℕ → ℕ → C → C) (parse_address : AddressParser) where
    unfoldable pub start_output : Output k C → Output k C
    start_output o = elim (host_port_of o.config.rtmp_url) [
      | none ↦ record o { pusher = some fresh }
      | some host_port ↦ record o {
        pusher = some (connect_to connect (parse_address host_port) fresh);
      }
    ]

    unfoldable pub start : List (Output k C) → List (Output k C)
    start [] = []
    start (o ∷ os) = start_output o ∷ start os
