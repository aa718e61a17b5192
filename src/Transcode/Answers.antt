-- ===== src/Transcode/Answers.antt =====
-- What an output of src/transcode/transcoder.cpp does at its connection, and at each answer of its
-- server.
use rtmp_abr_transcoder.Base.{
  ℕ, ◌<◌, ◌≡◌, refl, ap, ◌∙◌, true, false, List, ◌∷◌, Option, some, arith, ◌==◌, length,
}
use rtmp_abr_transcoder.Base.Texts.{codes, IsWithout}
use rtmp_abr_transcoder.Messages.Control.{Message, type_number, command_amf0}
use rtmp_abr_transcoder.Amf0.Value.{Value, Fields, number, string, object, lookup}
use rtmp_abr_transcoder.Amf0.RoundTrip.{AreWire}
use rtmp_abr_transcoder.Commands.{CommandMessage, encode_command}
use rtmp_abr_transcoder.Commands.RoundTrip.{IsWireCommand, parse_command-encode_command}
use rtmp_abr_transcoder.Relay.Types.{one, two}
use rtmp_abr_transcoder.Relay.Pusher.{Client}
use rtmp_abr_transcoder.Relay.Addressing.{url_of}
use rtmp_abr_transcoder.Transcode.Timestamps.{Clock}
use rtmp_abr_transcoder.Transcode.Codecs.{Codecs}
use rtmp_abr_transcoder.Transcode.Outputs.{Output, on_pusher}
use rtmp_abr_transcoder.Transcode.Publishing.{
  double_to_u32, stream_name_of, output_connect, output_create_stream, publish_message, text_in,
  status_code, stream_number, send_and_flush, on_publish_ready, send_connect, connect_output,
  on_output_connected, on_stream_created, on_output_result, on_output_status, on_output_command,
  on_output_message,
}
use rtmp_abr_transcoder.Transcode.OutputUrls.{
  tc_url_of, url_path-url_of, path_app-path, take-url_of,
}

not_empty : (xs : List ℕ) → 0 < length xs → (length xs == 0) ≡ false
not_empty xs h = ground arith

-- The answers of a server: a command that the format can carry.
abbrev pub answer : CommandMessage → Message
answer cmd = record {
  type_id = type_number command_amf0;
  timestamp = 0;
  stream_id = 0;
  payload = encode_command cmd;
}

abbrev pub result_answer : ℕ → List Value → CommandMessage
result_answer transaction_id arguments = record {
  name = codes "_result";
  transaction_id = transaction_id;
  arguments = arguments;
}

abbrev pub status_answer : List Value → CommandMessage
status_answer arguments = record {
  name = codes "onStatus";
  transaction_id = 0;
  arguments = arguments;
}

module _ {k : Codecs} {C : Type 0} (api : Client C) (memory rate : ℕ) where
  on_output_message-answer :
      (cmd : CommandMessage) (clock : Clock) (o : Output k C)
      → IsWireCommand cmd
      → on_output_message api memory rate (answer cmd) (clock, o)
        ≡ on_output_command api rate cmd (clock, o)
  unfolding on_output_message
  on_output_message-answer cmd clock o w = rw (parse_command-encode_command memory cmd w) refl

  on_pusher-some :
      (call : C → C) (o : Output k C) (c : C)
      → on_pusher api call (record o { pusher = some c })
        ≡ some (record o { pusher = some (call c) })
  unfolding on_pusher
  on_pusher-some call o c = refl

  pub connects :
      (protocol host app stream : List ℕ) (o : Output k C) (c : C)
      → o.config.rtmp_url ≡ url_of protocol host app stream
      → IsWithout 58 protocol
      → IsWithout 47 host
      → IsWithout 47 app
      → 0 < length app
      → on_output_connected api (record o { pusher = some c })
        ≡ some (record o {
          connected = true;
          pusher =
              some
                (api.flush (api.send_command (output_connect app (tc_url_of protocol host app)) c));
        })
  unfolding on_output_connected connect_output send_connect on_pusher
  connects protocol host app stream o c e w w' w'' p =
      let o' : Output k C = record o { connected = true; pusher = some c } in
      ap (λ (url : List ℕ). connect_output api url o') e
      ∙ rw
          (
            url_path-url_of protocol host app stream w w',
            connect_output,
            path_app-path app stream w'',
            not_empty app p,
            take-url_of protocol host app stream,
          )
          refl

  pub creates :
      (clock : Clock) (arguments : List Value) (o : Output k C) (c : C)
      → AreWire arguments
      → on_output_message api memory rate
          (answer (result_answer one arguments))
          (clock, record o { pusher = some c })
        ≡ some (
          clock,
          record o { pusher = some (api.flush (api.send_command output_create_stream c)) },
        )
  unfolding on_output_command on_output_result on_pusher
  creates clock arguments o c w =
      on_output_message-answer (result_answer one arguments) clock (record o { pusher = some c })
        (record { name_fits = omega arith; transaction_fits = omega arith; arguments_fit = w })
      ∙ refl

  pub publishes :
      (clock : Clock) (n id : ℕ) (first : Value) (more : List Value) (o : Output k C) (c : C)
      → AreWire (first ∷ number n ∷ more)
      → double_to_u32 n ≡ some id
      → on_output_message api memory rate
          (answer (result_answer two (first ∷ number n ∷ more)))
          (clock, record o { pusher = some c })
        ≡ some (
          clock,
          record o {
            stream_id = id;
            pusher =
                some (send_and_flush api (publish_message id (stream_name_of o.config.rtmp_url)) c);
          },
        )
  unfolding on_output_command on_output_result on_pusher on_stream_created stream_number
  publishes clock n id first more o c w e =
      on_output_message-answer (result_answer two (first ∷ number n ∷ more)) clock
        (record o { pusher = some c })
        (record { name_fits = omega arith; transaction_fits = omega arith; arguments_fit = w })
      ∙ rw e refl

  pub confirms :
      (clock : Clock) (first : Value) (info : Fields) (more : List Value) (o : Output k C)
      → AreWire (first ∷ object info ∷ more)
      → lookup (codes "code") info ≡ some (string (codes "NetStream.Publish.Start"))
      → on_output_message api memory rate
          (answer (status_answer (first ∷ object info ∷ more)))
          (clock, o)
        ≡ on_publish_ready api rate (clock, o)
  unfolding on_output_command on_output_status status_code
  confirms clock first info more o w e =
      on_output_message-answer (status_answer (first ∷ object info ∷ more)) clock o
        (record { name_fits = omega arith; transaction_fits = omega arith; arguments_fit = w })
      ∙ ap (λ (v : Option Value). on_output_status api rate (text_in v) (clock, o)) e
