-- ===== src/Relay/Handshaking.antt =====
-- connect, createStream and publish, one after the other.
use rtmp_abr_transcoder.Base.{
  ℕ, ◌≡◌, refl, ap, ◌∙◌, Bool, true, List, [], ◌∷◌, ◌++◌, Option, some, if◌then◌else◌, append_assoc,
  append-nil, length, take_all, arith,
}
use rtmp_abr_transcoder.Base.Options.{◌>>=◌}
use rtmp_abr_transcoder.Messages.Control.{Message, type_number, command_amf0}
use rtmp_abr_transcoder.Amf0.Value.{Value, null, string}
use rtmp_abr_transcoder.Commands.{CommandMessage, encode_command}
use rtmp_abr_transcoder.Commands.RoundTrip.{IsWireCommand, parse_command-encode_command}
use rtmp_abr_transcoder.Relay.Types.{StreamId, connect_text, create_stream_text, publish_text}
use rtmp_abr_transcoder.Net.Socket.{returned, write}
use rtmp_abr_transcoder.Relay.Publisher.{
  Publisher, Answers, write_socket, Call, start_transcoder, source_metadata, create_pusher,
  app_name_of, connect_response, create_stream_response, publish_response, handle_connect,
  handle_create_stream, handle_publish, handle_publisher_command, handle_publisher_message,
}
use rtmp_abr_transcoder.Relay.Answers.{IsQuiet, command_bytes, respond-Answered}

-- The commands of a publisher.
abbrev pub connect_request : ℕ → List Value → CommandMessage
connect_request id arguments = record {
  name = connect_text;
  transaction_id = id;
  arguments = arguments;
}

abbrev pub create_stream_request : ℕ → List Value → CommandMessage
create_stream_request id arguments = record {
  name = create_stream_text;
  transaction_id = id;
  arguments = arguments;
}

abbrev pub publish_request : ℕ → List ℕ → List Value → CommandMessage
publish_request id stream more = record {
  name = publish_text;
  transaction_id = id;
  arguments = null ∷ string stream ∷ more;
}

-- A command in a message.
abbrev pub command_message : CommandMessage → Message
command_message cmd = record {
  type_id = type_number command_amf0;
  timestamp = 0;
  stream_id = 0;
  payload = encode_command cmd;
}

-- Three texts, one behind the other.
three_behind :
    (a b c before w0 w1 w2 : List ℕ)
    → w0 ≡ before ++ a
    → w1 ≡ w0 ++ b
    → w2 ≡ w1 ++ c
    → w2 ≡ before ++ (a ++ (b ++ c))
three_behind a b c before w0 w1 w2 e0 e1 e2 =
    e2
    ∙ ap (λ (xs : List ℕ). xs ++ c) (e1 ∙ ap (λ (xs : List ℕ). xs ++ b) e0)
    ∙ append_assoc (before ++ a) b c
    ∙ append_assoc before a (b ++ c)

-- A write of which the system takes all.
write_socket-whole :
    (answers : Answers) (data' : List ℕ) (p : Publisher)
    → answers p.written data' ≡ returned (length data')
    → (write_socket answers data' p).1.socket.written ≡ p.socket.written ++ data'
unfolding write
write_socket-whole answers data' p e =
    rw e
      (ap (λ (xs : List ℕ). p.socket.written ++ xs) (take_all (length data') data' (omega arith)))

module _ (grow : ℕ → ℕ → ℕ) (memory : ℕ) (answers : Answers) (has_transcoder : Bool) (now : ℕ) where
  -- handle_publisher_message for each message, with all calls.
  pub handle_all : List Message → Publisher → Option (Publisher × List Call)
  handle_all [] p = some (p, [])
  handle_all (msg ∷ ms) p = do
    (p', calls) ← handle_publisher_message grow memory answers has_transcoder now msg p
    (p'', more) ← handle_all ms p'
    some (p'', calls ++ more)

  handle_command_message :
      (cmd : CommandMessage) (p : Publisher)
      → IsWireCommand cmd
      → handle_publisher_message grow memory answers has_transcoder now (command_message cmd) p
        ≡ handle_publisher_command grow memory answers has_transcoder now cmd p
  unfolding handle_publisher_message
  handle_command_message cmd p w =
      rw (handle_publisher_message, parse_command-encode_command memory cmd w) refl

  -- A publisher whose session can send, without bytes that wait in it, sends connect, createStream
  -- and publish, with names and arguments that the format can carry, and the system takes each
  -- write whole. Then it is ready under the names that it gave; three calls of socket.write, one
  -- for each command, are given the three answers, in this order, and the system has taken just
  -- their bytes behind what it had before; the transcoder is started, or a pusher is created where
  -- there is no transcoder; and the session can send and holds no bytes that wait. No step runs
  -- into an encoder that does not end or a write outside the memory of the buffer.
  pub publisher-ready :
      (p : Publisher) (connect_id create_id publish_id : ℕ) (arguments more others : List Value)
      (stream : List ℕ)
      → ((before : List (List ℕ)) (data' : List ℕ) → answers before data' ≡ returned (length data'))
      → IsQuiet p
      → IsWireCommand (connect_request connect_id arguments)
      → IsWireCommand (create_stream_request create_id more)
      → IsWireCommand (publish_request publish_id stream others)
      → let requests : List Message =
          command_message (connect_request connect_id arguments)
          ∷ command_message (create_stream_request create_id more)
          ∷ command_message (publish_request publish_id stream others)
          ∷ [] in
        let id : StreamId = record { app = app_name_of arguments; stream = stream } in
        let size = p.session.out_chunk_size in
        (p' : Publisher) × (handle_all requests p
          ≡ some (
            p',
            if has_transcoder
                then start_transcoder ∷ source_metadata ∷ []
                else create_pusher id ∷ [],
          ))
        × (p'.ready ≡ true)
        × (p'.stream_id ≡ id)
        × (p'.written
            ≡ p.written
              ++ (command_bytes size (connect_response connect_id)
                  ∷ command_bytes size (create_stream_response create_id)
                  ∷ command_bytes size publish_response
                  ∷ []))
        × (p'.socket.written
            ≡ p.socket.written
              ++ (command_bytes size (connect_response connect_id)
                  ++ (command_bytes size (create_stream_response create_id)
                      ++ command_bytes size publish_response)))
        × IsQuiet p'
  unfolding handle_all handle_publisher_command handle_connect handle_create_stream handle_publish
  publisher-ready p connect_id create_id publish_id arguments more others stream whole q w w' w'' =
      let id : StreamId = record { app = app_name_of arguments; stream = stream } in
      let size = p.session.out_chunk_size in
      let p0 = record p { stream_id = record p.stream_id { app = app_name_of arguments } } in
      let a0 =
        respond-Answered grow memory answers (connect_response connect_id) p0
          (record { ready = q.ready; flushed = q.flushed }) in
      let p1 =
        (write_socket answers (command_bytes size (connect_response connect_id))
          (record p0 { session = a0.session })).1 in
      let a1 =
        respond-Answered grow memory answers (create_stream_response create_id) p1
          (record { ready = a0.ready; flushed = a0.flushed }) in
      let p2 =
        (write_socket answers
          (command_bytes a0.session.out_chunk_size (create_stream_response create_id))
          (record p1 { session = a1.session })).1 in
      let p3 = record p2 {
        stream_id = id;
        ready = true;
        stats = record p.stats { start_time = now };
        last_stats_log = now;
      } in
      let a2 =
        respond-Answered grow memory answers publish_response p3
          (record { ready = a1.ready; flushed = a1.flushed }) in
      let p4 =
        (write_socket answers (command_bytes a1.session.out_chunk_size publish_response)
          (record p3 { session = a2.session })).1 in
      let b0 = command_bytes size (connect_response connect_id) in
      let taken1 =
        write_socket-whole answers
          (command_bytes a0.session.out_chunk_size (create_stream_response create_id))
          (record p1 { session = a1.session }) (whole _ _)
        ∙ ap (λ (n : ℕ). p1.socket.written ++ command_bytes n (create_stream_response create_id))
            a0.same_size in
      let taken2 =
        write_socket-whole answers (command_bytes a1.session.out_chunk_size publish_response)
          (record p3 { session = a2.session }) (whole _ _)
        ∙ ap (λ (n : ℕ). p2.socket.written ++ command_bytes n publish_response)
            (a1.same_size ∙ a0.same_size) in
      (
        p4,
        rw
            (
              handle_command_message (connect_request connect_id arguments) p w,
              a0.defined,
              handle_command_message (create_stream_request create_id more) p1 w',
              a1.defined,
              handle_command_message (publish_request publish_id stream others) p2 w'',
              a2.defined,
            )
            (ap (λ (calls : List Call). some (p4, calls)) (append-nil _)),
        refl,
        refl,
        rw (a1.same_size, a0.same_size)
            (append_assoc (p.written ++ (command_bytes size (connect_response connect_id) ∷ []))
                (command_bytes size (create_stream_response create_id) ∷ [])
                (command_bytes size publish_response ∷ [])
              ∙ append_assoc p.written (command_bytes size (connect_response connect_id) ∷ []) (
                  command_bytes size (create_stream_response create_id)
                  ∷ command_bytes size publish_response
                  ∷ [])),
        three_behind b0 (command_bytes size (create_stream_response create_id))
            (command_bytes size publish_response) p.socket.written p1.socket.written
            p2.socket.written p4.socket.written
            (write_socket-whole answers b0 (record p0 { session = a0.session }) (whole _ b0)) taken1
            taken2,
        record { ready = a2.ready; flushed = a2.flushed },
      )
