-- ===== src/Relay/Reading.antt =====
-- The read handler of setup_publisher_read, from a read that gave bytes on.
use rtmp_abr_transcoder.Base.{
  ℕ, Bool, true, false, ◌&&◌, List, [], ◌++◌, Option, none, some, Result, ok, err, ltb, leb, ◌==◌,
  if◌then◌else◌, length, take, drop,
}
use rtmp_abr_transcoder.Base.Options.{◌>>=◌}
use rtmp_abr_transcoder.Messages.Control.{Message}
use rtmp_abr_transcoder.Handshake.{
  State, uninitialized, c0c1_sent, s0s1s2_sent, c2_sent, done, process_client_handshake,
}
use rtmp_abr_transcoder.Session.{
  Session, is_done, send_window_ack_size, send_set_peer_bandwidth, send_set_chunk_size,
  get_outgoing_data, generate_server_handshake_response, process_input,
}
use rtmp_abr_transcoder.Net.Socket.{SocketError}
use rtmp_abr_transcoder.Relay.Publisher.{
  Publisher, Call, Answers, write_socket, handle_publisher_message,
}

-- remove_publisher, or the publisher that goes on, with the calls that were made.
pub data Outcome : Type 0 where
  removed : Outcome
  continues : Publisher → List Call → Outcome

abbrev pub is_answering : State → Bool
is_answering s0s1s2_sent = true
is_answering uninitialized = false
is_answering c0c1_sent = false
is_answering c2_sent = false
is_answering done = false

-- The result of a write: an error removes the publisher, a number of bytes is not looked at.
abbrev pub checked : Result SocketError ℕ × Publisher → Option Publisher
checked (err e, p) = none
checked (ok n, p) = some p

-- `grow` and `memory` as in the buffer; `random` for the server's block; `answers` is what the system
-- answers to the writes.
module _ (grow : ℕ → ℕ → ℕ) (memory : ℕ) (has_transcoder : Bool) (now : ℕ) (random : ℕ → ℕ)
    (answers : Answers) where
  -- socket.write.
  abbrev pub write : List ℕ → Publisher → Option Publisher
  write data' p = checked (write_socket answers data' p)

  -- The message callback, which works on the publisher's own session.
  abbrev pub publisher_callback :
      Message → Session × (Publisher × List Call) → Option (Session × (Publisher × List Call))
  publisher_callback msg (session, (p, calls)) = do
    (p', more) ←
        handle_publisher_message grow memory answers has_transcoder now msg
          (record p { session = session })
    some (p'.session, (p', calls ++ more))

  -- Session::process_input; an error removes the publisher.
  unfoldable pub process_bytes : List ℕ → Publisher → Option Outcome
  process_bytes data' p = do
    (result, (session, (p', calls))) ← process_input publisher_callback data' (p.session, (p, []))
    some (elim result [
      | err e ↦ removed
      | ok consumed ↦ continues (record p' { session = session }) calls
    ])

  -- S0, S1 and S2, when the greeting was accepted.
  unfoldable pub answer_greeting : List ℕ → Publisher → Option (Option Publisher)
  answer_greeting data' p =
      if is_answering p.session.handshake.state && leb 1537 (length data')
      then (do
        (response, session) ←
            generate_server_handshake_response random (take 1536 (drop 1 data')) p.session
        some (write response (record p { session = session })))
      else some (some p)

  -- The protocol messages, when the handshake is over.
  unfoldable pub send_protocol_messages : Publisher → Option (Option Publisher)
  send_protocol_messages p =
      if is_done p.session.handshake.state
      then (do
        s1 ← send_window_ack_size grow memory 2500000 p.session
        s2 ← send_set_peer_bandwidth grow memory 2500000 2 s1
        s3 ← send_set_chunk_size grow memory 4096 s2
        let (data', session) = get_outgoing_data s3
        some (
            if length data' == 0
            then some (record p { session = session })
            else write data' (record p { session = session })))
      else some (some p)

  -- What stands behind the handshake in the same read.
  unfoldable pub process_remaining : ℕ → List ℕ → Publisher → Option Outcome
  process_remaining consumed data' p =
      if is_done p.session.handshake.state && ltb consumed (length data')
      then process_bytes (drop consumed data') p
      else some (continues p [])

  unfoldable pub finish_handshake : ℕ → List ℕ → Option Publisher → Option Outcome
  finish_handshake consumed data' none = some removed
  finish_handshake consumed data' (some p) = process_remaining consumed data' p

  unfoldable pub protocol_after_answer : ℕ → List ℕ → Option Publisher → Option Outcome
  protocol_after_answer consumed data' none = some removed
  protocol_after_answer consumed data' (some p) = do
    sent ← send_protocol_messages p
    finish_handshake consumed data' sent

  unfoldable pub read_handshake : List ℕ → Publisher → Option Outcome
  read_handshake data' p =
      let (result, handshake) = process_client_handshake data' p.session.handshake in
      let p' = record p { session = record p.session { handshake = handshake } } in
      elim result [
        | err e ↦ some removed
        | ok consumed ↦ (do
          answered ← answer_greeting data' p'
          protocol_after_answer consumed data' answered)
      ]

  -- A read of at least one byte. A read of none, and an error, remove the publisher.
  unfoldable pub on_read : List ℕ → Publisher → Option Outcome
  on_read data' p =
      if is_done p.session.handshake.state then process_bytes data' p else read_handshake data' p
