-- ===== src/Session.antt =====
-- include/rtmp/rtmp_session.hpp and src/rtmp/rtmp_session.cpp: messages to chunks on one side of a
-- connection, and chunks to messages on the other. Where encode_chunk does not end or the buffer
-- writes outside its memory, an operation is `none`.
pub mod Transfer
mod Tests
use rtmp_abr_transcoder.Base.{
  ℕ, ◌+◌, Bool, true, false, ◌||◌, List, [], ◌∷◌, Option, none, some, Result, ok, err, ◌==◌,
  if◌then◌else◌, length,
}
use rtmp_abr_transcoder.Base.Options.{◌>>=◌}
use rtmp_abr_transcoder.Base.Bits.{low_bits}
use rtmp_abr_transcoder.Messages.Control.{
  Message, type_number, set_chunk_size, window_ack_size, set_peer_bandwidth, audio, video,
  data_amf0, command_amf0, SetChunkSizeMessage, WindowAckSizeMessage, SetPeerBandwidthMessage,
  parse_set_chunk_size, encode_set_chunk_size, encode_window_ack_size, encode_set_peer_bandwidth,
}
use rtmp_abr_transcoder.Commands.{CommandMessage, encode_command}
use rtmp_abr_transcoder.Chunks.Header.{ChunkHeader, HeaderError}
use rtmp_abr_transcoder.Chunks.Parse.{Chunk, ChunkParser, new_parser, set_parser_chunk_size, parse}
use rtmp_abr_transcoder.Chunks.Encode.{encode_chunk}
use rtmp_abr_transcoder.Handshake.{
  State, done, uninitialized, c0c1_sent, s0s1s2_sent, c2_sent, Handshake, new_handshake,
  generate_c0_c1, generate_s0_s1_s2,
}
use rtmp_abr_transcoder.Buffer.{Buffer, new_buffer, readable, append, clear}

pub record Session : Type 0 where
  pub handshake : Handshake
  pub parser : ChunkParser
  pub write_buffer : Buffer
  pub out_chunk_size : ℕ
  pub app_name : List ℕ
  pub stream_name : List ℕ

unfoldable pub new_session : Session
new_session = record {
  handshake = new_handshake;
  parser = new_parser 128;
  write_buffer = new_buffer;
  out_chunk_size = 128;
  app_name = [];
  stream_name = [];
}

unfoldable pub set_stream_info : List ℕ → List ℕ → Session → Session
set_stream_info app stream s = record s { app_name = app; stream_name = stream }

-- Handshake::is_done.
abbrev pub is_done : State → Bool
is_done done = true
is_done uninitialized = false
is_done c0c1_sent = false
is_done s0s1s2_sent = false
is_done c2_sent = false

-- The chunk stream of a message: one each for audio, video and data, and 2 for all others.
unfoldable pub chunk_stream_of : ℕ → ℕ
chunk_stream_of type_id =
    if type_id == type_number audio
    then 4
    else if type_id == type_number video
    then 6
    else if type_id == type_number data_amf0
    then 5
    else 2

-- The header that send_message fills in.
unfoldable pub header_of : Message → ChunkHeader
header_of msg = record {
  fmt = 0;
  chunk_stream_id = chunk_stream_of msg.type_id;
  timestamp = msg.timestamp;
  message_length = low_bits (length msg.payload) 32;
  message_type_id = msg.type_id;
  message_stream_id = msg.stream_id;
  has_extended_timestamp = false;
}

-- A protocol message of the time 0 on stream 0.
abbrev pub control_message : ℕ → List ℕ → Message
control_message type_id payload = record {
  type_id = type_id;
  timestamp = 0;
  stream_id = 0;
  payload = payload;
}

-- The message that a chunk carries.
unfoldable pub message_of : Chunk → Message
message_of chunk = record {
  type_id = chunk.header.message_type_id;
  timestamp = chunk.header.timestamp;
  stream_id = chunk.header.message_stream_id;
  payload = chunk.payload;
}

pub data SessionError : Type 0 where
  handshake_not_complete : SessionError
  malformed_chunk : HeaderError → SessionError

-- `grow` and `memory` are what the buffer takes of the standard library.
module _ (grow : ℕ → ℕ → ℕ) (memory : ℕ) where
  -- encode_chunk and the append to the write buffer.
  unfoldable pub write_chunk : ChunkHeader → List ℕ → Session → Option Session
  write_chunk header payload s = do
    chunk_data ← encode_chunk header payload s.out_chunk_size
    buffer ← append grow memory chunk_data s.write_buffer
    some (record s { write_buffer = buffer })

  unfoldable pub send_message : Message → Session → Option Session
  send_message msg s = write_chunk (header_of msg) msg.payload s

  unfoldable pub send_set_chunk_size : ℕ → Session → Option Session
  send_set_chunk_size size s = do
    s' ←
        send_message
          (control_message (type_number set_chunk_size)
            (encode_set_chunk_size (record { chunk_size = size })))
          s
    some (record s' { out_chunk_size = size })

  unfoldable pub send_window_ack_size : ℕ → Session → Option Session
  send_window_ack_size size s =
      send_message
        (control_message (type_number window_ack_size)
          (encode_window_ack_size (record { window_size = size })))
        s

  unfoldable pub send_set_peer_bandwidth : ℕ → ℕ → Session → Option Session
  send_set_peer_bandwidth size limit_type s =
      send_message
        (control_message (type_number set_peer_bandwidth)
          (encode_set_peer_bandwidth (record { window_size = size; limit_type = limit_type })))
        s

  unfoldable pub send_command : CommandMessage → ℕ → Session → Option Session
  send_command cmd chunk_stream_id s =
      let payload = encode_command cmd in
      write_chunk
        (record {
          fmt = 0;
          chunk_stream_id = chunk_stream_id;
          timestamp = 0;
          message_length = low_bits (length payload) 32;
          message_type_id = type_number command_amf0;
          message_stream_id = 0;
          has_extended_timestamp = false;
        })
        payload s

unfoldable pub get_outgoing_data : Session → List ℕ × Session
get_outgoing_data s = (readable s.write_buffer, record s { write_buffer = clear s.write_buffer })

unfoldable pub generate_server_handshake_response :
    (ℕ → ℕ) → List ℕ → Session → Option (List ℕ × Session)
generate_server_handshake_response random c1 s = do
  (response, handshake) ← generate_s0_s1_s2 random c1 s.handshake
  some (response, record s { handshake = handshake })

unfoldable pub generate_client_handshake : (ℕ → ℕ) → Session → List ℕ × Session
generate_client_handshake random s =
    let (data', handshake) = generate_c0_c1 random s.handshake in
    (data', record s { handshake = handshake })

-- A SetChunkSize message sets the size of the parser again, without the parser's checks.
unfoldable pub apply_chunk_size : Message → Session → Session
apply_chunk_size msg s =
    if msg.type_id == type_number set_chunk_size
    then elim (parse_set_chunk_size msg.payload) [
      | none ↦ s
      | some parsed ↦ record s { parser = set_parser_chunk_size parsed.chunk_size s.parser }
    ]
    else s

-- message_callback_: it may use the session, and the rest of the program's state `W`.
module _ {W : Type 0} (message_callback : Message → Session × W → Option (Session × W)) where
  -- The loop over the parsed chunks.
  unfoldable pub deliver : List Chunk → Session × W → Option (Session × W)
  deliver [] world = some world
  deliver (chunk ∷ chunks) (s, w) = do
    world ← message_callback (message_of chunk) (apply_chunk_size (message_of chunk) s, w)
    deliver chunks world

  unfoldable pub process_input :
      List ℕ → Session × W → Option (Result SessionError ℕ × (Session × W))
  process_input data' (s, w) =
      let r = parse s.parser data' in
      let parsed = record s { parser = r.parser } in
      if is_done s.handshake.state
      then elim r.result [
        | err e ↦ some (err (malformed_chunk e), (parsed, w))
        | ok chunks ↦ (do world ← deliver chunks (parsed, w); some (ok r.consumed, world))
      ]
      else some (err handshake_not_complete, (s, w))
