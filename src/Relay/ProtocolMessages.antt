-- ===== src/Relay/ProtocolMessages.antt =====
-- The protocol messages that follow a publisher's handshake.
use rtmp_abr_transcoder.Base.{
  ℕ, ◌≡◌, ◌≢◌, ap, refl, ◌∙◌, Bool, true, false, List, [], ◌∷◌, ◌++◌, Option, some, arith, ◌==◌,
  length, append_assoc,
}
use rtmp_abr_transcoder.Bytes.{write_u32_be}
use rtmp_abr_transcoder.Messages.Control.{
  Message, type_number, set_chunk_size, window_ack_size, set_peer_bandwidth, encode_window_ack_size,
  encode_set_peer_bandwidth, encode_set_chunk_size,
}
use rtmp_abr_transcoder.Chunks.Encode.{chunk_prefix, basic_header}
use rtmp_abr_transcoder.Chunks.Frames.{frames}
use rtmp_abr_transcoder.Buffer.{readable, clear}
use rtmp_abr_transcoder.Session.{
  Session, is_done, control_message, header_of, chunk_stream_of, send_message, send_window_ack_size,
  send_set_peer_bandwidth, send_set_chunk_size, get_outgoing_data,
}
use rtmp_abr_transcoder.Session.Transfer.{IsReady, write_chunk-Wrote}
use rtmp_abr_transcoder.Net.Socket.{SysResult, returned, would_block, failed, Socket, write}
use rtmp_abr_transcoder.Relay.Publisher.{Publisher, Answers, write_socket}
use rtmp_abr_transcoder.Relay.Answers.{IsQuiet, clear-readable, clear-IsBuffer}
use rtmp_abr_transcoder.Relay.Reading.{checked, send_protocol_messages}

-- The three protocol messages.
abbrev window_message : Message
window_message =
    control_message (type_number window_ack_size)
      (encode_window_ack_size (record { window_size = 2500000 }))

abbrev bandwidth_message : Message
bandwidth_message =
    control_message (type_number set_peer_bandwidth)
      (encode_set_peer_bandwidth (record { window_size = 2500000; limit_type = 2 }))

abbrev chunk_size_message : Message
chunk_size_message =
    control_message (type_number set_chunk_size)
      (encode_set_chunk_size (record { chunk_size = 4096 }))

abbrev message_bytes : ℕ → Message → List ℕ
message_bytes chunk_size msg =
    frames (length msg.payload) (header_of msg) chunk_size true msg.payload

-- The bytes of the three at a chunk size.
abbrev pub protocol_bytes : ℕ → List ℕ
protocol_bytes n =
    message_bytes n window_message
    ++ (message_bytes n bandwidth_message ++ message_bytes n chunk_size_message)

protocol_bytes_pos : (n : ℕ) → (length (protocol_bytes n) == 0) ≡ false
unfolding frames chunk_prefix basic_header header_of chunk_stream_of encode_window_ack_size
    write_u32_be
protocol_bytes_pos n = ground arith

write-checked :
    (r : SysResult ℕ) (data' : List ℕ) (socket : Socket) (after : Socket → Publisher)
    → r ≢ failed
    → checked ((write r data' socket).0, after (write r data' socket).1)
      ≡ some (after (write r data' socket).1)
unfolding write
write-checked (returned n) data' socket after h = refl
write-checked would_block data' socket after h = refl
write-checked failed data' socket after h = absurd (h refl)

-- A write that does not fail leaves the publisher.
pub checked-write :
    (answers : Answers) (data' : List ℕ) (p : Publisher)
    → answers p.written data' ≢ failed
    → checked (write_socket answers data' p) ≡ some (write_socket answers data' p).1
checked-write answers data' p h =
    write-checked (answers p.written data') data' p.socket
      (λ socket. record p { socket = socket; written = p.written ++ (data' ∷ []) }) h

module _ (grow : ℕ → ℕ → ℕ) (memory : ℕ) (has_transcoder : Bool) (now : ℕ) (random : ℕ → ℕ)
    (answers : Answers)
    (writes : (before : List (List ℕ)) (data' : List ℕ) → answers before data' ≢ failed) where
  -- The protocol messages of a session that can send.
  pub record Protocol (p : Publisher) (r : Option (Option Publisher)) : Type 0 where
    pub session : Session
    pub defined :
        r
        ≡ some (
            some
              (write_socket answers
                (protocol_bytes p.session.out_chunk_size)
                (record p { session = session })).1)
    pub same_handshake : session.handshake ≡ p.session.handshake
    pub ready : IsReady session
    pub flushed : readable session.write_buffer ≡ []
    pub new_size : session.out_chunk_size ≡ 4096

  pub send_protocol_messages-Protocol :
      (p : Publisher)
      → IsQuiet p
      → is_done p.session.handshake.state ≡ true
      → Protocol p (send_protocol_messages grow memory has_transcoder now random answers p)
  unfolding send_protocol_messages send_window_ack_size send_set_peer_bandwidth send_set_chunk_size
      send_message get_outgoing_data
  send_protocol_messages-Protocol p q is_over =
      let s = p.session in
      let n = s.out_chunk_size in
      let w1 =
        write_chunk-Wrote grow memory (header_of window_message) window_message.payload s q.ready in
      let w2 =
        write_chunk-Wrote grow memory (header_of bandwidth_message) bandwidth_message.payload
          w1.after w1.ready in
      let w3 =
        write_chunk-Wrote grow memory (header_of chunk_size_message) chunk_size_message.payload
          w2.after w2.ready in
      let size2 : w2.after.out_chunk_size ≡ n = w2.same_size ∙ w1.same_size in
      let contents : readable w3.after.write_buffer ≡ protocol_bytes n =
        rw (size2, w2.contents, w1.same_size, w1.contents, q.flushed) at w3.contents
        ∙ append_assoc (message_bytes n window_message) (message_bytes n bandwidth_message)
            (message_bytes n chunk_size_message) in
      record {
        session = record w3.after {
          out_chunk_size = 4096;
          write_buffer = clear w3.after.write_buffer;
        };
        defined =
            rw (is_over, w1.defined, w2.defined, w3.defined)
              (rw (contents, protocol_bytes_pos n)
                (ap (λ (o : Option Publisher). some o)
                  (checked-write answers (protocol_bytes n) _
                    (writes p.written (protocol_bytes n)))));
        same_handshake = w3.same_handshake ∙ w2.same_handshake ∙ w1.same_handshake;
        ready = record {
          valid = clear-IsBuffer w3.after.write_buffer w3.ready.valid.allocated;
          unread = unfold clear in refl;
          chunk_size_pos = omega arith;
        };
        flushed = clear-readable w3.after.write_buffer;
        new_size = refl;
      }
