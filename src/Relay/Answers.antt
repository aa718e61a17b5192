-- ===== src/Relay/Answers.antt =====
-- The answers of the relay to a publisher.
use rtmp_abr_transcoder.Base.{
  ℕ, ◌≤◌, ◌≡◌, refl, ap, ◌∙◌, true, false, List, [], ◌++◌, Option, some, arith, ◌==◌, length,
}
use rtmp_abr_transcoder.Base.Bits.{low_bits}
use rtmp_abr_transcoder.Messages.Control.{type_number, command_amf0}
use rtmp_abr_transcoder.Amf0.Codec.{encode_array, encode, encode_string}
use rtmp_abr_transcoder.Commands.{CommandMessage, encode_command}
use rtmp_abr_transcoder.Chunks.Encode.{chunk_prefix, basic_header}
use rtmp_abr_transcoder.Chunks.Frames.{frames}
use rtmp_abr_transcoder.Buffer.{Buffer, readable, clear}
use rtmp_abr_transcoder.Buffer.Refinement.{IsBuffer}
use rtmp_abr_transcoder.Session.{Session, send_command, get_outgoing_data}
use rtmp_abr_transcoder.Session.Transfer.{IsReady, write_chunk-Wrote}
use rtmp_abr_transcoder.Relay.Publisher.{
  Publisher, Answers, write_socket, flush_publisher_responses, respond,
}

-- Nothing waits in the write buffer, and the session can send.
pub record IsQuiet (p : Publisher) : Type 0 where
  pub ready : IsReady p.session
  pub flushed : readable p.session.write_buffer ≡ []

-- The bytes of a command on the chunk stream 3.
abbrev pub command_bytes : ℕ → CommandMessage → List ℕ
command_bytes chunk_size cmd =
    let payload = encode_command cmd in
    frames (length payload)
      (record {
        fmt = 0;
        chunk_stream_id = 3;
        timestamp = 0;
        message_length = low_bits (length payload) 32;
        message_type_id = type_number command_amf0;
        message_stream_id = 0;
        has_extended_timestamp = false;
      })
      chunk_size true payload

command_bytes_pos :
    (chunk_size : ℕ) (cmd : CommandMessage) → (length (command_bytes chunk_size cmd) == 0) ≡ false
unfolding frames chunk_prefix basic_header encode_command encode_array encode encode_string
command_bytes_pos chunk_size cmd = ground arith

pub clear-readable : (b : Buffer) → readable (clear b) ≡ []
unfolding readable clear
clear-readable b = refl

pub clear-IsBuffer : (b : Buffer) → b.size ≤ length b.storage → IsBuffer (clear b)
unfolding clear
clear-IsBuffer b h = record { ordered = omega arith; within = omega arith; allocated = h }

-- A publisher whose command was answered.
pub record Answered (answers : Answers) (cmd : CommandMessage) (p : Publisher)
    (r : Option Publisher) : Type 0 where
  pub session : Session
  pub defined :
      r
      ≡ some
          (write_socket answers
            (command_bytes p.session.out_chunk_size cmd)
            (record p { session = session })).1
  pub ready : IsReady session
  pub flushed : readable session.write_buffer ≡ []
  pub same_size : session.out_chunk_size ≡ p.session.out_chunk_size

module _ (grow : ℕ → ℕ → ℕ) (memory : ℕ) (answers : Answers) where
  pub respond-Answered :
      (cmd : CommandMessage) (p : Publisher)
      → IsQuiet p
      → Answered answers cmd p (respond grow memory answers cmd p)
  unfolding respond send_command flush_publisher_responses get_outgoing_data
  respond-Answered cmd p q =
      let payload = encode_command cmd in
      let w = write_chunk-Wrote grow memory _ payload p.session q.ready in
      let bytes = command_bytes p.session.out_chunk_size cmd in
      let contents : readable w.after.write_buffer ≡ bytes =
        w.contents ∙ ap (λ (xs : List ℕ). xs ++ bytes) q.flushed in
      record {
        session = record w.after { write_buffer = clear w.after.write_buffer };
        defined = rw (w.defined, contents, command_bytes_pos p.session.out_chunk_size cmd) refl;
        ready = record {
          valid = clear-IsBuffer w.after.write_buffer w.ready.valid.allocated;
          unread = unfold clear in refl;
          chunk_size_pos = w.ready.chunk_size_pos;
        };
        flushed = clear-readable w.after.write_buffer;
        same_size = w.same_size;
      }
