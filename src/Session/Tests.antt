-- ===== src/Session/Tests.antt =====
-- The theorem on sessions at a concrete input, and a run of process_input.
use rtmp_abr_transcoder.Base.{ℕ, max, ◌*◌, ◌≡◌, refl, [], ◌∷◌, some, ok, arith, inl, length}
use rtmp_abr_transcoder.Messages.Control.{Message}
use rtmp_abr_transcoder.Handshake.{new_handshake, done}
use rtmp_abr_transcoder.Buffer.{new_buffer, readable}
use rtmp_abr_transcoder.Chunks.Parse.{new_parser}
use rtmp_abr_transcoder.Session.{
  Session, new_session, apply_chunk_size, process_input, get_outgoing_data,
}
use rtmp_abr_transcoder.Session.Transfer.{
  IsTransferable, IsReady, IsListening, record_message, send_all, transfer,
}

abbrev doubled : ℕ → ℕ → ℕ
doubled capacity n = max (2 * capacity) n

abbrev listening : Session
listening = record new_session { handshake = record new_handshake { state = done } }

-- A video frame and an audio frame.
abbrev frame : Message
frame = record { type_id = 9; timestamp = 40; stream_id = 1; payload = 0x17 ∷ 1 ∷ 2 ∷ [] }

abbrev sound : Message
sound = record { type_id = 8; timestamp = 45; stream_id = 1; payload = 0xaf ∷ 7 ∷ [] }

frame-IsTransferable : IsTransferable 128 frame
frame-IsTransferable = record {
  plain = λ e. absurd (omega arith);
  some_payload = λ e. cc;
  payload_fits = omega arith;
  timestamp_fits = omega arith;
  stream_fits = omega arith;
  short = inl refl;
}

sound-IsTransferable : IsTransferable 128 sound
sound-IsTransferable = record {
  plain = λ e. absurd (omega arith);
  some_payload = λ e. cc;
  payload_fits = omega arith;
  timestamp_fits = omega arith;
  stream_fits = omega arith;
  short = inl refl;
}

new_session-IsReady : IsReady new_session
unfolding new_session new_buffer
new_session-IsReady = record {
  valid = record { ordered = omega arith; within = omega arith; allocated = omega arith };
  unread = refl;
  chunk_size_pos = omega arith;
}

listening-IsListening : IsListening listening
unfolding new_session new_parser
listening-IsListening = record { established = refl; no_bytes = refl; idle = λ csid. refl }

transfer_example :
    (sender' receiver' : Session) × (send_all doubled 0 (frame ∷ sound ∷ []) new_session
      ≡ some sender')
    × (let bytes = (get_outgoing_data sender').0 in
        process_input record_message bytes (listening, [])
        ≡ some (ok (length bytes), (receiver', frame ∷ sound ∷ [])))
unfolding new_session new_buffer new_parser readable
transfer_example =
    transfer doubled 0 new_session listening (frame ∷ sound ∷ []) new_session-IsReady refl
      listening-IsListening refl (frame-IsTransferable, (sound-IsTransferable, tt))

-- A SetChunkSize message with the size 0, which the parser refuses, takes effect in the session.
zero_chunk_size_runs :
    (apply_chunk_size
      (record { type_id = 1; timestamp = 0; stream_id = 0; payload = 0 ∷ 0 ∷ 0 ∷ 0 ∷ [] })
      listening).parser.chunk_size
    ≡ 0
unfolding apply_chunk_size rtmp_abr_transcoder.Messages.Control.parse_set_chunk_size
    rtmp_abr_transcoder.Bytes.read_u32_be rtmp_abr_transcoder.Chunks.Parse.set_parser_chunk_size
zero_chunk_size_runs = refl
