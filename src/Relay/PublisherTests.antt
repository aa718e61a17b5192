-- ===== src/Relay/PublisherTests.antt =====
-- The theorem on publishers at a concrete input.
use rtmp_abr_transcoder.Base.{
  ◌++◌, replicate, length, ◌≢◌, ℕ, max, ◌*◌, ◌≡◌, refl, true, false, List, [], ◌∷◌, some, arith,
}
use rtmp_abr_transcoder.Messages.Control.{Message}
use rtmp_abr_transcoder.Amf0.Members.{IsWire}
use rtmp_abr_transcoder.Amf0.Value.{
  Value, null, string, object, field, no_fields, lookup, compare_keys,
}
use rtmp_abr_transcoder.Buffer.{new_buffer, readable}
use rtmp_abr_transcoder.Net.Socket.{returned, would_block, failed, new_socket}
use rtmp_abr_transcoder.Session.{new_session}
use rtmp_abr_transcoder.Relay.Texts.{app_key}
use rtmp_abr_transcoder.Relay.Types.{StreamId}
use rtmp_abr_transcoder.Relay.Publisher.{
  Publisher, Answers, create_pusher, connect_response, create_stream_response, publish_response,
}
use rtmp_abr_transcoder.Relay.Answers.{IsQuiet, command_bytes}
use rtmp_abr_transcoder.Handshake.{random_block, done}
use rtmp_abr_transcoder.Relay.Reading.{continues, on_read}
use rtmp_abr_transcoder.Relay.ProtocolMessages.{protocol_bytes}
use rtmp_abr_transcoder.Relay.Greeting.{beginning, greeted, greeting-answered}
use rtmp_abr_transcoder.Relay.Handshaking.{
  connect_request, create_stream_request, publish_request, command_message, handle_all,
  publisher-ready,
}

abbrev doubled : ℕ → ℕ → ℕ
doubled capacity n = max (2 * capacity) n

abbrev visitor : Publisher
visitor = record {
  session = new_session;
  stream_id = record { app = []; stream = [] };
  ready = false;
  stats = record {
    audio_messages = 0;
    video_messages = 0;
    data_messages = 0;
    audio_bytes = 0;
    video_bytes = 0;
    keyframes = 0;
    start_time = 0;
  };
  last_stats_log = 0;
  written = [];
  socket = new_socket (some 7);
}

visitor-IsQuiet : IsQuiet visitor
unfolding new_session new_buffer readable
visitor-IsQuiet = record {
  ready = record {
    valid = record { ordered = omega arith; within = omega arith; allocated = omega arith };
    unread = refl;
    chunk_size_pos = omega arith;
  };
  flushed = refl;
}

-- { "app": "x" }.
abbrev named_app : List Value
named_app = object (field app_key (string (120 ∷ [])) no_fields) ∷ []

-- The system takes each write whole.
abbrev whole : Answers
whole before data' = returned (length data')

publisher-ready_example :
    let requests : List Message =
      command_message (connect_request 1 named_app)
      ∷ command_message (create_stream_request 2 (null ∷ []))
      ∷ command_message (publish_request 3 (121 ∷ []) [])
      ∷ [] in
    let id : StreamId = record { app = 120 ∷ []; stream = 121 ∷ [] } in
    (p' : Publisher) × (handle_all doubled 0 whole false 5 requests visitor
      ≡ some (p', create_pusher id ∷ []))
    × (p'.ready ≡ true)
    × (p'.stream_id ≡ id)
    × (p'.written
        ≡ command_bytes 128 (connect_response 1)
          ∷ command_bytes 128 (create_stream_response 2)
          ∷ command_bytes 128 publish_response
          ∷ [])
    × (p'.socket.written
        ≡ command_bytes 128 (connect_response 1)
          ++ (command_bytes 128 (create_stream_response 2) ++ command_bytes 128 publish_response))
    × IsQuiet p'
unfolding new_session lookup compare_keys IsWire
publisher-ready_example =
    publisher-ready doubled 0 whole false 5 visitor 1 2 3 named_app (null ∷ []) [] (121 ∷ [])
      (λ before data'. refl) visitor-IsQuiet
      (record {
        name_fits = omega arith;
        transaction_fits = omega arith;
        arguments_fit = ((omega arith, tt, omega arith, tt), tt);
      })
      (record { name_fits = omega arith; transaction_fits = omega arith; arguments_fit = (tt, tt) })
      (record {
        name_fits = omega arith;
        transaction_fits = omega arith;
        arguments_fit = (tt, (omega arith, tt));
      })

-- The system takes no byte of any write.
abbrev blocked : Answers
blocked before data' = would_block

abbrev fives : ℕ → ℕ
fives i = 5

no_failure : (before : List (List ℕ)) (data' : List ℕ) → blocked before data' ≢ failed
no_failure before data' e = ground arith

greeting-answered_example :
    let c1 : List ℕ = replicate 1536 7 in
    let c2 : List ℕ = replicate 1536 5 in
    (p' : Publisher) × (on_read doubled 0 false 5 fives blocked (3 ∷ c1) (beginning visitor)
      ≡ some (continues (greeted fives blocked c1 visitor) []))
    × (on_read doubled 0 false 5 fives blocked c2 (greeted fives blocked c1 visitor)
        ≡ some (continues p' []))
    × (p'.session.handshake.state ≡ done)
    × (p'.written
        ≡ visitor.written
          ++ ((3 ∷ (random_block fives ++ c1))
              ∷ protocol_bytes visitor.session.out_chunk_size
              ∷ []))
    × (p'.session.out_chunk_size ≡ 4096)
    × IsQuiet p'
greeting-answered_example =
    greeting-answered doubled 0 false 5 fives blocked no_failure (replicate 1536 7)
      (replicate 1536 5) visitor refl refl visitor-IsQuiet
