-- ===== src/Client/Tests.antt =====
-- The theorems on clients at concrete inputs, and runs of the handlers.
use rtmp_abr_transcoder.Base.{
  ℕ, suc, max, ◌*◌, ◌≡◌, refl, true, false, List, [], ◌∷◌, ◌++◌, none, some, ok, arith, replicate,
}
use rtmp_abr_transcoder.Base.Options.{◌>>=◌}
use rtmp_abr_transcoder.Messages.Control.{Message}
use rtmp_abr_transcoder.Handshake.{random_block}
use rtmp_abr_transcoder.Buffer.{new_buffer, readable}
use rtmp_abr_transcoder.Session.{new_session}
use rtmp_abr_transcoder.Net.Socket.{returned, failed, new_socket, close, read, write}
use rtmp_abr_transcoder.Client.{RtmpClient, new_client, connect, close_connection}
use rtmp_abr_transcoder.Client.Events.{
  Callbacks, on_event, send_handshake, handle_readable, process_buffered_data, cleanup,
}
use rtmp_abr_transcoder.Client.Stream.{stream, IsSending}
use rtmp_abr_transcoder.Client.Actions.{
  Action, sends, flushes, writable, all_bytes, perform_all, perform_all-stream,
}
use rtmp_abr_transcoder.Client.Drain.{Drained, writes, writes-drain}
use rtmp_abr_transcoder.Client.Fragments.{waiting, receive_all, receive_all-joined}
use rtmp_abr_transcoder.Client.Establishing.{
  succeeding, output_event, takes, IsConnected, connect-IsConnected,
}

abbrev pub doubled : ℕ → ℕ → ℕ
doubled capacity n = max (2 * capacity) n

-- Callbacks that count the disconnections.
abbrev counting : Callbacks ℕ
counting = record {
  on_connected = some;
  on_message = λ msg world. some world;
  on_disconnected = λ (c, n). some (c, suc n);
}

abbrev pub idle : RtmpClient
idle = record new_client {
  session = some new_session;
  connected = true;
  socket = new_socket (some 5);
  write_buffer = 1 ∷ 2 ∷ 3 ∷ [];
}

pub idle-IsSending : IsSending 128 idle
unfolding new_session new_buffer
idle-IsSending = record {
  session = new_session;
  present = refl;
  ready = record {
    valid = record { ordered = omega arith; within = omega arith; allocated = omega arith };
    unread = refl;
    chunk_size_pos = omega arith;
  };
  size = refl;
}

abbrev frame : Message
frame = record { type_id = 9; timestamp = 40; stream_id = 1; payload = 0x17 ∷ 1 ∷ 2 ∷ [] }

abbrev some_actions : List Action
some_actions = sends frame ∷ flushes (returned 2) ∷ writable none ∷ writable (some 4) ∷ []

perform_all-stream_example :
    (c' : RtmpClient) × (perform_all counting doubled 0 some_actions (idle, 0) ≡ some (c', 0))
    × (stream c' ≡ stream idle ++ all_bytes 128 some_actions)
perform_all-stream_example =
    perform_all-stream counting doubled 0 128 some_actions idle 0 idle-IsSending

writes-drain_example :
    (c' : RtmpClient) × (perform_all counting doubled 0 (writes (2 ∷ 1 ∷ [])) (idle, 0)
      ≡ some (c', 0))
    × (c'.socket.written ≡ stream idle)
    × Drained c'
unfolding new_session new_buffer readable new_client
writes-drain_example =
    writes-drain counting doubled 0 128 2 (1 ∷ []) idle 0 idle-IsSending (omega arith)

receive_all-joined_example :
    receive_all counting
      (returned 1536)
      ((3 ∷ []) ∷ (0 ∷ 0 ∷ []) ∷ (5 ∷ []) ∷ [])
      (waiting idle new_session new_session.handshake [], 0)
    ≡ handle_readable counting
        (returned (3 ∷ 0 ∷ 0 ∷ 5 ∷ []))
        (returned 1536)
        (waiting idle new_session new_session.handshake [], 0)
receive_all-joined_example =
    receive_all-joined counting (returned 1536) idle new_session new_session.handshake [] 0
      ((3 ∷ []) ∷ (0 ∷ 0 ∷ []) ∷ []) (5 ∷ []) (omega arith, (omega arith, tt)) (omega arith)
      (omega arith)

abbrev block : List ℕ
block = replicate 1536 7

connect-IsConnected_example :
    let (r, started) = connect (λ i. i) (succeeding 5) new_client in
    (c c' : RtmpClient) × (r ≡ ok tt)
    × (on_event counting output_event (takes 1537) (started, 0) ≡ some (c, 0))
    × (receive_all counting (returned 1536) ((3 ∷ []) ∷ ((block ++ block) ++ (2 ∷ [])) ∷ []) (c, 0)
        ≡ (do world ← some (c', 0); process_buffered_data counting world))
    × IsConnected (random_block (λ i. i)) block (2 ∷ []) c'
connect-IsConnected_example =
    connect-IsConnected counting (λ i. i) 5 block block (2 ∷ []) 0 ((3 ∷ []) ∷ [])
      ((block ++ block) ++ (2 ∷ [])) refl refl (omega arith, tt) (omega arith) (omega arith) refl

-- An event with EPOLLIN and EPOLLHUP tells of the disconnection twice.
disconnected_twice_runs :
    (c : RtmpClient) × (on_event counting
        (record { writable = false; readable = true; broken = true })
        (record { reads = failed; writes = failed; replies = failed })
        (idle, 0)
      ≡ some (c, 2))
unfolding on_event handle_readable cleanup close_connection close read new_client
disconnected_twice_runs = (_, refl)

-- A partial write of the handshake is followed by a write of the whole.
handshake_sent_again_runs :
    (let greeting : RtmpClient = record idle {
      connecting = true;
      handshake_data = 3 ∷ 0 ∷ 8 ∷ [];
    } in
      (send_handshake (returned 3) (send_handshake (returned 1) greeting)).socket.written)
    ≡ 3 ∷ 3 ∷ 0 ∷ 8 ∷ []
unfolding send_handshake write
handshake_sent_again_runs = refl
