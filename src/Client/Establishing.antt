-- ===== src/Client/Establishing.antt =====
-- A client from connect() to the callback that tells of the connection.
use rtmp_abr_transcoder.Base.{
  ℕ, suc, ◌<◌, ◌≡◌, refl, sym, ap, ◌∙◌, true, false, List, [], ◌∷◌, ◌++◌, some, Result, ok, arith,
  length, le→ltb, length-append, append_assoc, take_all, take-append, drop-append, ==_iff,
}
use rtmp_abr_transcoder.Base.Options.{◌>>=◌}
use rtmp_abr_transcoder.Chunks.RoundTrip.{All}
use rtmp_abr_transcoder.Handshake.{
  Handshake, HandshakeError, done, c0c1_sent, new_handshake, random_block, generate_c0_c1,
  receive_s0_s1_s2, process_server_handshake, generate_c2,
}
use rtmp_abr_transcoder.Handshake.Protocol.{length-random_block}
use rtmp_abr_transcoder.Session.{Session, new_session, generate_client_handshake, get_outgoing_data}
use rtmp_abr_transcoder.Net.Socket.{
  returned, in_progress, failed, write, close, set_nonblocking, connect_socket,
}
use rtmp_abr_transcoder.Client.{
  RtmpClient, ConnectCalls, new_client, open_socket, register, connect, in_only,
}
use rtmp_abr_transcoder.Client.Events.{
  Callbacks, Event, EventCalls, on_event, on_writable, send_handshake, after_handshake,
  finish_handshake, send_c2, receive_handshake, process_buffered_data,
}
use rtmp_abr_transcoder.Client.Fragments.{
  waiting, joined, IsRead, receive_all, receive_all-joined, handle_readable-waiting,
}

process-blocks :
    (s1 s2 rest : List ℕ) (h : Handshake)
    → length s1 ≡ 1536
    → length s2 ≡ 1536
    → process_server_handshake (3 ∷ ((s1 ++ s2) ++ rest)) (record h { state = c0c1_sent })
      ≡ (ok 3073, record h { s1_data = s1; state = done })
unfolding process_server_handshake receive_s0_s1_s2
process-blocks s1 s2 rest h e e' =
    rw
      (
        le→ltb (suc (length ((s1 ++ s2) ++ rest))) 3073
            (omega (arith, length-append (s1 ++ s2) rest, length-append s1 s2)),
        append_assoc s1 s2 rest,
        take-append 1536 s1 (s2 ++ rest) (sym e),
      )
      refl

generate_c2-block :
    (s1 : List ℕ) (h : Handshake)
    → length s1 ≡ 1536
    → generate_c2 s1 h ≡ some (s1, record h { state = done })
unfolding generate_c2
generate_c2-block s1 h e =
    rw (le→ltb (length s1) 1536 (omega arith), take_all 1536 s1 (omega arith)) refl

-- All calls of connect() succeed, on the descriptor `fd`.
abbrev pub succeeding : ℕ → ConnectCalls
succeeding fd = record {
  descriptor = some fd;
  get_flags = returned 0;
  set_flags = returned 0;
  address = some 0;
  connection = in_progress;
  added = true;
}

abbrev pub output_event : Event
output_event = record { writable = true; readable = false; broken = false }

-- The system takes `n` bytes.
abbrev pub takes : ℕ → EventCalls
takes n = record { reads = failed; writes = returned n; replies = failed }

-- A client that has completed the handshake with `c1` against `s1`, and still holds `rest`.
pub record IsConnected (c1 s1 rest : List ℕ) (c : RtmpClient) : Type 0 where
  pub connected : c.connected ≡ true
  pub unread : c.read_buffer ≡ rest
  pub written : c.socket.written ≡ (3 ∷ c1) ++ s1
  pub quiet : c.interest ≡ in_only
  pub session : Session
  pub present : c.session ≡ some session
  pub established : session.handshake.state ≡ done
  pub own_block : session.handshake.c1_data ≡ c1
  pub server_block : session.handshake.s1_data ≡ s1

-- The state of a client whose the greeting are written.
greeting : Session
greeting = (get_outgoing_data new_session).1

own_handshake : (ℕ → ℕ) → Handshake
own_handshake random = record new_handshake { c1_data = random_block random }

greeted : (ℕ → ℕ) → ℕ → RtmpClient
greeted random fd = record new_client {
  socket = record { fd = some fd; written = 3 ∷ random_block random };
  interest = in_only;
  handshake_data = 3 ∷ random_block random;
}

module _ {W : Type 0} (callbacks : Callbacks W) where
  handle-blocks :
      (c : RtmpClient) (s : Session) (h : Handshake) (s1 s2 rest : List ℕ) (w : W)
      → length s1 ≡ 1536
      → length s2 ≡ 1536
      → receive_handshake callbacks (returned 1536) (waiting c s h (3 ∷ ((s1 ++ s2) ++ rest)), w)
        ≡ (do
          world ← callbacks.on_connected (
            record c {
              session = some (record s { handshake = record h { s1_data = s1; state = done } });
              connected = true;
              read_buffer = rest;
              socket = record c.socket { written = c.socket.written ++ s1 };
            },
            w,
          )
          process_buffered_data callbacks world)
  unfolding receive_handshake after_handshake finish_handshake send_c2 generate_c2 write
  handle-blocks c s h s1 s2 rest w e e' =
      ap
        (λ (r : Result HandshakeError ℕ × Handshake).
          after_handshake callbacks (returned 1536)
            (record s { handshake = record h { state = c0c1_sent } }) r
            (waiting c s h (3 ∷ ((s1 ++ s2) ++ rest)), w))
        (process-blocks s1 s2 rest h e e')
      ∙ rw
          (
            generate_c2-block s1 (record h { s1_data = s1; state = done }) e,
            take_all 1536 s1 (omega (arith, e)),
            drop-append 3072 (s1 ++ s2) rest (omega (arith, length-append s1 s2)),
          )
          refl

  connect-waiting :
      (random : ℕ → ℕ) (fd : ℕ) (w : W)
      → ((connect random (succeeding fd) new_client).0 ≡ ok tt)
        × (on_event callbacks output_event
              (takes 1537)
              ((connect random (succeeding fd) new_client).1, w)
            ≡ some (waiting (greeted random fd) greeting (own_handshake random) [], w))
  unfolding connect open_socket register generate_client_handshake generate_c0_c1 get_outgoing_data
      new_client set_nonblocking connect_socket close on_event on_writable send_handshake write
      greeted greeting own_handshake new_session
  connect-waiting random fd w =
      let size = length-random_block random in
      (
        refl,
        rw
            (
              (==_iff 1537 (suc (length (random_block random)))).1 (omega (arith, size)),
              take_all 1536 (random_block random) (omega (arith, size)),
            )
            refl,
      )

  -- A new client whose calls of the system succeed, whose greeting is written whole, and that
  -- reads the answer of a server with any bytes behind it, cut in any way before its end, tells
  -- its user of the connection: it is connected, it has written its greeting and the echo of the
  -- server's block and nothing else, it holds both blocks and the bytes behind the answer, and it
  -- waits for input only. It goes on with these bytes after the callback. Both blocks of the
  -- server have 1536 bytes, and no read is empty.
  pub connect-IsConnected :
      (random : ℕ → ℕ) (fd : ℕ) (s1 s2 rest : List ℕ) (w : W)
      → (reads : List (List ℕ)) (final : List ℕ) → length s1 ≡ 1536
      → length s2 ≡ 1536
      → All IsRead reads
      → IsRead final
      → length (joined reads) < 3073
      → joined reads ++ final ≡ 3 ∷ ((s1 ++ s2) ++ rest)
      → let (r, started) = connect random (succeeding fd) new_client in
        (c c' : RtmpClient) × (r ≡ ok tt)
        × (on_event callbacks output_event (takes 1537) (started, w) ≡ some (c, w))
        × (receive_all callbacks (returned 1536) (reads ++ (final ∷ [])) (c, w)
            ≡ (do world ← callbacks.on_connected (c', w); process_buffered_data callbacks world))
        × IsConnected (random_block random) s1 rest c'
  unfolding greeted own_handshake new_client
  connect-IsConnected random fd s1 s2 rest w reads final e e' all f short whole =
      let c = greeted random fd in
      let s = greeting in
      let h = own_handshake random in
      let (started, greets) = connect-waiting random fd w in
      (
        waiting c s h [],
        _,
        started,
        greets,
        receive_all-joined callbacks (returned 1536) c s h [] w reads final all f short
            ∙ handle_readable-waiting callbacks (returned 1536) c s h [] (joined reads ++ final) w
                (omega (arith, f, length-append (joined reads) final))
            ∙ ap
                (λ (xs : List ℕ). receive_handshake callbacks (returned 1536) (waiting c s h xs, w))
                whole
            ∙ handle-blocks c s h s1 s2 rest w e e',
        record {
          connected = refl;
          unread = refl;
          written = refl;
          quiet = refl;
          session = _;
          present = refl;
          established = refl;
          own_block = refl;
          server_block = refl;
        },
      )
