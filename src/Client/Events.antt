-- ===== src/Client/Events.antt =====
-- src/rtmp/rtmp_client.cpp: the callback that connect() registers with the event loop, the handlers
-- that it calls, cleanup() and disconnect().
use rtmp_abr_transcoder.Base.{
  ℕ, Bool, true, false, List, [], ◌++◌, Option, none, some, Result, ok, err, ltb, leb, ◌==◌,
  if◌then◌else◌, length, drop,
}
use rtmp_abr_transcoder.Base.Options.{◌>>=◌}
use rtmp_abr_transcoder.Messages.Control.{Message}
use rtmp_abr_transcoder.Handshake.{Handshake, HandshakeError, generate_c2, process_server_handshake}
use rtmp_abr_transcoder.Session.{Session, SessionError, process_input}
use rtmp_abr_transcoder.Net.Socket.{SysResult, is_valid, read, write}
use rtmp_abr_transcoder.Client.{RtmpClient, in_only, take_outgoing, close_connection}

-- The three callbacks of a client, which may use the client and the rest of the program's state
-- `W`. One that is not set does nothing. They do not call connect() on the client.
pub record Callbacks (W : Type 0) : Type 0 where
  pub on_connected : RtmpClient × W → Option (RtmpClient × W)
  pub on_message : Message → RtmpClient × W → Option (RtmpClient × W)
  pub on_disconnected : RtmpClient × W → Option (RtmpClient × W)

-- The branch of EPOLLOUT in which the handshake was not sent yet.
unfoldable pub send_handshake : SysResult ℕ → RtmpClient → RtmpClient
send_handshake r c =
    let (res, socket) = write r c.handshake_data c.socket in
    let c' = record c { socket = socket } in
    elim res [
      | err e ↦ c'
      | ok n ↦
          if n == length c.handshake_data
          then record c' { connecting = false; interest = in_only }
          else c'
    ]

-- The end of process_buffered_data: the consumed bytes leave the buffer.
unfoldable pub erase_consumed : Result SessionError ℕ → RtmpClient → RtmpClient
erase_consumed (ok n) c =
    if leb n (length c.read_buffer)
    then record c { read_buffer = drop n c.read_buffer }
    else record c { read_buffer = [] }
erase_consumed (err e) c = c

-- What the system answers to the calls that an event may make: the read, the write of handle_writable
-- or of the handshake, and the write of the echo.
pub record EventCalls : Type 0 where
  pub reads : SysResult (List ℕ)
  pub writes : SysResult ℕ
  pub replies : SysResult ℕ

-- The bits of an event: EPOLLOUT, EPOLLIN, and EPOLLERR or EPOLLHUP.
pub record Event : Type 0 where
  pub writable : Bool
  pub readable : Bool
  pub broken : Bool

module _ {W : Type 0} (callbacks : Callbacks W) where
  unfoldable pub cleanup : RtmpClient × W → Option (RtmpClient × W)
  cleanup (c, w) = callbacks.on_disconnected (close_connection c, w)

  unfoldable pub disconnect : RtmpClient × W → Option (RtmpClient × W)
  disconnect (c, w) = if is_valid c.socket then cleanup (c, w) else some (c, w)

  -- The branches behind the write of handle_writable.
  unfoldable pub write_buffered : SysResult ℕ → RtmpClient × W → Option (RtmpClient × W)
  write_buffered r (c, w) =
      let (res, socket) = write r c.write_buffer c.socket in
      let c' = record c { socket = socket } in
      elim res [
        | err e ↦ cleanup (c', w)
        | ok n ↦
            if ltb n (length c.write_buffer)
            then some (record c' { write_buffer = drop n c.write_buffer }, w)
            else some (record c' { write_buffer = []; interest = in_only }, w)
      ]

  unfoldable pub handle_writable : SysResult ℕ → RtmpClient × W → Option (RtmpClient × W)
  handle_writable r (c, w) =
      let c' = take_outgoing c in
      if length c'.write_buffer == 0
      then some (record c' { interest = in_only }, w)
      else write_buffered r (c', w)

  -- The callback of the session while it is inside process_input.
  unfoldable pub session_callback :
      Message → Session × (RtmpClient × W) → Option (Session × (RtmpClient × W))
  session_callback msg (s, (c, w)) = do
    (c', w') ← callbacks.on_message msg (record c { session = some s }, w)
    elim c'.session [ none ↦ none | some s' ↦ some (s', (c', w')) ]

  unfoldable pub process_buffered_data : RtmpClient × W → Option (RtmpClient × W)
  process_buffered_data (c, w) = if length c.read_buffer == 0 then some (c, w) else elim c.session [
    | none ↦ none
    | some s ↦ (do
      (res, (s', (c', w'))) ← process_input session_callback c.read_buffer (s, (c, w))
      some (erase_consumed res (record c' { session = some s' }), w'))
  ]

  -- The branches behind the write of the echo.
  unfoldable pub send_c2 : SysResult ℕ → List ℕ → RtmpClient × W → Option (RtmpClient × W)
  send_c2 reply c2 (c, w) =
      let (res, socket) = write reply c2 c.socket in
      elim res [
        | err e ↦ cleanup (c, w)
        | ok n ↦ (do
          world ← callbacks.on_connected (record c { socket = socket }, w)
          process_buffered_data world)
      ]

  -- The branch in which the server's part of the handshake is complete.
  unfoldable pub finish_handshake :
      SysResult ℕ → ℕ → Session → Handshake → RtmpClient × W → Option (RtmpClient × W)
  finish_handshake reply consumed s h (c, w) = do
    (c2, h') ← generate_c2 h.s1_data h
    send_c2 reply c2 (
      record c {
        read_buffer = drop consumed c.read_buffer;
        connected = true;
        session = some (record s { handshake = h' });
      },
      w,
    )

  -- What follows the call of process_server_handshake.
  unfoldable pub after_handshake :
      SysResult ℕ
      → Session
      → Result HandshakeError ℕ × Handshake
      → RtmpClient × W
      → Option (RtmpClient × W)
  after_handshake reply s (err e, h) (c, w) =
      some (record c { session = some (record s { handshake = h }) }, w)
  after_handshake reply s (ok n, h) (c, w) = finish_handshake reply n s h (c, w)

  -- The branch in which connected_ is false.
  unfoldable pub receive_handshake : SysResult ℕ → RtmpClient × W → Option (RtmpClient × W)
  receive_handshake reply (c, w) = elim c.session [
    | none ↦ none
    | some s ↦ after_handshake reply s (process_server_handshake c.read_buffer s.handshake) (c, w)
  ]

  unfoldable pub handle_readable :
      SysResult (List ℕ) → SysResult ℕ → RtmpClient × W → Option (RtmpClient × W)
  handle_readable r reply (c, w) = elim (read r) [
    | err e ↦ cleanup (c, w)
    | ok bytes ↦
        let c' = record c { read_buffer = c.read_buffer ++ bytes } in
        if length bytes == 0
        then cleanup (c, w)
        else if c.connected
        then process_buffered_data (c', w)
        else receive_handshake reply (c', w)
  ]

  -- The three parts of the callback, one for each test of the events.
  unfoldable pub on_writable : SysResult ℕ → RtmpClient × W → Option (RtmpClient × W)
  on_writable r (c, w) =
      if c.connecting then some (send_handshake r c, w) else handle_writable r (c, w)

  unfoldable pub on_event : Event → EventCalls → RtmpClient × W → Option (RtmpClient × W)
  on_event event calls world = do
    world' ← (if event.writable then on_writable calls.writes world else some world)
    world'' ←
        (if event.readable then handle_readable calls.reads calls.replies world' else some world')
    if event.broken then cleanup world'' else some world''
