-- ===== src/Client.antt =====
-- include/rtmp/rtmp_client.hpp and src/rtmp/rtmp_client.cpp: the side that connects to a server.
-- The results of the system calls are arguments. Where the code follows a null pointer, reads out
-- of bounds or does not end, an operation is `none`.
pub mod Events
pub mod Stream
pub mod Writes
pub mod Sending
pub mod Actions
pub mod Drain
pub mod Fragments
pub mod Establishing
pub mod Safety
pub mod Delivery
pub mod Handlers
pub mod Operations
pub mod Running
pub mod Tests
use rtmp_abr_transcoder.Base.{
  ℕ, ◌+◌, Bool, true, false, not, ◌&&◌, ◌||◌, List, [], ◌∷◌, ◌++◌, Option, none, some, Result, ok,
  err, ltb, leb, ◌==◌, if◌then◌else◌, length, drop,
}
use rtmp_abr_transcoder.Base.Options.{◌>>=◌}
use rtmp_abr_transcoder.Messages.Control.{Message}
use rtmp_abr_transcoder.Commands.{CommandMessage}
use rtmp_abr_transcoder.Buffer.{readable_size}
use rtmp_abr_transcoder.Handshake.{Handshake, HandshakeError}
use rtmp_abr_transcoder.Session
use rtmp_abr_transcoder.Session.{
  Session, SessionError, new_session, generate_client_handshake, get_outgoing_data, process_input,
}
use rtmp_abr_transcoder.Net.Socket.{
  SysResult, SocketError, Socket, ConnectResult, no_socket, new_socket, is_valid, close,
  set_nonblocking, connect_socket, read, write,
}

-- What the event loop was last told to watch the socket for: nothing, EPOLLIN, or both.
pub data Interest : Type 0 where
  unregistered in_only in_and_out : Interest

-- `handshake_data` is what the callback of the event loop has captured. `closed` is no member: it
-- is the descriptors that were given back to the system.
pub record RtmpClient : Type 0 where
  pub socket : Socket
  pub session : Option Session
  pub connected : Bool
  pub connecting : Bool
  pub read_buffer : List ℕ
  pub write_buffer : List ℕ
  pub interest : Interest
  pub handshake_data : List ℕ
  pub closed : List ℕ

unfoldable pub new_client : RtmpClient
new_client = record {
  socket = no_socket;
  session = none;
  connected = false;
  connecting = false;
  read_buffer = [];
  write_buffer = [];
  interest = unregistered;
  handshake_data = [];
  closed = [];
}

-- What the system answers to the calls of connect(): socket, the two of fcntl, inet_pton,
-- ::connect and epoll_ctl. The result of set_nodelay is only logged.
pub record ConnectCalls : Type 0 where
  pub descriptor : Option ℕ
  pub get_flags : SysResult ℕ
  pub set_flags : SysResult ℕ
  pub address : Option ℕ
  pub connection : ConnectResult
  pub added : Bool

pub data ClientError : Type 0 where
  socket_error : SocketError → ClientError
  epoll_error : ClientError

-- socket_ = Socket(...): the old descriptor is closed.
unfoldable pub open_socket : Option ℕ → RtmpClient → RtmpClient
open_socket fd c =
    let (old, closed) = close (c.socket, c.closed) in
    record c { socket = new_socket fd; closed = closed }

-- The end of connect(): the greeting, and the registration with the event loop.
unfoldable pub register : (ℕ → ℕ) → Bool → RtmpClient → Result ClientError (Unit {0}) × RtmpClient
register random added c =
    let (data', s) = generate_client_handshake random new_session in
    let (outgoing, s') = get_outgoing_data s in
    let c' = record c { session = some s' } in
    if added
    then (ok tt, record c' { handshake_data = data'; interest = in_and_out })
    else (err epoll_error, c')

unfoldable pub connect :
    (ℕ → ℕ) → ConnectCalls → RtmpClient → Result ClientError (Unit {0}) × RtmpClient
connect random calls c =
    let opened = open_socket calls.descriptor c in
    let started = record opened { session = some new_session; connecting = true } in
    elim (set_nonblocking calls.get_flags calls.set_flags) [
      | err e ↦ (err (socket_error e), opened)
      | ok u ↦ elim (connect_socket calls.address calls.connection) [
        | err e ↦ (err (socket_error e), started)
        | ok u ↦ register random calls.added started
      ]
    ]

-- session_->has_outgoing_data(), for a session that may not be there.
abbrev pub has_outgoing_data : Option Session → Bool
has_outgoing_data none = false
has_outgoing_data (some s) = not (readable_size s.write_buffer == 0)

-- The end of send_message and send_command.
unfoldable pub watch_output : RtmpClient → RtmpClient
watch_output c =
    if is_valid c.socket && (has_outgoing_data c.session || not (length c.write_buffer == 0))
    then record c { interest = in_and_out }
    else c

-- What follows the session's call.
unfoldable pub after_send : Option Session → RtmpClient → Option RtmpClient
after_send sent c = do s ← sent; some (watch_output (record c { session = some s }))

module _ (grow : ℕ → ℕ → ℕ) (memory : ℕ) where
  unfoldable pub send_message : Message → RtmpClient → Option RtmpClient
  send_message msg c = elim c.session [
    | none ↦ some c
    | some s ↦ after_send (Session.send_message grow memory msg s) c
  ]

  unfoldable pub send_command : CommandMessage → ℕ → RtmpClient → Option RtmpClient
  send_command cmd chunk_stream_id c = elim c.session [
    | none ↦ some c
    | some s ↦ after_send (Session.send_command grow memory cmd chunk_stream_id s) c
  ]

-- The session's outgoing data moves into the write buffer.
unfoldable pub take_from : Session → RtmpClient → RtmpClient
take_from s c =
    let (outgoing, s') = get_outgoing_data s in
    if has_outgoing_data (some s)
    then record c { session = some s'; write_buffer = c.write_buffer ++ outgoing }
    else c

unfoldable pub take_outgoing : RtmpClient → RtmpClient
take_outgoing c = elim c.session [ none ↦ c | some s ↦ take_from s c ]

-- The call of write() in flush(), with its branches.
unfoldable pub flush_buffer : SysResult ℕ → RtmpClient → RtmpClient
flush_buffer r c =
    let (res, socket) = write r c.write_buffer c.socket in
    let c' = record c { socket = socket } in
    elim res [
      | err e ↦ c'
      | ok n ↦
          if ltb n (length c.write_buffer)
          then record c' { write_buffer = drop n c.write_buffer; interest = in_and_out }
          else record c' { write_buffer = [] }
    ]

unfoldable pub flush : SysResult ℕ → RtmpClient → RtmpClient
flush r c =
    let c' = take_outgoing c in
    if not (is_valid c.socket)
    then c
    else if length c'.write_buffer == 0
    then c'
    else flush_buffer r c'

-- The first statements of cleanup().
unfoldable pub close_connection : RtmpClient → RtmpClient
close_connection c =
    let (socket, closed) = close (c.socket, c.closed) in
    let c' = record c { connected = false; connecting = false } in
    if is_valid c.socket
    then record c' { interest = unregistered; socket = socket; closed = closed }
    else c'
