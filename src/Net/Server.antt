-- ===== src/Net/Server.antt =====
-- The server of src/rtmp/rtmp_server.cpp, which accepts connections.
use rtmp_abr_transcoder.Base.{ℕ, List, [], ◌∷◌, Option, Bool, Result, ok, err}
use rtmp_abr_transcoder.Net.Socket.{
  SysResult, SocketError, Socket, set_nonblocking, set_option, bind, listen, accept, close,
}
use rtmp_abr_transcoder.Net.EventLoop.{EventLoop, LoopError, add}
use rtmp_abr_transcoder.Session.{Session, new_session}

-- What the system answers to the calls of start(), up to the registration with the event loop.
pub record ServerCalls : Type 0 where
  pub reuseaddr : SysResult ℕ
  pub flags : SysResult ℕ
  pub nonblocking : SysResult ℕ
  pub any_address : Bool
  pub address : Option ℕ
  pub bound : SysResult ℕ
  pub listening : SysResult ℕ

-- The first error ends start(); what follows adds the socket to the event loop.
unfoldable pub listen_steps : ServerCalls → Result SocketError (Unit {0})
listen_steps calls = elim (set_option calls.reuseaddr) [
  | err e ↦ err e
  | ok u ↦ elim (set_nonblocking calls.flags calls.nonblocking) [
    | err e ↦ err e
    | ok v ↦ elim (bind calls.any_address calls.address calls.bound) [
      | err e ↦ err e
      | ok w ↦ listen calls.listening
    ]
  ]
]

pub data ServerError : Type 0 where
  of_socket : SocketError → ServerError
  of_loop : LoopError → ServerError

abbrev pub registered :
    {H : Type 0}
    → Result LoopError (Unit {0}) × EventLoop H
    → Result ServerError (Unit {0}) × EventLoop H
registered (err e, loop) = (err (of_loop e), loop)
registered (ok u, loop) = (ok u, loop)

-- start(): the socket that listens, with the descriptor `fd`, is added to the event loop with the
-- callback `h`; `added` is whether epoll_ctl succeeds.
unfoldable pub start_listening :
    {H : Type 0}
    → ServerCalls
    → Bool
    → ℕ
    → H
    → EventLoop H
    → Result ServerError (Unit {0}) × EventLoop H
start_listening calls added fd h loop = elim (listen_steps calls) [
  | err e ↦ (err (of_socket e), loop)
  | ok u ↦ registered (add added fd h loop)
]

-- What the system answers about one connection. TCP_NODELAY is only logged when it fails.
pub record AcceptCalls : Type 0 where
  pub accepted : SysResult ℕ
  pub flags : SysResult ℕ
  pub nonblocking : SysResult ℕ

-- The connection callback, with the descriptors that have been closed, in order.
module _ {W : Type 0} (callback : Session × Socket → W → W) where
  -- A socket that cannot be made non-blocking is destroyed, which closes it.
  unfoldable pub serve_socket : AcceptCalls → Socket → W × List ℕ → W × List ℕ
  serve_socket calls socket (w, closed) = elim (set_nonblocking calls.flags calls.nonblocking) [
    | err e ↦ (w, (close (socket, closed)).1)
    | ok u ↦ (callback (new_session, socket) w, closed)
  ]

  -- The loop ends at the first accept that fails, EAGAIN included; the answers end there too.
  unfoldable pub handle_accept : List AcceptCalls → W × List ℕ → W × List ℕ
  handle_accept [] s = s
  handle_accept (calls ∷ rest) s = elim (accept calls.accepted) [
    | err e ↦ s
    | ok socket ↦ handle_accept rest (serve_socket calls socket s)
  ]
