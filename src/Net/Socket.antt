-- ===== src/Net/Socket.antt =====
-- include/net/socket.hpp and src/net/socket.cpp: a socket owns a descriptor. The operating system
-- is not modelled: what a system call returns is an argument of the operation.
use rtmp_abr_transcoder.Base.{
  ℕ, Bool, true, false, List, [], ◌∷◌, ◌++◌, Option, none, some, Result, ok, err, take,
}

-- What a system call returns: a value, -1 with EAGAIN or EWOULDBLOCK, or -1 with another error.
pub data SysResult (A : Type 0) : Type 0 where
  returned : A → SysResult A
  would_block : SysResult A
  failed : SysResult A

-- The errors of the operations, without the text that names the system's error.
pub data SocketError : Type 0 where
  again bind_failed listen_failed accept_failed connect_failed : SocketError
  read_failed write_failed invalid_address fcntl_failed setsockopt_failed : SocketError
  invalid_port unresolved no_address : SocketError

-- The descriptor -1 is `none`. `written` is no member: it is what the system has taken of the bytes
-- that were written to the socket.
pub record Socket : Type 0 where
  pub fd : Option ℕ
  pub written : List ℕ

-- Socket() and Socket(fd).
abbrev pub no_socket : Socket
no_socket = record { fd = none; written = [] }

abbrev pub new_socket : Option ℕ → Socket
new_socket fd = record { fd = fd; written = [] }

abbrev pub is_some : {A : Type 0} → Option A → Bool
is_some none = false
is_some (some a) = true

abbrev pub is_valid : Socket → Bool
is_valid s = is_some s.fd

-- The descriptors that close() gives back to the system: one, or none.
abbrev pub closes : Option ℕ → List ℕ
closes none = []
closes (some fd) = fd ∷ []

-- The socket after close(), and the descriptors closed so far.
unfoldable pub close : Socket × List ℕ → Socket × List ℕ
close (s, closed) = (record s { fd = none }, closed ++ closes s.fd)

-- Socket(Socket&& other): the new socket, and the other one.
unfoldable pub move_construct : Socket → Socket × Socket
move_construct other = (other, record other { fd = none })

-- operator=(Socket&& other), of two sockets that are not the same: the socket, the other one, and
-- the descriptors closed so far.
unfoldable pub move_assign : Socket → Socket → List ℕ → Socket × (Socket × List ℕ)
unfolding close
move_assign self other closed =
    let (old, closed') = close (self, closed) in
    (record old { fd = other.fd; written = other.written }, (record other { fd = none }, closed'))

-- set_nonblocking(): the two calls of fcntl.
unfoldable pub set_nonblocking : SysResult ℕ → SysResult ℕ → Result SocketError (Unit {0})
set_nonblocking (returned flags) (returned r) = ok tt
set_nonblocking (returned flags) would_block = err fcntl_failed
set_nonblocking (returned flags) failed = err fcntl_failed
set_nonblocking would_block r = err fcntl_failed
set_nonblocking failed r = err fcntl_failed

-- A call of which only success matters.
abbrev check : SocketError → SysResult ℕ → Result SocketError (Unit {0})
check e (returned r) = ok tt
check e would_block = err e
check e failed = err e

-- set_reuseaddr() and set_nodelay().
unfoldable pub set_option : SysResult ℕ → Result SocketError (Unit {0})
set_option r = check setsockopt_failed r

-- bind(): `address` is what inet_pton makes of the text, which is not asked for "0.0.0.0" and "".
unfoldable pub bind : Bool → Option ℕ → SysResult ℕ → Result SocketError (Unit {0})
bind true address r = check bind_failed r
bind false none r = err invalid_address
bind false (some a) r = check bind_failed r

unfoldable pub listen : SysResult ℕ → Result SocketError (Unit {0})
listen r = check listen_failed r

unfoldable pub accept : SysResult ℕ → Result SocketError Socket
accept (returned fd) = ok (new_socket (some fd))
accept would_block = err again
accept failed = err accept_failed

-- What ::connect returns: EINPROGRESS is the normal answer on a non-blocking socket.
pub data ConnectResult : Type 0 where
  connected_at_once in_progress refused : ConnectResult

unfoldable pub connect_socket : Option ℕ → ConnectResult → Result SocketError (Unit {0})
connect_socket none r = err invalid_address
connect_socket (some a) connected_at_once = ok tt
connect_socket (some a) in_progress = ok tt
connect_socket (some a) refused = err connect_failed

-- read(): the bytes that it puts into the caller's buffer; none where it would block.
unfoldable pub read : SysResult (List ℕ) → Result SocketError (List ℕ)
read (returned bytes) = ok bytes
read would_block = ok []
read failed = err read_failed

-- write(): the number of bytes that the system took, which are the first ones.
unfoldable pub write : SysResult ℕ → List ℕ → Socket → Result SocketError ℕ × Socket
write (returned n) data' s = (ok n, record s { written = s.written ++ take n data' })
write would_block data' s = (ok 0, s)
write failed data' s = (err write_failed, s)
