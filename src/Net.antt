-- ===== src/Net.antt =====
-- include/net and src/net, beside the buffer: sockets and addresses.
pub mod Socket
pub mod Address
pub mod EventLoop
pub mod Server
mod Tests
