-- ===== src/Relay.antt =====
-- include/relay/*.hpp and src/relay/relay_manager.cpp: publishers, which send streams to the relay,
-- and pushers, which pass them on to another server.
pub mod Types
pub mod Pusher
pub mod Backpressure
pub mod Publishing
pub mod Pushers
pub mod Wire
pub mod ClientCallbacks
mod WireTests
pub mod Texts
pub mod Publisher
pub mod Reading
pub mod ProtocolMessages
pub mod Greeting
pub mod Answers
pub mod Handshaking
pub mod Url
pub mod Addressing
pub mod Reconnection
mod Tests
mod PublisherTests
