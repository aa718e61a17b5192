-- ===== src/Chunks.antt =====
-- include/rtmp/rtmp_chunks.hpp and src/rtmp/rtmp_chunks.cpp: the chunk parser and the chunk
-- encoder. `std::map<uint32_t, StreamState>` is a function, since `streams_[id]` makes a missing
-- entry with its default; a `std::span` at an offset is the list from that offset on.
pub mod Header
pub mod Parse
pub mod Rounds
pub mod Encode
pub mod Frames
pub mod HeaderRoundTrip
pub mod Pass
pub mod LaterFrames
pub mod WholeMessage
pub mod RoundTrip
pub mod Conservation
mod Tests
mod FragmentTests
