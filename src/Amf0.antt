-- ===== src/Amf0.antt =====
-- include/rtmp/amf0.hpp and src/rtmp/amf0.cpp.
pub mod Value
pub mod Codec
pub mod Total
pub mod Members
pub mod Sorted
pub mod RoundTrip
mod Tests
