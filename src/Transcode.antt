-- ===== src/Transcode.antt =====
-- src/transcode/transcoder.cpp and src/transcode/encoder_openh264.cpp: what they do to the data of
-- H.264 and AAC between FLV packets and the codecs, and to the timestamps.
pub mod Avc
pub mod Flv
pub mod AvcRoundTrip
pub mod Timestamps
pub mod Codecs
pub mod Outputs
pub mod Publishing
pub mod Sources
pub mod Pushing
pub mod OutputUrls
pub mod Answers
pub mod Negotiation
mod Tests
mod OutputTests
