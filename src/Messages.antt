-- ===== src/Messages.antt =====
-- include/rtmp/rtmp_messages.hpp and the control messages of src/rtmp/rtmp_messages.cpp.
-- CommandMessage is in the module Commands, over AMF0.
pub mod Control
pub mod RoundTrip
mod Tests
