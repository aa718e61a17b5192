-- ===== src/Relay/Types.antt =====
-- include/relay/stream_id.hpp and include/relay/policy.hpp, with the texts that the relay compares
-- and sends. A text is the list of its bytes.
use rtmp_abr_transcoder.Base.{ℕ, List, [], ◌∷◌}

pub record StreamId : Type 0 where
  pub app : List ℕ
  pub stream : List ℕ

pub data BackpressurePolicy : Type 0 where
  drop_oldest drop_newest disconnect : BackpressurePolicy

pub record RelayPolicy : Type 0 where
  pub max_pending_bytes : ℕ
  pub backpressure : BackpressurePolicy
  pub pusher_down_disconnect_ms : ℕ

abbrev pub default_policy : RelayPolicy
default_policy = record {
  max_pending_bytes = 2097152;
  backpressure = drop_oldest;
  pusher_down_disconnect_ms = 2000;
}

-- "_result", "_error", "onStatus", "connect", "createStream", "publish" and "live".
abbrev pub result_text : List ℕ
result_text = 95 ∷ 114 ∷ 101 ∷ 115 ∷ 117 ∷ 108 ∷ 116 ∷ []

abbrev pub on_status_text : List ℕ
on_status_text = 111 ∷ 110 ∷ 83 ∷ 116 ∷ 97 ∷ 116 ∷ 117 ∷ 115 ∷ []

abbrev pub connect_text : List ℕ
connect_text = 99 ∷ 111 ∷ 110 ∷ 110 ∷ 101 ∷ 99 ∷ 116 ∷ []

abbrev pub create_stream_text : List ℕ
create_stream_text = 99 ∷ 114 ∷ 101 ∷ 97 ∷ 116 ∷ 101 ∷ 83 ∷ 116 ∷ 114 ∷ 101 ∷ 97 ∷ 109 ∷ []

abbrev pub publish_text : List ℕ
publish_text = 112 ∷ 117 ∷ 98 ∷ 108 ∷ 105 ∷ 115 ∷ 104 ∷ []

abbrev pub live_text : List ℕ
live_text = 108 ∷ 105 ∷ 118 ∷ 101 ∷ []

-- The bit patterns of 1.0 and 2.0.
abbrev pub one : ℕ
one = 0x3ff0_0000_0000_0000

abbrev pub two : ℕ
two = 0x4000_0000_0000_0000
