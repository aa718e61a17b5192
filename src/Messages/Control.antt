-- ===== src/Messages/Control.antt =====
-- MessageType, Message and the three control messages with a payload of fixed size.
use rtmp_abr_transcoder.Base.{
  ℕ, List, [], ◌∷◌, ◌++◌, Option, none, some, ltb, if◌then◌else◌, length,
}
use rtmp_abr_transcoder.Base.Bits.{low_bits}
use rtmp_abr_transcoder.Bytes.{byte_at, read_u32_be, write_u32_be}

pub data MessageType : Type 0 where
  set_chunk_size acknowledgement window_ack_size set_peer_bandwidth : MessageType
  audio video data_amf0 command_amf0 : MessageType

-- `static_cast<uint8_t>(type)`: the number of a member of the enumeration.
abbrev pub type_number : MessageType → ℕ
type_number set_chunk_size = 1
type_number acknowledgement = 3
type_number window_ack_size = 5
type_number set_peer_bandwidth = 6
type_number audio = 8
type_number video = 9
type_number data_amf0 = 18
type_number command_amf0 = 20

pub record Message : Type 0 where
  pub type_id : ℕ
  pub timestamp : ℕ
  pub stream_id : ℕ
  pub payload : List ℕ

pub record SetChunkSizeMessage : Type 0 where
  pub chunk_size : ℕ

pub record WindowAckSizeMessage : Type 0 where
  pub window_size : ℕ

pub record SetPeerBandwidthMessage : Type 0 where
  pub window_size : ℕ
  pub limit_type : ℕ

unfoldable pub parse_set_chunk_size : List ℕ → Option SetChunkSizeMessage
parse_set_chunk_size payload =
    if ltb (length payload) 4
    then none
    else some (record { chunk_size = low_bits (read_u32_be payload) 31 })

unfoldable pub encode_set_chunk_size : SetChunkSizeMessage → List ℕ
encode_set_chunk_size msg = write_u32_be (low_bits msg.chunk_size 31)

unfoldable pub parse_window_ack_size : List ℕ → Option WindowAckSizeMessage
parse_window_ack_size payload =
    if ltb (length payload) 4 then none else some (record { window_size = read_u32_be payload })

unfoldable pub encode_window_ack_size : WindowAckSizeMessage → List ℕ
encode_window_ack_size msg = write_u32_be msg.window_size

unfoldable pub parse_set_peer_bandwidth : List ℕ → Option SetPeerBandwidthMessage
parse_set_peer_bandwidth payload =
    if ltb (length payload) 5
    then none
    else some (record { window_size = read_u32_be payload; limit_type = byte_at payload 4 })

unfoldable pub encode_set_peer_bandwidth : SetPeerBandwidthMessage → List ℕ
encode_set_peer_bandwidth msg = write_u32_be msg.window_size ++ msg.limit_type ∷ []
