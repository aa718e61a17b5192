-- ===== src/Messages/RoundTrip.antt =====
-- The control messages are read back as they were written.
use rtmp_abr_transcoder.Base.{ℕ, ◌^◌, ◌<◌, ◌≡◌, ◌∙◌, [], ◌∷◌, some, arith, append-nil}
use rtmp_abr_transcoder.Base.Bits.{low_bits}
use rtmp_abr_transcoder.Bytes.{read_u32_be, write_u32_be}
use rtmp_abr_transcoder.Bytes.RoundTrip.{read_u32_be-write_u32_be}
use rtmp_abr_transcoder.Messages.Control.{
  SetChunkSizeMessage, WindowAckSizeMessage, SetPeerBandwidthMessage, parse_set_chunk_size,
  encode_set_chunk_size, parse_window_ack_size, encode_window_ack_size, parse_set_peer_bandwidth,
  encode_set_peer_bandwidth,
}

read_back : (v : ℕ) → v < 2 ^ 32 → read_u32_be (write_u32_be v) ≡ v
read_back v h = rw (append-nil (write_u32_be v)) at (read_u32_be-write_u32_be v []) ∙ omega arith

pub parse_set_chunk_size-encode_set_chunk_size :
    (msg : SetChunkSizeMessage)
    → parse_set_chunk_size (encode_set_chunk_size msg)
      ≡ some (record { chunk_size = low_bits msg.chunk_size 31 })
unfolding parse_set_chunk_size encode_set_chunk_size write_u32_be
parse_set_chunk_size-encode_set_chunk_size msg =
    ground (arith, read_back (low_bits msg.chunk_size 31) (omega arith))

-- A SetPeerBandwidth message with a window of 32 bits is read back as it was written.
pub parse_set_peer_bandwidth-encode_set_peer_bandwidth :
    (msg : SetPeerBandwidthMessage)
    → msg.window_size < 2 ^ 32
    → parse_set_peer_bandwidth (encode_set_peer_bandwidth msg) ≡ some msg
unfolding parse_set_peer_bandwidth encode_set_peer_bandwidth write_u32_be
parse_set_peer_bandwidth-encode_set_peer_bandwidth msg h =
    ground (arith, read_u32_be-write_u32_be msg.window_size (msg.limit_type ∷ []))

pub parse_window_ack_size-encode_window_ack_size :
    (msg : WindowAckSizeMessage)
    → msg.window_size < 2 ^ 32
    → parse_window_ack_size (encode_window_ack_size msg) ≡ some msg
unfolding parse_window_ack_size encode_window_ack_size write_u32_be
parse_window_ack_size-encode_window_ack_size msg h = ground (arith, read_back msg.window_size h)
