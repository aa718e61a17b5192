-- ===== src/Messages/Tests.antt =====
-- The theorems on control messages at concrete inputs.
use rtmp_abr_transcoder.Base.{◌≡◌, some, arith}
use rtmp_abr_transcoder.Messages.Control.{
  SetPeerBandwidthMessage, parse_set_peer_bandwidth, encode_set_peer_bandwidth,
}
use rtmp_abr_transcoder.Messages.RoundTrip.{parse_set_peer_bandwidth-encode_set_peer_bandwidth}

abbrev bandwidth : SetPeerBandwidthMessage
bandwidth = record { window_size = 2500000; limit_type = 2 }

parse_set_peer_bandwidth-encode_set_peer_bandwidth_example :
    parse_set_peer_bandwidth (encode_set_peer_bandwidth bandwidth) ≡ some bandwidth
parse_set_peer_bandwidth-encode_set_peer_bandwidth_example =
    parse_set_peer_bandwidth-encode_set_peer_bandwidth bandwidth (omega arith)
