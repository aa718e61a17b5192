-- ===== src/Transcode/Flv.antt =====
-- The payloads of FLV packets, and what on_video_data gives to the decoder.
use rtmp_abr_transcoder.Base.{
  ℕ, zero, suc, ◌+◌, Bool, List, [], ◌∷◌, ◌++◌, ltb, leb, ◌==◌, if◌then◌else◌, length, take, drop,
  bit_or,
}
use rtmp_abr_transcoder.Base.Bits.{shl, low_bits}
use rtmp_abr_transcoder.Bytes.{byte_at, read_u16_be, write_u16_be}
use rtmp_abr_transcoder.Transcode.Avc.{start_code, to_annexb}

unfoldable pub build_flv_video_packet : Bool → List ℕ → List ℕ
build_flv_video_packet keyframe data' =
    let frame_type : ℕ = if keyframe then 0x10 else 0x20 in
    (bit_or frame_type 7 ∷ 1 ∷ 0 ∷ 0 ∷ 0 ∷ []) ++ data'

unfoldable pub map_sample_rate_to_flv_sound_rate : ℕ → ℕ
map_sample_rate_to_flv_sound_rate sample_rate =
    if leb 44100 sample_rate
    then 3
    else if leb 22050 sample_rate
    then 2
    else if leb 11025 sample_rate
    then 1
    else 0

-- The first byte of an audio packet.
abbrev pub sound_byte : ℕ → ℕ
sound_byte sample_rate =
    bit_or (bit_or (bit_or 0xa0 (shl (map_sample_rate_to_flv_sound_rate sample_rate) 2)) 2) 1

unfoldable pub build_flv_audio_packet : ℕ → List ℕ → List ℕ
build_flv_audio_packet sample_rate data' = sound_byte sample_rate ∷ 1 ∷ data'

unfoldable pub build_aac_sequence_header : ℕ → List ℕ → List ℕ
build_aac_sequence_header sample_rate asc = sound_byte sample_rate ∷ 0 ∷ asc

-- Profile, compatibility and level: from the SPS, or the fallback.
abbrev pub profile_bytes : List ℕ → List ℕ
profile_bytes sps =
    if leb 4 (length sps)
    then byte_at sps 1 ∷ byte_at sps 2 ∷ byte_at sps 3 ∷ []
    else 0x42 ∷ 0 ∷ 0x1e ∷ []

-- The length of a parameter set in 16 bits, and its bytes.
abbrev pub parameter_set : List ℕ → List ℕ
parameter_set set = write_u16_be (low_bits (length set) 16) ++ set

unfoldable pub build_avc_decoder_config : List ℕ → List ℕ → List ℕ
build_avc_decoder_config sps pps =
    (0x17 ∷ 0 ∷ 0 ∷ 0 ∷ 0 ∷ 1 ∷ [])
    ++ (profile_bytes sps ++ (0xff ∷ 0xe1 ∷ (parameter_set sps ++ (1 ∷ parameter_set pps))))

-- A loop over parameter sets: those that are whole are given to the decoder. The result is what it
-- is given, and the data from `offset` on.
unfoldable pub feed_sets : ℕ → List ℕ → List (List ℕ) × List ℕ
feed_sets zero p = ([], p)
feed_sets (suc n) p =
    let set_len = read_u16_be p in
    let data' : List ℕ = drop 2 p in
    let skipped = feed_sets n data' in
    let taken = feed_sets n (drop set_len data') in
    if ltb (length p) 2
    then ([], p)
    else if ltb (length data') set_len
    then skipped
    else ((start_code ++ take set_len data') ∷ taken.0, taken.1)

-- The part for the PPS.
abbrev pub feed_pps : List ℕ → List (List ℕ)
feed_pps [] = []
feed_pps (num_pps ∷ p) = (feed_sets num_pps p).0

-- The new nalu_length_size_, and the calls of decode.
unfoldable pub parse_avc_decoder_config : List ℕ → ℕ → ℕ × List (List ℕ)
parse_avc_decoder_config p nalu_length_size =
    let sps = feed_sets (low_bits (byte_at p 5) 5) (drop 6 p) in
    if ltb (length p) 7
    then (nalu_length_size, [])
    else (low_bits (byte_at p 4) 2 + 1, sps.0 ++ feed_pps sps.1)

-- on_video_data: the new nalu_length_size_, and the calls of decode.
unfoldable pub on_video_data : List ℕ → ℕ → ℕ × List (List ℕ)
on_video_data data' nalu_length_size =
    let packet_type = byte_at data' 1 in
    if ltb (length data') 5
    then (nalu_length_size, [])
    else if low_bits (byte_at data' 0) 4 == 7
    then (if packet_type == 0
        then parse_avc_decoder_config (drop 5 data') nalu_length_size
        else if packet_type == 1
        then (nalu_length_size, to_annexb nalu_length_size (drop 5 data') ∷ [])
        else (nalu_length_size, []))
    else (nalu_length_size, [])
