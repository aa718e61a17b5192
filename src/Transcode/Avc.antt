-- ===== src/Transcode/Avc.antt =====
-- NAL units: behind start codes (Annex B), which the codecs read and write, and behind lengths
-- (AVCC), which FLV carries.
use rtmp_abr_transcoder.Base.{
  ℕ, zero, suc, ◌-◌, ◌&&◌, List, [], ◌∷◌, ◌++◌, ltb, leb, ◌==◌, if◌then◌else◌, length, take, drop,
  bit_or,
}
use rtmp_abr_transcoder.Base.Bits.{shl, low_bits}
use rtmp_abr_transcoder.Bytes.{byte_at, write_u32_be}

-- The length of the start code: 4, 3, or 0 for none.
unfoldable pub get_startcode_length : List ℕ → ℕ
get_startcode_length p =
    if leb 4 (length p)
      && (byte_at p 0 == 0 && (byte_at p 1 == 0 && (byte_at p 2 == 0 && byte_at p 3 == 1)))
    then 4
    else if leb 3 (length p) && (byte_at p 0 == 0 && (byte_at p 1 == 0 && byte_at p 2 == 1))
    then 3
    else 0

-- One pass of H264Encoder::encode's loop over NAL units: the bytes that the packet gets.
unfoldable pub avcc_nal : List ℕ → List ℕ
avcc_nal nal =
    let startcode_len = get_startcode_length nal in
    let nal_size = length nal - startcode_len in
    if startcode_len == 0
    then []
    else if nal_size == 0
    then []
    else write_u32_be nal_size ++ drop startcode_len nal

-- The loops over layers and NAL units: the units of all layers, in order.
unfoldable pub to_avcc : List (List ℕ) → List ℕ
to_avcc [] = []
to_avcc (nal ∷ nals) = avcc_nal nal ++ to_avcc nals

-- impl_->sps and impl_->pps.
pub record ParameterSets : Type 0 where
  pub sps : List ℕ
  pub pps : List ℕ

-- A unit of the first keyframe.
unfoldable pub extract_nal : List ℕ → ParameterSets → ParameterSets
extract_nal nal sets =
    let startcode_len = get_startcode_length nal in
    let nal_data : List ℕ = drop startcode_len nal in
    let nal_type : ℕ = low_bits (byte_at nal_data 0) 5 in
    if startcode_len == 0
    then sets
    else if length nal_data == 0
    then sets
    else if nal_type == 7
    then record sets { sps = nal_data }
    else if nal_type == 8
    then record sets { pps = nal_data }
    else sets

unfoldable pub extract_parameter_sets : List (List ℕ) → ParameterSets → ParameterSets
extract_parameter_sets [] sets = sets
extract_parameter_sets (nal ∷ nals) sets = extract_parameter_sets nals (extract_nal nal sets)

-- A length of `n` bytes, on uint32_t.
unfoldable pub read_length : ℕ → List ℕ → ℕ → ℕ
read_length zero p nalu_len = nalu_len
read_length (suc n) [] nalu_len = nalu_len
read_length (suc n) (b ∷ p) nalu_len = read_length n p (bit_or (low_bits (shl nalu_len 8) 32) b)

abbrev pub start_code : List ℕ
start_code = 0 ∷ 0 ∷ 0 ∷ 1 ∷ []

-- The loop of on_video_data; the list is `avcc_data` from `offset` on.
unfoldable pub annexb_loop : ℕ → ℕ → List ℕ → List ℕ
annexb_loop zero n p = []
annexb_loop (suc fuel) n p =
    let nalu_len = read_length n p 0 in
    let data' : List ℕ = drop n p in
    let others = annexb_loop fuel n (drop nalu_len data') in
    if ltb (length p) n
    then []
    else if ltb (length data') nalu_len
    then []
    else start_code ++ (take nalu_len data' ++ others)

-- A pass consumes a length, which has a byte at least.
unfoldable pub to_annexb : ℕ → List ℕ → List ℕ
to_annexb nalu_length_size avcc_data = annexb_loop (length avcc_data) nalu_length_size avcc_data
