-- ===== src/Transcode/AvcRoundTrip.antt =====
-- What the encoder's packets and headers become at a decoder that receives them.
use rtmp_abr_transcoder.Base.{
  ℕ, zero, suc, ◌+◌, ◌-◌, ◌*◌, ◌^◌, ◌≤◌, ◌<◌, ◌≡◌, refl, ap, sym, ◌∙◌, Bool, true, false, List, [],
  ◌∷◌, ◌++◌, map, arith, ltb, leb, ◌==◌, length, append_assoc, append-nil, length-append,
  take-append, drop-append, le→ltb, bit_or, Bool-cases, inl, inr,
}
use rtmp_abr_transcoder.Base.Bits.{low_bits, shl, shr, bit_or-add}
use rtmp_abr_transcoder.Bytes.{byte_at, write_u32_be, write_u16_be, read_u16_be}
use rtmp_abr_transcoder.Bytes.RoundTrip.{read_u16_be-write_u16_be}
use rtmp_abr_transcoder.Chunks.RoundTrip.{All}
use rtmp_abr_transcoder.Transcode.Avc.{
  get_startcode_length, avcc_nal, to_avcc, read_length, start_code, annexb_loop, to_annexb,
}
use rtmp_abr_transcoder.Transcode.Flv.{
  build_flv_video_packet, build_avc_decoder_config, parameter_set, feed_sets,
  parse_avc_decoder_config, on_video_data,
}

append_byte : (a b : ℕ) → a < 2 ^ 24 → b < 256 → bit_or (low_bits (shl a 8) 32) b ≡ a * 256 + b
append_byte a b ha hb =
    let whole : low_bits (shl a 8) 32 ≡ a * 256 = omega arith in
    rw whole (bit_or-add 8 a (a * 256) b refl hb)

read_length-write_u32_be :
    (v : ℕ) (rest : List ℕ) → v < 2 ^ 32 → read_length 4 (write_u32_be v ++ rest) 0 ≡ v
unfolding read_length write_u32_be
read_length-write_u32_be v rest h =
    let b3 = low_bits (shr v 24) 8 in
    let b2 = low_bits (shr v 16) 8 in
    let b1 = low_bits (shr v 8) 8 in
    let b0 = low_bits v 8 in
    rw
      (
        append_byte 0 b3 (omega arith) (omega arith),
        append_byte (0 * 256 + b3) b2 (omega arith) (omega arith),
        append_byte ((0 * 256 + b3) * 256 + b2) b1 (omega arith) (omega arith),
        append_byte (((0 * 256 + b3) * 256 + b2) * 256 + b1) b0 (omega arith) (omega arith),
      )
      (omega arith)

length-write_u32_be : (v : ℕ) → length (write_u32_be v) ≡ 4
unfolding write_u32_be
length-write_u32_be v = refl

-- One unit of AVCC data becomes one unit of Annex B.
annexb_loop-unit :
    (fuel : ℕ) (body rest : List ℕ)
    → length body < 2 ^ 31
    → annexb_loop (suc fuel) 4 (write_u32_be (length body) ++ (body ++ rest))
      ≡ start_code ++ (body ++ annexb_loop fuel 4 rest)
unfolding annexb_loop
annexb_loop-unit fuel body rest h =
    let prefix = write_u32_be (length body) in
    rw
      (
        annexb_loop,
        read_length-write_u32_be (length body) (body ++ rest) (omega arith),
        drop-append 4 prefix (body ++ rest) (sym (length-write_u32_be (length body))),
        le→ltb (length (prefix ++ (body ++ rest))) 4
            (omega (arith, length-append prefix (body ++ rest), length-write_u32_be (length body))),
        le→ltb (length (body ++ rest)) (length body) (omega (arith, length-append body rest)),
        drop-append (length body) body rest refl,
        take-append (length body) body rest refl,
      )
      refl

-- A NAL unit as the encoder writes it: behind a start code of four bytes or of three.
pub record Nal : Type 0 where
  pub long_code : Bool
  pub body : List ℕ

abbrev pub code_of : Bool → List ℕ
code_of true = start_code
code_of false = 0 ∷ 0 ∷ 1 ∷ []

abbrev pub encoded : Nal → List ℕ
encoded nal = code_of nal.long_code ++ nal.body

-- A unit that is not empty and whose size is an int.
abbrev pub IsNal : Nal → Type 0
IsNal nal = (0 < length nal.body) × (length nal.body < 2 ^ 31)

-- The units behind start codes of four bytes.
abbrev pub annexb_of : List Nal → List ℕ
annexb_of [] = []
annexb_of (nal ∷ nals) = start_code ++ (nal.body ++ annexb_of nals)

get_startcode_length-code_of :
    (long_code : Bool) (body : List ℕ)
    → 0 < length body
    → get_startcode_length (code_of long_code ++ body) ≡ length (code_of long_code)
unfolding get_startcode_length
get_startcode_length-code_of true body pos = ground arith
get_startcode_length-code_of false body pos = ground arith

code_of_pos : (long_code : Bool) → (length (code_of long_code) == 0) ≡ false
code_of_pos true = refl
code_of_pos false = refl

avcc_nal-encoded :
    (long_code : Bool) (body : List ℕ)
    → 0 < length body
    → avcc_nal (code_of long_code ++ body) ≡ write_u32_be (length body) ++ body
unfolding avcc_nal
avcc_nal-encoded long_code body pos =
    let code = code_of long_code in
    let size : length (code ++ body) - length code ≡ length body =
      omega (arith, length-append code body) in
    let some_body : (length body == 0) ≡ false = ground arith in
    rw
      (
        avcc_nal,
        get_startcode_length-code_of long_code body pos,
        code_of_pos long_code,
        size,
        some_body,
        drop-append (length code) code body refl,
      )
      refl

annexb_loop-to_avcc :
    (fuel : ℕ) (nals : List Nal)
    → All IsNal nals
    → length (to_avcc (map encoded nals)) ≤ fuel
    → annexb_loop fuel 4 (to_avcc (map encoded nals)) ≡ annexb_of nals
unfolding to_avcc
annexb_loop-to_avcc zero [] all h = unfold annexb_loop in refl
annexb_loop-to_avcc (suc fuel) [] all h = unfold annexb_loop in refl
annexb_loop-to_avcc fuel (nal ∷ nals) ((pos, small), all) h =
    let others : List ℕ = to_avcc (map encoded nals) in
    let unit = avcc_nal-encoded nal.long_code nal.body pos in
    let size = length-append (write_u32_be (length nal.body)) (nal.body ++ others) in
    let size' = length-append nal.body others in
    let prefix = length-write_u32_be (length nal.body) in
    let whole : avcc_nal (encoded nal) ++ others
        ≡ write_u32_be (length nal.body) ++ (nal.body ++ others) =
      rw unit (append_assoc (write_u32_be (length nal.body)) nal.body others) in
    let total = rw whole at h in
    let more : fuel ≡ suc (fuel - 1) = omega arith in
    rw (whole, more)
      (annexb_loop-unit (fuel - 1) nal.body others small
        ∙ ap (λ (xs : List ℕ). start_code ++ (nal.body ++ xs))
            (annexb_loop-to_avcc (fuel - 1) nals all (omega arith)))

-- The NAL units of a frame that the encoder puts behind lengths, and that travel in an FLV packet,
-- come to the decoder in one call, each behind a start code of four bytes, in order and unchanged,
-- whether their own start codes had four bytes or three; no unit is empty or longer than an int
-- says.
pub on_video_data-to_avcc :
    (keyframe : Bool) (nals : List Nal)
    → All IsNal nals
    → on_video_data (build_flv_video_packet keyframe (to_avcc (map encoded nals))) 4
      ≡ (4, annexb_of nals ∷ [])
unfolding on_video_data build_flv_video_packet to_annexb
on_video_data-to_avcc true nals all =
    rw (annexb_loop-to_avcc (length (to_avcc (map encoded nals))) nals all (omega arith))
      (ground arith)
on_video_data-to_avcc false nals all =
    rw (annexb_loop-to_avcc (length (to_avcc (map encoded nals))) nals all (omega arith))
      (ground arith)

feed_sets-parameter_set :
    (set rest : List ℕ)
    → length set < 65536
    → feed_sets 1 (parameter_set set ++ rest) ≡ ((start_code ++ set) ∷ [], rest)
unfolding feed_sets
feed_sets-parameter_set set rest h =
    let prefix = write_u16_be (low_bits (length set) 16) in
    let size : length prefix ≡ 2 = unfold write_u16_be in refl in
    let len : read_u16_be (prefix ++ (set ++ rest)) ≡ length set =
      read_u16_be-write_u16_be (low_bits (length set) 16) (set ++ rest) ∙ omega arith in
    rw
      (
        append_assoc prefix set rest,
        feed_sets,
        len,
        drop-append 2 prefix (set ++ rest) (sym size),
        le→ltb (length (prefix ++ (set ++ rest))) 2
            (omega (arith, length-append prefix (set ++ rest))),
        le→ltb (length (set ++ rest)) (length set) (omega (arith, length-append set rest)),
        drop-append (length set) set rest refl,
        take-append (length set) set rest refl,
      )
      refl

parse_avc_decoder_config-sets :
    (a b c n : ℕ) (sps pps : List ℕ)
    → length sps < 65536
    → length pps < 65536
    → parse_avc_decoder_config
        (1 ∷ a ∷ b ∷ c ∷ 0xff ∷ 0xe1 ∷ (parameter_set sps ++ (1 ∷ parameter_set pps)))
        n
      ≡ (4, (start_code ++ sps) ∷ (start_code ++ pps) ∷ [])
unfolding parse_avc_decoder_config
parse_avc_decoder_config-sets a b c n sps pps h h' =
    let pps_fed : (feed_sets 1 (parameter_set pps)).0 ≡ (start_code ++ pps) ∷ [] =
      ap (λ (r : List (List ℕ) × List ℕ). r.0)
        (rw (append-nil (parameter_set pps)) at (feed_sets-parameter_set pps [] h')) in
    let long : ltb
          (length (1 ∷ a ∷ b ∷ c ∷ 0xff ∷ 0xe1 ∷ (parameter_set sps ++ (1 ∷ parameter_set pps)))) 7
        ≡ false =
      le→ltb _ 7 (omega (arith, length-append (parameter_set sps) (1 ∷ parameter_set pps))) in
    rw
      (
        parse_avc_decoder_config,
        long,
        feed_sets-parameter_set sps (1 ∷ parameter_set pps) h,
        pps_fed,
      )
      refl

-- The sequence header that is sent for an encoder sets the receiver up: its decoder is given the
-- SPS and the PPS, each whole and behind a start code, and reads lengths of four bytes from then
-- on, whatever it read before. Each set is shorter than 65536 bytes.
pub on_video_data-build_avc_decoder_config :
    (n : ℕ) (sps pps : List ℕ)
    → length sps < 65536
    → length pps < 65536
    → on_video_data (build_avc_decoder_config sps pps) n
      ≡ (4, (start_code ++ sps) ∷ (start_code ++ pps) ∷ [])
unfolding on_video_data build_avc_decoder_config
on_video_data-build_avc_decoder_config n sps pps h h' = elim (Bool-cases (leb 4 (length sps))) [
  | inl e ↦ rw e (
      rw
        (parse_avc_decoder_config-sets (byte_at sps 1) (byte_at sps 2) (byte_at sps 3) n sps pps h
          h')
        (ground arith))
  | inr e ↦ rw e (rw (parse_avc_decoder_config-sets 0x42 0 0x1e n sps pps h h') (ground arith))
]
