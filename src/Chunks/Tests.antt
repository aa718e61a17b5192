-- ===== src/Chunks/Tests.antt =====
-- Runs of the chunk parser and the encoder, and the theorems at concrete inputs.
use rtmp_abr_transcoder.Base.{
  ◌≤◌, ◌-◌, drop, none, ℕ, ◌≡◌, refl, [], ◌∷◌, ◌++◌, List, true, false, ok, inl, some, arith,
}
use rtmp_abr_transcoder.Chunks.Header.{no_streams, ChunkHeader, not_enough_fmt1}
use rtmp_abr_transcoder.Chunks.Frames.{frames, encode_chunk-frames, encode_loop_diverges}
use rtmp_abr_transcoder.Chunks.Conservation.{parse-conserves}
use rtmp_abr_transcoder.Chunks.Rounds.{parse_loop_fuel}
use rtmp_abr_transcoder.Chunks.Parse.{Progress, parse_loop, Chunk, is_incomplete, new_parser, parse}
use rtmp_abr_transcoder.Chunks.Encode.{
  encode_chunk, encode_loop, chunk_prefix, basic_header, message_header,
}
use rtmp_abr_transcoder.Bytes.{write_u24_be, write_u32_le}
use rtmp_abr_transcoder.Chunks.RoundTrip.{IsSendable, encode_all, received, parse-encode_all}

is_incomplete_runs : is_incomplete not_enough_fmt1 ≡ true
unfolding is_incomplete
is_incomplete_runs = refl

-- A video message of five bytes, in chunks of two.
abbrev video_header : ChunkHeader
video_header = record {
  fmt = 0;
  chunk_stream_id = 6;
  timestamp = 40;
  message_length = 5;
  message_type_id = 9;
  message_stream_id = 1;
  has_extended_timestamp = false;
}

abbrev video_message : Chunk
video_message = record { header = video_header; payload = 1 ∷ 2 ∷ 3 ∷ 4 ∷ 5 ∷ [] }

abbrev video_bytes : List ℕ
video_bytes = 6 ∷ 0 ∷ 0 ∷ 40 ∷ 0 ∷ 0 ∷ 5 ∷ 9 ∷ 1 ∷ 0 ∷ 0 ∷ 0 ∷ 1 ∷ 2 ∷ 0xc6 ∷ 3 ∷ 4 ∷ 0xc6 ∷ 5 ∷ []

video_encodes : encode_chunk video_header (1 ∷ 2 ∷ 3 ∷ 4 ∷ 5 ∷ []) 2 ≡ some video_bytes
unfolding encode_chunk encode_loop chunk_prefix basic_header message_header write_u24_be
    write_u32_le
video_encodes = refl

two_encode : encode_all 2 (video_message ∷ video_message ∷ []) ≡ some (video_bytes ++ video_bytes)
unfolding encode_all encode_chunk encode_loop chunk_prefix basic_header message_header write_u24_be
    write_u32_le
two_encode = refl

parse-encode_all_example :
    (parse (new_parser 2) (video_bytes ++ video_bytes)).result
    ≡ ok (received video_message ∷ received video_message ∷ [])
unfolding new_parser
parse-encode_all_example =
    (parse-encode_all (new_parser 2) (video_message ∷ video_message ∷ [])
      (video_bytes ++ video_bytes) (omega arith) refl (λ csid. refl) (sendable, (sendable, tt))
      two_encode).0
  where
    sendable : IsSendable 2 video_message
    sendable = record {
      encodable = omega arith;
      some_payload = λ e. cc;
      whole = refl;
      short = inl refl;
      plain = λ e. absurd (omega arith);
    }

encode_chunk-frames_example :
    encode_chunk video_header (1 ∷ 2 ∷ 3 ∷ 4 ∷ 5 ∷ []) 2
    ≡ some (frames 5 video_header 2 true (1 ∷ 2 ∷ 3 ∷ 4 ∷ 5 ∷ []))
encode_chunk-frames_example =
    encode_chunk-frames video_header (1 ∷ 2 ∷ 3 ∷ 4 ∷ 5 ∷ []) 2 (omega arith)

encode_loop_diverges_example : encode_loop 9 video_header 0 true (1 ∷ []) [] ≡ none
encode_loop_diverges_example = encode_loop_diverges 9 video_header true (1 ∷ []) [] (λ e. cc)

abbrev fresh_progress : Progress
fresh_progress = record { chunk_size = 2; streams = no_streams; chunks = []; offset = 0 }

parse_loop_fuel_example :
    parse_loop 40 true video_bytes fresh_progress ≡ parse_loop 21 true video_bytes fresh_progress
parse_loop_fuel_example =
    parse_loop_fuel 40 21 true video_bytes fresh_progress (omega arith) (omega arith)

-- Data that ends within a chunk, behind a parser that holds two bytes.
parse-conserves_example :
    let p = record (new_parser 2) { buffer = 6 ∷ 0 ∷ [] } in
    let r = parse p (0 ∷ 40 ∷ 0 ∷ 0 ∷ 5 ∷ []) in
    (n : ℕ) × (chunks : List Chunk) × (r.result ≡ ok chunks)
    × (n ≤ 7)
    × (r.parser.buffer ≡ drop n (6 ∷ 0 ∷ 0 ∷ 40 ∷ 0 ∷ 0 ∷ 5 ∷ []))
    × (r.consumed ≡ n - 2)
parse-conserves_example =
    parse-conserves (record (new_parser 2) { buffer = 6 ∷ 0 ∷ [] }) (0 ∷ 40 ∷ 0 ∷ 0 ∷ 5 ∷ [])
