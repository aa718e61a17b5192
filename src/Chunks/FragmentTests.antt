-- ===== src/Chunks/FragmentTests.antt =====
-- Runs of the chunk parser on data that is cut within a chunk.
use rtmp_abr_transcoder.Base.{ℕ, ◌≡◌, refl, List, [], ◌∷◌, ◌++◌, map, ok, err, Result}
use rtmp_abr_transcoder.Bytes.{read_u24_be, read_u32_be, read_u32_le}
use rtmp_abr_transcoder.Chunks.Header.{
  HeaderError, parse_csid, parse_extended, parse_fmt0, parse_fmt1, parse_header,
}
use rtmp_abr_transcoder.Chunks.Parse.{
  Chunk, is_incomplete, chunk_size_after, bytes_to_read, begin_message, add_payload, take_payload,
  read_chunk, parse_round, parse_loop, finish_parse, new_parser, parse,
}

-- The timestamps of the chunks.
abbrev times : Result HeaderError (List Chunk) → List ℕ
times (ok chunks) = map (λ (c : Chunk). c.header.timestamp) chunks
times (err e) = []

-- A message with the timestamp 16, and a chunk header of the format 1 with the delta 5.
abbrev first_part : List ℕ
first_part =
    3 ∷ 0 ∷ 0 ∷ 16 ∷ 0 ∷ 0 ∷ 1 ∷ 9 ∷ 1 ∷ 0 ∷ 0 ∷ 0 ∷ 0xaa ∷ 0x43 ∷ 0 ∷ 0 ∷ 5 ∷ 0 ∷ 0 ∷ 1 ∷ 9 ∷ []

whole_runs : times (parse (new_parser 128) (first_part ++ (0xbb ∷ []))).result ≡ 16 ∷ 21 ∷ []
unfolding new_parser parse finish_parse parse_loop parse_round read_chunk take_payload add_payload
    begin_message bytes_to_read chunk_size_after is_incomplete parse_header parse_csid parse_fmt0
    parse_fmt1 parse_extended read_u24_be read_u32_be read_u32_le
whole_runs = refl

-- When the payload comes later the delta is added twice.
delta_added_twice :
    times (parse (parse (new_parser 128) first_part).parser (0xbb ∷ [])).result ≡ 26 ∷ []
unfolding new_parser parse finish_parse parse_loop parse_round read_chunk take_payload add_payload
    begin_message bytes_to_read chunk_size_after is_incomplete parse_header parse_csid parse_fmt0
    parse_fmt1 parse_extended read_u24_be read_u32_be read_u32_le
delta_added_twice = refl
