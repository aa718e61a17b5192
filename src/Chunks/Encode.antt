-- ===== src/Chunks/Encode.antt =====
-- rtmp::encode_chunk. The loop takes fuel, and `none` means that it ran out: with a chunk size of 0
-- and a payload the program's loop does not end.
use rtmp_abr_transcoder.Base.{
  ℕ, zero, suc, ◌-◌, min, Bool, true, false, List, [], ◌∷◌, ◌++◌, Option, none, some, ltb, leb,
  if◌then◌else◌, length, take, drop, bit_or,
}
use rtmp_abr_transcoder.Base.Bits.{shl, shr, low_bits}
use rtmp_abr_transcoder.Bytes.{write_u24_be, write_u32_be, write_u32_le}
use rtmp_abr_transcoder.Chunks.Header.{ChunkHeader}

-- The basic header: format and chunk stream id.
unfoldable pub basic_header : ℕ → ℕ → List ℕ
basic_header fmt csid =
    let first_byte : ℕ = shl fmt 6 in
    if ltb csid 64
    then low_bits (bit_or first_byte csid) 8 ∷ []
    else if ltb csid 320
    then first_byte ∷ low_bits (csid - 64) 8 ∷ []
    else bit_or first_byte 1 ∷ low_bits (csid - 64) 8 ∷ low_bits (shr (csid - 64) 8) 8 ∷ []

-- The message header of the first chunk.
unfoldable pub message_header : ChunkHeader → List ℕ
message_header header =
    let timestamp : ℕ = if ltb header.timestamp 0xffffff then header.timestamp else 0xffffff in
    let extended : List ℕ =
      if leb 0xffffff header.timestamp then write_u32_be header.timestamp else [] in
    write_u24_be timestamp
    ++ (write_u24_be header.message_length
        ++ (header.message_type_id ∷ write_u32_le header.message_stream_id ++ extended))

unfoldable pub chunk_prefix : ChunkHeader → Bool → List ℕ
chunk_prefix header true = basic_header 0 header.chunk_stream_id ++ message_header header
chunk_prefix header false = basic_header 3 header.chunk_stream_id

-- The list is the payload from `payload_offset` on.
unfoldable pub encode_loop : ℕ → ChunkHeader → ℕ → Bool → List ℕ → List ℕ → Option (List ℕ)
encode_loop fuel header chunk_size first [] output = some output
encode_loop zero header chunk_size first (b ∷ bs) output = none
encode_loop (suc fuel) header chunk_size first (b ∷ bs) output =
    let bytes_to_write = min chunk_size (length (b ∷ bs)) in
    encode_loop fuel header chunk_size false (drop bytes_to_write (b ∷ bs))
      (output ++ (chunk_prefix header first ++ take bytes_to_write (b ∷ bs)))

unfoldable pub encode_chunk : ChunkHeader → List ℕ → ℕ → Option (List ℕ)
encode_chunk header payload chunk_size =
    encode_loop (length payload) header chunk_size true payload []
