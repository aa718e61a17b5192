-- ===== src/Chunks/HeaderRoundTrip.antt =====
-- parse_header reads the chunk prefixes that encode_chunk writes.
use rtmp_abr_transcoder.Base.{
  ℕ, ◌+◌, ◌*◌, ◌^◌, ◌≤◌, ◌<◌, ◌≡◌, refl, ap, ◌∙◌, true, false, List, [], ◌∷◌, ◌++◌, ok, arith, ltb,
  leb, if◌then◌else◌, length, drop, append_assoc, drop-append_add, get_or-append_add, length-append,
  Bool-cases, inl, inr, le→ltb,
}
use rtmp_abr_transcoder.Base.Bits.{shr, low_bits, bit_or-add}
use rtmp_abr_transcoder.Bytes.{
  byte_at, read_u24_be, read_u32_be, read_u32_le, write_u24_be, write_u32_be, write_u32_le,
}
use rtmp_abr_transcoder.Bytes.RoundTrip.{
  read_u24_be-write_u24_be, read_u32_be-write_u32_be, read_u32_le-write_u32_le,
}
use rtmp_abr_transcoder.Chunks.Header.{
  ChunkHeader, Streams, update, parse_csid, parse_extended, parse_fmt0, parse_fmt3, parse_header,
}
use rtmp_abr_transcoder.Chunks.Encode.{basic_header, message_header, chunk_prefix}

-- What a header needs so that its fields fit the wire format.
pub record IsEncodable (h : ChunkHeader) : Type 0 where
  pub csid_from : 2 ≤ h.chunk_stream_id
  pub csid_to : h.chunk_stream_id < 65600
  pub timestamp_fits : h.timestamp < 2 ^ 32
  pub length_fits : h.message_length < 2 ^ 24
  pub stream_fits : h.message_stream_id < 2 ^ 32

-- The header that the parser makes of the first chunk.
abbrev pub received_header : ChunkHeader → ChunkHeader
received_header h = record h { fmt = 0; has_extended_timestamp = leb 0xffffff h.timestamp }

pub parse_csid-basic_header :
    (fmt csid : ℕ) (rest : List ℕ)
    → fmt < 4
    → 2 ≤ csid
    → csid < 65600
    → (parse_csid (basic_header fmt csid ++ rest) ≡ ok (csid, length (basic_header fmt csid)))
      × (low_bits (shr (byte_at (basic_header fmt csid ++ rest) 0) 6) 2 ≡ fmt)
      × (0 < length (basic_header fmt csid))
unfolding parse_csid basic_header
parse_csid-basic_header fmt csid rest hf lo hi = ground (
  arith,
  (λ (h : csid < 64). bit_or-add 6 fmt (fmt * 64) csid (omega arith) (omega arith)),
  bit_or-add 6 fmt (fmt * 64) 1 (omega arith) (omega arith),
)

parse_header_fmt0 :
    (streams : Streams) (p : List ℕ) (csid offset : ℕ)
    → 0 < length p
    → low_bits (shr (byte_at p 0) 6) 2 ≡ 0
    → parse_csid p ≡ ok (csid, offset)
    → parse_header streams p ≡ parse_fmt0 p csid offset streams
unfolding parse_header
parse_header_fmt0 streams [] csid offset h f e = absurd (omega arith)
parse_header_fmt0 streams (b ∷ bs) csid offset h f e = ground (arith, f, e)

parse_header_fmt3 :
    (streams : Streams) (p : List ℕ) (csid offset : ℕ)
    → 0 < length p
    → low_bits (shr (byte_at p 0) 6) 2 ≡ 3
    → parse_csid p ≡ ok (csid, offset)
    → parse_header streams p ≡ parse_fmt3 p csid offset streams
unfolding parse_header
parse_header_fmt3 streams [] csid offset h f e = absurd (omega arith)
parse_header_fmt3 streams (b ∷ bs) csid offset h f e = ground (arith, f, e)

-- The fields of a message header, at their places.
record Fields (h : ChunkHeader) (q : List ℕ) : Type 0 where
  length_at : read_u24_be (drop 3 q) ≡ h.message_length
  type_at : byte_at q 6 ≡ h.message_type_id
  stream_at : read_u32_le (drop 7 q) ≡ h.message_stream_id
  fixed : 11 ≤ length q

message_header-Fields :
    (h : ChunkHeader) (tail : List ℕ) → IsEncodable h → Fields h (message_header h ++ tail)
unfolding message_header write_u24_be write_u32_le
message_header-Fields h tail v =
    let extended : List ℕ = if leb 0xffffff h.timestamp then write_u32_be h.timestamp else [] in
    record {
      length_at =
          read_u24_be-write_u24_be h.message_length
            (h.message_type_id ∷ write_u32_le h.message_stream_id ++ (extended ++ tail))
          ∙ omega (arith, v.length_fits);
      type_at = refl;
      stream_at =
          read_u32_le-write_u32_le h.message_stream_id (extended ++ tail)
          ∙ omega (arith, v.stream_fits);
      fixed = omega arith;
    }

abbrev short_timestamp : ℕ → ℕ
short_timestamp t = if ltb t 0xffffff then t else 0xffffff

short_timestamp_fits : (t : ℕ) → low_bits (short_timestamp t) 24 ≡ short_timestamp t
short_timestamp_fits t = ground arith

message_header_timestamp :
    (h : ChunkHeader) (tail : List ℕ)
    → read_u24_be (message_header h ++ tail) ≡ short_timestamp h.timestamp
unfolding message_header
message_header_timestamp h tail =
    rw append_assoc (read_u24_be-write_u24_be (short_timestamp h.timestamp) _)
    ∙ short_timestamp_fits h.timestamp

message_header_extended :
    (h : ChunkHeader) (tail : List ℕ)
    → leb 0xffffff h.timestamp ≡ true
    → h.timestamp < 2 ^ 32
    → (read_u32_be (drop 11 (message_header h ++ tail)) ≡ h.timestamp)
      × (length (message_header h) ≡ 15)
unfolding message_header write_u24_be write_u32_le
message_header_extended h tail e fits =
    rw e (read_u32_be-write_u32_be h.timestamp tail ∙ omega arith, unfold write_u32_be in refl)

message_header_short :
    (h : ChunkHeader) → leb 0xffffff h.timestamp ≡ false → length (message_header h) ≡ 11
unfolding message_header write_u24_be write_u32_le
message_header_short h e = rw e

-- parse_fmt0 from the values of its reads.
parse_fmt0_reads :
    (p : List ℕ) (offset size : ℕ) (streams : Streams) (h : ChunkHeader)
    → offset + 11 ≤ length p
    → parse_extended p (offset + 11) (read_u24_be (drop offset p))
      ≡ ok (h.timestamp, h.has_extended_timestamp, size)
    → read_u24_be (drop (offset + 3) p) ≡ h.message_length
    → byte_at p (offset + 6) ≡ h.message_type_id
    → read_u32_le (drop (offset + 7) p) ≡ h.message_stream_id
    → h.fmt ≡ 0
    → let id = h.chunk_stream_id in
      parse_fmt0 p id offset streams
      ≡ ok (record {
        header = h;
        size = size;
        streams = update streams id (record (streams id) { prev_header = h });
      })
unfolding parse_fmt0
parse_fmt0_reads p offset size streams h long ext len type stream fmt =
    rw (le→ltb _ _ long) (rw ext (rw (len, type, stream, fmt) refl))

parse_extended_reads :
    (p : List ℕ) (offset t : ℕ)
    → (leb 0xffffff t ≡ true → (offset + 4 ≤ length p) × (read_u32_be (drop offset p) ≡ t))
    → parse_extended p offset (short_timestamp t)
      ≡ ok (t, leb 0xffffff t, (if leb 0xffffff t then offset + 4 else offset))
unfolding parse_extended
parse_extended_reads p offset t h = ground arith

-- The four bytes of an extended timestamp are there.
extended_at :
    (h : ChunkHeader) (front tail : List ℕ)
    → IsEncodable h
    → let p = front ++ (message_header h ++ tail) in
      leb 0xffffff h.timestamp ≡ true
      → (length front + 11 + 4 ≤ length p)
        × (read_u32_be (drop (length front + 11) p) ≡ h.timestamp)
extended_at h front tail v e =
    let q : List ℕ = message_header h ++ tail in
    let (value, size) = message_header_extended h tail e v.timestamp_fits in
    (
      omega (arith, length-append front q, length-append (message_header h) tail, size),
      rw (drop-append_add (length front + 11) 11 front q refl) value,
    )

length-message_header :
    (h : ChunkHeader)
    → h.timestamp < 2 ^ 32
    → length (message_header h) ≡ (if leb 0xffffff h.timestamp then 15 else 11)
length-message_header h fits = elim (Bool-cases (leb 0xffffff h.timestamp)) [
  | inl e ↦ rw e (message_header_extended h [] e fits).1
  | inr e ↦ rw e (message_header_short h e)
]

parse_fmt0-message_header :
    (h : ChunkHeader) (front tail : List ℕ) (streams : Streams)
    → IsEncodable h
    → let id = h.chunk_stream_id in
      parse_fmt0 (front ++ (message_header h ++ tail)) id (length front) streams
      ≡ ok (record {
        header = received_header h;
        size = length front + length (message_header h);
        streams = update streams id (record (streams id) { prev_header = received_header h });
      })
parse_fmt0-message_header h front tail streams v =
    let q : List ℕ = message_header h ++ tail in
    let p : List ℕ = front ++ q in
    let f : Fields h q = message_header-Fields h tail v in
    let n : ℕ = length front in
    let size : (if leb 0xffffff h.timestamp then n + 11 + 4 else n + 11)
        ≡ n + length (message_header h) =
      ground (arith, length-message_header h v.timestamp_fits) in
    parse_fmt0_reads p n (n + length (message_header h)) streams (received_header h)
      (omega (arith, length-append front q, f.fixed))
      (rw (drop-append_add n 0 front q (omega arith), message_header_timestamp h tail)
        (parse_extended_reads p (n + 11) h.timestamp (extended_at h front tail v)
          ∙ ap (λ (k : ℕ). ok (h.timestamp, leb 0xffffff h.timestamp, k)) size))
      (rw (drop-append_add (n + 3) 3 front q refl) f.length_at)
      (get_or-append_add (n + 6) 6 front q 0 refl ∙ f.type_at)
      (rw (drop-append_add (n + 7) 7 front q refl) f.stream_at) refl

-- The first chunk's prefix gives the header and stores it as the previous one.
pub parse_header-chunk_prefix_first :
    (h : ChunkHeader) (tail : List ℕ) (streams : Streams)
    → IsEncodable h
    → let id = h.chunk_stream_id in
      parse_header streams (chunk_prefix h true ++ tail)
      ≡ ok (record {
        header = received_header h;
        size = length (chunk_prefix h true);
        streams = update streams id (record (streams id) { prev_header = received_header h });
      })
unfolding chunk_prefix
parse_header-chunk_prefix_first h tail streams v =
    let front : List ℕ = basic_header 0 h.chunk_stream_id in
    let p : List ℕ = front ++ (message_header h ++ tail) in
    let (id, fmt, pos) =
      parse_csid-basic_header 0 h.chunk_stream_id (message_header h ++ tail) (omega arith)
        v.csid_from v.csid_to in
    rw (append_assoc front (message_header h) tail, length-append front (message_header h))
      (parse_header_fmt0 streams p h.chunk_stream_id (length front)
          (omega (arith, length-append front (message_header h ++ tail), pos)) fmt id
        ∙ parse_fmt0-message_header h front tail streams v)

-- A later chunk's prefix gives the previous header, if that has no extended timestamp.
pub parse_header-chunk_prefix_later :
    (h prev : ChunkHeader) (tail : List ℕ) (streams : Streams)
    → IsEncodable h
    → (streams h.chunk_stream_id).prev_header ≡ prev
    → prev.has_extended_timestamp ≡ false
    → parse_header streams (chunk_prefix h false ++ tail)
      ≡ ok (record { header = prev; size = length (chunk_prefix h false); streams = streams })
unfolding chunk_prefix parse_fmt3
parse_header-chunk_prefix_later h prev tail streams v e short =
    let front : List ℕ = basic_header 3 h.chunk_stream_id in
    let (id, fmt, pos) =
      parse_csid-basic_header 3 h.chunk_stream_id tail (omega arith) v.csid_from v.csid_to in
    parse_header_fmt3 streams (front ++ tail) h.chunk_stream_id (length front)
      (omega (arith, length-append front tail, pos)) fmt id
    ∙ rw (e, short)
