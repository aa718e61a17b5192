-- ===== src/Chunks/Header.antt =====
-- ChunkHeader, StreamState and ChunkParser::parse_header.
use rtmp_abr_transcoder.Base.{
  ℕ, ◌+◌, ◌*◌, ◌%◌, ◌^◌, Bool, true, false, List, [], ◌∷◌, Result, ok, err, ltb, ◌==◌,
  if◌then◌else◌, length, drop,
}
use rtmp_abr_transcoder.Base.Bits.{shr, low_bits}
use rtmp_abr_transcoder.Bytes.{byte_at, read_u24_be, read_u32_be, read_u32_le}

pub record ChunkHeader : Type 0 where
  pub fmt : ℕ
  pub chunk_stream_id : ℕ
  pub timestamp : ℕ
  pub message_length : ℕ
  pub message_type_id : ℕ
  pub message_stream_id : ℕ
  pub has_extended_timestamp : Bool

abbrev pub default_header : ChunkHeader
default_header = record {
  fmt = 0;
  chunk_stream_id = 0;
  timestamp = 0;
  message_length = 0;
  message_type_id = 0;
  message_stream_id = 0;
  has_extended_timestamp = false;
}

pub record StreamState : Type 0 where
  pub prev_header : ChunkHeader
  pub partial_message : List ℕ
  pub bytes_received : ℕ

abbrev pub Streams : Type 0
Streams = ℕ → StreamState

abbrev pub no_streams : Streams
no_streams csid = record { prev_header = default_header; partial_message = []; bytes_received = 0 }

abbrev pub update : Streams → ℕ → StreamState → Streams
update streams csid state = λ j. if j == csid then state else streams j

-- The error texts of parse_header, one constructor for each.
pub data HeaderError : Type 0 where
  empty_data : HeaderError
  not_enough_csid not_enough_fmt0 not_enough_fmt1 not_enough_fmt2 not_enough_extended : HeaderError

-- The header, its size in bytes, and the streams with `prev_header` brought up to date.
pub record Parsed : Type 0 where
  pub header : ChunkHeader
  pub size : ℕ
  pub streams : Streams

infixl 5 ◌>>=◌
abbrev ◌>>=◌ {ℓ κ} :
    {A : Type ℓ} {B : Type κ}
    → Result HeaderError A
    → (A → Result HeaderError B)
    → Result HeaderError B
ok a >>= f = f a
err e >>= f = err e

-- The chunk stream id of the basic header, with the offset behind it.
unfoldable pub parse_csid : List ℕ → Result HeaderError (ℕ × ℕ)
parse_csid p =
    let id = low_bits (byte_at p 0) 6 in
    if id == 0
    then (if ltb (length p) 2 then err not_enough_csid else ok (64 + byte_at p 1, 2))
    else if id == 1
    then (if ltb (length p) 3
        then err not_enough_csid
        else ok (64 + byte_at p 1 + byte_at p 2 * 256, 3))
    else ok (id, 1)

-- A timestamp field of 0xFFFFFF stands for the four bytes at `offset`.
unfoldable pub parse_extended : List ℕ → ℕ → ℕ → Result HeaderError (ℕ × Bool × ℕ)
parse_extended p offset field =
    if field == 0xffffff
    then (if ltb (length p) (offset + 4)
        then err not_enough_extended
        else ok (read_u32_be (drop offset p), true, offset + 4))
    else ok (field, false, offset)

unfoldable pub parse_fmt0 : List ℕ → ℕ → ℕ → Streams → Result HeaderError Parsed
parse_fmt0 p csid offset streams = if ltb (length p) (offset + 11) then err not_enough_fmt0 else do
  (timestamp, extended, size) ← parse_extended p (offset + 11) (read_u24_be (drop offset p))
  let header : ChunkHeader = record {
    fmt = 0;
    chunk_stream_id = csid;
    timestamp = timestamp;
    message_length = read_u24_be (drop (offset + 3) p);
    message_type_id = byte_at p (offset + 6);
    message_stream_id = read_u32_le (drop (offset + 7) p);
    has_extended_timestamp = extended;
  }
  ok (record {
    header = header;
    size = size;
    streams = update streams csid (record (streams csid) { prev_header = header });
  })

unfoldable pub parse_fmt1 : List ℕ → ℕ → ℕ → Streams → Result HeaderError Parsed
parse_fmt1 p csid offset streams = if ltb (length p) (offset + 7) then err not_enough_fmt1 else do
  (delta, extended, size) ← parse_extended p (offset + 7) (read_u24_be (drop offset p))
  let prev = (streams csid).prev_header
  let header : ChunkHeader = record {
    fmt = 1;
    chunk_stream_id = csid;
    timestamp = (prev.timestamp + delta) % 2 ^ 32;
    message_length = read_u24_be (drop (offset + 3) p);
    message_type_id = byte_at p (offset + 6);
    message_stream_id = prev.message_stream_id;
    has_extended_timestamp = extended;
  }
  ok (record {
    header = header;
    size = size;
    streams = update streams csid (record (streams csid) { prev_header = header });
  })

-- Only the timestamp of `prev_header` is brought up to date.
unfoldable pub parse_fmt2 : List ℕ → ℕ → ℕ → Streams → Result HeaderError Parsed
parse_fmt2 p csid offset streams = if ltb (length p) (offset + 3) then err not_enough_fmt2 else do
  (delta, extended, size) ← parse_extended p (offset + 3) (read_u24_be (drop offset p))
  let prev = (streams csid).prev_header
  let timestamp : ℕ = (prev.timestamp + delta) % 2 ^ 32
  ok (record {
    header = record {
      fmt = 2;
      chunk_stream_id = csid;
      timestamp = timestamp;
      message_length = prev.message_length;
      message_type_id = prev.message_type_id;
      message_stream_id = prev.message_stream_id;
      has_extended_timestamp = extended;
    };
    size = size;
    streams =
        update streams csid
          (record (streams csid) { prev_header = record prev { timestamp = timestamp } });
  })

-- The previous header as it is, its own chunk stream id and format included.
unfoldable pub parse_fmt3 : List ℕ → ℕ → ℕ → Streams → Result HeaderError Parsed
parse_fmt3 p csid offset streams =
    let prev = (streams csid).prev_header in
    if prev.has_extended_timestamp
    then (if ltb (length p) (offset + 4)
        then err not_enough_extended
        else ok (record {
          header = record prev { timestamp = read_u32_be (drop offset p) };
          size = offset + 4;
          streams = streams;
        }))
    else ok (record { header = prev; size = offset; streams = streams })

unfoldable pub parse_header : Streams → List ℕ → Result HeaderError Parsed
parse_header streams [] = err empty_data
parse_header streams (b ∷ bs) =
    let fmt : ℕ = low_bits (shr b 6) 2 in
    do
      (csid, offset) ← parse_csid (b ∷ bs)
      if fmt == 0
          then parse_fmt0 (b ∷ bs) csid offset streams
          else if fmt == 1
          then parse_fmt1 (b ∷ bs) csid offset streams
          else if fmt == 2
          then parse_fmt2 (b ∷ bs) csid offset streams
          else parse_fmt3 (b ∷ bs) csid offset streams
