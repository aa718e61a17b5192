-- ===== src/Chunks/Parse.antt =====
-- ChunkParser::parse. `parse_round` is one pass of its loop; the state carries what the pass
-- changes, and `rest` is `combined_data` from `offset` on. The loop takes fuel: each pass that goes
-- on consumes a header, which has a byte at least, so the length of the data is enough.
use Prim.Native.String.{String}
use text.Mathlib.Text.{find?}
use rtmp_abr_transcoder.Base.{
  ℕ, zero, suc, ◌+◌, ◌-◌, ◌*◌, ◌%◌, ◌^◌, min, Bool, true, false, not, ◌&&◌, ◌||◌, List, [], ◌∷◌,
  ◌++◌, Option, none, some, Result, ok, err, ltb, leb, ◌==◌, if◌then◌else◌, length, take, drop,
}
use rtmp_abr_transcoder.Messages.Control.{
  SetChunkSizeMessage, parse_set_chunk_size, set_chunk_size, type_number,
}
use rtmp_abr_transcoder.Chunks.Header.{
  ChunkHeader, StreamState, Streams, no_streams, update, HeaderError, empty_data, not_enough_csid,
  not_enough_fmt0, not_enough_fmt1, not_enough_fmt2, not_enough_extended, Parsed, parse_header,
}

pub record Chunk : Type 0 where
  pub header : ChunkHeader
  pub payload : List ℕ

pub record ChunkParser : Type 0 where
  pub chunk_size : ℕ
  pub streams : Streams
  pub buffer : List ℕ

unfoldable pub new_parser : ℕ → ChunkParser
new_parser chunk_size = record { chunk_size = chunk_size; streams = no_streams; buffer = [] }

-- ChunkParser::set_chunk_size: no check.
unfoldable pub set_parser_chunk_size : ℕ → ChunkParser → ChunkParser
set_parser_chunk_size size p = record p { chunk_size = size }

-- The texts of the errors.
error_text : HeaderError → String
error_text empty_data = "Empty data"
error_text not_enough_csid = "Not enough data for csid"
error_text not_enough_fmt0 = "Not enough data for fmt 0"
error_text not_enough_fmt1 = "Not enough data for fmt 1"
error_text not_enough_fmt2 = "Not enough data for fmt 2"
error_text not_enough_extended = "Not enough data for extended timestamp"

-- `error.find(text) != std::string::npos`
contains : String → String → Bool
contains text error = elim (find? error text) [ some position ↦ true | none ↦ false ]

unfoldable pub is_incomplete : HeaderError → Bool
unfolding error_text contains
is_incomplete e = contains "Not enough data" (error_text e) || contains "Empty data" (error_text e)

abbrev pub max_chunk_size : ℕ
max_chunk_size = 16 * 1024 * 1024

accept_chunk_size : Option SetChunkSizeMessage → ℕ → ℕ
accept_chunk_size none current = current
accept_chunk_size (some msg) current =
    if msg.chunk_size == 0
    then current
    else if leb msg.chunk_size max_chunk_size
    then msg.chunk_size
    else current

-- The chunk size after a whole message: a SetChunkSize message that parses, is not 0 and is at
-- most 16 MiB takes effect at once.
unfoldable pub chunk_size_after : ChunkHeader → List ℕ → ℕ → ℕ
unfolding accept_chunk_size
chunk_size_after header payload current =
    if header.message_type_id == type_number set_chunk_size
    then accept_chunk_size (parse_set_chunk_size payload) current
    else current

-- The variables of the loop. `last_good_offset` is set to `offset` wherever `offset` changes.
pub record Progress : Type 0 where
  pub chunk_size : ℕ
  pub streams : Streams
  pub chunks : List Chunk
  pub offset : ℕ

pub data Round : Type 0 where
  -- The next pass starts at the given data.
  next : List ℕ → Progress → Round
  -- `break`: the data is not a whole chunk yet.
  wait : Progress → Round
  malformed : HeaderError → Round

-- `std::min(chunk_size_, header.message_length - state.bytes_received)` on uint32_t.
unfoldable pub bytes_to_read : ℕ → ChunkHeader → StreamState → ℕ
bytes_to_read chunk_size header state =
    min chunk_size ((header.message_length + 2 ^ 32 - state.bytes_received) % 2 ^ 32)

-- The state with `partial_message` cleared at the start of a message.
unfoldable pub begin_message : StreamState → StreamState
begin_message state =
    if state.bytes_received == 0 then record state { partial_message = [] } else state

-- From "We have enough data": the bytes `piece` of the payload, and the message if it is whole.
unfoldable pub add_payload : Parsed → List ℕ → ℕ → StreamState → Progress → Progress
add_payload parsed piece n state s =
    let header = parsed.header in
    let id = header.chunk_stream_id in
    let message : List ℕ = state.partial_message ++ piece in
    let received : ℕ = (state.bytes_received + n) % 2 ^ 32 in
    if leb header.message_length received
    then record {
      chunk_size = chunk_size_after header message s.chunk_size;
      streams =
          update parsed.streams id (record state { partial_message = []; bytes_received = 0 });
      chunks = s.chunks ++ (record { header = header; payload = message } ∷ []);
      offset = s.offset + parsed.size + n;
    }
    else record s {
      streams =
          update parsed.streams id
            (record state { partial_message = message; bytes_received = received });
      offset = s.offset + parsed.size + n;
    }

unfoldable pub take_payload : Parsed → List ℕ → ℕ → StreamState → Progress → Round
take_payload parsed rest n state s =
    let body = drop parsed.size rest in
    next (drop n body) (add_payload parsed (take n body) n state s)

unfoldable pub read_chunk : Parsed → List ℕ → Progress → Round
read_chunk parsed rest s =
    let header = parsed.header in
    let id = header.chunk_stream_id in
    let state = begin_message (parsed.streams id) in
    let n = bytes_to_read s.chunk_size header state in
    if ltb (length rest) (parsed.size + n)
    then wait (record s { streams = update parsed.streams id state })
    else take_payload parsed rest n state s

abbrev pub is_empty {ℓ} : {A : Type ℓ} → List A → Bool
is_empty [] = true
is_empty (x ∷ xs) = false

unfoldable pub parse_round : Bool → List ℕ → Progress → Round
parse_round fresh rest s = elim (parse_header s.streams rest) [
  | err e ↦
      if not (is_incomplete e) && is_empty s.chunks && s.offset == 0 && fresh
      then malformed e
      else wait s
  | ok parsed ↦ read_chunk parsed rest s
]

-- `fresh` is `buffer_.empty()`, which does not change in the loop.
unfoldable pub parse_loop : ℕ → Bool → List ℕ → Progress → Result HeaderError Progress
parse_loop fuel fresh [] s = ok s
parse_loop zero fresh (b ∷ bs) s = ok s
parse_loop (suc fuel) fresh (b ∷ bs) s = elim (parse_round fresh (b ∷ bs) s) [
  | next rest s' ↦ parse_loop fuel fresh rest s'
  | wait s' ↦ ok s'
  | malformed e ↦ err e
]

-- The chunks of one call, the value of `consumed`, and the parser after it.
pub record Parsing : Type 0 where
  pub result : Result HeaderError (List Chunk)
  pub consumed : ℕ
  pub parser : ChunkParser

-- What follows the loop.
unfoldable pub finish_parse : ChunkParser → List ℕ → Result HeaderError Progress → Parsing
finish_parse p combined (err e) = record {
  result = err e;
  consumed = 0;
  parser = record p { buffer = [] };
}
finish_parse p combined (ok s) = record {
  result = ok s.chunks;
  consumed = if leb (length p.buffer) s.offset then s.offset - length p.buffer else 0;
  parser = record {
    chunk_size = s.chunk_size;
    streams = s.streams;
    buffer = if ltb s.offset (length combined) then drop s.offset combined else [];
  };
}

unfoldable pub parse : ChunkParser → List ℕ → Parsing
parse p data' =
    let combined : List ℕ = p.buffer ++ data' in
    let start : Progress = record {
      chunk_size = p.chunk_size;
      streams = p.streams;
      chunks = [];
      offset = 0;
    } in
    finish_parse p combined (parse_loop (length combined) (is_empty p.buffer) combined start)
