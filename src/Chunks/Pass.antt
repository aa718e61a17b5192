-- ===== src/Chunks/Pass.antt =====
-- One pass of the parser's loop over a frame of encode_chunk, and the state after it.
use rtmp_abr_transcoder.Base.{
  ℕ, suc, ◌+◌, ◌-◌, ◌%◌, ◌^◌, ◌≤◌, ◌<◌, ◌≡◌, refl, fun_ext, min, Bool, false, List, [], ◌∷◌, ◌++◌,
  ok, arith, leb, length, drop, take, take-append, drop-append, length-append, le→ltb, le→leb,
  ==_self,
}
use rtmp_abr_transcoder.Chunks.Header.{
  ChunkHeader, StreamState, Streams, update, Parsed, parse_header,
}
use rtmp_abr_transcoder.Chunks.Parse.{
  Progress, next, bytes_to_read, begin_message, add_payload, take_payload, read_chunk, parse_round,
  chunk_size_after,
}
use rtmp_abr_transcoder.Chunks.Encode.{chunk_prefix}
use rtmp_abr_transcoder.Chunks.Frames.{frames, frames_more}

-- One pass over a prefix whose header is known and a body of just the bytes to read.
read_chunk_frame :
    (front body tail : List ℕ) (header : ChunkHeader) (streams : Streams) (s : Progress)
    → let state = begin_message (streams header.chunk_stream_id) in
      let parsed : Parsed = record { header = header; size = length front; streams = streams } in
      bytes_to_read s.chunk_size header state ≡ length body
      → read_chunk parsed (front ++ (body ++ tail)) s
        ≡ next tail (add_payload parsed body (length body) state s)
unfolding take_payload read_chunk
read_chunk_frame front body tail header streams s n =
    let enough : length front + length body ≤ length (front ++ (body ++ tail)) =
      omega (arith, length-append front (body ++ tail), length-append body tail) in
    rw (n, read_chunk)
      (rw
        (
          le→ltb _ _ enough,
          drop-append (length front) front (body ++ tail) refl,
          drop-append (length body) body tail refl,
          take-append (length body) body tail refl,
        )
        refl)

pub parse_round_frame :
    (fresh : Bool) (front body tail : List ℕ) (header : ChunkHeader) (streams : Streams)
    (s : Progress)
    → let parsed : Parsed = record { header = header; size = length front; streams = streams } in
      let state = begin_message (streams header.chunk_stream_id) in
      parse_header s.streams (front ++ (body ++ tail)) ≡ ok parsed
      → bytes_to_read s.chunk_size header state ≡ length body
      → parse_round fresh (front ++ (body ++ tail)) s
        ≡ next tail (add_payload parsed body (length body) state s)
unfolding parse_round
parse_round_frame fresh front body tail header streams s e n =
    rw (e, parse_round) (read_chunk_frame front body tail header streams s n)

pub update_twice :
    (streams : Streams) (id : ℕ) (a b : StreamState)
    → update (update streams id a) id b ≡ update streams id b
update_twice streams id a b = fun_ext (λ j. ground arith)

pub update_self : (streams : Streams) (id : ℕ) (a : StreamState) → update streams id a id ≡ a
update_self streams id a = rw (==_self id)

pub length-frames_more :
    (fuel : ℕ) (h : ChunkHeader) (cs : ℕ) (first : Bool) (rest : List ℕ)
    → cs < length rest
    → length (frames (suc fuel) h cs first rest)
      ≡ length (chunk_prefix h first)
        + length (take cs rest)
        + length (frames fuel h cs false (drop cs rest))
length-frames_more fuel h cs first rest more =
    let front = chunk_prefix h first in
    let others = frames fuel h cs false (drop cs rest) in
    rw (frames_more fuel h cs first rest more) (
      omega
        (arith, length-append front (take cs rest ++ others), length-append (take cs rest) others))

-- The progress after a whole message of `n` bytes on the wire.
abbrev pub idle_state : ChunkHeader → StreamState
idle_state h = record { prev_header = h; partial_message = []; bytes_received = 0 }

abbrev pub delivered : ChunkHeader → List ℕ → ℕ → Progress → Progress
delivered header message n s = record {
  chunk_size = chunk_size_after header message s.chunk_size;
  streams = update s.streams header.chunk_stream_id (idle_state header);
  chunks = s.chunks ++ (record { header = header; payload = message } ∷ []);
  offset = s.offset + n;
}

-- A part of a message is held: its header and the bytes so far.
abbrev pub held : ChunkHeader → List ℕ → StreamState
held header acc = record {
  prev_header = header;
  partial_message = acc;
  bytes_received = length acc;
}

-- `add_payload` at the last piece of a message.
pub add_payload_whole :
    (h : ChunkHeader) (acc piece : List ℕ) (size : ℕ) (streams : Streams) (s : Progress)
    → h.message_length ≤ length acc + length piece
    → length acc + length piece < 2 ^ 32
    → add_payload
        (record { header = h; size = size; streams = streams })
        piece
        (length piece)
        (held h acc)
        s
      ≡ record (delivered h (acc ++ piece) (size + length piece) s) {
        streams = update streams h.chunk_stream_id (idle_state h);
      }
unfolding add_payload
add_payload_whole h acc piece size streams s whole fits =
    let received : (length acc + length piece) % 2 ^ 32 ≡ length acc + length piece = omega arith in
    let sum : s.offset + size + length piece ≡ s.offset + (size + length piece) = omega arith in
    rw (received, le→leb _ _ whole, sum) refl

-- And at an earlier piece.
pub add_payload_part :
    (h : ChunkHeader) (acc piece : List ℕ) (size : ℕ) (streams : Streams) (s : Progress)
    → length acc + length piece < h.message_length
    → h.message_length < 2 ^ 32
    → add_payload
        (record { header = h; size = size; streams = streams })
        piece
        (length piece)
        (held h acc)
        s
      ≡ record s {
        streams = update streams h.chunk_stream_id (held h (acc ++ piece));
        offset = s.offset + (size + length piece);
      }
unfolding add_payload
add_payload_part h acc piece size streams s part fits =
    let received : (length acc + length piece) % 2 ^ 32 ≡ length (acc ++ piece) =
      omega (arith, length-append acc piece) in
    let sum : s.offset + size + length piece ≡ s.offset + (size + length piece) = omega arith in
    let test : leb h.message_length (length (acc ++ piece)) ≡ false =
      ground (arith, length-append acc piece) in
    rw (received, test, sum) refl

pub delivered_later :
    (h : ChunkHeader) (message : List ℕ) (m n k : ℕ) (state : StreamState) (s : Progress)
    → k ≡ m + n
    → delivered h message n
        (record s { streams = update s.streams h.chunk_stream_id state; offset = s.offset + m })
      ≡ delivered h message k s
delivered_later h message m n k state s e =
    let sum : s.offset + m + n ≡ s.offset + k = omega arith in
    rw (update_twice s.streams h.chunk_stream_id state (idle_state h), sum) refl

pub begin_message-held :
    (h : ChunkHeader) (acc : List ℕ) → 0 < length acc → begin_message (held h acc) ≡ held h acc
unfolding begin_message
begin_message-held h acc pos = ground arith

pub bytes_to_read-held :
    (h : ChunkHeader) (acc : List ℕ) (cs left : ℕ)
    → length acc + left ≡ h.message_length
    → h.message_length < 2 ^ 32
    → bytes_to_read cs h (held h acc) ≡ min cs left
unfolding bytes_to_read
bytes_to_read-held h acc cs left e fits =
    let rest : (h.message_length + 2 ^ 32 - length acc) % 2 ^ 32 ≡ left = omega arith in rw rest
