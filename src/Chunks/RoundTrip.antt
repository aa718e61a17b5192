-- ===== src/Chunks/RoundTrip.antt =====
-- Whatever encode_chunk writes for a sequence of messages, ChunkParser::parse gives back.
use rtmp_abr_transcoder.Base.{
  ℕ, ◌+◌, ◌≤◌, ◌<◌, ◌≡◌, ◌≢◌, refl, sym, ap, ◌∙◌, subst, Bool, true, false, List, [], ◌∷◌, ◌++◌,
  map, Option, none, some, ok, arith, leb, length, append_assoc, append-nil, length-append, ◌⊎◌,
  inl, inr,
}
use rtmp_abr_transcoder.Messages.Control.{set_chunk_size, type_number}
use rtmp_abr_transcoder.Chunks.Header.{ChunkHeader, Streams}
use rtmp_abr_transcoder.Chunks.Parse.{
  Chunk, ChunkParser, Progress, chunk_size_after, parse_loop, finish_parse, parse,
}
use rtmp_abr_transcoder.Chunks.Rounds.{parse_all}
use rtmp_abr_transcoder.Chunks.Encode.{encode_chunk}
use rtmp_abr_transcoder.Chunks.Frames.{frames, encode_chunk-frames}
use rtmp_abr_transcoder.Chunks.HeaderRoundTrip.{IsEncodable, received_header}
use rtmp_abr_transcoder.Chunks.Pass.{delivered}
use rtmp_abr_transcoder.Chunks.WholeMessage.{message_frames}

-- A message that survives the wire at the given chunk size: its header fits, its payload is not
-- empty and as long as the header says, its timestamp is short or it is sent in one chunk, and it
-- does not change the chunk size.
pub record IsSendable (chunk_size : ℕ) (c : Chunk) : Type 0 where
  pub encodable : IsEncodable c.header
  pub some_payload : c.payload ≢ []
  pub whole : length c.payload ≡ c.header.message_length
  pub short : (leb 0xffffff c.header.timestamp ≡ false) ⊎ (length c.payload ≤ chunk_size)
  pub plain : c.header.message_type_id ≢ type_number set_chunk_size

abbrev pub All {ℓ κ} : {A : Type ℓ} → (A → Type κ) → List A → Type κ
All P [] = Unit
All P (x ∷ xs) = P x × All P xs

-- The output of one encode_chunk after the other.
unfoldable pub encode_all : ℕ → List Chunk → Option (List ℕ)
encode_all chunk_size [] = some []
encode_all chunk_size (c ∷ cs) = elim (encode_chunk c.header c.payload chunk_size) [
  | none ↦ none
  | some bytes ↦ elim (encode_all chunk_size cs) [ none ↦ none | some more ↦ some (bytes ++ more) ]
]

abbrev pub received : Chunk → Chunk
received c = record c { header = received_header c.header }

-- No message is under way on any stream.
abbrev pub IsIdle : Streams → Type 0
IsIdle streams = (csid : ℕ) → (streams csid).bytes_received ≡ 0

abbrev pub sent : ℕ → List Chunk → List ℕ
sent chunk_size [] = []
sent chunk_size (c ∷ cs) =
    frames (length c.payload) c.header chunk_size true c.payload ++ sent chunk_size cs

abbrev delivered_all : ℕ → List Chunk → Progress → Progress
delivered_all chunk_size [] s = s
delivered_all chunk_size (c ∷ cs) s = delivered_all chunk_size cs (
    delivered (received_header c.header) c.payload
      (length (frames (length c.payload) c.header chunk_size true c.payload)) s)

pub encode_all-sent :
    (chunk_size : ℕ) (cs : List Chunk)
    → 0 < chunk_size
    → encode_all chunk_size cs ≡ some (sent chunk_size cs)
unfolding encode_all
encode_all-sent n [] h = refl
encode_all-sent n (c ∷ cs) h =
    rw (encode_chunk-frames c.header c.payload n h, encode_all) (rw (encode_all-sent n cs h) refl)

delivered-IsIdle :
    (h : ChunkHeader) (message : List ℕ) (n : ℕ) (s : Progress)
    → IsIdle s.streams
    → IsIdle (delivered h message n s).streams
delivered-IsIdle h message n s idle csid = ground (arith, idle csid)

chunk_size_after_plain :
    (h : ChunkHeader) (message : List ℕ) (n : ℕ)
    → h.message_type_id ≢ type_number set_chunk_size
    → chunk_size_after h message n ≡ n
unfolding chunk_size_after
chunk_size_after_plain h message n plain = ground arith

fits_one_chunk :
    {n m : ℕ} {short : Type 0} (length : ℕ) → m ≡ n → short ⊎ (length ≤ n) → short ⊎ (length ≤ m)
fits_one_chunk length e (inl s) = inl s
fits_one_chunk length e (inr small) = inr (omega arith)

-- One message, read at the chunk size at which it was sent.
sent_message :
    (fresh : Bool) (n : ℕ) (c : Chunk) (tail : List ℕ) (s : Progress)
    → 0 < n
    → s.chunk_size ≡ n
    → IsIdle s.streams
    → IsSendable n c
    → let bytes = frames (length c.payload) c.header n true c.payload in
      parse_all fresh (bytes ++ tail) s
      ≡ parse_all fresh tail (delivered (received_header c.header) c.payload (length bytes) s)
sent_message fresh n c tail s pos size idle v =
    subst
      (λ (k : ℕ).
        parse_all fresh (frames (length c.payload) c.header k true c.payload ++ tail) s
        ≡ parse_all fresh tail (
            delivered (received_header c.header) c.payload
              (length (frames (length c.payload) c.header k true c.payload)) s))
      size
      (message_frames fresh c.header c.payload tail s v.encodable (omega arith) v.some_payload
        v.whole (fits_one_chunk (length c.payload) size v.short) (idle c.header.chunk_stream_id))

parse_all-sent :
    (fresh : Bool) (n : ℕ) (cs : List Chunk) (s : Progress)
    → 0 < n
    → s.chunk_size ≡ n
    → IsIdle s.streams
    → All (IsSendable n) cs
    → parse_all fresh (sent n cs) s ≡ ok (delivered_all n cs s)
parse_all-sent fresh n [] s pos size idle all = unfold parse_loop in refl
parse_all-sent fresh n (c ∷ cs) s pos size idle (v, all) =
    let h = received_header c.header in
    let k = length (frames (length c.payload) c.header n true c.payload) in
    sent_message fresh n c (sent n cs) s pos size idle v
    ∙ parse_all-sent fresh n cs (delivered h c.payload k s) pos
        (chunk_size_after_plain h c.payload s.chunk_size v.plain ∙ size)
        (delivered-IsIdle h c.payload k s idle) all

delivered_all_lem :
    (n : ℕ) (cs : List Chunk) (s : Progress)
    → ((delivered_all n cs s).chunks ≡ s.chunks ++ map received cs)
      × ((delivered_all n cs s).offset ≡ s.offset + length (sent n cs))
delivered_all_lem n [] s = (sym (append-nil s.chunks), omega arith)
delivered_all_lem n (c ∷ cs) s =
    let bytes = frames (length c.payload) c.header n true c.payload in
    let s' = delivered (received_header c.header) c.payload (length bytes) s in
    let (chunks, offset) = delivered_all_lem n cs s' in
    (
      chunks ∙ append_assoc s.chunks (received c ∷ []) (map received cs),
      omega (arith, offset, length-append bytes (sent n cs)),
    )

finish_parse_whole :
    (p : ChunkParser) (bytes : List ℕ) (s : Progress)
    → p.buffer ≡ []
    → s.offset ≡ length bytes
    → let r = finish_parse p bytes (ok s) in
      (r.result ≡ ok s.chunks) × (r.consumed ≡ length bytes) × (r.parser.buffer ≡ [])
unfolding finish_parse
finish_parse_whole p bytes s empty e =
    let none_held : length p.buffer ≡ 0 = ap length empty in (refl, ground arith, ground arith)

parse_empty :
    (p : ChunkParser) (bytes : List ℕ)
    → p.buffer ≡ []
    → parse p bytes
      ≡ finish_parse p bytes (
          parse_all true bytes
            (record { chunk_size = p.chunk_size; streams = p.streams; chunks = []; offset = 0 }))
unfolding parse
parse_empty p bytes empty = simp empty

-- Messages that are encoded one after the other at the positive chunk size of the parser, and
-- reach a parser with nothing under way in one piece, are parsed into just these messages, in
-- order; the parser consumes all bytes and buffers none. The headers fit the wire format, with a
-- chunk stream from 2 to 65599; the messages are not empty and as long as their headers say, do
-- not change the chunk size, and have a timestamp below 0xffffff or fit one chunk.
pub parse-encode_all :
    (p : ChunkParser) (cs : List Chunk) (bytes : List ℕ)
    → 0 < p.chunk_size
    → p.buffer ≡ []
    → IsIdle p.streams
    → All (IsSendable p.chunk_size) cs
    → encode_all p.chunk_size cs ≡ some bytes
    → let r = parse p bytes in
      (r.result ≡ ok (map received cs)) × (r.consumed ≡ length bytes) × (r.parser.buffer ≡ [])
unfolding parse
parse-encode_all p cs bytes pos empty idle all e =
    let n = p.chunk_size in
    let start : Progress = record {
      chunk_size = n;
      streams = p.streams;
      chunks = [];
      offset = 0;
    } in
    let s = delivered_all n cs start in
    let wire : sent n cs ≡ bytes = cc (encode_all-sent n cs pos) in
    let loop : parse_all true bytes start ≡ ok s =
      rw (← wire) (parse_all-sent true n cs start pos refl idle all) in
    let (chunks, offset) = delivered_all_lem n cs start in
    rw (parse_empty p bytes empty, loop)
      (rw (← chunks) (finish_parse_whole p bytes s empty (rw (← wire) (offset ∙ omega arith))))
