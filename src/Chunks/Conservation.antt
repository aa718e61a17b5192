-- ===== src/Chunks/Conservation.antt =====
-- ChunkParser::parse on any data: the bytes that it moves over and those that it keeps.
use rtmp_abr_transcoder.Base.{
  ℕ, zero, suc, ◌+◌, ◌-◌, ◌≤◌, ◌≡◌, refl, ap, Bool, true, List, [], ◌∷◌, ◌++◌, Result, ok, arith,
  ltb, length, drop, length-drop, Bool-cases, Result-cases, inl, inr, drop_all,
}
use rtmp_abr_transcoder.Chunks.Header.{
  HeaderError, Parsed, parse_header, empty_data, not_enough_csid, not_enough_fmt0, not_enough_fmt1,
  not_enough_fmt2, not_enough_extended,
}
use rtmp_abr_transcoder.Chunks.Parse.{
  Chunk, ChunkParser, Progress, Round, next, wait, malformed, is_incomplete, is_empty, read_chunk,
  take_payload, bytes_to_read, begin_message, parse_round, parse_loop, finish_parse, parse,
}
use rtmp_abr_transcoder.Chunks.Rounds.{parse_round-Consumes}

-- Every error of a header says that data is missing.
is_incomplete_all : (e : HeaderError) → is_incomplete e ≡ true
unfolding is_incomplete
is_incomplete_all empty_data = refl
is_incomplete_all not_enough_csid = refl
is_incomplete_all not_enough_fmt0 = refl
is_incomplete_all not_enough_fmt1 = refl
is_incomplete_all not_enough_fmt2 = refl
is_incomplete_all not_enough_extended = refl

-- A pass ends with the next one, or it leaves `offset` where it is; it is never malformed.
RoundKind : Progress → Round → Type 0
RoundKind s (next rest s') = Unit {0}
RoundKind s (wait s') = s'.offset ≡ s.offset
RoundKind s (malformed e) = ⊥

read_chunk-RoundKind :
    (r : Parsed) (rest : List ℕ) (s : Progress) → RoundKind s (read_chunk r rest s)
unfolding RoundKind read_chunk take_payload
read_chunk-RoundKind r rest s =
    let n =
      bytes_to_read s.chunk_size r.header (begin_message (r.streams r.header.chunk_stream_id)) in
    elim (Bool-cases (ltb (length rest) (r.size + n))) [
      | inl e ↦ rw (read_chunk, RoundKind, e) refl
      | inr e ↦ rw (read_chunk, RoundKind, e) tt
    ]

parse_round-RoundKind :
    (fresh : Bool) (rest : List ℕ) (s : Progress) → RoundKind s (parse_round fresh rest s)
unfolding RoundKind parse_round
parse_round-RoundKind fresh rest s = elim (Result-cases (parse_header s.streams rest)) [
  | inl (r, e) ↦ rw (parse_round, e) (read_chunk-RoundKind r rest s)
  | inr (x, e) ↦ rw (parse_round, RoundKind, e, is_incomplete_all x) refl
]

-- The loop ends well, and moves `offset` over bytes of the data only.
record Advances (s : Progress) (rest : List ℕ) (r : Result HeaderError Progress) : Type 0 where
  last : Progress
  result : r ≡ ok last
  from : s.offset ≤ last.offset
  to : last.offset ≤ s.offset + length rest

parse_loop-Advances :
    (fuel : ℕ) (fresh : Bool) (rest : List ℕ) (s : Progress)
    → Advances s rest (parse_loop fuel fresh rest s)
unfolding parse_loop RoundKind
parse_loop-Advances fuel fresh [] s = record {
  last = s;
  result = refl;
  from = omega arith;
  to = omega arith;
}
parse_loop-Advances zero fresh (b ∷ bs) s = record {
  last = s;
  result = refl;
  from = omega arith;
  to = omega arith;
}
parse_loop-Advances (suc fuel) fresh (b ∷ bs) s =
    go (parse_loop-Advances fuel fresh) (parse_round fresh (b ∷ bs) s) refl
      (parse_round-RoundKind fresh (b ∷ bs) s)
  where
    go :
        ((rest : List ℕ) (s' : Progress) → Advances s' rest (parse_loop fuel fresh rest s'))
        → (r : Round) → parse_round fresh (b ∷ bs) s ≡ r
        → RoundKind s (parse_round fresh (b ∷ bs) s)
        → Advances s (b ∷ bs) (parse_loop (suc fuel) fresh (b ∷ bs) s)
    go ih (next rest' s') e kind =
        let c = parse_round-Consumes fresh (b ∷ bs) rest' s s' e in
        let a = ih rest' s' in
        let size = ap length c.dropped in
        let size' = length-drop c.count (b ∷ bs) in
        record {
          last = a.last;
          result = rw (parse_loop, e) a.result;
          from = omega (arith, a.from, c.moved);
          to = omega (arith, a.to, c.moved, c.within);
        }
    go ih (wait s') e kind =
        let same : s'.offset ≡ s.offset = rw e at kind in
        record { last = s'; result = rw (parse_loop, e); from = omega arith; to = omega arith }
    go ih (malformed x) e kind = absurd (rw e at kind)

-- On every input parse succeeds; it moves over some of the bytes that it held and was given, keeps
-- just the others, in order, and reports how many of the new bytes it moved over.
pub parse-conserves :
    (p : ChunkParser) (bytes : List ℕ)
    → let r = parse p bytes in
      (n : ℕ) × (chunks : List Chunk) × (r.result ≡ ok chunks)
      × (n ≤ length (p.buffer ++ bytes))
      × (r.parser.buffer ≡ drop n (p.buffer ++ bytes))
      × (r.consumed ≡ n - length p.buffer)
unfolding parse finish_parse
parse-conserves p bytes =
    let combined : List ℕ = p.buffer ++ bytes in
    let a =
      parse_loop-Advances (length combined) (is_empty p.buffer) combined
        (record { chunk_size = p.chunk_size; streams = p.streams; chunks = []; offset = 0 }) in
    rw (parse, finish_parse, a.result)
      (
        a.last.offset,
        a.last.chunks,
        refl,
        omega (arith, a.to),
        ground (arith, drop_all a.last.offset combined),
        ground arith,
      )
