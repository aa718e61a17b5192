-- ===== src/Chunks/Rounds.antt =====
-- What one pass of the parser's loop consumes, and that the fuel of the loop is enough.
use rtmp_abr_transcoder.Base.{
  ℕ, zero, suc, ◌+◌, ◌≤◌, ◌<◌, ◌≡◌, ◌≢◌, refl, ap, Bool, List, [], ◌∷◌, Result, ok, arith, ltb,
  length, drop, length-drop, drop-drop, Bool-cases, Result-cases, inl, inr, ltb→le,
}
use rtmp_abr_transcoder.Chunks.Header.{
  StreamState, Streams, HeaderError, Parsed, parse_csid, parse_extended, parse_fmt0, parse_fmt1,
  parse_fmt2, parse_fmt3, parse_header,
}
use rtmp_abr_transcoder.Chunks.Parse.{
  Progress, Round, next, wait, malformed, take_payload, add_payload, read_chunk, bytes_to_read,
  begin_message, parse_round, parse_loop,
}

parse_csid_pos : (p : List ℕ) (c : ℕ × ℕ) → parse_csid p ≡ ok c → 0 < c.1
unfolding parse_csid
parse_csid_pos p c h = ground arith

parse_fmt0_pos :
    (p : List ℕ) (csid offset : ℕ) (streams : Streams) (r : Parsed)
    → parse_fmt0 p csid offset streams ≡ ok r
    → offset ≤ r.size
unfolding parse_fmt0 parse_extended
parse_fmt0_pos p csid offset streams r h = ground arith

parse_fmt1_pos :
    (p : List ℕ) (csid offset : ℕ) (streams : Streams) (r : Parsed)
    → parse_fmt1 p csid offset streams ≡ ok r
    → offset ≤ r.size
unfolding parse_fmt1 parse_extended
parse_fmt1_pos p csid offset streams r h = ground arith

parse_fmt2_pos :
    (p : List ℕ) (csid offset : ℕ) (streams : Streams) (r : Parsed)
    → parse_fmt2 p csid offset streams ≡ ok r
    → offset ≤ r.size
unfolding parse_fmt2 parse_extended
parse_fmt2_pos p csid offset streams r h = ground arith

parse_fmt3_pos :
    (p : List ℕ) (csid offset : ℕ) (streams : Streams) (r : Parsed)
    → parse_fmt3 p csid offset streams ≡ ok r
    → offset ≤ r.size
unfolding parse_fmt3
parse_fmt3_pos p csid offset streams r h = ground arith

-- A header takes a byte at least.
pub parse_header_pos :
    (streams : Streams) (p : List ℕ) (r : Parsed) → parse_header streams p ≡ ok r → 0 < r.size
unfolding parse_header
parse_header_pos streams [] r h = cc
parse_header_pos streams (b ∷ bs) r h = elim (Result-cases (parse_csid (b ∷ bs))) [
  | inl ((csid, offset), e) ↦ ground (
    arith,
    e,
    parse_csid_pos (b ∷ bs) (csid, offset) e,
    parse_fmt0_pos (b ∷ bs) csid offset streams r,
    parse_fmt1_pos (b ∷ bs) csid offset streams r,
    parse_fmt2_pos (b ∷ bs) csid offset streams r,
    parse_fmt3_pos (b ∷ bs) csid offset streams r,
  )
  | inr (x, e) ↦ ground (arith, e)
]

-- A pass that goes on drops at least one byte of the data and at most all of it, and `offset` says
-- how many.
pub record Consumes (rest rest' : List ℕ) (s s' : Progress) : Type 0 where
  pub count : ℕ
  pub pos : 0 < count
  pub within : count ≤ length rest
  pub dropped : rest' ≡ drop count rest
  pub moved : s'.offset ≡ s.offset + count

take_payload-Consumes :
    (r : Parsed) (rest : List ℕ) (n : ℕ) (state : StreamState) (s s' : Progress) (rest' : List ℕ)
    → 0 < r.size
    → r.size + n ≤ length rest
    → take_payload r rest n state s ≡ next rest' s'
    → Consumes rest rest' s s'
unfolding take_payload add_payload
take_payload-Consumes r rest n state s s' rest' hr hn e = record {
  count = r.size + n;
  pos = omega arith;
  within = hn;
  dropped = ground (arith, drop-drop n r.size (r.size + n) rest);
  moved = ground arith;
}

read_chunk-Consumes :
    (r : Parsed) (rest : List ℕ) (s s' : Progress) (rest' : List ℕ)
    → 0 < r.size
    → read_chunk r rest s ≡ next rest' s'
    → Consumes rest rest' s s'
unfolding read_chunk
read_chunk-Consumes r rest s s' rest' hr e =
    let state = begin_message (r.streams r.header.chunk_stream_id) in
    let n = bytes_to_read s.chunk_size r.header state in
    elim (Bool-cases (ltb (length rest) (r.size + n))) [
      | inl short ↦ ground (arith, short)
      | inr long ↦
          take_payload-Consumes r rest n state s s' rest' hr (ltb→le _ _ long) (rw long at e)
    ]

pub parse_round-Consumes :
    (fresh : Bool) (rest rest' : List ℕ) (s s' : Progress)
    → parse_round fresh rest s ≡ next rest' s'
    → Consumes rest rest' s s'
unfolding parse_round
parse_round-Consumes fresh rest rest' s s' e = elim (Result-cases (parse_header s.streams rest)) [
  | inl (r, p) ↦
      read_chunk-Consumes r rest s s' rest' (parse_header_pos s.streams rest r p)
        (rw (p, parse_round) at e)
  | inr (x, p) ↦ ground (arith, p)
]

pub Consumes-shorter :
    {rest rest' : List ℕ} {s s' : Progress} → Consumes rest rest' s s' → length rest' < length rest
Consumes-shorter {rest} {rest'} c =
    omega (arith, ap length c.dropped, length-drop c.count rest, c.pos, c.within)

-- The loop of the parser ends within as many passes as there are bytes: any two bounds that reach
-- the number of bytes give the same result.
pub parse_loop_fuel :
    (f g : ℕ) (fresh : Bool) (rest : List ℕ) (s : Progress)
    → length rest ≤ f
    → length rest ≤ g
    → parse_loop f fresh rest s ≡ parse_loop g fresh rest s
unfolding parse_loop
parse_loop_fuel zero zero fresh [] s hf hg = refl
parse_loop_fuel zero (suc g) fresh [] s hf hg = refl
parse_loop_fuel (suc f) zero fresh [] s hf hg = refl
parse_loop_fuel (suc f) (suc g) fresh [] s hf hg = refl
parse_loop_fuel zero g fresh (b ∷ bs) s hf hg = absurd (omega arith)
parse_loop_fuel (suc f) zero fresh (b ∷ bs) s hf hg = absurd (omega arith)
parse_loop_fuel (suc f) (suc g) fresh (b ∷ bs) s hf hg =
    go (parse_loop_fuel f g fresh) (parse_round fresh (b ∷ bs) s) refl
  where
    go :
        ((rest : List ℕ) (s' : Progress)
          → length rest ≤ f
          → length rest ≤ g
          → parse_loop f fresh rest s' ≡ parse_loop g fresh rest s')
        → (r : Round) → parse_round fresh (b ∷ bs) s ≡ r
        → parse_loop (suc f) fresh (b ∷ bs) s ≡ parse_loop (suc g) fresh (b ∷ bs) s
    go ih (next rest' s') e =
        let shorter = Consumes-shorter (parse_round-Consumes fresh (b ∷ bs) rest' s s' e) in
        rw (e, parse_loop) (ih rest' s' (omega arith) (omega arith))
    go ih (wait s') e = rw (e, parse_loop)
    go ih (malformed x) e = rw (e, parse_loop)

-- The loop with just enough fuel.
abbrev pub parse_all : Bool → List ℕ → Progress → Result HeaderError Progress
parse_all fresh rest s = parse_loop (length rest) fresh rest s

pub parse_all_next :
    (fresh : Bool) (rest rest' : List ℕ) (s s' : Progress)
    → parse_round fresh rest s ≡ next rest' s'
    → parse_all fresh rest s ≡ parse_all fresh rest' s'
unfolding parse_loop
parse_all_next fresh [] rest' s s' e =
    absurd (omega (arith, parse_round-Consumes fresh [] rest' s s' e))
parse_all_next fresh (b ∷ bs) rest' s s' e =
    let shorter = Consumes-shorter (parse_round-Consumes fresh (b ∷ bs) rest' s s' e) in
    rw (e, parse_loop)
      (parse_loop_fuel (length bs) (length rest') fresh rest' s' (omega arith) (omega arith))

pub parse_all_wait :
    (fresh : Bool) (rest : List ℕ) (s s' : Progress)
    → rest ≢ []
    → parse_round fresh rest s ≡ wait s'
    → parse_all fresh rest s ≡ ok s'
unfolding parse_loop
parse_all_wait fresh [] s s' h e = absurd (h refl)
parse_all_wait fresh (b ∷ bs) s s' h e = rw (e, parse_loop)
