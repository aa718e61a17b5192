-- ===== src/Session/Transfer.antt =====
-- Messages from one session to another.
use rtmp_abr_transcoder.Base.{
  ℕ, ◌%◌, ◌^◌, ◌≤◌, ◌<◌, ◌≡◌, ◌≢◌, refl, ap, sym, ◌∙◌, true, false, List, [], ◌∷◌, ◌++◌, map,
  Option, some, ok, arith, leb, ◌==◌, length, append_assoc, append-nil, ◌⊎◌, inl, inr, Bool-cases,
  ==_iff,
}
use rtmp_abr_transcoder.Base.Options.{◌>>=◌}
use rtmp_abr_transcoder.Messages.Control.{Message, type_number, set_chunk_size}
use rtmp_abr_transcoder.Chunks.Header.{ChunkHeader}
use rtmp_abr_transcoder.Chunks.Parse.{Chunk, parse}
use rtmp_abr_transcoder.Chunks.Frames.{frames, encode_chunk-frames}
use rtmp_abr_transcoder.Chunks.RoundTrip.{
  IsSendable, All, IsIdle, received, encode_all, sent, encode_all-sent, parse-encode_all,
}
use rtmp_abr_transcoder.Handshake.{done}
use rtmp_abr_transcoder.Buffer.{readable}
use rtmp_abr_transcoder.Buffer.Refinement.{IsBuffer, append-Appended}
use rtmp_abr_transcoder.Session.{
  Session, chunk_stream_of, header_of, message_of, write_chunk, send_message, get_outgoing_data,
  apply_chunk_size, deliver, process_input, is_done,
}

-- A message that reaches the other side at the given chunk size.
pub record IsTransferable (chunk_size : ℕ) (msg : Message) : Type 0 where
  pub plain : msg.type_id ≢ type_number set_chunk_size
  pub some_payload : msg.payload ≢ []
  pub payload_fits : length msg.payload < 2 ^ 24
  pub timestamp_fits : msg.timestamp < 2 ^ 32
  pub stream_fits : msg.stream_id < 2 ^ 32
  pub short : (leb 0xffffff msg.timestamp ≡ false) ⊎ (length msg.payload ≤ chunk_size)

abbrev pub chunk_of : Message → Chunk
chunk_of msg = record { header = header_of msg; payload = msg.payload }

chunk_stream_of_range :
    (type_id : ℕ) → (2 ≤ chunk_stream_of type_id) × (chunk_stream_of type_id < 65600)
unfolding chunk_stream_of
chunk_stream_of_range type_id = ground arith

chunk_of-IsSendable : (n : ℕ) (msg : Message) → IsTransferable n msg → IsSendable n (chunk_of msg)
unfolding header_of
chunk_of-IsSendable n msg t =
    let (low, high) = chunk_stream_of_range msg.type_id in
    let fits : length msg.payload % 2 ^ 32 ≡ length msg.payload = omega (arith, t.payload_fits) in
    record {
      encodable = record {
        csid_from = low;
        csid_to = high;
        timestamp_fits = t.timestamp_fits;
        length_fits = omega (arith, t.payload_fits);
        stream_fits = t.stream_fits;
      };
      some_payload = t.some_payload;
      whole = sym fits;
      short = t.short;
      plain = t.plain;
    }

All-IsSendable :
    (n : ℕ) (ms : List Message) → All (IsTransferable n) ms → All (IsSendable n) (map chunk_of ms)
All-IsSendable n [] all = tt
All-IsSendable n (msg ∷ ms) (t, all) = (chunk_of-IsSendable n msg t, All-IsSendable n ms all)

-- The messages are what their chunks carry.
message_of-received : (ms : List Message) → map message_of (map received (map chunk_of ms)) ≡ ms
unfolding message_of header_of
message_of-received [] = refl
message_of-received (msg ∷ ms) = ap (◌∷◌ msg) (message_of-received ms)

-- The write buffer is a queue that was never read in part.
pub record IsReady (s : Session) : Type 0 where
  pub valid : IsBuffer s.write_buffer
  pub unread : s.write_buffer.read_pos ≡ 0
  pub chunk_size_pos : 0 < s.out_chunk_size

module _ (grow : ℕ → ℕ → ℕ) (memory : ℕ) where
  -- send_message for each message.
  pub send_all : List Message → Session → Option Session
  send_all [] s = some s
  send_all (msg ∷ ms) s = do s' ← send_message grow memory msg s; send_all ms s'

  -- The session behind a call that wrote `bytes`.
  pub record Wrote (bytes : List ℕ) (s : Session) (r : Option Session) : Type 0 where
    pub after : Session
    pub defined : r ≡ some after
    pub contents : readable after.write_buffer ≡ readable s.write_buffer ++ bytes
    pub ready : IsReady after
    pub same_size : after.out_chunk_size ≡ s.out_chunk_size
    pub same_handshake : after.handshake ≡ s.handshake

  pub write_chunk-Wrote :
      (header : ChunkHeader) (payload : List ℕ) (s : Session)
      → IsReady s
      → Wrote
          (frames (length payload) header s.out_chunk_size true payload)
          s
          (write_chunk grow memory header payload s)
  unfolding write_chunk
  write_chunk-Wrote header payload s r =
      let bytes = frames (length payload) header s.out_chunk_size true payload in
      let a = append-Appended grow memory bytes s.write_buffer r.valid in
      let (unread, valid) = a.valid r.unread in
      record {
        after = record s { write_buffer = a.after };
        defined =
            rw (encode_chunk-frames header payload s.out_chunk_size r.chunk_size_pos, write_chunk)
              (rw a.defined refl);
        contents = a.contents;
        ready = record { valid = valid; unread = unread; chunk_size_pos = r.chunk_size_pos };
        same_size = refl;
        same_handshake = refl;
      }

  send_all-Wrote :
      (ms : List Message) (s : Session)
      → IsReady s
      → Wrote (sent s.out_chunk_size (map chunk_of ms)) s (send_all ms s)
  unfolding send_all send_message
  send_all-Wrote [] s r = record {
    after = s;
    defined = refl;
    contents = sym (append-nil (readable s.write_buffer));
    ready = r;
    same_size = refl;
    same_handshake = refl;
  }
  send_all-Wrote (msg ∷ ms) s r =
      let first = write_chunk-Wrote (header_of msg) msg.payload s r in
      let others = send_all-Wrote ms first.after first.ready in
      record {
        after = others.after;
        defined = rw first.defined others.defined;
        contents =
            rw first.same_size at others.contents
            ∙ ap (λ (xs : List ℕ). xs ++ sent s.out_chunk_size (map chunk_of ms)) first.contents
            ∙ append_assoc (readable s.write_buffer)
                (frames (length msg.payload) (header_of msg) s.out_chunk_size true msg.payload)
                (sent s.out_chunk_size (map chunk_of ms));
        ready = others.ready;
        same_size = others.same_size ∙ first.same_size;
        same_handshake = others.same_handshake ∙ first.same_handshake;
      }

-- A callback that only records the messages.
abbrev pub record_message : Message → Session × List Message → Option (Session × List Message)
record_message msg (s, log) = some (s, log ++ (msg ∷ []))

apply_chunk_size-plain :
    (msg : Message) (s : Session)
    → msg.type_id ≢ type_number set_chunk_size
    → apply_chunk_size msg s ≡ s
unfolding apply_chunk_size
apply_chunk_size-plain msg s plain = elim (Bool-cases (msg.type_id == 1)) [
  | inl e ↦ absurd (plain ((==_iff msg.type_id 1).0 e))
  | inr e ↦ rw e
]

deliver-record_message :
    (n : ℕ) (ms log : List Message) (s : Session)
    → All (IsTransferable n) ms
    → deliver record_message (map received (map chunk_of ms)) (s, log) ≡ some (s, log ++ ms)
unfolding deliver message_of header_of
deliver-record_message n [] log s all =
    ap (λ (xs : List Message). some (s, xs)) (sym (append-nil log))
deliver-record_message n (msg ∷ ms) log s (t, all) = rw (apply_chunk_size-plain msg s t.plain) (
    deliver-record_message n ms (log ++ (msg ∷ [])) s all
    ∙ ap (λ (xs : List Message). some (s, xs)) (append_assoc log (msg ∷ []) ms))

-- A session whose handshake is over, with nothing under way.
pub record IsListening (s : Session) : Type 0 where
  pub established : s.handshake.state ≡ done
  pub no_bytes : s.parser.buffer ≡ []
  pub idle : IsIdle s.parser.streams

receives :
    (ms : List Message) (bytes : List ℕ) (s : Session)
    → IsListening s
    → 0 < s.parser.chunk_size
    → All (IsTransferable s.parser.chunk_size) ms
    → encode_all s.parser.chunk_size (map chunk_of ms) ≡ some bytes
    → (s' : Session) × (process_input record_message bytes (s, [])
        ≡ some (ok (length bytes), (s', ms)))
unfolding process_input
receives ms bytes s l pos all e =
    let parsed =
      parse-encode_all s.parser (map chunk_of ms) bytes pos l.no_bytes l.idle
        (All-IsSendable s.parser.chunk_size ms all) e in
    let s' = record s { parser = (parse s.parser bytes).parser } in
    (
      s',
      rw
          (
            ap is_done l.established,
            parsed.0,
            process_input,
            deliver-record_message s.parser.chunk_size ms [] s' all,
          )
          (ap (λ (n : ℕ). some (ok n, (s', ms))) parsed.1),
    )

module _ (grow : ℕ → ℕ → ℕ) (memory : ℕ) where
  -- Messages that one session sends, and that reach another in one piece, are given to its
  -- callback unchanged and in order, and all bytes are consumed. The chunk sizes of both sides are
  -- equal and positive, the write buffer of the sender is empty and was not read in part, and the
  -- handshake of the receiver is over and it has nothing under way. The messages are no
  -- SetChunkSize messages, are not empty and shorter than 2 ^ 24 bytes, have a timestamp and a
  -- stream id of 32 bits, and have a timestamp below 0xffffff or fit one chunk.
  pub transfer :
      (sender receiver : Session) (ms : List Message)
      → IsReady sender
      → readable sender.write_buffer ≡ []
      → IsListening receiver
      → receiver.parser.chunk_size ≡ sender.out_chunk_size
      → All (IsTransferable sender.out_chunk_size) ms
      → (sender' receiver' : Session) × (send_all grow memory ms sender ≡ some sender')
        × (let bytes = (get_outgoing_data sender').0 in
            process_input record_message bytes (receiver, [])
            ≡ some (ok (length bytes), (receiver', ms)))
  unfolding get_outgoing_data
  transfer sender receiver ms ready empty listening size all =
      let w = send_all-Wrote grow memory ms sender ready in
      let bytes = sent sender.out_chunk_size (map chunk_of ms) in
      let contents : readable w.after.write_buffer ≡ bytes =
        w.contents ∙ ap (λ (xs : List ℕ). xs ++ bytes) empty in
      let (receiver', e) =
        receives ms bytes receiver listening (rw size ready.chunk_size_pos) (rw size all) (
          rw size (encode_all-sent sender.out_chunk_size (map chunk_of ms) ready.chunk_size_pos)) in
      (w.after, receiver', w.defined, rw contents e)
