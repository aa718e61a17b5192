-- ===== src/Chunks/WholeMessage.antt =====
-- The parser's loop over all frames of a message.
use rtmp_abr_transcoder.Base.{
  ℕ, suc, ◌+◌, ◌≤◌, ◌<◌, ◌≡◌, ◌≢◌, refl, ap, ◌∙◌, min, Bool, true, false, List, [], ◌∷◌, ◌++◌,
  arith, ltb, leb, length, drop, take, append_assoc, take-append-drop, length-take, length-drop,
  length-append, Bool-cases, inl, inr, ltb→lt, ltb→le, ◌⊎◌,
}
use rtmp_abr_transcoder.Chunks.Header.{ChunkHeader, update}
use rtmp_abr_transcoder.Chunks.Parse.{
  Progress, next, bytes_to_read, begin_message, add_payload, parse_round,
}
use rtmp_abr_transcoder.Chunks.Rounds.{parse_all, parse_all_next}
use rtmp_abr_transcoder.Chunks.Encode.{chunk_prefix}
use rtmp_abr_transcoder.Chunks.Frames.{frames, frames_last, frames_more}
use rtmp_abr_transcoder.Chunks.HeaderRoundTrip.{
  IsEncodable, received_header, parse_header-chunk_prefix_first,
}
use rtmp_abr_transcoder.Chunks.Pass.{
  parse_round_frame, update_twice, update_self, length-frames_more, idle_state, delivered, held,
  add_payload_whole, add_payload_part, delivered_later, bytes_to_read-held,
}
use rtmp_abr_transcoder.Chunks.LaterFrames.{later_frames}

-- A message of one chunk or of more, on a stream with nothing under way.
first_round :
    (fresh : Bool) (h : ChunkHeader) (piece tail : List ℕ) (left : ℕ) (s : Progress)
    → IsEncodable h
    → left ≡ h.message_length
    → (s.streams h.chunk_stream_id).bytes_received ≡ 0
    → min s.chunk_size left ≡ length piece
    → let front = chunk_prefix h true in
      let r = received_header h in
      let id = h.chunk_stream_id in
      let streams = update s.streams id (record (s.streams id) { prev_header = r }) in
      parse_round fresh (front ++ (piece ++ tail)) s
      ≡ next tail (
          add_payload
            (record { header = r; size = length front; streams = streams })
            piece
            (length piece)
            (held r [])
            s)
unfolding begin_message
first_round fresh h piece tail left s v whole idle n =
    let r = received_header h in
    let front = chunk_prefix h true in
    let id = h.chunk_stream_id in
    let state = record (s.streams id) { prev_header = r } in
    let streams = update s.streams id state in
    let known : begin_message (streams id) ≡ held r [] =
      rw (update_self s.streams id state) (rw idle refl) in
    let count : bytes_to_read s.chunk_size r (held r []) ≡ length piece =
      bytes_to_read-held r [] s.chunk_size left (omega arith) (omega (arith, v.length_fits)) ∙ n in
    rw known at (
      parse_round_frame fresh front piece tail r streams s
        (parse_header-chunk_prefix_first h (piece ++ tail) s.streams v) (rw known count))

first_last :
    (fuel : ℕ) (fresh : Bool) (h : ChunkHeader) (payload tail : List ℕ) (s : Progress)
    → IsEncodable h
    → payload ≢ []
    → length payload ≤ s.chunk_size
    → length payload ≡ h.message_length
    → (s.streams h.chunk_stream_id).bytes_received ≡ 0
    → let sent = frames (suc fuel) h s.chunk_size true payload in
      parse_all fresh (sent ++ tail) s
      ≡ parse_all fresh tail (delivered (received_header h) payload (length sent) s)
first_last fuel fresh h payload tail s v ne small whole idle =
    let front = chunk_prefix h true in
    let r = received_header h in
    let id = h.chunk_stream_id in
    let state = record (s.streams id) { prev_header = r } in
    rw
      (
        frames_last fuel h s.chunk_size true payload ne small,
        append_assoc front payload tail,
        length-append front payload,
      )
      (parse_all_next fresh (front ++ (payload ++ tail)) tail s _
          (first_round fresh h payload tail (length payload) s v whole idle (omega arith))
        ∙ ap (parse_all fresh tail) (
            add_payload_whole r [] payload (length front) (update s.streams id state) s
              (omega arith) (omega (arith, v.length_fits))
            ∙ rw (update_twice s.streams id state (idle_state r)) refl))

first_more :
    (fuel : ℕ) (fresh : Bool) (h : ChunkHeader) (payload tail : List ℕ) (s : Progress)
    → IsEncodable h
    → s.chunk_size < length payload
    → length payload ≡ h.message_length
    → (s.streams h.chunk_stream_id).bytes_received ≡ 0
    → let cs = s.chunk_size in
      parse_all fresh (frames (suc fuel) h cs true payload ++ tail) s
      ≡ parse_all fresh (frames fuel h cs false (drop cs payload) ++ tail) (record s {
        streams = update s.streams h.chunk_stream_id (held (received_header h) (take cs payload));
        offset = s.offset + (length (chunk_prefix h true) + length (take cs payload));
      })
first_more fuel fresh h payload tail s v more whole idle =
    let front = chunk_prefix h true in
    let r = received_header h in
    let cs = s.chunk_size in
    let id = h.chunk_stream_id in
    let piece = take cs payload in
    let others = frames fuel h cs false (drop cs payload) in
    let count = length-take cs payload in
    let state = record (s.streams id) { prev_header = r } in
    rw
      (
        frames_more fuel h cs true payload more,
        append_assoc front (piece ++ others) tail,
        append_assoc piece others tail,
      )
      (parse_all_next fresh (front ++ (piece ++ (others ++ tail))) (others ++ tail) s _ (
          first_round fresh h piece (others ++ tail) (length payload) s v whole idle
            (omega (arith, count)))
        ∙ ap (parse_all fresh (others ++ tail)) (
            add_payload_part r [] piece (length front) (update s.streams id state) s
              (omega (arith, count)) (omega (arith, v.length_fits))
            ∙ rw (update_twice s.streams id state (held r piece)) refl))

first_then_later :
    (fuel : ℕ) (fresh : Bool) (h : ChunkHeader) (payload tail : List ℕ) (s : Progress)
    → IsEncodable h
    → 0 < s.chunk_size
    → s.chunk_size < length payload
    → length payload ≤ suc fuel
    → length payload ≡ h.message_length
    → leb 0xffffff h.timestamp ≡ false
    → (s.streams h.chunk_stream_id).bytes_received ≡ 0
    → let sent = frames (suc fuel) h s.chunk_size true payload in
      parse_all fresh (sent ++ tail) s
      ≡ parse_all fresh tail (delivered (received_header h) payload (length sent) s)
first_then_later fuel fresh h payload tail s v cs more enough whole short idle =
    let n = s.chunk_size in
    let piece = take n payload in
    let front = chunk_prefix h true in
    let r = received_header h in
    let state = held r piece in
    let id = h.chunk_stream_id in
    let s' : Progress = record s {
      streams = update s.streams id state;
      offset = s.offset + (length front + length piece);
    } in
    let left = length-drop n payload in
    let taken = length-take n payload in
    first_more fuel fresh h payload tail s v more whole idle
    ∙ later_frames fuel fresh h piece (drop n payload) tail s' v cs
        (λ e. absurd (omega (arith, ap length e))) (omega arith) (omega arith) (omega arith) short
        (update_self s.streams id state)
    ∙ ap (parse_all fresh tail) (
        rw (take-append-drop n payload) (
          delivered_later r payload (length front + length piece)
            (length (frames fuel h n false (drop n payload)))
            (length (frames (suc fuel) h n true payload)) state s
            (length-frames_more fuel h n true payload more)))

-- The frames of a whole message are read, and the loop goes on with what follows them.
pub message_frames :
    (fresh : Bool) (h : ChunkHeader) (payload tail : List ℕ) (s : Progress)
    → IsEncodable h
    → 0 < s.chunk_size
    → payload ≢ []
    → length payload ≡ h.message_length
    → (leb 0xffffff h.timestamp ≡ false) ⊎ (length payload ≤ s.chunk_size)
    → (s.streams h.chunk_stream_id).bytes_received ≡ 0
    → let sent = frames (length payload) h s.chunk_size true payload in
      parse_all fresh (sent ++ tail) s
      ≡ parse_all fresh tail (delivered (received_header h) payload (length sent) s)
message_frames fresh h [] tail s v cs ne whole short idle = absurd (ne refl)
message_frames fresh h (b ∷ bs) tail s v cs ne whole (inr small) idle =
    first_last (length bs) fresh h (b ∷ bs) tail s v ne small whole idle
message_frames fresh h (b ∷ bs) tail s v cs ne whole (inl short) idle =
    elim (Bool-cases (ltb s.chunk_size (length (b ∷ bs)))) [
      | inr small ↦
          first_last (length bs) fresh h (b ∷ bs) tail s v ne (ltb→le _ _ small) whole idle
      | inl more ↦
          first_then_later (length bs) fresh h (b ∷ bs) tail s v cs (ltb→lt _ _ more) (omega arith)
            whole short idle
    ]
