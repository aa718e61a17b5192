-- ===== src/Chunks/LaterFrames.antt =====
-- The parser's loop over the frames behind the first one of a message.
use rtmp_abr_transcoder.Base.{
  ℕ, zero, suc, ◌+◌, ◌≤◌, ◌<◌, ◌≡◌, ◌≢◌, refl, ap, ◌∙◌, min, Bool, false, List, [], ◌∷◌, ◌++◌,
  arith, ltb, leb, length, drop, take, append_assoc, take-append-drop, length-take, length-drop,
  length-append, Bool-cases, inl, inr, ltb→lt, ltb→le,
}
use rtmp_abr_transcoder.Chunks.Header.{ChunkHeader, StreamState, update}
use rtmp_abr_transcoder.Chunks.Parse.{
  Progress, next, bytes_to_read, begin_message, add_payload, parse_round,
}
use rtmp_abr_transcoder.Chunks.Rounds.{parse_all, parse_all_next}
use rtmp_abr_transcoder.Chunks.Encode.{chunk_prefix}
use rtmp_abr_transcoder.Chunks.Frames.{frames, frames_last, frames_more}
use rtmp_abr_transcoder.Chunks.HeaderRoundTrip.{
  IsEncodable, received_header, parse_header-chunk_prefix_later,
}
use rtmp_abr_transcoder.Chunks.Pass.{
  parse_round_frame, update_self, length-frames_more, delivered, held, add_payload_whole,
  add_payload_part, delivered_later, begin_message-held, bytes_to_read-held,
}

-- The pass over a later chunk.
later_round :
    (fresh : Bool) (h : ChunkHeader) (acc piece tail : List ℕ) (left : ℕ) (s : Progress)
    → IsEncodable h
    → 0 < length acc
    → length acc + left ≡ h.message_length
    → leb 0xffffff h.timestamp ≡ false
    → s.streams h.chunk_stream_id ≡ held (received_header h) acc
    → min s.chunk_size left ≡ length piece
    → let front = chunk_prefix h false in
      let r = received_header h in
      parse_round fresh (front ++ (piece ++ tail)) s
      ≡ next tail (
          add_payload
            (record { header = r; size = length front; streams = s.streams })
            piece
            (length piece)
            (held r acc)
            s)
later_round fresh h acc piece tail left s v pos whole short st n =
    let r = received_header h in
    let front = chunk_prefix h false in
    let known : begin_message (s.streams h.chunk_stream_id) ≡ held r acc =
      rw st (begin_message-held r acc pos) in
    let count : bytes_to_read s.chunk_size r (held r acc) ≡ length piece =
      bytes_to_read-held r acc s.chunk_size left whole (omega (arith, v.length_fits)) ∙ n in
    rw known at (
      parse_round_frame fresh front piece tail r s.streams s
        (parse_header-chunk_prefix_later h r (piece ++ tail) s.streams v
          (ap (λ (x : StreamState). x.prev_header) st) short)
        (rw known count))

-- What is still to come of a message under way is read to its end.
later_last :
    (fuel : ℕ) (fresh : Bool) (h : ChunkHeader) (acc rest tail : List ℕ) (s : Progress)
    → IsEncodable h
    → rest ≢ []
    → length rest ≤ s.chunk_size
    → 0 < length acc
    → length acc + length rest ≡ h.message_length
    → leb 0xffffff h.timestamp ≡ false
    → s.streams h.chunk_stream_id ≡ held (received_header h) acc
    → let sent = frames (suc fuel) h s.chunk_size false rest in
      parse_all fresh (sent ++ tail) s
      ≡ parse_all fresh tail (delivered (received_header h) (acc ++ rest) (length sent) s)
later_last fuel fresh h acc rest tail s v ne small pos whole short st =
    let front = chunk_prefix h false in
    let r = received_header h in
    rw
      (
        frames_last fuel h s.chunk_size false rest ne small,
        append_assoc front rest tail,
        length-append front rest,
      )
      (parse_all_next fresh (front ++ (rest ++ tail)) tail s _
          (later_round fresh h acc rest tail (length rest) s v pos whole short st (omega arith))
        ∙ ap (parse_all fresh tail) (
            add_payload_whole r acc rest (length front) s.streams s (omega arith)
              (omega (arith, v.length_fits))))

later_more :
    (fuel : ℕ) (fresh : Bool) (h : ChunkHeader) (acc rest tail : List ℕ) (s : Progress)
    → IsEncodable h
    → s.chunk_size < length rest
    → 0 < length acc
    → length acc + length rest ≡ h.message_length
    → leb 0xffffff h.timestamp ≡ false
    → s.streams h.chunk_stream_id ≡ held (received_header h) acc
    → let cs = s.chunk_size in
      let r = received_header h in
      parse_all fresh (frames (suc fuel) h cs false rest ++ tail) s
      ≡ parse_all fresh (frames fuel h cs false (drop cs rest) ++ tail) (record s {
        streams = update s.streams h.chunk_stream_id (held r (acc ++ take cs rest));
        offset = s.offset + (length (chunk_prefix h false) + length (take cs rest));
      })
later_more fuel fresh h acc rest tail s v more pos whole short st =
    let front = chunk_prefix h false in
    let r = received_header h in
    let cs = s.chunk_size in
    let piece = take cs rest in
    let others = frames fuel h cs false (drop cs rest) in
    let count = length-take cs rest in
    rw
      (
        frames_more fuel h cs false rest more,
        append_assoc front (piece ++ others) tail,
        append_assoc piece others tail,
      )
      (parse_all_next fresh (front ++ (piece ++ (others ++ tail))) (others ++ tail) s _ (
          later_round fresh h acc piece (others ++ tail) (length rest) s v pos whole short st
            (omega (arith, count)))
        ∙ ap (parse_all fresh (others ++ tail)) (
            add_payload_part r acc piece (length front) s.streams s (omega (arith, count))
              (omega (arith, v.length_fits))))

-- What is still to come of a message under way is read to its end.
pub later_frames :
    (fuel : ℕ) (fresh : Bool) (h : ChunkHeader) (acc rest tail : List ℕ) (s : Progress)
    → IsEncodable h
    → 0 < s.chunk_size
    → rest ≢ []
    → 0 < length acc
    → length rest ≤ fuel
    → length acc + length rest ≡ h.message_length
    → leb 0xffffff h.timestamp ≡ false
    → s.streams h.chunk_stream_id ≡ held (received_header h) acc
    → let sent = frames fuel h s.chunk_size false rest in
      parse_all fresh (sent ++ tail) s
      ≡ parse_all fresh tail (delivered (received_header h) (acc ++ rest) (length sent) s)
later_frames zero fresh h acc [] tail s v cs ne pos enough whole short st = absurd (ne refl)
later_frames zero fresh h acc (b ∷ bs) tail s v cs ne pos enough whole short st =
    absurd (omega arith)
later_frames (suc fuel) fresh h acc rest tail s v cs ne pos enough whole short st =
    elim (Bool-cases (ltb s.chunk_size (length rest))) [
      | inr small ↦
          later_last fuel fresh h acc rest tail s v ne (ltb→le _ _ small) pos whole short st
      | inl more ↦
          let more = ltb→lt _ _ more in
          let n = s.chunk_size in
          let piece = take n rest in
          let front = chunk_prefix h false in
          let r = received_header h in
          let state = held r (acc ++ piece) in
          let id = h.chunk_stream_id in
          let s' : Progress = record s {
            streams = update s.streams id state;
            offset = s.offset + (length front + length piece);
          } in
          let left = length-drop n rest in
          let taken = length-take n rest in
          later_more fuel fresh h acc rest tail s v more pos whole short st
          ∙ later_frames fuel fresh h (acc ++ piece) (drop n rest) tail s' v cs
              (λ e. absurd (omega (arith, ap length e))) (omega (arith, length-append acc piece))
              (omega arith) (omega (arith, length-append acc piece)) short
              (update_self s.streams id state)
          ∙ ap (parse_all fresh tail) (
              rw (append_assoc acc piece (drop n rest), take-append-drop n rest)
                (delivered_later r (acc ++ rest) (length front + length piece)
                  (length (frames fuel h n false (drop n rest)))
                  (length (frames (suc fuel) h n false rest)) state s
                  (length-frames_more fuel h n false rest more)))
    ]
