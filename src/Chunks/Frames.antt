-- ===== src/Chunks/Frames.antt =====
-- What encode_chunk writes, as a recursion with no accumulator, and when it ends.
use rtmp_abr_transcoder.Base.{
  ℕ, zero, suc, ◌≤◌, ◌<◌, ◌≡◌, ◌≢◌, refl, sym, ap, ◌∙◌, min, Bool, true, false, List, [], ◌∷◌, ◌++◌,
  none, some, arith, length, take, drop, length-drop, take_all, drop_all, append_assoc, append-nil,
}
use rtmp_abr_transcoder.Chunks.Header.{ChunkHeader}
use rtmp_abr_transcoder.Chunks.Encode.{chunk_prefix, encode_loop, encode_chunk}

-- The chunks of a payload, each with its prefix, in `fuel` pieces at most.
unfoldable pub frames : ℕ → ChunkHeader → ℕ → Bool → List ℕ → List ℕ
frames fuel header chunk_size first [] = []
frames zero header chunk_size first (b ∷ bs) = []
frames (suc fuel) header chunk_size first (b ∷ bs) =
    let n = min chunk_size (length (b ∷ bs)) in
    chunk_prefix header first
    ++ (take n (b ∷ bs) ++ frames fuel header chunk_size false (drop n (b ∷ bs)))

pub frames_nil :
    (fuel : ℕ) (h : ChunkHeader) (cs : ℕ) (first : Bool) → frames fuel h cs first [] ≡ []
unfolding frames
frames_nil zero h cs first = refl
frames_nil (suc fuel) h cs first = refl

-- The last chunk, and one that leaves something.
pub frames_last :
    (fuel : ℕ) (h : ChunkHeader) (cs : ℕ) (first : Bool) (rest : List ℕ)
    → rest ≢ []
    → length rest ≤ cs
    → frames (suc fuel) h cs first rest ≡ chunk_prefix h first ++ rest
unfolding frames
frames_last fuel h cs first [] ne small = absurd (ne refl)
frames_last fuel h cs first (b ∷ bs) ne small =
    let e : min cs (length (b ∷ bs)) ≡ suc (length bs) = omega arith in
    rw (e, frames)
      (rw
        (
          take_all (length bs) bs (omega arith),
          drop_all (length bs) bs (omega arith),
          frames_nil fuel h cs false,
          append-nil,
        )
        refl)

pub frames_more :
    (fuel : ℕ) (h : ChunkHeader) (cs : ℕ) (first : Bool) (rest : List ℕ)
    → cs < length rest
    → frames (suc fuel) h cs first rest
      ≡ chunk_prefix h first ++ (take cs rest ++ frames fuel h cs false (drop cs rest))
unfolding frames
frames_more fuel h cs first [] more = absurd (omega arith)
frames_more fuel h cs first (b ∷ bs) more =
    let e : min cs (length (b ∷ bs)) ≡ cs = omega arith in rw (e, frames)

append-nil_sym : (xs : List ℕ) → xs ≡ xs ++ []
append-nil_sym xs = sym (append-nil xs)

encode_loop-frames :
    (fuel : ℕ) (header : ChunkHeader) (chunk_size : ℕ) (first : Bool) (payload output : List ℕ)
    → 0 < chunk_size
    → length payload ≤ fuel
    → encode_loop fuel header chunk_size first payload output
      ≡ some (output ++ frames fuel header chunk_size first payload)
unfolding encode_loop frames
encode_loop-frames zero header cs first [] output h hf = ap some (append-nil_sym output)
encode_loop-frames (suc fuel) header cs first [] output h hf = ap some (append-nil_sym output)
encode_loop-frames zero header cs first (b ∷ bs) output h hf = absurd (omega arith)
encode_loop-frames (suc fuel) header cs first (b ∷ bs) output h hf =
    let n = min cs (length (b ∷ bs)) in
    let shorter : length (drop n (b ∷ bs)) ≤ fuel = omega (arith, length-drop n (b ∷ bs)) in
    encode_loop-frames fuel header cs false (drop n (b ∷ bs))
      (output ++ (chunk_prefix header first ++ take n (b ∷ bs))) h shorter
    ∙ simp append_assoc

-- With a positive chunk size encode_chunk ends, and writes the payload in pieces of the chunk
-- size, each behind its prefix.
pub encode_chunk-frames :
    (header : ChunkHeader) (payload : List ℕ) (chunk_size : ℕ)
    → 0 < chunk_size
    → encode_chunk header payload chunk_size
      ≡ some (frames (length payload) header chunk_size true payload)
unfolding encode_chunk
encode_chunk-frames header payload cs h =
    encode_loop-frames (length payload) header cs true payload [] h (omega arith)

-- With the chunk size 0 and a payload, no number of passes is enough for the loop of encode_chunk.
pub encode_loop_diverges :
    (fuel : ℕ) (header : ChunkHeader) (first : Bool) (payload output : List ℕ)
    → payload ≢ []
    → encode_loop fuel header 0 first payload output ≡ none
unfolding encode_loop
encode_loop_diverges fuel header first [] output h = absurd (h refl)
encode_loop_diverges zero header first (b ∷ bs) output h = refl
encode_loop_diverges (suc fuel) header first (b ∷ bs) output h =
    let none_written : min 0 (suc (length bs)) ≡ 0 = omega arith in
    rw (none_written, encode_loop) (encode_loop_diverges fuel header false (b ∷ bs) _ h)
