-- ===== src/Transcode/Timestamps.antt =====
-- The timestamps of process_video_frame, process_audio_frame and on_publish_ready.
use rtmp_abr_transcoder.Base.{
  ℕ, ◌-◌, ◌≡◌, refl, ap, Bool, true, false, not, ◌&&◌, List, [], ◌∷◌, ◌++◌, Option, none, some,
  arith, leb, if◌then◌else◌, le→leb,
}

-- The members of Transcoder that hold the time.
pub record Clock : Type 0 where
  pub publishing_started : Bool
  pub base_video_timestamp_set : Bool
  pub base_video_timestamp : ℕ
  pub base_audio_timestamp_set : Bool
  pub base_audio_timestamp : ℕ

unfoldable pub new_clock : Clock
new_clock = record {
  publishing_started = false;
  base_video_timestamp_set = false;
  base_video_timestamp = 0;
  base_audio_timestamp_set = false;
  base_audio_timestamp = 0;
}

-- on_publish_ready, for the first output.
unfoldable pub start_publishing_clock : Clock → Clock
start_publishing_clock c =
    if not c.publishing_started
    then record c {
      publishing_started = true;
      base_video_timestamp_set = false;
      base_audio_timestamp_set = false;
    }
    else c

-- What the clock reads of a VideoFrame.
pub record Frame : Type 0 where
  pub timestamp : ℕ
  pub keyframe : Bool

-- The time behind the base; 0 for a frame that is older.
abbrev pub output_timestamp : ℕ → ℕ → ℕ
output_timestamp timestamp base = if leb base timestamp then timestamp - base else 0

-- A frame that the clock has a base for, or drops.
unfoldable pub emit_video : Frame → Clock → Clock × Option ℕ
emit_video frame c = (
  c,
  if c.base_video_timestamp_set
      then some (output_timestamp frame.timestamp c.base_video_timestamp)
      else none,
)

-- The clock and the timestamp of the packets of a frame, if it is not dropped.
unfoldable pub video_timestamp : Frame → Clock → Clock × Option ℕ
video_timestamp frame c =
    if c.publishing_started && not c.base_video_timestamp_set
    then (if frame.keyframe
        then emit_video frame
            (record c { base_video_timestamp = frame.timestamp; base_video_timestamp_set = true })
        else (c, none))
    else emit_video frame c

unfoldable pub emit_audio : ℕ → Clock → Clock × Option ℕ
emit_audio timestamp c = (
  c,
  if c.base_audio_timestamp_set
      then some (output_timestamp timestamp c.base_audio_timestamp)
      else none,
)

unfoldable pub audio_timestamp : ℕ → Clock → Clock × Option ℕ
audio_timestamp timestamp c =
    if c.publishing_started && not c.base_audio_timestamp_set
    then emit_audio timestamp
        (record c { base_audio_timestamp = timestamp; base_audio_timestamp_set = true })
    else emit_audio timestamp c

-- process_video_frame for each frame: what becomes of it.
pub video_timestamps : List Frame → Clock → List (Option ℕ)
video_timestamps [] c = []
video_timestamps (frame ∷ frames) c =
    let (c', t) = video_timestamp frame c in t ∷ video_timestamps frames c'

abbrev pub dropped : List ℕ → List (Option ℕ)
dropped [] = []
dropped (t ∷ ts) = none ∷ dropped ts

abbrev pub delta_frames : List ℕ → List Frame
delta_frames [] = []
delta_frames (t ∷ ts) = record { timestamp = t; keyframe = false } ∷ delta_frames ts

abbrev pub behind : ℕ → List Frame → List (Option ℕ)
behind base [] = []
behind base (frame ∷ frames) = some (frame.timestamp - base) ∷ behind base frames

minus_self : (t : ℕ) → t - t ≡ 0
minus_self t = omega arith

clamped : (t base : ℕ) → output_timestamp t base ≡ t - base
clamped t base = ground arith

and_false : (b : Bool) → (b && false) ≡ false
and_false true = refl
and_false false = refl

video_timestamp-set :
    (frame : Frame) (c : Clock)
    → c.base_video_timestamp_set ≡ true
    → video_timestamp frame c ≡ (c, some (frame.timestamp - c.base_video_timestamp))
unfolding video_timestamp emit_video
video_timestamp-set frame c e =
    simp (e, and_false c.publishing_started, clamped frame.timestamp c.base_video_timestamp)

video_timestamps-set :
    (frames : List Frame) (c : Clock)
    → c.base_video_timestamp_set ≡ true
    → video_timestamps frames c ≡ behind c.base_video_timestamp frames
unfolding video_timestamps
video_timestamps-set [] c e = refl
video_timestamps-set (frame ∷ frames) c e =
    rw (video_timestamp-set frame c e)
      (ap (◌∷◌ (some (frame.timestamp - c.base_video_timestamp))) (video_timestamps-set frames c e))

-- The clock between the start and the first keyframe.
abbrev IsWaiting : Clock → Type 0
IsWaiting c = (c.publishing_started ≡ true) × (c.base_video_timestamp_set ≡ false)

video_timestamps-waiting :
    (before : List ℕ) (t : ℕ) (after : List Frame) (c : Clock)
    → IsWaiting c
    → video_timestamps
        (delta_frames before ++ (record { timestamp = t; keyframe = true } ∷ after))
        c
      ≡ dropped before ++ (some 0 ∷ behind t after)
unfolding video_timestamps
video_timestamps-waiting [] t after c (e, f) =
    let c' = record c { base_video_timestamp = t; base_video_timestamp_set = true } in
    let first : video_timestamp (record { timestamp = t; keyframe = true }) c ≡ (c', some 0) =
      unfold video_timestamp emit_video in simp (e, f, le→leb t t (omega arith), minus_self t) in
    rw first (ap (◌∷◌ (some 0)) (video_timestamps-set after c' refl))
video_timestamps-waiting (t' ∷ before) t after c (e, f) =
    let same : video_timestamp (record { timestamp = t'; keyframe = false }) c ≡ (c, none) =
      unfold video_timestamp in simp (e, f) in
    rw same (ap (◌∷◌ none) (video_timestamps-waiting before t after c (e, f)))

-- When the first output begins to publish, frames are dropped up to the first keyframe, which gets
-- the timestamp 0; each later frame gets its distance from that keyframe, and a frame that is
-- older than the keyframe gets 0. This holds whatever bases the clock had before.
pub video_timestamps-from_keyframe :
    (c : Clock) (before : List ℕ) (t : ℕ) (after : List Frame)
    → c.publishing_started ≡ false
    → video_timestamps
        (delta_frames before ++ (record { timestamp = t; keyframe = true } ∷ after))
        (start_publishing_clock c)
      ≡ dropped before ++ (some 0 ∷ behind t after)
unfolding start_publishing_clock
video_timestamps-from_keyframe c before t after e =
    let started : start_publishing_clock c ≡ record c {
      publishing_started = true;
      base_video_timestamp_set = false;
      base_audio_timestamp_set = false;
    } =
      simp e in
    rw started (video_timestamps-waiting before t after _ (refl, refl))
