-- ===== src/Transcode/Pushing.antt =====
-- What the outputs send of a video frame.
use rtmp_abr_transcoder.Base.{
  ℕ, ◌+◌, ◌%◌, ◌^◌, ◌≡◌, ◌≢◌, refl, sym, ◌∙◌, Bool, true, false, List, [], ◌∷◌, Option, none, some,
  if◌then◌else◌, map,
}
use rtmp_abr_transcoder.Chunks.RoundTrip.{All}
use rtmp_abr_transcoder.Messages.Control.{Message, type_number, video}
use rtmp_abr_transcoder.Relay.Pusher.{Client, send_buffered}
use rtmp_abr_transcoder.Transcode.Flv.{build_flv_video_packet}
use rtmp_abr_transcoder.Transcode.Timestamps.{video_timestamp}
use rtmp_abr_transcoder.Transcode.Codecs.{EncodedPacket, Codecs, VideoFrame}
use rtmp_abr_transcoder.Transcode.Outputs.{
  Output, Transcoder, prepare_scaler, prepare_video, encode_scaled, video_packets, on_pusher,
  push_packet, push_video_packet, push_video, video_to_outputs, video_at, process_video_frame,
}

-- The messages of the packets of a frame: one for each, all with the time `ts`.
abbrev pub video_messages : ℕ → ℕ → List EncodedPacket → List Message
video_messages stream_id ts [] = []
video_messages stream_id ts (packet ∷ packets) =
    record {
      type_id = type_number video;
      timestamp = ts;
      stream_id = stream_id;
      payload = build_flv_video_packet packet.keyframe packet.data';
    }
    ∷ video_messages stream_id ts packets

-- The client of an output that publishes is given the messages.
abbrev pub pushed : {C : Type 0} → Client C → Bool → List Message → Option C → Option C
pushed api true ms (some c) = some (send_buffered api ms c)
pushed api true ms none = none
pushed api false ms client = client

module _ {k : Codecs} {C : Type 0} where
  -- An output that publishes has a client.
  abbrev pub HasClient : Output k C → Type 0
  HasClient o = o.publishing ≡ true → o.pusher ≢ none

  -- The members that say where the packets go.
  record SameTarget (o o' : Output k C) : Type 0 where
    publishing : o'.publishing ≡ o.publishing
    pusher : o'.pusher ≡ o.pusher
    stream : o'.stream_id ≡ o.stream_id

  SameTarget-if :
      {A : Type 0} (b : Bool) (o : Output k C) (x y : A × Output k C)
      → SameTarget o x.1
      → SameTarget o y.1
      → SameTarget o (if b then x else y).1
  SameTarget-if true o x y e f = e
  SameTarget-if false o x y e f = f

  prepare_video-SameTarget :
      (frame : VideoFrame k.Picture) (o : Output k C) → SameTarget o (prepare_video frame o).1
  unfolding prepare_video prepare_scaler
  prepare_video-SameTarget frame o =
      SameTarget-if o.video_initialized o _ _
        (record { publishing = refl; pusher = refl; stream = refl })
        (SameTarget-if (k.initialize_video _ o.video_encoder).0 o _ _
          (record { publishing = refl; pusher = refl; stream = refl })
          (record { publishing = refl; pusher = refl; stream = refl }))

  encode_scaled-SameTarget :
      (scaled : Option k.Picture) (o o' : Output k C)
      → SameTarget o o'
      → SameTarget o (encode_scaled scaled o').1
  unfolding encode_scaled
  encode_scaled-SameTarget none o o' s = s
  encode_scaled-SameTarget (some picture) o o' s = record {
    publishing = s.publishing;
    pusher = s.pusher;
    stream = s.stream;
  }

  video_packets-SameTarget :
      (frame : VideoFrame k.Picture) (o : Output k C) → SameTarget o (video_packets frame o).1
  unfolding video_packets
  video_packets-SameTarget frame o =
      let s = prepare_video-SameTarget frame o in
      SameTarget-if (prepare_video frame o).0 o _ _
        (encode_scaled-SameTarget _ o _
          (record { publishing = s.publishing; pusher = s.pusher; stream = s.stream }))
        s

  module _ (api : Client C) where
    push_video-pushed :
        (ts : ℕ) (packets : List EncodedPacket) (b : Bool) (p : Option C) (o : Output k C)
        → (b ≡ true → p ≢ none)
        → push_video api ts packets (record o { publishing = b; pusher = p })
          ≡ some (record o {
            publishing = b;
            pusher = pushed api b (video_messages o.stream_id ts packets) p;
          })
    unfolding push_video push_video_packet push_packet on_pusher send_buffered
    push_video-pushed ts packets true none o h = absurd (h refl refl)
    push_video-pushed ts [] true (some c) o h = refl
    push_video-pushed ts (packet ∷ packets) true (some c) o h =
        push_video-pushed ts packets true (some _) o (λ e f. absurd (cc f))
    push_video-pushed ts [] false p o h = refl
    push_video-pushed ts (packet ∷ packets) false p o h = push_video-pushed ts packets false p o h

    -- An output behind a frame that it was given at the time `ts`.
    abbrev pub with_packets : ℕ → VideoFrame k.Picture → Output k C → Output k C
    with_packets ts frame o =
        let (packets, o') = video_packets frame o in
        record o' {
          pusher = pushed api o.publishing (video_messages o.stream_id ts packets) o.pusher;
        }

    push_video-with_packets :
        (ts : ℕ) (frame : VideoFrame k.Picture) (o : Output k C)
        → HasClient o
        → push_video api ts (video_packets frame o).0 (video_packets frame o).1
          ≡ some (with_packets ts frame o)
    push_video-with_packets ts frame o h =
        let s = video_packets-SameTarget frame o in
        let o' = (video_packets frame o).1 in
        push_video-pushed ts (video_packets frame o).0 o'.publishing o'.pusher o'
          (λ e f. h (sym s.publishing ∙ e) (sym s.pusher ∙ f))
        ∙ λ i. some (record o' {
          pusher =
              pushed api (s.publishing i) (video_messages (s.stream i) ts (video_packets frame o).0)
                (s.pusher i);
        })

    video_to_outputs-map :
        (ts : ℕ) (frame : VideoFrame k.Picture) (os : List (Output k C))
        → All HasClient os
        → video_to_outputs api ts frame os ≡ some (map (with_packets ts frame) os)
    unfolding video_to_outputs
    video_to_outputs-map ts frame [] all = refl
    video_to_outputs-map ts frame (o ∷ os) (h, all) =
        rw (push_video-with_packets ts frame o h, video_to_outputs-map ts frame os all) refl

    -- The outputs behind a frame that is dropped, or given to all of them at one time.
    abbrev pub behind : VideoFrame k.Picture → Option ℕ → List (Output k C) → List (Output k C)
    behind frame none os = os
    behind frame (some ts) os = map (with_packets ts frame) os

    video_at-behind :
        (emitted : Option ℕ) (frame : VideoFrame k.Picture) (os : List (Output k C))
        → All HasClient os
        → video_at api emitted frame os ≡ some (behind frame emitted os)
    unfolding video_at
    video_at-behind none frame os all = refl
    video_at-behind (some ts) frame os all = video_to_outputs-map ts frame os all

    -- A decoded video frame is dropped for all outputs or given to each of them: an output that
    -- publishes sends its own packets of the frame, in order, each in one message on the stream id
    -- of the output, and all outputs with the same timestamp; one that does not publish sends
    -- nothing, and an encoder or scaler that fails has no effect on the other outputs. No null
    -- pointer is followed, if each output that publishes has a client.
    pub process_video_frame-behind :
        (frame : VideoFrame k.Picture) (t : Transcoder k C)
        → All HasClient t.outputs
        → let (clock, emitted) =
            video_timestamp
              (record { timestamp = frame.timestamp; keyframe = frame.keyframe })
              t.clock in
          process_video_frame api frame t
          ≡ some (record t {
            source_width = frame.width;
            source_height = frame.height;
            video_frame_count = (t.video_frame_count + 1) % 2 ^ 64;
            clock = clock;
            outputs = behind frame emitted t.outputs;
          })
    unfolding process_video_frame
    process_video_frame-behind frame t all = rw (video_at-behind _ frame t.outputs all) refl
