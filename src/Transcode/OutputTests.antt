-- ===== src/Transcode/OutputTests.antt =====
-- The theorems on the outputs of the transcoder at concrete inputs.
use rtmp_abr_transcoder.Base.{
  ℕ, ◌+◌, ◌%◌, ◌^◌, ◌≡◌, refl, true, List, [], ◌∷◌, ◌++◌, none, some, arith,
}
use rtmp_abr_transcoder.Base.Texts.{codes, IsWithout}
use rtmp_abr_transcoder.Base.Numbers.{pos}
use rtmp_abr_transcoder.Messages.Control.{Message}
use rtmp_abr_transcoder.Amf0.Value.{
  Fields, null, number, string, object, field, no_fields, lookup, compare_keys,
}
use rtmp_abr_transcoder.Amf0.Members.{IsWire}
use rtmp_abr_transcoder.Relay.Types.{one, two}
use rtmp_abr_transcoder.Relay.Pusher.{Client}
use rtmp_abr_transcoder.Relay.Addressing.{url_of}
use rtmp_abr_transcoder.Transcode.Timestamps.{new_clock, start_publishing_clock, video_timestamp}
use rtmp_abr_transcoder.Transcode.Codecs.{Codecs, VideoFrame}
use rtmp_abr_transcoder.Transcode.Outputs.{
  OutputConfig, Output, Transcoder, new_output, process_video_frame,
}
use rtmp_abr_transcoder.Transcode.Pushing.{behind, process_video_frame-behind}
use rtmp_abr_transcoder.Transcode.Publishing.{double_to_u32}
use rtmp_abr_transcoder.Transcode.OutputUrls.{tc_url_of}
use rtmp_abr_transcoder.Transcode.Answers.{answer, result_answer, status_answer}
use rtmp_abr_transcoder.Transcode.Negotiation.{negotiated, negotiate, headers, negotiate-publishes}

-- A client that keeps the messages and commands that it is given.
abbrev keeping : Client (List Message)
keeping = record {
  send_message = λ msg sent. sent ++ (msg ∷ []);
  send_command = λ cmd sent. sent ++ (answer cmd ∷ []);
  flush = λ sent. sent;
}

-- Codecs that number the frames.
abbrev numbering : Codecs
numbering = record {
  VideoEncoder = ℕ;
  AudioEncoder = ℕ;
  Scaler = ℕ;
  Picture = ℕ;
  Sound = ℕ;
  new_video_encoder = 0;
  new_audio_encoder = 0;
  new_scaler = 0;
  initialize_video = λ config n. (true, n);
  encode_video = λ picture n.
      (some (record { data' = n ∷ picture ∷ []; keyframe = true; timestamp = 0 } ∷ []), n + 1);
  get_sps = λ n. 1 ∷ [];
  get_pps = λ n. 2 ∷ [];
  initialize_scaler = λ a b c d n. (true, n);
  scale = λ picture n. (some picture, n);
  initialize_audio = λ a b c n. (true, n);
  encode_audio = λ sound n. (none, n);
  get_audio_specific_config = λ n. [];
}

abbrev config : OutputConfig
config = record {
  name = codes "a";
  width = pos 640;
  height = pos 360;
  video_bitrate_kbps = pos 800;
  audio_bitrate_kbps = pos 64;
  rtmp_url = url_of (codes "rtmp") (codes "h") (codes "live") (codes "k");
}

abbrev fresh : Output numbering (List Message)
fresh = new_output config

abbrev start_code : Fields
start_code = field (codes "code") (string (codes "NetStream.Publish.Start")) no_fields

text-IsWithout : IsWithout 58 (codes "rtmp")
text-IsWithout = (omega arith, (omega arith, (omega arith, (omega arith, tt))))

app-IsWithout : IsWithout 47 (codes "live")
app-IsWithout = (omega arith, (omega arith, (omega arith, (omega arith, tt))))

negotiate-publishes_example :
    negotiate keeping 0 44100
      (answer (result_answer one []))
      (answer (result_answer two (null ∷ number one ∷ [])))
      (answer (status_answer (null ∷ object start_code ∷ [])))
      (new_clock, record fresh { pusher = some [] })
    ≡ some (
      start_publishing_clock new_clock,
      record fresh {
        connected = true;
        publishing = true;
        stream_id = 1;
        pusher = some (
            headers keeping 0 44100
              (record fresh { stream_id = 1 })
              (negotiated keeping
                (tc_url_of (codes "rtmp") (codes "h") (codes "live"))
                (codes "live")
                (codes "k")
                1
                []));
      },
    )
unfolding new_output double_to_u32 lookup compare_keys IsWire
negotiate-publishes_example =
    negotiate-publishes keeping 0 44100 (codes "rtmp") (codes "h") (codes "live") (codes "k") fresh
      [] new_clock [] one 1 null [] null start_code [] refl text-IsWithout (omega arith, tt)
      app-IsWithout (omega arith) (omega arith, tt) tt (tt, (omega arith, tt)) refl
      (tt, ((omega arith, tt, omega arith, tt), tt)) refl

-- An output that publishes, beside one that does not.
abbrev two_outputs : Transcoder numbering (List Message)
two_outputs = record {
  outputs = record fresh { publishing = true; stream_id = 1; pusher = some [] } ∷ fresh ∷ [];
  source_width = pos 0;
  source_height = pos 0;
  clock = record new_clock { publishing_started = true };
  video_frame_count = 0;
  actual_audio_sample_rate = 44100;
}

abbrev keyframe : VideoFrame ℕ
keyframe = record {
  picture = 7;
  width = pos 1280;
  height = pos 720;
  timestamp = 40;
  keyframe = true;
}

process_video_frame-behind_example :
    let (clock, emitted) =
      video_timestamp (record { timestamp = 40; keyframe = true }) two_outputs.clock in
    process_video_frame keeping keyframe two_outputs
    ≡ some (record two_outputs {
      source_width = pos 1280;
      source_height = pos 720;
      video_frame_count = (0 + 1) % 2 ^ 64;
      clock = clock;
      outputs = behind keeping keyframe emitted two_outputs.outputs;
    })
unfolding new_output
process_video_frame-behind_example =
    process_video_frame-behind keeping keyframe two_outputs
      ((λ e f. absurd (cc f)), ((λ e. absurd (cc e)), tt))
