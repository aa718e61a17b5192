-- ===== src/Transcode/Tests.antt =====
-- The theorems on transcoded data at concrete inputs.
use rtmp_abr_transcoder.Base.{◌≡◌, refl, true, false, [], ◌∷◌, ◌++◌, map, none, some, arith}
use rtmp_abr_transcoder.Transcode.Avc.{to_avcc, start_code}
use rtmp_abr_transcoder.Transcode.Flv.{
  build_flv_video_packet, build_avc_decoder_config, on_video_data,
}
use rtmp_abr_transcoder.Transcode.AvcRoundTrip.{
  Nal, encoded, annexb_of, on_video_data-to_avcc, on_video_data-build_avc_decoder_config,
}
use rtmp_abr_transcoder.Transcode.Timestamps.{
  Frame, new_clock, start_publishing_clock, video_timestamps, delta_frames,
  video_timestamps-from_keyframe,
}

abbrev slice : Nal
slice = record { long_code = true; body = 0x65 ∷ 1 ∷ 2 ∷ [] }

abbrev info : Nal
info = record { long_code = false; body = 6 ∷ 5 ∷ [] }

on_video_data-to_avcc_example :
    on_video_data (build_flv_video_packet true (to_avcc (map encoded (slice ∷ info ∷ [])))) 4
    ≡ (4, annexb_of (slice ∷ info ∷ []) ∷ [])
on_video_data-to_avcc_example =
    on_video_data-to_avcc true (slice ∷ info ∷ [])
      ((omega arith, omega arith), ((omega arith, omega arith), tt))

on_video_data-build_avc_decoder_config_example :
    on_video_data (build_avc_decoder_config (0x67 ∷ 0x42 ∷ 0xc0 ∷ 0x1e ∷ []) (0x68 ∷ 7 ∷ [])) 1
    ≡ (4, (start_code ++ (0x67 ∷ 0x42 ∷ 0xc0 ∷ 0x1e ∷ [])) ∷ (start_code ++ (0x68 ∷ 7 ∷ [])) ∷ [])
on_video_data-build_avc_decoder_config_example =
    on_video_data-build_avc_decoder_config 1 (0x67 ∷ 0x42 ∷ 0xc0 ∷ 0x1e ∷ []) (0x68 ∷ 7 ∷ [])
      (omega arith) (omega arith)

abbrev late_frame : Frame
late_frame = record { timestamp = 140; keyframe = false }

video_timestamps-from_keyframe_example :
    video_timestamps
      (delta_frames (60 ∷ 80 ∷ [])
        ++ (record { timestamp = 100; keyframe = true } ∷ late_frame ∷ []))
      (start_publishing_clock new_clock)
    ≡ none ∷ none ∷ some 0 ∷ some 40 ∷ []
unfolding new_clock
video_timestamps-from_keyframe_example =
    video_timestamps-from_keyframe new_clock (60 ∷ 80 ∷ []) 100 (late_frame ∷ []) refl
