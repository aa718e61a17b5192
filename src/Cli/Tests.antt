-- ===== src/Cli/Tests.antt =====
-- The theorems on the command line and on addresses at concrete inputs, and runs of their errors.
use rtmp_abr_transcoder.Base.{
  ℕ, ◌%◌, ◌^◌, ◌≡◌, refl, List, [], ◌∷◌, ◌++◌, Option, none, some, ok, err, arith, ◌-◌,
}
use rtmp_abr_transcoder.Base.Texts.{codes, IsWithout}
use rtmp_abr_transcoder.Base.Numbers.{
  pos, IsInt, stoi, stoull, read_number, read_sign, skip_spaces, read_digits,
}
use rtmp_abr_transcoder.Net.Address.{
  parse_address, with_port, parse_address_lem, rfind, resolve_at, to_port, first_address,
}
use rtmp_abr_transcoder.Cli.{
  default_config, default_audio_bitrate, parse_output_spec, parse_args, parse_loop, choice_of,
  apply_choice, uncaught,
}
use rtmp_abr_transcoder.Cli.OutputSpecs.{spec_text, parse_output_spec-spec_text}
use rtmp_abr_transcoder.Cli.Arguments.{
  Written, Setting, listens, bounds, outputs, arguments, set_all, parse_args-arguments,
}

abbrev width : List ℕ
width = codes "1280"

abbrev height : List ℕ
height = codes "720"

abbrev bitrate : List ℕ
bitrate = codes "2500"

width-IsInt : IsInt width
width-IsInt = record {
  some_digit = omega arith;
  digits = (refl, (refl, (refl, (refl, tt))));
  fits = omega arith;
}

height-IsInt : IsInt height
height-IsInt = record {
  some_digit = omega arith;
  digits = (refl, (refl, (refl, tt)));
  fits = omega arith;
}

bitrate-IsInt : IsInt bitrate
bitrate-IsInt = record {
  some_digit = omega arith;
  digits = (refl, (refl, (refl, (refl, tt))));
  fits = omega arith;
}

name-IsWithout : IsWithout 58 (codes "720p")
name-IsWithout = (omega arith, (omega arith, (omega arith, (omega arith, tt))))

parse_output_spec-spec_text_example :
    parse_output_spec (spec_text (codes "720p") width height bitrate (codes "rtmp://a/b:c"))
    ≡ some (record {
      name = codes "720p";
      width = pos 1280;
      height = pos 720;
      video_bitrate_kbps = pos 2500;
      audio_bitrate_kbps = default_audio_bitrate (pos 2500);
      url = codes "rtmp://a/b:c";
    })
parse_output_spec-spec_text_example =
    parse_output_spec-spec_text (codes "720p") width height bitrate (codes "rtmp://a/b:c")
      name-IsWithout width-IsInt height-IsInt bitrate-IsInt

abbrev ladder : Written
ladder = record {
  name = codes "720p";
  width = width;
  height = height;
  video = bitrate;
  url = codes "rtmp://a/b";
}

abbrev some_settings : List Setting
some_settings = listens (codes ":1936") ∷ outputs ladder ∷ bounds (codes "042") ∷ []

parse_args-arguments_example :
    parse_args (arguments some_settings) ≡ ok (set_all some_settings default_config)
parse_args-arguments_example = parse_args-arguments some_settings (
  tt,
  (
    record {
      plain = name-IsWithout;
      width = width-IsInt;
      height = height-IsInt;
      video = bitrate-IsInt;
    },
    ((omega arith, (refl, (refl, (refl, tt))), omega arith), tt),
  ),
)

-- A resolver that knows each name.
abbrev local : List ℕ → Option (List (Option (List ℕ)))
local name = some (none ∷ some (codes "127.0.0.1") ∷ [])

parse_address_lem_example :
    (parse_address local (codes "[::1]" ++ (58 ∷ height))
      ≡ with_port (720 % 2 ^ 16) (local (codes "[::1]")))
    × (IsWithout 58 (codes "[::1]")
        → parse_address local (codes "[::1]") ≡ with_port 1935 (local (codes "[::1]")))
parse_address_lem_example = parse_address_lem local (codes "[::1]") height height-IsInt

-- A port of more than 16 bits wraps around.
port_wraps_runs : parse_address local (codes "a:67471") ≡ ok (codes "127.0.0.1", 1935)
unfolding parse_address rfind resolve_at with_port to_port first_address stoi read_number read_sign
    skip_spaces read_digits
port_wraps_runs = refl

-- A number that stoull does not take ends the program.
uncaught_runs : parse_args (codes "--max-pending-bytes" ∷ codes "lots" ∷ []) ≡ err uncaught
unfolding parse_args parse_loop choice_of apply_choice stoull read_number read_sign skip_spaces
    read_digits
uncaught_runs = refl

-- A negative number is a great one.
negative_runs :
    parse_args (codes "--max-pending-bytes" ∷ codes "-1" ∷ [])
    ≡ ok (record default_config { max_pending_bytes = 2 ^ 64 - 1 })
unfolding parse_args parse_loop choice_of apply_choice stoull read_number read_sign skip_spaces
    read_digits
negative_runs = refl
