-- ===== src/Program/Tests.antt =====
-- The theorem on the program's start at a concrete input, and runs of its refusals.
use rtmp_abr_transcoder.Base.{
  ℕ, ◌%◌, ◌^◌, ◌≡◌, refl, true, false, List, [], ◌∷◌, Option, some, ok, err, arith, map,
}
use rtmp_abr_transcoder.Base.Texts.{codes}
use rtmp_abr_transcoder.Base.Numbers.{IsInt}
use rtmp_abr_transcoder.Cli.{parse_args, parse_loop, choice_of, apply_choice}
use rtmp_abr_transcoder.Cli.Arguments.{Written, IsWritten, spec_of}
use rtmp_abr_transcoder.Net.Address.{first_address}
use rtmp_abr_transcoder.Relay.Types.{default_policy}
use rtmp_abr_transcoder.Program.{returns_1, start_main, mode_is_usable, output_config}
use rtmp_abr_transcoder.Program.Starting.{ladder_arguments, start_main-ladder}

abbrev local : List ℕ → Option (List (Option (List ℕ)))
local name = some (some (codes "127.0.0.1") ∷ [])

port-IsInt : IsInt (codes "1936")
port-IsInt = record {
  some_digit = omega arith;
  digits = (refl, (refl, (refl, (refl, tt))));
  fits = omega arith;
}

abbrev ladder : Written
ladder = record {
  name = codes "a";
  width = codes "1936";
  height = codes "1936";
  video = codes "1936";
  url = codes "rtmp://a/b";
}

ladder-IsWritten : IsWritten ladder
ladder-IsWritten = record {
  plain = (omega arith, tt);
  width = port-IsInt;
  height = port-IsInt;
  video = port-IsInt;
}

start_main-ladder_example :
    start_main local true (ladder_arguments (codes "localhost") (codes "1936") (ladder ∷ []))
    ≡ ok (record {
      debug = false;
      policy = default_policy;
      push_url = [];
      push_template = codes "{app}/{stream}";
      transcoder = some (map output_config (map spec_of (ladder ∷ [])));
      address = codes "127.0.0.1";
      port = 1936 % 2 ^ 16;
    })
unfolding first_address
start_main-ladder_example =
    start_main-ladder local (codes "localhost") (codes "1936") (some (codes "127.0.0.1") ∷ [])
      ladder [] port-IsInt refl (omega arith) (ladder-IsWritten, tt)

-- The mode relay, which is the default, needs a push URL, and the mode transcode an output.
relay_refused_runs : start_main local true [] ≡ err returns_1
unfolding start_main parse_args parse_loop mode_is_usable
relay_refused_runs = refl

transcode_refused_runs :
    start_main local true (codes "--mode" ∷ codes "transcode" ∷ []) ≡ err returns_1
unfolding start_main parse_args parse_loop choice_of apply_choice mode_is_usable
transcode_refused_runs = refl
