-- ===== src/Commands/Tests.antt =====
-- The theorem on commands at a concrete input.
use rtmp_abr_transcoder.Base.{[], ◌∷◌, ◌≡◌, some, arith}
use rtmp_abr_transcoder.Amf0.Members.{IsWire}
use rtmp_abr_transcoder.Amf0.Value.{null, string}
use rtmp_abr_transcoder.Commands.{CommandMessage, parse_command, encode_command}
use rtmp_abr_transcoder.Commands.RoundTrip.{IsWireCommand, parse_command-encode_command}

-- publish(null, "live") with transaction id 4.0.
abbrev publish : CommandMessage
publish = record {
  name = 112 ∷ 117 ∷ 98 ∷ [];
  transaction_id = 0x4010_0000_0000_0000;
  arguments = null ∷ string (108 ∷ 105 ∷ []) ∷ [];
}

publish-IsWireCommand : IsWireCommand publish
unfolding IsWire
publish-IsWireCommand = record {
  name_fits = omega arith;
  transaction_fits = omega arith;
  arguments_fit = (tt, (omega arith, tt));
}

parse_command-encode_command_example : parse_command 7 (encode_command publish) ≡ some publish
parse_command-encode_command_example = parse_command-encode_command 7 publish publish-IsWireCommand
