-- ===== src/Commands/RoundTrip.antt =====
-- A command is read back as it was written.
use rtmp_abr_transcoder.Base.{ℕ, ◌<◌, ◌^◌, ◌≡◌, refl, ◌∷◌, length, some}
use rtmp_abr_transcoder.Amf0.Members.{IsWire}
use rtmp_abr_transcoder.Amf0.RoundTrip.{AreWire, decode_array-encode_array}
use rtmp_abr_transcoder.Amf0.Value.{string, number}
use rtmp_abr_transcoder.Commands.{
  CommandMessage, command_of, transaction_of, parse_command, encode_command,
}

-- A command that the wire can carry.
pub record IsWireCommand (cmd : CommandMessage) : Type 0 where
  pub name_fits : length cmd.name < 65536
  pub transaction_fits : cmd.transaction_id < 2 ^ 64
  pub arguments_fit : AreWire cmd.arguments

-- A command is read back as it was written, and nothing of it comes from memory that was never
-- written, if its name is shorter than 65536 bytes and its arguments are values that the format
-- can carry.
pub parse_command-encode_command :
    (memory : ℕ) (cmd : CommandMessage)
    → IsWireCommand cmd
    → parse_command memory (encode_command cmd) ≡ some cmd
unfolding parse_command encode_command command_of transaction_of IsWire
parse_command-encode_command memory cmd w =
    rw
      (
        parse_command,
        decode_array-encode_array (string cmd.name ∷ number cmd.transaction_id ∷ cmd.arguments)
            (w.name_fits, (w.transaction_fits, w.arguments_fit)),
      )
      refl
