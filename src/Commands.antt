-- ===== src/Commands.antt =====
-- CommandMessage of include/rtmp/rtmp_messages.hpp and src/rtmp/rtmp_messages.cpp: a name, a
-- transaction id and arguments, as a sequence of AMF0 values.
pub mod RoundTrip
mod Tests
use rtmp_abr_transcoder.Base.{ℕ, List, [], ◌∷◌, Option, none, some, ok, err, drop}
use rtmp_abr_transcoder.Amf0.Value.{Value, null, number, boolean, string, object}
use rtmp_abr_transcoder.Amf0.Codec.{encode_array, decode_array}

-- The transaction id is a `double`: its bit pattern.
pub record CommandMessage : Type 0 where
  pub name : List ℕ
  pub transaction_id : ℕ
  pub arguments : List Value

-- The id of a second value that is a number. Without one the field is never written: it keeps what
-- its memory held, the parameter `memory`.
unfoldable pub transaction_of : ℕ → List Value → ℕ
transaction_of memory (number n ∷ vs) = n
transaction_of memory vs = memory

-- From the decoded values on.
unfoldable pub command_of : ℕ → List Value → Option CommandMessage
command_of memory (string s ∷ vs) =
    some (record { name = s; transaction_id = transaction_of memory vs; arguments = drop 1 vs })
command_of memory vs = none

unfoldable pub parse_command : ℕ → List ℕ → Option CommandMessage
parse_command memory payload = elim (decode_array payload) [
  | err e ↦ none
  | ok values ↦ command_of memory values
]

unfoldable pub encode_command : CommandMessage → List ℕ
encode_command cmd = encode_array (string cmd.name ∷ number cmd.transaction_id ∷ cmd.arguments)
