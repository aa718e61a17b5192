-- ===== src/Program.antt =====
-- src/main.cpp: from the arguments to the event loop. The answers of the system are arguments; what
-- is logged is left out.
pub mod Starting
mod Tests
use rtmp_abr_transcoder.Base.{
  ℕ, Bool, true, false, not, List, [], ◌∷◌, ◌++◌, Option, none, some, Result, ok, err, ◌==◌,
  if◌then◌else◌, length,
}
use rtmp_abr_transcoder.Base.Options.{◌>>=◌}
use rtmp_abr_transcoder.Base.Texts.{codes, same_text}
use rtmp_abr_transcoder.Net.Socket.{SocketError}
use rtmp_abr_transcoder.Net.Address.{parse_address}
use rtmp_abr_transcoder.Cli.{OutputSpec, Config, ArgsError, uncaught, parse_args}
use rtmp_abr_transcoder.Relay.Types.{RelayPolicy, default_policy}
use rtmp_abr_transcoder.Transcode.Outputs.{OutputConfig}

-- What main makes of the arguments: the manager and the server that run.
pub record Service : Type 0 where
  pub debug : Bool
  pub policy : RelayPolicy
  pub push_url : List ℕ
  pub push_template : List ℕ
  pub transcoder : Option (List OutputConfig)
  pub address : List ℕ
  pub port : ℕ

-- How main ends before the loop: it returns 1, or an exception ends the program.
pub data Exit : Type 0 where
  returns_1 terminates : Exit

abbrev pub exit_of : ArgsError → Exit
exit_of uncaught = terminates
exit_of _ = returns_1

-- The tests on the mode.
unfoldable pub mode_is_usable : Config → Bool
mode_is_usable config =
    if same_text config.mode (codes "relay")
    then not (length config.push_url == 0)
    else if same_text config.mode (codes "transcode")
    then not (length config.outputs == 0)
    else true

unfoldable pub policy_of : Config → RelayPolicy
policy_of config = record default_policy {
  max_pending_bytes = config.max_pending_bytes;
  pusher_down_disconnect_ms = config.pusher_down_disconnect_ms;
}

unfoldable pub output_config : OutputSpec → OutputConfig
output_config out = record {
  name = out.name;
  width = out.width;
  height = out.height;
  video_bitrate_kbps = out.video_bitrate_kbps;
  audio_bitrate_kbps = out.audio_bitrate_kbps;
  rtmp_url = out.url;
}

-- The loop over the outputs; add_output always succeeds.
unfoldable pub add_outputs : List OutputSpec → List OutputConfig
add_outputs [] = []
add_outputs (out ∷ outputs) = output_config out ∷ add_outputs outputs

-- The manager's members before set_push_url and set_push_template, and what the mode makes of them.
unfoldable pub service_of : Config → List ℕ × ℕ → Service
service_of config (address, port) =
    let sink : Service = record {
      debug = same_text config.log_level (codes "debug");
      policy = policy_of config;
      push_url = [];
      push_template = codes "{app}/{stream}";
      transcoder = none;
      address = address;
      port = port;
    } in
    if same_text config.mode (codes "transcode")
    then record sink { transcoder = some (add_outputs config.outputs) }
    else if same_text config.mode (codes "relay")
    then record sink { push_url = config.push_url; push_template = config.push_template }
    else sink

module _ (resolve : List ℕ → Option (List (Option (List ℕ)))) (server_starts : Bool) where
  unfoldable pub start_service : Config → Result Exit Service
  start_service config = elim (parse_address resolve config.listen_addr) [
    | err e ↦ err returns_1
    | ok address ↦ if server_starts then ok (service_of config address) else err returns_1
  ]

  unfoldable pub start_main : List (List ℕ) → Result Exit Service
  start_main argv = elim (parse_args argv) [
    | err e ↦ err (exit_of e)
    | ok config ↦ if mode_is_usable config then start_service config else err returns_1
  ]
