-- ===== src/Relay/Pushers/Tests.antt =====
-- The theorems on the map of pushers at a concrete input: two streams of a relay, whose events are
-- interleaved.
use rtmp_abr_transcoder.Base.{ℕ, ◌≡◌, refl, true, false, List, [], ◌∷◌, ◌++◌, some, arith}
use rtmp_abr_transcoder.Base.Texts.{codes, find, find_from, host_port_of}
use rtmp_abr_transcoder.Base.Numbers.{stoi, read_number, read_digits, read_sign, skip_spaces}
use rtmp_abr_transcoder.Net.Address.{parse_address, rfind, resolve_at, with_port, to_port}
use rtmp_abr_transcoder.Net.Address as Address
use rtmp_abr_transcoder.Messages.Control.{Message}
use rtmp_abr_transcoder.Amf0.Value.{null}
use rtmp_abr_transcoder.Commands.{CommandMessage}
use rtmp_abr_transcoder.Relay.Types.{StreamId, default_policy}
use rtmp_abr_transcoder.Relay.Url.{build_push_url, connect_command, default_template}
use rtmp_abr_transcoder.Relay.Publisher.{relay_to}
use rtmp_abr_transcoder.Relay.Publisher as Publisher
use rtmp_abr_transcoder.Relay.Pusher.{
  new_pusher, Pusher, send_buffered, create_stream_command, publish_command,
}
use rtmp_abr_transcoder.Relay.Publishing.{connect_answer, create_stream_answer, media}
use rtmp_abr_transcoder.Relay.Pushers.{
  Connector, Settings, PusherEvent, called, connected, received, disconnected, find_pusher,
  push_address, run,
}
use rtmp_abr_transcoder.Relay.Pushers.Cells.{own}
use rtmp_abr_transcoder.Relay.Pushers.Reconnecting.{reconnects, reconnects-connect}
use rtmp_abr_transcoder.Relay.Pushers.Interleaved.{ask, life-relayed}

data Asked : Type 0 where
  message_sent : Message → Asked
  command_sent : CommandMessage → Asked
  flushed : Asked
  dialed : List ℕ → ℕ → Asked

abbrev noting : Connector (List Asked)
noting = record {
  client = record {
    send_message = λ msg asked. asked ++ (message_sent msg ∷ []);
    send_command = λ cmd asked. asked ++ (command_sent cmd ∷ []);
    flush = λ asked. asked ++ (flushed ∷ []);
  };
  fresh_client = [];
  connect = λ host port asked. asked ++ (dialed host port ∷ []);
}

abbrev local_address : List ℕ
local_address = codes "127.0.0.1"

abbrev settings : Settings
settings = record {
  policy = default_policy;
  push_url = codes "rtmp://cdn:1936/";
  push_template = default_template;
  resolve = λ name. some (some local_address ∷ []);
  memory = 0;
}

abbrev first_id : StreamId
first_id = record { app = codes "live"; stream = codes "a" }

abbrev second_id : StreamId
second_id = record { app = codes "live"; stream = codes "b" }

abbrev frame : Message
frame = record { type_id = 9; timestamp = 40; stream_id = 1; payload = 1 ∷ 2 ∷ 3 ∷ [] }

abbrev sound : Message
sound = record { type_id = 8; timestamp = 45; stream_id = 1; payload = 7 ∷ [] }

abbrev events : List PusherEvent
events =
    called (Publisher.create_pusher first_id)
    ∷ called (Publisher.create_pusher second_id)
    ∷ called (relay_to first_id frame)
    ∷ connected second_id
    ∷ connected first_id
    ∷ received first_id (connect_answer [])
    ∷ disconnected second_id
    ∷ called (relay_to second_id frame)
    ∷ called (relay_to first_id sound)
    ∷ received first_id (create_stream_answer (null ∷ []))
    ∷ called (relay_to first_id frame)
    ∷ []

first_id_address : push_address settings first_id ≡ some (local_address, 1936)
unfolding push_address host_port_of build_push_url find find_from parse_address rfind resolve_at
    with_port Address.first_address to_port stoi read_number read_digits read_sign skip_spaces
first_id_address = refl

life-relayed_example :
    let url = build_push_url settings.push_url settings.push_template first_id in
    let c1 = ask noting (connect_command url) (dialed local_address 1936 ∷ []) in
    let c2 = ask noting (create_stream_command noting.client) c1 in
    let c3 = ask noting (publish_command noting.client first_id.stream) c2 in
    let ms = (media (frame ∷ []) ++ media []) ++ (media (sound ∷ []) ++ media (frame ∷ [])) in
    (p : Pusher (List Asked)) × (find_pusher first_id (run noting settings events []) ≡ some p)
    × (p.client ≡ send_buffered noting.client ms c3)
    × (p.publishing ≡ true)
    × (p.buffer ≡ [])
    × (p.pending_bytes ≡ 0)
unfolding find_pusher own media rtmp_abr_transcoder.Amf0.Members.IsWire
life-relayed_example =
    life-relayed noting settings first_id (frame ∷ []) [] (sound ∷ []) (frame ∷ []) [] (null ∷ [])
      local_address 1936 events [] refl (omega arith) first_id_address refl (omega arith)
      (omega arith) tt (tt, tt)

-- A pusher of the first stream, which has waited before.
abbrev waiting : Pusher (List Asked)
waiting = record (new_pusher [] first_id) {
  reconnect_delay_ms = 200;
  pending_bytes = 1;
  buffer = sound ∷ [];
}

reconnects-connect_example :
    let p' = reconnects noting settings 3 waiting in
    (p'.client ≡ dialed local_address 1936 ∷ [])
    × (p'.reconnect_delay_ms ≡ 1600)
    × (p'.connected ≡ false)
    × (p'.publishing ≡ false)
    × (p'.buffer ≡ sound ∷ [])
    × (p'.pending_bytes ≡ 1)
unfolding new_pusher
reconnects-connect_example =
    reconnects-connect noting settings 2 waiting local_address 1936 (omega arith) first_id_address
