-- ===== src/Relay/Pusher.antt =====
-- RelayManager::relay_message, handle_pusher_message and handle_pusher_disconnected. The client of a
-- pusher is the interface `Client`: what rtmp::Client does with a message, a command and a flush.
use rtmp_abr_transcoder.Base.{
  ℕ, ◌+◌, ◌-◌, ◌*◌, ◌%◌, ◌^◌, min, Bool, true, false, not, ◌&&◌, ◌||◌, List, [], ◌∷◌, ◌++◌, none,
  some, ltb, ◌==◌, if◌then◌else◌, length,
}
use rtmp_abr_transcoder.Base.Texts.{same_text}
use rtmp_abr_transcoder.Messages.Control.{
  Message, type_number, audio, video, data_amf0, command_amf0,
}
use rtmp_abr_transcoder.Amf0.Value.{null, string}
use rtmp_abr_transcoder.Commands.{CommandMessage, parse_command}
use rtmp_abr_transcoder.Relay.Types.{
  StreamId, RelayPolicy, BackpressurePolicy, drop_oldest, drop_newest, disconnect, result_text,
  create_stream_text, publish_text, live_text, one, two,
}

pub record Client (C : Type 0) : Type 0 where
  pub send_message : Message → C → C
  pub send_command : CommandMessage → C → C
  pub flush : C → C

-- `last_disconnect_time` is never read or written.
pub record Pusher (C : Type 0) : Type 0 where
  pub client : C
  pub stream_id : StreamId
  pub connected : Bool
  pub publishing : Bool
  pub reconnect_delay_ms : ℕ
  pub pending_bytes : ℕ
  pub buffer : List Message

-- create_pusher: the members' initial values.
unfoldable pub new_pusher : {C : Type 0} → C → StreamId → Pusher C
new_pusher client stream_id = record {
  client = client;
  stream_id = stream_id;
  connected = false;
  publishing = false;
  reconnect_delay_ms = 100;
  pending_bytes = 0;
  buffer = [];
}

-- The types that are relayed.
abbrev pub is_media : Message → Bool
is_media msg =
    msg.type_id == type_number audio
    || (msg.type_id == type_number video || msg.type_id == type_number data_amf0)

-- `-=` and `+=` on size_t.
abbrev pub minus : ℕ → ℕ → ℕ
minus a b = (a + 2 ^ 64 - b) % 2 ^ 64

abbrev pub plus : ℕ → ℕ → ℕ
plus a b = (a + b) % 2 ^ 64

-- buffer.push_back(msg).
abbrev pub keep : {C : Type 0} → Message → Pusher C → Pusher C
keep msg p = record p { buffer = p.buffer ++ (msg ∷ []) }

-- The branch of the policy DropOldest, with a buffer that may be empty.
abbrev pub drop_front : {C : Type 0} → List Message → Pusher C → Pusher C
drop_front [] p = p
drop_front (first ∷ rest) p = record p {
  buffer = rest;
  pending_bytes = minus p.pending_bytes (length first.payload);
}

-- The branch in which pending_bytes is above the limit.
unfoldable pub over_limit : {C : Type 0} → BackpressurePolicy → Message → Pusher C → Pusher C
over_limit drop_oldest msg p = keep msg (drop_front p.buffer p)
over_limit drop_newest msg p = record p {
  pending_bytes = minus p.pending_bytes (length msg.payload);
}
over_limit disconnect msg p = keep msg p

-- The branch for a pusher that does not publish yet.
unfoldable pub buffer_message : {C : Type 0} → RelayPolicy → Message → Pusher C → Pusher C
buffer_message policy msg p =
    let p' = record p { pending_bytes = plus p.pending_bytes (length msg.payload) } in
    if ltb policy.max_pending_bytes p'.pending_bytes
    then over_limit policy.backpressure msg p'
    else keep msg p'

-- The pusher after a disconnection, with the new client; the connection is attempted at once.
unfoldable pub handle_pusher_disconnected : {C : Type 0} → C → Pusher C → Pusher C
handle_pusher_disconnected new_client p = record p {
  client = new_client;
  connected = false;
  publishing = false;
  reconnect_delay_ms = min (p.reconnect_delay_ms * 2 % 2 ^ 32) 5000;
}

module _ {C : Type 0} (api : Client C) where
  unfoldable pub relay_message : RelayPolicy → Message → Pusher C → Pusher C
  relay_message policy msg p =
      if not (is_media msg)
      then p
      else if p.publishing
      then record p { client = api.send_message msg p.client }
      else buffer_message policy msg p

  -- The loop over the buffered messages.
  unfoldable pub send_buffered : List Message → C → C
  send_buffered [] c = c
  send_buffered (msg ∷ ms) c = send_buffered ms (api.send_message msg c)

  abbrev pub create_stream_command : CommandMessage
  create_stream_command = record {
    name = create_stream_text;
    transaction_id = two;
    arguments = null ∷ [];
  }

  abbrev pub publish_command : List ℕ → CommandMessage
  publish_command stream = record {
    name = publish_text;
    transaction_id = 0;
    arguments = null ∷ string stream ∷ string live_text ∷ [];
  }

  -- The answer to createStream: publish, and send what is buffered.
  unfoldable pub start_publishing : Pusher C → Pusher C
  start_publishing p =
      let c = api.flush (api.send_command (publish_command p.stream_id.stream) p.client) in
      record p {
        client = send_buffered p.buffer c;
        publishing = true;
        buffer = [];
        pending_bytes = 0;
      }

  unfoldable pub handle_result : CommandMessage → Pusher C → Pusher C
  handle_result cmd p =
      if cmd.transaction_id == one
      then record p { client = api.flush (api.send_command create_stream_command p.client) }
      else if cmd.transaction_id == two
      then start_publishing p
      else p

  -- `memory` is what an unwritten transaction id holds. "_error" and "onStatus" are only logged.
  unfoldable pub handle_pusher_message : ℕ → Message → Pusher C → Pusher C
  handle_pusher_message memory msg p =
      if msg.type_id == type_number command_amf0
      then elim (parse_command memory msg.payload) [
        | none ↦ p
        | some cmd ↦
            if same_text cmd.name result_text && not p.publishing then handle_result cmd p else p
      ]
      else p

  -- The first half of handle_pusher_connected; `connect` is the command that it sends.
  unfoldable pub handle_pusher_connected : CommandMessage → Pusher C → Pusher C
  handle_pusher_connected connect p = record p {
    client = api.flush (api.send_command connect p.client);
    connected = true;
    reconnect_delay_ms = 100;
  }
