-- ===== src/Relay/Pushers.antt =====
-- The map of pushers of src/relay/relay_manager.cpp: create_pusher, the callbacks of the pushers'
-- clients and the search of the pusher that relays a message. std::map keeps its keys in an order
-- that nothing observes: here they stand in the order in which they came.
pub mod Cells
pub mod Keys
pub mod Interleaved
pub mod Reconnecting
mod Tests
use rtmp_abr_transcoder.Base.{
  ℕ, ◌+◌, ◌-◌, Bool, ◌&&◌, List, [], ◌∷◌, Option, none, some, Result, ok, err, ◌==◌, if◌then◌else◌,
  length, take, drop,
}
use rtmp_abr_transcoder.Base.Options.{◌>>=◌}
use rtmp_abr_transcoder.Base.Texts.{same_text, host_port_of}
use rtmp_abr_transcoder.Messages.Control.{Message}
use rtmp_abr_transcoder.Net.Address.{parse_address}
use rtmp_abr_transcoder.Relay.Types.{StreamId, RelayPolicy}
use rtmp_abr_transcoder.Relay.Url.{build_push_url, connect_command}
use rtmp_abr_transcoder.Relay.Publisher.{
  Call, start_transcoder, source_metadata, video_data, audio_data, relay_to,
}
use rtmp_abr_transcoder.Relay.Publisher as Publisher
use rtmp_abr_transcoder.Relay.Pusher.{
  Client, Pusher, new_pusher, relay_message, handle_pusher_connected, handle_pusher_message,
  handle_pusher_disconnected,
}

-- What a client does besides: a new one, and connect() to a host and a port, whose result is only
-- logged.
pub record Connector (C : Type 0) : Type 0 where
  pub client : Client C
  pub fresh_client : C
  pub connect : List ℕ → ℕ → C → C

-- The members that do not change while the relay runs, with what the system answers about hosts and
-- what an unwritten transaction id holds.
pub record Settings : Type 0 where
  pub policy : RelayPolicy
  pub push_url : List ℕ
  pub push_template : List ℕ
  pub resolve : List ℕ → Option (List (Option (List ℕ)))
  pub memory : ℕ

-- operator== of StreamId.
abbrev pub same_id : StreamId → StreamId → Bool
same_id a b = same_text a.app b.app && same_text a.stream b.stream

abbrev pub Pushers : Type 0 → Type 0
Pushers C = List (StreamId × Pusher C)

-- pushers_.find(id).
unfoldable pub find_pusher : {C : Type 0} → StreamId → Pushers C → Option (Pusher C)
find_pusher id [] = none
find_pusher id ((key, p) ∷ ps) =
    let rest = find_pusher id ps in if same_id id key then some p else rest

-- pushers_[id] = p.
unfoldable pub assign : {C : Type 0} → StreamId → Pusher C → Pushers C → Pushers C
assign id p [] = (id, p) ∷ []
assign id p ((key, q) ∷ ps) =
    let rest = assign id p ps in if same_id id key then (key, p) ∷ ps else (key, q) ∷ rest

-- A call on the pusher of a stream, through its pointer.
unfoldable pub update_pusher :
    {C : Type 0} → StreamId → (Pusher C → Pusher C) → Pushers C → Pushers C
update_pusher id f [] = []
update_pusher id f ((key, p) ∷ ps) =
    let rest = update_pusher id f ps in if same_id id key then (key, f p) ∷ ps else (key, p) ∷ rest

unfoldable pub push_address : Settings → StreamId → Option (List ℕ × ℕ)
push_address settings id = do
  host_port ← host_port_of (build_push_url settings.push_url settings.push_template id)
  elim (parse_address settings.resolve host_port) [ err e ↦ none | ok address ↦ some address ]

-- A call of the publishers, or a callback of a pusher's client.
pub data PusherEvent : Type 0 where
  called : Call → PusherEvent
  connected : StreamId → PusherEvent
  received : StreamId → Message → PusherEvent
  disconnected : StreamId → PusherEvent

module _ {C : Type 0} (api : Connector C) (settings : Settings) where
  -- A pusher whose client connects to an address, if there is one.
  unfoldable pub pusher_at : StreamId → Option (List ℕ × ℕ) → Option (Pusher C)
  pusher_at id none = none
  pusher_at id (some (host, port)) = some (new_pusher (api.connect host port api.fresh_client) id)

  -- Without a push URL there is none.
  unfoldable pub opened_pusher : StreamId → Option (Pusher C)
  opened_pusher id =
      if length settings.push_url == 0 then none else pusher_at id (push_address settings id)

  unfoldable pub create_pusher : StreamId → Pushers C → Pushers C
  create_pusher id ps = elim (opened_pusher id) [ none ↦ ps | some p ↦ assign id p ps ]

  -- The whole of handle_pusher_disconnected: a new client, and its connection.
  unfoldable pub reconnect_pusher : Pusher C → Pusher C
  reconnect_pusher p =
      let p' = handle_pusher_disconnected api.fresh_client p in
      elim (push_address settings p.stream_id) [
        | none ↦ p'
        | some (host, port) ↦ record p' { client = api.connect host port p'.client }
      ]

  abbrev pub connect_pusher : Pusher C → Pusher C
  connect_pusher p =
      handle_pusher_connected api.client
        (connect_command (build_push_url settings.push_url settings.push_template p.stream_id)) p

  -- The calls of the transcoder do not concern the pushers.
  unfoldable pub handle_call : Call → Pushers C → Pushers C
  handle_call start_transcoder ps = ps
  handle_call source_metadata ps = ps
  handle_call (video_data payload timestamp keyframe) ps = ps
  handle_call (audio_data payload timestamp) ps = ps
  handle_call (Publisher.create_pusher id) ps = create_pusher id ps
  handle_call (relay_to id msg) ps =
      update_pusher id (relay_message api.client settings.policy msg) ps

  unfoldable pub handle_event : PusherEvent → Pushers C → Pushers C
  handle_event (called call) ps = handle_call call ps
  handle_event (connected id) ps = update_pusher id connect_pusher ps
  handle_event (received id msg) ps =
      update_pusher id (handle_pusher_message api.client settings.memory msg) ps
  handle_event (disconnected id) ps = update_pusher id reconnect_pusher ps

  unfoldable pub run : List PusherEvent → Pushers C → Pushers C
  run [] ps = ps
  run (event ∷ events) ps = run events (handle_event event ps)
