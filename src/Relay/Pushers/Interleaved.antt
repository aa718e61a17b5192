-- ===== src/Relay/Pushers/Interleaved.antt =====
-- The life of one stream in src/relay/relay_manager.cpp, among the events of others.
use rtmp_abr_transcoder.Base.{
  ℕ, ◌+◌, ◌^◌, ◌≤◌, ◌<◌, ◌≡◌, refl, ap, ◌∙◌, true, false, List, [], ◌∷◌, ◌++◌, Option, none, some,
  arith, ◌==◌, length, append_assoc,
}
use rtmp_abr_transcoder.Messages.Control.{Message}
use rtmp_abr_transcoder.Amf0.Value.{Value}
use rtmp_abr_transcoder.Amf0.RoundTrip.{AreWire}
use rtmp_abr_transcoder.Commands.{CommandMessage}
use rtmp_abr_transcoder.Relay.Types.{StreamId}
use rtmp_abr_transcoder.Relay.Url.{build_push_url, connect_command}
use rtmp_abr_transcoder.Relay.Backpressure.{total_bytes}
use rtmp_abr_transcoder.Relay.Publisher.{relay_to}
use rtmp_abr_transcoder.Relay.Publisher as Publisher
use rtmp_abr_transcoder.Relay.Pusher.{
  Pusher, new_pusher, send_buffered, create_stream_command, publish_command, handle_pusher_message,
  handle_pusher_connected,
}
use rtmp_abr_transcoder.Relay.Publishing.{
  connect_answer, create_stream_answer, media, relay_all, relay_all-buffers, handle-connect_answer,
  relay-lossless,
}
use rtmp_abr_transcoder.Relay.Pushers.{
  Connector, Settings, Pushers, PusherEvent, called, connected, received, find_pusher, push_address,
  pusher_at, opened_pusher, connect_pusher, run,
}
use rtmp_abr_transcoder.Relay.Pushers.Cells.{own, created, run_alone, find_pusher-run}

abbrev pub relays : StreamId → List Message → List PusherEvent
relays id [] = []
relays id (msg ∷ ms) = called (relay_to id msg) ∷ relays id ms

-- The events of a stream from its publisher's command on: the pusher is created, its client
-- connects, and the other server answers connect and createStream, with messages of the publisher
-- before and after each.
abbrev pub life :
    StreamId
    → List Message
    → List Message
    → List Message
    → List Message
    → List Value
    → List Value
    → List PusherEvent
life id ms1 ms2 ms3 ms4 connected_with created_with =
    called (Publisher.create_pusher id)
    ∷ (relays id ms1
        ++ (connected id
            ∷ (relays id ms2
                ++ (received id (connect_answer connected_with)
                    ∷ (relays id ms3
                        ++ (received id (create_stream_answer created_with) ∷ relays id ms4))))))

-- A command and a flush.
abbrev pub ask : {C : Type 0} → Connector C → CommandMessage → C → C
ask api command client = api.client.flush (api.client.send_command command client)

module _ {C : Type 0} (api : Connector C) (settings : Settings) where
  run_alone-relays :
      (id : StreamId) (ms : List Message) (events : List PusherEvent) (p : Pusher C)
      → run_alone api settings (relays id ms ++ events) (some p)
        ≡ run_alone api settings events (some (relay_all api.client settings.policy ms p))
  unfolding run_alone relay_all
  run_alone-relays id [] events p = refl
  run_alone-relays id (msg ∷ ms) events p = run_alone-relays id ms events _

  run_alone-last_relays :
      (id : StreamId) (ms : List Message) (p : Pusher C)
      → run_alone api settings (relays id ms) (some p)
        ≡ some (relay_all api.client settings.policy ms p)
  unfolding run_alone relay_all
  run_alone-last_relays id [] p = refl
  run_alone-last_relays id (msg ∷ ms) p = run_alone-last_relays id ms _

  opened_pusher-address :
      (id : StreamId) (host : List ℕ) (port : ℕ)
      → 0 < length settings.push_url
      → push_address settings id ≡ some (host, port)
      → opened_pusher api settings id
        ≡ some (new_pusher (api.connect host port api.fresh_client) id)
  unfolding opened_pusher pusher_at
  opened_pusher-address id host port there address =
      let not_empty : (length settings.push_url == 0) ≡ false = ground arith in
      rw (not_empty, address) refl

  run_alone-create_pusher :
      (id : StreamId) (host : List ℕ) (port : ℕ) (events : List PusherEvent)
      → 0 < length settings.push_url
      → push_address settings id ≡ some (host, port)
      → run_alone api settings (called (Publisher.create_pusher id) ∷ events) none
        ≡ run_alone api settings events
            (some (new_pusher (api.connect host port api.fresh_client) id))
  unfolding run_alone
  run_alone-create_pusher id host port events there address =
      ap (λ (o : Option (Pusher C)). run_alone api settings events (created o none))
        (opened_pusher-address id host port there address)

  -- The pusher when the other server has answered connect.
  abbrev pub accepted : StreamId → List Message → List Message → Pusher C → Pusher C
  accepted id ms1 ms2 p =
      let connect = connect_command (build_push_url settings.push_url settings.push_template id) in
      let connection = api.client.flush (api.client.send_command connect p.client) in
      let command = create_stream_command api.client in
      record p {
        client = api.client.flush (api.client.send_command command connection);
        connected = true;
        reconnect_delay_ms = 100;
        buffer = p.buffer ++ (media ms1 ++ media ms2);
        pending_bytes = p.pending_bytes + (total_bytes (media ms1) + total_bytes (media ms2));
      }

  life-accepted :
      (id : StreamId) (ms1 ms2 : List Message) (arguments : List Value) (events : List PusherEvent)
      (p : Pusher C)
      → p.stream_id ≡ id
      → p.publishing ≡ false
      → p.pending_bytes + (total_bytes (media ms1) + total_bytes (media ms2))
        ≤ settings.policy.max_pending_bytes
      → settings.policy.max_pending_bytes < 2 ^ 64
      → AreWire arguments
      → run_alone api settings
          (relays id ms1
            ++ (connected id
                ∷ (relays id ms2 ++ (received id (connect_answer arguments) ∷ events))))
          (some p)
        ≡ run_alone api settings events (some (accepted id ms1 ms2 p))
  unfolding run_alone handle_pusher_connected
  life-accepted id ms1 ms2 arguments events p same f fits limit w =
      let policy = settings.policy in
      let p1 = record p {
        buffer = p.buffer ++ media ms1;
        pending_bytes = p.pending_bytes + total_bytes (media ms1);
      } in
      let p2 = connect_pusher api settings p1 in
      let p3 = record p2 {
        buffer = p2.buffer ++ media ms2;
        pending_bytes = p2.pending_bytes + total_bytes (media ms2);
      } in
      let sum : p1.pending_bytes + total_bytes (media ms2)
          ≡ p.pending_bytes + (total_bytes (media ms1) + total_bytes (media ms2)) =
        omega arith in
      let first = relay_all-buffers api.client policy ms1 p f (omega arith) limit in
      let second = relay_all-buffers api.client policy ms2 p2 f (omega arith) limit in
      rw
        (
          run_alone-relays id ms1,
          first,
          run_alone-relays id ms2,
          second,
          handle-connect_answer api.client policy settings.memory arguments p3 w f,
          same,
          sum,
          append_assoc p.buffer (media ms1) (media ms2),
        )
        refl

  -- A stream that has no pusher yet, under a push URL that is set and whose address is found, has
  -- just these events of its own, with any calls of publishers and callbacks of pushers of other
  -- streams between them: create_pusher; the callback of its client's connection; the answer to
  -- connect; the answer to createStream; and messages of its publisher, some before each of the
  -- last three and some behind them. There is no disconnection among its own events, and the
  -- answers have arguments that the format can carry. If the payloads of the media messages before
  -- the answer to createStream have no more bytes in all than max_pending_bytes, and that is less
  -- than 2 ^ 64, then at the end the stream has a pusher, whose client was connected to the
  -- address and was given connect, createStream and publish, each with a flush, and behind them
  -- all media messages of the publisher, in order and each once; the pusher publishes, and holds
  -- and counts nothing.
  pub life-relayed :
      (id : StreamId) (ms1 ms2 ms3 ms4 : List Message) (connected_with created_with : List Value)
      (host : List ℕ) (port : ℕ) (events : List PusherEvent) (ps : Pushers C)
      → find_pusher id ps ≡ none
      → 0 < length settings.push_url
      → push_address settings id ≡ some (host, port)
      → own id events ≡ life id ms1 ms2 ms3 ms4 connected_with created_with
      → total_bytes (media ms1) + total_bytes (media ms2) + total_bytes (media ms3)
        ≤ settings.policy.max_pending_bytes
      → settings.policy.max_pending_bytes < 2 ^ 64
      → AreWire connected_with
      → AreWire created_with
      → let url = build_push_url settings.push_url settings.push_template id in
        let c1 = ask api (connect_command url) (api.connect host port api.fresh_client) in
        let c2 = ask api (create_stream_command api.client) c1 in
        let c3 = ask api (publish_command api.client id.stream) c2 in
        let ms = (media ms1 ++ media ms2) ++ (media ms3 ++ media ms4) in
        (p : Pusher C) × (find_pusher id (run api settings events ps) ≡ some p)
        × (p.client ≡ send_buffered api.client ms c3)
        × (p.publishing ≡ true)
        × (p.buffer ≡ [])
        × (p.pending_bytes ≡ 0)
  unfolding new_pusher run_alone
  life-relayed id ms1 ms2 ms3 ms4 connected_with created_with host port events ps absent there
        address eq fits limit w1 w2 =
      let p = new_pusher (api.connect host port api.fresh_client) id in
      let p1 = accepted id ms1 ms2 p in
      let rest3 : List PusherEvent =
        received id (create_stream_answer created_with) ∷ relays id ms4 in
      let rest2 : List PusherEvent = relays id ms3 ++ rest3 in
      let rest1 : List PusherEvent =
        relays id ms1
        ++ (connected id
            ∷ (relays id ms2 ++ (received id (connect_answer connected_with) ∷ rest2))) in
      let held = relay_all api.client settings.policy ms3 p1 in
      let publishing =
        handle_pusher_message api.client settings.memory (create_stream_answer created_with) held in
      let lossless =
        relay-lossless api.client settings.policy settings.memory ms3 ms4 created_with p1 refl
          (omega arith) limit w2 in
      (
        relay_all api.client settings.policy ms4 publishing,
        find_pusher-run api settings id events ps
            ∙ ap (λ (o : Option (Pusher C)). run_alone api settings (own id events) o) absent
            ∙ ap (λ (es : List PusherEvent). run_alone api settings es none) eq
            ∙ run_alone-create_pusher id host port rest1 there address
            ∙ life-accepted id ms1 ms2 connected_with rest2 p refl refl (omega arith) limit w1
            ∙ run_alone-relays id ms3 rest3 p1
            ∙ run_alone-last_relays id ms4 publishing,
        lossless.0,
        lossless.1,
        lossless.2,
        lossless.3,
      )
