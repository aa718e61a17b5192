-- ===== src/Relay/WireTests.antt =====
-- The theorem on a pusher over the client of src/rtmp/rtmp_client.cpp at a concrete input.
use rtmp_abr_transcoder.Base.{
  replicate, true, false, ℕ, ◌≡◌, refl, List, [], ◌∷◌, ◌++◌, Option, some, arith,
}
use rtmp_abr_transcoder.Messages.Control.{Message}
use rtmp_abr_transcoder.Amf0.Value.{null}
use rtmp_abr_transcoder.Net.Socket.{
  SysResult, returned, would_block, failed, set_nonblocking, connect_socket, close,
}
use rtmp_abr_transcoder.Base.Texts.{codes}
use rtmp_abr_transcoder.Commands.{CommandMessage}
use rtmp_abr_transcoder.Client.{RtmpClient, new_client, connect, open_socket, register}
use rtmp_abr_transcoder.Client.Events.{Event, EventCalls}
use rtmp_abr_transcoder.Client.Establishing.{succeeding, output_event, takes}
use rtmp_abr_transcoder.Client.Safety.{Ends}
use rtmp_abr_transcoder.Client.Running.{run_events, connect-Ends}
use rtmp_abr_transcoder.Relay.Url.{connect_command}
use rtmp_abr_transcoder.Relay.ClientCallbacks.{pusher_callbacks, pusher_callbacks-AreSafe}
use rtmp_abr_transcoder.Client.Stream.{stream}
use rtmp_abr_transcoder.Client.Tests.{idle, idle-IsSending, doubled}
use rtmp_abr_transcoder.Relay.Types.{StreamId, default_policy}
use rtmp_abr_transcoder.Relay.Pusher.{Pusher, new_pusher, publish_command, handle_pusher_message}
use rtmp_abr_transcoder.Relay.Publishing.{create_stream_answer, media, relay_all}
use rtmp_abr_transcoder.Relay.Wire.{wire_client, command_chunks, all_chunks, relay-stream}

abbrev stream_id : StreamId
stream_id = record { app = 97 ∷ []; stream = 98 ∷ [] }

abbrev frame : Message
frame = record { type_id = 9; timestamp = 40; stream_id = 1; payload = 1 ∷ 2 ∷ 3 ∷ [] }

abbrev sound : Message
sound = record { type_id = 8; timestamp = 45; stream_id = 1; payload = 7 ∷ [] }

abbrev blocked : RtmpClient → SysResult ℕ
blocked c = would_block

abbrev pushing : Pusher (Option RtmpClient)
pushing = record (new_pusher (some idle) stream_id) { pending_bytes = 1; buffer = sound ∷ [] }

relay-stream_example :
    let api = wire_client doubled 0 blocked in
    let held = relay_all api default_policy (frame ∷ []) pushing in
    let publishing = handle_pusher_message api 0 (create_stream_answer (null ∷ [])) held in
    let last = relay_all api default_policy (sound ∷ []) publishing in
    (c : RtmpClient) × (last.client ≡ some c)
    × (stream c
        ≡ stream idle
          ++ (command_chunks 128 (publish_command api (98 ∷ []))
              ++ all_chunks 128 ((sound ∷ []) ++ (media (frame ∷ []) ++ media (sound ∷ [])))))
unfolding new_pusher media rtmp_abr_transcoder.Amf0.Members.IsWire
relay-stream_example =
    relay-stream doubled 0 blocked default_policy 128 0 (frame ∷ []) (sound ∷ []) (null ∷ [])
      pushing idle refl idle-IsSending refl (omega arith) (omega arith) (tt, tt)

abbrev connecting : CommandMessage
connecting = connect_command (codes "rtmp://cdn/live/b")

-- The greeting of the other server arrives in two reads, and the connection breaks.
abbrev arrivals : List (Event × EventCalls)
arrivals =
    (output_event, takes 1537)
    ∷ (
      record { writable = false; readable = true; broken = false },
      record {
        reads = returned (3 ∷ replicate 3072 7);
        writes = would_block;
        replies = returned 1536;
      },
    )
    ∷ (
      record { writable = true; readable = true; broken = true },
      record { reads = failed; writes = failed; replies = failed },
    )
    ∷ []

connect-Ends_example : Ends (
    run_events
      (pusher_callbacks doubled 0 blocked connecting 0)
      arrivals
      ((connect (λ i. i) (succeeding 5) new_client).1, pushing))
unfolding connect open_socket register new_client set_nonblocking connect_socket close
connect-Ends_example =
    connect-Ends (pusher_callbacks doubled 0 blocked connecting 0)
      (pusher_callbacks-AreSafe doubled 0 blocked connecting 0) (λ i. i) (succeeding 5) arrivals
      pushing refl
