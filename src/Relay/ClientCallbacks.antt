-- ===== src/Relay/ClientCallbacks.antt =====
-- The callbacks that create_pusher of src/relay/relay_manager.cpp gives to a client of
-- src/rtmp/rtmp_client.cpp. That of a disconnection destroys the client it runs on, which no callback
-- may do: here it only notes that the pusher is not connected.
use rtmp_abr_transcoder.Base.{
  ℕ, Bool, true, false, not, ◌&&◌, List, [], ◌∷◌, Option, none, some, ◌==◌, if◌then◌else◌,
}
use rtmp_abr_transcoder.Base.Texts.{same_text}
use rtmp_abr_transcoder.Messages.Control.{Message, type_number, command_amf0}
use rtmp_abr_transcoder.Commands.{CommandMessage, parse_command}
use rtmp_abr_transcoder.Net.Socket.{SysResult}
use rtmp_abr_transcoder.Client as Rtmp
use rtmp_abr_transcoder.Client.{RtmpClient}
use rtmp_abr_transcoder.Client.Events.{Callbacks}
use rtmp_abr_transcoder.Client.Safety.{Ends, AreSafe, Ends-some}
use rtmp_abr_transcoder.Client.Operations.{
  Holds, Holds-some, flush-IsClient, send_message-Holds, send_command-Holds,
}
use rtmp_abr_transcoder.Relay.Types.{result_text, one, two}
use rtmp_abr_transcoder.Relay.Pusher.{
  Pusher, send_buffered, create_stream_command, publish_command, start_publishing, handle_result,
  handle_pusher_message, handle_pusher_connected,
}
use rtmp_abr_transcoder.Relay.Wire.{wire_client}

module _ (grow : ℕ → ℕ → ℕ) (memory : ℕ) (answers : RtmpClient → SysResult ℕ) where
  -- A handler of the pusher, called by its client.
  abbrev handled :
      Option RtmpClient
      → Pusher (Option RtmpClient)
      → Option (RtmpClient × Pusher (Option RtmpClient))
  handled none p = none
  handled (some c) p = some (c, p)

  abbrev giving :
      (Pusher (Option RtmpClient) → Pusher (Option RtmpClient))
      → RtmpClient × Pusher (Option RtmpClient)
      → Option (RtmpClient × Pusher (Option RtmpClient))
  giving handler (c, p) = let p' = handler (record p { client = some c }) in handled p'.client p'

  -- `connect` is the command that the pusher connects with, and `ticks` what an unwritten
  -- transaction id holds.
  abbrev pub pusher_callbacks : CommandMessage → ℕ → Callbacks (Pusher (Option RtmpClient))
  pusher_callbacks connect ticks =
      let api = wire_client grow memory answers in
      record {
        on_connected = giving (handle_pusher_connected api connect);
        on_message = λ msg. giving (handle_pusher_message api ticks msg);
        on_disconnected = λ (c, p). some (c, record p { connected = false; publishing = false });
      }

  wire-message :
      (msg : Message) (o : Option RtmpClient)
      → Holds o
      → Holds ((wire_client grow memory answers).send_message msg o)
  wire-message msg o h = rw h.present (send_message-Holds grow memory msg h.client h.sound)

  wire-command :
      (cmd : CommandMessage) (o : Option RtmpClient)
      → Holds o
      → Holds ((wire_client grow memory answers).send_command cmd o)
  wire-command cmd o h = rw h.present (send_command-Holds grow memory cmd 3 h.client h.sound)

  -- A command and a flush.
  wire-ask :
      (cmd : CommandMessage) (o : Option RtmpClient)
      → Holds o
      → let api = wire_client grow memory answers in Holds (api.flush (api.send_command cmd o))
  wire-ask cmd o h =
      let sent = wire-command cmd o h in
      rw sent.present (
        Holds-some (Rtmp.flush (answers sent.client) sent.client)
          (flush-IsClient (answers sent.client) sent.client sent.sound))

  send_buffered-Holds :
      (ms : List Message) (o : Option RtmpClient)
      → Holds o
      → Holds (send_buffered (wire_client grow memory answers) ms o)
  unfolding send_buffered
  send_buffered-Holds [] o h = h
  send_buffered-Holds (msg ∷ ms) o h = send_buffered-Holds ms _ (wire-message msg o h)

  if-Holds :
      (b : Bool) (p q : Pusher (Option RtmpClient))
      → Holds p.client
      → Holds q.client
      → Holds (if b then p else q).client
  if-Holds true p q h k = h
  if-Holds false p q h k = k

  handle_result-Holds :
      (cmd : CommandMessage) (p : Pusher (Option RtmpClient))
      → Holds p.client
      → Holds (handle_result (wire_client grow memory answers) cmd p).client
  unfolding handle_result start_publishing
  handle_result-Holds cmd p h =
      let api = wire_client grow memory answers in
      if-Holds (cmd.transaction_id == one) _ _ (wire-ask (create_stream_command api) p.client h) (
        if-Holds (cmd.transaction_id == two) _ p
          (send_buffered-Holds p.buffer _
            (wire-ask (publish_command api p.stream_id.stream) p.client h))
          h)

  handle_pusher_message-Holds :
      (ticks : ℕ) (msg : Message) (p : Pusher (Option RtmpClient))
      → Holds p.client
      → Holds (handle_pusher_message (wire_client grow memory answers) ticks msg p).client
  unfolding handle_pusher_message
  handle_pusher_message-Holds ticks msg p h =
      if-Holds (msg.type_id == type_number command_amf0) _ p
        (elim (parse_command ticks msg.payload)
          as (λ o.
            Holds
              (elim o as (λ _. Pusher (Option RtmpClient)) [
                | none ↦ p
                | some cmd ↦
                    if same_text cmd.name result_text && not p.publishing
                    then handle_result (wire_client grow memory answers) cmd p
                    else p
              ]).client) [
                | none ↦ h
                | some cmd ↦
                    if-Holds (same_text cmd.name result_text && not p.publishing) _ p
                      (handle_result-Holds cmd p h) h
              ])
        h

  handled-Ends :
      (o : Option RtmpClient) (p : Pusher (Option RtmpClient)) → Holds o → Ends (handled o p)
  handled-Ends o p h = rw h.present (Ends-some h.client p h.sound)

  -- The callbacks of a pusher end, and leave a client whose handlers run.
  pub pusher_callbacks-AreSafe :
      (connect : CommandMessage) (ticks : ℕ) → AreSafe (pusher_callbacks connect ticks)
  unfolding handle_pusher_connected
  pusher_callbacks-AreSafe connect ticks = record {
    connected = λ c p i. handled-Ends _ _ (wire-ask connect (some c) (Holds-some c i));
    message = λ msg c p i.
        handled-Ends _ _
          (handle_pusher_message-Holds ticks msg (record p { client = some c }) (Holds-some c i));
    disconnected = λ c p i. Ends-some c _ i;
  }
