-- ===== src/Relay/Tests.antt =====
-- The theorems on pushers at concrete inputs, with a client that notes what it is told.
use rtmp_abr_transcoder.Base.{ℕ, ◌≤◌, ◌≡◌, refl, true, List, [], ◌∷◌, ◌++◌, arith}
use rtmp_abr_transcoder.Messages.Control.{Message}
use rtmp_abr_transcoder.Commands.{CommandMessage}
use rtmp_abr_transcoder.Amf0.Value.{null}
use rtmp_abr_transcoder.Relay.Types.{
  StreamId, RelayPolicy, default_policy, drop_newest, drop_oldest,
}
use rtmp_abr_transcoder.Relay.Pusher.{
  Client, Pusher, new_pusher, over_limit, buffer_message, relay_message, send_buffered,
  publish_command, handle_pusher_message,
}
use rtmp_abr_transcoder.Relay.Backpressure.{
  IsCounted, KeepsOrder, relay_message-IsCounted, relay_message-bounded, relay_message-KeepsOrder,
}
use rtmp_abr_transcoder.Relay.Url.{default_template, build_push_url, path_of, app_of}
use rtmp_abr_transcoder.Base.Texts.{IsWithout}
use rtmp_abr_transcoder.Relay.Addressing.{app_of-build_push_url}
use rtmp_abr_transcoder.Relay.Publishing.{media, relay_all, create_stream_answer, relay-lossless}

data Call : Type 0 where
  message_sent : Message → Call
  command_sent : CommandMessage → Call
  flushed : Call

abbrev noting : Client (List Call)
noting = record {
  send_message = λ msg calls. calls ++ (message_sent msg ∷ []);
  send_command = λ cmd calls. calls ++ (command_sent cmd ∷ []);
  flush = λ calls. calls ++ (flushed ∷ []);
}

abbrev stream : StreamId
stream = record { app = 97 ∷ []; stream = 98 ∷ [] }

abbrev frame : Message
frame = record { type_id = 9; timestamp = 40; stream_id = 1; payload = 1 ∷ 2 ∷ 3 ∷ [] }

abbrev sound : Message
sound = record { type_id = 8; timestamp = 45; stream_id = 1; payload = 7 ∷ [] }

abbrev waiting : Pusher (List Call)
waiting = record (new_pusher [] stream) { pending_bytes = 1; buffer = sound ∷ [] }

abbrev tight : RelayPolicy
tight = record default_policy { max_pending_bytes = 3; backpressure = drop_newest }

abbrev tight_oldest : RelayPolicy
tight_oldest = record default_policy { max_pending_bytes = 2; backpressure = drop_oldest }

-- With DropOldest one message makes way for a larger one, and the limit of 2 bytes is exceeded.
drop_oldest_exceeds_the_limit : (relay_message noting tight_oldest frame waiting).pending_bytes ≡ 3
unfolding relay_message buffer_message over_limit new_pusher
drop_oldest_exceeds_the_limit = refl

relay_message-IsCounted_example : IsCounted (relay_message noting tight frame waiting)
unfolding new_pusher
relay_message-IsCounted_example =
    relay_message-IsCounted noting tight frame waiting refl (omega arith)

relay_message-bounded_example : (relay_message noting tight frame waiting).pending_bytes ≤ 3
unfolding new_pusher
relay_message-bounded_example =
    relay_message-bounded noting tight frame waiting refl (omega arith) (omega arith)

relay_message-KeepsOrder_example :
    KeepsOrder waiting.buffer frame (relay_message noting tight frame waiting).buffer
relay_message-KeepsOrder_example = relay_message-KeepsOrder noting tight frame waiting

relay-lossless_example :
    let held = relay_all noting default_policy (frame ∷ []) waiting in
    let publishing = handle_pusher_message noting 0 (create_stream_answer (null ∷ [])) held in
    let last = relay_all noting default_policy (sound ∷ []) publishing in
    let published = noting.flush (noting.send_command (publish_command noting stream.stream) []) in
    (last.client
      ≡ send_buffered noting
          (waiting.buffer ++ (media (frame ∷ []) ++ media (sound ∷ [])))
          published)
    × (last.publishing ≡ true)
    × (last.buffer ≡ [])
    × (last.pending_bytes ≡ 0)
unfolding new_pusher media rtmp_abr_transcoder.Amf0.Members.IsWire
relay-lossless_example =
    relay-lossless noting default_policy 0 (frame ∷ []) (sound ∷ []) (null ∷ []) waiting refl
      (omega arith) (omega arith) (tt, tt)

-- rtmp://a with the stream b/c.
abbrev rtmp_text : List ℕ
rtmp_text = 114 ∷ 116 ∷ 109 ∷ 112 ∷ []

abbrev push_url : List ℕ
push_url = rtmp_text ++ ((58 ∷ 47 ∷ 47 ∷ []) ++ (97 ∷ []))

abbrev other_stream : StreamId
other_stream = record { app = 98 ∷ []; stream = 99 ∷ [] }

rtmp_text-IsWithout : IsWithout 58 rtmp_text
rtmp_text-IsWithout = (
  (λ e. absurd (omega arith)),
  ((λ e. absurd (omega arith)), ((λ e. absurd (omega arith)), ((λ e. absurd (omega arith)), tt))),
)

app_of-build_push_url_example :
    app_of (path_of (build_push_url push_url default_template other_stream)) ≡ 98 ∷ []
app_of-build_push_url_example =
    app_of-build_push_url rtmp_text (97 ∷ []) other_stream rtmp_text-IsWithout
      ((λ e. absurd (omega arith)), tt) refl (omega arith) ((λ e. absurd (omega arith)), tt)
      ((λ e. absurd (omega arith)), tt)
