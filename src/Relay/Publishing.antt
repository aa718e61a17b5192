-- ===== src/Relay/Publishing.antt =====
-- A pusher from its first messages on, over the answer to createStream.
use rtmp_abr_transcoder.Base.{
  ℕ, ◌+◌, ◌^◌, ◌≤◌, ◌<◌, ◌≡◌, refl, ap, sym, ◌∙◌, true, false, List, [], ◌∷◌, ◌++◌, arith,
  if◌then◌else◌, length, inl, inr, Bool-cases, le→ltb, append_assoc, append-nil,
}
use rtmp_abr_transcoder.Messages.Control.{Message, type_number, command_amf0}
use rtmp_abr_transcoder.Amf0.Value.{Value}
use rtmp_abr_transcoder.Amf0.RoundTrip.{AreWire}
use rtmp_abr_transcoder.Commands.{CommandMessage, encode_command}
use rtmp_abr_transcoder.Commands.RoundTrip.{IsWireCommand, parse_command-encode_command}
use rtmp_abr_transcoder.Relay.Types.{RelayPolicy, result_text, one, two}
use rtmp_abr_transcoder.Relay.Backpressure.{total_bytes}
use rtmp_abr_transcoder.Relay.Pusher.{
  Client, Pusher, is_media, plus, buffer_message, relay_message, send_buffered, publish_command,
  create_stream_command, start_publishing, handle_result, handle_pusher_message,
}

-- The messages that the relay passes on.
unfoldable pub media : List Message → List Message
media [] = []
media (msg ∷ ms) = let rest = media ms in if is_media msg then msg ∷ rest else rest

abbrev pub answer_command : ℕ → List Value → CommandMessage
answer_command transaction_id arguments = record {
  name = result_text;
  transaction_id = transaction_id;
  arguments = arguments;
}

-- The answers of a server to connect and to createStream.
abbrev pub answer : ℕ → List Value → Message
answer transaction_id arguments = record {
  type_id = type_number command_amf0;
  timestamp = 0;
  stream_id = 0;
  payload = encode_command (answer_command transaction_id arguments);
}

abbrev pub connect_answer : List Value → Message
connect_answer arguments = answer one arguments

abbrev pub create_stream_answer : List Value → Message
create_stream_answer arguments = answer two arguments

module _ {C : Type 0} (api : Client C) (policy : RelayPolicy) where
  -- relay_message for each message.
  unfoldable pub relay_all : List Message → Pusher C → Pusher C
  relay_all [] p = p
  relay_all (msg ∷ ms) p = relay_all ms (relay_message api policy msg p)

  relay_message-fits :
      (msg : Message) (p : Pusher C)
      → p.publishing ≡ false
      → is_media msg ≡ true
      → p.pending_bytes + length msg.payload ≤ policy.max_pending_bytes
      → policy.max_pending_bytes < 2 ^ 64
      → relay_message api policy msg p ≡ record p {
        buffer = p.buffer ++ (msg ∷ []);
        pending_bytes = p.pending_bytes + length msg.payload;
      }
  unfolding relay_message buffer_message
  relay_message-fits msg p f e fits limit =
      let sum : plus p.pending_bytes (length msg.payload) ≡ p.pending_bytes + length msg.payload =
        omega arith in
      simp (e, f, sum, le→ltb policy.max_pending_bytes (p.pending_bytes + length msg.payload) fits)

  relay_message-publishing :
      (msg : Message) (p : Pusher C)
      → p.publishing ≡ true
      → is_media msg ≡ true
      → relay_message api policy msg p ≡ record p { client = api.send_message msg p.client }
  unfolding relay_message
  relay_message-publishing msg p f e = simp (e, f)

  relay_message-other :
      (msg : Message) (p : Pusher C) → is_media msg ≡ false → relay_message api policy msg p ≡ p
  unfolding relay_message
  relay_message-other msg p e = simp e

  pub relay_all-buffers :
      (ms : List Message) (p : Pusher C)
      → p.publishing ≡ false
      → p.pending_bytes + total_bytes (media ms) ≤ policy.max_pending_bytes
      → policy.max_pending_bytes < 2 ^ 64
      → relay_all ms p ≡ record p {
        buffer = p.buffer ++ media ms;
        pending_bytes = p.pending_bytes + total_bytes (media ms);
      }
  unfolding relay_all media
  relay_all-buffers [] p f fits limit =
      let none_added : p.pending_bytes + 0 ≡ p.pending_bytes = omega arith in
      rw (none_added, append-nil p.buffer) refl
  relay_all-buffers (msg ∷ ms) p f fits limit = elim (Bool-cases (is_media msg)) [
    | inl e ↦
        let fits' = rw e at fits in
        let p' = record p {
          buffer = p.buffer ++ (msg ∷ []);
          pending_bytes = p.pending_bytes + length msg.payload;
        } in
        let sum : p.pending_bytes + length msg.payload + total_bytes (media ms)
            ≡ p.pending_bytes + (length msg.payload + total_bytes (media ms)) =
          omega arith in
        rw (relay_message-fits msg p f e (omega arith) limit, e)
          (relay_all-buffers ms p' f (omega arith) limit
            ∙ rw (append_assoc p.buffer (msg ∷ []) (media ms), sum) refl)
    | inr e ↦ rw (relay_message-other msg p e, e) (relay_all-buffers ms p f (rw e at fits) limit)
  ]

  relay_all-sends :
      (ms : List Message) (p : Pusher C)
      → p.publishing ≡ true
      → relay_all ms p ≡ record p { client = send_buffered api (media ms) p.client }
  unfolding relay_all media send_buffered
  relay_all-sends [] p f = refl
  relay_all-sends (msg ∷ ms) p f = elim (Bool-cases (is_media msg)) [
    | inl e ↦
        let p' = record p { client = api.send_message msg p.client } in
        rw (relay_message-publishing msg p f e, e) (relay_all-sends ms p' f)
    | inr e ↦ rw (relay_message-other msg p e, e) (relay_all-sends ms p f)
  ]

  send_buffered-append :
      (ms ns : List Message) (c : C)
      → send_buffered api (ms ++ ns) c ≡ send_buffered api ns (send_buffered api ms c)
  unfolding send_buffered
  send_buffered-append [] ns c = refl
  send_buffered-append (msg ∷ ms) ns c = send_buffered-append ms ns (api.send_message msg c)

  handle-answer :
      (memory transaction_id : ℕ) (arguments : List Value) (p : Pusher C)
      → transaction_id < 2 ^ 64
      → AreWire arguments
      → p.publishing ≡ false
      → handle_pusher_message api memory (answer transaction_id arguments) p
        ≡ handle_result api (answer_command transaction_id arguments) p
  unfolding handle_pusher_message
  handle-answer memory transaction_id arguments p small w f =
      let wire : IsWireCommand (answer_command transaction_id arguments) = record {
        name_fits = omega arith;
        transaction_fits = small;
        arguments_fit = w;
      } in
      simp (parse_command-encode_command memory (answer_command transaction_id arguments) wire, f)

  pub handle-connect_answer :
      (memory : ℕ) (arguments : List Value) (p : Pusher C)
      → AreWire arguments
      → p.publishing ≡ false
      → handle_pusher_message api memory (connect_answer arguments) p
        ≡ record p { client = api.flush (api.send_command (create_stream_command api) p.client) }
  unfolding handle_result
  handle-connect_answer memory arguments p w f =
      handle-answer memory one arguments p (omega arith) w f

  handle-create_stream_answer :
      (memory : ℕ) (arguments : List Value) (p : Pusher C)
      → AreWire arguments
      → p.publishing ≡ false
      → handle_pusher_message api memory (create_stream_answer arguments) p ≡ start_publishing api p
  unfolding handle_result
  handle-create_stream_answer memory arguments p w f =
      handle-answer memory two arguments p (omega arith) w f

  -- A pusher that does not publish yet is given messages, then the answer to createStream, with
  -- arguments that the format can carry, then more messages. If the bytes that it counts and the
  -- media messages of the first part fit the limit of its policy, and the limit a size_t, its
  -- client is given all that the pusher held and all media messages of both parts, in order and
  -- each once, behind the publish command; the pusher publishes, and holds and counts nothing.
  pub relay-lossless :
      (memory : ℕ) (before after : List Message) (arguments : List Value) (p : Pusher C)
      → p.publishing ≡ false
      → p.pending_bytes + total_bytes (media before) ≤ policy.max_pending_bytes
      → policy.max_pending_bytes < 2 ^ 64
      → AreWire arguments
      → let held = relay_all before p in
        let publishing = handle_pusher_message api memory (create_stream_answer arguments) held in
        let last = relay_all after publishing in
        let published =
          api.flush (api.send_command (publish_command api p.stream_id.stream) p.client) in
        (last.client ≡ send_buffered api (p.buffer ++ (media before ++ media after)) published)
        × (last.publishing ≡ true)
        × (last.buffer ≡ [])
        × (last.pending_bytes ≡ 0)
  unfolding start_publishing
  relay-lossless memory before after arguments p f fits limit w =
      let p' = record p {
        buffer = p.buffer ++ media before;
        pending_bytes = p.pending_bytes + total_bytes (media before);
      } in
      let published =
        api.flush (api.send_command (publish_command api p.stream_id.stream) p.client) in
      let all = p.buffer ++ media before in
      rw
        (
          relay_all-buffers before p f fits limit,
          handle-create_stream_answer memory arguments p' w f,
          relay_all-sends after (start_publishing api p') refl,
        )
        (
          sym (send_buffered-append all (media after) published)
              ∙ ap (λ (ms : List Message). send_buffered api ms published)
                  (append_assoc p.buffer (media before) (media after)),
          refl,
          refl,
          refl,
        )
