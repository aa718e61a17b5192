-- ===== src/Relay/Wire.antt =====
-- A pusher over the client of src/rtmp/rtmp_client.cpp: what goes out to the other server.
use rtmp_abr_transcoder.Base.{
  subst, append-nil, ℕ, ◌+◌, ◌≤◌, ◌<◌, ◌^◌, ◌≡◌, refl, ap, ◌∙◌, false, List, [], ◌∷◌, ◌++◌, Option,
  some,
}
use rtmp_abr_transcoder.Base.Options.{◌>>=◌}
use rtmp_abr_transcoder.Messages.Control.{Message}
use rtmp_abr_transcoder.Commands.{CommandMessage, encode_command}
use rtmp_abr_transcoder.Amf0.Value.{Value}
use rtmp_abr_transcoder.Amf0.RoundTrip.{AreWire}
use rtmp_abr_transcoder.Session.{header_of}
use rtmp_abr_transcoder.Net.Socket.{SysResult}
use rtmp_abr_transcoder.Client as Rtmp
use rtmp_abr_transcoder.Client.{RtmpClient}
use rtmp_abr_transcoder.Client.Stream.{stream, IsSending, Adds, Adds-Adds, same_stream, flush-Adds}
use rtmp_abr_transcoder.Client.Sending.{
  Performs, chunks_of, command_header, send_message-Performs, send_command-Performs,
}
use rtmp_abr_transcoder.Relay.Types.{RelayPolicy}
use rtmp_abr_transcoder.Relay.Backpressure.{total_bytes}
use rtmp_abr_transcoder.Relay.Pusher.{
  Client, Pusher, send_buffered, publish_command, handle_pusher_message,
}
use rtmp_abr_transcoder.Relay.Publishing.{create_stream_answer, media, relay_all, relay-lossless}

-- The chunks of messages, one after the other.
abbrev pub all_chunks : ℕ → List Message → List ℕ
all_chunks n [] = []
all_chunks n (msg ∷ ms) = chunks_of n (header_of msg) msg.payload ++ all_chunks n ms

abbrev pub command_chunks : ℕ → CommandMessage → List ℕ
command_chunks n cmd = chunks_of n (command_header cmd 3) (encode_command cmd)

-- `answers` is what the system answers to a write, for each state of the client.
module _ (grow : ℕ → ℕ → ℕ) (memory : ℕ) (answers : RtmpClient → SysResult ℕ) where
  -- The interface of a pusher's client. Where a call does not end, there is no client.
  abbrev pub wire_client : Client (Option RtmpClient)
  wire_client = record {
    send_message = λ msg client. (do c ← client; Rtmp.send_message grow memory msg c);
    send_command = λ cmd client. (do c ← client; Rtmp.send_command grow memory cmd 3 c);
    flush = λ client. (do c ← client; some (Rtmp.flush (answers c) c));
  }

  -- Publishing: a command and a flush.
  publish-Performs :
      (n : ℕ) (cmd : CommandMessage) (c : RtmpClient)
      → IsSending n c
      → Performs grow memory n
          (command_chunks n cmd)
          c
          (wire_client.flush (wire_client.send_command cmd (some c)))
  publish-Performs n cmd c i =
      let p = send_command-Performs grow memory n cmd 3 c i in
      let f = flush-Adds n (answers p.after) p.after p.adds.sending in
      record {
        after = Rtmp.flush (answers p.after) p.after;
        defined = rw p.defined refl;
        adds =
            subst (λ (xs : List ℕ). Adds n xs c (Rtmp.flush (answers p.after) p.after))
              (append-nil (command_chunks n cmd))
              (Adds-Adds n (command_chunks n cmd) [] c p.after _ p.adds f);
      }

  send_buffered-Performs :
      (n : ℕ) (ms : List Message) (c : RtmpClient)
      → IsSending n c
      → Performs grow memory n (all_chunks n ms) c (send_buffered wire_client ms (some c))
  unfolding send_buffered
  send_buffered-Performs n [] c i = record { after = c; defined = refl; adds = same_stream n c i }
  send_buffered-Performs n (msg ∷ ms) c i =
      let p = send_message-Performs grow memory n msg c i in
      let q = send_buffered-Performs n ms p.after p.adds.sending in
      record {
        after = q.after;
        defined = rw p.defined q.defined;
        adds = Adds-Adds n _ (all_chunks n ms) c p.after q.after p.adds q.adds;
      }

  -- A pusher whose client is one of rtmp_client.cpp, with a session that can send at the chunk
  -- size n, does not publish yet. It is given messages, then the answer to createStream, with
  -- arguments that the format can carry, then more messages. The bytes that it counts and the
  -- payloads of the media messages of the first part are no more in all than max_pending_bytes,
  -- and that is less than 2 ^ 64. Then, whatever the system answers to the write of the flush, the
  -- pusher has a client at the end, and the stream of this client is the one from before with the
  -- chunks of the publish command behind it, and those of the messages that the pusher held and of
  -- the media messages of both parts, in order and each once. The stream of a client is what the
  -- system has taken of its writes, with what its write buffer and its session still hold behind
  -- that.
  pub relay-stream :
      (policy : RelayPolicy) (n ticks : ℕ) (before after : List Message) (arguments : List Value)
      (p : Pusher (Option RtmpClient)) (c : RtmpClient)
      → p.client ≡ some c
      → IsSending n c
      → p.publishing ≡ false
      → p.pending_bytes + total_bytes (media before) ≤ policy.max_pending_bytes
      → policy.max_pending_bytes < 2 ^ 64
      → AreWire arguments
      → let held = relay_all wire_client policy before p in
        let answer = create_stream_answer arguments in
        let publishing = handle_pusher_message wire_client ticks answer held in
        let last = relay_all wire_client policy after publishing in
        let command = publish_command wire_client p.stream_id.stream in
        (c' : RtmpClient) × (last.client ≡ some c')
        × (stream c'
            ≡ stream c
              ++ (command_chunks n command
                  ++ all_chunks n (p.buffer ++ (media before ++ media after))))
  relay-stream policy n ticks before after arguments p c e i f fits limit w =
      let command = publish_command wire_client p.stream_id.stream in
      let ms = p.buffer ++ (media before ++ media after) in
      let given = relay-lossless wire_client policy ticks before after arguments p f fits limit w in
      let a = publish-Performs n command c i in
      let b = send_buffered-Performs n ms a.after a.adds.sending in
      let adds =
        Adds-Adds n (command_chunks n command) (all_chunks n ms) c a.after b.after a.adds b.adds in
      (
        b.after,
        given.0
            ∙ ap
                (λ (o : Option RtmpClient).
                  send_buffered wire_client ms
                    (wire_client.flush (wire_client.send_command command o)))
                e
            ∙ ap (λ (o : Option RtmpClient). send_buffered wire_client ms o) a.defined
            ∙ b.defined,
        adds.contents,
      )
