-- ===== src/Client/Sending.antt =====
-- send_message and send_command add the chunks of a payload to the stream of a client.
use rtmp_abr_transcoder.Base.{
  ℕ, ◌≡◌, refl, sym, ap, ◌∙◌, subst, true, false, List, ◌++◌, Option, none, some, length,
  append_assoc,
}
use rtmp_abr_transcoder.Base.Bits.{low_bits}
use rtmp_abr_transcoder.Messages.Control.{Message, type_number, command_amf0}
use rtmp_abr_transcoder.Commands.{CommandMessage, encode_command}
use rtmp_abr_transcoder.Chunks.Header.{ChunkHeader}
use rtmp_abr_transcoder.Chunks.Frames.{frames}
use rtmp_abr_transcoder.Buffer.{readable}
use rtmp_abr_transcoder.Session
use rtmp_abr_transcoder.Session.{Session, header_of, write_chunk}
use rtmp_abr_transcoder.Session.Transfer.{Wrote, write_chunk-Wrote}
use rtmp_abr_transcoder.Client.{RtmpClient, send_message, send_command, watch_output, after_send}
use rtmp_abr_transcoder.Client.Stream.{outgoing, IsSending, Adds, watch_output-Adds}

-- The header that Session::send_command fills in.
abbrev pub command_header : CommandMessage → ℕ → ChunkHeader
command_header cmd chunk_stream_id = record {
  fmt = 0;
  chunk_stream_id = chunk_stream_id;
  timestamp = 0;
  message_length = low_bits (length (encode_command cmd)) 32;
  message_type_id = type_number command_amf0;
  message_stream_id = 0;
  has_extended_timestamp = false;
}

-- The chunks of a payload.
abbrev pub chunks_of : ℕ → ChunkHeader → List ℕ → List ℕ
chunks_of n header payload = frames (length payload) header n true payload

append_inner : (ws xs ys zs : List ℕ) → (ws ++ (xs ++ ys)) ++ zs ≡ ws ++ (xs ++ (ys ++ zs))
append_inner ws xs ys zs =
    append_assoc ws (xs ++ ys) zs ∙ ap (λ (l : List ℕ). ws ++ l) (append_assoc xs ys zs)

module _ (grow : ℕ → ℕ → ℕ) (memory : ℕ) where
  -- What an action makes of the client: it succeeds, and adds its bytes.
  pub record Performs (n : ℕ) (bytes : List ℕ) (c : RtmpClient) (r : Option RtmpClient)
      : Type 0 where
    pub after : RtmpClient
    pub defined : r ≡ some after
    pub adds : Adds n bytes c after

  after_send-Performs :
      (n : ℕ) (bytes : List ℕ) (c : RtmpClient) (i : IsSending n c) (r : Option Session)
      → Wrote grow memory bytes i.session r
      → Performs n bytes c (after_send r c)
  unfolding after_send
  after_send-Performs n bytes c i r wrote =
      let c' : RtmpClient = record c { session = some wrote.after } in
      record {
        after = watch_output c';
        defined = rw wrote.defined refl;
        adds = watch_output-Adds n bytes c c' (record {
          contents =
              ap (λ (xs : List ℕ). c.socket.written ++ (c.write_buffer ++ xs)) wrote.contents
              ∙ sym (
                  append_inner c.socket.written c.write_buffer (readable i.session.write_buffer)
                    bytes)
              ∙ ap
                  (λ (o : Option Session).
                    (c.socket.written ++ (c.write_buffer ++ outgoing o)) ++ bytes)
                  (sym i.present);
          sending = record {
            session = wrote.after;
            present = refl;
            ready = wrote.ready;
            size = wrote.same_size ∙ i.size;
          };
        });
      }

  Performs-≡ :
      (n : ℕ) (bytes bytes' : List ℕ) (c : RtmpClient) (r r' : Option RtmpClient)
      → bytes ≡ bytes'
      → r' ≡ r
      → Performs n bytes c r
      → Performs n bytes' c r'
  Performs-≡ n bytes bytes' c r r' e f p = record {
    after = p.after;
    defined = f ∙ p.defined;
    adds = subst (λ (xs : List ℕ). Adds n xs c p.after) e p.adds;
  }

  pub send_message-Performs :
      (n : ℕ) (msg : Message) (c : RtmpClient)
      → IsSending n c
      → Performs n (chunks_of n (header_of msg) msg.payload) c (send_message grow memory msg c)
  unfolding send_message Session.send_message
  send_message-Performs n msg c i =
      let wrote = write_chunk-Wrote grow memory (header_of msg) msg.payload i.session i.ready in
      Performs-≡ n _ _ c _ _ (ap (λ (m : ℕ). chunks_of m (header_of msg) msg.payload) i.size)
        (ap
          (λ (o : Option Session). elim o as (λ _. Option RtmpClient) [
            | none ↦ some c
            | some s ↦ after_send (Session.send_message grow memory msg s) c
          ])
          i.present)
        (after_send-Performs n _ c i _ wrote)

  pub send_command-Performs :
      (n : ℕ) (cmd : CommandMessage) (csid : ℕ) (c : RtmpClient)
      → IsSending n c
      → Performs n
          (chunks_of n (command_header cmd csid) (encode_command cmd))
          c
          (send_command grow memory cmd csid c)
  unfolding send_command Session.send_command
  send_command-Performs n cmd csid c i =
      let header = command_header cmd csid in
      let payload = encode_command cmd in
      let wrote = write_chunk-Wrote grow memory header payload i.session i.ready in
      Performs-≡ n _ _ c _ _ (ap (λ (m : ℕ). chunks_of m header payload) i.size)
        (ap
          (λ (o : Option Session). elim o as (λ _. Option RtmpClient) [
            | none ↦ some c
            | some s ↦ after_send (Session.send_command grow memory cmd csid s) c
          ])
          i.present)
        (after_send-Performs n _ c i _ wrote)
