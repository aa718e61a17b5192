-- ===== src/Client/Operations.antt =====
-- What its user does with a client, send_message, send_command and flush of
-- src/rtmp/rtmp_client.cpp, leaves a client whose handlers run.
use rtmp_abr_transcoder.Base.{
  ℕ, ◌≡◌, refl, ap, sym, ◌∙◌, subst, Bool, not, ◌&&◌, ◌||◌, true, false, List, Option, none, some,
  ltb, ◌==◌, if◌then◌else◌, length, inl, inr, Bool-cases,
}
use rtmp_abr_transcoder.Messages.Control.{Message}
use rtmp_abr_transcoder.Handshake.{Handshake}
use rtmp_abr_transcoder.Commands.{CommandMessage, encode_command}
use rtmp_abr_transcoder.Session
use rtmp_abr_transcoder.Session.{Session, header_of}
use rtmp_abr_transcoder.Session.Transfer.{Wrote, write_chunk-Wrote}
use rtmp_abr_transcoder.Net.Socket.{SysResult, returned, would_block, failed, is_valid, write}
use rtmp_abr_transcoder.Client.{
  RtmpClient, has_outgoing_data, watch_output, after_send, send_message, send_command, flush_buffer,
  flush, take_outgoing,
}
use rtmp_abr_transcoder.Client.Sending.{command_header}
use rtmp_abr_transcoder.Client.Safety.{IsClient, IsClient-same}
use rtmp_abr_transcoder.Client.Handlers.{take_outgoing-IsClient}

-- A client is there, and it is such a client.
pub record Holds (o : Option RtmpClient) : Type 0 where
  pub client : RtmpClient
  pub present : o ≡ some client
  pub sound : IsClient client

pub Holds-some : (c : RtmpClient) → IsClient c → Holds (some c)
Holds-some c i = record { client = c; present = refl; sound = i }

watch_output-IsClient : (c : RtmpClient) → IsClient c → IsClient (watch_output c)
unfolding watch_output
watch_output-IsClient c i =
    let watches =
      is_valid c.socket && (has_outgoing_data c.session || not (length c.write_buffer == 0)) in
    elim (Bool-cases watches) [ inl e ↦ rw e (IsClient-same c _ refl refl i) | inr e ↦ rw e i ]

flush_buffer-IsClient :
    (r : SysResult ℕ) (c : RtmpClient) → IsClient c → IsClient (flush_buffer r c)
unfolding flush_buffer write
flush_buffer-IsClient failed c i = IsClient-same c _ refl refl i
flush_buffer-IsClient would_block c i = elim (Bool-cases (ltb 0 (length c.write_buffer))) [
  | inl e ↦ rw e (IsClient-same c _ refl refl i)
  | inr e ↦ rw e (IsClient-same c _ refl refl i)
]
flush_buffer-IsClient (returned n) c i = elim (Bool-cases (ltb n (length c.write_buffer))) [
  | inl e ↦ rw e (IsClient-same c _ refl refl i)
  | inr e ↦ rw e (IsClient-same c _ refl refl i)
]

if-IsClient :
    (b : Bool) (c d : RtmpClient) → IsClient c → IsClient d → IsClient (if b then c else d)
if-IsClient true c d i j = i
if-IsClient false c d i j = j

pub flush-IsClient : (r : SysResult ℕ) (c : RtmpClient) → IsClient c → IsClient (flush r c)
unfolding flush
flush-IsClient r c i =
    let c' = take_outgoing c in
    let i' = take_outgoing-IsClient c i in
    if-IsClient (not (is_valid c.socket)) c _ i
      (if-IsClient (length c'.write_buffer == 0) c' _ i' (flush_buffer-IsClient r c' i'))

module _ (grow : ℕ → ℕ → ℕ) (memory : ℕ) where
  after_send-Holds :
      (bytes : List ℕ) (c : RtmpClient) (i : IsClient c) (r : Option Session)
      → Wrote grow memory bytes i.session r
      → Holds (after_send r c)
  unfolding after_send
  after_send-Holds bytes c i r wrote = record {
    client = watch_output (record c { session = some wrote.after });
    present = rw wrote.defined refl;
    sound = watch_output-IsClient _ (record {
      session = wrote.after;
      present = refl;
      agrees =
          ((λ h. ap (λ (x : Handshake). x.state) wrote.same_handshake ∙ i.agrees.0 h), wrote.ready);
    });
  }

  pub send_message-Holds :
      (msg : Message) (c : RtmpClient) → IsClient c → Holds (send_message grow memory msg c)
  unfolding send_message Session.send_message
  send_message-Holds msg c i =
      let wrote = write_chunk-Wrote grow memory (header_of msg) msg.payload i.session i.agrees.1 in
      subst
        (λ (o : Option Session). Holds (elim o as (λ _. Option RtmpClient) [
          | none ↦ some c
          | some s ↦ after_send (Session.send_message grow memory msg s) c
        ]))
        (sym i.present) (after_send-Holds _ c i _ wrote)

  pub send_command-Holds :
      (cmd : CommandMessage) (csid : ℕ) (c : RtmpClient)
      → IsClient c
      → Holds (send_command grow memory cmd csid c)
  unfolding send_command Session.send_command
  send_command-Holds cmd csid c i =
      let payload = encode_command cmd in
      let wrote =
        write_chunk-Wrote grow memory (command_header cmd csid) payload i.session i.agrees.1 in
      subst
        (λ (o : Option Session). Holds (elim o as (λ _. Option RtmpClient) [
          | none ↦ some c
          | some s ↦ after_send (Session.send_command grow memory cmd csid s) c
        ]))
        (sym i.present) (after_send-Holds _ c i _ wrote)
