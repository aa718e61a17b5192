-- ===== src/Client/Handlers.antt =====
-- The handlers of a client end, whatever the system answers.
use rtmp_abr_transcoder.Base.{
  ℕ, ◌≡◌, refl, ap, ◌∙◌, List, ◌++◌, some, Result, ok, err, arith, ltb, ◌==◌, length, drop,
  Bool-cases, inl, inr, le→ltb, ltb→le, length-take, length-drop,
}
use rtmp_abr_transcoder.Bytes.{byte_at}
use rtmp_abr_transcoder.Handshake.{
  State, uninitialized, c0c1_sent, s0s1s2_sent, c2_sent, Handshake, HandshakeError, done,
  generate_c2, receive_s0_s1_s2, process_server_handshake,
}
use rtmp_abr_transcoder.Session.{Session, get_outgoing_data}
use rtmp_abr_transcoder.Net.Socket.{SysResult, returned, would_block, failed, write, read}
use rtmp_abr_transcoder.Client.{RtmpClient, take_from, take_outgoing, has_outgoing_data}
use rtmp_abr_transcoder.Client.Stream.{take_outgoing-some}
use rtmp_abr_transcoder.Client.Events.{
  Callbacks, Event, EventCalls, write_buffered, handle_writable, process_buffered_data, send_c2,
  finish_handshake, after_handshake, receive_handshake, handle_readable, send_handshake,
  on_writable, on_event,
}
use rtmp_abr_transcoder.Client.Safety.{
  Agrees, IsClient, Ends, AreSafe, Ends-some, Ends-if, Ends->>=, on_session, IsClient-same,
  IsReady-same,
}
use rtmp_abr_transcoder.Buffer.{clear}
use rtmp_abr_transcoder.Relay.Answers.{clear-IsBuffer}
use rtmp_abr_transcoder.Client.Delivery.{cleanup-Ends, process_buffered_data-Ends}

-- What process_server_handshake accepts has a whole block, and an error changes nothing.
abbrev Accepts : Handshake → Result HandshakeError ℕ × Handshake → Type 0
Accepts h (ok n, h') = (length h'.s1_data ≡ 1536) × (h'.state ≡ done)
Accepts h (err e, h') = h' ≡ h

receive_s0_s1_s2-Accepts : (bytes : List ℕ) (h : Handshake) → Accepts h (receive_s0_s1_s2 bytes h)
unfolding receive_s0_s1_s2
receive_s0_s1_s2-Accepts bytes h = elim (Bool-cases (ltb (length bytes) 3073)) [
  | inl e ↦ rw e refl
  | inr e ↦ elim (Bool-cases (byte_at bytes 0 == 3)) [
    | inr f ↦ rw (e, f) refl
    | inl f ↦
        rw (e, f)
          (
            omega (
              arith,
              ltb→le (length bytes) 3073 e,
              length-take 1536 (drop 1 bytes),
              length-drop 1 bytes,
            ),
            refl,
          )
  ]
]

process_server_handshake-Accepts :
    (bytes : List ℕ) (st : State) (c1 s1 : List ℕ)
    → let h : Handshake = record { state = st; c1_data = c1; s1_data = s1 } in
      Accepts h (process_server_handshake bytes h)
unfolding process_server_handshake
process_server_handshake-Accepts bytes c0c1_sent c1 s1 = receive_s0_s1_s2-Accepts bytes _
process_server_handshake-Accepts bytes uninitialized c1 s1 = refl
process_server_handshake-Accepts bytes s0s1s2_sent c1 s1 = refl
process_server_handshake-Accepts bytes c2_sent c1 s1 = refl
process_server_handshake-Accepts bytes done c1 s1 = refl

take_from-IsClient : (c : RtmpClient) (i : IsClient c) → IsClient (take_from i.session c)
unfolding take_from get_outgoing_data
take_from-IsClient c i = elim (Bool-cases (has_outgoing_data (some i.session))) [
  | inl e ↦ rw e (record {
    session = _;
    present = refl;
    agrees = (
      i.agrees.0,
      record {
        valid = clear-IsBuffer i.session.write_buffer i.agrees.1.valid.allocated;
        unread = unfold clear in refl;
        chunk_size_pos = i.agrees.1.chunk_size_pos;
      },
    );
  })
  | inr e ↦ rw e i
]

pub take_outgoing-IsClient : (c : RtmpClient) → IsClient c → IsClient (take_outgoing c)
take_outgoing-IsClient c i = rw (take_outgoing-some c i.session i.present) (take_from-IsClient c i)

send_handshake-IsClient :
    (r : SysResult ℕ) (c : RtmpClient) → IsClient c → IsClient (send_handshake r c)
unfolding send_handshake write
send_handshake-IsClient failed c i = i
send_handshake-IsClient would_block c i = elim (Bool-cases (0 == length c.handshake_data)) [
  | inl e ↦ rw e (IsClient-same c _ refl refl i)
  | inr e ↦ rw e (IsClient-same c _ refl refl i)
]
send_handshake-IsClient (returned n) c i = elim (Bool-cases (n == length c.handshake_data)) [
  | inl e ↦ rw e (IsClient-same c _ refl refl i)
  | inr e ↦ rw e (IsClient-same c _ refl refl i)
]

module _ {W : Type 0} (callbacks : Callbacks W) (safe : AreSafe callbacks) where
  send_c2-Ends :
      (r : SysResult ℕ) (c2 : List ℕ) (c : RtmpClient) (w : W)
      → IsClient c
      → Ends (send_c2 callbacks r c2 (c, w))
  unfolding send_c2 write
  send_c2-Ends (returned n) c2 c w i =
      Ends->>= _ (process_buffered_data callbacks)
        (safe.connected _ w (IsClient-same c _ refl refl i))
        (process_buffered_data-Ends callbacks safe)
  send_c2-Ends would_block c2 c w i =
      Ends->>= _ (process_buffered_data callbacks)
        (safe.connected _ w (IsClient-same c _ refl refl i))
        (process_buffered_data-Ends callbacks safe)
  send_c2-Ends failed c2 c w i = cleanup-Ends callbacks safe c w i

  after_handshake-Ends :
      (reply : SysResult ℕ) (s : Session) (r : Result HandshakeError ℕ × Handshake)
      → (c : RtmpClient) (w : W) → Agrees c s
      → Accepts s.handshake r
      → Ends (after_handshake callbacks reply s r (c, w))
  unfolding after_handshake finish_handshake generate_c2
  after_handshake-Ends reply s (err e, h) c w a same = Ends-some _ w (record {
    session = _;
    present = refl;
    agrees = ((λ g. ap (λ (x : Handshake). x.state) same ∙ a.0 g), IsReady-same s _ refl refl a.1);
  })
  after_handshake-Ends reply s (ok n, h) c w a (size, over) =
      rw (le→ltb (length h.s1_data) 1536 (omega (arith, size))) (
        send_c2-Ends reply _ _ w (record {
          session = _;
          present = refl;
          agrees = ((λ g. refl), IsReady-same s _ refl refl a.1);
        }))

  receive_handshake-Ends :
      (reply : SysResult ℕ) (c : RtmpClient) (w : W)
      → IsClient c
      → Ends (receive_handshake callbacks reply (c, w))
  unfolding receive_handshake
  receive_handshake-Ends reply c w i =
      let h = i.session.handshake in
      on_session c.session i.session i.present
        (λ s.
          after_handshake callbacks reply s (process_server_handshake c.read_buffer s.handshake)
            (c, w))
        (after_handshake-Ends reply i.session _ c w i.agrees
          (process_server_handshake-Accepts c.read_buffer h.state h.c1_data h.s1_data))

  handle_readable-Ends :
      (r : SysResult (List ℕ)) (reply : SysResult ℕ) (c : RtmpClient) (w : W)
      → IsClient c
      → Ends (handle_readable callbacks r reply (c, w))
  unfolding handle_readable read
  handle_readable-Ends failed reply c w i = cleanup-Ends callbacks safe c w i
  handle_readable-Ends would_block reply c w i = cleanup-Ends callbacks safe c w i
  handle_readable-Ends (returned bytes) reply c w i =
      let c' : RtmpClient = record c { read_buffer = c.read_buffer ++ bytes } in
      let i' = IsClient-same c c' refl refl i in
      Ends-if (length bytes == 0) (cleanup-Ends callbacks safe c w i) (
        Ends-if c.connected (process_buffered_data-Ends callbacks safe c' w i')
          (receive_handshake-Ends reply c' w i'))

  write_buffered-Ends :
      (r : SysResult ℕ) (c : RtmpClient) (w : W)
      → IsClient c
      → Ends (write_buffered callbacks r (c, w))
  unfolding write_buffered write
  write_buffered-Ends failed c w i = cleanup-Ends callbacks safe c w i
  write_buffered-Ends would_block c w i =
      Ends-if (ltb 0 (length c.write_buffer)) (Ends-some _ w (IsClient-same c _ refl refl i))
        (Ends-some _ w (IsClient-same c _ refl refl i))
  write_buffered-Ends (returned n) c w i =
      Ends-if (ltb n (length c.write_buffer)) (Ends-some _ w (IsClient-same c _ refl refl i))
        (Ends-some _ w (IsClient-same c _ refl refl i))

  handle_writable-Ends :
      (r : SysResult ℕ) (c : RtmpClient) (w : W)
      → IsClient c
      → Ends (handle_writable callbacks r (c, w))
  unfolding handle_writable
  handle_writable-Ends r c w i =
      let i' = take_outgoing-IsClient c i in
      Ends-if (length (take_outgoing c).write_buffer == 0)
        (Ends-some _ w (IsClient-same (take_outgoing c) _ refl refl i'))
        (write_buffered-Ends r (take_outgoing c) w i')

  on_writable-Ends :
      (r : SysResult ℕ) (c : RtmpClient) (w : W)
      → IsClient c
      → Ends (on_writable callbacks r (c, w))
  unfolding on_writable
  on_writable-Ends r c w i =
      Ends-if c.connecting (Ends-some _ w (send_handshake-IsClient r c i))
        (handle_writable-Ends r c w i)

  pub on_event-Ends :
      (event : Event) (calls : EventCalls) (c : RtmpClient) (w : W)
      → IsClient c
      → Ends (on_event callbacks event calls (c, w))
  unfolding on_event
  on_event-Ends event calls c w i =
      Ends->>= _ _ (Ends-if event.writable (on_writable-Ends calls.writes c w i) (Ends-some c w i))
        λ c' w' i'.
          Ends->>= _ _
            (Ends-if event.readable (handle_readable-Ends calls.reads calls.replies c' w' i')
              (Ends-some c' w' i'))
            λ c'' w'' i''.
              Ends-if event.broken (cleanup-Ends callbacks safe c'' w'' i'') (Ends-some c'' w'' i'')
