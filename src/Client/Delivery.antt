-- ===== src/Client/Delivery.antt =====
-- cleanup() and process_buffered_data end, and keep what a client knows of its session.
use rtmp_abr_transcoder.Base.{
  ℕ, ◌≡◌, refl, ap, ◌∙◌, List, [], ◌∷◌, Option, none, some, Result, ok, err, leb, ◌==◌, length,
  Bool-cases, inl, inr, Result-cases,
}
use rtmp_abr_transcoder.Base.Options.{◌>>=◌}
use rtmp_abr_transcoder.Messages.Control.{Message}
use rtmp_abr_transcoder.Chunks.Parse.{Chunk, parse}
use rtmp_abr_transcoder.Handshake.{Handshake}
use rtmp_abr_transcoder.Session.{
  Session, SessionError, message_of, apply_chunk_size, deliver, process_input, is_done,
}
use rtmp_abr_transcoder.Net.Socket.{is_valid}
use rtmp_abr_transcoder.Client.{RtmpClient, close_connection}
use rtmp_abr_transcoder.Net.Socket.{close}
use rtmp_abr_transcoder.Client.Events.{
  Callbacks, cleanup, session_callback, erase_consumed, process_buffered_data,
}
use rtmp_abr_transcoder.Client.Safety.{
  Agrees, IsClient, Ends, AreSafe, Ends-some, on_session, IsClient-same, apply_chunk_size-handshake,
  IsReady-same, apply_chunk_size-IsReady,
}

close_connection-IsClient : (c : RtmpClient) → IsClient c → IsClient (close_connection c)
unfolding close_connection close
close_connection-IsClient c i = elim (Bool-cases (is_valid c.socket)) [
  | inl e ↦ rw e (record {
    session = i.session;
    present = i.present;
    agrees = ((λ h. absurd (cc h)), i.agrees.1);
  })
  | inr e ↦ rw e (record {
    session = i.session;
    present = i.present;
    agrees = ((λ h. absurd (cc h)), i.agrees.1);
  })
]

module _ {W : Type 0} (callbacks : Callbacks W) (safe : AreSafe callbacks) where
  pub cleanup-Ends : (c : RtmpClient) (w : W) → IsClient c → Ends (cleanup callbacks (c, w))
  unfolding cleanup
  cleanup-Ends c w i = safe.disconnected (close_connection c) w (close_connection-IsClient c i)

  -- The session that process_input runs on, beside the client.
  record Delivers (r : Option (Session × (RtmpClient × W))) : Type 0 where
    session : Session
    after : RtmpClient
    world : W
    defined : r ≡ some (session, (after, world))
    agrees : Agrees after session

  session_callback-Delivers :
      (msg : Message) (s : Session) (c : RtmpClient) (w : W)
      → Agrees c s
      → Delivers (session_callback callbacks msg (s, (c, w)))
  unfolding session_callback
  session_callback-Delivers msg s c w a =
      let e =
        safe.message msg (record c { session = some s }) w
          (record { session = s; present = refl; agrees = a }) in
      record {
        session = e.client.session;
        after = e.after;
        world = e.world;
        defined = rw e.defined (
            ap
              (λ (o : Option Session). elim o as (λ _. Option (Session × (RtmpClient × W))) [
                | none ↦ none
                | some s' ↦ some (s', (e.after, e.world))
              ])
              e.client.present);
        agrees = e.client.agrees;
      }

  deliver-Delivers :
      (chunks : List Chunk) (s : Session) (c : RtmpClient) (w : W)
      → Agrees c s
      → Delivers (deliver (session_callback callbacks) chunks (s, (c, w)))
  unfolding deliver
  deliver-Delivers [] s c w a = record {
    session = s;
    after = c;
    world = w;
    defined = refl;
    agrees = a;
  }
  deliver-Delivers (chunk ∷ chunks) s c w a =
      let msg = message_of chunk in
      let d = session_callback-Delivers msg (apply_chunk_size msg s) c w (
        (λ h. ap (λ (x : Handshake). x.state) (apply_chunk_size-handshake msg s) ∙ a.0 h),
        apply_chunk_size-IsReady msg s a.1,
      ) in
      let d' = deliver-Delivers chunks d.session d.after d.world d.agrees in
      record {
        session = d'.session;
        after = d'.after;
        world = d'.world;
        defined = rw d.defined d'.defined;
        agrees = d'.agrees;
      }

  -- What process_input returns.
  record Processes (r : Option (Result SessionError ℕ × (Session × (RtmpClient × W))))
      : Type 0 where
    result : Result SessionError ℕ
    session : Session
    after : RtmpClient
    world : W
    defined : r ≡ some (result, (session, (after, world)))
    agrees : Agrees after session

  process_input-Processes :
      (bytes : List ℕ) (s : Session) (c : RtmpClient) (w : W)
      → Agrees c s
      → Processes (process_input (session_callback callbacks) bytes (s, (c, w)))
  unfolding process_input
  process_input-Processes bytes s c w a =
      let r = parse s.parser bytes in
      let parsed : Session = record s { parser = r.parser } in
      let b : Agrees c parsed = (a.0, IsReady-same s parsed refl refl a.1) in
      elim (Bool-cases (is_done s.handshake.state)) [
        | inr e ↦
            rw e
              (record { result = _; session = s; after = c; world = w; defined = refl; agrees = a })
        | inl e ↦ elim (Result-cases r.result) [
          | inr (h, f) ↦
              rw (e, f)
                (record {
                  result = _;
                  session = parsed;
                  after = c;
                  world = w;
                  defined = refl;
                  agrees = b;
                })
          | inl (chunks, f) ↦
              let d = deliver-Delivers chunks parsed c w b in
              rw (e, f)
                (record {
                  result = ok r.consumed;
                  session = d.session;
                  after = d.after;
                  world = d.world;
                  defined = rw d.defined refl;
                  agrees = d.agrees;
                })
        ]
      ]

  erase_consumed-IsClient :
      (r : Result SessionError ℕ) (c : RtmpClient) → IsClient c → IsClient (erase_consumed r c)
  unfolding erase_consumed
  erase_consumed-IsClient (err e) c i = i
  erase_consumed-IsClient (ok n) c i = elim (Bool-cases (leb n (length c.read_buffer))) [
    | inl e ↦ rw e (IsClient-same c _ refl refl i)
    | inr e ↦ rw e (IsClient-same c _ refl refl i)
  ]

  process-Ends :
      (s : Session) (c : RtmpClient) (w : W)
      → Agrees c s
      → Ends (do
        (res, (s', (c', w'))) ← process_input (session_callback callbacks) c.read_buffer (s, (c, w))
        some (erase_consumed res (record c' { session = some s' }), w'))
  process-Ends s c w a =
      let p = process_input-Processes c.read_buffer s c w a in
      let c' : RtmpClient = record p.after { session = some p.session } in
      record {
        after = erase_consumed p.result c';
        world = p.world;
        defined = rw p.defined refl;
        client =
            erase_consumed-IsClient p.result c'
              (record { session = p.session; present = refl; agrees = p.agrees });
      }

  pub process_buffered_data-Ends :
      (c : RtmpClient) (w : W) → IsClient c → Ends (process_buffered_data callbacks (c, w))
  unfolding process_buffered_data
  process_buffered_data-Ends c w i = elim (Bool-cases (length c.read_buffer == 0)) [
    | inl e ↦ rw e (Ends-some c w i)
    | inr e ↦ rw e (
        on_session c.session i.session i.present
          (λ s. do
            (res, (s', (c', w'))) ←
                process_input (session_callback callbacks) c.read_buffer (s, (c, w))
            some (erase_consumed res (record c' { session = some s' }), w'))
          (process-Ends i.session c w i.agrees))
  ]
