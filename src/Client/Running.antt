-- ===== src/Client/Running.antt =====
-- A client from connect() on, with any events.
use rtmp_abr_transcoder.Base.{
  ℕ, ◌≡◌, refl, Bool, true, false, List, [], ◌∷◌, Option, some, ok, arith, inl, inr, Result-cases,
}
use rtmp_abr_transcoder.Base.Options.{◌>>=◌}
use rtmp_abr_transcoder.Buffer.{new_buffer, clear}
use rtmp_abr_transcoder.Session.{new_session, generate_client_handshake, get_outgoing_data}
use rtmp_abr_transcoder.Session.Transfer.{IsReady}
use rtmp_abr_transcoder.Net.Socket.{set_nonblocking, connect_socket}
use rtmp_abr_transcoder.Client.{ConnectCalls, new_client, open_socket, register, connect}
use rtmp_abr_transcoder.Client.{RtmpClient}
use rtmp_abr_transcoder.Client.Events.{Callbacks, Event, EventCalls, on_event}
use rtmp_abr_transcoder.Client.Safety.{IsClient, Ends, AreSafe, Ends-some, Ends->>=}
use rtmp_abr_transcoder.Client.Handlers.{on_event-Ends}

-- The session after its greeting was taken out.
first-IsReady :
    (random : ℕ → ℕ)
    → IsReady (get_outgoing_data (generate_client_handshake random new_session).1).1
unfolding get_outgoing_data generate_client_handshake new_session new_buffer clear
first-IsReady random = record {
  valid = record { ordered = omega arith; within = omega arith; allocated = omega arith };
  unread = refl;
  chunk_size_pos = omega arith;
}

register-IsClient :
    (random : ℕ → ℕ) (added : Bool) (c : RtmpClient)
    → c.connected ≡ false
    → IsClient (register random added c).1
unfolding register
register-IsClient random true c e = record {
  session = _;
  present = refl;
  agrees = ((λ h. absurd (cc (e, h))), first-IsReady random);
}
register-IsClient random false c e = record {
  session = _;
  present = refl;
  agrees = ((λ h. absurd (cc (e, h))), first-IsReady random);
}

-- A call of connect() that returns no error leaves a client with a session.
connect-IsClient :
    (random : ℕ → ℕ) (calls : ConnectCalls)
    → (connect random calls new_client).0 ≡ ok tt
    → IsClient (connect random calls new_client).1
unfolding connect open_socket new_client
connect-IsClient random calls h =
    elim (Result-cases (set_nonblocking calls.get_flags calls.set_flags)) [
      | inr (e, f) ↦ absurd (cc (h, f))
      | inl (u, f) ↦ elim (Result-cases (connect_socket calls.address calls.connection)) [
        | inr (e, g) ↦ absurd (cc (h, f, g))
        | inl (u', g) ↦ rw (f, g, connect) (register-IsClient random calls.added _ refl)
      ]
    ]

module _ {W : Type 0} (callbacks : Callbacks W) where
  -- The callback of the event loop for each event.
  unfoldable pub run_events : List (Event × EventCalls) → RtmpClient × W → Option (RtmpClient × W)
  run_events [] world = some world
  run_events ((event, calls) ∷ events) world = do
    world' ← on_event callbacks event calls world
    run_events events world'

module _ {W : Type 0} (callbacks : Callbacks W) (safe : AreSafe callbacks) where
  run_events-Ends :
      (events : List (Event × EventCalls)) (c : RtmpClient) (w : W)
      → IsClient c
      → Ends (run_events callbacks events (c, w))
  unfolding run_events
  run_events-Ends [] c w i = Ends-some c w i
  run_events-Ends ((event, calls) ∷ events) c w i =
      Ends->>= _ (run_events callbacks events) (on_event-Ends callbacks safe event calls c w i)
        (run_events-Ends events)

  -- After a call of connect() that returns no error, the handlers of a new client run through any
  -- events, whatever the system answers to each call: they follow no null pointer and copy no
  -- bytes that are not there, the client is connected only when its handshake is over, and its
  -- session can send, with a positive chunk size and a sound write buffer. The callbacks of its
  -- user end for a client of which this holds, and leave it so; they do not destroy the client.
  pub connect-Ends :
      (random : ℕ → ℕ) (calls : ConnectCalls) (events : List (Event × EventCalls)) (w : W)
      → (connect random calls new_client).0 ≡ ok tt
      → Ends (run_events callbacks events ((connect random calls new_client).1, w))
  connect-Ends random calls events w e =
      run_events-Ends events _ w (connect-IsClient random calls e)
