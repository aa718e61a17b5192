-- ===== src/Client/Safety.antt =====
-- The handlers of a client follow no null pointer and read no bytes that are not there: what an
-- operation needs and leaves.
use rtmp_abr_transcoder.Base.{
  ◌≡◌, refl, sym, ◌∙◌, subst, Bool, true, false, Option, none, some, ◌==◌, if◌then◌else◌,
  Bool-cases, inl, inr, Option-cases,
}
use rtmp_abr_transcoder.Base.Options.{◌>>=◌}
use rtmp_abr_transcoder.Messages.Control.{Message, parse_set_chunk_size}
use rtmp_abr_transcoder.Handshake.{done}
use rtmp_abr_transcoder.Session.{Session, apply_chunk_size}
use rtmp_abr_transcoder.Session.Transfer.{IsReady}
use rtmp_abr_transcoder.Client.{RtmpClient}
use rtmp_abr_transcoder.Client.Events.{Callbacks}

-- A client that is connected has completed the handshake, and its session can send: its chunk size
-- is positive and its write buffer sound.
abbrev pub Agrees : RtmpClient → Session → Type 0
Agrees c s = (c.connected ≡ true → s.handshake.state ≡ done) × IsReady s

-- A client that connect() was called on.
pub record IsClient (c : RtmpClient) : Type 0 where
  pub session : Session
  pub present : c.session ≡ some session
  pub agrees : Agrees c session

-- An operation that ends, with such a client.
pub record Ends {W : Type 0} (r : Option (RtmpClient × W)) : Type 0 where
  pub after : RtmpClient
  pub world : W
  pub defined : r ≡ some (after, world)
  pub client : IsClient after

-- Callbacks that end, and leave such a client.
pub record AreSafe {W : Type 0} (callbacks : Callbacks W) : Type 0 where
  pub connected : (c : RtmpClient) (w : W) → IsClient c → Ends (callbacks.on_connected (c, w))
  pub message :
      (msg : Message) (c : RtmpClient) (w : W) → IsClient c → Ends (callbacks.on_message msg (c, w))
  pub disconnected : (c : RtmpClient) (w : W) → IsClient c → Ends (callbacks.on_disconnected (c, w))

pub Ends-some : {W : Type 0} (c : RtmpClient) (w : W) → IsClient c → Ends (some (c, w))
Ends-some c w i = record { after = c; world = w; defined = refl; client = i }

pub Ends-if :
    {W : Type 0} {x y : Option (RtmpClient × W)} (b : Bool)
    → Ends x
    → Ends y
    → Ends (if b then x else y)
Ends-if true e f = e
Ends-if false e f = f

pub Ends->>= :
    {W : Type 0} (r : Option (RtmpClient × W)) (f : RtmpClient × W → Option (RtmpClient × W))
    → Ends r
    → ((c : RtmpClient) (w : W) → IsClient c → Ends (f (c, w)))
    → Ends (r >>= f)
Ends->>= r f e g = rw e.defined (g e.after e.world e.client)

-- A test of the session's pointer.
pub on_session :
    {W : Type 0} (o : Option Session) (s : Session)
    → o ≡ some s
    → (f : Session → Option (RtmpClient × W)) → Ends (f s)
    → Ends (elim o as (λ _. Option (RtmpClient × W)) [ none ↦ none | some s ↦ f s ])
on_session {W} o s e f p =
    subst
      (λ (x : Option Session).
        Ends (elim x as (λ _. Option (RtmpClient × W)) [ none ↦ none | some s ↦ f s ]))
      (sym e) p

-- The same session, connected or not as before.
pub IsClient-same :
    (c c' : RtmpClient)
    → c'.session ≡ c.session
    → c'.connected ≡ c.connected
    → IsClient c
    → IsClient c'
IsClient-same c c' e f i = record {
  session = i.session;
  present = e ∙ i.present;
  agrees = ((λ h. i.agrees.0 (sym f ∙ h)), i.agrees.1);
}

pub apply_chunk_size-handshake :
    (msg : Message) (s : Session) → (apply_chunk_size msg s).handshake ≡ s.handshake
unfolding apply_chunk_size
apply_chunk_size-handshake msg s = elim (Bool-cases (msg.type_id == 1)) [
  | inr e ↦ rw e refl
  | inl e ↦ elim (Option-cases (parse_set_chunk_size msg.payload)) [
    | inl f ↦ rw (e, f) refl
    | inr (m, f) ↦ rw (e, f) refl
  ]
]

-- What a session sends with is its write buffer and its chunk size.
pub IsReady-same :
    (s s' : Session)
    → s'.write_buffer ≡ s.write_buffer
    → s'.out_chunk_size ≡ s.out_chunk_size
    → IsReady s
    → IsReady s'
IsReady-same s s' e f r = record {
  valid = rw e r.valid;
  unread = rw e r.unread;
  chunk_size_pos = rw f r.chunk_size_pos;
}

pub apply_chunk_size-IsReady :
    (msg : Message) (s : Session) → IsReady s → IsReady (apply_chunk_size msg s)
unfolding apply_chunk_size
apply_chunk_size-IsReady msg s r = elim (Bool-cases (msg.type_id == 1)) [
  | inr e ↦ rw e r
  | inl e ↦ elim (Option-cases (parse_set_chunk_size msg.payload)) [
    | inl f ↦ rw (e, f) r
    | inr (m, f) ↦ rw (e, f) (IsReady-same s _ refl refl r)
  ]
]
