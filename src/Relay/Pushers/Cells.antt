-- ===== src/Relay/Pushers/Cells.antt =====
-- The map of pushers as one cell for each stream: what is found after an operation of
-- src/relay/relay_manager.cpp.
use rtmp_abr_transcoder.Base.{
  ℕ, ◌≡◌, refl, sym, subst, ◌∙◌, Bool, true, false, ◌&&◌, List, [], ◌∷◌, Option, none, some, inl,
  inr, if◌then◌else◌, Bool-cases, arith, ◌==◌, ==_self,
}
use rtmp_abr_transcoder.Base.Texts.{same_text}
use rtmp_abr_transcoder.Relay.Types.{StreamId}
use rtmp_abr_transcoder.Relay.Publisher.{
  Call, start_transcoder, source_metadata, video_data, audio_data, relay_to,
}
use rtmp_abr_transcoder.Relay.Publisher as Publisher
use rtmp_abr_transcoder.Relay.Pusher.{Pusher, relay_message, handle_pusher_message}
use rtmp_abr_transcoder.Relay.Pushers.{
  Connector, Settings, Pushers, PusherEvent, called, connected, received, disconnected, same_id,
  find_pusher, assign, update_pusher, opened_pusher, create_pusher, reconnect_pusher,
  connect_pusher, handle_call, handle_event, run,
}

and_parts : (x y : Bool) → (x && y) ≡ true → (x ≡ true) × (y ≡ true)
and_parts true y e = (refl, e)
and_parts false y e = ground arith

same_text-≡ : (a b : List ℕ) → same_text a b ≡ true → a ≡ b
same_text-≡ [] [] e = refl
same_text-≡ [] (y ∷ b) e = ground arith
same_text-≡ (x ∷ a) [] e = ground arith
same_text-≡ (x ∷ a) (y ∷ b) e =
    let (head, tail) = and_parts (x == y) (same_text a b) e in
    let first : x ≡ y = ground arith in rw (first, same_text-≡ a b tail) refl

same_text_self : (a : List ℕ) → same_text a a ≡ true
same_text_self [] = refl
same_text_self (x ∷ a) = rw (==_self x, same_text_self a) refl

pub same_id_self : (id : StreamId) → same_id id id ≡ true
same_id_self id = rw (same_text_self id.app, same_text_self id.stream) refl

pub same_id-≡ : (a b : StreamId) → same_id a b ≡ true → a ≡ b
same_id-≡ a b e =
    let (app, stream) = and_parts (same_text a.app b.app) (same_text a.stream b.stream) e in
    let first : a.app ≡ b.app = same_text-≡ a.app b.app app in
    let second : a.stream ≡ b.stream = same_text-≡ a.stream b.stream stream in cc

same_id-other : (a b c : StreamId) → same_id b c ≡ false → same_id a c ≡ true → same_id a b ≡ false
same_id-other a b c e h = elim (Bool-cases (same_id a b)) [
  | inl same ↦
      let e' : same_id a c ≡ false =
        subst (λ (x : StreamId). same_id x c ≡ false) (sym (same_id-≡ a b same)) e in
      ground arith
  | inr other ↦ other
]

-- What a call leaves in an optional pusher.
abbrev pub changed : {C : Type 0} → (Pusher C → Pusher C) → Option (Pusher C) → Option (Pusher C)
changed f none = none
changed f (some p) = some (f p)

pub find_pusher-update :
    {C : Type 0} (id key : StreamId) (f : Pusher C → Pusher C) (ps : Pushers C)
    → find_pusher id (update_pusher key f ps)
      ≡ (if same_id id key then changed f (find_pusher id ps) else find_pusher id ps)
unfolding find_pusher update_pusher
find_pusher-update id key f [] = elim (Bool-cases (same_id id key)) [
  | inl e ↦ rw e refl
  | inr e ↦ rw e refl
]
find_pusher-update id key f ((k, p) ∷ ps) = elim (Bool-cases (same_id key k)) [
  | inl e ↦
      rw (e, ← same_id-≡ key k e)
        (elim (Bool-cases (same_id id key)) [ inl h ↦ rw h refl | inr h ↦ rw h refl ])
  | inr e ↦ elim (Bool-cases (same_id id k)) [
    | inl h ↦
        let other : same_id id key ≡ false = same_id-other id key k e h in rw (e, h, other) refl
    | inr h ↦ rw (e, h) (find_pusher-update id key f ps)
  ]
]

pub find_pusher-assign :
    {C : Type 0} (id key : StreamId) (q : Pusher C) (ps : Pushers C)
    → find_pusher id (assign key q ps) ≡ (if same_id id key then some q else find_pusher id ps)
unfolding find_pusher assign
find_pusher-assign id key q [] = refl
find_pusher-assign id key q ((k, p) ∷ ps) = elim (Bool-cases (same_id key k)) [
  | inl e ↦
      rw (e, ← same_id-≡ key k e)
        (elim (Bool-cases (same_id id key)) [ inl h ↦ rw h refl | inr h ↦ rw h refl ])
  | inr e ↦ elim (Bool-cases (same_id id k)) [
    | inl h ↦
        let other : same_id id key ≡ false = same_id-other id key k e h in rw (e, h, other) refl
    | inr h ↦ rw (e, h) (find_pusher-assign id key q ps)
  ]
]

-- The stream that an event is about: none for the calls of the transcoder.
abbrev pub is_about_call : StreamId → Call → Bool
is_about_call id start_transcoder = false
is_about_call id source_metadata = false
is_about_call id (video_data payload timestamp keyframe) = false
is_about_call id (audio_data payload timestamp) = false
is_about_call id (Publisher.create_pusher key) = same_id id key
is_about_call id (relay_to key msg) = same_id id key

abbrev pub is_about : StreamId → PusherEvent → Bool
is_about id (called call) = is_about_call id call
is_about id (connected key) = same_id id key
is_about id (received key msg) = same_id id key
is_about id (disconnected key) = same_id id key

-- The events of one stream.
unfoldable pub own : StreamId → List PusherEvent → List PusherEvent
own id [] = []
own id (event ∷ events) =
    let rest = own id events in if is_about id event then event ∷ rest else rest

abbrev pub created : {C : Type 0} → Option (Pusher C) → Option (Pusher C) → Option (Pusher C)
created none o = o
created (some p) o = some p

module _ {C : Type 0} (api : Connector C) (settings : Settings) where
  -- What an event of its own does with the pusher of a stream.
  abbrev pub alone_call : Call → Option (Pusher C) → Option (Pusher C)
  alone_call start_transcoder o = o
  alone_call source_metadata o = o
  alone_call (video_data payload timestamp keyframe) o = o
  alone_call (audio_data payload timestamp) o = o
  alone_call (Publisher.create_pusher key) o = created (opened_pusher api settings key) o
  alone_call (relay_to key msg) o = changed (relay_message api.client settings.policy msg) o

  abbrev pub alone : PusherEvent → Option (Pusher C) → Option (Pusher C)
  alone (called call) o = alone_call call o
  alone (connected key) o = changed (connect_pusher api settings) o
  alone (received key msg) o = changed (handle_pusher_message api.client settings.memory msg) o
  alone (disconnected key) o = changed (reconnect_pusher api settings) o

  unfoldable pub run_alone : List PusherEvent → Option (Pusher C) → Option (Pusher C)
  run_alone [] o = o
  run_alone (event ∷ events) o = run_alone events (alone event o)

  find_pusher-create_pusher :
      (id key : StreamId) (ps : Pushers C)
      → find_pusher id (create_pusher api settings key ps) ≡ (
          if same_id id key
          then created (opened_pusher api settings key) (find_pusher id ps)
          else find_pusher id ps)
  unfolding create_pusher
  find_pusher-create_pusher id key ps =
      elim (opened_pusher api settings key)
        as (λ o.
          find_pusher id (elim o [ none ↦ ps | some p ↦ assign key p ps ])
          ≡ (if same_id id key then created o (find_pusher id ps) else find_pusher id ps)) [
            | none ↦ elim (Bool-cases (same_id id key)) [ inl h ↦ rw h refl | inr h ↦ rw h refl ]
            | some p ↦ find_pusher-assign id key p ps
          ]

  find_pusher-handle_event :
      (id : StreamId) (event : PusherEvent) (ps : Pushers C)
      → find_pusher id (handle_event api settings event ps)
        ≡ (if is_about id event then alone event (find_pusher id ps) else find_pusher id ps)
  unfolding handle_event handle_call
  find_pusher-handle_event id (called start_transcoder) ps = refl
  find_pusher-handle_event id (called source_metadata) ps = refl
  find_pusher-handle_event id (called (video_data payload timestamp keyframe)) ps = refl
  find_pusher-handle_event id (called (audio_data payload timestamp)) ps = refl
  find_pusher-handle_event id (called (Publisher.create_pusher key)) ps =
      find_pusher-create_pusher id key ps
  find_pusher-handle_event id (called (relay_to key msg)) ps =
      find_pusher-update id key (relay_message api.client settings.policy msg) ps
  find_pusher-handle_event id (connected key) ps =
      find_pusher-update id key (connect_pusher api settings) ps
  find_pusher-handle_event id (received key msg) ps =
      find_pusher-update id key (handle_pusher_message api.client settings.memory msg) ps
  find_pusher-handle_event id (disconnected key) ps =
      find_pusher-update id key (reconnect_pusher api settings) ps

  -- After any calls and callbacks, in any order, the pusher that is found for a stream, or that none
  -- is found, is what the events of this stream alone make of the one that was found before.
  pub find_pusher-run :
      (id : StreamId) (events : List PusherEvent) (ps : Pushers C)
      → find_pusher id (run api settings events ps) ≡ run_alone (own id events) (find_pusher id ps)
  unfolding run run_alone own
  find_pusher-run id [] ps = refl
  find_pusher-run id (event ∷ events) ps =
      find_pusher-run id events (handle_event api settings event ps)
      ∙ rw (find_pusher-handle_event id event ps)
          (elim (Bool-cases (is_about id event)) [ inl h ↦ rw h refl | inr h ↦ rw h refl ])
