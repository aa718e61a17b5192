-- ===== src/Relay/Pushers/Keys.antt =====
-- The keys of the map of pushers of src/relay/relay_manager.cpp.
use rtmp_abr_transcoder.Base.{
  ℕ, ◌≡◌, refl, subst, ◌∙◌, true, false, List, [], ◌∷◌, Option, none, some, Bool, arith,
  if◌then◌else◌, length, ltb, not, ◌&&◌, ◌==◌, inl, inr, Bool-cases,
}
use rtmp_abr_transcoder.Base.Texts.{same_text}
use rtmp_abr_transcoder.Messages.Control.{Message, type_number, command_amf0}
use rtmp_abr_transcoder.Commands.{CommandMessage, parse_command}
use rtmp_abr_transcoder.Relay.Types.{
  StreamId, RelayPolicy, BackpressurePolicy, drop_oldest, drop_newest, disconnect, result_text, one,
  two,
}
use rtmp_abr_transcoder.Relay.Publisher.{
  Call, start_transcoder, source_metadata, video_data, audio_data, relay_to,
}
use rtmp_abr_transcoder.Relay.Publisher as Publisher
use rtmp_abr_transcoder.Relay.Pusher.{
  Client, Pusher, new_pusher, is_media, plus, over_limit, buffer_message, relay_message,
  start_publishing, handle_result, handle_pusher_connected, handle_pusher_message,
  handle_pusher_disconnected,
}
use rtmp_abr_transcoder.Relay.Pushers.{
  Connector, Settings, Pushers, PusherEvent, called, connected, received, disconnected, same_id,
  assign, update_pusher, push_address, pusher_at, opened_pusher, create_pusher, reconnect_pusher,
  connect_pusher, handle_call, handle_event, run,
}
use rtmp_abr_transcoder.Relay.Pushers.Cells.{same_id-≡, same_id_self}

-- No entry has the key `id`.
unfoldable pub HasNo : {C : Type 0} → StreamId → Pushers C → Type 0
HasNo id [] = Unit {0}
HasNo id ((key, p) ∷ ps) = (same_id id key ≡ false) × HasNo id ps

-- Each stream has one pusher at most, which is under its own stream.
unfoldable pub IsKeyed : {C : Type 0} → Pushers C → Type 0
IsKeyed [] = Unit {0}
IsKeyed ((key, p) ∷ ps) = (p.stream_id ≡ key) × HasNo key ps × IsKeyed ps

update_pusher-HasNo :
    {C : Type 0} (id key : StreamId) (f : Pusher C → Pusher C) (ps : Pushers C)
    → HasNo id ps
    → HasNo id (update_pusher key f ps)
unfolding update_pusher HasNo
update_pusher-HasNo id key f [] h = tt
update_pusher-HasNo id key f ((k, p) ∷ ps) (other, h) = elim (Bool-cases (same_id key k)) [
  | inl e ↦ rw e (other, h)
  | inr e ↦ rw e (other, update_pusher-HasNo id key f ps h)
]

update_pusher-IsKeyed :
    {C : Type 0} (key : StreamId) (f : Pusher C → Pusher C) (ps : Pushers C)
    → ((p : Pusher C) → (f p).stream_id ≡ p.stream_id)
    → IsKeyed ps
    → IsKeyed (update_pusher key f ps)
unfolding update_pusher IsKeyed
update_pusher-IsKeyed key f [] keeps h = tt
update_pusher-IsKeyed key f ((k, p) ∷ ps) keeps (own, h, rest) = elim (Bool-cases (same_id key k)) [
  | inl e ↦ rw e (keeps p ∙ own, h, rest)
  | inr e ↦ rw e (own, update_pusher-HasNo k key f ps h, update_pusher-IsKeyed key f ps keeps rest)
]

same_id-flip : (a b : StreamId) → same_id a b ≡ false → same_id b a ≡ false
same_id-flip a b e = elim (Bool-cases (same_id b a)) [
  | inl h ↦
      let e' : same_id a a ≡ false =
        subst (λ (x : StreamId). same_id a x ≡ false) (same_id-≡ b a h) e in
      let self = same_id_self a in ground arith
  | inr h ↦ h
]

assign-HasNo :
    {C : Type 0} (id key : StreamId) (q : Pusher C) (ps : Pushers C)
    → same_id id key ≡ false
    → HasNo id ps
    → HasNo id (assign key q ps)
unfolding assign HasNo
assign-HasNo id key q [] other h = (other, tt)
assign-HasNo id key q ((k, p) ∷ ps) other (first, h) = elim (Bool-cases (same_id key k)) [
  | inl e ↦ rw e (first, h)
  | inr e ↦ rw e (first, assign-HasNo id key q ps other h)
]

assign-IsKeyed :
    {C : Type 0} (key : StreamId) (q : Pusher C) (ps : Pushers C)
    → q.stream_id ≡ key
    → IsKeyed ps
    → IsKeyed (assign key q ps)
unfolding assign IsKeyed HasNo
assign-IsKeyed key q [] named h = (named, tt, tt)
assign-IsKeyed key q ((k, p) ∷ ps) named (own, h, rest) = elim (Bool-cases (same_id key k)) [
  | inl e ↦ rw e (named ∙ same_id-≡ key k e, h, rest)
  | inr e ↦
      rw e
        (own, assign-HasNo k key q ps (same_id-flip key k e) h, assign-IsKeyed key q ps named rest)
]

if-stream_id :
    {C : Type 0} (b : Bool) (p q : Pusher C) (id : StreamId)
    → p.stream_id ≡ id
    → q.stream_id ≡ id
    → (if b then p else q).stream_id ≡ id
if-stream_id true p q id e f = e
if-stream_id false p q id e f = f

over_limit-stream_id :
    {C : Type 0} (policy : BackpressurePolicy) (msg : Message) (p : Pusher C)
    (buffer : List Message)
    → p.buffer ≡ buffer
    → (over_limit policy msg p).stream_id ≡ p.stream_id
unfolding over_limit
over_limit-stream_id drop_oldest msg p [] e = rw e refl
over_limit-stream_id drop_oldest msg p (first ∷ rest) e = rw e refl
over_limit-stream_id drop_newest msg p buffer e = refl
over_limit-stream_id disconnect msg p buffer e = refl

module _ {C : Type 0} (api : Client C) where
  relay_message-stream_id :
      (policy : RelayPolicy) (msg : Message) (p : Pusher C)
      → (relay_message api policy msg p).stream_id ≡ p.stream_id
  unfolding relay_message buffer_message
  relay_message-stream_id policy msg p =
      let p' = record p { pending_bytes = plus p.pending_bytes (length msg.payload) } in
      let over = over_limit-stream_id policy.backpressure msg p' p'.buffer refl in
      if-stream_id (not (is_media msg)) p _ p.stream_id refl (
        if-stream_id p.publishing _ _ p.stream_id refl
          (if-stream_id (ltb policy.max_pending_bytes p'.pending_bytes) _ _ p.stream_id over refl))

  handle_result-stream_id :
      (cmd : CommandMessage) (p : Pusher C) → (handle_result api cmd p).stream_id ≡ p.stream_id
  unfolding handle_result start_publishing
  handle_result-stream_id cmd p =
      if-stream_id (cmd.transaction_id == one) _ _ p.stream_id refl
        (if-stream_id (cmd.transaction_id == two) _ _ p.stream_id refl refl)

  handle_pusher_message-stream_id :
      (memory : ℕ) (msg : Message) (p : Pusher C)
      → (handle_pusher_message api memory msg p).stream_id ≡ p.stream_id
  unfolding handle_pusher_message
  handle_pusher_message-stream_id memory msg p =
      if-stream_id (msg.type_id == type_number command_amf0) _ _ p.stream_id
        (elim (parse_command memory msg.payload)
          as (λ o.
            (elim o as (λ _. Pusher C) [
              | none ↦ p
              | some cmd ↦
                  if same_text cmd.name result_text && not p.publishing
                  then handle_result api cmd p
                  else p
            ]).stream_id
            ≡ p.stream_id) [
              | none ↦ refl
              | some cmd ↦
                  if-stream_id (same_text cmd.name result_text && not p.publishing) _ _ p.stream_id
                    (handle_result-stream_id cmd p) refl
            ])
        refl

module _ {C : Type 0} (api : Connector C) (settings : Settings) where
  reconnect_pusher-stream_id :
      (p : Pusher C) → (reconnect_pusher api settings p).stream_id ≡ p.stream_id
  unfolding reconnect_pusher handle_pusher_disconnected
  reconnect_pusher-stream_id p =
      let p' = handle_pusher_disconnected api.fresh_client p in
      elim (push_address settings p.stream_id)
        as (λ o.
          (elim o as (λ _. Pusher C) [
            | none ↦ p'
            | some (host, port) ↦ record p' { client = api.connect host port p'.client }
          ]).stream_id
          ≡ p.stream_id) [ none ↦ refl | some (host, port) ↦ refl ]

  -- The pusher that is opened, if one is, has the stream `id`.
  abbrev IsNamed : StreamId → Option (Pusher C) → Type 0
  IsNamed id none = Unit {0}
  IsNamed id (some p) = p.stream_id ≡ id

  pusher_at-IsNamed :
      (id : StreamId) (address : Option (List ℕ × ℕ))
      → IsNamed id (pusher_at api settings id address)
  unfolding pusher_at new_pusher
  pusher_at-IsNamed id none = tt
  pusher_at-IsNamed id (some (host, port)) = refl

  opened_pusher-IsNamed : (id : StreamId) → IsNamed id (opened_pusher api settings id)
  unfolding opened_pusher
  opened_pusher-IsNamed id =
      let p = pusher_at api settings id (push_address settings id) in
      elim (length settings.push_url == 0) as (λ b. IsNamed id (if b then none else p)) [
        | true ↦ tt
        | false ↦ pusher_at-IsNamed id (push_address settings id)
      ]

  create_pusher-IsKeyed :
      (id : StreamId) (ps : Pushers C) → IsKeyed ps → IsKeyed (create_pusher api settings id ps)
  unfolding create_pusher
  create_pusher-IsKeyed id ps h =
      elim (opened_pusher api settings id)
          as (λ o.
            IsNamed id o
            → IsKeyed (elim o as (λ _. Pushers C) [ none ↦ ps | some p ↦ assign id p ps ])) [
              | none ↦ (λ names. h)
              | some p ↦ (λ names. assign-IsKeyed id p ps names h)
            ]
        (opened_pusher-IsNamed id)

  handle_call-IsKeyed :
      (call : Call) (ps : Pushers C) → IsKeyed ps → IsKeyed (handle_call api settings call ps)
  unfolding handle_call
  handle_call-IsKeyed start_transcoder ps h = h
  handle_call-IsKeyed source_metadata ps h = h
  handle_call-IsKeyed (video_data payload timestamp keyframe) ps h = h
  handle_call-IsKeyed (audio_data payload timestamp) ps h = h
  handle_call-IsKeyed (Publisher.create_pusher id) ps h = create_pusher-IsKeyed id ps h
  handle_call-IsKeyed (relay_to id msg) ps h =
      update_pusher-IsKeyed id _ ps (relay_message-stream_id api.client settings.policy msg) h

  handle_event-IsKeyed :
      (event : PusherEvent) (ps : Pushers C)
      → IsKeyed ps
      → IsKeyed (handle_event api settings event ps)
  unfolding handle_event handle_pusher_connected
  handle_event-IsKeyed (called call) ps h = handle_call-IsKeyed call ps h
  handle_event-IsKeyed (connected id) ps h =
      update_pusher-IsKeyed id (connect_pusher api settings) ps (λ p. refl) h
  handle_event-IsKeyed (received id msg) ps h =
      update_pusher-IsKeyed id _ ps (handle_pusher_message-stream_id api.client settings.memory msg)
        h
  handle_event-IsKeyed (disconnected id) ps h =
      update_pusher-IsKeyed id _ ps reconnect_pusher-stream_id h

  -- Calls and callbacks, in any order, keep that each stream has one pusher at most and that a pusher
  -- is found under its own stream.
  pub run-IsKeyed :
      (events : List PusherEvent) (ps : Pushers C)
      → IsKeyed ps
      → IsKeyed (run api settings events ps)
  unfolding run
  run-IsKeyed [] ps h = h
  run-IsKeyed (event ∷ events) ps h = run-IsKeyed events _ (handle_event-IsKeyed event ps h)
