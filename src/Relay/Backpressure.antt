-- ===== src/Relay/Backpressure.antt =====
-- What relay_message keeps and counts while a pusher does not publish.
use rtmp_abr_transcoder.Base.{
  ℕ, ◌+◌, ◌^◌, ◌≤◌, ◌<◌, ◌≡◌, refl, ◌∙◌, false, List, [], ◌∷◌, ◌++◌, arith, ltb, length, inl, inr,
  Bool-cases, ltb→le, drop,
}
use rtmp_abr_transcoder.Messages.Control.{Message}
use rtmp_abr_transcoder.Relay.Types.{
  RelayPolicy, BackpressurePolicy, drop_oldest, drop_newest, disconnect,
}
use rtmp_abr_transcoder.Relay.Pusher.{
  Client, Pusher, is_media, plus, over_limit, buffer_message, relay_message,
}

-- The bytes of the payloads of messages.
abbrev pub total_bytes : List Message → ℕ
total_bytes [] = 0
total_bytes (msg ∷ ms) = length msg.payload + total_bytes ms

total_bytes-append :
    (ms ns : List Message) → total_bytes (ms ++ ns) ≡ total_bytes ms + total_bytes ns
total_bytes-append [] ns = omega arith
total_bytes-append (msg ∷ ms) ns = omega (arith, total_bytes-append ms ns)

-- pending_bytes counts the bytes that are buffered.
abbrev pub IsCounted : {C : Type 0} → Pusher C → Type 0
IsCounted p = p.pending_bytes ≡ total_bytes p.buffer

over_limit-IsCounted :
    {C : Type 0} (policy : BackpressurePolicy) (msg : Message) (p : Pusher C)
    (buffer : List Message)
    → p.buffer ≡ buffer
    → p.pending_bytes ≡ total_bytes buffer + length msg.payload
    → total_bytes buffer + length msg.payload < 2 ^ 64
    → IsCounted (over_limit policy msg p)
unfolding over_limit
over_limit-IsCounted drop_oldest msg p [] e count fits = rw e (omega arith)
over_limit-IsCounted drop_oldest msg p (first ∷ rest) e count fits =
    rw e (omega (arith, total_bytes-append rest (msg ∷ [])))
over_limit-IsCounted drop_newest msg p buffer e count fits = rw e (omega arith)
over_limit-IsCounted disconnect msg p buffer e count fits =
    rw e (omega (arith, total_bytes-append buffer (msg ∷ [])))

buffer_message-IsCounted :
    {C : Type 0} (policy : RelayPolicy) (msg : Message) (p : Pusher C)
    → IsCounted p
    → total_bytes p.buffer + length msg.payload < 2 ^ 64
    → IsCounted (buffer_message policy msg p)
unfolding buffer_message
buffer_message-IsCounted policy msg p count fits =
    let sum : plus p.pending_bytes (length msg.payload)
        ≡ total_bytes p.buffer + length msg.payload =
      omega arith in
    elim (Bool-cases (ltb policy.max_pending_bytes (plus p.pending_bytes (length msg.payload)))) [
      | inl e ↦ rw e (over_limit-IsCounted policy.backpressure msg _ p.buffer refl sum fits)
      | inr e ↦ rw e (sum ∙ omega (arith, total_bytes-append p.buffer (msg ∷ [])))
    ]

-- If a pusher counts just the bytes that it buffers, it does so after a message as well, whatever
-- the policy drops, as long as the buffered bytes and the message fit a size_t together.
pub relay_message-IsCounted :
    {C : Type 0} (api : Client C) (policy : RelayPolicy) (msg : Message) (p : Pusher C)
    → IsCounted p
    → total_bytes p.buffer + length msg.payload < 2 ^ 64
    → IsCounted (relay_message api policy msg p)
unfolding relay_message
relay_message-IsCounted api policy msg p count fits = elim (Bool-cases (is_media msg)) [
  | inr e ↦ rw e count
  | inl e ↦ elim (Bool-cases p.publishing) [
    | inl f ↦ rw (e, f) count
    | inr f ↦
        rw (e, f) (buffer_message-IsCounted policy msg (record p { publishing = false }) count fits)
  ]
]

-- With DropNewest the bytes that a pusher counts do not exceed the limit after a message, if they
-- did not before and fit a size_t together with the message.
pub relay_message-bounded :
    {C : Type 0} (api : Client C) (policy : RelayPolicy) (msg : Message) (p : Pusher C)
    → policy.backpressure ≡ drop_newest
    → p.pending_bytes ≤ policy.max_pending_bytes
    → p.pending_bytes + length msg.payload < 2 ^ 64
    → (relay_message api policy msg p).pending_bytes ≤ policy.max_pending_bytes
unfolding relay_message buffer_message over_limit
relay_message-bounded api policy msg p newest bound fits = elim (Bool-cases (is_media msg)) [
  | inr e ↦ rw e bound
  | inl e ↦ elim (Bool-cases p.publishing) [
    | inl f ↦ rw (e, f) bound
    | inr f ↦
        elim (Bool-cases
          (ltb policy.max_pending_bytes (plus p.pending_bytes (length msg.payload)))) [
            | inl g ↦ rw (e, f, g, newest) (omega arith)
            | inr g ↦
                rw (e, f, g)
                  (ltb→le policy.max_pending_bytes (plus p.pending_bytes (length msg.payload)) g)
          ]
  ]
]

-- What a pusher that does not publish holds after one more message.
pub data KeepsOrder (before : List Message) (msg : Message) : List Message → Type 0 where
  -- The message is at the end.
  kept : KeepsOrder before msg (before ++ (msg ∷ []))
  -- And the oldest message is dropped.
  without_oldest : KeepsOrder before msg (drop 1 before ++ (msg ∷ []))
  -- The message is dropped.
  unchanged : KeepsOrder before msg before

over_limit-KeepsOrder :
    {C : Type 0} (policy : BackpressurePolicy) (msg : Message) (p : Pusher C)
    (buffer : List Message)
    → p.buffer ≡ buffer
    → KeepsOrder buffer msg (over_limit policy msg p).buffer
unfolding over_limit
over_limit-KeepsOrder drop_oldest msg p [] e = rw e kept
over_limit-KeepsOrder drop_oldest msg p (first ∷ rest) e = rw e without_oldest
over_limit-KeepsOrder drop_newest msg p buffer e = rw e unchanged
over_limit-KeepsOrder disconnect msg p buffer e = rw e kept

-- Whatever the policy, a message that is relayed leaves the buffered messages in order: it goes to
-- their end, and the oldest may be dropped for it, or it is not kept at all.
pub relay_message-KeepsOrder :
    {C : Type 0} (api : Client C) (policy : RelayPolicy) (msg : Message) (p : Pusher C)
    → KeepsOrder p.buffer msg (relay_message api policy msg p).buffer
unfolding relay_message buffer_message
relay_message-KeepsOrder api policy msg p = elim (Bool-cases (is_media msg)) [
  | inr e ↦ rw e unchanged
  | inl e ↦ elim (Bool-cases p.publishing) [
    | inl f ↦ rw (e, f) unchanged
    | inr f ↦
        elim (Bool-cases
          (ltb policy.max_pending_bytes (plus p.pending_bytes (length msg.payload)))) [
            | inl g ↦ rw (e, f, g) (over_limit-KeepsOrder policy.backpressure msg _ p.buffer refl)
            | inr g ↦ rw (e, f, g) kept
          ]
  ]
]
