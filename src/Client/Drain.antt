-- ===== src/Client/Drain.antt =====
-- The event loop empties the buffers of a client.
use rtmp_abr_transcoder.Base.{
  ℕ, ◌+◌, ◌≤◌, ◌≡◌, refl, sym, ap, subst, ◌∙◌, true, List, [], ◌∷◌, ◌++◌, Option, some, arith, ltb,
  ◌==◌, length, drop, length-drop, append-nil, Bool-cases, inl, inr, ltb→le, ltb→lt, drop_all,
  ==_iff,
}
use rtmp_abr_transcoder.Buffer.{Buffer, readable, readable_size}
use rtmp_abr_transcoder.Buffer.Refinement.{IsBuffer, length-readable}
use rtmp_abr_transcoder.Session.{Session, get_outgoing_data}
use rtmp_abr_transcoder.Net.Socket.{returned, write}
use rtmp_abr_transcoder.Client.{RtmpClient, in_only, take_from, take_outgoing}
use rtmp_abr_transcoder.Client.Events.{Callbacks, write_buffered, handle_writable}
use rtmp_abr_transcoder.Client.Stream.{
  outgoing, stream, IsSending, take_outgoing-some, cleared, readable-clear,
}
use rtmp_abr_transcoder.Client.Writes.{handle_writable-Writes}
use rtmp_abr_transcoder.Client.Actions.{
  Action, writable, all_bytes, perform, perform_all, perform_all-stream,
}

-- The bytes that still have to be written.
abbrev pub pending : RtmpClient → List ℕ
pending c = c.write_buffer ++ outgoing c.session

length-nil : (xs : List ℕ) → length xs ≡ 0 → xs ≡ []
length-nil [] e = refl
length-nil (x ∷ xs) e = absurd (omega arith)

no_readable : (b : Buffer) → IsBuffer b → (readable_size b == 0) ≡ true → readable b ≡ []
unfolding readable_size
no_readable b v e = length-nil (readable b) (
    omega (
      arith,
      (==_iff (readable_size b) 0).0 e,
      length-readable b (omega (arith, v.within, v.allocated)),
    ))

drop_none : (k : ℕ) (xs : List ℕ) → length xs ≡ 0 → xs ≡ drop k xs
drop_none k xs e = length-nil xs e ∙ sym (drop_all k xs (omega arith))

-- All pending bytes are in the write buffer.
record Gathered (c c' : RtmpClient) : Type 0 where
  buffer : c'.write_buffer ≡ pending c
  none_outgoing : outgoing c'.session ≡ []

take_from-Gathered :
    (n : ℕ) (c : RtmpClient) (i : IsSending n c) → Gathered c (take_from i.session c)
unfolding take_from get_outgoing_data cleared
take_from-Gathered n c i = elim (Bool-cases (readable_size i.session.write_buffer == 0)) [
  | inl e ↦
      let empty : outgoing c.session ≡ [] =
        ap outgoing i.present ∙ no_readable i.session.write_buffer i.ready.valid e in
      rw e (record {
        buffer = sym (ap (λ (xs : List ℕ). c.write_buffer ++ xs) empty ∙ append-nil c.write_buffer);
        none_outgoing = empty;
      })
  | inr e ↦ rw e (record {
    buffer = ap (λ (o : Option Session). c.write_buffer ++ outgoing o) (sym i.present);
    none_outgoing = readable-clear i.session;
  })
]

take_outgoing-Gathered : (n : ℕ) (c : RtmpClient) → IsSending n c → Gathered c (take_outgoing c)
take_outgoing-Gathered n c i =
    rw (take_outgoing-some c i.session i.present) (take_from-Gathered n c i)

-- A client after the system took the first `k` of its pending bytes.
record Left (k : ℕ) (c c' : RtmpClient) : Type 0 where
  rest : pending c' ≡ drop k (pending c)
  quiet : length (pending c) ≤ k → c'.interest ≡ in_only

module _ {W : Type 0} (callbacks : Callbacks W) where
  handle_writable-Left :
      (n k : ℕ) (c : RtmpClient) (w : W)
      → IsSending n c
      → (c' : RtmpClient) × (handle_writable callbacks (returned k) (c, w) ≡ some (c', w))
        × Left k c c'
  unfolding handle_writable write_buffered write
  handle_writable-Left n k c w i =
      let g = take_outgoing-Gathered n c i in
      let buffer = (take_outgoing c).write_buffer in
      let size : length buffer ≡ length (pending c) = ap length g.buffer in
      elim (Bool-cases (length buffer == 0)) [
        | inl e ↦
            let none_pending : length (pending c) ≡ 0 =
              omega (arith, size, (==_iff (length buffer) 0).0 e) in
            rw e (
              _,
              refl,
              record {
                rest =
                    ap (λ (xs : List ℕ). buffer ++ xs) g.none_outgoing
                    ∙ append-nil buffer
                    ∙ g.buffer
                    ∙ drop_none k (pending c) none_pending;
                quiet = λ h. refl;
              },
            )
        | inr e ↦ elim (Bool-cases (ltb k (length buffer))) [
          | inl f ↦
              rw (e, f)
                (
                  _,
                  refl,
                  record {
                    rest =
                        ap (λ (xs : List ℕ). drop k buffer ++ xs) g.none_outgoing
                        ∙ append-nil (drop k buffer)
                        ∙ ap (drop k) g.buffer;
                    quiet = λ h. absurd (omega (arith, size, ltb→lt k (length buffer) f));
                  },
                )
          | inr f ↦
              rw (e, f)
                (
                  _,
                  refl,
                  record {
                    rest =
                        g.none_outgoing
                        ∙ sym (
                            drop_all k (pending c)
                              (omega (arith, size, ltb→le k (length buffer) f)));
                    quiet = λ h. refl;
                  },
                )
        ]
      ]

-- The bytes that the system takes in all.
abbrev pub total : List ℕ → ℕ
total [] = 0
total (k ∷ ks) = k + total ks

abbrev pub writes : List ℕ → List Action
writes [] = []
writes (k ∷ ks) = writable (some k) ∷ writes ks

same_client :
    {W : Type 0} (r : Option (RtmpClient × W)) (c c' : RtmpClient) (w : W)
    → r ≡ some (c, w)
    → r ≡ some (c', w)
    → c ≡ c'
same_client r c c' w e f = cc (e, f)

all_bytes-writes : (n : ℕ) (ks : List ℕ) → all_bytes n (writes ks) ≡ []
all_bytes-writes n [] = refl
all_bytes-writes n (k ∷ ks) = all_bytes-writes n ks

-- After the writes nothing is pending, and the loop waits for input only.
pub record Drained (c' : RtmpClient) : Type 0 where
  pub rest : pending c' ≡ []
  pub quiet : c'.interest ≡ in_only

module _ {W : Type 0} (callbacks : Callbacks W) (grow : ℕ → ℕ → ℕ) (memory : ℕ) where
  step :
      (n k : ℕ) (c : RtmpClient) (w : W)
      → IsSending n c
      → (c' : RtmpClient) × (handle_writable callbacks (returned k) (c, w) ≡ some (c', w))
        × Left k c c'
        × IsSending n c'
  step n k c w i =
      let (c', e, left) = handle_writable-Left callbacks n k c w i in
      let r = handle_writable-Writes callbacks n (some k) c w i in
      (
        c',
        e,
        left,
        subst (IsSending n)
            (same_client (handle_writable callbacks (returned k) (c, w)) r.after c' w r.defined e)
            r.adds.sending,
      )

  writes-Drained :
      (n k : ℕ) (ks : List ℕ) (c : RtmpClient) (w : W)
      → IsSending n c
      → length (pending c) ≤ total (k ∷ ks)
      → (c' : RtmpClient) × (perform_all callbacks grow memory (writes (k ∷ ks)) (c, w)
          ≡ some (c', w))
        × Drained c'
  unfolding perform_all perform
  writes-Drained n k [] c w i enough =
      let (c', e, left, sending) = step n k c w i in
      (
        c',
        rw e refl,
        record {
          rest = left.rest ∙ drop_all k (pending c) (omega (arith, enough));
          quiet = left.quiet (omega (arith, enough));
        },
      )
  writes-Drained n k (k' ∷ ks) c w i enough =
      let (c', e, left, sending) = step n k c w i in
      let (c'', e', drained) =
        writes-Drained n k' ks c' w sending
          (omega (arith, enough, ap length left.rest, length-drop k (pending c))) in
      (c'', rw e e', drained)

  -- Once the writes of the event loop have taken as many bytes in all as the client held, at least
  -- one of them having been made, the system has all bytes of the stream, the client holds none,
  -- and it waits for input only. The session of the client can send.
  pub writes-drain :
      (n k : ℕ) (ks : List ℕ) (c : RtmpClient) (w : W)
      → IsSending n c
      → length (pending c) ≤ total (k ∷ ks)
      → (c' : RtmpClient) × (perform_all callbacks grow memory (writes (k ∷ ks)) (c, w)
          ≡ some (c', w))
        × (c'.socket.written ≡ stream c)
        × Drained c'
  writes-drain n k ks c w i enough =
      let (c', e, drained) = writes-Drained n k ks c w i enough in
      let (c'', e', contents) =
        perform_all-stream callbacks grow memory n (writes (k ∷ ks)) c w i in
      let same =
        same_client (perform_all callbacks grow memory (writes (k ∷ ks)) (c, w)) c'' c' w e' e in
      (
        c',
        e,
        sym (append-nil c'.socket.written)
            ∙ ap (λ (xs : List ℕ). c'.socket.written ++ xs) (sym drained.rest)
            ∙ subst (λ (x : RtmpClient). stream x ≡ stream c ++ all_bytes n (writes (k ∷ ks))) same
                contents
            ∙ ap (λ (xs : List ℕ). stream c ++ xs) (all_bytes-writes n (k ∷ ks))
            ∙ append-nil (stream c),
        drained,
      )
