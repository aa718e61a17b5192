-- ===== src/Client/Stream.antt =====
-- What a client sends, as one stream of bytes: those that the system has taken, those in the write
-- buffer, and those that the session holds.
use rtmp_abr_transcoder.Base.{
  ℕ, ◌≡◌, refl, sym, ap, ◌∙◌, false, not, List, [], ◌∷◌, ◌++◌, Option, none, some, arith, ltb, ◌==◌,
  length, take, drop, take-append-drop, take_all, ltb→le, append_assoc, append-nil, Bool-cases, inl,
  inr, ◌&&◌, ◌||◌,
}
use rtmp_abr_transcoder.Buffer.{readable, readable_size, clear}
use rtmp_abr_transcoder.Session.{Session, get_outgoing_data}
use rtmp_abr_transcoder.Session.Transfer.{IsReady}
use rtmp_abr_transcoder.Net.Socket.{SysResult, returned, would_block, failed, write, is_valid}
use rtmp_abr_transcoder.Client.{
  RtmpClient, take_from, take_outgoing, flush_buffer, flush, watch_output, has_outgoing_data,
}

abbrev pub outgoing : Option Session → List ℕ
outgoing none = []
outgoing (some s) = readable s.write_buffer

abbrev pub stream : RtmpClient → List ℕ
stream c = c.socket.written ++ (c.write_buffer ++ outgoing c.session)

-- A client with a session whose write buffer is a queue, at the chunk size `n`.
pub record IsSending (n : ℕ) (c : RtmpClient) : Type 0 where
  pub session : Session
  pub present : c.session ≡ some session
  pub ready : IsReady session
  pub size : session.out_chunk_size ≡ n

-- The client has the bytes of the stream before, and these behind them.
pub record Adds (n : ℕ) (bytes : List ℕ) (c c' : RtmpClient) : Type 0 where
  pub contents : stream c' ≡ stream c ++ bytes
  pub sending : IsSending n c'

pub same_stream : (n : ℕ) (c : RtmpClient) → IsSending n c → Adds n [] c c
same_stream n c i = record { contents = sym (append-nil (stream c)); sending = i }

pub Adds-Adds :
    (n : ℕ) (xs ys : List ℕ) (a b c : RtmpClient)
    → Adds n xs a b
    → Adds n ys b c
    → Adds n (xs ++ ys) a c
Adds-Adds n xs ys a b c f g = record {
  contents = g.contents ∙ ap (λ (zs : List ℕ). zs ++ ys) f.contents ∙ append_assoc (stream a) xs ys;
  sending = g.sending;
}

-- A change of the interest is no change of the stream.
pub watch_output-Adds :
    (n : ℕ) (bytes : List ℕ) (c c' : RtmpClient)
    → Adds n bytes c c'
    → Adds n bytes c (watch_output c')
unfolding watch_output
watch_output-Adds n bytes c c' a =
    elim (Bool-cases
      (is_valid c'.socket && (has_outgoing_data c'.session || not (length c'.write_buffer == 0)))) [
        | inl e ↦ rw e (record {
          contents = a.contents;
          sending = record {
            session = a.sending.session;
            present = a.sending.present;
            ready = a.sending.ready;
            size = a.sending.size;
          };
        })
        | inr e ↦ rw e a
      ]

unfoldable pub cleared : Session → Session
cleared s = record s { write_buffer = clear s.write_buffer }

cleared-IsReady : (s : Session) → IsReady s → IsReady (cleared s)
unfolding cleared clear
cleared-IsReady s r = record {
  valid = record { ordered = omega arith; within = omega arith; allocated = r.valid.allocated };
  unread = refl;
  chunk_size_pos = r.chunk_size_pos;
}

pub readable-clear : (s : Session) → readable (cleared s).write_buffer ≡ []
unfolding cleared clear readable
readable-clear s = refl

take_from-Adds : (n : ℕ) (c : RtmpClient) (i : IsSending n c) → Adds n [] c (take_from i.session c)
unfolding take_from get_outgoing_data cleared
take_from-Adds n c i = elim (Bool-cases (readable_size i.session.write_buffer == 0)) [
  | inl e ↦ rw e (same_stream n c i)
  | inr e ↦ rw e (record {
    contents =
        ap
          (λ (xs : List ℕ).
            c.socket.written ++ ((c.write_buffer ++ outgoing (some i.session)) ++ xs))
          (readable-clear i.session)
        ∙ ap (λ (xs : List ℕ). c.socket.written ++ xs)
            (append-nil (c.write_buffer ++ outgoing (some i.session)))
        ∙ sym (
            rw i.present
              (append-nil (c.socket.written ++ (c.write_buffer ++ outgoing (some i.session)))));
    sending = record {
      session = cleared i.session;
      present = refl;
      ready = cleared-IsReady i.session i.ready;
      size = i.size;
    };
  })
]

pub take_outgoing-some :
    (c : RtmpClient) (s : Session) → c.session ≡ some s → take_outgoing c ≡ take_from s c
unfolding take_outgoing
take_outgoing-some c s e =
    ap (λ (o : Option Session). elim o as (λ _. RtmpClient) [ none ↦ c | some s' ↦ take_from s' c ])
      e

pub take_outgoing-Adds : (n : ℕ) (c : RtmpClient) → IsSending n c → Adds n [] c (take_outgoing c)
take_outgoing-Adds n c i = rw (take_outgoing-some c i.session i.present) (take_from-Adds n c i)

-- The bytes that the system takes leave the buffer.
pub taken :
    (ws buffer out : List ℕ) (n : ℕ)
    → (ws ++ take n buffer) ++ (drop n buffer ++ out) ≡ ws ++ (buffer ++ out)
taken ws buffer out n =
    append_assoc ws (take n buffer) (drop n buffer ++ out)
    ∙ ap (λ (xs : List ℕ). ws ++ xs)
        (sym (append_assoc (take n buffer) (drop n buffer) out)
          ∙ ap (λ (xs : List ℕ). xs ++ out) (take-append-drop n buffer))

pub taken_all :
    (ws buffer out : List ℕ) (n : ℕ)
    → ltb n (length buffer) ≡ false
    → (ws ++ take n buffer) ++ out ≡ ws ++ (buffer ++ out)
taken_all ws buffer out n e =
    rw (take_all n buffer (ltb→le n (length buffer) e)) (append_assoc ws buffer out)

-- A write that does not fail.
abbrev pub accepted : Option ℕ → SysResult ℕ
accepted none = would_block
accepted (some k) = returned k

-- A client with the same session and stream.
pub same_session :
    (n : ℕ) (c c' : RtmpClient)
    → IsSending n c
    → c'.session ≡ c.session
    → stream c' ≡ stream c
    → Adds n [] c c'
same_session n c c' i e f = record {
  contents = f ∙ sym (append-nil (stream c));
  sending = record { session = i.session; present = e ∙ i.present; ready = i.ready; size = i.size };
}

-- An empty buffer.
pub none_left :
    (ws buffer out : List ℕ) → ltb 0 (length buffer) ≡ false → ws ++ out ≡ ws ++ (buffer ++ out)
none_left ws [] out e = refl
none_left ws (b ∷ buffer) out e = absurd (omega (arith, ltb→le 0 (length (b ∷ buffer)) e))

flush_buffer-Adds :
    (n : ℕ) (r : SysResult ℕ) (c : RtmpClient) → IsSending n c → Adds n [] c (flush_buffer r c)
unfolding flush_buffer write
flush_buffer-Adds n (returned k) c i = elim (Bool-cases (ltb k (length c.write_buffer))) [
  | inl e ↦
      rw e
        (same_session n c _ i refl (taken c.socket.written c.write_buffer (outgoing c.session) k))
  | inr e ↦ rw e (
      same_session n c _ i refl
        (taken_all c.socket.written c.write_buffer (outgoing c.session) k e))
]
flush_buffer-Adds n would_block c i = elim (Bool-cases (ltb 0 (length c.write_buffer))) [
  | inl e ↦ rw e (same_session n c _ i refl refl)
  | inr e ↦
      rw e (
        same_session n c _ i refl
          (none_left c.socket.written c.write_buffer (outgoing c.session) e))
]
flush_buffer-Adds n failed c i = same_stream n c i

pub flush-Adds :
    (n : ℕ) (r : SysResult ℕ) (c : RtmpClient) → IsSending n c → Adds n [] c (flush r c)
unfolding flush
flush-Adds n r c i =
    let t = take_outgoing-Adds n c i in
    elim (Bool-cases (is_valid c.socket)) [
      | inr e ↦ rw e (same_stream n c i)
      | inl e ↦ elim (Bool-cases (length (take_outgoing c).write_buffer == 0)) [
        | inl f ↦ rw (e, f) t
        | inr f ↦
            rw (e, f)
              (Adds-Adds n [] [] c (take_outgoing c) _ t
                (flush_buffer-Adds n r (take_outgoing c) t.sending))
      ]
    ]
