-- ===== src/Relay/Greeting.antt =====
-- A publisher's handshake at the relay, in two reads.
use rtmp_abr_transcoder.Base.{
  ℕ, suc, ◌≤◌, ◌≡◌, ◌≢◌, Option, refl, ap, ◌∙◌, Bool, true, false, ◌&&◌, List, [], ◌∷◌, ◌++◌, some,
  ok, arith, length, take_all, le→ltb, le→leb, append_assoc,
}
use rtmp_abr_transcoder.Base.Options.{◌>>=◌}
use rtmp_abr_transcoder.Handshake.{
  Handshake, new_handshake, s0s1s2_sent, done, random_block, process_client_handshake, receive_c2,
  generate_s0_s1_s2,
}
use rtmp_abr_transcoder.Handshake.Protocol.{receive_c0_c1-block}
use rtmp_abr_transcoder.Session.{is_done, generate_server_handshake_response}
use rtmp_abr_transcoder.Session.Transfer.{IsReady}
use rtmp_abr_transcoder.Net.Socket.{failed}
use rtmp_abr_transcoder.Relay.Publisher.{Publisher, Answers, write_socket}
use rtmp_abr_transcoder.Relay.Answers.{IsQuiet}
use rtmp_abr_transcoder.Relay.Reading.{
  continues, answer_greeting, send_protocol_messages, process_remaining, finish_handshake,
  protocol_after_answer, read_handshake, on_read, is_answering,
}
use rtmp_abr_transcoder.Relay.ProtocolMessages.{
  protocol_bytes, checked-write, send_protocol_messages-Protocol,
}

-- A publisher at the beginning and a publisher after the greeting.
abbrev pub beginning : Publisher → Publisher
beginning p = record p { session = record p.session { handshake = new_handshake } }

abbrev greeted_handshake : (ℕ → ℕ) → List ℕ → Handshake
greeted_handshake random c1 = record {
  state = s0s1s2_sent;
  c1_data = c1;
  s1_data = random_block random;
}

abbrev pub greeted : (ℕ → ℕ) → Answers → List ℕ → Publisher → Publisher
greeted random answers c1 p =
    (write_socket answers (3 ∷ (random_block random ++ c1))
      (record p { session = record p.session { handshake = greeted_handshake random c1 } })).1

module _ (grow : ℕ → ℕ → ℕ) (memory : ℕ) (has_transcoder : Bool) (now : ℕ) (random : ℕ → ℕ)
    (answers : Answers)
    (writes : (before : List (List ℕ)) (data' : List ℕ) → answers before data' ≢ failed) where
  and_false : (b : Bool) → (b && false) ≡ false
  and_false true = refl
  and_false false = refl

  -- The handshake is no matter of what a session can send.
  with_handshake-IsReady :
      (p : Publisher) (h : Handshake) → IsQuiet p → IsReady (record p.session { handshake = h })
  with_handshake-IsReady p h q = record {
    valid = q.ready.valid;
    unread = q.ready.unread;
    chunk_size_pos = q.ready.chunk_size_pos;
  }

  receive_c2-block :
      (c2 : List ℕ) (h : Handshake)
      → length c2 ≡ 1536
      → receive_c2 c2 h ≡ (ok 1536, record h { state = done })
  unfolding receive_c2
  receive_c2-block c2 h e = rw (le→ltb (length c2) 1536 (omega arith)) refl

  answer_greeting-over :
      (data' : List ℕ) (p : Publisher)
      → p.session.handshake.state ≡ done
      → answer_greeting grow memory has_transcoder now random answers data' p ≡ some (some p)
  unfolding answer_greeting
  answer_greeting-over data' p e =
      let answering : is_answering p.session.handshake.state ≡ false = ap is_answering e in
      rw answering refl

  -- A read that the handshake accepts.
  read_accepted :
      (data' : List ℕ) (p : Publisher) (h : Handshake) (n : ℕ)
      → is_done p.session.handshake.state ≡ false
      → process_client_handshake data' p.session.handshake ≡ (ok n, h)
      → on_read grow memory has_transcoder now random answers data' p ≡ (
          answer_greeting grow memory has_transcoder now random answers data'
            (record p { session = record p.session { handshake = h } })
          >>= λ answered.
              protocol_after_answer grow memory has_transcoder now random answers n data' answered)
  unfolding on_read read_handshake
  read_accepted data' p h n open_state e = rw (on_read, open_state, read_handshake, e) (rw e refl)

  answer_greeting-greeting :
      (c1 : List ℕ) (p : Publisher)
      → length c1 ≡ 1536
      → answer_greeting grow memory has_transcoder now random answers (3 ∷ c1) (record p {
        session = record p.session {
          handshake = record new_handshake { c1_data = c1; state = s0s1s2_sent };
        };
      })
        ≡ some (some (greeted random answers c1 p))
  unfolding answer_greeting generate_server_handshake_response generate_s0_s1_s2
  answer_greeting-greeting c1 p e =
      let s1 = random_block random in
      rw
        (
          answer_greeting,
          le→leb 1537 (suc (length c1)) (omega arith),
          take_all 1536 c1 (omega arith),
        )
        (rw (le→ltb (length c1) 1536 (omega arith), take_all 1536 c1 (omega arith))
          (ap (λ (o : Option Publisher). some o)
            (checked-write answers (3 ∷ (s1 ++ c1)) _ (writes p.written (3 ∷ (s1 ++ c1))))))

  on_read-greeting :
      (c1 : List ℕ) (p : Publisher)
      → length c1 ≡ 1536
      → on_read grow memory has_transcoder now random answers (3 ∷ c1) (beginning p)
        ≡ some (continues (greeted random answers c1 p) [])
  unfolding process_client_handshake protocol_after_answer send_protocol_messages finish_handshake
      process_remaining
  on_read-greeting c1 p e =
      let h = record new_handshake { c1_data = c1; state = s0s1s2_sent } in
      read_accepted (3 ∷ c1) (beginning p) h 1537 refl (receive_c0_c1-block c1 new_handshake e)
      ∙ rw (answer_greeting-greeting c1 p e) refl

  process_remaining-nothing :
      (n : ℕ) (data' : List ℕ) (p : Publisher)
      → length data' ≤ n
      → process_remaining grow memory has_transcoder now random answers n data' p
        ≡ some (continues p [])
  unfolding process_remaining
  process_remaining-nothing n data' p h =
      rw (le→ltb n (length data') h) (rw (and_false (is_done p.session.handshake.state)) refl)

  -- A publisher that sends the greeting in one read and its echo in the next has the greeting of
  -- the server, which echoes the block of the publisher, and then the three protocol messages
  -- written to its socket, each by one call; it goes on with its handshake over, in chunks of 4096
  -- bytes from then on, and with nothing waiting in its session. The session could send before,
  -- and no call of socket.write fails; how many bytes a call takes, the code does not look at.
  pub greeting-answered :
      (c1 c2 : List ℕ) (p : Publisher)
      → length c1 ≡ 1536
      → length c2 ≡ 1536
      → IsQuiet p
      → (p' : Publisher) × (on_read grow memory has_transcoder now random answers
            (3 ∷ c1)
            (beginning p)
          ≡ some (continues (greeted random answers c1 p) []))
        × (on_read grow memory has_transcoder now random answers c2 (greeted random answers c1 p)
            ≡ some (continues p' []))
        × (p'.session.handshake.state ≡ done)
        × (p'.written
            ≡ p.written
              ++ ((3 ∷ (random_block random ++ c1)) ∷ protocol_bytes p.session.out_chunk_size ∷ []))
        × (p'.session.out_chunk_size ≡ 4096)
        × IsQuiet p'
  unfolding protocol_after_answer finish_handshake process_client_handshake
  greeting-answered c1 c2 p e e' q =
      let h = record (greeted_handshake random c1) { state = done } in
      let start = greeted random answers c1 p in
      let over = record start { session = record start.session { handshake = h } } in
      let r =
        send_protocol_messages-Protocol grow memory has_transcoder now random answers writes over
          (record { ready = with_handshake-IsReady p h q; flushed = q.flushed }) refl in
      let p' =
        (write_socket answers (protocol_bytes p.session.out_chunk_size)
          (record over { session = r.session })).1 in
      (
        p',
        on_read-greeting c1 p e,
        read_accepted c2 start h 1536 refl (receive_c2-block c2 (greeted_handshake random c1) e')
            ∙ rw (answer_greeting-over c2 over refl)
                (rw (r.defined, process_remaining-nothing 1536 c2 p' (omega arith)) refl),
        ap (λ (hs : Handshake). hs.state) r.same_handshake,
        append_assoc p.written ((3 ∷ (random_block random ++ c1)) ∷ [])
            (protocol_bytes p.session.out_chunk_size ∷ []),
        r.new_size,
        record { ready = r.ready; flushed = r.flushed },
      )
