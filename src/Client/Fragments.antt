-- ===== src/Client/Fragments.antt =====
-- The server's part of the handshake reaches a client in pieces.
use rtmp_abr_transcoder.Base.{
  ℕ, suc, ◌<◌, ◌≡◌, refl, sym, ap, ◌∙◌, false, List, [], ◌∷◌, ◌++◌, Option, none, some, Result, err,
  arith, ◌==◌, length, lt→ltb, length-append, append_assoc,
}
use rtmp_abr_transcoder.Base.Options.{◌>>=◌}
use rtmp_abr_transcoder.Chunks.RoundTrip.{All}
use rtmp_abr_transcoder.Handshake.{
  Handshake, HandshakeError, c0c1_sent, need_more_data, receive_s0_s1_s2, process_server_handshake,
}
use rtmp_abr_transcoder.Session.{Session}
use rtmp_abr_transcoder.Net.Socket.{SysResult, returned, read}
use rtmp_abr_transcoder.Client.{RtmpClient}
use rtmp_abr_transcoder.Client.Events.{
  Callbacks, handle_readable, after_handshake, receive_handshake,
}

-- A client that has sent the greeting, and has read the bytes `buffer` of the answer.
abbrev pub waiting : RtmpClient → Session → Handshake → List ℕ → RtmpClient
waiting c s h buffer = record c {
  session = some (record s { handshake = record h { state = c0c1_sent } });
  connected = false;
  read_buffer = buffer;
}

abbrev pub joined : List (List ℕ) → List ℕ
joined [] = []
joined (bytes ∷ reads) = bytes ++ joined reads

-- A read of no bytes is the end of the connection.
abbrev pub IsRead : List ℕ → Type 0
IsRead bytes = 0 < length bytes

suc_not_zero : (n : ℕ) → (suc n == 0) ≡ false
suc_not_zero n = ground arith

bind-some : {A : Type 0} (o : Option A) → (do x ← o; some x) ≡ o
bind-some none = refl
bind-some (some a) = refl

process-waits :
    (h : Handshake) (buffer : List ℕ)
    → length buffer < 3073
    → process_server_handshake buffer (record h { state = c0c1_sent })
      ≡ (err need_more_data, record h { state = c0c1_sent })
unfolding process_server_handshake receive_s0_s1_s2
process-waits h buffer short = rw (lt→ltb (length buffer) 3073 short) refl

module _ {W : Type 0} (callbacks : Callbacks W) (reply : SysResult ℕ) where
  -- handle_readable for each read.
  unfoldable pub receive_all : List (List ℕ) → RtmpClient × W → Option (RtmpClient × W)
  receive_all [] world = some world
  receive_all (bytes ∷ reads) world = do
    world' ← handle_readable callbacks (returned bytes) reply world
    receive_all reads world'

  -- Bytes that are there are put behind the buffer.
  pub handle_readable-waiting :
      (c : RtmpClient) (s : Session) (h : Handshake) (buffer bytes : List ℕ) (w : W)
      → IsRead bytes
      → handle_readable callbacks (returned bytes) reply (waiting c s h buffer, w)
        ≡ receive_handshake callbacks reply (waiting c s h (buffer ++ bytes), w)
  unfolding handle_readable read
  handle_readable-waiting c s h buffer [] w r = absurd (omega (arith, r))
  handle_readable-waiting c s h buffer (b ∷ bytes) w r =
      rw (suc_not_zero (length bytes), handle_readable) refl

  -- A client waits while the answer is not whole.
  receive_handshake-waits :
      (c : RtmpClient) (s : Session) (h : Handshake) (buffer : List ℕ) (w : W)
      → length buffer < 3073
      → receive_handshake callbacks reply (waiting c s h buffer, w) ≡ some (waiting c s h buffer, w)
  unfolding receive_handshake after_handshake
  receive_handshake-waits c s h buffer w short =
      ap
        (λ (r : Result HandshakeError ℕ × Handshake).
          after_handshake callbacks reply (record s { handshake = record h { state = c0c1_sent } })
            r (waiting c s h buffer, w))
        (process-waits h buffer short)

  -- A client that waits for the answer to its greeting ends in the same state, with the same calls
  -- of its callbacks, whether the bytes come in one read or cut into reads in any way, as long as
  -- the reads before the last one do not reach the 3073 bytes of the answer; no read is empty.
  pub receive_all-joined :
      (c : RtmpClient) (s : Session) (h : Handshake) (buffer : List ℕ) (w : W)
      → (reads : List (List ℕ)) (final : List ℕ) → All IsRead reads
      → IsRead final
      → length (buffer ++ joined reads) < 3073
      → receive_all (reads ++ (final ∷ [])) (waiting c s h buffer, w)
        ≡ handle_readable callbacks
            (returned (joined reads ++ final))
            reply
            (waiting c s h buffer, w)
  unfolding receive_all
  receive_all-joined c s h buffer w [] final all f short = bind-some _
  receive_all-joined c s h buffer w (bytes ∷ reads) final (r, all) f short =
      let more = joined reads ++ final in
      rw
        (
          handle_readable-waiting c s h buffer bytes w r,
          receive_handshake-waits c s h (buffer ++ bytes) w (
              omega (
                arith,
                short,
                length-append (buffer ++ bytes) (joined reads),
                ap length (append_assoc buffer bytes (joined reads)),
              )),
        )
        (receive_all-joined c s h (buffer ++ bytes) w reads final all f
            (rw (append_assoc buffer bytes (joined reads)) short)
          ∙ handle_readable-waiting c s h (buffer ++ bytes) more w
              (omega (arith, f, length-append (joined reads) final))
          ∙ ap (λ (xs : List ℕ). receive_handshake callbacks reply (waiting c s h xs, w))
              (append_assoc buffer bytes more)
          ∙ sym (
              handle_readable-waiting c s h buffer (bytes ++ more) w
                (omega (arith, r, length-append bytes more)))
          ∙ ap
              (λ (xs : List ℕ).
                handle_readable callbacks (returned xs) reply (waiting c s h buffer, w))
              (sym (append_assoc bytes (joined reads) final)))
