-- ===== src/Client/Actions.antt =====
-- A client whose messages and commands are sent in any order with the writes that take them.
use rtmp_abr_transcoder.Base.{ℕ, ◌≡◌, refl, List, [], ◌∷◌, ◌++◌, Option, some}
use rtmp_abr_transcoder.Base.Options.{◌>>=◌}
use rtmp_abr_transcoder.Messages.Control.{Message}
use rtmp_abr_transcoder.Commands.{CommandMessage, encode_command}
use rtmp_abr_transcoder.Session.{header_of}
use rtmp_abr_transcoder.Net.Socket.{SysResult}
use rtmp_abr_transcoder.Client.{RtmpClient, send_message, send_command, flush}
use rtmp_abr_transcoder.Client.Events.{Callbacks, handle_writable}
use rtmp_abr_transcoder.Client.Stream.{
  stream, IsSending, Adds-Adds, same_stream, flush-Adds, accepted,
}
use rtmp_abr_transcoder.Client.Writes.{Writes, handle_writable-Writes}
use rtmp_abr_transcoder.Client.Sending.{
  chunks_of, command_header, send_message-Performs, send_command-Performs,
}

-- What a user of the client and the event loop do: a flush with any result of the system, and an
-- EPOLLOUT whose write does not fail.
pub data Action : Type 0 where
  sends : Message → Action
  commands : CommandMessage → ℕ → Action
  flushes : SysResult ℕ → Action
  writable : Option ℕ → Action

-- The bytes that an action adds to the stream.
abbrev pub bytes_of : ℕ → Action → List ℕ
bytes_of n (sends msg) = chunks_of n (header_of msg) msg.payload
bytes_of n (commands cmd csid) = chunks_of n (command_header cmd csid) (encode_command cmd)
bytes_of n (flushes r) = []
bytes_of n (writable o) = []

abbrev pub all_bytes : ℕ → List Action → List ℕ
all_bytes n [] = []
all_bytes n (a ∷ actions) = bytes_of n a ++ all_bytes n actions

module _ {W : Type 0} (callbacks : Callbacks W) (grow : ℕ → ℕ → ℕ) (memory : ℕ) where
  -- perform: the actions as the code runs them.
  unfoldable pub perform : Action → RtmpClient × W → Option (RtmpClient × W)
  perform (sends msg) (c, w) = do c' ← send_message grow memory msg c; some (c', w)
  perform (commands cmd csid) (c, w) = do c' ← send_command grow memory cmd csid c; some (c', w)
  perform (flushes r) (c, w) = some (flush r c, w)
  perform (writable o) world = handle_writable callbacks (accepted o) world

  unfoldable pub perform_all : List Action → RtmpClient × W → Option (RtmpClient × W)
  perform_all [] world = some world
  perform_all (a ∷ actions) world = do world' ← perform a world; perform_all actions world'

  perform-Writes :
      (n : ℕ) (a : Action) (c : RtmpClient) (w : W)
      → IsSending n c
      → Writes callbacks n (bytes_of n a) c w (perform a (c, w))
  unfolding perform
  perform-Writes n (sends msg) c w i =
      let p = send_message-Performs grow memory n msg c i in
      record { after = p.after; defined = rw p.defined refl; adds = p.adds }
  perform-Writes n (commands cmd csid) c w i =
      let p = send_command-Performs grow memory n cmd csid c i in
      record { after = p.after; defined = rw p.defined refl; adds = p.adds }
  perform-Writes n (flushes r) c w i = record {
    after = flush r c;
    defined = refl;
    adds = flush-Adds n r c i;
  }
  perform-Writes n (writable o) c w i = handle_writable-Writes callbacks n o c w i

  perform_all-Writes :
      (n : ℕ) (actions : List Action) (c : RtmpClient) (w : W)
      → IsSending n c
      → Writes callbacks n (all_bytes n actions) c w (perform_all actions (c, w))
  unfolding perform_all
  perform_all-Writes n [] c w i = record { after = c; defined = refl; adds = same_stream n c i }
  perform_all-Writes n (a ∷ actions) c w i =
      let first = perform-Writes n a c w i in
      let others = perform_all-Writes n actions first.after w first.adds.sending in
      record {
        after = others.after;
        defined = rw first.defined others.defined;
        adds =
            Adds-Adds n (bytes_of n a) (all_bytes n actions) c first.after others.after first.adds
              others.adds;
      }

  -- Messages and commands that are sent on a client, with flushes that the system answers in any
  -- way and writes of the event loop that do not fail between them, go into one stream: what the
  -- system has taken, what the write buffer holds and what the session holds are, one behind the
  -- other, what they were before and the chunks of the new messages and commands in order. No byte
  -- is lost, repeated or moved, however few bytes each write takes, and no call runs into an
  -- encoder that does not end or a write outside the memory of the buffer. The session of the
  -- client can send.
  pub perform_all-stream :
      (n : ℕ) (actions : List Action) (c : RtmpClient) (w : W)
      → IsSending n c
      → (c' : RtmpClient) × (perform_all actions (c, w) ≡ some (c', w))
        × (stream c' ≡ stream c ++ all_bytes n actions)
  perform_all-stream n actions c w i =
      let r = perform_all-Writes n actions c w i in (r.after, r.defined, r.adds.contents)
