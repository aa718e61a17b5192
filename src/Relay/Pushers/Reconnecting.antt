-- ===== src/Relay/Pushers/Reconnecting.antt =====
-- The disconnections of a pusher in a row: handle_pusher_disconnected of src/relay/relay_manager.cpp.
use rtmp_abr_transcoder.Base.{
  ℕ, zero, suc, ◌*◌, ◌^◌, ◌≤◌, min, ◌≡◌, refl, ap, ◌∙◌, false, List, some, replicate,
}
use rtmp_abr_transcoder.Buffer.Refinement.{length-replicate}
use rtmp_abr_transcoder.Relay.Pusher.{Pusher, handle_pusher_disconnected}
use rtmp_abr_transcoder.Relay.Reconnection.{disconnects, disconnects-delay}
use rtmp_abr_transcoder.Relay.Pushers.{Connector, Settings, push_address, reconnect_pusher}

-- What a pusher keeps and what it is, once its client is `c` after a disconnection.
record Renewed {C : Type 0} (c : C) (p p' : Pusher C) : Type 0 where
  client : p'.client ≡ c
  connected : p'.connected ≡ false
  publishing : p'.publishing ≡ false
  buffer : p'.buffer ≡ p.buffer
  pending_bytes : p'.pending_bytes ≡ p.pending_bytes

disconnects-Renewed :
    {C : Type 0} (c : C) (n : ℕ) (p : Pusher C) → Renewed c p (disconnects (replicate (suc n) c) p)
unfolding disconnects handle_pusher_disconnected
disconnects-Renewed c zero p = record {
  client = refl;
  connected = refl;
  publishing = refl;
  buffer = refl;
  pending_bytes = refl;
}
disconnects-Renewed c (suc n) p =
    let r = disconnects-Renewed c n (handle_pusher_disconnected c p) in
    record {
      client = r.client;
      connected = r.connected;
      publishing = r.publishing;
      buffer = r.buffer;
      pending_bytes = r.pending_bytes;
    }

module _ {C : Type 0} (api : Connector C) (settings : Settings) where
  -- The callback of a disconnection, a number of times.
  unfoldable pub reconnects : ℕ → Pusher C → Pusher C
  reconnects zero p = p
  reconnects (suc n) p = reconnects n (reconnect_pusher api settings p)

  reconnects-disconnects :
      (n : ℕ) (p : Pusher C) (host : List ℕ) (port : ℕ)
      → push_address settings p.stream_id ≡ some (host, port)
      → reconnects n p ≡ disconnects (replicate n (api.connect host port api.fresh_client)) p
  unfolding reconnects disconnects reconnect_pusher handle_pusher_disconnected
  reconnects-disconnects zero p host port e = refl
  reconnects-disconnects (suc n) p host port e =
      let q = handle_pusher_disconnected (api.connect host port api.fresh_client) p in
      let first : reconnect_pusher api settings p ≡ q = rw (reconnect_pusher, e) refl in
      ap (λ (x : Pusher C). reconnects n x) first ∙ reconnects-disconnects n q host port e

  -- A pusher under a push URL whose address is found, with a counter reconnect_delay_ms of at most
  -- 5000, is disconnected one or more times in a row. At the end its client is a new one, on which
  -- the last callback has called connect() to the address, whatever the counter was, and nothing
  -- else; the counter has doubled each time, up to 5000; the pusher is neither connected nor
  -- publishing, and holds and counts what it did before.
  pub reconnects-connect :
      (n : ℕ) (p : Pusher C) (host : List ℕ) (port : ℕ)
      → p.reconnect_delay_ms ≤ 5000
      → push_address settings p.stream_id ≡ some (host, port)
      → let p' = reconnects (suc n) p in
        (p'.client ≡ api.connect host port api.fresh_client)
        × (p'.reconnect_delay_ms ≡ min (p.reconnect_delay_ms * 2 ^ suc n) 5000)
        × (p'.connected ≡ false)
        × (p'.publishing ≡ false)
        × (p'.buffer ≡ p.buffer)
        × (p'.pending_bytes ≡ p.pending_bytes)
  reconnects-connect n p host port small e =
      let c = api.connect host port api.fresh_client in
      let r = disconnects-Renewed c n p in
      rw (reconnects-disconnects (suc n) p host port e) (
        r.client,
        disconnects-delay (replicate (suc n) c) p small
            ∙ ap (λ (k : ℕ). min (p.reconnect_delay_ms * 2 ^ k) 5000) (length-replicate (suc n) c),
        r.connected,
        r.publishing,
        r.buffer,
        r.pending_bytes,
      )
