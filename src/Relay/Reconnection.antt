-- ===== src/Relay/Reconnection.antt =====
-- The counter reconnect_delay_ms of a pusher, which the relay doubles and reads for no wait.
use rtmp_abr_transcoder.Base.{
  ℕ, zero, suc, ◌*◌, ◌%◌, ◌^◌, ◌≤◌, ◌<◌, min, ◌≡◌, ◌∙◌, List, [], ◌∷◌, length, arith, leb, leb→le,
  Bool-cases, inl, inr,
}
use native.Mathlib.Nat.{pow-suc, mul-le-mul_right}
use rtmp_abr_transcoder.Relay.Pusher.{Pusher, handle_pusher_disconnected}

-- One disconnection after the other, each with the client that replaces the last one.
unfoldable pub disconnects : {C : Type 0} → List C → Pusher C → Pusher C
disconnects [] p = p
disconnects (c ∷ cs) p = disconnects cs (handle_pusher_disconnected c p)

pow_pos : (k : ℕ) → 0 < 2 ^ k
pow_pos zero = omega arith
pow_pos (suc k) = omega (arith, pow_pos k, pow-suc 2 k)

double_min :
    (d k : ℕ) → d ≤ 5000 → min (min (d * 2 % 2 ^ 32) 5000 * 2 ^ k) 5000 ≡ min (d * 2 ^ suc k) 5000
double_min d k h =
    let twice : 2 ^ suc k ≡ 2 ^ k * 2 = pow-suc 2 k in
    let whole : d * 2 % 2 ^ 32 ≡ d * 2 = omega arith in
    rw (whole, twice)
      (elim (Bool-cases (leb (d * 2) 5000)) [
        | inl e ↦
            let small : min (d * 2) 5000 ≡ d * 2 = omega (arith, leb→le (d * 2) 5000 e) in
            rw small (omega arith)
        | inr e ↦
            let above : 5000 ≤ d * 2 = ground arith in
            let large : min (d * 2) 5000 ≡ 5000 = omega arith in
            rw large (omega (arith, mul-le-mul_right (2 ^ k) above, pow_pos k))
      ])

-- After any number of disconnections in a row the counter has doubled each time, up to 5 seconds, if
-- it was no longer than that at first.
pub disconnects-delay :
    {C : Type 0} (clients : List C) (p : Pusher C)
    → p.reconnect_delay_ms ≤ 5000
    → (disconnects clients p).reconnect_delay_ms
      ≡ min (p.reconnect_delay_ms * 2 ^ length clients) 5000
unfolding disconnects handle_pusher_disconnected
disconnects-delay [] p h = omega arith
disconnects-delay (c ∷ cs) p h =
    disconnects-delay cs (handle_pusher_disconnected c p) (omega arith)
    ∙ double_min p.reconnect_delay_ms (length cs) h
