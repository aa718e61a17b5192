-- ===== src/Handshake.antt =====
-- include/rtmp/rtmp_handshake.hpp and src/rtmp/rtmp_handshake.cpp. `random` gives the numbers that
-- the generator of the standard library draws. A `memcpy` from a span that is too short reads out
-- of bounds, and is `none`.
pub mod Protocol
mod Tests
use rtmp_abr_transcoder.Base.{
  ℕ, zero, suc, ◌+◌, not, List, [], ◌∷◌, ◌++◌, Option, none, some, Result, ok, err, ltb, leb, ◌==◌,
  if◌then◌else◌, length, take, drop, replicate,
}
use rtmp_abr_transcoder.Base.Bits.{low_bits}
use rtmp_abr_transcoder.Bytes.{byte_at}

pub data State : Type 0 where
  uninitialized c0c1_sent s0s1s2_sent c2_sent done : State

pub record Handshake : Type 0 where
  pub state : State
  pub c1_data : List ℕ
  pub s1_data : List ℕ

-- The errors of the two process functions.
pub data HandshakeError : Type 0 where
  not_enough_c0c1 invalid_version not_enough_c2 invalid_state : HandshakeError
  need_more_data invalid_server_version invalid_handshake_state : HandshakeError

abbrev pub new_handshake : Handshake
new_handshake = record { state = uninitialized; c1_data = []; s1_data = [] }

-- The loop that fills bytes with random numbers.
unfoldable pub draws : ℕ → (ℕ → ℕ) → List ℕ
draws zero random = []
draws (suc n) random = low_bits (random 0) 8 ∷ draws n (λ i. random (suc i))

-- The block that each side sends first: a time of 0, four zero bytes and random bytes.
unfoldable pub random_block : (ℕ → ℕ) → List ℕ
random_block random = replicate 8 0 ++ draws 1528 random

unfoldable pub generate_c0_c1 : (ℕ → ℕ) → Handshake → List ℕ × Handshake
generate_c0_c1 random h =
    let data' : List ℕ = 3 ∷ random_block random in
    (data', record h { c1_data = drop 1 data'; state = c0c1_sent })

unfoldable pub generate_s0_s1_s2 : (ℕ → ℕ) → List ℕ → Handshake → Option (List ℕ × Handshake)
generate_s0_s1_s2 random c1 h =
    let s1 : List ℕ = random_block random in
    if ltb (length c1) 1536
    then none
    else some (3 ∷ (s1 ++ take 1536 c1), record h { s1_data = s1; state = s0s1s2_sent })

unfoldable pub generate_c2 : List ℕ → Handshake → Option (List ℕ × Handshake)
generate_c2 s1 h =
    if ltb (length s1) 1536 then none else some (take 1536 s1, record h { state = done })

-- The two branches of process_client_handshake that read bytes.
unfoldable pub receive_c0_c1 : List ℕ → Handshake → Result HandshakeError ℕ × Handshake
receive_c0_c1 data' h =
    let c1 : List ℕ = take 1536 (drop 1 data') in
    if ltb (length data') 1537
    then (err not_enough_c0c1, h)
    else if not (byte_at data' 0 == 3)
    then (err invalid_version, h)
    else if leb (1537 + 1536) (length data')
    then (ok (1537 + 1536), record h { c1_data = c1; state = done })
    else (ok 1537, record h { c1_data = c1; state = s0s1s2_sent })

unfoldable pub receive_c2 : List ℕ → Handshake → Result HandshakeError ℕ × Handshake
receive_c2 data' h =
    if ltb (length data') 1536 then (err not_enough_c2, h) else (ok 1536, record h { state = done })

-- The result of the call, and the object after it.
unfoldable pub process_client_handshake : List ℕ → Handshake → Result HandshakeError ℕ × Handshake
process_client_handshake data' h = elim h.state [
  | uninitialized ↦ receive_c0_c1 data' h
  | s0s1s2_sent ↦ receive_c2 data' h
  | _ ↦ (err invalid_state, h)
]

unfoldable pub receive_s0_s1_s2 : List ℕ → Handshake → Result HandshakeError ℕ × Handshake
receive_s0_s1_s2 data' h =
    if ltb (length data') 3073
    then (err need_more_data, h)
    else if not (byte_at data' 0 == 3)
    then (err invalid_server_version, h)
    else (ok 3073, record h { s1_data = take 1536 (drop 1 data'); state = done })

unfoldable pub process_server_handshake : List ℕ → Handshake → Result HandshakeError ℕ × Handshake
process_server_handshake data' h = elim h.state [
  | c0c1_sent ↦ receive_s0_s1_s2 data' h
  | _ ↦ (err invalid_handshake_state, h)
]
