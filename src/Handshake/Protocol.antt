-- ===== src/Handshake/Protocol.antt =====
-- The handshake of a client with a server, and what a server accepts.
use rtmp_abr_transcoder.Base.{
  ℕ, zero, suc, ◌+◌, ◌≡◌, refl, ap, List, [], ◌∷◌, ◌++◌, some, Result, ok, err, arith, ltb, leb,
  ◌==◌, length, drop, length-append, length-take, length-drop, take_all, take-append, ltb→le,
  le→ltb, lt→leb, Bool-cases, inl, inr,
}
use rtmp_abr_transcoder.Bytes.{byte_at}
use rtmp_abr_transcoder.Handshake.{
  State, uninitialized, c0c1_sent, s0s1s2_sent, c2_sent, done, Handshake, HandshakeError,
  new_handshake, draws, random_block, generate_c0_c1, generate_s0_s1_s2, generate_c2, receive_c0_c1,
  receive_c2, process_client_handshake, receive_s0_s1_s2, process_server_handshake,
}

length-draws : (n : ℕ) (random : ℕ → ℕ) → length (draws n random) ≡ n
unfolding draws
length-draws zero random = refl
length-draws (suc n) random = ap suc (length-draws n (λ i. random (suc i)))

-- A block has the 1536 bytes of the protocol.
pub length-random_block : (random : ℕ → ℕ) → length (random_block random) ≡ 1536
unfolding random_block
length-random_block random = omega (arith, length-draws 1528 random)

pub receive_c0_c1-block :
    (c1 : List ℕ) (h : Handshake)
    → length c1 ≡ 1536
    → receive_c0_c1 (3 ∷ c1) h ≡ (ok 1537, record h { c1_data = c1; state = s0s1s2_sent })
unfolding receive_c0_c1
receive_c0_c1-block c1 h e =
    rw
      (
        le→ltb (suc (length c1)) 1537 (omega arith),
        lt→leb 3073 (suc (length c1)) (omega arith),
        take_all 1536 c1 (omega arith),
      )
      refl

receive_s0_s1_s2-blocks :
    (s1 s2 : List ℕ) (h : Handshake)
    → length s1 ≡ 1536
    → length s2 ≡ 1536
    → receive_s0_s1_s2 (3 ∷ (s1 ++ s2)) h ≡ (ok 3073, record h { s1_data = s1; state = done })
unfolding receive_s0_s1_s2
receive_s0_s1_s2-blocks s1 s2 h e e' =
    rw
      (
        le→ltb (suc (length (s1 ++ s2))) 3073 (omega (arith, length-append s1 s2)),
        take-append 1536 s1 s2 (omega arith),
      )
      refl

-- What client and server hold when the handshake is over.
pub record Established (c1 s1 : List ℕ) (client server : Handshake) : Type 0 where
  pub client_done : client.state ≡ done
  pub server_done : server.state ≡ done
  pub client_c1 : client.c1_data ≡ c1
  pub client_s1 : client.s1_data ≡ s1
  pub server_c1 : server.c1_data ≡ c1
  pub server_s1 : server.s1_data ≡ s1

-- A client and a server that send each other what they generate complete the handshake, whatever
-- random bytes they draw: each message is accepted whole, nothing reads out of bounds, the server
-- echoes the random block of the client and the client that of the server, and both sides hold
-- both blocks.
pub handshake-Established :
    (client_random server_random : ℕ → ℕ)
    → let (c0c1, client) = generate_c0_c1 client_random new_handshake in
      let c1 = random_block client_random in
      let s1 = random_block server_random in
      (server server' server'' client' client'' : Handshake) × (process_client_handshake c0c1
          new_handshake
        ≡ (ok 1537, server))
      × (generate_s0_s1_s2 server_random (drop 1 c0c1) server ≡ some (3 ∷ (s1 ++ c1), server'))
      × (process_server_handshake (3 ∷ (s1 ++ c1)) client ≡ (ok 3073, client'))
      × (generate_c2 client'.s1_data client' ≡ some (s1, client''))
      × (process_client_handshake s1 server' ≡ (ok 1536, server''))
      × Established c1 s1 client'' server''
unfolding generate_c0_c1 generate_s0_s1_s2 generate_c2 process_client_handshake receive_c2
    process_server_handshake
handshake-Established client_random server_random =
    let c1 = random_block client_random in
    let s1 = random_block server_random in
    let e = length-random_block client_random in
    let e' = length-random_block server_random in
    let server = record new_handshake { c1_data = c1; state = s0s1s2_sent } in
    let server' = record server { s1_data = s1 } in
    let client : Handshake = record new_handshake { c1_data = c1; state = c0c1_sent } in
    let client' = record client { s1_data = s1; state = done } in
    (
      server,
      server',
      record server' { state = done },
      client',
      client',
      receive_c0_c1-block c1 new_handshake e,
      rw (le→ltb (length c1) 1536 (omega arith), take_all 1536 c1 (omega arith)) refl,
      receive_s0_s1_s2-blocks s1 c1 client e' e,
      rw (le→ltb (length s1) 1536 (omega arith), take_all 1536 s1 (omega arith)) refl,
      rw (le→ltb (length s1) 1536 (omega arith)) refl,
      record {
        client_done = refl;
        server_done = refl;
        client_c1 = refl;
        client_s1 = refl;
        server_c1 = refl;
        server_s1 = refl;
      },
    )

-- The reads that a server has passed to process_client_handshake, and the bytes that the accepted
-- ones consumed.
abbrev add_consumed : Result HandshakeError ℕ → ℕ → ℕ
add_consumed (ok n) total = n + total
add_consumed (err e) total = total

pub serve : List (List ℕ) → Handshake → ℕ → Handshake × ℕ
serve [] h total = (h, total)
serve (data' ∷ reads) h total =
    let (r, h') = process_client_handshake data' h in serve reads h' (add_consumed r total)

-- What a server in each state has consumed, and the length of the client block that it holds.
abbrev pub HasConsumed : State → ℕ → ℕ → Type 0
HasConsumed uninitialized c1 total = total ≡ 0
HasConsumed s0s1s2_sent c1 total = (total ≡ 1537) × (c1 ≡ 1536)
HasConsumed done c1 total = (total ≡ 3073) × (c1 ≡ 1536)
HasConsumed c0c1_sent c1 total = ⊥
HasConsumed c2_sent c1 total = ⊥

abbrev IsServing : ℕ → Result HandshakeError ℕ × Handshake → Type 0
IsServing total (r, h) = HasConsumed h.state (length h.c1_data) (add_consumed r total)

receive_c0_c1-IsServing :
    (data' c1 s1 : List ℕ)
    → IsServing 0
        (receive_c0_c1 data' (record { state = uninitialized; c1_data = c1; s1_data = s1 }))
unfolding receive_c0_c1
receive_c0_c1-IsServing data' c1 s1 =
    let size = length-take 1536 (drop 1 data') in
    let size' = length-drop 1 data' in
    elim (Bool-cases (ltb (length data') 1537)) [
      | inl e ↦ rw e refl
      | inr e ↦
          let long = ltb→le (length data') 1537 e in
          elim (Bool-cases (byte_at data' 0 == 3)) [
            | inr f ↦ rw (e, f) refl
            | inl f ↦ elim (Bool-cases (leb 3073 (length data'))) [
              | inl g ↦ rw (e, f, g) (refl, omega arith)
              | inr g ↦ rw (e, f, g) (refl, omega arith)
            ]
          ]
    ]

receive_c2-IsServing :
    (data' c1 s1 : List ℕ)
    → length c1 ≡ 1536
    → IsServing 1537 (receive_c2 data' (record { state = s0s1s2_sent; c1_data = c1; s1_data = s1 }))
unfolding receive_c2
receive_c2-IsServing data' c1 s1 l = elim (Bool-cases (ltb (length data') 1536)) [
  | inl e ↦ rw e (refl, l)
  | inr e ↦ rw e (refl, l)
]

process-IsServing :
    (data' : List ℕ) (st : State) (c1 s1 : List ℕ) (total : ℕ)
    → HasConsumed st (length c1) total
    → IsServing total
        (process_client_handshake data' (record { state = st; c1_data = c1; s1_data = s1 }))
unfolding process_client_handshake
process-IsServing data' uninitialized c1 s1 total e = rw e (receive_c0_c1-IsServing data' c1 s1)
process-IsServing data' s0s1s2_sent c1 s1 total (e, l) = rw e (receive_c2-IsServing data' c1 s1 l)
process-IsServing data' done c1 s1 total (e, l) = (e, l)
process-IsServing data' c0c1_sent c1 s1 total e = absurd e
process-IsServing data' c2_sent c1 s1 total e = absurd e

serve-invariant :
    (reads : List (List ℕ)) (h : Handshake) (total : ℕ)
    → HasConsumed h.state (length h.c1_data) total
    → let (h', total') = serve reads h total in HasConsumed h'.state (length h'.c1_data) total'
unfolding serve
serve-invariant [] h total w = w
serve-invariant (data' ∷ reads) h total w =
    let (r, h') = process_client_handshake data' h in
    serve-invariant reads h' (add_consumed r total)
      (process-IsServing data' h.state h.c1_data h.s1_data total w)

-- Whatever a server reads, and however its bytes are cut into reads, it has consumed nothing while
-- it waits for the greeting, just 1537 bytes once it has answered them and just 3073 bytes when it
-- is done, it is in no other state, and a client block that it has accepted has 1536 bytes.
pub serve-HasConsumed :
    (reads : List (List ℕ))
    → let (h, total) = serve reads new_handshake 0 in HasConsumed h.state (length h.c1_data) total
serve-HasConsumed reads = serve-invariant reads new_handshake 0 refl
