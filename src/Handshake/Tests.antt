-- ===== src/Handshake/Tests.antt =====
-- The theorems on the handshake at concrete inputs.
use rtmp_abr_transcoder.Base.{ℕ, ◌≡◌, ◌++◌, [], ◌∷◌, some, ok, length, drop}
use rtmp_abr_transcoder.Handshake.{
  Handshake, new_handshake, random_block, generate_c0_c1, generate_s0_s1_s2, generate_c2,
  process_client_handshake, process_server_handshake,
}
use rtmp_abr_transcoder.Handshake.Protocol.{
  Established, handshake-Established, serve, HasConsumed, serve-HasConsumed,
}

abbrev counting : ℕ → ℕ
counting i = i

abbrev sevens : ℕ → ℕ
sevens i = 7

handshake-Established_example :
    let (c0c1, client) = generate_c0_c1 counting new_handshake in
    let c1 = random_block counting in
    let s1 = random_block sevens in
    (server server' server'' client' client'' : Handshake) × (process_client_handshake c0c1
        new_handshake
      ≡ (ok 1537, server))
    × (generate_s0_s1_s2 sevens (drop 1 c0c1) server ≡ some (3 ∷ (s1 ++ c1), server'))
    × (process_server_handshake (3 ∷ (s1 ++ c1)) client ≡ (ok 3073, client'))
    × (generate_c2 client'.s1_data client' ≡ some (s1, client''))
    × (process_client_handshake s1 server' ≡ (ok 1536, server''))
    × Established c1 s1 client'' server''
handshake-Established_example = handshake-Established counting sevens

-- An empty read and one that is too short.
serve-HasConsumed_example :
    let (h, total) = serve ([] ∷ (3 ∷ 0 ∷ []) ∷ []) new_handshake 0 in
    HasConsumed h.state (length h.c1_data) total
serve-HasConsumed_example = serve-HasConsumed ([] ∷ (3 ∷ 0 ∷ []) ∷ [])
