-- ===== src/Buffer/Tests.antt =====
-- Runs of the buffer, and the theorems at concrete inputs.
use rtmp_abr_transcoder.Base.{
  ℕ, max, ◌*◌, List, [], ◌∷◌, ◌≡◌, refl, Option, none, some, arith, drop,
}
use rtmp_abr_transcoder.Buffer.{
  Buffer, new_buffer, readable, compact, consume, resize, make_room, store, append,
}
use rtmp_abr_transcoder.Buffer.Refinement.{IsBuffer, Appended, append-Appended, consume-readable}

-- A vector that doubles.
abbrev doubled : ℕ → ℕ → ℕ
doubled capacity n = max (2 * capacity) n

abbrev put : List ℕ → Option Buffer → Option Buffer
put bytes none = none
put bytes (some b) = append doubled 0 bytes b

abbrev read_one : Option Buffer → Option Buffer
read_one none = none
read_one (some b) = some (consume 1 b)

abbrev contents : Option Buffer → List ℕ
contents none = []
contents (some b) = readable b

-- After a compaction the byte 5 stands behind the elements, and the next allocation drops it.
append_loses_a_byte :
    contents (
      put
        (6 ∷ [])
        (put (4 ∷ 5 ∷ []) (read_one (put (3 ∷ []) (put (1 ∷ 2 ∷ []) (some new_buffer))))))
    ≡ 2 ∷ 3 ∷ 4 ∷ 0 ∷ 6 ∷ []
unfolding new_buffer readable compact consume resize make_room store append
append_loses_a_byte = refl

abbrev two_bytes : Buffer
two_bytes = record { storage = 1 ∷ 2 ∷ 0 ∷ []; size = 2; read_pos = 0; write_pos = 2 }

two_bytes-IsBuffer : IsBuffer two_bytes
two_bytes-IsBuffer = record { ordered = omega arith; within = omega arith; allocated = omega arith }

append-Appended_example :
    Appended doubled 0 (7 ∷ 8 ∷ []) two_bytes (append doubled 0 (7 ∷ 8 ∷ []) two_bytes)
append-Appended_example = append-Appended doubled 0 (7 ∷ 8 ∷ []) two_bytes two_bytes-IsBuffer

consume-readable_example : readable (consume 1 two_bytes) ≡ drop 1 (readable two_bytes)
consume-readable_example = (consume-readable 1 two_bytes two_bytes-IsBuffer).0
