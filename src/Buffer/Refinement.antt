-- ===== src/Buffer/Refinement.antt =====
-- The buffer as a queue of bytes.
use rtmp_abr_transcoder.Base.{
  ℕ, zero, suc, ◌+◌, ◌-◌, ◌≤◌, ◌<◌, ◌≡◌, refl, sym, ◌∙◌, ap, min, ◌&&◌, List, ◌++◌, Option, some,
  arith, ltb, leb, ◌==◌, length, take, drop, replicate, length-take, length-drop, length-append,
  take-append_add, take-append, take-append_front, drop-append_front, drop-drop, take-take,
  drop_all, le→leb, lt→leb, Bool-cases, inl, inr, ltb→lt,
}
use rtmp_abr_transcoder.Buffer.{
  Buffer, readable, compact, consume, resize, make_room, store, append,
}

-- The positions are in order and within the elements of the vector.
pub record IsBuffer (b : Buffer) : Type 0 where
  pub ordered : b.read_pos ≤ b.write_pos
  pub within : b.write_pos ≤ b.size
  pub allocated : b.size ≤ length b.storage

-- What the copy needs: room behind the write position.
record HasRoom (len : ℕ) (b b' : Buffer) : Type 0 where
  same : readable b' ≡ readable b
  ordered : b'.read_pos ≤ b'.write_pos
  room : b'.write_pos + len ≤ length b'.storage
  elements : b'.size ≤ length b'.storage
  kept : b.read_pos ≡ 0 → (b'.read_pos ≡ 0) × (b'.write_pos + len ≤ b'.size)

pub length-readable :
    (b : Buffer) → b.write_pos ≤ length b.storage → length (readable b) ≡ b.write_pos - b.read_pos
unfolding readable
length-readable b h =
    omega (
      arith,
      length-drop b.read_pos (take b.write_pos b.storage),
      length-take b.write_pos b.storage,
    )

-- Bytes behind the write position do not matter.
readable_front :
    (b : Buffer) (rest : List ℕ)
    → b.write_pos ≤ b.size
    → b.size ≤ length b.storage
    → take b.write_pos (take b.size b.storage ++ rest) ≡ take b.write_pos b.storage
readable_front b rest w a =
    take-append_front b.write_pos (take b.size b.storage) rest
      (omega (arith, length-take b.size b.storage))
    ∙ take-take b.write_pos b.size b.storage w

compact-readable : (b : Buffer) → IsBuffer b → readable (compact b) ≡ readable b
unfolding compact readable
compact-readable b w = elim (Bool-cases (ltb 0 b.read_pos)) [
  | inl e ↦ rw e (
      take-append (b.write_pos - b.read_pos) (drop b.read_pos (take b.write_pos b.storage)) _ (
        omega (
          arith,
          w.ordered,
          w.within,
          w.allocated,
          length-drop b.read_pos (take b.write_pos b.storage),
          length-take b.write_pos b.storage,
        )))
  | inr e ↦ rw e
]

pub length-replicate {ℓ} : {A : Type ℓ} (n : ℕ) (a : A) → length (replicate n a) ≡ n
length-replicate zero a = refl
length-replicate (suc n) a = omega (arith, length-replicate n a)

compact-HasRoom :
    (len : ℕ) (b : Buffer)
    → IsBuffer b
    → 0 < b.read_pos
    → b.write_pos - b.read_pos + len ≤ length b.storage
    → HasRoom len b (compact b)
unfolding compact
compact-HasRoom len b w pos fits =
    let size = length-append (readable b) (drop (b.write_pos - b.read_pos) b.storage) in
    let size' = length-readable b (omega (arith, w.within, w.allocated)) in
    let size'' = length-drop (b.write_pos - b.read_pos) b.storage in
    let total : length (compact b).storage ≡ length b.storage =
      ground (arith, w.ordered, w.within, w.allocated) in
    record {
      same = compact-readable b w;
      ordered = ground (arith, w.ordered);
      room = ground (arith, total);
      elements = ground (arith, total, w.allocated);
      kept = λ e. absurd (omega arith);
    }

module _ (grow : ℕ → ℕ → ℕ) (memory : ℕ) where
  resize-HasRoom :
      (len : ℕ) (b : Buffer)
      → IsBuffer b
      → b.size < b.write_pos + len
      → HasRoom len b (resize grow memory (b.write_pos + len) b)
  unfolding resize readable
  resize-HasRoom len b w big =
      let n = b.write_pos + len in
      let zeros : length (replicate {A = ℕ} (n - b.size) 0) ≡ n - b.size =
        length-replicate (n - b.size) 0 in
      let front = length-take b.size b.storage in
      elim (Bool-cases (leb n (length b.storage))) [
        | inl e ↦
            let rest : List ℕ = replicate (n - b.size) 0 ++ drop n b.storage in
            let size = length-append (take b.size b.storage) rest in
            let size' = length-append (replicate (n - b.size) 0) (drop n b.storage) in
            let back = length-drop n b.storage in
            let fits : n ≤ length b.storage = ground arith in
            let total : n ≤ length (take b.size b.storage ++ rest) = omega (arith, w.allocated) in
            rw (resize, lt→leb n b.size big, e)
              (record {
                same = ap (drop b.read_pos) (readable_front b rest w.within w.allocated);
                ordered = w.ordered;
                room = total;
                elements = total;
                kept = λ z. (z, omega arith);
              })
        | inr e ↦
            let rest : List ℕ =
              replicate (n - b.size) 0 ++ replicate (grow (length b.storage) n - n) memory in
            let size = length-append (take b.size b.storage) rest in
            let size' =
              length-append (replicate (n - b.size) 0)
                (replicate (grow (length b.storage) n - n) memory) in
            let total : n ≤ length (take b.size b.storage ++ rest) = omega (arith, w.allocated) in
            rw (resize, lt→leb n b.size big, e)
              (record {
                same = ap (drop b.read_pos) (readable_front b rest w.within w.allocated);
                ordered = w.ordered;
                room = total;
                elements = total;
                kept = λ z. (z, omega arith);
              })
      ]

  make_room-HasRoom :
      (len : ℕ) (b : Buffer) → IsBuffer b → HasRoom len b (make_room grow memory len b)
  unfolding make_room
  make_room-HasRoom len b w = elim (Bool-cases (ltb b.size (b.write_pos + len))) [
    | inl e ↦
        let big = ltb→lt b.size (b.write_pos + len) e in
        elim (Bool-cases
          (ltb 0 b.read_pos && leb (b.write_pos - b.read_pos + len) (length b.storage))) [
            | inl f ↦ rw (make_room, e, f) (compact-HasRoom len b w (ground arith) (ground arith))
            | inr f ↦ rw (make_room, e, f) (resize-HasRoom len b w big)
          ]
    | inr e ↦
        rw (make_room, e)
          (record {
            same = refl;
            ordered = w.ordered;
            room = ground (arith, w.allocated);
            elements = w.allocated;
            kept = λ z. (z, ground arith);
          })
  ]

  -- The buffer after an append: defined, and a queue with the bytes at its end.
  pub record Appended (bytes : List ℕ) (b : Buffer) (r : Option Buffer) : Type 0 where
    pub after : Buffer
    pub defined : r ≡ some after
    pub contents : readable after ≡ readable b ++ bytes
    pub valid : b.read_pos ≡ 0 → (after.read_pos ≡ 0) × IsBuffer after

  store-Appended :
      (bytes : List ℕ) (b b' : Buffer)
      → HasRoom (length bytes) b b'
      → Appended bytes b (store grow memory bytes b')
  unfolding store readable
  store-Appended bytes b b' h =
      let end = b'.write_pos + length bytes in
      let front = length-take b'.write_pos b'.storage in
      let size = length-append (take b'.write_pos b'.storage) (bytes ++ drop end b'.storage) in
      let size' = length-append bytes (drop end b'.storage) in
      let back = length-drop end b'.storage in
      let room = h.room in
      rw (store, le→leb end (length b'.storage) h.room)
        (record {
          after = _;
          defined = refl;
          contents =
              rw
                (
                  take-append_add end (length bytes) (take b'.write_pos b'.storage)
                      (bytes ++ drop end b'.storage) (omega arith),
                  take-append (length bytes) bytes (drop end b'.storage) refl,
                  drop-append_front b'.read_pos (take b'.write_pos b'.storage) bytes
                      (omega (arith, h.ordered)),
                )
                (ap (λ (xs : List ℕ). xs ++ bytes) h.same);
          valid = λ z. (
            (h.kept z).0,
            record {
              ordered = omega (arith, h.ordered);
              within = omega (arith, (h.kept z).1);
              allocated = omega (arith, h.elements);
            },
          );
        })

  -- An append to a buffer whose positions are in order and within its elements never writes
  -- outside the memory of the vector, and the bytes that can be read afterwards are those from
  -- before and the new ones behind them. If the buffer was read from its start, the positions stay
  -- in order and within the elements.
  pub append-Appended :
      (bytes : List ℕ) (b : Buffer) → IsBuffer b → Appended bytes b (append grow memory bytes b)
  unfolding append
  append-Appended bytes b w =
      store-Appended bytes b (make_room grow memory (length bytes) b)
        (make_room-HasRoom (length bytes) b w)

-- Reading from a buffer whose positions are in order and within its elements takes bytes from the
-- front of what can be read, all of them if fewer are left, and leaves the positions in order and
-- within the elements.
pub consume-readable :
    (n : ℕ) (b : Buffer)
    → IsBuffer b
    → (readable (consume n b) ≡ drop n (readable b)) × IsBuffer (consume n b)
unfolding consume readable
consume-readable n b w =
    let taken = min n (b.write_pos - b.read_pos) in
    elim (Bool-cases (b.read_pos + taken == b.write_pos)) [
      | inl e ↦
          let all : b.write_pos - b.read_pos ≤ n = ground (arith, w.ordered) in
          rw e (
            sym (
                drop_all n (readable b)
                  (omega (arith, length-readable b (omega (arith, w.within, w.allocated))))),
            record { ordered = omega arith; within = omega arith; allocated = w.allocated },
          )
      | inr e ↦
          let some_left : taken ≡ n = ground (arith, w.ordered) in
          rw (e, some_left)
            (
              sym (drop-drop n b.read_pos (b.read_pos + n) (take b.write_pos b.storage) refl),
              record {
                ordered = ground (arith, w.ordered);
                within = w.within;
                allocated = w.allocated;
              },
            )
    ]
