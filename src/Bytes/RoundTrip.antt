-- ===== src/Bytes/RoundTrip.antt =====
-- What is written is read back, modulo the width; the values of the readers in plain arithmetic.
use rtmp_abr_transcoder.Base.{ℕ, ◌+◌, ◌*◌, ◌^◌, ◌≡◌, ◌∙◌, List, ◌∷◌, ◌++◌, arith, bit_or}
use rtmp_abr_transcoder.Base.Bits.{low_bits, shr, IsByte, bit_or-add, bit_or-add_low}
use rtmp_abr_transcoder.Bytes.{
  read_u16_be, read_u24_be, read_u32_be, read_u32_le, read_f64_be, write_u16_be, write_u24_be,
  write_u32_be, write_u32_le, write_f64_be,
}

pub read_u16_be_value :
    (a b : ℕ) (rest : List ℕ) → IsByte b → read_u16_be (a ∷ b ∷ rest) ≡ a * 256 + b
unfolding read_u16_be
read_u16_be_value a b rest hb = bit_or-add 8 a (a * 256) b (omega arith) hb

pub read_u24_be_value :
    (a b c : ℕ) (rest : List ℕ)
    → IsByte b
    → IsByte c
    → read_u24_be (a ∷ b ∷ c ∷ rest) ≡ a * 65536 + b * 256 + c
unfolding read_u24_be
read_u24_be_value a b c rest hb hc =
    rw (bit_or-add 16 a (a * 65536) (b * 256) (omega arith) (omega arith))
      (bit_or-add 8 (a * 256 + b) _ c (omega arith) hc)

pub read_u32_be_value :
    (a b c d : ℕ) (rest : List ℕ)
    → IsByte b
    → IsByte c
    → IsByte d
    → read_u32_be (a ∷ b ∷ c ∷ d ∷ rest) ≡ a * 2 ^ 24 + b * 65536 + c * 256 + d
unfolding read_u32_be
read_u32_be_value a b c d rest hb hc hd =
    rw (bit_or-add 24 a (a * 2 ^ 24) (b * 65536) (omega arith) (omega arith)) (
      rw
        (bit_or-add 16 (a * 256 + b) (a * 2 ^ 24 + b * 65536) (c * 256) (omega arith) (omega arith))
        (bit_or-add 8 (a * 65536 + b * 256 + c) _ d (omega arith) hd))

pub read_u32_le_value :
    (a b c d : ℕ) (rest : List ℕ)
    → IsByte a
    → IsByte b
    → IsByte c
    → read_u32_le (a ∷ b ∷ c ∷ d ∷ rest) ≡ a + b * 256 + c * 65536 + d * 2 ^ 24
unfolding read_u32_le
read_u32_le_value a b c d rest ha hb hc = rw (bit_or-add_low 8 b a (b * 256) (omega arith) ha) (
    rw (bit_or-add_low 16 c (a + b * 256) (c * 65536) (omega arith) (omega arith))
      (bit_or-add_low 24 d (a + b * 256 + c * 65536) (d * 2 ^ 24) (omega arith) (omega arith)))

pub read_u16_be-write_u16_be :
    (v : ℕ) (rest : List ℕ) → read_u16_be (write_u16_be v ++ rest) ≡ low_bits v 16
unfolding write_u16_be
read_u16_be-write_u16_be v rest =
    rw (read_u16_be_value (low_bits (shr v 8) 8) (low_bits v 8) rest (omega arith)) (omega arith)

pub read_u24_be-write_u24_be :
    (v : ℕ) (rest : List ℕ) → read_u24_be (write_u24_be v ++ rest) ≡ low_bits v 24
unfolding write_u24_be
read_u24_be-write_u24_be v rest =
    rw
      (read_u24_be_value (low_bits (shr v 16) 8) (low_bits (shr v 8) 8) (low_bits v 8) rest
        (omega arith) (omega arith))
      (omega arith)

pub read_u32_be-write_u32_be :
    (v : ℕ) (rest : List ℕ) → read_u32_be (write_u32_be v ++ rest) ≡ low_bits v 32
unfolding write_u32_be
read_u32_be-write_u32_be v rest =
    rw
      (read_u32_be_value (low_bits (shr v 24) 8) (low_bits (shr v 16) 8) (low_bits (shr v 8) 8)
        (low_bits v 8) rest (omega arith) (omega arith) (omega arith))
      (omega arith)

pub read_u32_le-write_u32_le :
    (v : ℕ) (rest : List ℕ) → read_u32_le (write_u32_le v ++ rest) ≡ low_bits v 32
unfolding write_u32_le
read_u32_le-write_u32_le v rest =
    rw
      (read_u32_le_value (low_bits v 8) (low_bits (shr v 8) 8) (low_bits (shr v 16) 8)
        (low_bits (shr v 24) 8) rest (omega arith) (omega arith) (omega arith))
      (omega arith)

-- The upper half of the eight bytes, then the lower half byte by byte.
read_f64_be_value :
    (a b c d e f g h : ℕ) (rest : List ℕ)
    → IsByte b × IsByte c × IsByte d × IsByte e × IsByte f × IsByte g × IsByte h
    → read_f64_be (a ∷ b ∷ c ∷ d ∷ e ∷ f ∷ g ∷ h ∷ rest)
      ≡ (a * 2 ^ 24 + b * 65536 + c * 256 + d) * 2 ^ 32 + e * 2 ^ 24 + f * 65536 + g * 256 + h
unfolding read_f64_be
read_f64_be_value a b c d e f g h rest (hb, hc, hd, he, hf, hg, hh) =
    rw (bit_or-add 56 a (a * 2 ^ 56) (b * 2 ^ 48) (omega arith) (omega arith)) (
      rw
        (bit_or-add 48 (a * 256 + b) (a * 2 ^ 56 + b * 2 ^ 48) (c * 2 ^ 40) (omega arith)
          (omega arith))
        (rw
          (bit_or-add 40 (a * 65536 + b * 256 + c) (a * 2 ^ 56 + b * 2 ^ 48 + c * 2 ^ 40)
            (d * 2 ^ 32) (omega arith) (omega arith))
          (low (a * 2 ^ 24 + b * 65536 + c * 256 + d)
              (a * 2 ^ 56 + b * 2 ^ 48 + c * 2 ^ 40 + d * 2 ^ 32) (omega arith)
            ∙ omega arith)))
  where
    low :
        (q x : ℕ)
        → x ≡ q * 2 ^ 32
        → bit_or (bit_or (bit_or (bit_or x (e * 2 ^ 24)) (f * 2 ^ 16)) (g * 2 ^ 8)) h
          ≡ x + e * 2 ^ 24 + f * 65536 + g * 256 + h
    low q x k = rw (bit_or-add 32 q x (e * 2 ^ 24) k (omega arith)) (
        rw (bit_or-add 24 (q * 256 + e) (x + e * 2 ^ 24) (f * 65536) (omega arith) (omega arith)) (
          rw
            (bit_or-add 16 (q * 65536 + e * 256 + f) (x + e * 2 ^ 24 + f * 65536) (g * 256)
              (omega arith) (omega arith))
            (bit_or-add 8 (q * 2 ^ 24 + e * 65536 + f * 256 + g) _ h (omega arith) hh)))

pub read_f64_be-write_f64_be :
    (v : ℕ) (rest : List ℕ) → read_f64_be (write_f64_be v ++ rest) ≡ low_bits v 64
unfolding write_f64_be
read_f64_be-write_f64_be v rest =
    rw
      (read_f64_be_value (low_bits (shr v 56) 8) (low_bits (shr v 48) 8) (low_bits (shr v 40) 8)
        (low_bits (shr v 32) 8) (low_bits (shr v 24) 8) (low_bits (shr v 16) 8)
        (low_bits (shr v 8) 8) (low_bits v 8) rest (omega arith))
      (omega arith)
