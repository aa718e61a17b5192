-- ===== src/Bytes.antt =====
-- include/core/bytes.hpp: integers in memory. A pointer is the list of the bytes from it on, and
-- the caller has checked how many there are; `byte_at` gives 0 behind the end, where C++ would
-- read out of bounds. A writer returns the bytes that it stores. A `double` is its bit pattern,
-- a number below 2 ^ 64, as `std::memcpy` copies it.
pub mod RoundTrip
mod Tests
use rtmp_abr_transcoder.Base.{ℕ, List, [], ◌∷◌, get_or, bit_or}
use rtmp_abr_transcoder.Base.Bits.{shl, shr, low_bits}

abbrev pub byte_at : List ℕ → ℕ → ℕ
byte_at data' i = get_or data' i 0

unfoldable pub read_u16_be : List ℕ → ℕ
read_u16_be p = bit_or (shl (byte_at p 0) 8) (byte_at p 1)

unfoldable pub read_u24_be : List ℕ → ℕ
read_u24_be p = bit_or (bit_or (shl (byte_at p 0) 16) (shl (byte_at p 1) 8)) (byte_at p 2)

unfoldable pub read_u32_be : List ℕ → ℕ
read_u32_be p =
    bit_or (bit_or (bit_or (shl (byte_at p 0) 24) (shl (byte_at p 1) 16)) (shl (byte_at p 2) 8))
      (byte_at p 3)

unfoldable pub read_u32_le : List ℕ → ℕ
read_u32_le p =
    bit_or (bit_or (bit_or (byte_at p 0) (shl (byte_at p 1) 8)) (shl (byte_at p 2) 16))
      (shl (byte_at p 3) 24)

unfoldable pub read_f64_be : List ℕ → ℕ
read_f64_be p =
    let hi =
      bit_or (bit_or (bit_or (shl (byte_at p 0) 56) (shl (byte_at p 1) 48)) (shl (byte_at p 2) 40))
        (shl (byte_at p 3) 32) in
    bit_or
      (bit_or (bit_or (bit_or hi (shl (byte_at p 4) 24)) (shl (byte_at p 5) 16))
        (shl (byte_at p 6) 8))
      (byte_at p 7)

unfoldable pub write_u16_be : ℕ → List ℕ
write_u16_be v = low_bits (shr v 8) 8 ∷ low_bits v 8 ∷ []

unfoldable pub write_u24_be : ℕ → List ℕ
write_u24_be v = low_bits (shr v 16) 8 ∷ low_bits (shr v 8) 8 ∷ low_bits v 8 ∷ []

unfoldable pub write_u32_be : ℕ → List ℕ
write_u32_be v =
    low_bits (shr v 24) 8 ∷ low_bits (shr v 16) 8 ∷ low_bits (shr v 8) 8 ∷ low_bits v 8 ∷ []

unfoldable pub write_u32_le : ℕ → List ℕ
write_u32_le v =
    low_bits v 8 ∷ low_bits (shr v 8) 8 ∷ low_bits (shr v 16) 8 ∷ low_bits (shr v 24) 8 ∷ []

unfoldable pub write_f64_be : ℕ → List ℕ
write_f64_be v =
    low_bits (shr v 56) 8
    ∷ low_bits (shr v 48) 8
    ∷ low_bits (shr v 40) 8
    ∷ low_bits (shr v 32) 8
    ∷ low_bits (shr v 24) 8
    ∷ low_bits (shr v 16) 8
    ∷ low_bits (shr v 8) 8
    ∷ low_bits v 8
    ∷ []
