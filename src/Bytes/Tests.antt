-- ===== src/Bytes/Tests.antt =====
-- Runs of the readers and writers.
use rtmp_abr_transcoder.Base.{◌≡◌, refl, [], ◌∷◌}
use rtmp_abr_transcoder.Bytes.{read_u32_le, read_f64_be, write_u24_be}

write_u24_be_runs : write_u24_be 0x1_23_45_67 ≡ 0x23 ∷ 0x45 ∷ 0x67 ∷ []
unfolding write_u24_be
write_u24_be_runs = refl

read_u32_le_runs : read_u32_le (1 ∷ 2 ∷ 3 ∷ 4 ∷ []) ≡ 0x0403_0201
unfolding read_u32_le
read_u32_le_runs = refl

read_f64_be_runs : read_f64_be (0x3f ∷ 0xf0 ∷ 0 ∷ 0 ∷ 0 ∷ 0 ∷ 0 ∷ 0 ∷ []) ≡ 0x3ff0_0000_0000_0000
unfolding read_f64_be
read_f64_be_runs = refl
