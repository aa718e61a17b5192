-- ===== src/Amf0/Members.antt =====
-- The members of an encoded object, read one at a time.
use rtmp_abr_transcoder.Base.{
  ℕ, suc, ◌+◌, ◌^◌, ◌<◌, ◌≡◌, refl, ◌∙◌, false, List, [], ◌∷◌, ◌++◌, ok, arith, ◌==◌, length, drop,
  append_assoc, length-append, take-append, drop-append, le→ltb, lt→ltb,
}
use Prim.Native.Nat.{Ordering}
use rtmp_abr_transcoder.Base.Bits.{low_bits}
use rtmp_abr_transcoder.Bytes.{byte_at, read_u16_be, write_u16_be}
use rtmp_abr_transcoder.Bytes.RoundTrip.{read_u16_be-write_u16_be}
use rtmp_abr_transcoder.Amf0.Value.{
  Value, Fields, null, number, boolean, string, object, no_fields, field, insert, compare_keys,
}
use rtmp_abr_transcoder.Amf0.Codec.{
  encode_text, encode, encode_fields, decode_text, is_end, decode_value, decode_fields,
}

-- Every key of the fields comes behind `key`.
abbrev pub KeysAbove : List ℕ → Fields → Type 0
KeysAbove key no_fields = Unit {0}
KeysAbove key (field k v fs) = (compare_keys k key ≡ Ordering.gt) × KeysAbove key fs

-- A value that the program can hold and the format can carry: numbers are 64-bit patterns, texts
-- and keys are shorter than 65536 bytes, and the keys of an object are in order.
unfoldable mutual
  pub IsWire : Value → Type 0
  IsWire null = Unit {0}
  IsWire (number n) = n < 2 ^ 64
  IsWire (boolean b) = Unit {0}
  IsWire (string s) = length s < 65536
  IsWire (object fs) = IsWireFields fs

  pub IsWireFields : Fields → Type 0
  IsWireFields no_fields = Unit {0}
  IsWireFields (field k v fs) = (length k < 65536) × KeysAbove k fs × IsWire v × IsWireFields fs

-- The fields that a loop collects behind those it has.
unfoldable pub insert_all : Fields → Fields → Fields
insert_all obj no_fields = obj
insert_all obj (field k v fs) = insert_all (insert k v obj) fs

pub length-encode_text : (s : List ℕ) → length (encode_text s) ≡ 2 + length s
unfolding encode_text write_u16_be
length-encode_text s = omega arith

read_u16_be-encode_text :
    (s rest : List ℕ) → length s < 65536 → read_u16_be (encode_text s ++ rest) ≡ length s
unfolding encode_text
read_u16_be-encode_text s rest h =
    rw (append_assoc (write_u16_be (low_bits (length s) 16)) s rest)
      (read_u16_be-write_u16_be (low_bits (length s) 16) (s ++ rest) ∙ omega arith)

drop-encode_text : (s rest : List ℕ) → drop 2 (encode_text s ++ rest) ≡ s ++ rest
unfolding encode_text write_u16_be
drop-encode_text s rest = refl

pub decode_text-encode_text :
    (s rest : List ℕ)
    → length s < 65536
    → decode_text (encode_text s ++ rest) 0 ≡ ok (s, length (encode_text s))
unfolding decode_text
decode_text-encode_text s rest h =
    let size = length-encode_text s in
    let total = length-append (encode_text s) rest in
    rw
      (
        read_u16_be-encode_text s rest h,
        drop-encode_text s rest,
        size,
        take-append (length s) s rest refl,
        le→ltb (length (encode_text s ++ rest)) 2 (omega arith),
        le→ltb (length (encode_text s ++ rest)) (2 + length s) (omega arith),
      )
      refl

-- No value begins with the byte of the end marker.
encode_first : (v : Value) (rest : List ℕ) → (byte_at (encode v ++ rest) 0 == 9) ≡ false
unfolding encode
encode_first null rest = refl
encode_first (number n) rest = refl
encode_first (boolean b) rest = refl
encode_first (string s) rest = refl
encode_first (object fs) rest = refl

member_not_end :
    (key : List ℕ) (v : Value) (rest : List ℕ)
    → is_end (length key) (key ++ (encode v ++ rest)) ≡ false
member_not_end [] v rest = ground (arith, encode_first v rest)
member_not_end (b ∷ bs) v rest = ground arith

pub encode_pos : (v : Value) → 0 < length (encode v)
unfolding encode encode_text write_u16_be
encode_pos null = omega arith
encode_pos (number n) = omega arith
encode_pos (boolean b) = omega arith
encode_pos (string s) = omega arith
encode_pos (object fs) = omega arith

-- The loop at a member: the value is read behind the key, and the loop goes on behind the value.
pub decode_fields_member :
    (fuel offset : ℕ) (key : List ℕ) (v : Value) (rest : List ℕ) (obj : Fields)
    → length key < 65536
    → decode_value fuel (encode v ++ rest) ≡ ok (v, length (encode v))
    → decode_fields (suc fuel) (encode_text key ++ (encode v ++ rest)) offset obj
      ≡ decode_fields fuel rest (offset + 2 + length key + length (encode v)) (insert key v obj)
unfolding decode_fields
decode_fields_member fuel offset key v rest obj h e =
    let x : List ℕ = encode v ++ rest in
    let key_size = length-append key x in
    let total = length-append (encode_text key) x in
    rw
      (
        le→ltb (length (encode_text key ++ x)) 3 (
            omega
              (arith, total, length-encode_text key, length-append (encode v) rest, encode_pos v)),
        read_u16_be-encode_text key x h,
        drop-encode_text key x,
        member_not_end key v rest,
        le→ltb (length (key ++ x)) (length key) (omega arith),
        drop-append (length key) key x refl,
        take-append (length key) key x refl,
        e,
      )
      (rw (drop-append (length (encode v)) (encode v) rest refl) refl)

pub decode_fields_end :
    (fuel offset : ℕ) (rest : List ℕ) (obj : Fields)
    → decode_fields (suc fuel) (encode_fields no_fields ++ rest) offset obj ≡ ok (obj, offset + 3)
unfolding decode_fields encode read_u16_be
decode_fields_end fuel offset rest obj =
    rw
      (
        le→ltb (suc (suc (suc (length rest)))) 3 (omega arith),
        lt→ltb 0 (suc (length rest)) (omega arith),
      )
      refl
