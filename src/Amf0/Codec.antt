-- ===== src/Amf0/Codec.antt =====
-- encode, encode_array, decode and decode_array. A decoder returns the number of bytes that it
-- consumed. What a call leaves of the input is no structural part of it, so each call costs a unit
-- of fuel; `out_of_fuel` has no counterpart in the program.
use rtmp_abr_transcoder.Base.{
  ℕ, zero, suc, ◌+◌, ◌*◌, Bool, true, false, not, ◌&&◌, List, [], ◌∷◌, ◌++◌, Result, ok, err, ltb,
  ◌==◌, if◌then◌else◌, length, drop, take,
}
use rtmp_abr_transcoder.Base.Bits.{low_bits}
use rtmp_abr_transcoder.Bytes.{byte_at, read_u16_be, read_f64_be, write_u16_be, write_f64_be}
use rtmp_abr_transcoder.Amf0.Value.{
  Value, Fields, null, number, boolean, string, object, no_fields, field, marker, number_type,
  boolean_type, string_type, object_type, null_type, ecma_array_type, insert,
}

pub data DecodeError : Type 0 where
  empty_data unknown_type : DecodeError
  not_enough_string_length not_enough_string_content not_enough_number : DecodeError
  not_enough_boolean not_enough_ecma_array not_enough_object_key : DecodeError
  not_enough_string_type not_a_string_type : DecodeError
  out_of_fuel : DecodeError

infixl 5 ◌>>=◌
abbrev pub ◌>>=◌ {ℓ κ} :
    {A : Type ℓ} {B : Type κ}
    → Result DecodeError A
    → (A → Result DecodeError B)
    → Result DecodeError B
ok a >>= f = f a
err e >>= f = err e

-- The length in 16 bits, and all the bytes.
unfoldable pub encode_text : List ℕ → List ℕ
encode_text s = write_u16_be (low_bits (length s) 16) ++ s

unfoldable pub encode_string : List ℕ → Bool → List ℕ
encode_string s with_type = if with_type then marker string_type ∷ encode_text s else encode_text s

unfoldable mutual
  unfolding encode_string

  -- encode_value_impl.
  pub encode : Value → List ℕ
  encode (number n) = marker number_type ∷ write_f64_be n
  encode (boolean b) = marker boolean_type ∷ (if b then 1 else 0) ∷ []
  encode (string s) = encode_string s true
  encode null = marker null_type ∷ []
  encode (object fs) = marker object_type ∷ encode_fields fs

  -- The loop over the fields, and the end marker.
  pub encode_fields : Fields → List ℕ
  encode_fields no_fields = 0 ∷ 0 ∷ 9 ∷ []
  encode_fields (field key v fs) = encode_text key ++ (encode v ++ encode_fields fs)

unfoldable pub encode_array : List Value → List ℕ
encode_array [] = []
encode_array (v ∷ vs) = encode v ++ encode_array vs

-- decode_string from the length on, after the optional type byte.
unfoldable pub decode_text : List ℕ → ℕ → Result DecodeError (List ℕ × ℕ)
decode_text p offset =
    let rest = drop offset p in
    let len = read_u16_be rest in
    if ltb (length p) (offset + 2)
    then err not_enough_string_length
    else if ltb (length p) (offset + 2 + len)
    then err not_enough_string_content
    else ok (take len (drop (offset + 2) p), offset + 2 + len)

unfoldable pub decode_string : List ℕ → Bool → Result DecodeError (List ℕ × ℕ)
decode_string p has_type =
    if has_type
    then (if ltb (length p) 1
        then err not_enough_string_type
        else if not (byte_at p 0 == marker string_type)
        then err not_a_string_type
        else decode_text p 1)
    else decode_text p 0

unfoldable pub decode_number : List ℕ → Result DecodeError (Value × ℕ)
decode_number p =
    if ltb (length p) 9 then err not_enough_number else ok (number (read_f64_be (drop 1 p)), 9)

unfoldable pub decode_boolean : List ℕ → Result DecodeError (Value × ℕ)
decode_boolean p =
    if ltb (length p) 2 then err not_enough_boolean else ok (boolean (not (byte_at p 1 == 0)), 2)

unfoldable pub decode_string_value : List ℕ → Result DecodeError (Value × ℕ)
decode_string_value p = do
  (s, consumed) ← decode_string (drop 1 p) false
  ok (string s, consumed + 1)

-- The test for the end marker behind a key length.
abbrev pub is_end : ℕ → List ℕ → Bool
is_end key_len rest = key_len == 0 && (ltb 0 (length rest) && byte_at rest 0 == 9)

unfoldable mutual
  -- decode_impl: the switch on the type byte.
  pub decode_value : ℕ → List ℕ → Result DecodeError (Value × ℕ)
  decode_value zero p = err out_of_fuel
  decode_value (suc fuel) [] = err empty_data
  decode_value (suc fuel) (t ∷ p) =
      let members : ℕ → Result DecodeError (Value × ℕ) = λ offset. do
        (fs, end) ← decode_fields fuel (drop offset (t ∷ p)) offset no_fields
        ok (object fs, end)
      in if t == marker number_type
        then decode_number (t ∷ p)
        else if t == marker boolean_type
        then decode_boolean (t ∷ p)
        else if t == marker string_type
        then decode_string_value (t ∷ p)
        else if t == marker null_type
        then ok (null, 1)
        else if t == marker object_type
        then members 1
        else if t == marker ecma_array_type
        then (if ltb (length (t ∷ p)) 5 then err not_enough_ecma_array else members 5)
        else err unknown_type

  -- The loop of the object case; the list is the data from `offset` on.
  pub decode_fields : ℕ → List ℕ → ℕ → Fields → Result DecodeError (Fields × ℕ)
  decode_fields zero p offset obj = err out_of_fuel
  decode_fields (suc fuel) p offset obj =
      let key_len = read_u16_be p in
      let behind = drop 2 p in
      let rest = drop key_len behind in
      let member : Result DecodeError (Fields × ℕ) = do
        (v, consumed) ← decode_value fuel rest
        decode_fields fuel (drop consumed rest) (offset + 2 + key_len + consumed)
            (insert (take key_len behind) v obj)
      in if ltb (length p) 3
        then ok (obj, offset)
        else if is_end key_len behind
        then ok (obj, offset + 3)
        else if ltb (length behind) key_len
        then err not_enough_object_key
        else member

unfoldable pub decode : List ℕ → Result DecodeError (Value × ℕ)
decode p = decode_value (2 * length p + 1) p

-- The loop of decode_array. An error behind the first value ends it without one.
unfoldable pub decode_array_loop : ℕ → List ℕ → List Value → Result DecodeError (List Value)
decode_array_loop fuel [] values = ok values
decode_array_loop zero (b ∷ bs) values = err out_of_fuel
decode_array_loop (suc fuel) (b ∷ bs) values = elim (decode (b ∷ bs)) [
  | ok (v, consumed) ↦ decode_array_loop fuel (drop consumed (b ∷ bs)) (values ++ (v ∷ []))
  | err e ↦ elim values [ [] ↦ err e | v ∷ vs ↦ ok (v ∷ vs) ]
]

unfoldable pub decode_array : List ℕ → Result DecodeError (List Value)
decode_array p = decode_array_loop (length p) p []
