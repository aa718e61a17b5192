-- ===== src/Amf0/RoundTrip.antt =====
-- What encode writes, decode reads back.
use rtmp_abr_transcoder.Base.{
  ℕ, zero, suc, ◌+◌, ◌*◌, ◌^◌, ◌≤◌, ◌<◌, ◌≡◌, refl, sym, ap, ◌∙◌, Bool, true, false, List, [], ◌∷◌,
  ◌++◌, ok, arith, if◌then◌else◌, length, append_assoc, append-nil, length-append, drop-append,
}
use rtmp_abr_transcoder.Bytes.{write_f64_be}
use rtmp_abr_transcoder.Bytes.RoundTrip.{read_f64_be-write_f64_be}
use rtmp_abr_transcoder.Amf0.Value.{
  Value, Fields, null, number, boolean, string, object, no_fields, field, insert,
}
use rtmp_abr_transcoder.Amf0.Codec.{
  encode_text, encode, encode_fields, encode_array, decode_string, decode_number, decode_boolean,
  decode_string_value, decode_value, decode_fields, decode, decode_array_loop, decode_array,
}
use rtmp_abr_transcoder.Amf0.Members.{
  insert_all, length-encode_text, decode_text-encode_text, encode_pos, decode_fields_member,
  decode_fields_end, IsWire, IsWireFields,
}
use rtmp_abr_transcoder.Amf0.Sorted.{insert_all_sorted}

decode_number_reads :
    (n : ℕ) (rest : List ℕ)
    → n < 2 ^ 64
    → decode_number (0 ∷ (write_f64_be n ++ rest)) ≡ ok (number n, suc (length (write_f64_be n)))
unfolding decode_number write_f64_be
decode_number_reads n rest h = ground (arith, read_f64_be-write_f64_be n rest)

decode_boolean_reads :
    (b : Bool) (rest : List ℕ)
    → decode_boolean (1 ∷ (if b then 1 else 0) ∷ rest) ≡ ok (boolean b, 2)
unfolding decode_boolean
decode_boolean_reads true rest = ground arith
decode_boolean_reads false rest = ground arith

decode_string_reads :
    (s rest : List ℕ)
    → length s < 65536
    → decode_string_value (2 ∷ (encode_text s ++ rest))
      ≡ ok (string s, suc (length (encode_text s)))
unfolding decode_string_value decode_string
decode_string_reads s rest h =
    rw (decode_text-encode_text s rest h) (ap (λ (n : ℕ). ok (string s, n)) (omega arith))

mutual
  unfolding IsWire encode decode_value insert_all

  decode_value_reads :
      (v : Value) (fuel : ℕ) (rest : List ℕ)
      → IsWire v
      → 2 * length (encode v) ≤ fuel
      → decode_value (suc fuel) (encode v ++ rest) ≡ ok (v, length (encode v))
  decode_value_reads null fuel rest w h = refl
  decode_value_reads (number n) fuel rest w h = decode_number_reads n rest w
  decode_value_reads (boolean b) fuel rest w h = decode_boolean_reads b rest
  decode_value_reads (string s) fuel rest w h = decode_string_reads s rest w
  decode_value_reads (object fs) zero rest w h = absurd (omega arith)
  decode_value_reads (object fs) (suc fuel) rest w h =
      rw (decode_fields_reads fs fuel 1 rest no_fields w (omega arith), insert_all_sorted fs w)
        (ap (λ (k : ℕ). ok (object fs, k)) (omega arith))

  decode_fields_reads :
      (fs : Fields) (fuel offset : ℕ) (rest : List ℕ) (obj : Fields)
      → IsWireFields fs
      → suc (2 * length (encode_fields fs)) ≤ fuel
      → decode_fields (suc fuel) (encode_fields fs ++ rest) offset obj
        ≡ ok (insert_all obj fs, offset + length (encode_fields fs))
  decode_fields_reads no_fields fuel offset rest obj w h = decode_fields_end fuel offset rest obj
  decode_fields_reads (field k v fs) zero offset rest obj w h = absurd (omega arith)
  decode_fields_reads (field k v fs) (suc fuel) offset rest obj (kw, _, vw, w) h =
      let more : List ℕ = encode_fields fs ++ rest in
      let text = length-encode_text k in
      let size = length-append (encode_text k) (encode v ++ encode_fields fs) in
      let size' = length-append (encode v) (encode_fields fs) in
      let value = decode_value_reads v fuel more vw (omega arith) in
      let others =
        decode_fields_reads fs fuel (offset + 2 + length k + length (encode v)) rest
          (insert k v obj) w (omega (arith, encode_pos v)) in
      rw
        (
          append_assoc (encode_text k) (encode v ++ encode_fields fs) rest,
          append_assoc (encode v) (encode_fields fs) rest,
        )
        (decode_fields_member (suc fuel) offset k v more obj kw value
          ∙ others
          ∙ ap (λ (n : ℕ). ok (insert_all (insert k v obj) fs, n)) (omega arith))

decode_lem : (p : List ℕ) → decode p ≡ decode_value (suc (2 * length p)) p
unfolding decode
decode_lem p = ap (λ (n : ℕ). decode_value n p) (omega arith)

-- Decoding an encoded value that the format can carry gives the value and the number of bytes of
-- its encoding, whatever bytes stand behind it.
pub decode-encode :
    (v : Value) (rest : List ℕ) → IsWire v → decode (encode v ++ rest) ≡ ok (v, length (encode v))
decode-encode v rest w =
    let size = length-append (encode v) rest in
    decode_lem (encode v ++ rest)
    ∙ decode_value_reads v (2 * length (encode v ++ rest)) rest w (omega arith)

abbrev pub AreWire : List Value → Type 0
AreWire [] = Unit {0}
AreWire (v ∷ vs) = IsWire v × AreWire vs

encode_cons : (v : Value) (rest : List ℕ) → (b : ℕ) × (bs : List ℕ) × (encode v ++ rest ≡ b ∷ bs)
unfolding encode
encode_cons null rest = (_, _, refl)
encode_cons (number n) rest = (_, _, refl)
encode_cons (boolean b) rest = (_, _, refl)
encode_cons (string s) rest = (_, _, refl)
encode_cons (object fs) rest = (_, _, refl)

decode_array_loop_value :
    (fuel : ℕ) (v : Value) (rest : List ℕ) (values : List Value)
    → IsWire v
    → decode_array_loop (suc fuel) (encode v ++ rest) values
      ≡ decode_array_loop fuel rest (values ++ (v ∷ []))
unfolding decode_array_loop
decode_array_loop_value fuel v rest values w =
    let (b, bs, e) = encode_cons v rest in
    let found = rw e at (decode-encode v rest w) in
    rw (e, decode_array_loop, found, ← e)
      (rw (drop-append (length (encode v)) (encode v) rest refl) refl)

decode_array_loop_reads :
    (vs : List Value) (fuel : ℕ) (values : List Value)
    → AreWire vs
    → length (encode_array vs) ≤ fuel
    → decode_array_loop fuel (encode_array vs) values ≡ ok (values ++ vs)
unfolding encode_array decode_array_loop
decode_array_loop_reads [] zero values w h = ap (λ x. ok x) (sym (append-nil values))
decode_array_loop_reads [] (suc fuel) values w h = ap (λ x. ok x) (sym (append-nil values))
decode_array_loop_reads (v ∷ vs) zero values w h =
    absurd (omega (arith, encode_pos v, length-append (encode v) (encode_array vs)))
decode_array_loop_reads (v ∷ vs) (suc fuel) values (w, ws) h =
    let size = length-append (encode v) (encode_array vs) in
    decode_array_loop_value fuel v (encode_array vs) values w
    ∙ decode_array_loop_reads vs fuel (values ++ (v ∷ [])) ws (omega (arith, encode_pos v))
    ∙ ap (λ x. ok x) (append_assoc values (v ∷ []) vs)

-- A sequence of AMF0 values is decoded as it was encoded, if the format can carry each of them:
-- numbers are patterns of 64 bits, texts and keys are shorter than 65536 bytes, and the keys of an
-- object are in order, as in a std::map.
pub decode_array-encode_array :
    (vs : List Value) → AreWire vs → decode_array (encode_array vs) ≡ ok vs
unfolding decode_array
decode_array-encode_array vs w =
    decode_array_loop_reads vs (length (encode_array vs)) [] w (omega arith)
