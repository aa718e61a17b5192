-- ===== src/Amf0/Tests.antt =====
-- Runs of the codec, and the theorems at concrete inputs.
use rtmp_abr_transcoder.Base.{arith, length, ◌++◌, ◌≡◌, refl, [], ◌∷◌, ok, true}
use rtmp_abr_transcoder.Amf0.Value.{
  Value, null, boolean, string, object, field, no_fields, insert, compare_keys,
}
use rtmp_abr_transcoder.Amf0.Members.{IsWire}
use rtmp_abr_transcoder.Amf0.RoundTrip.{decode-encode, decode_array-encode_array}
use rtmp_abr_transcoder.Amf0.Total.{IsWithin, IsAnswer, decode-IsWithin, decode_array-IsAnswer}
use rtmp_abr_transcoder.Amf0.Codec.{
  encode, encode_array, decode_array, decode, decode_value, decode_boolean,
}
use rtmp_abr_transcoder.Bytes.{read_u16_be}

sample_decodes :
    decode (3 ∷ 0 ∷ 1 ∷ 98 ∷ 5 ∷ 0 ∷ 1 ∷ 97 ∷ 1 ∷ 7 ∷ 0 ∷ 0 ∷ 9 ∷ 4 ∷ [])
    ≡ ok (object (field (97 ∷ []) (boolean true) (field (98 ∷ []) null no_fields)), 13)
unfolding decode decode_value insert compare_keys read_u16_be decode_boolean
sample_decodes = refl

-- { "a": true, "b": "x" }, and what stands behind it.
abbrev sample : Value
sample = object (field (97 ∷ []) (boolean true) (field (98 ∷ []) (string (120 ∷ [])) no_fields))

sample-IsWire : IsWire sample
unfolding IsWire compare_keys
sample-IsWire = (omega arith, (refl, tt), tt, (omega arith, tt, omega arith, tt))

decode-encode_example : decode (encode sample ++ (5 ∷ [])) ≡ ok (sample, length (encode sample))
decode-encode_example = decode-encode sample (5 ∷ []) sample-IsWire

decode_array-encode_array_example :
    decode_array (encode_array (sample ∷ null ∷ sample ∷ [])) ≡ ok (sample ∷ null ∷ sample ∷ [])
unfolding IsWire
decode_array-encode_array_example =
    decode_array-encode_array (sample ∷ null ∷ sample ∷ [])
      (sample-IsWire, (tt, (sample-IsWire, tt)))

decode-IsWithin_example : IsWithin 1 4 (decode (3 ∷ 0 ∷ 1 ∷ 98 ∷ []))
decode-IsWithin_example = decode-IsWithin (3 ∷ 0 ∷ 1 ∷ 98 ∷ [])

decode_array-IsAnswer_example : IsAnswer (decode_array (5 ∷ 3 ∷ 0 ∷ 1 ∷ 98 ∷ []))
decode_array-IsAnswer_example = decode_array-IsAnswer (5 ∷ 3 ∷ 0 ∷ 1 ∷ 98 ∷ [])
