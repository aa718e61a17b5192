-- ===== src/Amf0/Total.antt =====
-- What decode consumes, and that its fuel is enough.
use rtmp_abr_transcoder.Base.{
  ℕ, zero, suc, ◌+◌, ◌*◌, ◌≤◌, ◌<◌, Bool, true, false, List, [], ◌∷◌, Result, ok, err, arith, ltb,
  if◌then◌else◌, length, drop, length-drop, ltb→lt, ltb→le, Bool-cases, Result-cases, ◌++◌, inl,
  inr,
}
use rtmp_abr_transcoder.Bytes.{read_u16_be}
use rtmp_abr_transcoder.Amf0.Value.{Value, Fields, null, object, no_fields}
use rtmp_abr_transcoder.Amf0.Codec.{
  DecodeError, empty_data, unknown_type, not_enough_ecma_array, not_enough_object_key, out_of_fuel,
  ◌>>=◌, decode_text, decode_string, decode_number, decode_boolean, decode_string_value,
  decode_value, decode_fields, decode, decode_array_loop, decode_array,
}

-- The errors that the program has.
abbrev pub IsCause : DecodeError → Type 0
IsCause out_of_fuel = ⊥
IsCause e = Unit {0}

-- The result is an error of the program, or it consumes between `low` and `high` bytes.
pub IsWithin {ℓ} : {A : Type ℓ} → ℕ → ℕ → Result DecodeError (A × ℕ) → Type 0
IsWithin low high (ok (a, n)) = (low ≤ n) × (n ≤ high)
IsWithin low high (err e) = IsCause e

ok-IsWithin {ℓ} :
    {A : Type ℓ} (low high : ℕ) (a : A) (n : ℕ) → low ≤ n → n ≤ high → IsWithin low high (ok (a, n))
unfolding IsWithin
ok-IsWithin low high a n l h = (l, h)

err-IsWithin {ℓ} :
    (A : Type ℓ) (low high : ℕ) (e : DecodeError) → IsCause e → IsWithin {A = A} low high (err e)
unfolding IsWithin
err-IsWithin A low high e c = c

bind-IsWithin {ℓ κ} :
    {A : Type ℓ} {B : Type κ} (low high low' high' : ℕ) (r : Result DecodeError (A × ℕ))
    (f : A × ℕ → Result DecodeError (B × ℕ))
    → IsWithin low high r
    → ((a : A) (n : ℕ) → low ≤ n → n ≤ high → IsWithin low' high' (f (a, n)))
    → IsWithin low' high' (r >>= f)
unfolding IsWithin
bind-IsWithin low high low' high' (ok (a, n)) f (l, h) k = k a n l h
bind-IsWithin low high low' high' (err e) f w k = w

-- A test, with what it says of each branch.
if-IsWithin {ℓ} :
    {A : Type ℓ} (low high m n : ℕ) (r s : Result DecodeError (A × ℕ))
    → (m < n → IsWithin low high r)
    → (n ≤ m → IsWithin low high s)
    → IsWithin low high (if ltb m n then r else s)
if-IsWithin low high m n r s f g = elim (Bool-cases (ltb m n)) [
  | inl e ↦ rw e (f (ltb→lt m n e))
  | inr e ↦ rw e (g (ltb→le m n e))
]

decode_text-IsWithin : (p : List ℕ) → IsWithin 2 (length p) (decode_text p 0)
unfolding IsWithin decode_text
decode_text-IsWithin p =
    if-IsWithin 2 (length p) (length p) 2 _ _ (λ _. tt)
      (λ _.
        if-IsWithin 2 (length p) (length p) (2 + read_u16_be p) _ _ (λ _. tt)
          (λ h. (omega arith, h)))

decode_string_value-IsWithin :
    (t : ℕ) (p : List ℕ) → IsWithin 1 (suc (length p)) (decode_string_value (t ∷ p))
unfolding IsWithin decode_string_value decode_string
decode_string_value-IsWithin t p =
    bind-IsWithin 2 (length p) 1 (suc (length p)) (decode_text p 0) _ (decode_text-IsWithin p)
      (λ a n l h. (omega arith, omega arith))

decode_number-IsWithin : (p : List ℕ) → IsWithin 1 (length p) (decode_number p)
unfolding IsWithin decode_number
decode_number-IsWithin p =
    if-IsWithin 1 (length p) (length p) 9 _ _ (λ _. tt) (λ h. (omega arith, h))

decode_boolean-IsWithin : (p : List ℕ) → IsWithin 1 (length p) (decode_boolean p)
unfolding IsWithin decode_boolean
decode_boolean-IsWithin p =
    if-IsWithin 1 (length p) (length p) 2 _ _ (λ _. tt) (λ h. (omega arith, h))

if_both-IsWithin {ℓ} :
    {A : Type ℓ} (low high : ℕ) (b : Bool) (r s : Result DecodeError (A × ℕ))
    → IsWithin low high r
    → IsWithin low high s
    → IsWithin low high (if b then r else s)
if_both-IsWithin low high true r s f g = f
if_both-IsWithin low high false r s f g = g

later {ℓ} :
    {A : Type ℓ} (low low' high : ℕ) (r : Result DecodeError (A × ℕ))
    → low ≤ low'
    → IsWithin low' high r
    → IsWithin low high r
unfolding IsWithin
later low low' high (ok (a, n)) l (l', h) = (omega arith, h)
later low low' high (err e) l w = w

object-IsWithin :
    (offset high : ℕ) (r : Result DecodeError (Fields × ℕ))
    → 1 ≤ offset
    → IsWithin offset high r
    → IsWithin 1 high (r >>= λ x. ok (object x.0, x.1))
unfolding IsWithin
object-IsWithin offset high (ok (a, n)) l (l', h) = (omega arith, h)
object-IsWithin offset high (err e) l w = w

mutual
  unfolding decode_value

  decode_value-IsWithin :
      (fuel : ℕ) (p : List ℕ) → 2 * length p < fuel → IsWithin 1 (length p) (decode_value fuel p)
  decode_value-IsWithin zero p h = absurd (omega arith)
  decode_value-IsWithin (suc fuel) [] h = err-IsWithin _ 1 0 empty_data tt
  decode_value-IsWithin (suc fuel) (t ∷ p) h =
      let size = suc (length p) in
      if_both-IsWithin 1 size _ _ _ (decode_number-IsWithin (t ∷ p)) (
        if_both-IsWithin 1 size _ _ _ (decode_boolean-IsWithin (t ∷ p)) (
          if_both-IsWithin 1 size _ _ _ (decode_string_value-IsWithin t p) (
            if_both-IsWithin 1 size _ _ _ (ok-IsWithin 1 size null 1 (omega arith) (omega arith)) (
              if_both-IsWithin 1 size _ _ _
                (object-IsWithin 1 size _ (omega arith)
                  (decode_fields-IsWithin fuel p 1 size no_fields (omega arith) (omega arith)))
                (if_both-IsWithin 1 size _ _ _
                  (if-IsWithin 1 size size 5 _ _
                    (λ _. err-IsWithin _ 1 size not_enough_ecma_array tt)
                    (λ g. object-IsWithin 5 size _ (omega arith) (
                      decode_fields-IsWithin fuel (drop 4 p) 5 size no_fields
                        (omega (arith, length-drop 4 p)) (omega (arith, length-drop 4 p)))))
                  (err-IsWithin _ 1 size unknown_type tt))))))

  decode_fields-IsWithin :
      (fuel : ℕ) (p : List ℕ) (offset high : ℕ) (obj : Fields)
      → 2 * length p < fuel
      → length p + offset ≤ high
      → IsWithin offset high (decode_fields fuel p offset obj)
  decode_fields-IsWithin zero p offset high obj h e = absurd (omega arith)
  decode_fields-IsWithin (suc fuel) p offset high obj h e =
      let key_len = read_u16_be p in
      let behind = drop 2 p in
      let rest = drop key_len behind in
      let s2 = length-drop 2 p in
      let s = length-drop key_len behind in
      if-IsWithin offset high (length p) 3 _ _
        (λ _. ok-IsWithin offset high obj offset (omega arith) (omega arith))
        (λ g.
          if_both-IsWithin offset high _ _ _
            (ok-IsWithin offset high obj (offset + 3) (omega arith) (omega arith))
            (if-IsWithin offset high (length behind) key_len _ _
              (λ _. err-IsWithin _ offset high not_enough_object_key tt)
              (λ g'.
                bind-IsWithin 1 (length rest) offset high (decode_value fuel rest) _
                  (decode_value-IsWithin fuel rest (omega arith))
                  (λ v n l u. later offset (offset + 2 + key_len + n) high _ (omega arith) (
                    decode_fields-IsWithin fuel (drop n rest) (offset + 2 + key_len + n) high _
                      (omega (arith, length-drop n rest)) (omega (arith, length-drop n rest)))))))

-- decode ends on every input, with an error of the program or a value, for which it consumed at
-- least a byte and no more bytes than it was given.
pub decode-IsWithin : (p : List ℕ) → IsWithin 1 (length p) (decode p)
unfolding decode
decode-IsWithin p = decode_value-IsWithin (2 * length p + 1) p (omega arith)

-- The result is a list of values, or an error of the program.
pub IsAnswer : Result DecodeError (List Value) → Type 0
IsAnswer (ok vs) = Unit {0}
IsAnswer (err e) = IsCause e

stopped :
    (values : List Value) (c : DecodeError)
    → IsCause c
    → IsAnswer (elim values [ [] ↦ err c | v ∷ vs ↦ ok (v ∷ vs) ])
unfolding IsAnswer
stopped [] c cause = cause
stopped (v ∷ vs) c cause = tt

decode_array_loop-IsAnswer :
    (fuel : ℕ) (p : List ℕ) (values : List Value)
    → length p ≤ fuel
    → IsAnswer (decode_array_loop fuel p values)
unfolding decode_array_loop IsAnswer IsWithin
decode_array_loop-IsAnswer fuel [] values h = tt
decode_array_loop-IsAnswer zero (b ∷ bs) values h = absurd (omega arith)
decode_array_loop-IsAnswer (suc fuel) (b ∷ bs) values h = elim (Result-cases (decode (b ∷ bs))) [
  | inl ((v, n), e) ↦
      let within = rw e at (decode-IsWithin (b ∷ bs)) in
      rw (IsAnswer, decode_array_loop, e)
        (decode_array_loop-IsAnswer fuel (drop n (b ∷ bs)) (values ++ (v ∷ []))
          (omega (arith, within.0, length-drop n (b ∷ bs))))
  | inr (c, e) ↦
      let cause = rw e at (decode-IsWithin (b ∷ bs)) in
      rw (IsAnswer, decode_array_loop, e) (stopped values c cause)
]

-- decode_array ends on every input, with values or an error of the program.
pub decode_array-IsAnswer : (p : List ℕ) → IsAnswer (decode_array p)
unfolding decode_array
decode_array-IsAnswer p = decode_array_loop-IsAnswer (length p) p [] (omega arith)
