-- ===== src/Amf0/Sorted.antt =====
-- Fields in the order of their keys, collected one at a time.
use rtmp_abr_transcoder.Base.{ℕ, ◌≡◌, refl, sym, ap, ◌∙◌, List, arith}
use rtmp_abr_transcoder.Amf0.Value.{Value, Fields, no_fields, field, insert}
use rtmp_abr_transcoder.Amf0.Members.{KeysAbove, insert_all, IsWire, IsWireFields}

append_fields : Fields → Fields → Fields
append_fields no_fields gs = gs
append_fields (field k v fs) gs = field k v (append_fields fs gs)

-- Every key of the first fields comes before every key of the second.
abbrev IsBefore : Fields → Fields → Type 0
IsBefore no_fields gs = Unit {0}
IsBefore (field k v fs) gs = KeysAbove k gs × IsBefore fs gs

insert_last :
    (key : List ℕ) (v : Value) (fs gs : Fields)
    → IsBefore fs (field key v gs)
    → insert key v fs ≡ append_fields fs (field key v no_fields)
unfolding insert append_fields
insert_last key v no_fields gs b = refl
insert_last key v (field k w fs) gs b = ground (arith, b.0.0, insert_last key v fs gs b.1)

append_fields-IsBefore :
    (key : List ℕ) (v : Value) (fs gs : Fields)
    → IsBefore fs (field key v gs)
    → KeysAbove key gs
    → IsBefore (append_fields fs (field key v no_fields)) gs
unfolding append_fields
append_fields-IsBefore key v no_fields gs b above = (above, tt)
append_fields-IsBefore key v (field k w fs) gs b above =
    (b.0.1, append_fields-IsBefore key v fs gs b.1 above)

append_fields_assoc :
    (fs : Fields) (key : List ℕ) (v : Value) (gs : Fields)
    → append_fields (append_fields fs (field key v no_fields)) gs
      ≡ append_fields fs (field key v gs)
unfolding append_fields
append_fields_assoc no_fields key v gs = refl
append_fields_assoc (field k w fs) key v gs = ap (field k w) (append_fields_assoc fs key v gs)

append_fields_nil : (fs : Fields) → append_fields fs no_fields ≡ fs
unfolding append_fields
append_fields_nil no_fields = refl
append_fields_nil (field k v fs) = ap (field k v) (append_fields_nil fs)

insert_all-append_fields :
    (fs gs : Fields) → IsBefore fs gs → IsWireFields gs → insert_all fs gs ≡ append_fields fs gs
unfolding insert_all IsWire
insert_all-append_fields fs no_fields b w = sym (append_fields_nil fs)
insert_all-append_fields fs (field k v gs) b (_, above, _, w) = rw (insert_last k v fs gs b) (
    insert_all-append_fields (append_fields fs (field k v no_fields)) gs
      (append_fields-IsBefore k v fs gs b above) w
    ∙ append_fields_assoc fs k v gs)

-- Fields whose keys are in order are collected as they are.
pub insert_all_sorted : (fs : Fields) → IsWireFields fs → insert_all no_fields fs ≡ fs
unfolding append_fields
insert_all_sorted fs w = insert_all-append_fields no_fields fs tt w
