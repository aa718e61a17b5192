-- ===== src/Amf0/Value.antt =====
-- amf0::Value. A `double` is its bit pattern and a `std::string` the list of its bytes. An object
-- is a `std::map<std::string, Value>`: its fields in the order of their keys.
use Prim.Native.Nat.{compare, Ordering}
use rtmp_abr_transcoder.Base.{ℕ, Bool, List, [], ◌∷◌, Option, none, some}

mutual
  pub data Value : Type 0 where
    null : Value
    number : ℕ → Value
    boolean : Bool → Value
    string : List ℕ → Value
    object : Fields → Value

  pub data Fields : Type 0 where
    no_fields : Fields
    field : List ℕ → Value → Fields → Fields

-- `enum class Type`, and the number of each member.
pub data AmfType : Type 0 where
  number_type boolean_type string_type object_type null_type ecma_array_type : AmfType

abbrev pub marker : AmfType → ℕ
marker number_type = 0
marker boolean_type = 1
marker string_type = 2
marker object_type = 3
marker null_type = 5
marker ecma_array_type = 8

-- Value::type.
unfoldable pub type_of : Value → AmfType
type_of null = null_type
type_of (number n) = number_type
type_of (boolean b) = boolean_type
type_of (string s) = string_type
type_of (object fs) = object_type

-- The order of `std::string`: by bytes, and a proper prefix first.
unfoldable pub compare_keys : List ℕ → List ℕ → Ordering
compare_keys [] [] = Ordering.eq
compare_keys [] (b ∷ bs) = Ordering.lt
compare_keys (a ∷ as') [] = Ordering.gt
compare_keys (a ∷ as') (b ∷ bs) =
    let rest = compare_keys as' bs in
    elim (compare a b) [
      | Ordering.lt ↦ Ordering.lt
      | Ordering.eq ↦ rest
      | Ordering.gt ↦ Ordering.gt
    ]

-- `obj[key] = value`.
unfoldable pub insert : List ℕ → Value → Fields → Fields
insert key value no_fields = field key value no_fields
insert key value (field k v fs) =
    let rest = insert key value fs in
    elim (compare_keys key k) [
      | Ordering.lt ↦ field key value (field k v fs)
      | Ordering.eq ↦ field k value fs
      | Ordering.gt ↦ field k v rest
    ]

-- `obj.find(key)`: the value, if `obj.count(key)`.
unfoldable pub lookup : List ℕ → Fields → Option Value
lookup key no_fields = none
lookup key (field k v fs) =
    let rest = lookup key fs in
    elim (compare_keys key k) [ Ordering.lt ↦ none | Ordering.eq ↦ some v | Ordering.gt ↦ rest ]
