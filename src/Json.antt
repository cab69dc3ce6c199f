-- ===== src/Json.antt =====
-- The JSON values that the source passes through `serde_json` (a dependency): the data type with
-- the accessors that the source calls. Reading and printing text is a parameter, `Codec`.
use jan_klod.Common.{
  ℕ, String, Bool, Option, none, some, List, [], ◌∷◌, str_eq, Result, if◌then◌else◌,
}

-- A number of JSON: a `u64`, or any other (negative or with a fraction) as it was written.
pub data Number : Type 0 where
  unsigned : ℕ → Number
  other : String → Number

mutual
  pub data Value : Type 0 where
    null : Value
    boolean : Bool → Value
    number : Number → Value
    string : String → Value
    array : Items → Value
    object : Fields → Value

  pub data Items : Type 0 where
    nil : Items
    item : Value → Items → Items

  pub data Fields : Type 0 where
    end : Fields
    field : String → Value → Fields → Fields

abbrev pub get_field : String → Fields → Option Value
get_field k end = none
get_field k (field j v fs) = if str_eq j k then some v else get_field k fs

-- `Value::get` with a text for its index.
abbrev pub get : Value → String → Option Value
get (object fs) k = get_field k fs
get null k = none
get (boolean b) k = none
get (number n) k = none
get (string s) k = none
get (array xs) k = none

abbrev pub as_str : Value → Option String
as_str (string s) = some s
as_str null = none
as_str (boolean b) = none
as_str (number n) = none
as_str (array xs) = none
as_str (object fs) = none

abbrev pub as_bool : Value → Option Bool
as_bool (boolean b) = some b
as_bool null = none
as_bool (string s) = none
as_bool (number n) = none
as_bool (array xs) = none
as_bool (object fs) = none

abbrev pub as_u64 : Value → Option ℕ
as_u64 (number (unsigned n)) = some n
as_u64 (number (other s)) = none
as_u64 null = none
as_u64 (boolean b) = none
as_u64 (string s) = none
as_u64 (array xs) = none
as_u64 (object fs) = none

abbrev pub items : Items → List Value
items nil = []
items (item v vs) = v ∷ items vs

abbrev pub of_items : List Value → Items
of_items [] = nil
of_items (v ∷ vs) = item v (of_items vs)

abbrev pub as_array : Value → Option (List Value)
as_array (array xs) = some (items xs)
as_array null = none
as_array (boolean b) = none
as_array (number n) = none
as_array (string s) = none
as_array (object fs) = none

-- `Option::and_then`.
infixl 5 ◌>>=◌
abbrev pub ◌>>=◌ {ℓ κ} : {A : Type ℓ} {B : Type κ} → Option A → (A → Option B) → Option B
none >>= f = none
some a >>= f = f a

abbrev pub entries_of : Option (List Value) → List Value
entries_of none = []
entries_of (some vs) = vs

-- `value.get(key).and_then(Value::as_str)`.
abbrev pub str_field : Value → String → Option String
str_field value key = get value key >>= as_str

-- The entries of a list; a list that is missing, or is no list, has none.
abbrev pub array_field : Value → String → List Value
array_field value key = entries_of (get value key >>= as_array)

-- `serde_json::from_str`, with the text of its error, and `Value::to_string`.
pub record Codec : Type 0 where
  pub from_str : String → Result Value String
  pub to_string : Value → String
