-- ===== src/Json.antt =====
-- JSON values (`serde_json::Value`) as data, and the accessors that the connector reads them by.
-- Parsing and printing are parameters of the modules that use them. An object is a list of its
-- fields; `insert` overwrites a field in place and appends a new one.
pub mod Laws
use baijimu_codex_connector.Prelude.{
  ℕ, String, Bool, false, Option, none, some, List, [], ◌∷◌, ◌==◌, if◌then◌else◌, not,
}

-- `uint n` is a number below 2^64, `nint n` is -(n + 1), and `float b` the double of bit pattern b.
pub data Number : Type 0 where
  uint nint float : ℕ → Number

mutual
  pub data Value : Type 0 where
    null : Value
    bool : Bool → Value
    number : Number → Value
    string : String → Value
    array : Items → Value
    object : Fields → Value

  pub data Items : Type 0 where
    nil : Items
    cons : Value → Items → Items

  pub data Fields : Type 0 where
    end : Fields
    field : String → Value → Fields → Fields

abbrev pub Object : Type 0
Object = List (String × Value)

abbrev pub items : Items → List Value
items nil = []
items (cons v vs) = v ∷ items vs

abbrev pub to_items : List Value → Items
to_items [] = nil
to_items (v ∷ vs) = cons v (to_items vs)

abbrev pub fields : Fields → Object
fields end = []
fields (field k v fs) = (k, v) ∷ fields fs

abbrev pub to_fields : Object → Fields
to_fields [] = end
to_fields ((k, v) ∷ fs) = field k v (to_fields fs)

abbrev pub list : List Value → Value
list vs = array (to_items vs)

abbrev pub obj : Object → Value
obj fs = object (to_fields fs)

abbrev pub num : ℕ → Value
num n = number (uint n)

unfoldable pub lookup {ℓ} : {A : Type ℓ} → String → List (String × A) → Option A
lookup k [] = none
lookup k ((j, v) ∷ m) = if j == k then some v else lookup k m

unfoldable pub insert {ℓ} : {A : Type ℓ} → String → A → List (String × A) → List (String × A)
insert k v [] = (k, v) ∷ []
insert k v ((j, w) ∷ m) = if j == k then (j, v) ∷ m else (j, w) ∷ insert k v m

unfoldable pub remove {ℓ} : {A : Type ℓ} → String → List (String × A) → List (String × A)
remove k [] = []
remove k ((j, w) ∷ m) = if j == k then remove k m else (j, w) ∷ remove k m

abbrev pub as_object : Value → Option Object
as_object (object fs) = some (fields fs)
as_object _ = none

abbrev pub as_array : Value → Option (List Value)
as_array (array vs) = some (items vs)
as_array _ = none

abbrev pub as_str : Value → Option String
as_str (string s) = some s
as_str _ = none

abbrev pub as_bool : Value → Option Bool
as_bool (bool b) = some b
as_bool _ = none

abbrev pub as_u64 : Value → Option ℕ
as_u64 (number (uint n)) = some n
as_u64 _ = none

-- `Value::get` by key: nothing unless the value is an object that has the key.
unfoldable pub get : String → Value → Option Value
unfolding lookup
get k (object fs) = lookup k (fields fs)
get k _ = none

-- `value["key"]`: null where `get` has nothing.
unfoldable pub index : String → Value → Value
unfolding get
index k v = elim (get k v) [ none ↦ null | some w ↦ w ]

abbrev pub unwrap_or {ℓ} : {A : Type ℓ} → Option A → A → A
unwrap_or none d = d
unwrap_or (some a) d = a

unfoldable pub is_str : Value → String → Bool
is_str (string s) t = s == t
is_str _ t = false

abbrev pub is_true : Value → Bool
is_true (bool b) = b
is_true _ = false

abbrev pub is_false : Value → Bool
is_false (bool b) = not b
is_false _ = false
