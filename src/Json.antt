-- ===== src/Json.antt =====
-- `serde_json::Value` as the program uses it, and the SQL values that it binds. An object lists its
-- fields in the order in which the code iterates over them. A number is one of serde's three kinds;
-- `f64` is a bit pattern, or the double nearest to n (`nearest n`)
-- or to -(n + 1) (`nearest_minus n`).
pub mod Equality
use kokoadb.Prelude.{ℕ, ◌^◌, String, Bool, List, [], ◌∷◌, Option, none, some, ltb, if◌then◌else◌}

pub data F64 : Type 0 where
  bits nearest nearest_minus : ℕ → F64

-- `PosInt` holds a u64, `NegInt n` is -(n + 1) and holds an i64, `Float` an f64.
pub data Number : Type 0 where
  pos_int neg_int : ℕ → Number
  float : F64 → Number

mutual
  pub data Value : Type 0 where
    null : Value
    bool : Bool → Value
    number : Number → Value
    string : String → Value
    array : Items → Value
    object : Fields → Value

  pub data Items : Type 0 where
    nil : Items
    cons : Value → Items → Items

  pub data Fields : Type 0 where
    end : Fields
    field : String → Value → Fields → Fields

abbrev pub items : Items → List Value
items nil = []
items (cons v vs) = v ∷ items vs

abbrev pub fields : Fields → List (String × Value)
fields end = []
fields (field k v fs) = (k, v) ∷ fields fs

-- The object with one field.
abbrev pub singleton : String → Value → Value
singleton k v = object (field k v end)

abbrev pub as_object : Value → Option Fields
as_object (object fs) = some fs
as_object _ = none

abbrev pub as_array : Value → Option Items
as_array (array xs) = some xs
as_array _ = none

abbrev pub as_str : Value → Option String
as_str (string s) = some s
as_str _ = none

abbrev pub as_bool : Value → Option Bool
as_bool (bool b) = some b
as_bool _ = none

-- An i64: `nonneg n`, or `minus n` for -(n + 1).
pub data I64 : Type 0 where
  nonneg minus : ℕ → I64

abbrev pub number_as_i64 : Number → Option I64
number_as_i64 (pos_int n) = if ltb n (2 ^ 63) then some (nonneg n) else none
number_as_i64 (neg_int n) = some (minus n)
number_as_i64 (float f) = none

abbrev pub as_i64 : Value → Option I64
as_i64 (number n) = number_as_i64 n
as_i64 _ = none

-- `Number::as_f64` is never `None` for these three kinds.
abbrev pub number_as_f64 : Number → Option F64
number_as_f64 (pos_int n) = some (F64.nearest n)
number_as_f64 (neg_int n) = some (F64.nearest_minus n)
number_as_f64 (float f) = some f

-- `libsql::Value`, without blobs.
pub data SqlValue : Type 0 where
  null : SqlValue
  integer : I64 → SqlValue
  real : F64 → SqlValue
  text : String → SqlValue
