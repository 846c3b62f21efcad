-- ===== src/Json/Equality.antt =====
-- `==` on `serde_json::Value`, by the comparison of the floating-point numbers. Numbers of two kinds are
-- never equal.
use Prim.Native.Nat.{Ordering, eq}
use kokoadb.Prelude.{Bool, true, false, ◌&&◌, ◌||◌, ◌==◌, Option, some, str_eq}
use kokoadb.Json.{
  F64, Number, pos_int, neg_int, float, Value, null, bool, number, string, array, object, Items,
  nil, cons, Fields, end, field,
}

abbrev pub is_equal : Option Ordering → Bool
is_equal (some eq) = true
is_equal _ = false

abbrev pub same_bool : Bool → Bool → Bool
same_bool true b = b
same_bool false true = false
same_bool false false = true

-- `f64::partial_cmp`
module _ (partial_cmp : F64 → F64 → Option Ordering) where
  abbrev pub same_number : Number → Number → Bool
  same_number (pos_int m) (pos_int n) = m == n
  same_number (neg_int m) (neg_int n) = m == n
  same_number (float f) (float g) = is_equal (partial_cmp f g)
  same_number _ _ = false

  unfoldable mutual
    pub same_value : Value → Value → Bool
    same_value null null = true
    same_value (bool a) (bool b) = same_bool a b
    same_value (number m) (number n) = same_number m n
    same_value (string s) (string t) = str_eq s t
    same_value (array xs) (array ys) = same_items xs ys
    same_value (object fs) (object gs) = same_fields fs gs
    same_value _ _ = false

    pub same_items : Items → Items → Bool
    same_items nil nil = true
    same_items (cons v vs) (cons w ws) = same_value v w && same_items vs ws
    same_items _ _ = false

    pub same_fields : Fields → Fields → Bool
    same_fields end end = true
    same_fields (field k v fs) (field l w gs) = str_eq k l && same_value v w && same_fields fs gs
    same_fields _ _ = false

  -- `items.contains(value)`
  unfoldable pub contains_value : Items → Value → Bool
  contains_value nil w = false
  contains_value (cons v vs) w = same_value v w || contains_value vs w
