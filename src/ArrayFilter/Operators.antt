-- ===== src/ArrayFilter/Operators.antt =====
-- src/service/dispatcher/tx_mutation.rs: the operators of an array filter on one value.
use Prim.Native.Nat.{Ordering, lt, eq, gt}
use Prim.Native.Char.{code}
use Prim.Native.Nat
use Prim.Native.String
use kokoadb.Prelude.{
  String, Bool, true, false, not, ◌||◌, ◌==◌, Option, none, some, str_eq, if◌then◌else◌,
}
use kokoadb.Error.{AppResult, ok, err, bad_request, ◌>>=◌}
use kokoadb.Json.{
  F64, pos_int, neg_int, float, I64, nonneg, minus, Value, null, number, string, array, object,
  Fields, end, field, as_i64, as_str, as_bool,
}
use kokoadb.Text.{◌<>◌, starts_with, ends_with, contains_part}
use kokoadb.Host.{Host}

abbrev pub is_gt : Ordering → Bool
is_gt gt = true
is_gt _ = false

abbrev pub is_lt : Ordering → Bool
is_lt lt = true
is_lt _ = false

abbrev pub is_eq : Ordering → Bool
is_eq eq = true
is_eq _ = false

abbrev compare_i64 : I64 → I64 → Ordering
compare_i64 (nonneg m) (nonneg n) = Nat.compare m n
compare_i64 (nonneg m) (minus n) = gt
compare_i64 (minus m) (nonneg n) = lt
compare_i64 (minus m) (minus n) = Nat.compare n m

-- `Value::as_f64`
abbrev as_f64 : Value → Option F64
as_f64 (number (pos_int n)) = some (F64.nearest n)
as_f64 (number (neg_int n)) = some (F64.nearest_minus n)
as_f64 (number (float f)) = some f
as_f64 _ = none

abbrev compare_texts : Option String → Option String → Option Ordering
compare_texts (some s) (some t) = some (String.compare s t)
compare_texts _ _ = none

abbrev compare_floats : Host → Option F64 → Option F64 → Option Ordering → Option Ordering
compare_floats host (some f) (some g) other = host.partial_cmp f g
compare_floats host _ _ other = other

unfoldable pub json_filter_compare : Host → Value → Value → Option Ordering
json_filter_compare host left right =
    compare_floats host (as_f64 left) (as_f64 right) (compare_texts (as_str left) (as_str right))

-- The last of the tests is the branch for every other operator.
unfoldable pub order_holds : String → Ordering → Bool
order_holds operator o =
    if str_eq operator "$gt"
    then is_gt o
    else if str_eq operator "$gte"
    then not (is_lt o)
    else if str_eq operator "$lt"
    then is_lt o
    else not (is_gt o)

unfoldable pub order_matches : String → Option Ordering → AppResult Bool
order_matches operator (some o) = ok (order_holds operator o)
order_matches operator none =
    err (bad_request (operator <> " in array filter requires comparable numbers or strings"))

unfoldable pub size_operator : String → Ordering → AppResult Bool
size_operator operator o =
    if str_eq operator "$eq"
    then ok (is_eq o)
    else if str_eq operator "$ne"
    then ok (not (is_eq o))
    else if str_eq operator "$gt"
    then ok (is_gt o)
    else if str_eq operator "$gte"
    then ok (not (is_lt o))
    else if str_eq operator "$lt"
    then ok (is_lt o)
    else if str_eq operator "$lte"
    then ok (not (is_gt o))
    else err (bad_request ("unsupported $size operator in array filter: " <> operator))

abbrev size_test : I64 → String → Option I64 → AppResult Bool
size_test size operator none = err (bad_request ("$size " <> operator <> " expects an integer"))
size_test size operator (some n) = size_operator operator (compare_i64 size n)

unfoldable pub size_tests : I64 → Fields → AppResult Bool
size_tests size end = ok true
size_tests size (field operator expected rest) = do
  matched ← size_test size operator (as_i64 expected)
  if matched then size_tests size rest else ok false

abbrev size_of_object : I64 → Value → AppResult Bool
size_of_object size (object operators) = size_tests size operators
size_of_object size _ = err (bad_request "$size expects an integer or comparison object")

abbrev size_by : I64 → Value → Option I64 → AppResult Bool
size_by size expected (some n) = ok (is_eq (compare_i64 size n))
size_by size expected none = size_of_object size expected

unfoldable pub json_size_filter_matches : I64 → Value → AppResult Bool
json_size_filter_matches size expected = size_by size expected (as_i64 expected)

abbrev is_number : Value → Bool
is_number (number n) = true
is_number _ = false

abbrev is_string : Value → Bool
is_string (string s) = true
is_string _ = false

abbrev is_array : Value → Bool
is_array (array xs) = true
is_array _ = false

abbrev is_object : Value → Bool
is_object (object fs) = true
is_object _ = false

abbrev is_null : Value → Bool
is_null null = true
is_null _ = false

-- It is an i64 or a u64.
abbrev is_integer : Value → Bool
is_integer (number (pos_int n)) = true
is_integer (number (neg_int n)) = true
is_integer _ = false

abbrev is_real : Value → Bool
is_real (number (float f)) = true
is_real _ = false

abbrev is_bool : Option Bool → Bool
is_bool (some b) = true
is_bool none = false

abbrev is_true : Option Bool → Bool
is_true (some b) = b
is_true none = false

abbrev is_false : Option Bool → Bool
is_false (some b) = not b
is_false none = false

unfoldable pub json_filter_type_matches : Value → String → Bool
json_filter_type_matches value expected =
    if str_eq expected "number"
    then is_number value
    else if str_eq expected "boolean"
    then is_bool (as_bool value)
    else if str_eq expected "string" || str_eq expected "text"
    then is_string value
    else if str_eq expected "array"
    then is_array value
    else if str_eq expected "object"
    then is_object value
    else if str_eq expected "null"
    then is_null value
    else if str_eq expected "integer"
    then is_integer value
    else if str_eq expected "real"
    then is_real value
    else if str_eq expected "true"
    then is_true (as_bool value)
    else if str_eq expected "false"
    then is_false (as_bool value)
    else false

-- The regular expression for the characters of a pattern of `LIKE`.
unfoldable pub like_body : Host → String → String
like_body host String.[] = ""
like_body host (String.◌∷◌ c rest) =
    (if code c == b'%' then ".*" else if code c == b'_' then "." else host.escape (String.◌∷◌ c ""))
    <> like_body host rest

abbrev matches_or_not : Option (String → Bool) → String → Bool
matches_or_not (some is_match) value = is_match value
matches_or_not none value = false

unfoldable pub json_like_matches : Host → String → String → Bool
json_like_matches host value pattern =
    matches_or_not (host.regex ("^" <> like_body host pattern <> "$")) value

unfoldable pub is_insensitive : String → Bool
is_insensitive operator = starts_with "$i" operator

abbrev folded : Host → String → String → String
folded host operator s = if is_insensitive operator then host.to_lowercase s else s

unfoldable pub text_test : Host → String → String → String → Bool
text_test host operator actual expected =
    if str_eq operator "$startsWith" || str_eq operator "$istartsWith"
    then starts_with expected actual
    else if str_eq operator "$endsWith" || str_eq operator "$iendsWith"
    then ends_with expected actual
    else if str_eq operator "$contains" || str_eq operator "$icontains"
    then contains_part expected actual
    else json_like_matches host actual expected

unfoldable pub text_matches : Host → String → Option String → Option String → AppResult Bool
text_matches host operator none expected =
    err (bad_request (operator <> " requires a string field"))
text_matches host operator (some actual) none = err (bad_request (operator <> " expects a string"))
text_matches host operator (some actual) (some expected) =
    ok (text_test host operator (folded host operator actual) (folded host operator expected))

abbrev regex_test : Option (String → Bool) → String → AppResult Bool
regex_test (some is_match) actual = ok (is_match actual)
regex_test none actual = err (bad_request "invalid $regex in array filter: ")

unfoldable pub regex_matches : Host → Option String → Option String → AppResult Bool
regex_matches host none pattern = err (bad_request "$regex requires a string field")
regex_matches host (some actual) none = err (bad_request "$regex expects a string")
regex_matches host (some actual) (some pattern) = regex_test (host.regex pattern) actual
