-- ===== src/ArrayFilter/Choices.antt =====
-- src/service/dispatcher/tx_mutation.rs: which operator an array filter applies to a value.
use Prim.Native.Nat.{Ordering}
use kokoadb.Prelude.{
  ℕ, suc, String, Bool, true, false, not, ◌&&◌, List, [], ◌∷◌, any, all, Option, none, some, str_eq,
  if◌then◌else◌,
}
use kokoadb.Error.{AppResult, ok, err, bad_request, ◌>>=◌}
use kokoadb.Json.{nonneg, Value, array, Items, nil, cons, items, as_str, as_bool, as_array}
use kokoadb.Json.Equality.{same_value, contains_value}
use kokoadb.Text.{◌<>◌}
use kokoadb.Host.{Host}
use kokoadb.ArrayFilter.Operators.{
  is_lt, is_gt, json_filter_compare, order_matches, json_size_filter_matches,
  json_filter_type_matches, text_matches, regex_matches,
}

abbrev pub exists_matches : Option Value → Option Bool → AppResult Bool
exists_matches actual none = err (bad_request "$exists in array filter expects boolean")
exists_matches none (some should_exist) = ok (not should_exist)
exists_matches (some v) (some should_exist) = ok should_exist

abbrev pub cannot_be_empty : {A : Type 0} → String → AppResult A
cannot_be_empty operator = err (bad_request (operator <> " in array filter cannot be empty"))

-- `$in`, and `$nin` where the answer is turned around.
abbrev pub choice_matches : Host → String → Value → Option Items → AppResult Bool
choice_matches host operator actual none =
    err (bad_request (operator <> " in array filter expects an array"))
choice_matches host operator actual (some nil) = cannot_be_empty operator
choice_matches host operator actual (some (cons c cs)) =
    let found = contains_value host.partial_cmp (cons c cs) actual in
    ok (if str_eq operator "$in" then found else not found)

abbrev pub is_ge_some : Option Ordering → Bool
is_ge_some none = false
is_ge_some (some o) = not (is_lt o)

abbrev pub is_le_some : Option Ordering → Bool
is_le_some none = false
is_le_some (some o) = not (is_gt o)

abbrev pub between_matches : Host → Value → Value → AppResult Bool
between_matches host actual (array (cons low (cons high nil))) = ok (
    is_ge_some (json_filter_compare host actual low)
    && is_le_some (json_filter_compare host actual high))
between_matches host actual _ =
    err (bad_request "$between in array filter expects exactly two values")

abbrev pub count : Items → ℕ
count nil = 0
count (cons v vs) = suc (count vs)

abbrev pub size_matches : Option Items → Value → AppResult Bool
size_matches none expected = err (bad_request "$size requires an array field")
size_matches (some xs) expected = json_size_filter_matches (nonneg (count xs)) expected

abbrev pub type_matches : Value → Option String → AppResult Bool
type_matches actual none = err (bad_request "$type expects a string")
type_matches actual (some expected) = ok (json_filter_type_matches actual expected)

abbrev pub requires_array : {A : Type 0} → String → AppResult A
requires_array operator = err (bad_request (operator <> " requires an array field"))

abbrev pub includes_matches : Host → String → Option Items → Value → AppResult Bool
includes_matches host operator none expected = requires_array operator
includes_matches host operator (some xs) expected =
    let found = contains_value host.partial_cmp xs expected in
    ok (if str_eq operator "$includes" then found else not found)

unfoldable pub sets_match : Host → String → Items → Items → Bool
sets_match host operator xs expected =
    if str_eq operator "$any"
    then any (contains_value host.partial_cmp xs) (items expected)
    else if str_eq operator "$all"
    then all (contains_value host.partial_cmp xs) (items expected)
    else all (λ v. not (contains_value host.partial_cmp xs v)) (items expected)

abbrev pub set_matches : Host → String → Option Items → Option Items → AppResult Bool
set_matches host operator none expected = requires_array operator
set_matches host operator (some xs) none = err (bad_request (operator <> " expects an array"))
set_matches host operator (some xs) (some nil) = cannot_be_empty operator
set_matches host operator (some xs) (some (cons v vs)) =
    ok (sets_match host operator xs (cons v vs))

-- The first of the values that passes a test ends the loop; so does an error.
unfoldable pub first_match : (Value → AppResult Bool) → List Value → AppResult Bool
first_match test [] = ok false
first_match test (v ∷ vs) =
    let rest = first_match test vs in do matched ← test v; if matched then ok true else rest

abbrev pub elem_matches : (Value → AppResult Bool) → Option Items → AppResult Bool
elem_matches nested none = err (bad_request "$elemMatch requires an array field")
elem_matches nested (some xs) = first_match nested (items xs)

abbrev pub is_one_of : String → List String → Bool
is_one_of s names = any (str_eq s) names

-- An operator on a value that is there. `nested` matches `expected` as a filter, for `$elemMatch`.
unfoldable pub operator_matches :
    Host → (Value → AppResult Bool) → Value → String → Value → AppResult Bool
operator_matches host nested actual operator expected =
    if str_eq operator "$eq"
    then ok (same_value host.partial_cmp actual expected)
    else if str_eq operator "$ne"
    then ok (not (same_value host.partial_cmp actual expected))
    else if is_one_of operator ("$gt" ∷ "$gte" ∷ "$lt" ∷ "$lte" ∷ [])
    then order_matches operator (json_filter_compare host actual expected)
    else if is_one_of operator ("$in" ∷ "$nin" ∷ [])
    then choice_matches host operator actual (as_array expected)
    else if str_eq operator "$between"
    then between_matches host actual expected
    else if is_one_of operator (
        "$startsWith" ∷ "$endsWith" ∷ "$contains" ∷ "$ilike" ∷ "$istartsWith" ∷ "$iendsWith"
        ∷ "$icontains" ∷ [])
    then text_matches host operator (as_str actual) (as_str expected)
    else if str_eq operator "$regex"
    then regex_matches host (as_str actual) (as_str expected)
    else if str_eq operator "$size"
    then size_matches (as_array actual) expected
    else if str_eq operator "$type"
    then type_matches actual (as_str expected)
    else if is_one_of operator ("$includes" ∷ "$nincludes" ∷ [])
    then includes_matches host operator (as_array actual) expected
    else if is_one_of operator ("$any" ∷ "$all" ∷ "$none" ∷ [])
    then set_matches host operator (as_array actual) (as_array expected)
    else if str_eq operator "$elemMatch"
    then elem_matches nested (as_array actual)
    else err (bad_request ("unsupported operator in array filter: " <> operator))

abbrev pub on_actual :
    Host → (Value → AppResult Bool) → Option Value → String → Value → AppResult Bool
on_actual host nested none operator expected = ok false
on_actual host nested (some actual) operator expected =
    operator_matches host nested actual operator expected

unfoldable pub json_filter_operator_matches :
    Host → (Value → AppResult Bool) → Option Value → String → Value → AppResult Bool
json_filter_operator_matches host nested actual operator expected =
    if str_eq operator "$exists"
    then exists_matches actual (as_bool expected)
    else on_actual host nested actual operator expected
