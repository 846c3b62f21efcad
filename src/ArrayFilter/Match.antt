-- ===== src/ArrayFilter/Match.antt =====
-- src/service/dispatcher/tx_mutation.rs: an array filter on one element of the array.
use kokoadb.Prelude.{
  String, Bool, true, false, not, ◌&&◌, ◌||◌, List, [], ◌∷◌, any, all, Option, none, some, str_eq,
  if◌then◌else◌,
}
use kokoadb.Error.{AppResult, ok, err, bad_request, ◌>>=◌}
use kokoadb.Json.{Value, array, object, Items, nil, cons, Fields, end, field}
use kokoadb.Json.Equality.{same_value}
use kokoadb.Text.{◌<>◌, starts_with_char}
use kokoadb.Host.{Host}
use kokoadb.ArrayFilter.Paths.{json_filter_values}
use kokoadb.ArrayFilter.Choices.{
  is_one_of, cannot_be_empty, first_match, json_filter_operator_matches,
}

-- `result.unwrap_or(false)`
abbrev pub or_false : AppResult Bool → Bool
or_false (ok b) = b
or_false _ = false

abbrev pub first : List Value → Option Value
first [] = none
first (v ∷ vs) = some v

abbrev pub is_empty_list : List Value → Bool
is_empty_list [] = true
is_empty_list (v ∷ vs) = false

unfoldable pub is_negative : String → Bool
is_negative operator =
    str_eq operator "$ne" || str_eq operator "$nin" || str_eq operator "$nincludes"

-- One operator of a predicate, on the values found at a path.
unfoldable pub values_match :
    Host → (Value → AppResult Bool) → List Value → String → Value → AppResult Bool
values_match host nested values operator expected =
    if is_negative operator
    then ok (
        not (is_empty_list values)
        && all (λ v. or_false (json_filter_operator_matches host nested (some v) operator expected))
            values)
    else if str_eq operator "$exists"
    then json_filter_operator_matches host nested (first values) operator expected
    else first_match (λ v. json_filter_operator_matches host nested (some v) operator expected)
        values

-- Whether every key begins with `$`, and there is one.
unfoldable pub all_operators : Fields → Bool
all_operators end = true
all_operators (field key v rest) = starts_with_char b'$' key && all_operators rest

abbrev pub is_predicate : Fields → Bool
is_predicate end = false
is_predicate (field key v rest) = all_operators (field key v rest)

abbrev pub any_same : Host → Value → List Value → AppResult Bool
any_same host predicate values = ok (any (λ v. same_value host.partial_cmp v predicate) values)

-- `$and`, `$or` and `$nor`, of the answers to the nested filters.
unfoldable pub combine_answers : String → List Bool → Bool
combine_answers key answers =
    if str_eq key "$and"
    then all (λ b. b) answers
    else if str_eq key "$or"
    then any (λ b. b) answers
    else not (any (λ b. b) answers)

abbrev pub combined : String → Value → AppResult (List Bool) → AppResult Bool
combined key (array nil) answers = cannot_be_empty key
combined key (array xs) answers = answers >>= λ bs. ok (combine_answers key bs)
combined key _ answers = err (bad_request (key <> " in array filter must be an array"))

-- One key of a filter. `inner`, `answers` and `on_values` are the calls of the functions below for the
-- predicate as a filter, as an array of filters, and as a predicate on the values at a path.
unfoldable pub field_matches :
    Host
    → String
    → Value
    → Value
    → (Value → AppResult Bool)
    → AppResult (List Bool)
    → (List Value → AppResult Bool)
    → AppResult Bool
field_matches host key predicate candidate inner answers on_values =
    if is_one_of key ("$and" ∷ "$or" ∷ "$nor" ∷ [])
    then combined key predicate answers
    else if str_eq key "$not"
    then inner candidate >>= (λ b. ok (not b))
    else if starts_with_char b'$' key
    then json_filter_operator_matches host inner (some candidate) key predicate
    else json_filter_values candidate key >>= on_values

unfoldable mutual
  pub json_filter_matches : Host → Value → Value → AppResult Bool
  json_filter_matches host (object fs) candidate = fields_match host fs candidate
  json_filter_matches host _ candidate = err (bad_request "array filter must be an object")

  pub fields_match : Host → Fields → Value → AppResult Bool
  fields_match host end candidate = ok true
  fields_match host (field key predicate rest) candidate =
      let more = fields_match host rest candidate in
      do
        matched ←
            field_matches host key predicate candidate (json_filter_matches host predicate)
              (nested_matches host predicate candidate)
              (json_field_predicate_matches host predicate)
        if matched then more else ok false

  -- The answers of the filters in an array.
  pub nested_matches : Host → Value → Value → AppResult (List Bool)
  nested_matches host (array xs) candidate = items_match host xs candidate
  nested_matches host _ candidate = ok []

  pub items_match : Host → Items → Value → AppResult (List Bool)
  items_match host nil candidate = ok []
  items_match host (cons filter rest) candidate = do
    b ← json_filter_matches host filter candidate
    bs ← items_match host rest candidate
    ok (b ∷ bs)

  pub json_field_predicate_matches : Host → Value → List Value → AppResult Bool
  json_field_predicate_matches host (object operators) values =
      let answer = operators_match host operators values in
      if is_predicate operators then answer else any_same host (object operators) values
  json_field_predicate_matches host predicate values = any_same host predicate values

  pub operators_match : Host → Fields → List Value → AppResult Bool
  operators_match host end values = ok true
  operators_match host (field operator expected rest) values =
      let more = operators_match host rest values in
      do
        matched ← values_match host (json_filter_matches host expected) values operator expected
        if matched then more else ok false
