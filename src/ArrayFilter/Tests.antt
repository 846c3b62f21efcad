-- ===== src/ArrayFilter/Tests.antt =====
-- Filters on one value, and instances of the theorems.
use kokoadb.Prelude.{◌≡◌, refl, true, false, [], ◌∷◌}
use kokoadb.Error.{ok, err, bad_request}
use kokoadb.Json.{
  Value, null, string, number, pos_int, array, nil, cons, Items, object, field, end, singleton,
}
use kokoadb.Json.Equality.{same_value, contains_value}
use kokoadb.Text.{split, strip_suffix, contains_char, starts_with}
use kokoadb.Doc.{get_field}
use kokoadb.Host.Example.{example_host}
use kokoadb.ArrayFilter.Operators.{json_filter_compare, order_holds, order_matches}
use kokoadb.ArrayFilter.Paths.{step_all, walk_path, json_filter_values}
use kokoadb.ArrayFilter.Choices.{operator_matches, json_filter_operator_matches, first_match}
use kokoadb.ArrayFilter.Match.{
  is_negative, values_match, all_operators, combine_answers, field_matches, json_filter_matches,
  json_field_predicate_matches,
}
use kokoadb.ArrayFilter.Opposites.{or-nor, nin-excludes}

filters : Unit {0}
unfolding same_value contains_value split strip_suffix contains_char starts_with get_field
    json_filter_compare order_holds order_matches step_all walk_path json_filter_values
    operator_matches json_filter_operator_matches first_match is_negative values_match all_operators
    combine_answers field_matches json_filter_matches
filters = tt

abbrev line : Value
line = object (field "price" (number (pos_int 12)) (field "sku" (string "a1") end))

abbrev either : Items
either =
    cons (singleton "sku" (string "b2"))
      (cons (singleton "price" (singleton "$gte" (number (pos_int 10)))) nil)

line-matches : json_filter_matches example_host (singleton "$or" (array either)) line ≡ ok true
unfolding filters
line-matches = refl

line-incomparable :
    json_filter_matches example_host (singleton "price" (singleton "$lt" (string "x"))) line
    ≡ err (bad_request "$lt in array filter requires comparable numbers or strings")
unfolding filters
line-incomparable = refl

or-nor_example : json_filter_matches example_host (singleton "$nor" (array either)) line ≡ ok false
or-nor_example = or-nor example_host either line true line-matches

abbrev choices : Value
choices = array (cons (string "b2") (cons (string "c3") nil))

nin-holds :
    json_field_predicate_matches example_host (singleton "$nin" choices) (string "a1" ∷ null ∷ [])
    ≡ ok true
unfolding filters
nin-holds = refl

nin-excludes_example :
    json_field_predicate_matches example_host (singleton "$in" choices) (string "a1" ∷ null ∷ [])
    ≡ ok false
nin-excludes_example = nin-excludes example_host choices (string "a1" ∷ null ∷ []) nin-holds
