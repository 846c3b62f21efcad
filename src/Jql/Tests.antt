-- ===== src/Jql/Tests.antt =====
-- Filters of src/query/jql.rs compiled, its own tests among them, and instances of the theorems.
use kokoadb.Prelude.{◌≡◌, refl, [], ◌∷◌}
use kokoadb.Error.{ok, err, bad_request, Ensures}
use kokoadb.Json.{
  Value, number, pos_int, string, array, object, nil, cons, end, field, singleton, text, integer,
  nonneg,
}
use kokoadb.Text.{
  split, join, strip_suffix, all_chars, count_char, contains_char, count_pair, is_word_char,
}
use kokoadb.Jql.Path.{
  has_bracket, validate_segments, validate_path, json_path_expr, json_array_expr, split_from,
  split_first_array_path, pattern_from, array_path_fullkey_pattern,
}
use kokoadb.Jql.Alias.{
  bytes, fnv_from, fnv, hex_digit, hex_from, hex, json_each_alias, json_tree_alias,
}
use kokoadb.Jql.Operator.{
  json_to_sql_value, bind_all, expect_string, expect_array, expect_items, parse_comparison,
  against_placeholder, parse_operator, placeholders, push_like, push_value, push_list, push_exists,
  compile_size_predicate, is_sqlite_type, compile_type_predicate, run_operator, compile_operator,
  compile_operators,
}
use kokoadb.Jql.Filter.{
  compile_elem_match, compile_nested, combine, compile_logical, compile_not, push_field,
  compile_entry, compile_entries, filter_body, compile_scalar_field,
  compile_nested_array_field_expr, is_operator_object, element_filter, by_marker, field_body,
  compile_filter_on_base, weight, filter_fuel, build_where_on_base, build_where,
}
use kokoadb.Jql.Flat.Fragment.{IsFlat}
use kokoadb.Jql.Flat.Filter.{build_where_on_base-Ensures, data_Flat}

jql : Unit {0}
unfolding split join strip_suffix all_chars count_char contains_char count_pair is_word_char
    has_bracket validate_segments validate_path json_path_expr json_array_expr split_from
    split_first_array_path pattern_from array_path_fullkey_pattern bytes fnv_from fnv hex_digit
    hex_from hex json_each_alias json_tree_alias json_to_sql_value bind_all expect_string
    expect_array expect_items parse_comparison against_placeholder parse_operator placeholders
    push_like push_value push_list push_exists compile_size_predicate is_sqlite_type
    compile_type_predicate run_operator compile_operator compile_operators compile_elem_match
    compile_nested combine compile_logical compile_not push_field compile_entry compile_entries
    filter_body compile_scalar_field compile_nested_array_field_expr is_operator_object
    element_filter by_marker field_body compile_filter_on_base weight filter_fuel
    build_where_on_base build_where
jql = tt

abbrev team_filter : Value
team_filter = singleton "departments[].teams[].members[].name" (string "Ada")

-- `nested_array_paths_compile_recursively`
nested_array_paths :
    build_where team_filter
    ≡ ok (record {
      sql =
          "EXISTS (SELECT 1 FROM json_tree(data) jt_f3b36610a9c5202e WHERE jt_f3b36610a9c5202e.fullkey LIKE ? AND jt_f3b36610a9c5202e.atom = ?)";
      binds = text "$.departments[%].teams[%].members[%].name" ∷ text "Ada" ∷ [];
    })
unfolding jql
nested_array_paths = refl

-- `scalar_array_paths_support_operator_objects`
scalar_array_paths :
    build_where (singleton "scores[]" (singleton "$gte" (number (pos_int 90))))
    ≡ ok (record {
      sql =
          "EXISTS (SELECT 1 FROM json_each(json_extract(data, '$.scores')) je_b3141549809d0439 WHERE (je_b3141549809d0439.value) >= ?)";
      binds = integer (nonneg 90) ∷ [];
    })
unfolding jql
scalar_array_paths = refl

abbrev or_filter : Value
or_filter = object (
    field "$or"
      (array
        (cons (singleton "a" (number (pos_int 1))) (cons (singleton "b" (number (pos_int 2))) nil)))
      (field "c" (number (pos_int 3)) end))

-- The alternatives of `$or` stand beside the other conditions without parentheses of their own.
or_beside_a_field :
    build_where or_filter
    ≡ ok (record {
      sql = "(data ->> '$.a' = ?) OR (data ->> '$.b' = ?) AND data ->> '$.c' = ?";
      binds = integer (nonneg 1) ∷ integer (nonneg 2) ∷ integer (nonneg 3) ∷ [];
    })
unfolding jql
or_beside_a_field = refl

-- An empty `$size` object in an element filter leaves the condition empty.
empty_element_condition :
    build_where (singleton "tags" (singleton "$elemMatch" (singleton "$size" (object end))))
    ≡ ok (record {
      sql =
          "EXISTS (SELECT 1 FROM json_each(json_extract(data, '$.tags')) je_b0cfaa55feb2a41f WHERE )";
      binds = [];
    })
unfolding jql
empty_element_condition = refl

bad_path :
    build_where (singleton "a'b" (string "x"))
    ≡ err (bad_request "invalid filter path segment: a'b")
unfolding jql
bad_path = refl

build_where_on_base-Ensures_example : Ensures IsFlat (build_where_on_base "data" or_filter)
build_where_on_base-Ensures_example = build_where_on_base-Ensures "data" or_filter data_Flat
