-- ===== src/Sort/Tests.antt =====
-- Sorts of a request and their clauses, one with an apostrophe, and an instance of the theorem.
use kokoadb.Prelude.{◌≡◌, refl, false, none, some}
use kokoadb.Error.{ok, err, bad_request, Ensures}
use kokoadb.Json.{Value, string, singleton, number, pos_int, neg_int}
use kokoadb.Text.{
  join, split, trim, trim_start, trim_end, is_whitespace, split_whitespace, lowercase_is,
  contains_text, all_chars,
}
use kokoadb.Sql.{scan, outside}
use kokoadb.Sql.Spans.{Flat}
use kokoadb.Sort.{
  any_blank, validate_projection_path, named_direction, direction_from, parse_sort_dir, is_column,
  document_expr, score_expr, sort_expr, last_word, token_direction, parse_words, parse_token,
  parse_tokens, parse_sort_string, order_part, order_parts, field_directions, known_directions,
  build_order_by_for_context, build_order_by, build_search_order_by,
}
use kokoadb.Sort.Flat.{UnquotedPaths, build_order_by-Ensures}

sorts : Unit {0}
unfolding join split trim trim_start trim_end is_whitespace split_whitespace lowercase_is
    contains_text any_blank validate_projection_path named_direction direction_from parse_sort_dir
    is_column document_expr score_expr sort_expr last_word token_direction parse_words parse_token
    parse_tokens parse_sort_string order_part order_parts field_directions known_directions
    build_order_by_for_context build_order_by build_search_order_by
sorts = tt

by_name_and_age :
    build_order_by (some (string "name, profile.age DESC"))
    ≡ ok "json_extract(data, '$.name') ASC, json_extract(data, '$.profile.age') DESC"
unfolding sorts
by_name_and_age = refl

by_score :
    build_search_order_by (some (singleton "_search_score" (number (neg_int 0)))) ≡ ok "_score DESC"
unfolding sorts
by_score = refl

same_path_twice :
    build_order_by (some (string "name,name desc")) ≡ err (bad_request "duplicate sort path: name")
unfolding sorts
same_path_twice = refl

-- The apostrophe of the path ends the literal, and what follows it is read as SQL.
abbrev with_apostrophe : Value
with_apostrophe = singleton "a'); DROP TABLE t; --" (number (pos_int 1))

path_leaves_its_literal :
    build_order_by (some with_apostrophe) ≡ ok "json_extract(data, '$.a'); DROP TABLE t; --') ASC"
unfolding sorts
path_leaves_its_literal = refl

clause_is_not_flat : scan "json_extract(data, '$.a'); DROP TABLE t; --') ASC" (outside 0 0) ≡ none
unfolding scan
clause_is_not_flat = refl

abbrev by_age : Value
by_age = singleton "profile.age" (string "desc")

by_age-UnquotedPaths : UnquotedPaths (some by_age)
unfolding UnquotedPaths all_chars
by_age-UnquotedPaths = (refl, tt)

build_order_by-Ensures_example :
    Ensures (λ clause. Flat clause 0) (build_order_by_for_context (some by_age) false)
build_order_by-Ensures_example = build_order_by-Ensures (some by_age) false by_age-UnquotedPaths
