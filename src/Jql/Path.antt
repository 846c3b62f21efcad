-- ===== src/Jql/Path.antt =====
-- src/query/jql.rs: dotted filter paths, array markers `[]`, and the expressions made from paths.
use kokoadb.Prelude.{
  ℕ, String, Bool, not, ◌||◌, List, [], ◌∷◌, ◌++◌, Option, none, some, if◌then◌else◌, any,
}
use kokoadb.Error.{AppResult, ok, err, bad_request, ◌>>◌}
use kokoadb.Text.{◌<>◌, split, join, strip_suffix, all_chars, contains_char, is_empty, is_word_char}

abbrev pub dot : ℕ
dot = b'.'

abbrev pub open_bracket : ℕ
open_bracket = b'['

abbrev pub close_bracket : ℕ
close_bracket = b']'

unfoldable pub has_bracket : String → Bool
has_bracket s = contains_char open_bracket s || contains_char close_bracket s

-- The loop of `validate_path` over the segments.
unfoldable pub validate_segments : List String → AppResult (Unit {0})
validate_segments [] = ok tt
validate_segments (segment ∷ rest) =
    let next = validate_segments rest in
    if is_empty segment
    then err (bad_request "invalid filter path")
    else if not (all_chars is_word_char segment)
    then err (bad_request ("invalid filter path segment: " <> segment))
    else next

unfoldable pub validate_path : String → AppResult (Unit {0})
validate_path path =
    if is_empty path
    then err (bad_request "filter path cannot be empty")
    else validate_segments (split dot path)

unfoldable pub json_path_expr : String → String → AppResult String
json_path_expr base_expr path = do validate_path path; ok (base_expr <> (" ->> '$." <> path <> "'"))

unfoldable pub json_array_expr : String → String → AppResult String
json_array_expr base_expr path = do
  validate_path path
  ok ("json_extract(" <> base_expr <> (", '$." <> path <> "')"))

bad_segment : String → String → String
bad_segment segment hint = "invalid array filter path segment: " <> segment <> hint

-- The loop of `split_first_array_path`; `prefix` holds the segments passed.
unfoldable pub split_from : List String → List String → AppResult (Option (String × String))
unfolding bad_segment
split_from prefix [] = ok none
split_from prefix (segment ∷ rest) =
    let next = split_from (prefix ++ segment ∷ []) rest in
    elim (strip_suffix "[]" segment) [
      | some field ↦
          if is_empty field || has_bracket field
          then err (bad_request (bad_segment segment ""))
          else ok (some (join "." (prefix ++ field ∷ []), join "." rest))
      | none ↦
          if has_bracket segment then err (bad_request (bad_segment segment "; use []")) else next
    ]

-- The path up to its first `[]`, and what follows; `none` if it has no `[]`.
unfoldable pub split_first_array_path : String → AppResult (Option (String × String))
split_first_array_path path =
    let segments = split dot path in
    if any is_empty segments
    then err (bad_request "invalid filter path")
    else split_from [] segments

-- The loop of `array_path_fullkey_pattern`.
unfoldable pub pattern_from : String → List String → AppResult String
unfolding bad_segment
pattern_from pattern [] = ok pattern
pattern_from pattern (segment ∷ rest) = elim (strip_suffix "[]" segment) [
  | some field ↦
      let next = pattern_from (pattern <> "." <> field <> "[%]") rest in
      if is_empty field || has_bracket field
      then err (bad_request (bad_segment segment ""))
      else next
  | none ↦
      let next = pattern_from (pattern <> "." <> segment) rest in
      if is_empty segment || not (all_chars is_word_char segment)
      then err (bad_request "invalid filter path")
      else next
]

unfoldable pub array_path_fullkey_pattern : String → AppResult String
array_path_fullkey_pattern path = pattern_from "$" (split dot path)
