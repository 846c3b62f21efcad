-- ===== src/Sort.antt =====
-- src/service/dispatcher/query_support.rs: the `ORDER BY` clause of a read, from the sort of a request.
pub mod Flat
pub mod Parts
mod Tests
use kokoadb.Prelude.{
  ℕ, String, Bool, true, false, not, ◌&&◌, ◌||◌, List, [], ◌∷◌, ◌++◌, Option, none, some, str_eq,
  if◌then◌else◌,
}
use kokoadb.Error.{AppResult, ok, err, bad_request, ◌>>=◌, ◌>>◌}
use kokoadb.Json.{
  Value, object, string, Fields, end, field, fields, as_i64, as_str, I64, nonneg, minus,
}
use kokoadb.Text.{◌<>◌, join, split, trim, is_empty, split_whitespace, lowercase_is, contains_text}

unfoldable pub any_blank : List String → Bool
any_blank [] = false
any_blank (p ∷ ps) = is_empty (trim p) || any_blank ps

unfoldable pub validate_projection_path : String → String → AppResult (Unit {0})
validate_projection_path path field_name =
    if is_empty (trim path)
    then err (bad_request (field_name <> " contains empty path"))
    else if any_blank (split b'.' path)
    then err (bad_request (field_name <> " contains invalid path: " <> path))
    else ok tt

bad_direction : AppResult String
bad_direction = err (bad_request "sort direction must be 1|-1|asc|desc")

-- `parse_sort_dir`, of a value that is no integer.
unfoldable pub named_direction : Option String → AppResult String
unfolding bad_direction
named_direction (some s) =
    if lowercase_is s "asc" || lowercase_is s "1"
    then ok "ASC"
    else if lowercase_is s "desc" || lowercase_is s "-1"
    then ok "DESC"
    else bad_direction
named_direction none = bad_direction

unfoldable pub direction_from : Option I64 → Option String → AppResult String
direction_from (some (nonneg n)) name = ok "ASC"
direction_from (some (minus n)) name = ok "DESC"
direction_from none name = named_direction name

unfoldable pub parse_sort_dir : Value → AppResult String
parse_sort_dir v = direction_from (as_i64 v) (as_str v)

unfoldable pub is_column : String → Bool
is_column path =
    str_eq path "_created_at"
    || str_eq path "_modified_at"
    || str_eq path "_expires_at"
    || str_eq path "_size_bytes"
    || str_eq path "_expiry_behavior"
    || str_eq path "_txn_id"

-- The last branch of `sort_expr`: a path into the document.
unfoldable pub document_expr : String → AppResult String
document_expr path = do
  validate_projection_path path "sort"
  ok ("json_extract(data, " <> ("'$." <> path <> "'") <> ")")

-- The branches of `sort_expr` for `_search_score`.
unfoldable pub score_expr : Bool → AppResult String
score_expr true = ok "_score"
score_expr false =
    err (bad_request "_search_score sort is only available when payload.search is used")

unfoldable pub sort_expr : String → Bool → AppResult String
sort_expr path allow_search_score =
    if str_eq path "_search_score"
    then score_expr allow_search_score
    else if str_eq path "id" || str_eq path "_id"
    then ok "id"
    else if str_eq path "_namespace"
    then ok "collection"
    else if is_column path
    then ok path
    else document_expr path

-- The direction, unless more words follow it.
unfoldable pub last_word : String → List String → AppResult String
last_word direction [] = ok direction
last_word direction (x ∷ xs) = err (bad_request "sort string token has too many parts")

-- The direction of a token in a sort string, from what stands after its path.
unfoldable pub token_direction : List String → AppResult String
token_direction [] = ok "ASC"
token_direction (dir ∷ more) =
    if lowercase_is dir "asc"
    then last_word "ASC" more
    else if lowercase_is dir "desc"
    then last_word "DESC" more
    else err (bad_request "sort direction must be ASC or DESC in string mode")

unfoldable pub parse_words : List String → AppResult (String × String)
parse_words [] = err (bad_request "sort token missing path")
parse_words (path ∷ more) = do
  validate_projection_path path "sort"
  direction ← token_direction more
  ok (path, direction)

unfoldable pub parse_token : String → AppResult (String × String)
parse_token raw =
    if is_empty (trim raw)
    then err (bad_request "sort string contains empty token")
    else parse_words (split_whitespace (trim raw))

unfoldable pub parse_tokens : List String → AppResult (List (String × String))
parse_tokens [] = ok []
parse_tokens (raw ∷ rest) = do
  entry ← parse_token raw
  entries ← parse_tokens rest
  ok (entry ∷ entries)

unfoldable pub parse_sort_string : String → AppResult (List (String × String))
parse_sort_string input =
    if is_empty (trim input)
    then err (bad_request "sort string cannot be empty")
    else parse_tokens (split b',' (trim input))

-- One round of the loops of `build_order_by_for_context`: `direction` is computed between the test for
-- duplicates and the expression.
unfoldable pub order_part : Bool → String → AppResult String → List String → AppResult String
order_part allow path direction seen =
    if contains_text path seen
    then err (bad_request ("duplicate sort path: " <> path))
    else (do dir ← direction; expr ← sort_expr path allow; ok (expr <> " " <> dir))

unfoldable pub order_parts :
    Bool → List (String × AppResult String) → List String → AppResult (List String)
order_parts allow [] seen = ok []
order_parts allow ((path, direction) ∷ rest) seen = do
  part ← order_part allow path direction seen
  parts ← order_parts allow rest (path ∷ seen)
  ok (part ∷ parts)

unfoldable pub field_directions : List (String × Value) → List (String × AppResult String)
field_directions [] = []
field_directions ((path, dir) ∷ rest) = (path, parse_sort_dir dir) ∷ field_directions rest

unfoldable pub known_directions : List (String × String) → List (String × AppResult String)
known_directions [] = []
known_directions ((path, dir) ∷ rest) = (path, ok dir) ∷ known_directions rest

abbrev pub ordered : Bool → List (String × AppResult String) → AppResult String
ordered allow entries = do parts ← order_parts allow entries []; ok (join ", " parts)

unfoldable pub build_order_by_for_context : Option Value → Bool → AppResult String
build_order_by_for_context none allow = ok "_created_at DESC"
build_order_by_for_context (some (object end)) allow = ok "_created_at DESC"
build_order_by_for_context (some (object (field k v fs))) allow =
    ordered allow (field_directions (fields (field k v fs)))
build_order_by_for_context (some (string s)) allow = do
  entries ← parse_sort_string s
  ordered allow (known_directions entries)
build_order_by_for_context (some _) allow = err (bad_request "sort must be an object or string")

unfoldable pub build_order_by : Option Value → AppResult String
build_order_by sort = build_order_by_for_context sort false

unfoldable pub build_search_order_by : Option Value → AppResult String
build_search_order_by sort = build_order_by_for_context sort true
