-- ===== src/UserScope.antt =====
-- src/service/dispatcher/query_support.rs: the selector on the user who owns a document, compiled into
-- a condition in SQL, and decided in memory for documents that are not written yet.
pub mod Condition
pub mod Agreement
pub mod Flat
mod Tests
use kokoadb.Prelude.{
  ℕ, String, Bool, true, false, not, ◌||◌, List, [], ◌∷◌, ◌++◌, Option, none, some, length, map,
  str_eq, if◌then◌else◌,
}
use kokoadb.Error.{AppResult, ok, err, bad_request, ◌>>=◌}
use kokoadb.Json.{
  Value, null, bool, number, string, array, object, Items, nil, cons, Fields, end, field, items,
  as_str, as_array, as_bool, SqlValue, integer, real, text,
}
use kokoadb.Text.{◌<>◌, trim, is_empty, contains_text}
use kokoadb.Jql.Operator.{Compiled, placeholders}

-- `document_user_scope`: the selector of a payload, from its `user_id` or its `_user_id`.
unfoldable pub document_user_scope : Option Value → Option String → AppResult (Option Value)
document_user_scope (some v) (some s) =
    err (bad_request "user_id and _user_id cannot both be provided")
document_user_scope (some v) none = ok (some v)
document_user_scope none (some s) = ok (some (string s))
document_user_scope none none = ok none

unfoldable pub normalize_user_scope_id : String → AppResult String
normalize_user_scope_id value =
    if is_empty (trim value)
    then err (bad_request "user_id values cannot be empty")
    else ok (trim value)

abbrev pub insert_id : String → List String → List String
insert_id id ids = if contains_text id ids then ids else ids ++ id ∷ []

-- The loop of `compile_document_user_list`: the ids in the order in which they are first met.
unfoldable pub collect_ids : String → List Value → List String → AppResult (List String)
collect_ids operator [] ids = ok ids
collect_ids operator (value ∷ rest) ids = elim (as_str value) [
  | some s ↦ do id ← normalize_user_scope_id s; collect_ids operator rest (insert_id id ids)
  | none ↦ err (bad_request ("user_id." <> operator <> " values must be strings"))
]

abbrev pub list_condition : String → List String → Compiled
list_condition operator ids = record {
  sql =
      if str_eq operator "$in"
      then "_user_id IN (" <> placeholders (length ids) <> ")"
      else "(_user_id IS NULL OR _user_id NOT IN (" <> placeholders (length ids) <> "))";
  binds = map text ids;
}

unfoldable pub compile_document_user_list : String → List Value → AppResult Compiled
compile_document_user_list operator [] =
    err (bad_request ("user_id." <> operator <> " cannot be empty"))
compile_document_user_list operator (v ∷ vs) = do
  ids ← collect_ids operator (v ∷ vs) []
  ok (list_condition operator ids)

abbrev pub is_list_operator : String → Bool
is_list_operator operator = str_eq operator "$in" || str_eq operator "$nin"

unfoldable pub compile_comparison : String → Value → AppResult Compiled
compile_comparison operator operand = elim (as_str operand) [
  | some s ↦ do
    value ← normalize_user_scope_id s
    ok (record {
      sql = if str_eq operator "$eq" then "_user_id = ?" else "(_user_id IS NULL OR _user_id <> ?)";
      binds = text value ∷ [];
    })
  | none ↦ err (bad_request ("user_id." <> operator <> " must be a string"))
]

-- The operand of `$in` and `$nin`.
unfoldable pub list_operand : String → Value → AppResult (List Value)
list_operand operator operand = elim (as_array operand) [
  | some xs ↦ ok (items xs)
  | none ↦ err (bad_request ("user_id." <> operator <> " must be an array"))
]

unfoldable pub exists_operand : Value → AppResult Bool
exists_operand operand = elim (as_bool operand) [
  | some b ↦ ok b
  | none ↦ err (bad_request "user_id.$exists must be a boolean")
]

-- An object with one field.
unfoldable pub compile_user_operator : String → Value → AppResult Compiled
compile_user_operator operator operand =
    if str_eq operator "$eq" || str_eq operator "$ne"
    then compile_comparison operator operand
    else if is_list_operator operator
    then (do values ← list_operand operator operand; compile_document_user_list operator values)
    else if str_eq operator "$exists"
    then (do
      exists ← exists_operand operand
      ok (record {
        sql = if exists then "_user_id IS NOT NULL" else "_user_id IS NULL";
        binds = [];
      }))
    else err (bad_request "user_id supports only $eq, $ne, $in, $nin, or $exists")

abbrev pub not_one_operator : AppResult Compiled
not_one_operator = err (bad_request "user_id operator object must contain exactly one operator")

unfoldable pub compile_document_user_scope : Value → AppResult Compiled
compile_document_user_scope (string value) = do
  id ← normalize_user_scope_id value
  ok (record { sql = "_user_id = ?"; binds = text id ∷ [] })
compile_document_user_scope (array values) = compile_document_user_list "$in" (items values)
compile_document_user_scope (object (field operator operand end)) =
    compile_user_operator operator operand
compile_document_user_scope (object end) = not_one_operator
compile_document_user_scope (object (field k v (field l w rest))) = not_one_operator
compile_document_user_scope _ =
    err (bad_request "user_id must be a string, string array, or operator object")

-- `apply_document_user_scope`: the clause and its binds, limited to the selector.
unfoldable pub apply_document_user_scope : Option Value → Compiled → AppResult Compiled
apply_document_user_scope none c = ok c
apply_document_user_scope (some selector) c = do
  scope ← compile_document_user_scope selector
  ok (record { sql = scope.sql <> " AND (" <> c.sql <> ")"; binds = scope.binds ++ c.binds })

-- `user_id == Some(expected)`
abbrev pub is_user : Option String → String → Bool
is_user none expected = false
is_user (some actual) expected = str_eq actual expected

unfoldable pub is_bound_text : String → SqlValue → Bool
is_bound_text actual (text expected) = str_eq expected actual
is_bound_text actual _ = false

unfoldable pub any_bound : String → List SqlValue → Bool
any_bound actual [] = false
any_bound actual (b ∷ bs) = is_bound_text actual b || any_bound actual bs

-- `user_id.is_some_and(|actual| binds.iter().any(..))`
abbrev pub user_is_bound : Option String → List SqlValue → Bool
user_is_bound none binds = false
user_is_bound (some actual) binds = any_bound actual binds

abbrev pub is_some : Option String → Bool
is_some none = false
is_some (some s) = true

abbrev pub same_bool : Bool → Bool → Bool
same_bool a true = a
same_bool a false = not a

-- `$eq` and `$ne` read a string, and test it.
unfoldable pub matches_string : String → Value → (String → Bool) → AppResult Bool
matches_string operator operand test = elim (as_str operand) [
  | some s ↦ do expected ← normalize_user_scope_id s; ok (test expected)
  | none ↦ err (bad_request ("user_id." <> operator <> " must be a string"))
]

unfoldable pub matches_operator : String → Value → Option String → AppResult Bool
matches_operator operator operand user =
    if str_eq operator "$eq"
    then matches_string "$eq" operand (λ expected. is_user user expected)
    else if str_eq operator "$ne"
    then matches_string "$ne" operand (λ expected. not (is_user user expected))
    else if is_list_operator operator
    then (do
      values ← list_operand operator operand
      c ← compile_document_user_list operator values
      ok (
          if str_eq operator "$in"
          then user_is_bound user c.binds
          else not (user_is_bound user c.binds)))
    else if str_eq operator "$exists"
    then (do expected ← exists_operand operand; ok (same_bool (is_some user) expected))
    else err (bad_request "user_id supports only $eq, $ne, $in, $nin, or $exists")

unfoldable pub document_user_scope_matches : Option Value → Option String → AppResult Bool
document_user_scope_matches none user = ok true
document_user_scope_matches (some (string expected)) user = do
  id ← normalize_user_scope_id expected
  ok (is_user user id)
document_user_scope_matches (some (array values)) user = do
  c ← compile_document_user_list "$in" (items values)
  ok (user_is_bound user c.binds)
document_user_scope_matches (some (object (field operator operand end))) user =
    matches_operator operator operand user
document_user_scope_matches (some (object end)) user =
    err (bad_request "user_id operator object must contain exactly one operator")
document_user_scope_matches (some (object (field k v (field l w rest)))) user =
    err (bad_request "user_id operator object must contain exactly one operator")
document_user_scope_matches (some _) user =
    err (bad_request "user_id must be a string, string array, or operator object")
