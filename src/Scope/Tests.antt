-- ===== src/Scope/Tests.antt =====
-- Instances of the theorems about clauses.
use kokoadb.Prelude.{String, ◌≡◌, refl, true, List, [], ◌∷◌, ◌++◌, Option, none, some}
use kokoadb.Error.{Ensures, ok, err, bad_request}
use kokoadb.Json.{Value, string, singleton, SqlValue, text}
use kokoadb.Text.{◌<>◌, trim, trim_start, trim_end, is_whitespace, contains_text}
use kokoadb.Sql.Truth.{kept}
use kokoadb.Jql.Operator.{Compiled}
use kokoadb.Scope.{in_scope}
use kokoadb.Scope.Resolve.{
  trimmed_values, insert_text, sort_texts, dedup, checked_namespaces, parse_values,
  parse_namespaces, named_collection, resolve, resolve_read_namespace_scope,
  pending_matches_read_scope,
}
use kokoadb.Scope.Namespaces.{IsNamed, resolve_read_namespace_scope-IsNamed}
use kokoadb.Scope.Rows.{Condition, render, truth, pending_matches-agrees}
use kokoadb.Jql.Flat.Fragment.{IsFlat}
use kokoadb.Scope.{many, build_where_with_collection, build_where_with_namespace_scope}
use kokoadb.Scope.Laws.{with_collection-Ensures, with_namespace_scope-Ensures}

abbrev by_name : Value
by_name = singleton "name" (string "Ada")

with_collection-Ensures_example :
    Ensures IsFlat (build_where_with_collection by_name (some "users"))
with_collection-Ensures_example = with_collection-Ensures by_name (some "users")

with_namespace_scope-Ensures_example :
    Ensures IsFlat (build_where_with_namespace_scope by_name (many ("users" ∷ "admins" ∷ [])))
with_namespace_scope-Ensures_example =
    with_namespace_scope-Ensures by_name (many ("users" ∷ "admins" ∷ []))

scopes : Unit {0}
unfolding trim trim_start trim_end is_whitespace contains_text trimmed_values insert_text sort_texts
    dedup checked_namespaces parse_values parse_namespaces named_collection resolve
    resolve_read_namespace_scope
scopes = tt

abbrev some_names : List String
some_names = " users" ∷ "admins" ∷ "" ∷ "users" ∷ []

sorted_names :
    resolve_read_namespace_scope (some some_names) none none true
    ≡ ok (many ("admins" ∷ "users" ∷ []))
unfolding scopes
sorted_names = refl

nothing_named :
    resolve_read_namespace_scope none (some " ") none true
    ≡ err (bad_request "namespace is required")
unfolding scopes
nothing_named = refl

resolve_read_namespace_scope-IsNamed_example :
    Ensures
      (IsNamed (some some_names) none none true)
      (resolve_read_namespace_scope (some some_names) none none true)
resolve_read_namespace_scope-IsNamed_example =
    resolve_read_namespace_scope-IsNamed (some some_names) none none true

abbrev open_tasks : Compiled
open_tasks = record { sql = "state = ?"; binds = text "open" ∷ [] }

pending_matches-agrees_example :
    (k : Condition) × (binds : List SqlValue) × ((in_scope (many ("a" ∷ "b" ∷ [])) open_tasks).sql
      ≡ render k <> ("(" <> open_tasks.sql <> ")"))
    × ((in_scope (many ("a" ∷ "b" ∷ [])) open_tasks).binds ≡ binds ++ open_tasks.binds)
    × ((collection : Option String)
        → pending_matches_read_scope collection (many ("a" ∷ "b" ∷ []))
          ≡ kept (truth k binds collection))
pending_matches-agrees_example = pending_matches-agrees (many ("a" ∷ "b" ∷ [])) open_tasks
