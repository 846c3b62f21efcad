-- ===== src/Scope.antt =====
-- src/service/dispatcher/query_support.rs and runtime_support.rs: the `WHERE` clause of a read, from a
-- filter and the namespaces that it is limited to.
pub mod Resolve
pub mod Rows
pub mod Namespaces
pub mod Laws
mod Tests
use kokoadb.Prelude.{String, List, [], ◌∷◌, ◌++◌, Option, none, some, length, map}
use kokoadb.Error.{AppResult, ok, ◌>>=◌}
use kokoadb.Json.{Value, SqlValue, text}
use kokoadb.Text.{◌<>◌}
use kokoadb.Jql.Operator.{Compiled, placeholders}
use kokoadb.Jql.Filter.{build_where}

-- `NamespaceReadScope`; `unscoped` is its `None`.
pub data NamespaceReadScope : Type 0 where
  unscoped everywhere : NamespaceReadScope
  one : String → NamespaceReadScope
  many : List String → NamespaceReadScope

-- A condition and its binds, before that of the filter.
abbrev with_prefix : String → List SqlValue → Compiled → Compiled
with_prefix prefix binds c = record {
  sql = prefix <> "(" <> c.sql <> ")";
  binds = binds ++ c.binds;
}

in_collection : Option String → Compiled → Compiled
in_collection none c = with_prefix "" [] c
in_collection (some collection) c = with_prefix "collection = ? AND " (text collection ∷ []) c

unfoldable pub build_where_with_collection : Value → Option String → AppResult Compiled
unfolding in_collection
build_where_with_collection filter collection = do
  compiled ← build_where filter
  ok (in_collection collection compiled)

unfoldable pub in_scope : NamespaceReadScope → Compiled → Compiled
in_scope unscoped c = with_prefix "" [] c
in_scope everywhere c = with_prefix "" [] c
in_scope (one ns) c = with_prefix "collection = ? AND " (text ns ∷ []) c
in_scope (many list) c =
    with_prefix ("collection IN (" <> placeholders (length list) <> ") AND ") (map text list) c

unfoldable pub build_where_with_namespace_scope : Value → NamespaceReadScope → AppResult Compiled
unfolding in_scope
build_where_with_namespace_scope filter scope = do
  compiled ← build_where filter
  ok (in_scope scope compiled)
