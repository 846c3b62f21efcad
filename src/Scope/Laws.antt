-- ===== src/Scope/Laws.antt =====
-- src/service/dispatcher/query_support.rs and runtime_support.rs: the texts of the clauses.
use kokoadb.Prelude.{
  ◌+◌, String, refl, List, [], ◌∷◌, ◌++◌, Option, none, some, length, length-append, length-map,
  map, arith,
}
use kokoadb.Error.{Ensures, holds, Ensures-bind}
use kokoadb.Json.{Value, SqlValue, text}
use kokoadb.Sql.{scan}
use kokoadb.Sql.Spans.{by_scan, Flat, Flat-append, Flat-wrap, Spans-cast}
use kokoadb.Jql.Operator.{Compiled}
use kokoadb.Jql.Flat.Fragment.{IsFlat, placeholders-Flat}
use kokoadb.Jql.Flat.Filter.{build_where-Ensures}
use kokoadb.Scope.{
  NamespaceReadScope, unscoped, everywhere, one, many, with_prefix, in_scope,
  build_where_with_collection, build_where_with_namespace_scope,
}

with_prefix-Flat :
    (prefix : String) (binds : List SqlValue) (c : Compiled)
    → Flat prefix (length binds)
    → IsFlat c
    → IsFlat (with_prefix prefix binds c)
unfolding scan
with_prefix-Flat prefix binds c p q =
    Spans-cast (length (binds ++ c.binds))
      (Flat-append (length binds) (0 + (length c.binds + 0)) p
        (Flat-wrap 1 0 (length c.binds) 0 (by_scan λ d h. refl) q (by_scan λ d h. refl)))
      (omega (arith, length-append binds c.binds))

-- Whatever the filter and the collection, `build_where_with_collection` ends, in an error or in a
-- clause that is flat SQL with as many placeholders as bind values.
pub with_collection-Ensures :
    (filter : Value) (collection : Option String)
    → Ensures IsFlat (build_where_with_collection filter collection)
unfolding build_where_with_collection scan
with_collection-Ensures filter none =
    Ensures-bind _ (build_where-Ensures filter)
      λ c q. holds (with_prefix-Flat "" [] c (by_scan λ d h. refl) q)
with_collection-Ensures filter (some ns) =
    Ensures-bind _ (build_where-Ensures filter)
      λ c q. holds (with_prefix-Flat _ (text ns ∷ []) c (by_scan λ d h. refl) q)

in_scope-Flat : (scope : NamespaceReadScope) (c : Compiled) → IsFlat c → IsFlat (in_scope scope c)
unfolding in_scope scan
in_scope-Flat unscoped c q = with_prefix-Flat "" [] c (by_scan λ d h. refl) q
in_scope-Flat everywhere c q = with_prefix-Flat "" [] c (by_scan λ d h. refl) q
in_scope-Flat (one ns) c q = with_prefix-Flat _ (text ns ∷ []) c (by_scan λ d h. refl) q
in_scope-Flat (many list) c q =
    with_prefix-Flat _ (map text list) c
      (Spans-cast (length (map text list))
        (Flat-wrap 1 0 (length list) 0 (by_scan λ d h. refl) (placeholders-Flat (length list))
          (by_scan λ d h. refl))
        (omega (arith, length-map list text)))
      q

-- Whatever the filter and the namespaces read, none, one or a list of any length,
-- `build_where_with_namespace_scope` ends, in an error or in a clause that is flat SQL with as many
-- placeholders as bind values.
pub with_namespace_scope-Ensures :
    (filter : Value) (scope : NamespaceReadScope)
    → Ensures IsFlat (build_where_with_namespace_scope filter scope)
unfolding build_where_with_namespace_scope
with_namespace_scope-Ensures filter scope =
    Ensures-bind _ (build_where-Ensures filter) λ c q. holds (in_scope-Flat scope c q)
