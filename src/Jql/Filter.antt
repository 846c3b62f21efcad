-- ===== src/Jql/Filter.antt =====
-- src/query/jql.rs: filters on a base expression. The code recurs on filters that it builds while it
-- runs, so the two recursive functions take fuel, which `filter_fuel` computes from the filter.
use kokoadb.Prelude.{
  ℕ, zero, suc, ◌+◌, ◌*◌, String, Bool, true, false, ◌&&◌, ◌||◌, List, [], ◌∷◌, Option, none, some,
  str_eq, ltb, if◌then◌else◌, all,
}
use kokoadb.Error.{AppResult, ok, err, out_of_fuel, bad_request, ◌>>=◌}
use kokoadb.Json.{
  Value, null, array, object, Items, nil, cons, Fields, end, field, items, fields, singleton,
  as_object, as_array, text,
}
use kokoadb.Text.{◌<>◌, join, count_char, count_pair, starts_with_char, is_empty}
use kokoadb.Jql.Path.{
  open_bracket, close_bracket, json_path_expr, json_array_expr, split_first_array_path,
  array_path_fullkey_pattern,
}
use kokoadb.Jql.Alias.{json_each_alias, json_tree_alias}
use kokoadb.Jql.Operator.{
  Compiled, Fragment, no_fragment, push, json_to_sql_value, compile_operator, compile_operators,
}

abbrev pub dollar : ℕ
dollar = b'$'

abbrev pub everything : Compiled
everything = record { sql = "1=1"; binds = [] }

-- The compiler of filters, on a base expression and in element mode or not; that of field tests, on
-- a base expression, a path and the value tested against.
abbrev pub FilterCompiler : Type 0
FilterCompiler = String → Value → Bool → AppResult Compiled

abbrev pub FieldCompiler : Type 0
FieldCompiler = String → String → Value → AppResult Compiled

-- How the items of a logical operator are put together.
unfoldable pub combine : String → List String → String
combine key nested_sql =
    if str_eq key "$nor"
    then "NOT (" <> join " OR " nested_sql <> ")"
    else join (if str_eq key "$and" then " AND " else " OR ") nested_sql

abbrev pub non_empty : Fragment → AppResult Compiled
non_empty f = elim f.parts [
  | [] ↦ err (bad_request "empty field operator object")
  | p ∷ ps ↦ ok (record { sql = join " AND " (p ∷ ps); binds = f.binds })
]

abbrev pub exists_in_tree : String → String → String → String
exists_in_tree base alias test =
    "EXISTS (SELECT 1 FROM json_tree(" <> base <> ") " <> alias <> " WHERE " <> test <> ")"

abbrev pub tree_result : String → String → Fragment → AppResult Compiled
tree_result base alias f = elim f.parts [
  | p ∷ q ∷ ps ↦
      ok (record { sql = exists_in_tree base alias (join " AND " (p ∷ q ∷ ps)); binds = f.binds })
  | _ ↦ err (bad_request "empty field operator object")
]

-- A path with two array markers or more.
module _ (filter : FilterCompiler) where
  unfoldable pub compile_elem_match : String → Value → AppResult Compiled
  compile_elem_match array_expr operand = do
    let alias = json_each_alias array_expr
    inner ← filter (alias <> ".value") operand true
    ok (record {
      sql =
          "EXISTS (SELECT 1 FROM json_each(" <> array_expr <> ") " <> alias <> " WHERE "
          <> inner.sql <> ")";
      binds = inner.binds;
    })

  -- The items of `$and`, `$or` and `$nor`: their texts in parentheses, and their binds.
  unfoldable pub compile_nested : String → Bool → List Value → Fragment → AppResult Fragment
  compile_nested base elem [] f = ok f
  compile_nested base elem (item ∷ rest) f = do
    compiled ← filter base item elem
    compile_nested base elem rest (push ("(" <> compiled.sql <> ")") compiled.binds f)

  unfoldable pub compile_logical : String → Bool → String → Value → Fragment → AppResult Fragment
  compile_logical base elem key value f = elim (as_array value) [
    | some nil ↦ err (bad_request (key <> " cannot be empty"))
    | some (cons x xs) ↦ do
      nested ← compile_nested base elem (items (cons x xs)) no_fragment
      ok (push (combine key nested.parts) nested.binds f)
    | none ↦ err (bad_request (key <> " must be an array"))
  ]

  unfoldable pub compile_not : String → Bool → Value → Fragment → AppResult Fragment
  compile_not base elem value f = do
    compiled ← filter base value elem
    ok (push ("NOT (" <> compiled.sql <> ")") compiled.binds f)

  unfoldable pub push_field :
      FieldCompiler → String → String → Value → Fragment → AppResult Fragment
  push_field field_expr base key value f = do
    compiled ← field_expr base key value
    ok (push compiled.sql compiled.binds f)

  -- One round of the loop over the fields of a filter.
  unfoldable pub compile_entry :
      FieldCompiler → String → Bool → String → Value → Fragment → AppResult Fragment
  compile_entry field_expr base elem key value f =
      if str_eq key "$and" || (str_eq key "$or" || str_eq key "$nor")
      then compile_logical base elem key value f
      else if str_eq key "$not"
      then compile_not base elem value f
      else if elem && starts_with_char dollar key
      then compile_operator compile_elem_match key value ("(" <> base <> ")")
          ("json_extract(" <> base <> ", '$')") (some base) f
      else push_field field_expr base key value f

  unfoldable pub compile_entries :
      FieldCompiler → String → Bool → List (String × Value) → Fragment → AppResult Fragment
  compile_entries field_expr base elem [] f = ok f
  compile_entries field_expr base elem ((key, value) ∷ rest) f =
      compile_entry field_expr base elem key value f >>= compile_entries field_expr base elem rest

  -- The body of `compile_filter_on_base`.
  unfoldable pub filter_body : FieldCompiler → String → Value → Bool → AppResult Compiled
  filter_body field_expr base null elem = ok everything
  filter_body field_expr base (object end) elem = ok everything
  filter_body field_expr base (object (field k v fs)) elem = do
    f ← compile_entries field_expr base elem (fields (field k v fs)) no_fragment
    ok (record { sql = join " AND " f.parts; binds = f.binds })
  filter_body field_expr base _ elem = err (bad_request "filter must be an object")

  -- A path with no array marker.
  unfoldable pub compile_scalar_field : String → String → Value → AppResult Compiled
  compile_scalar_field base path value = do
    scalar ← json_path_expr base path
    array_expr ← json_array_expr base path
    elim (as_object value) [
      | none ↦ do
        b ← json_to_sql_value value
        ok (record { sql = scalar <> " = ?"; binds = b ∷ [] })
      | some ops ↦
          compile_operators compile_elem_match (fields ops) scalar array_expr (some base)
            no_fragment
          >>= non_empty
    ]

  unfoldable pub compile_nested_array_field_expr : String → String → Value → AppResult Compiled
  compile_nested_array_field_expr base path value = do
    pattern ← array_path_fullkey_pattern path
    let alias = json_tree_alias base path
    let scalar = alias <> ".atom"
    let like = alias <> ".fullkey LIKE ?"
    elim (as_object value) [
      | none ↦ do
        b ← json_to_sql_value value
        ok (record {
          sql = exists_in_tree base alias (like <> " AND " <> scalar <> " = ?");
          binds = text pattern ∷ b ∷ [];
        })
      | some ops ↦
          compile_operators compile_elem_match (fields ops) scalar (alias <> ".value") (some base)
            (record { parts = like ∷ []; binds = text pattern ∷ [] })
          >>= tree_result base alias
    ]

-- `obj.keys().all(|key| key.starts_with('$'))` for a non-empty object.
unfoldable pub is_operator_object : Value → Bool
is_operator_object (object (field k v fs)) =
    all (λ e. starts_with_char dollar e.0) (fields (field k v fs))
is_operator_object _ = false

-- The filter on the elements of the first array of a path.
unfoldable pub element_filter : String → Value → Value
element_filter remainder value =
    if is_empty remainder
    then (if is_operator_object value then value else singleton "$eq" value)
    else singleton remainder value

-- A path split at its first array marker, or one without a marker.
unfoldable pub by_marker :
    FilterCompiler
    → FieldCompiler
    → String
    → String
    → Value
    → Option (String × String)
    → AppResult Compiled
by_marker filter field_expr base path value (some (array_path, remainder)) =
    field_expr base array_path (singleton "$elemMatch" (element_filter remainder value))
by_marker filter field_expr base path value none = compile_scalar_field filter base path value

-- The body of `compile_field_expr_on_base`.
unfoldable pub field_body :
    FilterCompiler → FieldCompiler → String → String → Value → AppResult Compiled
field_body filter field_expr base path value =
    if ltb 1 (count_pair open_bracket close_bracket path)
    then compile_nested_array_field_expr filter base path value
    else (split_first_array_path path >>= by_marker filter field_expr base path value)

unfoldable mutual
  pub compile_filter_on_base : ℕ → FilterCompiler
  compile_filter_on_base zero base value elem = out_of_fuel
  compile_filter_on_base (suc f) base value elem =
      filter_body (compile_filter_on_base f) (compile_field_expr_on_base f) base value elem

  pub compile_field_expr_on_base : ℕ → FieldCompiler
  compile_field_expr_on_base zero base path value = out_of_fuel
  compile_field_expr_on_base (suc f) base path value =
      field_body (compile_filter_on_base f) (compile_field_expr_on_base f) base path value

-- What a filter weighs: its values, and eight for each `[` in its keys.
unfoldable mutual
  pub weight : Value → ℕ
  weight (array xs) = suc (weight_items xs)
  weight (object fs) = suc (weight_fields fs)
  weight _ = 1

  pub weight_items : Items → ℕ
  weight_items nil = 0
  weight_items (cons v vs) = weight v + weight_items vs

  pub weight_fields : Fields → ℕ
  weight_fields end = 0
  weight_fields (field k v fs) = 8 * count_char open_bracket k + (suc (weight v) + weight_fields fs)

unfoldable pub filter_fuel : Value → ℕ
filter_fuel v = suc (weight v)

unfoldable pub build_where_on_base : String → Value → AppResult Compiled
build_where_on_base base_expr filter =
    compile_filter_on_base (filter_fuel filter) base_expr filter false

unfoldable pub build_where : Value → AppResult Compiled
build_where filter = build_where_on_base "data" filter
