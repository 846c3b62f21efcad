-- ===== src/Jql/Flat/Filter.antt =====
-- src/query/jql.rs: the texts and the end of the filter compiler.
use kokoadb.Prelude.{
  ℕ, zero, suc, ◌+◌, ◌*◌, ◌≤◌, ◌<◌, String, ◌≡◌, refl, Bool, true, false, ◌&&◌, ◌||◌, List, [], ◌∷◌,
  Option, none, some, arith, length, str_eq, ltb, All, Bool-cases, inl, inr,
}
use kokoadb.Error.{AppResult, ok, err, out_of_fuel, Ensures, holds, failed, Ensures-bind, ◌>>=◌}
use kokoadb.Json.{
  Value, null, array, object, Fields, Items, fields, items, nil, cons, end, field, SqlValue,
}
use kokoadb.Text.{◌<>◌, count_pair, starts_with_char}
use kokoadb.Sql.{scan}
use kokoadb.Sql.Spans.{
  Spans, by_scan, Flat, Flat-append, Flat-wrap, Spans-append, Spans-lift, Spans-cast, Flat-join,
  FlatAll, none_left, one_more,
}
use kokoadb.Jql.Path.{open_bracket, close_bracket, split_first_array_path}
use kokoadb.Jql.Operator.{Fragment, no_fragment, compile_operator}
use kokoadb.Jql.Filter.{
  FilterCompiler, FieldCompiler, dollar, compile_elem_match, compile_nested, combine,
  compile_logical, compile_not, push_field, compile_entry, compile_entries, filter_body, non_empty,
  compile_scalar_field, exists_in_tree, tree_result, compile_nested_array_field_expr, field_body,
  compile_filter_on_base, compile_field_expr_on_base, weight, filter_fuel, by_marker,
  build_where_on_base, build_where,
}
use kokoadb.Jql.Weight.{brackets, split_first_array_path-brackets, weight-element_filter}
use kokoadb.Jql.Flat.Path.{
  json_path_expr-Flat, json_array_expr-Flat, json_each_alias-Flat, json_tree_alias-Flat,
  split_first_array_path-returns, array_path_fullkey_pattern-returns,
}
use kokoadb.Jql.Flat.Fragment.{
  Balanced, IsFlat, push-Balanced, Ensures-any, json_to_sql_value-returns,
}
use kokoadb.Jql.Flat.Operator.{compile_operator-Balanced, compile_operators-Balanced}

-- The compilers are right on what weighs less than w.
abbrev FilterOk : ℕ → FilterCompiler → Type 0
FilterOk w filter =
    (base : String) (v : Value) (elem : Bool)
    → Flat base 0
    → weight v < w
    → Ensures IsFlat (filter base v elem)

abbrev FieldOk : ℕ → FieldCompiler → Type 0
FieldOk w field_expr =
    (base path : String) (v : Value)
    → Flat base 0
    → 8 * brackets path + weight v < w
    → Ensures IsFlat (field_expr base path v)

-- `EXISTS (SELECT 1 FROM json_each(e) alias WHERE test)`, and the same with `json_tree`.
exists-Flat :
    (pre e alias test : String) (n : ℕ)
    → Spans pre 0 2 0
    → Flat e 0
    → Flat alias 0
    → Flat test n
    → Flat (pre <> e <> ") " <> alias <> " WHERE " <> test <> ")") n
unfolding scan
exists-Flat pre e alias test n a p l t =
    Spans-cast n
      (Spans-append 0 (0 + (0 + (0 + (0 + (n + 0))))) a (
        Spans-append 0 (0 + (0 + (0 + (n + 0)))) (Spans-lift 2 p) (
          Spans-append {i = 2} {m = 1} 0 (0 + (0 + (n + 0))) (by_scan λ d h. refl) (
            Spans-append 0 (0 + (n + 0)) (Spans-lift 1 l) (
              Spans-append {i = 1} {m = 1} 0 (n + 0) (by_scan λ d h. refl)
                (Spans-append n 0 (Spans-lift 1 t) (by_scan λ d h. refl)))))))
      (omega arith)

parens : (s : String) (n : ℕ) → Flat s n → Flat ("(" <> s <> ")") n
unfolding scan
parens s n p =
    Spans-cast n (Flat-wrap 1 0 n 0 (by_scan λ d h. refl) p (by_scan λ d h. refl)) (omega arith)

not_parens : (s : String) (n : ℕ) → Flat s n → Flat ("NOT (" <> s <> ")") n
unfolding scan
not_parens s n p =
    Spans-cast n (Flat-wrap 1 0 n 0 (by_scan λ d h. refl) p (by_scan λ d h. refl)) (omega arith)

combine-Flat : (key : String) (ps : List String) (n : ℕ) → FlatAll ps n → Flat (combine key ps) n
unfolding combine scan
combine-Flat key ps n a = elim (Bool-cases (str_eq key "$nor")) [
  | inl q ↦ rw (q, combine) (not_parens _ n (Flat-join (by_scan λ d h. refl) a))
  | inr q ↦ elim (Bool-cases (str_eq key "$and")) [
    | inl r ↦ rw (q, r, combine) (Flat-join (by_scan λ d h. refl) a)
    | inr r ↦ rw (q, r, combine) (Flat-join (by_scan λ d h. refl) a)
  ]
]

non_empty-Flat :
    (ps : List String) (bs : List SqlValue)
    → FlatAll ps (length bs)
    → Ensures IsFlat (non_empty (record { parts = ps; binds = bs }))
unfolding scan
non_empty-Flat [] bs b = failed
non_empty-Flat (p ∷ ps) bs b = holds (Flat-join (by_scan λ d h. refl) b)

in_tree-Flat :
    (base alias test : String) (n : ℕ)
    → Flat base 0
    → Flat alias 0
    → Flat test n
    → Flat (exists_in_tree base alias test) n
unfolding scan
in_tree-Flat base alias test n p l t = exists-Flat _ base alias test n (by_scan λ d h. refl) p l t

tree_result-Flat :
    (base alias : String) (ps : List String) (bs : List SqlValue)
    → Flat base 0
    → Flat alias 0
    → FlatAll ps (length bs)
    → Ensures IsFlat (tree_result base alias (record { parts = ps; binds = bs }))
unfolding scan
tree_result-Flat base alias [] bs p l b = failed
tree_result-Flat base alias (x ∷ []) bs p l b = failed
tree_result-Flat base alias (x ∷ y ∷ ps) bs p l b =
    holds (in_tree-Flat base alias _ _ p l (Flat-join (by_scan λ d h. refl) b))

module _ (w : ℕ) (filter : FilterCompiler) (filter_ok : FilterOk w filter) where
  compile_elem_match-Flat :
      (e : String) (v : Value)
      → Flat e 0
      → weight v < w
      → Ensures IsFlat (compile_elem_match filter e v)
  unfolding compile_elem_match scan
  compile_elem_match-Flat e v p h =
      let alias = json_each_alias-Flat e in
      Ensures-bind _ (filter_ok _ v true (Flat-append 0 0 alias (by_scan λ d k. refl)) h)
        λ c q. holds (exists-Flat _ e _ c.sql _ (by_scan λ d k. refl) p alias q)

  compile_nested-Balanced :
      (base : String) (elem : Bool) (xs : Items) (f : Fragment)
      → Flat base 0
      → weight (array xs) ≤ w
      → Balanced f
      → Ensures Balanced (compile_nested filter base elem (items xs) f)
  unfolding compile_nested weight
  compile_nested-Balanced base elem nil f p h b = holds b
  compile_nested-Balanced base elem (cons v vs) f p h b =
      Ensures-bind _ (filter_ok base v elem p (omega arith)) λ c q.
        compile_nested-Balanced base elem vs _ p (omega arith)
          (push-Balanced f _ c.binds b (parens c.sql _ q))

  compile_logical-Balanced :
      (base : String) (elem : Bool) (key : String) (v : Value) (f : Fragment)
      → Flat base 0
      → weight v < w
      → Balanced f
      → Ensures Balanced (compile_logical filter base elem key v f)
  unfolding compile_logical
  compile_logical-Balanced base elem key (array nil) f p h b = failed
  compile_logical-Balanced base elem key (array (cons x xs)) f p h b =
      Ensures-bind _
        (compile_nested-Balanced base elem (cons x xs) no_fragment p (omega arith) none_left)
        λ g c. holds (push-Balanced f _ g.binds b (combine-Flat key g.parts _ c))
  compile_logical-Balanced base elem key _ f p h b = failed

  compile_not-Balanced :
      (base : String) (elem : Bool) (v : Value) (f : Fragment)
      → Flat base 0
      → weight v < w
      → Balanced f
      → Ensures Balanced (compile_not filter base elem v f)
  unfolding compile_not
  compile_not-Balanced base elem v f p h b =
      Ensures-bind _ (filter_ok base v elem p h)
        λ c q. holds (push-Balanced f _ c.binds b (not_parens c.sql _ q))

  -- The operands of an operator object are lighter than the object.
  operands-Flat :
      (e : String) (fs : Fields)
      → Flat e 0
      → weight (object fs) ≤ w
      → All (λ x. Ensures IsFlat (compile_elem_match filter e x.1)) (fields fs)
  unfolding weight
  operands-Flat e end p h = tt
  operands-Flat e (field k v fs) p h =
      (compile_elem_match-Flat e v p (omega arith), operands-Flat e fs p (omega arith))

  compile_scalar_field-Flat :
      (base path : String) (v : Value)
      → Flat base 0
      → weight v ≤ w
      → Ensures IsFlat (compile_scalar_field filter base path v)
  unfolding compile_scalar_field scan
  compile_scalar_field-Flat base path (object fs) p h =
      Ensures-bind _ (json_path_expr-Flat base path p) λ s ps.
        Ensures-bind _ (json_array_expr-Flat base path p) λ a pa.
          Ensures-bind _
            (compile_operators-Balanced _ base s a ps pa (fields fs) no_fragment none_left
              (operands-Flat a fs pa h))
            λ f b. non_empty-Flat f.parts f.binds b
  compile_scalar_field-Flat base path v p h =
      Ensures-bind _ (json_path_expr-Flat base path p) λ s ps.
        Ensures-bind _ (json_array_expr-Flat base path p) λ a pa.
          Ensures-bind _ (Ensures-any (json_to_sql_value-returns v))
            λ b _. holds (Flat-append 0 1 ps (by_scan λ d k. refl))

  nested_array-Flat :
      (base path : String) (v : Value)
      → Flat base 0
      → weight v ≤ w
      → Ensures IsFlat (compile_nested_array_field_expr filter base path v)
  unfolding compile_nested_array_field_expr scan
  nested_array-Flat base path (object fs) p h =
      let l = json_tree_alias-Flat base path in
      let atom = Flat-append 0 0 l (by_scan {s = ".atom"} λ d k. refl) in
      let value = Flat-append 0 0 l (by_scan {s = ".value"} λ d k. refl) in
      let like = Flat-append 0 1 l (by_scan {s = ".fullkey LIKE ?"} λ d k. refl) in
      Ensures-bind _ (Ensures-any (array_path_fullkey_pattern-returns path)) λ pattern _.
        Ensures-bind _
          (compile_operators-Balanced _ base _ _ atom value (fields fs) _ (one_more like none_left)
            (operands-Flat _ fs value h))
          λ f b. tree_result-Flat base _ f.parts f.binds p l b
  nested_array-Flat base path v p h =
      let l = json_tree_alias-Flat base path in
      let like = Flat-append 0 1 l (by_scan {s = ".fullkey LIKE ?"} λ d k. refl) in
      let atom = Flat-append 0 0 l (by_scan {s = ".atom"} λ d k. refl) in
      Ensures-bind _ (Ensures-any (array_path_fullkey_pattern-returns path)) λ pattern _.
        Ensures-bind _ (Ensures-any (json_to_sql_value-returns v)) λ b _. holds (
          in_tree-Flat base _ _ 2 p l (
            Flat-append 1 1 like (
              Flat-append 0 1 (by_scan {s = " AND "} λ d k. refl)
                (Flat-append 0 1 atom (by_scan λ d k. refl)))))

  -- An operator on the element itself, in element mode.
  elem_operator-Balanced :
      (base key : String) (v : Value) (f : Fragment)
      → Flat base 0
      → weight v < w
      → Balanced f
      → Ensures Balanced (
          compile_operator
            (compile_elem_match filter)
            key
            v
            ("(" <> base <> ")")
            ("json_extract(" <> base <> ", '$')")
            (some base)
            f)
  unfolding scan
  elem_operator-Balanced base key v f p h b =
      let listed = Flat-wrap 1 0 0 0 (by_scan λ d k. refl) p (by_scan λ d k. refl) in
      compile_operator-Balanced _ base _ _ (parens base 0 p) listed f key v b
        (compile_elem_match-Flat _ v listed h)

  module _ (field_expr : FieldCompiler) (field_ok : FieldOk w field_expr) where
    push_field-Balanced :
        (base key : String) (v : Value) (f : Fragment)
        → Flat base 0
        → 8 * brackets key + weight v < w
        → Balanced f
        → Ensures Balanced (push_field filter field_expr base key v f)
    unfolding push_field
    push_field-Balanced base key v f p h b =
        Ensures-bind _ (field_ok base key v p h) λ c q. holds (push-Balanced f c.sql c.binds b q)

    compile_entry-Balanced :
        (base : String) (elem : Bool) (key : String) (v : Value) (f : Fragment)
        → Flat base 0
        → 8 * brackets key + weight v < w
        → Balanced f
        → Ensures Balanced (compile_entry filter field_expr base elem key v f)
    unfolding compile_entry scan
    compile_entry-Balanced base elem key v f p h b =
        elim (Bool-cases (str_eq key "$and" || (str_eq key "$or" || str_eq key "$nor"))) [
          | inl q ↦
              rw (q, compile_entry) (compile_logical-Balanced base elem key v f p (omega arith) b)
          | inr q ↦ elim (Bool-cases (str_eq key "$not")) [
            | inl r ↦
                rw (q, r, compile_entry) (compile_not-Balanced base elem v f p (omega arith) b)
            | inr r ↦ elim (Bool-cases (elem && starts_with_char dollar key)) [
              | inl t ↦
                  rw (q, r, t, compile_entry)
                    (elem_operator-Balanced base key v f p (omega arith) b)
              | inr t ↦ rw (q, r, t, compile_entry) (push_field-Balanced base key v f p h b)
            ]
          ]
        ]

    compile_entries-Balanced :
        (base : String) (elem : Bool) (fs : Fields) (f : Fragment)
        → Flat base 0
        → weight (object fs) ≤ w
        → Balanced f
        → Ensures Balanced (compile_entries filter field_expr base elem (fields fs) f)
    unfolding compile_entries weight
    compile_entries-Balanced base elem end f p h b = holds b
    compile_entries-Balanced base elem (field k v fs) f p h b =
        Ensures-bind _ (compile_entry-Balanced base elem k v f p (omega arith) b)
          λ g c. compile_entries-Balanced base elem fs g p (omega arith) c

    filter_body-Flat :
        (base : String) (v : Value) (elem : Bool)
        → Flat base 0
        → weight v ≤ w
        → Ensures IsFlat (filter_body filter field_expr base v elem)
    unfolding filter_body scan
    filter_body-Flat base null elem p h = holds (by_scan λ d k. refl)
    filter_body-Flat base (object end) elem p h = holds (by_scan λ d k. refl)
    filter_body-Flat base (object (field k v fs)) elem p h =
        Ensures-bind _ (compile_entries-Balanced base elem (field k v fs) no_fragment p h none_left)
          λ f b. holds (Flat-join (by_scan λ d k. refl) b)
    filter_body-Flat base _ elem p h = failed

    -- What the first array marker of a path splits off, and paths without one.
    by_marker-Flat :
        (base path : String) (v : Value) (r : AppResult (Option (String × String)))
        → Flat base 0
        → 8 * brackets path + weight v ≤ w
        → split_first_array_path path ≡ r
        → Ensures IsFlat (r >>= by_marker filter field_expr base path v)
    unfolding by_marker
    by_marker-Flat base path v (ok none) p h e =
        compile_scalar_field-Flat base path v p (omega arith)
    by_marker-Flat base path v (ok (some (a, r))) p h e =
        field_ok base a _ p
          (omega (arith, split_first_array_path-brackets path a r e, weight-element_filter r v))
    by_marker-Flat base path v (err x) p h e = failed
    by_marker-Flat base path v out_of_fuel p h e = absurd (split_first_array_path-returns path e)

    field_body-Flat :
        (base path : String) (v : Value)
        → Flat base 0
        → 8 * brackets path + weight v ≤ w
        → Ensures IsFlat (field_body filter field_expr base path v)
    unfolding field_body
    field_body-Flat base path v p h =
        elim (Bool-cases (ltb 1 (count_pair open_bracket close_bracket path))) [
          | inl q ↦ rw (q, field_body) (nested_array-Flat base path v p (omega arith))
          | inr q ↦ rw (q, field_body) (by_marker-Flat base path v _ p h refl)
        ]

mutual
  unfolding compile_filter_on_base

  filter-Flat : (fuel : ℕ) → FilterOk fuel (compile_filter_on_base fuel)
  filter-Flat zero base v elem p h = absurd (omega arith)
  filter-Flat (suc f) base v elem p h =
      filter_body-Flat f (compile_filter_on_base f) (filter-Flat f) (compile_field_expr_on_base f)
        (field-Flat f) base v elem p (omega arith)

  field-Flat : (fuel : ℕ) → FieldOk fuel (compile_field_expr_on_base fuel)
  field-Flat zero base path v p h = absurd (omega arith)
  field-Flat (suc f) base path v p h =
      field_body-Flat f (compile_filter_on_base f) (filter-Flat f) (compile_field_expr_on_base f)
        (field-Flat f) base path v p (omega arith)

-- On a base expression that is flat SQL without placeholders, `build_where_on_base` ends within its
-- fuel, and ends in an error or in flat SQL whose number of placeholders is the number of bind values.
-- Flat: scanned from any depth of parentheses, outside quotes, every character outside quotes is a
-- letter, a digit, a blank or one of a few symbols, no parenthesis closes one that was open before,
-- and the scan ends at the same depth, outside quotes.
pub build_where_on_base-Ensures :
    (base : String) (v : Value) → Flat base 0 → Ensures IsFlat (build_where_on_base base v)
unfolding build_where_on_base filter_fuel
build_where_on_base-Ensures base v p = filter-Flat (filter_fuel v) base v false p (omega arith)

pub data_Flat : Flat "data" 0
unfolding scan
data_Flat = by_scan λ d h. refl

pub build_where-Ensures : (v : Value) → Ensures IsFlat (build_where v)
unfolding build_where
build_where-Ensures v = build_where_on_base-Ensures "data" v data_Flat
