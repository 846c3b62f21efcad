-- ===== src/Jql/Flat/Operator.antt =====
-- src/query/jql.rs: the texts of the predicates that the operators add.
use kokoadb.Prelude.{
  ℕ, ◌+◌, ◌*◌, String, refl, List, [], ◌∷◌, some, arith, str_eq, All, Bool-cases, Option-cases, inl,
  inr,
}
use kokoadb.Error.{AppResult, Ensures, holds, failed, Ensures-bind}
use kokoadb.Json.{Value, fields, as_i64, as_object, I64, integer, text}
use kokoadb.Text.{◌<>◌}
use kokoadb.Sql.{scan}
use kokoadb.Sql.Spans.{
  Spans, by_scan, Flat, Flat-append, Flat-wrap, Spans-append, Spans-lift, Spans-cast, Flat-join,
}
use kokoadb.Jql.Operator.{
  Compiled, Fragment, parse_comparison, parse_operator, Operator, comparison, exists, starts_with,
  ends_with, contains, ilike, istarts_with, iends_with, icontains, regex, is_in, not_in, between,
  has_size, has_type, includes, not_includes, any_of, all_of, none_of, elem_match, placeholders,
  compile_size_predicate, size_entries, size_entry, size_comparison, is_sqlite_type,
  compile_type_predicate, each_value, each_item, run_operator, compile_operator, compile_operators,
}
use kokoadb.Jql.Flat.Fragment.{
  Balanced, IsFlat, push-Balanced, Ensures-any, expect_string-returns, expect_array-returns,
  against_placeholder-Flat, replicate-FlatAll, placeholders-Flat, push_value-Balanced,
  push_like-Balanced, push_list-Balanced, push_pair-Balanced, push_exists-Balanced,
}

size_comparison-Balanced :
    (f : Fragment) (b : Balanced f) (op size_expr : String) (n : I64)
    → Flat size_expr 0
    → Ensures Balanced (size_comparison op size_expr n f)
unfolding size_comparison
size_comparison-Balanced f b op e n p = elim (Option-cases (parse_comparison op)) [
  | inl q ↦ rw (q, size_comparison) failed
  | inr (c, q) ↦
      rw (q, size_comparison)
        (holds
          (push-Balanced f _ (integer n ∷ []) b (Flat-append 0 1 p (against_placeholder-Flat c))))
]

size_entry-Balanced :
    (f : Fragment) (b : Balanced f) (size_expr op : String) (v : Value)
    → Flat size_expr 0
    → Ensures Balanced (size_entry size_expr op v f)
unfolding size_entry
size_entry-Balanced f b e op v p = elim (Option-cases (as_i64 v)) [
  | inl q ↦ rw (q, size_entry) failed
  | inr (n, q) ↦ rw (q, size_entry) (size_comparison-Balanced f b op e n p)
]

size_entries-Balanced :
    (size_expr : String) (entries : List (String × Value)) (f : Fragment)
    → Flat size_expr 0
    → Balanced f
    → Ensures Balanced (size_entries size_expr entries f)
unfolding size_entries
size_entries-Balanced e [] f p b = holds b
size_entries-Balanced e ((op, v) ∷ rest) f p b =
    Ensures-bind _ (size_entry-Balanced f b e op v p) λ f' b'. size_entries-Balanced e rest f' p b'

placeholder_test : (s : String) → Flat s 0 → Flat (s <> " = ?") 1
unfolding scan
placeholder_test s p = Flat-append 0 1 p (by_scan λ d h. refl)

size_predicate-Balanced :
    (f : Fragment) (b : Balanced f) (size_expr : String) (v : Value)
    → Flat size_expr 0
    → Ensures Balanced (compile_size_predicate size_expr v f)
unfolding compile_size_predicate
size_predicate-Balanced f b e v p = elim (Option-cases (as_i64 v)) [
  | inl q ↦ elim (Option-cases (as_object v)) [
    | inl r ↦ rw (q, compile_size_predicate, r) failed
    | inr (fs, r) ↦ rw (q, compile_size_predicate, r) (size_entries-Balanced e (fields fs) f p b)
  ]
  | inr (n, q) ↦
      rw (q, compile_size_predicate)
        (holds (push-Balanced f _ (integer n ∷ []) b (placeholder_test e p)))
]

-- A text that stands twice between fixed texts.
twice-Flat :
    (s pre mid post : String)
    → Flat s 0
    → Spans pre 0 1 0
    → Spans mid 1 1 0
    → Spans post 1 0 0
    → Flat (pre <> s <> mid <> s <> post) 0
twice-Flat s pre mid post p a m z =
    Spans-append 0 0 a
      (Spans-append 0 0 (Spans-lift 1 p) (Spans-append 0 0 m (Spans-append 0 0 (Spans-lift 1 p) z)))

type_predicate-Balanced :
    (f : Fragment) (b : Balanced f) (type_expr operand : String)
    → Flat type_expr 0
    → Ensures Balanced (compile_type_predicate type_expr operand f)
unfolding compile_type_predicate scan
type_predicate-Balanced f b e t p = elim (Bool-cases (str_eq t "number")) [
  | inl q ↦ rw q (
      holds (
        push-Balanced f _ [] b
          (twice-Flat e _ _ _ p (by_scan λ d h. refl) (by_scan λ d h. refl) (by_scan λ d h. refl))))
  | inr q ↦ elim (Bool-cases (str_eq t "boolean")) [
    | inl r ↦
        rw (q, r)
          (holds (
            push-Balanced f _ [] b (
              twice-Flat e _ _ _ p (by_scan λ d h. refl) (by_scan λ d h. refl)
                (by_scan λ d h. refl))))
    | inr r ↦ elim (Bool-cases (str_eq t "string")) [
      | inl u ↦ rw (q, r, u) (holds (push-Balanced f _ (text "text" ∷ []) b (placeholder_test e p)))
      | inr u ↦ elim (Bool-cases (is_sqlite_type t)) [
        | inl w ↦ rw (q, r, u, w) (holds (push-Balanced f _ (text t ∷ []) b (placeholder_test e p)))
        | inr w ↦ rw (q, r, u, w) failed
      ]
    ]
  ]
]

each_value-Flat :
    (listed test : String) (n : ℕ) → Flat listed 0 → Flat test n → Flat (each_value listed test) n
unfolding scan
each_value-Flat listed test n l t =
    Spans-cast n
      (Spans-append 0 (0 + (0 + (n + 0))) (by_scan λ d h. refl) (
        Spans-append 0 (0 + (n + 0)) (Spans-lift 2 l) (
          Spans-append {i = 2} {m = 1} 0 (n + 0) (by_scan λ d h. refl)
            (Spans-append n 0 (Spans-lift 1 t) (by_scan λ d h. refl)))))
      (omega arith)

each_value-Flat_in :
    (listed : String) (n : ℕ)
    → Flat listed 0
    → Flat (each_value listed ("IN (" <> placeholders n <> ")")) n
unfolding scan
each_value-Flat_in listed n l =
    Spans-cast n
      (each_value-Flat listed _ _ l
        (Flat-wrap 1 0 n 0 (by_scan λ d h. refl) (placeholders-Flat n) (by_scan λ d h. refl)))
      (omega arith)

each_item-Flat : (listed : String) (n : ℕ) → Flat listed 0 → Flat (each_item listed n) n
unfolding scan
each_item-Flat listed n l =
    Spans-cast n
      (Flat-wrap 1 0 (n * 1) 0 (by_scan λ d h. refl)
        (Flat-join (by_scan λ d h. refl)
          (replicate-FlatAll n 1 (each_value-Flat listed "= ?" 1 l (by_scan λ d h. refl))))
        (by_scan λ d h. refl))
      (omega arith)

list_test :
    (s pre post : String) (n : ℕ)
    → Flat s 0
    → Spans pre 0 1 0
    → Spans post 1 0 0
    → Flat (s <> pre <> placeholders n <> post) n
list_test s pre post n p a z =
    Spans-cast n (Flat-append 0 (0 + (n + 0)) p (Flat-wrap 1 0 n 0 a (placeholders-Flat n) z))
      (omega arith)

call-Flat :
    (s pre post : String) (n : ℕ)
    → Flat s 0
    → Spans pre 0 1 0
    → Spans post 1 0 n
    → Flat (pre <> s <> post) n
call-Flat s pre post n p a z = Spans-cast n (Flat-wrap 1 0 0 n a p z) (omega arith)

negated : (s : String) (n : ℕ) → Flat s n → Flat ("NOT " <> s) n
unfolding scan
negated s n p = Spans-cast n (Flat-append 0 n (by_scan λ d h. refl) p) (omega arith)

module _ (elem : String → Value → AppResult Compiled) (base scalar listed : String)
    (p : Flat scalar 0) (l : Flat listed 0) where
  pub run_operator-Balanced :
      (f : Fragment) (o : Operator) (op : String) (v : Value)
      → Balanced f
      → Ensures IsFlat (elem listed v)
      → Ensures Balanced (run_operator elem o op v scalar listed (some base) f)
  unfolding run_operator scan
  run_operator-Balanced f (comparison c) op v b k =
      push_value-Balanced f b v _ (Flat-append 0 1 p (against_placeholder-Flat c))
  run_operator-Balanced f exists op v b k = push_exists-Balanced f b v scalar p
  run_operator-Balanced f starts_with op v b k =
      push_like-Balanced f b op v _ _ _ (Flat-append 0 1 p (by_scan λ d h. refl))
  run_operator-Balanced f ends_with op v b k =
      push_like-Balanced f b op v _ _ _ (Flat-append 0 1 p (by_scan λ d h. refl))
  run_operator-Balanced f contains op v b k =
      push_like-Balanced f b op v _ _ _ (Flat-append 0 1 p (by_scan λ d h. refl))
  run_operator-Balanced f ilike op v b k =
      push_like-Balanced f b op v _ _ _
        (call-Flat scalar _ _ 1 p (by_scan λ d h. refl) (by_scan λ d h. refl))
  run_operator-Balanced f istarts_with op v b k =
      push_like-Balanced f b op v _ _ _
        (call-Flat scalar _ _ 1 p (by_scan λ d h. refl) (by_scan λ d h. refl))
  run_operator-Balanced f iends_with op v b k =
      push_like-Balanced f b op v _ _ _
        (call-Flat scalar _ _ 1 p (by_scan λ d h. refl) (by_scan λ d h. refl))
  run_operator-Balanced f icontains op v b k =
      push_like-Balanced f b op v _ _ _
        (call-Flat scalar _ _ 1 p (by_scan λ d h. refl) (by_scan λ d h. refl))
  run_operator-Balanced f regex op v b k =
      push_like-Balanced f b op v _ _ _ (Flat-append 0 1 p (by_scan λ d h. refl))
  run_operator-Balanced f is_in op v b k =
      push_list-Balanced f b op v _
        λ n. list_test scalar _ _ n p (by_scan λ d h. refl) (by_scan λ d h. refl)
  run_operator-Balanced f not_in op v b k =
      push_list-Balanced f b op v _
        λ n. list_test scalar _ _ n p (by_scan λ d h. refl) (by_scan λ d h. refl)
  run_operator-Balanced f between op v b k =
      Ensures-bind _ (Ensures-any (expect_array-returns op v))
        λ vs _. push_pair-Balanced f b vs _ (Flat-append 0 2 p (by_scan λ d h. refl))
  run_operator-Balanced f has_size op v b k =
      size_predicate-Balanced f b _ v
        (call-Flat listed _ _ 0 l (by_scan λ d h. refl) (by_scan λ d h. refl))
  run_operator-Balanced f has_type op v b k =
      Ensures-bind _ (Ensures-any (expect_string-returns op v)) λ t _.
        type_predicate-Balanced f b _ t
          (call-Flat listed _ _ 0 l (by_scan λ d h. refl) (by_scan λ d h. refl))
  run_operator-Balanced f includes op v b k =
      push_value-Balanced f b v _ (each_value-Flat listed "= ?" 1 l (by_scan λ d h. refl))
  run_operator-Balanced f not_includes op v b k =
      push_value-Balanced f b v _
        (negated _ 1 (each_value-Flat listed "= ?" 1 l (by_scan λ d h. refl)))
  run_operator-Balanced f any_of op v b k =
      push_list-Balanced f b op v _ λ n. each_value-Flat_in listed n l
  run_operator-Balanced f all_of op v b k =
      push_list-Balanced f b op v _ λ n. each_item-Flat listed n l
  run_operator-Balanced f none_of op v b k =
      push_list-Balanced f b op v _ λ n. negated _ n (each_value-Flat_in listed n l)
  run_operator-Balanced f elem_match op v b k =
      Ensures-bind _ k λ c h. holds (push-Balanced f c.sql c.binds b h)

  pub compile_operator-Balanced :
      (f : Fragment) (op : String) (v : Value)
      → Balanced f
      → Ensures IsFlat (elem listed v)
      → Ensures Balanced (compile_operator elem op v scalar listed (some base) f)
  unfolding compile_operator
  compile_operator-Balanced f op v b k = elim (Option-cases (parse_operator op)) [
    | inl q ↦ rw (q, compile_operator) failed
    | inr (o, q) ↦ rw (q, compile_operator) (run_operator-Balanced f o op v b k)
  ]

  pub compile_operators-Balanced :
      (entries : List (String × Value)) (f : Fragment)
      → Balanced f
      → All (λ e. Ensures IsFlat (elem listed e.1)) entries
      → Ensures Balanced (compile_operators elem entries scalar listed (some base) f)
  unfolding compile_operators
  compile_operators-Balanced [] f b k = holds b
  compile_operators-Balanced ((op, v) ∷ rest) f b k =
      Ensures-bind _ (compile_operator-Balanced f op v b k.0)
        λ f' b'. compile_operators-Balanced rest f' b' k.1
