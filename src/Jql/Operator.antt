-- ===== src/Jql/Operator.antt =====
-- src/query/jql.rs: the field operators. `parts` and `binds`, which the code extends in place, are
-- the two fields of a `Fragment` that is passed along.
use kokoadb.Prelude.{
  ℕ, String, Bool, true, List, [], ◌∷◌, ◌++◌, Option, none, some, str_eq, replicate, length,
  if◌then◌else◌,
}
use kokoadb.Error.{AppResult, ok, err, bad_request, ◌>>=◌}
use kokoadb.Json.{
  Value, null, bool, number, string, items, fields, as_object, as_array, as_str, as_bool, as_i64,
  I64, nonneg, number_as_i64, number_as_f64, F64, SqlValue, integer, real, text,
}
use kokoadb.Text.{◌<>◌, join}

-- `CompiledWhere`
pub record Compiled : Type 0 where
  pub sql : String
  pub binds : List SqlValue

pub record Fragment : Type 0 where
  pub parts : List String
  pub binds : List SqlValue

abbrev pub no_fragment : Fragment
no_fragment = record { parts = []; binds = [] }

-- `parts.push(part); binds.extend(more)`
abbrev pub push : String → List SqlValue → Fragment → Fragment
push part more f = record { parts = f.parts ++ part ∷ []; binds = f.binds ++ more }

unfoldable pub number_to_sql : Option I64 → Option F64 → AppResult SqlValue
number_to_sql (some i) f = ok (integer i)
number_to_sql none (some f) = ok (real f)
number_to_sql none none = err (bad_request "unsupported numeric value")

unfoldable pub json_to_sql_value : Value → AppResult SqlValue
unfolding number_to_sql
json_to_sql_value null = ok SqlValue.null
json_to_sql_value (bool b) = ok (integer (nonneg (if b then 1 else 0)))
json_to_sql_value (number n) = number_to_sql (number_as_i64 n) (number_as_f64 n)
json_to_sql_value (string s) = ok (text s)
json_to_sql_value _ =
    err (bad_request "nested array/object values are not supported in scalar comparisons")

-- `for item in arr { binds.push(json_to_sql_value(item)?) }`
unfoldable pub bind_all : List Value → AppResult (List SqlValue)
bind_all [] = ok []
bind_all (v ∷ vs) = do b ← json_to_sql_value v; bs ← bind_all vs; ok (b ∷ bs)

unfoldable pub expect_string : String → Value → AppResult String
expect_string op operand = elim (as_str operand) [
  | some s ↦ ok s
  | none ↦ err (bad_request (op <> " value must be string"))
]

unfoldable pub expect_array : String → Value → AppResult (List Value)
expect_array op operand = elim (as_array operand) [
  | some xs ↦ ok (items xs)
  | none ↦ err (bad_request (op <> " value must be array"))
]

-- An array operand that may not be empty.
unfoldable pub expect_items : String → Value → AppResult (List Value)
unfolding expect_array
expect_items op operand = do
  arr ← expect_array op operand
  elim arr [ [] ↦ err (bad_request (op <> " cannot be empty")) | x ∷ xs ↦ ok (x ∷ xs) ]

pub data Comparison : Type 0 where
  eq ne gt gte lt lte : Comparison

unfoldable pub parse_comparison : String → Option Comparison
parse_comparison op =
    if str_eq op "$eq"
    then some eq
    else if str_eq op "$ne"
    then some ne
    else if str_eq op "$gt"
    then some gt
    else if str_eq op "$gte"
    then some gte
    else if str_eq op "$lt"
    then some lt
    else if str_eq op "$lte"
    then some lte
    else none

unfoldable pub against_placeholder : Comparison → String
against_placeholder eq = " = ?"
against_placeholder ne = " != ?"
against_placeholder gt = " > ?"
against_placeholder gte = " >= ?"
against_placeholder lt = " < ?"
against_placeholder lte = " <= ?"

pub data Operator : Type 0 where
  comparison : Comparison → Operator
  exists starts_with ends_with contains ilike istarts_with iends_with icontains regex : Operator
  is_in not_in between has_size has_type includes not_includes : Operator
  any_of all_of none_of elem_match : Operator

other_operator : String → Option Operator
other_operator op =
    if str_eq op "$exists"
    then some exists
    else if str_eq op "$startsWith"
    then some starts_with
    else if str_eq op "$endsWith"
    then some ends_with
    else if str_eq op "$contains"
    then some contains
    else if str_eq op "$ilike"
    then some ilike
    else if str_eq op "$istartsWith"
    then some istarts_with
    else if str_eq op "$iendsWith"
    then some iends_with
    else if str_eq op "$icontains"
    then some icontains
    else if str_eq op "$regex"
    then some regex
    else if str_eq op "$in"
    then some is_in
    else if str_eq op "$nin"
    then some not_in
    else if str_eq op "$between"
    then some between
    else if str_eq op "$size"
    then some has_size
    else if str_eq op "$type"
    then some has_type
    else if str_eq op "$includes"
    then some includes
    else if str_eq op "$nincludes"
    then some not_includes
    else if str_eq op "$any"
    then some any_of
    else if str_eq op "$all"
    then some all_of
    else if str_eq op "$none"
    then some none_of
    else if str_eq op "$elemMatch"
    then some elem_match
    else none

-- The names that the code matches on.
unfoldable pub parse_operator : String → Option Operator
unfolding other_operator parse_comparison
parse_operator op = elim (parse_comparison op) [
  | some c ↦ some (comparison c)
  | none ↦ other_operator op
]

-- `vec!["?"; n].join(", ")`
unfoldable pub placeholders : ℕ → String
placeholders n = join ", " (replicate n "?")

-- One predicate on one text operand, which is bound with `pre` and `post` around it.
unfoldable pub push_like : String → Value → String → String → String → Fragment → AppResult Fragment
push_like op operand part pre post f = do
  s ← expect_string op operand
  ok (push part (text (pre <> s <> post) ∷ []) f)

unfoldable pub push_value : Value → String → Fragment → AppResult Fragment
push_value operand part f = do b ← json_to_sql_value operand; ok (push part (b ∷ []) f)

unfoldable pub push_list : String → Value → (ℕ → String) → Fragment → AppResult Fragment
push_list op operand part f = do
  arr ← expect_items op operand
  bs ← bind_all arr
  ok (push (part (length arr)) bs f)

unfoldable pub push_pair : List Value → String → Fragment → AppResult Fragment
push_pair (a ∷ b ∷ []) part f = do
  x ← json_to_sql_value a
  y ← json_to_sql_value b
  ok (push part (x ∷ y ∷ []) f)
push_pair _ part f = err (bad_request "$between value must contain exactly 2 items")

unfoldable pub push_exists : Value → String → Fragment → AppResult Fragment
push_exists operand scalar_expr f = elim (as_bool operand) [
  | some b ↦ ok (push (scalar_expr <> (if b then " IS NOT NULL" else " IS NULL")) [] f)
  | none ↦ err (bad_request "$exists value must be boolean")
]

unfoldable pub size_comparison : String → String → I64 → Fragment → AppResult Fragment
size_comparison op size_expr n f = elim (parse_comparison op) [
  | some c ↦ ok (push (size_expr <> against_placeholder c) (integer n ∷ []) f)
  | none ↦ err (bad_request ("unsupported $size operator: " <> op))
]

unfoldable pub size_entry : String → String → Value → Fragment → AppResult Fragment
size_entry size_expr op v f = elim (as_i64 v) [
  | some n ↦ size_comparison op size_expr n f
  | none ↦ err (bad_request ("$size operator " <> op <> " requires integer value"))
]

unfoldable pub size_entries : String → List (String × Value) → Fragment → AppResult Fragment
size_entries size_expr [] f = ok f
size_entries size_expr ((op, v) ∷ rest) f =
    size_entry size_expr op v f >>= size_entries size_expr rest

unfoldable pub compile_size_predicate : String → Value → Fragment → AppResult Fragment
unfolding size_entries size_entry size_comparison
compile_size_predicate size_expr operand f = elim (as_i64 operand) [
  | some n ↦ ok (push (size_expr <> " = ?") (integer n ∷ []) f)
  | none ↦ elim (as_object operand) [
    | some obj ↦ size_entries size_expr (fields obj) f
    | none ↦ err (bad_request "$size must be integer or operator object")
  ]
]

unfoldable pub is_sqlite_type : String → Bool
is_sqlite_type t =
    if str_eq t "array"
    then true
    else if str_eq t "object"
    then true
    else if str_eq t "null"
    then true
    else if str_eq t "integer"
    then true
    else if str_eq t "real"
    then true
    else if str_eq t "text"
    then true
    else if str_eq t "true"
    then true
    else str_eq t "false"

unfoldable pub compile_type_predicate : String → String → Fragment → AppResult Fragment
compile_type_predicate type_expr operand f =
    if str_eq operand "number"
    then ok (push ("(" <> type_expr <> " = 'integer' OR " <> type_expr <> " = 'real')") [] f)
    else if str_eq operand "boolean"
    then ok (push ("(" <> type_expr <> " = 'true' OR " <> type_expr <> " = 'false')") [] f)
    else if str_eq operand "string"
    then ok (push (type_expr <> " = ?") (text "text" ∷ []) f)
    else if is_sqlite_type operand
    then ok (push (type_expr <> " = ?") (text operand ∷ []) f)
    else err (bad_request ("unsupported $type value: " <> operand))

-- An array predicate: `EXISTS (SELECT 1 FROM json_each(array) je WHERE test)`.
abbrev pub each_value : String → String → String
each_value array_expr test =
    "EXISTS (SELECT 1 FROM json_each(" <> array_expr <> ") je WHERE je.value " <> test <> ")"

-- The parts of `$all`, one for each item.
abbrev pub each_item : String → ℕ → String
each_item array_expr n = "(" <> join " AND " (replicate n (each_value array_expr "= ?")) <> ")"

-- The branches of `compile_operator`. `elem` is `compile_elem_match` on the array expression, with
-- the filter compiler that it calls; `elem_base_expr` only has to be there.
module _ (elem : String → Value → AppResult Compiled) where
  elem_part : Option String → String → Value → Fragment → AppResult Fragment
  elem_part none array_expr operand f = err (bad_request "$elemMatch not available at this context")
  elem_part (some base) array_expr operand f = do
    compiled ← elem array_expr operand
    ok (push compiled.sql compiled.binds f)

  unfoldable pub run_operator :
      Operator → String → Value → String → String → Option String → Fragment → AppResult Fragment
  unfolding elem_part push_pair
  run_operator (comparison c) op v scalar listed base f =
      push_value v (scalar <> against_placeholder c) f
  run_operator exists op v scalar listed base f = push_exists v scalar f
  run_operator starts_with op v scalar listed base f = push_like op v (scalar <> " LIKE ?") "" "%" f
  run_operator ends_with op v scalar listed base f = push_like op v (scalar <> " LIKE ?") "%" "" f
  run_operator contains op v scalar listed base f = push_like op v (scalar <> " LIKE ?") "%" "%" f
  run_operator ilike op v scalar listed base f =
      push_like op v ("LOWER(" <> scalar <> ") LIKE LOWER(?)") "" "" f
  run_operator istarts_with op v scalar listed base f =
      push_like op v ("LOWER(" <> scalar <> ") LIKE LOWER(?)") "" "%" f
  run_operator iends_with op v scalar listed base f =
      push_like op v ("LOWER(" <> scalar <> ") LIKE LOWER(?)") "%" "" f
  run_operator icontains op v scalar listed base f =
      push_like op v ("LOWER(" <> scalar <> ") LIKE LOWER(?)") "%" "%" f
  run_operator regex op v scalar listed base f = push_like op v (scalar <> " REGEXP ?") "" "" f
  run_operator is_in op v scalar listed base f =
      push_list op v (λ n. scalar <> " IN (" <> placeholders n <> ")") f
  run_operator not_in op v scalar listed base f =
      push_list op v (λ n. scalar <> " NOT IN (" <> placeholders n <> ")") f
  run_operator between op v scalar listed base f = do
    arr ← expect_array op v
    push_pair arr (scalar <> " BETWEEN ? AND ?") f
  run_operator has_size op v scalar listed base f =
      compile_size_predicate ("json_array_length(" <> listed <> ")") v f
  run_operator has_type op v scalar listed base f = do
    t ← expect_string op v
    compile_type_predicate ("json_type(" <> listed <> ")") t f
  run_operator includes op v scalar listed base f = push_value v (each_value listed "= ?") f
  run_operator not_includes op v scalar listed base f =
      push_value v ("NOT " <> each_value listed "= ?") f
  run_operator any_of op v scalar listed base f =
      push_list op v (λ n. each_value listed ("IN (" <> placeholders n <> ")")) f
  run_operator all_of op v scalar listed base f = push_list op v (each_item listed) f
  run_operator none_of op v scalar listed base f =
      push_list op v (λ n. "NOT " <> each_value listed ("IN (" <> placeholders n <> ")")) f
  run_operator elem_match op v scalar listed base f = elem_part base listed v f

  unfoldable pub compile_operator :
      String → Value → String → String → Option String → Fragment → AppResult Fragment
  compile_operator op operand scalar listed base f = elim (parse_operator op) [
    | some o ↦ run_operator o op operand scalar listed base f
    | none ↦ err (bad_request ("unsupported operator: " <> op))
  ]

  -- `for (op, operand) in op_obj { compile_operator(..)?; }`
  unfoldable pub compile_operators :
      List (String × Value) → String → String → Option String → Fragment → AppResult Fragment
  compile_operators [] scalar listed base f = ok f
  compile_operators ((op, operand) ∷ rest) scalar listed base f =
      compile_operator op operand scalar listed base f >>= compile_operators rest scalar listed base
