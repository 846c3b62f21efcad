-- ===== src/Sort/Parts.antt =====
-- src/service/dispatcher/query_support.rs: the texts of the parts of an `ORDER BY` clause. Their paths are
-- assumed to have no apostrophe, for which the code does not test.
use mathlib.Core.Path.{subst}
use kokoadb.Prelude.{
  ℕ, String, Bool, true, false, not, ◌||◌, ◌≡◌, refl, sym, List, [], ◌∷◌, Option, none, some, arith,
  Bool-cases, inl, inr, str_eq, eq_iff, ◌==◌,
}
use kokoadb.Error.{AppResult, Ensures, holds, failed, Ensures-bind, Ensures-if}
use kokoadb.Json.{Value, as_i64, as_str, I64, nonneg, minus}
use kokoadb.Text.{all_chars, is_word_char, split, trim, is_empty, lowercase_is, contains_text}
use kokoadb.Sql.{scan, step, quoted}
use kokoadb.Sql.Spans.{
  by_scan, Flat, Flat-append, Flat-wrap, FlatAll, none_left, one_more, Flat-join, Flat-word,
  Spans-quote,
}
use kokoadb.Sort.{
  validate_projection_path, any_blank, named_direction, bad_direction, direction_from,
  parse_sort_dir, is_column, document_expr, score_expr, sort_expr, last_word, token_direction,
  order_part, order_parts, ordered,
}

abbrev pub no_quote : ℕ → Bool
no_quote c = not (c == 39)

abbrev pub Unquoted : String → Type 0
Unquoted s = all_chars no_quote s ≡ true

scan-Unquoted : (s : String) (d h : ℕ) → Unquoted s → scan s (quoted d h) ≡ some (quoted d h)
unfolding scan step all_chars
scan-Unquoted String.[] d h a = refl
scan-Unquoted (String.◌∷◌ c s) d h a = ground (arith, scan-Unquoted s d h)

as_word :
    (path column : String)
    → all_chars is_word_char column ≡ true
    → str_eq path column ≡ true
    → all_chars is_word_char path ≡ true
as_word path column a q =
    subst (λ x. all_chars is_word_char x ≡ true) (sym ((eq_iff path column).0 q)) a

column-words : (path : String) → is_column path ≡ true → all_chars is_word_char path ≡ true
unfolding is_column all_chars is_word_char
column-words path q = ground (
  arith,
  as_word path "_created_at" refl,
  as_word path "_modified_at" refl,
  as_word path "_expires_at" refl,
  as_word path "_size_bytes" refl,
  as_word path "_expiry_behavior" refl,
  as_word path "_txn_id" refl,
)

unfoldable pub IsExpr : String → Type 0
IsExpr e = Flat e 0

unfoldable pub Valid : Unit {0} → Type 0
Valid u = Unit {0}

pub validate-Ensures : (path name : String) → Ensures Valid (validate_projection_path path name)
unfolding validate_projection_path Valid
validate-Ensures path name = elim (Bool-cases (is_empty (trim path))) [
  | inl q ↦ rw q failed
  | inr q ↦ elim (Bool-cases (any_blank (split b'.' path))) [
    | inl b ↦ rw (q, b) failed
    | inr b ↦ rw (q, b) (holds tt)
  ]
]

document_expr-Flat : (path : String) → Unquoted path → Ensures IsExpr (document_expr path)
unfolding document_expr IsExpr scan
document_expr-Flat path a = Ensures-bind _ (validate-Ensures path "sort") λ u _. holds (
    Flat-wrap 1 0 0 0 (by_scan λ d h. refl)
      (Spans-quote "'$." path "'" (λ d h. refl) (λ d h. scan-Unquoted path d h a) (λ d h. refl))
      (by_scan λ d h. refl))

score_expr-Flat : (allow : Bool) → Ensures IsExpr (score_expr allow)
unfolding score_expr IsExpr scan
score_expr-Flat true = holds (by_scan λ d h. refl)
score_expr-Flat false = failed

sort_expr-Flat :
    (path : String) (allow : Bool) → Unquoted path → Ensures IsExpr (sort_expr path allow)
unfolding sort_expr IsExpr scan
sort_expr-Flat path allow a = elim (Bool-cases (str_eq path "_search_score")) [
  | inl q ↦ rw q (score_expr-Flat allow)
  | inr q ↦ elim (Bool-cases (str_eq path "id" || str_eq path "_id")) [
    | inl i ↦ rw (q, i) (holds (by_scan λ d h. refl))
    | inr i ↦ elim (Bool-cases (str_eq path "_namespace")) [
      | inl n ↦ rw (q, i, n) (holds (by_scan λ d h. refl))
      | inr n ↦ elim (Bool-cases (is_column path)) [
        | inl c ↦ rw (q, i, n, c) (holds (Flat-word path (column-words path c)))
        | inr c ↦ rw (q, i, n, c) (document_expr-Flat path a)
      ]
    ]
  ]
]

asc : IsExpr "ASC"
unfolding IsExpr scan
asc = by_scan λ d h. refl

desc : IsExpr "DESC"
unfolding IsExpr scan
desc = by_scan λ d h. refl

named-Flat : (o : Option String) → Ensures IsExpr (named_direction o)
unfolding named_direction bad_direction
named-Flat (some s) =
    Ensures-if (lowercase_is s "asc" || lowercase_is s "1") (holds asc)
      (Ensures-if (lowercase_is s "desc" || lowercase_is s "-1") (holds desc) failed)
named-Flat none = failed

from-Flat : (n : Option I64) (name : Option String) → Ensures IsExpr (direction_from n name)
unfolding direction_from
from-Flat (some (nonneg n)) name = holds asc
from-Flat (some (minus n)) name = holds desc
from-Flat none name = named-Flat name

pub direction-Flat : (v : Value) → Ensures IsExpr (parse_sort_dir v)
unfolding parse_sort_dir
direction-Flat v = from-Flat (as_i64 v) (as_str v)

last_word-Flat :
    (dir : String) (more : List String) → IsExpr dir → Ensures IsExpr (last_word dir more)
unfolding last_word
last_word-Flat dir [] p = holds p
last_word-Flat dir (x ∷ xs) p = failed

pub token_direction-Flat : (ws : List String) → Ensures IsExpr (token_direction ws)
unfolding token_direction
token_direction-Flat [] = holds asc
token_direction-Flat (dir ∷ more) =
    Ensures-if (lowercase_is dir "asc") (last_word-Flat "ASC" more asc)
      (Ensures-if (lowercase_is dir "desc") (last_word-Flat "DESC" more desc) failed)

-- Paths without apostrophes, each with a direction that is flat if it is there.
unfoldable pub Entry : String × AppResult String → Type 0
Entry (path, direction) = Unquoted path × Ensures IsExpr direction

unfoldable pub Entries : List (String × AppResult String) → Type 0
unfolding Entry
Entries [] = Unit {0}
Entries (e ∷ es) = Entry e × Entries es

order_part-Flat :
    (allow : Bool) (path : String) (direction : AppResult String) (seen : List String)
    → Unquoted path
    → Ensures IsExpr direction
    → Ensures IsExpr (order_part allow path direction seen)
unfolding order_part IsExpr scan
order_part-Flat allow path direction seen a p = elim (Bool-cases (contains_text path seen)) [
  | inl q ↦ rw q failed
  | inr q ↦ rw q (
      Ensures-bind _ p λ dir f.
        Ensures-bind _ (sort_expr-Flat path allow a)
          λ expr e. holds (Flat-append 0 0 e (Flat-append 0 0 (by_scan λ d h. refl) f)))
]

AllExprs : List String → Type 0
AllExprs parts = FlatAll parts 0

order_parts-Flat :
    (allow : Bool) (es : List (String × AppResult String)) (seen : List String)
    → Entries es
    → Ensures AllExprs (order_parts allow es seen)
unfolding order_parts AllExprs Entries Entry IsExpr
order_parts-Flat allow [] seen h = holds none_left
order_parts-Flat allow ((path, direction) ∷ rest) seen ((a, p), h) =
    Ensures-bind _ (order_part-Flat allow path direction seen a p) λ part e.
      Ensures-bind _ (order_parts-Flat allow rest (path ∷ seen) h) λ parts es. holds (one_more e es)

pub ordered-Flat :
    (allow : Bool) (es : List (String × AppResult String))
    → Entries es
    → Ensures IsExpr (ordered allow es)
unfolding AllExprs IsExpr scan
ordered-Flat allow es h =
    Ensures-bind _ (order_parts-Flat allow es [] h)
      λ parts p. holds (Flat-join (by_scan λ d h'. refl) p)
