-- ===== src/UserScope/Flat.antt =====
-- src/service/dispatcher/query_support.rs: the text of a clause that is limited to a selector.
use kokoadb.Prelude.{
  ◌+◌, String, Bool, true, false, ◌||◌, refl, List, [], ◌∷◌, ◌++◌, Option, none, some, length,
  length-append, length-map, map, arith, Bool-cases, inl, inr, str_eq, if◌then◌else◌,
}
use kokoadb.Error.{Ensures, holds, failed, Ensures-bind}
use kokoadb.Json.{Value, bool, string, array, object, end, field, items, text}
use kokoadb.Text.{trim, is_empty}
use kokoadb.Sql.{scan}
use kokoadb.Sql.Spans.{by_scan, Flat-append, Flat-wrap, Spans-cast}
use kokoadb.Jql.Operator.{Compiled}
use kokoadb.Jql.Flat.Fragment.{IsFlat, placeholders-Flat}
use kokoadb.UserScope.{
  normalize_user_scope_id, collect_ids, insert_id, list_condition, compile_document_user_list,
  compile_comparison, list_operand, exists_operand, compile_user_operator, is_list_operator,
  compile_document_user_scope, apply_document_user_scope,
}

Anything : {A : Type 0} → A → Type 0
Anything a = Unit {0}

normalize-Ensures : (s : String) → Ensures Anything (normalize_user_scope_id s)
unfolding normalize_user_scope_id Anything
normalize-Ensures s = elim (Bool-cases (is_empty (trim s))) [
  | inl q ↦ rw q failed
  | inr q ↦ rw q (holds tt)
]

collect_ids-Ensures :
    (operator : String) (vs : List Value) (ids : List String)
    → Ensures Anything (collect_ids operator vs ids)
unfolding collect_ids Anything
collect_ids-Ensures operator [] ids = holds tt
collect_ids-Ensures operator (string s ∷ vs) ids =
    Ensures-bind _ (normalize-Ensures s) λ id _. collect_ids-Ensures operator vs (insert_id id ids)
collect_ids-Ensures operator (_ ∷ vs) ids = failed

list_condition-Flat : (operator : String) (ids : List String) → IsFlat (list_condition operator ids)
unfolding scan
list_condition-Flat operator ids =
    let n = length ids in
    elim (Bool-cases (str_eq operator "$in")) [
      | inl q ↦ rw q (
          Spans-cast (length (map text ids))
            (Flat-wrap 1 0 n 0 (by_scan λ d h. refl) (placeholders-Flat n) (by_scan λ d h. refl))
            (omega (arith, length-map ids text)))
      | inr q ↦ rw q (
          Spans-cast (length (map text ids))
            (Flat-wrap 2 0 n 0 (by_scan λ d h. refl) (placeholders-Flat n) (by_scan λ d h. refl))
            (omega (arith, length-map ids text)))
    ]

list-Ensures :
    (operator : String) (vs : List Value) → Ensures IsFlat (compile_document_user_list operator vs)
unfolding compile_document_user_list
list-Ensures operator [] = failed
list-Ensures operator (v ∷ vs) =
    Ensures-bind _ (collect_ids-Ensures operator (v ∷ vs) [])
      λ ids _. holds (list_condition-Flat operator ids)

comparison-Ensures :
    (operator : String) (v : Value) → Ensures IsFlat (compile_comparison operator v)
unfolding compile_comparison scan
comparison-Ensures operator (string s) = Ensures-bind _ (normalize-Ensures s) λ id _.
    elim (Bool-cases (str_eq operator "$eq")) [
      | inl q ↦ rw q (holds (by_scan λ d h. refl))
      | inr q ↦ rw q (holds (by_scan λ d h. refl))
    ]
comparison-Ensures operator _ = failed

list_operand-Ensures : (operator : String) (v : Value) → Ensures Anything (list_operand operator v)
unfolding list_operand Anything
list_operand-Ensures operator (array vs) = holds tt
list_operand-Ensures operator _ = failed

exists_operand-Ensures : (v : Value) → Ensures Anything (exists_operand v)
unfolding exists_operand Anything
exists_operand-Ensures (bool b) = holds tt
exists_operand-Ensures _ = failed

exists-Flat :
    (b : Bool)
    → IsFlat (record { sql = if b then "_user_id IS NOT NULL" else "_user_id IS NULL"; binds = [] })
unfolding scan
exists-Flat true = by_scan λ d h. refl
exists-Flat false = by_scan λ d h. refl

operator-Ensures :
    (operator : String) (v : Value) → Ensures IsFlat (compile_user_operator operator v)
unfolding compile_user_operator
operator-Ensures operator v = elim (Bool-cases (str_eq operator "$eq" || str_eq operator "$ne")) [
  | inl q ↦ rw q (comparison-Ensures operator v)
  | inr q ↦ elim (Bool-cases (is_list_operator operator)) [
    | inl l ↦
        rw (q, l)
          (Ensures-bind _ (list_operand-Ensures operator v) λ vs _. list-Ensures operator vs)
    | inr l ↦ elim (Bool-cases (str_eq operator "$exists")) [
      | inl e ↦
          rw (q, l, e) (Ensures-bind _ (exists_operand-Ensures v) λ b _. holds (exists-Flat b))
      | inr e ↦ rw (q, l, e) failed
    ]
  ]
]

scope-Ensures : (v : Value) → Ensures IsFlat (compile_document_user_scope v)
unfolding compile_document_user_scope scan
scope-Ensures (string s) = Ensures-bind _ (normalize-Ensures s) λ id _. holds (by_scan λ d h. refl)
scope-Ensures (array vs) = list-Ensures "$in" (items vs)
scope-Ensures (object (field operator operand end)) = operator-Ensures operator operand
scope-Ensures (object end) = failed
scope-Ensures (object (field k v (field l w rest))) = failed
scope-Ensures _ = failed

-- Limiting a clause that is flat SQL with as many placeholders as binds to a selector, or to none, ends
-- in an error or in such a clause again.
pub user_scope-Ensures :
    (selector : Option Value) (c : Compiled)
    → IsFlat c
    → Ensures IsFlat (apply_document_user_scope selector c)
unfolding apply_document_user_scope scan
user_scope-Ensures none c p = holds p
user_scope-Ensures (some v) c p = Ensures-bind _ (scope-Ensures v) λ scope q. holds (
    Spans-cast (length (scope.binds ++ c.binds))
      (Flat-append (length scope.binds) (0 + (length c.binds + 0)) q
        (Flat-wrap 1 0 (length c.binds) 0 (by_scan λ d h. refl) p (by_scan λ d h. refl)))
      (omega (arith, length-append scope.binds c.binds)))
