-- ===== src/UserScope/Agreement.antt =====
-- src/service/dispatcher/query_support.rs: the condition on users beside the decision in memory.
use mathlib.Core.Path.{subst}
use kokoadb.Prelude.{
  String, Bool, true, false, not, ◌≡◌, refl, ap, sym, ◌∙◌, List, [], ◌∷◌, Option, none, some,
  length, map, arith, Bool-cases, inl, inr, str_eq, eq_iff, if◌then◌else◌,
}
use kokoadb.Error.{AppResult, ok, err, out_of_fuel, ◌>>=◌}
use kokoadb.Json.{Value, string, array, object, end, field, items, text}
use kokoadb.Jql.Operator.{Compiled}
use kokoadb.UserScope.{
  normalize_user_scope_id, collect_ids, list_condition, compile_document_user_list,
  compile_comparison, list_operand, exists_operand, compile_user_operator, is_list_operator,
  compile_document_user_scope, is_user, user_is_bound, any_bound, is_bound_text, matches_string,
  matches_operator, document_user_scope_matches, is_some, same_bool,
}
use kokoadb.Sql.Truth.{kept-unknown, kept, one_of, negate, is_null, either, equal}
use kokoadb.UserScope.Condition.{
  equals, differs, present, absent, among, outside_of, render, truth, Agrees,
}

kept-one_of :
    (user : Option String) (ids : List String)
    → kept (one_of user (map text ids)) ≡ user_is_bound user (map text ids)
unfolding one_of any_bound is_bound_text
kept-one_of none [] = refl
kept-one_of none (x ∷ xs) = kept-unknown (one_of none (map text xs)) ∙ kept-one_of none xs
kept-one_of (some u) [] = refl
kept-one_of (some u) (x ∷ xs) = ground (arith, kept-one_of (some u) xs)

kept-outside_of :
    (user : Option String) (ids : List String)
    → kept (either (is_null user) (negate (one_of user (map text ids))))
      ≡ not (user_is_bound user (map text ids))
unfolding one_of any_bound is_bound_text
kept-outside_of none ids = refl
kept-outside_of (some u) [] = refl
kept-outside_of (some u) (x ∷ xs) = ground (arith, kept-outside_of (some u) xs)

-- A list of ids, with `$in` or with `$nin`.
list_condition-Agrees :
    (operator : String) (ids : List String)
    → Agrees (ok (list_condition operator ids)) λ user. ok (
        if str_eq operator "$in"
        then user_is_bound user (map text ids)
        else not (user_is_bound user (map text ids)))
unfolding Agrees render truth
list_condition-Agrees operator ids = elim (Bool-cases (str_eq operator "$in")) [
  | inl q ↦ rw q (among (length ids), refl, λ user. ap ok (sym (kept-one_of user ids)))
  | inr q ↦ rw q (outside_of (length ids), refl, λ user. ap ok (sym (kept-outside_of user ids)))
]

-- Two computations that begin with the same step agree when they do after it.
Agrees-bind :
    {A : Type 0} (m : AppResult A) (f : A → AppResult Compiled)
    (g : A → Option String → AppResult Bool)
    → ((a : A) → Agrees (f a) (g a))
    → Agrees (m >>= f) λ user. m >>= λ a. g a user
unfolding Agrees
Agrees-bind (ok a) f g h = h a
Agrees-bind (err e) f g h = λ user. refl
Agrees-bind out_of_fuel f g h = λ user. refl

via_list-Agrees :
    (operator : String) (m : AppResult (List String))
    → Agrees (m >>= λ ids. ok (list_condition operator ids)) λ user.
      (m >>= λ ids. ok (list_condition operator ids)) >>= λ c. ok (
        if str_eq operator "$in"
        then user_is_bound user c.binds
        else not (user_is_bound user c.binds))
unfolding Agrees
via_list-Agrees operator (ok ids) = list_condition-Agrees operator ids
via_list-Agrees operator (err e) = λ user. refl
via_list-Agrees operator out_of_fuel = λ user. refl

list-Agrees :
    (operator : String) (vs : List Value)
    → Agrees (compile_document_user_list operator vs) λ user.
      compile_document_user_list operator vs >>= λ c. ok (
        if str_eq operator "$in"
        then user_is_bound user c.binds
        else not (user_is_bound user c.binds))
unfolding Agrees compile_document_user_list
list-Agrees operator [] = λ user. refl
list-Agrees operator (v ∷ vs) = via_list-Agrees operator (collect_ids operator (v ∷ vs) [])

kept-equal : (user : Option String) (id : String) → is_user user id ≡ kept (equal user (text id))
kept-equal none id = refl
kept-equal (some u) id = ground (arith, eq_iff u id, eq_iff id u)

kept-differs :
    (user : Option String) (id : String)
    → not (is_user user id) ≡ kept (either (is_null user) (negate (equal user (text id))))
kept-differs none id = refl
kept-differs (some u) id = ground (arith, eq_iff u id, eq_iff id u)

kept-exists :
    (user : Option String) (exists : Bool)
    → same_bool (is_some user) exists
      ≡ kept (if exists then negate (is_null user) else is_null user)
kept-exists none true = refl
kept-exists none false = refl
kept-exists (some u) true = refl
kept-exists (some u) false = refl

single-Agrees :
    (id : String)
    → Agrees
        (ok (record { sql = "_user_id = ?"; binds = text id ∷ [] }))
        λ user. ok (is_user user id)
unfolding Agrees render truth
single-Agrees id = (equals, refl, λ user. ap ok (kept-equal user id))

other-Agrees :
    (id : String)
    → Agrees
        (ok (record { sql = "(_user_id IS NULL OR _user_id <> ?)"; binds = text id ∷ [] }))
        λ user. ok (not (is_user user id))
unfolding Agrees render truth
other-Agrees id = (differs, refl, λ user. ap ok (kept-differs user id))

exists-Agrees :
    (exists : Bool)
    → Agrees
        (ok (record {
          sql = if exists then "_user_id IS NOT NULL" else "_user_id IS NULL";
          binds = [];
        }))
        λ user. ok (same_bool (is_some user) exists)
unfolding Agrees render truth
exists-Agrees true = (present, refl, λ user. ap ok (kept-exists user true))
exists-Agrees false = (absent, refl, λ user. ap ok (kept-exists user false))

eq-Agrees :
    (v : Value)
    → Agrees (compile_comparison "$eq" v) λ user. matches_string "$eq" v λ id. is_user user id
unfolding Agrees compile_comparison matches_string
eq-Agrees (string s) = Agrees-bind (normalize_user_scope_id s) _ _ single-Agrees
eq-Agrees _ = λ user. refl

ne-Agrees :
    (v : Value)
    → Agrees (compile_comparison "$ne" v) λ user. matches_string "$ne" v λ id. not (is_user user id)
unfolding Agrees compile_comparison matches_string
ne-Agrees (string s) = Agrees-bind (normalize_user_scope_id s) _ _ other-Agrees
ne-Agrees _ = λ user. refl

OperatorAgrees : Value → String → Type 0
OperatorAgrees v operator =
    Agrees (compile_user_operator operator v) λ user. matches_operator operator v user

operator-Agrees : (operator : String) (v : Value) → OperatorAgrees v operator
unfolding OperatorAgrees compile_user_operator matches_operator
operator-Agrees operator v = elim (Bool-cases (str_eq operator "$eq")) [
  | inl q ↦ subst (OperatorAgrees v) (sym ((eq_iff operator "$eq").0 q)) (eq-Agrees v)
  | inr q ↦ elim (Bool-cases (str_eq operator "$ne")) [
    | inl n ↦ subst (OperatorAgrees v) (sym ((eq_iff operator "$ne").0 n)) (ne-Agrees v)
    | inr n ↦ elim (Bool-cases (is_list_operator operator)) [
      | inl l ↦ rw (q, n, l) (Agrees-bind (list_operand operator v) _ _ (list-Agrees operator))
      | inr l ↦ elim (Bool-cases (str_eq operator "$exists")) [
        | inl e ↦ rw (q, n, l, e) (Agrees-bind (exists_operand v) _ _ exists-Agrees)
        | inr e ↦ rw (q, n, l, e) (unfold Agrees in λ user. refl)
      ]
    ]
  ]
]

-- For every selector, the condition compiled from it and `document_user_scope_matches` agree: both fail,
-- with the same error, or the text is one of the six conditions on `_user_id`, and for every user the
-- decision in memory is true exactly where that condition, with its binds, is true in SQL.
pub document_user_scope-Agrees :
    (selector : Value)
    → Agrees
        (compile_document_user_scope selector)
        λ user. document_user_scope_matches (some selector) user
unfolding compile_document_user_scope document_user_scope_matches Agrees OperatorAgrees
document_user_scope-Agrees (string s) = Agrees-bind (normalize_user_scope_id s) _ _ single-Agrees
document_user_scope-Agrees (array vs) = list-Agrees "$in" (items vs)
document_user_scope-Agrees (object end) = λ user. refl
document_user_scope-Agrees (object (field operator operand end)) = operator-Agrees operator operand
document_user_scope-Agrees (object (field k v (field l w rest))) = λ user. refl
document_user_scope-Agrees _ = λ user. refl
