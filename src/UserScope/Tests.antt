-- ===== src/UserScope/Tests.antt =====
-- Selectors on users, compiled and decided, and instances of the theorems.
use kokoadb.Prelude.{◌≡◌, refl, true, false, [], ◌∷◌, none, some}
use kokoadb.Error.{ok, err, bad_request, Ensures}
use kokoadb.Json.{Value, string, array, nil, cons, singleton, text}
use kokoadb.Text.{trim, trim_start, trim_end, is_whitespace, join, contains_text}
use kokoadb.Sql.{scan}
use kokoadb.Sql.Spans.{by_scan}
use kokoadb.Jql.Operator.{Compiled, placeholders}
use kokoadb.Jql.Flat.Fragment.{IsFlat}
use kokoadb.UserScope.{
  normalize_user_scope_id, collect_ids, compile_document_user_list, list_operand,
  compile_user_operator, compile_document_user_scope, apply_document_user_scope, any_bound,
  is_bound_text, matches_operator, document_user_scope_matches,
}
use kokoadb.UserScope.Condition.{Agrees}
use kokoadb.UserScope.Agreement.{document_user_scope-Agrees}
use kokoadb.UserScope.Flat.{user_scope-Ensures}

users : Unit {0}
unfolding join trim trim_start trim_end is_whitespace placeholders normalize_user_scope_id
    contains_text collect_ids compile_document_user_list list_operand compile_user_operator
    compile_document_user_scope apply_document_user_scope any_bound is_bound_text matches_operator
    document_user_scope_matches
users = tt

abbrev not_ada : Value
not_ada =
    singleton "$nin" (array (cons (string " ada ") (cons (string "bob") (cons (string "ada") nil))))

abbrev open_tasks : Compiled
open_tasks = record { sql = "state = ?"; binds = text "open" ∷ [] }

not_ada-compiled :
    apply_document_user_scope (some not_ada) open_tasks
    ≡ ok (record {
      sql = "(_user_id IS NULL OR _user_id NOT IN (?, ?)) AND (state = ?)";
      binds = text "ada" ∷ text "bob" ∷ text "open" ∷ [];
    })
unfolding users
not_ada-compiled = refl

not_ada-no_user : document_user_scope_matches (some not_ada) none ≡ ok true
unfolding users
not_ada-no_user = refl

not_ada-ada : document_user_scope_matches (some not_ada) (some "ada") ≡ ok false
unfolding users
not_ada-ada = refl

blank_user :
    compile_document_user_scope (string "  ") ≡ err (bad_request "user_id values cannot be empty")
unfolding users
blank_user = refl

document_user_scope-Agrees_example :
    Agrees
      (compile_document_user_scope not_ada)
      λ user. document_user_scope_matches (some not_ada) user
document_user_scope-Agrees_example = document_user_scope-Agrees not_ada

open_tasks-IsFlat : IsFlat open_tasks
unfolding scan
open_tasks-IsFlat = by_scan λ d h. refl

user_scope-Ensures_example : Ensures IsFlat (apply_document_user_scope (some not_ada) open_tasks)
user_scope-Ensures_example = user_scope-Ensures (some not_ada) open_tasks open_tasks-IsFlat
