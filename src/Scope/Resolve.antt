-- ===== src/Scope/Resolve.antt =====
-- src/service/dispatcher/runtime_support.rs: which namespaces a read is limited to, and whether a document
-- that is not written yet is among them.
use text.Mathlib.Text.{is_le}
use Prim.Native.String.{compare}
use kokoadb.Prelude.{
  String, Bool, true, false, ◌&&◌, List, [], ◌∷◌, Option, none, some, ltb, length, str_eq,
  if◌then◌else◌,
}
use kokoadb.Error.{AppResult, ok, err, bad_request, ◌>>=◌}
use kokoadb.Text.{trim, is_empty, contains_text}
use kokoadb.Scope.{NamespaceReadScope, unscoped, everywhere, one, many}

-- `values.map(|v| v.trim()).filter(|v| !v.is_empty())`
unfoldable pub trimmed_values : List String → List String
trimmed_values [] = []
trimmed_values (v ∷ vs) =
    let rest = trimmed_values vs in if is_empty (trim v) then rest else trim v ∷ rest

unfoldable pub insert_text : String → List String → List String
insert_text x [] = x ∷ []
insert_text x (y ∷ ys) =
    let rest = insert_text x ys in if is_le (compare x y) then x ∷ y ∷ ys else y ∷ rest

-- `out.sort()`
unfoldable pub sort_texts : List String → List String
sort_texts [] = []
sort_texts (x ∷ xs) = insert_text x (sort_texts xs)

abbrev pub starts_with_text : String → List String → Bool
starts_with_text x [] = false
starts_with_text x (y ∷ ys) = str_eq x y

-- `out.dedup()`: of equal neighbours one is kept.
unfoldable pub dedup : List String → List String
dedup [] = []
dedup (x ∷ xs) = let rest = dedup xs in if starts_with_text x xs then rest else x ∷ rest

unfoldable pub checked_namespaces : List String → AppResult (Option (List String))
checked_namespaces out =
    if contains_text "*" out && ltb 1 (length out)
    then err (bad_request "namespace array cannot include '*' with other values")
    else ok (some out)

unfoldable pub parse_values : List String → AppResult (Option (List String))
parse_values [] = err (bad_request "namespace array cannot be empty")
parse_values (x ∷ xs) = checked_namespaces (dedup (sort_texts (x ∷ xs)))

unfoldable pub parse_namespaces : Option (List String) → AppResult (Option (List String))
parse_namespaces none = ok none
parse_namespaces (some values) = parse_values (trimmed_values values)

abbrev pub only_star : List String → Bool
only_star (x ∷ []) = str_eq x "*"
only_star _ = false

-- `payload.collection.filter(|c| !c.trim().is_empty())`
unfoldable pub named_collection : Option String → Option String
named_collection none = none
named_collection (some c) = if is_empty (trim c) then none else some c

abbrev pub is_all : Option String → Bool
is_all none = false
is_all (some s) = str_eq s "all"

-- `resolve_read_namespace_scope` after `list` and `single` are read.
unfoldable pub resolve :
    Option (List String) → Option String → Option String → Bool → AppResult NamespaceReadScope
resolve (some list) (some single) scope required =
    err (bad_request "single and array namespace selectors cannot both be provided")
resolve (some list) none scope required = ok (if only_star list then everywhere else many list)
resolve none (some single) scope required =
    ok (if str_eq single "*" then everywhere else one single)
resolve none none scope required =
    if is_all scope
    then ok everywhere
    else if required
    then err (bad_request "namespace is required")
    else ok unscoped

-- The fields `namespaces`, `collection` and `scope` of the payload, and `require_namespace`.
unfoldable pub resolve_read_namespace_scope :
    Option (List String) → Option String → Option String → Bool → AppResult NamespaceReadScope
resolve_read_namespace_scope namespaces collection scope required = do
  list ← parse_namespaces namespaces
  resolve list (named_collection collection) scope required

unfoldable pub namespace_scope_force_include : NamespaceReadScope → Bool
namespace_scope_force_include everywhere = true
namespace_scope_force_include (many list) = true
namespace_scope_force_include (one ns) = false
namespace_scope_force_include unscoped = false

unfoldable pub pending_matches_read_scope : Option String → NamespaceReadScope → Bool
pending_matches_read_scope collection unscoped = true
pending_matches_read_scope collection everywhere = true
pending_matches_read_scope none (one ns) = false
pending_matches_read_scope (some c) (one ns) = str_eq c ns
pending_matches_read_scope none (many list) = false
pending_matches_read_scope (some c) (many list) = contains_text c list
