-- ===== src/Mutation/Contract.antt =====
-- src/service/dispatcher/tx_mutation.rs: the selectors `$[name]` in the paths of a patch, and the filters
-- that are given for them. The set of selectors is the list of them in the order of the paths; an error
-- names one of the set, and here the first.
use Prim.Native.Char.{code}
use kokoadb.Prelude.{
  ℕ, String, Bool, true, false, not, ◌&&◌, ◌||◌, leb, List, [], ◌∷◌, any, Option, none, some,
  if◌then◌else◌,
}
use kokoadb.Error.{AppResult, ok, err, bad_request, ◌>>=◌}
use kokoadb.Json.{Value, object, Fields, end, field}
use kokoadb.Text.{
  ◌<>◌, split, is_empty, is_word_char, contains_char, contains_text, strip_suffix, starts_with,
  ends_with, contains_part,
}
use kokoadb.Doc.{get_field}

unfoldable pub is_positional_selector : String → Bool
is_positional_selector segment = starts_with "$[" segment && ends_with "]" segment

-- What follows the first two characters, of a text that has them.
abbrev after_two : String → String
after_two (String.◌∷◌ c (String.◌∷◌ d s)) = s
after_two s = ""

abbrev is_digit : ℕ → Bool
is_digit c = leb b'0' c && leb c b'9'

abbrev starts_with_digit : String → Bool
starts_with_digit String.[] = false
starts_with_digit (String.◌∷◌ c s) = is_digit (code c)

unfoldable pub all_word_chars : String → Bool
all_word_chars String.[] = true
all_word_chars (String.◌∷◌ c s) = is_word_char (code c) && all_word_chars s

abbrev is_name : String → Bool
is_name name = not (is_empty name) && all_word_chars name && not (starts_with_digit name)

abbrev if_name : Option String → Option String
if_name none = none
if_name (some name) = if is_name name then some name else none

unfoldable pub positional_selector_name : String → Option String
positional_selector_name segment =
    if is_positional_selector segment then if_name (strip_suffix "]" (after_two segment)) else none

abbrev pub is_last : List String → Bool
is_last [] = true
is_last (s ∷ rest) = false

abbrev pub add_selector : String → Bool → Option String → List String → AppResult (List String)
add_selector path at_edge none selectors =
    err (bad_request ("invalid positional selector in path: " <> path))
add_selector path at_edge (some name) selectors =
    if at_edge
    then err (
        bad_request
          ("positional selector must follow an array field and precede a target field: " <> path))
    else if contains_text name selectors
    then ok selectors
    else ok (name ∷ selectors)

-- The selectors of the segments of a path; `at_start` is true of the first.
unfoldable pub path_selectors : String → Bool → List String → List String → AppResult (List String)
path_selectors path at_start [] selectors = ok selectors
path_selectors path at_start (segment ∷ rest) selectors = do
  more ←
      if contains_part "$[" segment || contains_char b']' segment
      then add_selector path (at_start || is_last rest) (positional_selector_name segment) selectors
      else ok selectors
  path_selectors path false rest more

unfoldable pub patch_selectors : Fields → List String → AppResult (List String)
patch_selectors end selectors = ok selectors
patch_selectors (field path spec rest) selectors =
    if any is_empty (split b'.' path)
    then err (bad_request ("data contains invalid path: " <> path))
    else path_selectors path true (split b'.' path) selectors >>= patch_selectors rest

abbrev pub is_filter : Value → Bool
is_filter (object (field k v fs)) = true
is_filter _ = false

abbrev pub is_some : Option String → Bool
is_some none = false
is_some (some s) = true

-- A filter that is used, under the name of a selector.
unfoldable pub check_filters : List String → Fields → AppResult (Unit {0})
check_filters selectors end = ok tt
check_filters selectors (field name filter rest) =
    if not (is_some (positional_selector_name ("$[" <> name <> "]")))
    then err (bad_request ("invalid array_filters selector name: " <> name))
    else if not (is_filter filter)
    then err (bad_request ("array_filters." <> name <> " must be a non-empty object"))
    else if not (contains_text name selectors)
    then err (bad_request ("array_filters." <> name <> " is not referenced by data"))
    else check_filters selectors rest

abbrev pub is_found : Option Value → Bool
is_found none = false
is_found (some v) = true

abbrev pub required : {A : Type 0} → String → AppResult A
required selector = err (bad_request ("array_filters." <> selector <> " is required by data"))

-- Every selector has a filter.
unfoldable pub check_selectors : List String → Fields → AppResult (Unit {0})
check_selectors [] filters = ok tt
check_selectors (selector ∷ rest) filters =
    if is_found (get_field selector filters)
    then check_selectors rest filters
    else required selector

abbrev pub not_filters : AppResult Fields
not_filters = err (bad_request "array_filters must be a non-empty object")

abbrev pub checked_filters : List String → Option Value → AppResult Fields
checked_filters [] none = ok end
checked_filters [] (some filters) =
    err (bad_request "array_filters requires at least one $[name] path in data")
checked_filters (selector ∷ rest) none = required selector
checked_filters (selector ∷ rest) (some (object end)) = not_filters
checked_filters (selector ∷ rest) (some (object (field k v fs))) = do
  u ← check_filters (selector ∷ rest) (field k v fs)
  w ← check_selectors (selector ∷ rest) (field k v fs)
  ok (field k v fs)
checked_filters (selector ∷ rest) (some _) = not_filters

-- The map from names to filters that is returned has the fields of the object.
unfoldable pub validate_positional_mutation_contract : Fields → Option Value → AppResult Fields
validate_positional_mutation_contract patch array_filters =
    patch_selectors patch [] >>= λ selectors. checked_filters selectors array_filters
