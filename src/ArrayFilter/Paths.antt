-- ===== src/ArrayFilter/Paths.antt =====
-- src/service/dispatcher/tx_mutation.rs: the values that a path of an array filter leads to.
use kokoadb.Prelude.{
  String, Bool, true, false, ◌||◌, List, [], ◌∷◌, ◌++◌, Option, none, some, if◌then◌else◌,
}
use kokoadb.Error.{AppResult, ok, err, bad_request}
use kokoadb.Json.{Value, array, items}
use kokoadb.Text.{◌<>◌, split, strip_suffix, is_empty, contains_char}
use kokoadb.Doc.{get_key}

-- The name of a part of a path, and whether the elements of an array there are taken.
abbrev segment_of : String → Option String → String × Bool
segment_of raw none = (raw, false)
segment_of raw (some name) = (name, true)

abbrev step_to : Bool → Option Value → List Value
step_to flatten none = []
step_to true (some (array xs)) = items xs
step_to true (some _) = []
step_to false (some child) = child ∷ []

-- One turn of the loop on every value.
unfoldable pub step_all : String → Bool → List Value → List Value
step_all segment flatten [] = []
step_all segment flatten (v ∷ vs) =
    step_to flatten (get_key segment v) ++ step_all segment flatten vs

abbrev invalid_path : {A : Type 0} → String → AppResult A
invalid_path path = err (bad_request ("invalid array filter path: " <> path))

unfoldable pub walk_path : String → List String → List Value → AppResult (List Value)
walk_path path [] values = ok values
walk_path path (raw ∷ rest) values =
    let part = segment_of raw (strip_suffix "[]" raw) in
    if is_empty raw
    then invalid_path path
    else if is_empty part.0 || contains_char b'[' part.0 || contains_char b']' part.0
    then invalid_path path
    else walk_path path rest (step_all part.0 part.1 values)

unfoldable pub json_filter_values : Value → String → AppResult (List Value)
json_filter_values candidate path =
    if is_empty path
    then err (bad_request "array filter path cannot be empty")
    else walk_path path (split b'.' path) (candidate ∷ [])
