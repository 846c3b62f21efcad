-- ===== src/Mutation/Patch.antt =====
-- src/service/dispatcher/tx_mutation.rs and runtime_support.rs: patches, with and without selectors.
use kokoadb.Prelude.{
  String, Bool, true, false, List, [], ◌∷◌, ◌++◌, any, Option, none, some, if◌then◌else◌,
}
use kokoadb.Error.{AppResult, ok, err, bad_request, internal, ◌>>=◌, ◌>>◌}
use kokoadb.Json.{Value, null, array, object, Items, nil, cons, Fields, end, field}
use kokoadb.Text.{◌<>◌, join, split}
use kokoadb.Sort.{validate_projection_path}
use kokoadb.Doc.{get_field, get_path, set_path, drop_path, update_path}
use kokoadb.Host.{Host}
use kokoadb.ArrayFilter.Match.{json_filter_matches}
use kokoadb.Mutation.Macros.{expand_kdb_macros_in_value}
use kokoadb.Mutation.Single.{apply_single_mutation_field, reject}
use kokoadb.Mutation.Contract.{
  is_positional_selector, positional_selector_name, required, validate_positional_mutation_contract,
}

-- The loop over the elements; an error ends it.
unfoldable pub change_items :
    (Value → AppResult Bool) → (Value → AppResult Value) → Items → AppResult Items
change_items test change nil = ok nil
change_items test change (cons v vs) = do
  matched ← test v
  w ← if matched then change v else ok v
  ws ← change_items test change vs
  ok (cons w ws)

abbrev pub on_items :
    Value → String → Bool → (Items → AppResult Items) → Option Value → AppResult Value
on_items root prefix strict change none = ok root
on_items root prefix strict change (some (array xs)) =
    change xs >>= λ ys. ok (update_path root prefix (λ found. array ys))
on_items root prefix strict change (some _) =
    reject strict (prefix <> ": positional target must be an array") root

abbrev pub with_filter :
    Host
    → String
    → Option Value
    → Value
    → String
    → Bool
    → (Value → AppResult Value)
    → AppResult Value
with_filter host selector none root prefix strict change = required selector
with_filter host selector (some filter) root prefix strict change =
    on_items root prefix strict (change_items (json_filter_matches host filter) change)
      (get_path root prefix)

abbrev pub with_selector :
    Host
    → String
    → Fields
    → Option String
    → Value
    → String
    → Bool
    → (Value → AppResult Value)
    → AppResult Value
with_selector host path filters none root prefix strict change =
    err (bad_request ("invalid positional path: " <> path))
with_selector host path filters (some selector) root prefix strict change =
    with_filter host selector (get_field selector filters) root prefix strict change

-- At a path without selectors.
abbrev pub mutate_rest : Host → String → Value → Bool → Value → AppResult Value
mutate_rest host remainder spec strict item = do
  validate_projection_path remainder "positional data"
  apply_single_mutation_field host item remainder spec strict

-- `before` are the segments that were passed on the way to the first selector. The text of the rest of
-- the path splits into the segments that it is joined from.
unfoldable pub positional_at :
    Host → Fields → Bool → Value → String → List String → List String → Value → AppResult Value
positional_at host filters strict spec path before [] root =
    err (internal "positional selector missing")
positional_at host filters strict spec path before (segment ∷ rest) root =
    let remainder = join "." rest in
    let change = λ (item : Value).
      let deeper = positional_at host filters strict spec remainder [] rest item in
      if any is_positional_selector rest
      then deeper
      else mutate_rest host remainder spec strict item in
    let later = positional_at host filters strict spec path (before ++ (segment ∷ [])) rest root in
    if is_positional_selector segment
    then with_selector host path filters (positional_selector_name segment) root (join "." before)
        strict change
    else later

unfoldable pub apply_positional_mutation :
    Host → Value → String → Value → Fields → Bool → AppResult Value
apply_positional_mutation host root path spec filters strict =
    positional_at host filters strict spec path [] (split b'.' path) root

-- One field of a patch.
unfoldable pub apply_entry : Host → Fields → Bool → String → Value → Value → AppResult Value
apply_entry host filters strict path spec doc =
    if any is_positional_selector (split b'.' path)
    then apply_positional_mutation host doc path spec filters strict
    else validate_projection_path path "data"
      >> apply_single_mutation_field host doc path spec strict

unfoldable pub apply_entries : Host → Fields → Bool → Fields → Value → AppResult Value
apply_entries host filters strict end doc = ok doc
apply_entries host filters strict (field path spec rest) doc =
    apply_entry host filters strict path spec doc >>= apply_entries host filters strict rest

unfoldable pub apply_mutation_patch_to_doc :
    Host → Value → Fields → Option Value → Bool → AppResult Value
apply_mutation_patch_to_doc host doc patch array_filters strict =
    validate_positional_mutation_contract patch array_filters >>= λ filters.
    apply_entries host filters strict patch doc

abbrev is_single : Fields → Bool
is_single (field k v end) = true
is_single _ = false

abbrev replace_whole : Host → String → Bool → Value → AppResult Value
replace_whole host field_name single (object fs) =
    if single
    then expand_kdb_macros_in_value host (object fs)
    else err (bad_request (field_name <> ".$replace cannot be combined with other fields"))
replace_whole host field_name single _ =
    if single
    then err (bad_request (field_name <> ".$replace must be an object"))
    else err (bad_request (field_name <> ".$replace cannot be combined with other fields"))

abbrev object_or_empty : Value → Value
object_or_empty (object fs) = object fs
object_or_empty _ = object end

abbrev update_object : Host → Value → Fields → String → Bool → Option Value → AppResult Value
update_object host current incoming field_name strict (some replacement) =
    replace_whole host field_name (is_single incoming) replacement
update_object host current incoming field_name strict none =
    apply_mutation_patch_to_doc host (object_or_empty current) incoming none strict

unfoldable pub apply_json_object_update : Host → Value → Value → String → Bool → AppResult Value
apply_json_object_update host current (object incoming) field_name strict =
    update_object host current incoming field_name strict (get_field "$replace" incoming)
apply_json_object_update host current _ field_name strict =
    err (bad_request (field_name <> " must be an object"))

abbrev merge_value : Value → String → Value → Value
merge_value doc path null = drop_path doc path
merge_value doc path v = set_path doc path v

-- The merge patches of runtime_support.rs: `null` removes a field.
unfoldable pub apply_merge_patch_object : Host → Fields → Value → AppResult Value
apply_merge_patch_object host end doc = ok doc
apply_merge_patch_object host (field path value rest) doc = do
  validate_projection_path path "data"
  v ← expand_kdb_macros_in_value host value
  apply_merge_patch_object host rest (merge_value doc path v)
