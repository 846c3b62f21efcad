-- ===== src/Projection.antt =====
-- src/service/dispatcher/query_support.rs: the parts of a document that a read returns.
pub mod Included
pub mod Excluded
mod Tests
use kokoadb.Prelude.{String, Bool, ◌||◌, List, [], ◌∷◌, Option, none, some, str_eq, if◌then◌else◌}
use kokoadb.Error.{AppResult, ok, err, bad_request, ◌>>=◌, ◌>>◌}
use kokoadb.Json.{Value, object, Fields, end, field}
use kokoadb.Sort.{validate_projection_path}
use kokoadb.Doc.{
  get_key, insert_field, fields_or_empty, value_by_path, set_value_by_path, remove_value_by_path,
}

unfoldable pub is_reserved : String → Bool
is_reserved path = str_eq path "_id" || str_eq path "_user_id" || str_eq path "_namespace"

-- `if let Some(v) = doc.get(key) { obj.insert(key, v.clone()) }`
abbrev pub insert_found : String → Option Value → Fields → Fields
insert_found key none fs = fs
insert_found key (some v) fs = insert_field key v fs

unfoldable pub with_reserved : Value → Fields → Fields
with_reserved doc fs =
    insert_found "_namespace" (get_key "_namespace" doc)
      (insert_found "_user_id" (get_key "_user_id" doc) (insert_found "_id" (get_key "_id" doc) fs))

-- A path that the document has is copied, with what is found there.
abbrev pub copy_found : String → Option Value → Fields → Fields
copy_found path none fs = fs
copy_found path (some v) fs = set_value_by_path fs path v

unfoldable pub include_path : Value → String → Fields → Fields
include_path doc path fs =
    if is_reserved path then fs else copy_found path (value_by_path doc path) fs

unfoldable pub include_paths : Value → List String → Fields → AppResult Fields
include_paths doc [] fs = ok fs
include_paths doc (path ∷ rest) fs = do
  validate_projection_path path "fields"
  include_paths doc rest (include_path doc path fs)

-- The first half of `apply_projection`: by `fields`.
unfoldable pub included : Value → Option (List String) → AppResult Value
included doc none = ok doc
included doc (some []) = err (bad_request "fields cannot be empty when provided")
included doc (some (path ∷ rest)) = do
  fs ← include_paths doc (path ∷ rest) (with_reserved doc end)
  ok (object fs)

unfoldable pub exclude_path : String → Value → Value
exclude_path path out = if is_reserved path then out else remove_value_by_path out path

unfoldable pub exclude_paths : List String → Value → AppResult Value
exclude_paths [] out = ok out
exclude_paths (path ∷ rest) out = do
  validate_projection_path path "exclude_fields"
  exclude_paths rest (exclude_path path out)

-- The second half: by `exclude_fields`. `out` is an object.
unfoldable pub excluded : Value → Option (List String) → Value → AppResult Value
excluded doc none out = ok out
excluded doc (some []) out = err (bad_request "exclude_fields cannot be empty when provided")
excluded doc (some (path ∷ rest)) out = do
  less ← exclude_paths (path ∷ rest) out
  ok (object (with_reserved doc (fields_or_empty less)))

unfoldable pub apply_projection :
    Value → Option (List String) → Option (List String) → AppResult Value
apply_projection (object fs) fields exclude_fields = do
  out ← included (object fs) fields
  excluded (object fs) exclude_fields out
apply_projection doc fields exclude_fields = ok doc
