-- ===== src/Doc.antt =====
-- Paths into a JSON document: src/service/dispatcher/tx_mutation.rs (`get_path`, `get_path_mut`,
-- `set_path`), jobs_ops.rs (`drop_path`) and query_support.rs (`value_by_path`, `set_value_by_path`,
-- `remove_value_by_path`). A `serde_json::Map` is ordered by its keys, so a new field is put where its key
-- belongs. Code that changes a value in place returns the new document. The internal errors of these
-- functions stand where the code has just made the value an object, and are left out.
pub mod Maps
pub mod Paths
pub mod Drops
pub mod Scalars
use Prim.Native.String.{compare}
use text.Mathlib.Text.{is_le}
use kokoadb.Prelude.{String, List, [], ◌∷◌, Option, none, some, str_eq, if◌then◌else◌}
use kokoadb.Json.{Value, object, Fields, end, field}
use kokoadb.Text.{split, is_empty}

-- `map.get(key)`
unfoldable pub get_field : String → Fields → Option Value
get_field key end = none
get_field key (field k v rest) = if str_eq k key then some v else get_field key rest

-- `map.insert(key, value)`
unfoldable pub insert_field : String → Value → Fields → Fields
insert_field key value end = field key value end
insert_field key value (field k v rest) =
    if str_eq k key
    then field key value rest
    else if is_le (compare key k)
    then field key value (field k v rest)
    else field k v (insert_field key value rest)

-- `map.remove(key)`; a map has a key once.
unfoldable pub remove_field : String → Fields → Fields
remove_field key end = end
remove_field key (field k v rest) =
    let less = remove_field key rest in if str_eq k key then less else field k v less

-- The fields of an object, or those of the empty object that takes the place of any other value.
abbrev pub fields_or_empty : Value → Fields
fields_or_empty (object fs) = fs
fields_or_empty _ = end

abbrev pub found_fields : Option Value → Fields
found_fields none = end
found_fields (some v) = fields_or_empty v

-- `value.get(key)`: only an object has keys.
abbrev pub get_key : String → Value → Option Value
get_key key v = get_field key (fields_or_empty v)

abbrev pub follow : Option Value → (Value → Option Value) → Option Value
follow none next = none
follow (some w) next = next w

unfoldable pub get_at : List String → Value → Option Value
get_at [] v = some v
get_at (s ∷ rest) v = follow (get_key s v) (get_at rest)

-- Every value on the way that is no object is replaced by one.
unfoldable pub set_at : List String → Value → Fields → Fields
set_at [] value fs = fs
set_at (s ∷ []) value fs = insert_field s value fs
set_at (s ∷ t ∷ rest) value fs =
    insert_field s (object (set_at (t ∷ rest) value (found_fields (get_field s fs)))) fs

-- An object with the value found under a key changed in place.
abbrev pub change_field : Value → String → (Value → Value) → Option Value → Value
change_field v s f none = v
change_field v s f (some w) = object (insert_field s (f w) (fields_or_empty v))

-- What `f` does to the value at a path, if the path leads to one.
unfoldable pub update_at : List String → (Value → Value) → Value → Value
update_at [] f v = f v
update_at (s ∷ rest) f v = change_field v s (update_at rest f) (get_key s v)

-- The last field of a path is removed from an object.
abbrev pub without_key : String → Value → Value
without_key s (object fs) = object (remove_field s fs)
without_key s v = v

unfoldable pub drop_at : List String → Value → Value
drop_at [] v = v
drop_at (s ∷ []) v = without_key s v
drop_at (s ∷ t ∷ rest) v = change_field v s (drop_at (t ∷ rest)) (get_key s v)

unfoldable pub drop_empty : List String → List String
drop_empty [] = []
drop_empty (s ∷ rest) = let more = drop_empty rest in if is_empty s then more else s ∷ more

-- `path.split('.').filter(|s| !s.is_empty())`
abbrev pub path_parts : String → List String
path_parts path = drop_empty (split b'.' path)

unfoldable pub get_path : Value → String → Option Value
get_path root path = get_at (path_parts path) root

-- `get_path_mut`, and what is done to the value that it finds.
unfoldable pub update_path : Value → String → (Value → Value) → Value
update_path root path f = update_at (path_parts path) f root

unfoldable pub set_path : Value → String → Value → Value
set_path root path value = object (set_at (path_parts path) value (fields_or_empty root))

unfoldable pub drop_path : Value → String → Value
drop_path root path = drop_at (path_parts path) root

-- The same on paths that keep their empty parts.
unfoldable pub value_by_path : Value → String → Option Value
value_by_path doc path = get_at (split b'.' path) doc

unfoldable pub set_value_by_path : Fields → String → Value → Fields
set_value_by_path out path value = set_at (split b'.' path) value out

unfoldable pub remove_value_by_path : Value → String → Value
remove_value_by_path doc path = drop_at (split b'.' path) doc
