-- ===== src/Doc/Maps.antt =====
-- The fields of a JSON object as a map.
use kokoadb.Prelude.{String, ◌≡◌, refl, none, some, arith, false, str_eq, eq_iff, if◌then◌else◌}
use kokoadb.Json.{Value, Fields, end, field}
use kokoadb.Doc.{get_field, insert_field, remove_field}

pub get-insert :
    (j k : String) (v : Value) (fs : Fields)
    → get_field j (insert_field k v fs) ≡ (if str_eq k j then some v else get_field j fs)
unfolding get_field insert_field
get-insert j k v end = refl
get-insert j k v (field i w fs) =
    ground (arith, eq_iff k j, eq_iff i k, eq_iff i j, get-insert j k v fs)

pub get-remove :
    (j k : String) (fs : Fields)
    → get_field j (remove_field k fs) ≡ (if str_eq k j then none else get_field j fs)
unfolding get_field remove_field
get-remove j k end = ground arith
get-remove j k (field i w fs) =
    ground (arith, eq_iff k j, eq_iff i k, eq_iff i j, get-remove j k fs)

pub get-insert_self :
    (k : String) (v : Value) (fs : Fields) → get_field k (insert_field k v fs) ≡ some v
get-insert_self k v fs = ground (arith, get-insert k k v fs, eq_iff k k)

pub get-remove_self : (k : String) (fs : Fields) → get_field k (remove_field k fs) ≡ none
get-remove_self k fs = ground (arith, get-remove k k fs, eq_iff k k)

pub get-insert_ne :
    (j k : String) (v : Value) (fs : Fields)
    → str_eq k j ≡ false
    → get_field j (insert_field k v fs) ≡ get_field j fs
get-insert_ne j k v fs h = ground (arith, get-insert j k v fs)
