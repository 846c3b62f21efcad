-- ===== src/Wal/Keys.antt =====
-- src/storage/s3_wal/replicator.rs and mod.rs: object keys.
pub mod Laws
use Prim.Native.Char.{code}
use Prim.Native.String
use text.Mathlib.Text.{starts_with}
use kokoadb.Prelude.{
  String, Bool, true, false, Option, none, some, ◌==◌, if◌then◌else◌, ℕ, List, [], ◌∷◌, str_eq,
  ◌||◌,
}
use kokoadb.Text.{◌<>◌}

-- `s.starts_with(marker)` by characters.
unfoldable pub has_prefix : String → String → Bool
has_prefix String.[] s = true
has_prefix (String.◌∷◌ m ms) String.[] = false
has_prefix (String.◌∷◌ m ms) (String.◌∷◌ c s) =
    let rest = has_prefix ms s in if code m == code c then rest else false

-- `s.rfind(marker).map(|i| &s[i..])`: the text from the last place where the marker stands.
unfoldable pub from_last : String → String → Option String
from_last marker String.[] = if has_prefix marker "" then some "" else none
from_last marker (String.◌∷◌ c s) = elim (from_last marker s) [
  | some t ↦ some t
  | none ↦ if has_prefix marker (String.◌∷◌ c s) then some (String.◌∷◌ c s) else none
]

-- `s.trim_start_matches('/')`
unfoldable pub trim_slashes : String → String
trim_slashes String.[] = ""
trim_slashes (String.◌∷◌ c s) =
    let rest = trim_slashes s in if code c == b'/' then rest else String.◌∷◌ c s

unfoldable pub relative_object_key : String → String
relative_object_key object_key = elim (from_last "snapshots/" object_key) [
  | some t ↦ t
  | none ↦ elim (from_last "wal/" object_key) [ some t ↦ t | none ↦ trim_slashes object_key ]
]

unfoldable pub manifest_key : String → String → String
manifest_key prefix tenant = prefix <> "/" <> tenant <> "/manifest.json"

unfoldable pub lease_key : String → String → String
lease_key prefix tenant = prefix <> "/" <> tenant <> "/lease.json"

unfoldable pub resolve_object_key : String → String → String → String
resolve_object_key prefix tenant object_key =
    prefix <> "/" <> tenant <> "/" <> relative_object_key object_key
