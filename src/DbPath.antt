-- ===== src/DbPath.antt =====
-- src/storage/db_path.rs: the name of a database is checked, and resolved to a file below a directory.
pub mod Inside
mod Tests
use kokoadb.Prelude.{ℕ, String, Bool, not, ◌||◌, List, [], ◌∷◌, leb, ltb, ◌==◌, ◌&&◌, if◌then◌else◌}
use kokoadb.Error.{AppResult, ok, err, bad_request, ◌>>=◌}
use kokoadb.Text.{
  ◌<>◌, split, join, trim, is_empty, all_chars, contains_char, starts_with_char, count_pair,
  is_word_char,
}

-- `c.is_ascii_alphanumeric() || c == '_' || c == '-' || c == '.'`
unfoldable pub is_path_char : ℕ → Bool
is_path_char c = is_word_char c || c == b'-' || c == b'.'

-- The loop of `normalize_db_path` over the segments, which it collects.
unfoldable pub check_segments : List String → AppResult (List String)
check_segments [] = ok []
check_segments (seg ∷ rest) =
    let checked = check_segments rest in
    if is_empty seg
    then err (bad_request "invalid db_path")
    else if not (all_chars is_path_char seg)
    then err (bad_request ("invalid db_path segment: " <> seg))
    else (do segments ← checked; ok (seg ∷ segments))

-- The second test of `normalize_db_path`; 92 is the backslash.
unfoldable pub is_unsafe : String → Bool
is_unsafe s = starts_with_char b'/' s || contains_char 92 s || ltb 0 (count_pair b'.' b'.' s)

unfoldable pub normalize_db_path : String → AppResult String
normalize_db_path input =
    if is_empty (trim input)
    then err (bad_request "db_path is required")
    else if is_unsafe (trim input)
    then err (bad_request "invalid db_path")
    else (do segments ← check_segments (split b'/' (trim input)); ok (join "/" segments))

-- What is pushed to the path: the parts, the last one with the extension.
unfoldable pub pushed : List String → List String
pushed [] = []
pushed (part ∷ []) = (part <> ".db") ∷ []
pushed (part ∷ next ∷ parts) = part ∷ pushed (next ∷ parts)

-- A `PathBuf` that starts from a directory: the directory, and the components pushed after it.
pub record PathBuf : Type 0 where
  pub directory : String
  pub components : List String

unfoldable pub resolve_db_file : String → String → AppResult (String × PathBuf)
resolve_db_file base_path db_path = do
  normalized ← normalize_db_path db_path
  ok (normalized, record { directory = base_path; components = pushed (split b'/' normalized) })
