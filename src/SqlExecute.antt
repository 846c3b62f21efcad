-- ===== src/SqlExecute.antt =====
-- src/service/dispatcher/runtime_support.rs: which SQL statements `sql_execute` accepts. Words are compared
-- without regard to the case of ASCII letters. Where the code slices a text from 1 to 0, which is a panic,
-- the model returns an internal error.
pub mod Statements
pub mod Accepted
mod Tests
use Prim.Native.Char.{Char, code}
use Prim.Native.String
use kokoadb.Prelude.{
  ℕ, zero, suc, ◌+◌, String, Bool, true, false, not, ◌&&◌, ◌||◌, ◌==◌, leb, ltb, List, [], ◌∷◌,
  length, any, Option, none, some, if◌then◌else◌,
}
use kokoadb.Error.{AppResult, ok, err, bad_request, internal, ◌>>=◌, ◌>>◌}
use kokoadb.Text.{
  ◌<>◌, split, trim, is_empty, split_whitespace, lowercase_is, contains_char, strip_suffix,
  starts_with, ends_with,
}

-- `s.trim_end_matches(c)`
unfoldable pub trim_end_matches : ℕ → String → String
trim_end_matches k String.[] = ""
trim_end_matches k (String.◌∷◌ c s) =
    let rest = trim_end_matches k s in
    if is_empty rest && code c == k then "" else String.◌∷◌ c rest

abbrev pub last_part : List String → String
last_part [] = ""
last_part (p ∷ []) = p
last_part (p ∷ q ∷ ps) = last_part (q ∷ ps)

abbrev pub without_first : String → String
without_first String.[] = ""
without_first (String.◌∷◌ c s) = s

abbrev pub is_quoted : String → String → String → Bool
is_quoted opening close base = starts_with opening base && ends_with close base

-- `base[1..base.len().saturating_sub(1)]`; `none` is a panic.
abbrev pub between : String → String → Option String
between close base = strip_suffix close (without_first base)

unfoldable pub normalize_sql_identifier : String → Option String
normalize_sql_identifier raw =
    let trimmed =
      trim_end_matches b')' (trim_end_matches b'(' (trim_end_matches b',' (trim raw))) in
    let base = trim (last_part (split b'.' trimmed)) in
    if is_quoted "\"" "\"" base
    then between "\"" base
    else if is_quoted "`" "`" base
    then between "`" base
    else if is_quoted "[" "]" base
    then between "]" base
    else some base

abbrev pub lower : ℕ → ℕ
lower c = if leb b'A' c && leb c b'Z' then c + 32 else c

-- `s.to_ascii_lowercase().starts_with(prefix)`, of a prefix in lower case.
unfoldable pub lower_starts_with : String → String → Bool
lower_starts_with String.[] s = true
lower_starts_with (String.◌∷◌ c p) String.[] = false
lower_starts_with (String.◌∷◌ c p) (String.◌∷◌ d s) =
    code c == lower (code d) && lower_starts_with p s

unfoldable pub is_reserved_name : String → Bool
is_reserved_name ident = lower_starts_with "__kdb_" ident || lower_starts_with "sqlite_" ident

unfoldable pub check_name : String → Option String → AppResult (Unit {0})
check_name kind none = err (internal "begin <= end (1 <= 0) when slicing")
check_name kind (some ident) =
    if is_empty ident
    then err (bad_request (kind <> " name is required"))
    else if is_reserved_name ident
    then err (
        bad_request
          ("sql_execute cannot target reserved " <> kind <> " names with prefix __kdb_ or sqlite_"))
    else ok tt

unfoldable pub reject_reserved_sql_identifier : String → String → AppResult (Unit {0})
reject_reserved_sql_identifier raw kind = check_name kind (normalize_sql_identifier raw)

-- `tokens.get(index)`, and whether the word there is this one.
unfoldable pub word_at : ℕ → List String → Option String
word_at i [] = none
word_at zero (w ∷ ws) = some w
word_at (suc i) (w ∷ ws) = word_at i ws

abbrev pub is_word : String → Option String → Bool
is_word word none = false
is_word word (some w) = lowercase_is w word

abbrev pub is_at : ℕ → String → List String → Bool
is_at i word tokens = is_word word (word_at i tokens)

abbrev pub name_at : String → String → Option String → AppResult (Unit {0})
name_at kind message none = err (bad_request message)
name_at kind message (some raw) = reject_reserved_sql_identifier raw kind

abbrev pub if_not_exists : ℕ → List String → Bool
if_not_exists i tokens =
    is_at i "if" tokens && is_at (1 + i) "not" tokens && is_at (2 + i) "exists" tokens

-- The words after the first `on`.
unfoldable pub after_on : List String → Option (List String)
after_on [] = none
after_on (w ∷ ws) = let rest = after_on ws in if lowercase_is w "on" then some ws else rest

abbrev pub requires_on : String
requires_on = "CREATE INDEX requires ON <table>"

abbrev pub indexed_table : Option (List String) → AppResult (Unit {0})
indexed_table none = err (bad_request requires_on)
indexed_table (some ws) = name_at "table" requires_on (word_at 0 ws)

unfoldable pub validate_index : ℕ → List String → AppResult (Unit {0})
validate_index i tokens =
    name_at "index" "CREATE INDEX requires an index name"
      (word_at (if if_not_exists (1 + i) tokens then 4 + i else 1 + i) tokens)
    >> indexed_table (after_on tokens)

unfoldable pub validate_create_ddl : List String → AppResult (Unit {0})
validate_create_ddl tokens =
    if is_at 1 "table" tokens
    then name_at "table" "CREATE TABLE requires a table name"
        (word_at (if if_not_exists 2 tokens then 5 else 2) tokens)
    else if is_at 1 "unique" tokens && is_at 2 "index" tokens
    then validate_index 2 tokens
    else if is_at 1 "index" tokens
    then validate_index 1 tokens
    else err (bad_request "sql_execute only allows CREATE TABLE and CREATE INDEX")

unfoldable pub validate_drop_ddl : List String → AppResult (Unit {0})
validate_drop_ddl tokens =
    if not (is_at 1 "index" tokens)
    then err (bad_request "sql_execute only allows DROP INDEX")
    else name_at "index" "DROP INDEX requires an index name" (
        word_at
          (if ltb 4 (length tokens) && is_at 2 "if" tokens && is_at 3 "exists" tokens then 4 else 2)
          tokens)

abbrev pub only_add_column : AppResult (Unit {0})
only_add_column = err (bad_request "sql_execute only allows ALTER TABLE ... ADD COLUMN")

abbrev pub has_word : String → List String → Bool
has_word word tokens = any (λ w. lowercase_is w word) tokens

unfoldable pub validate_alter_ddl : List String → AppResult (Unit {0})
validate_alter_ddl tokens =
    if ltb (length tokens) 6 || not (is_at 1 "table" tokens)
    then only_add_column
    else name_at "table" "ALTER TABLE requires a table name" (word_at 2 tokens)
      >> (if has_word "add" tokens && has_word "column" tokens then ok tt else only_add_column)

pub data SqlExecuteMode : Type 0 where
  read write : SqlExecuteMode

-- What the first word of a statement says of it.
pub data FirstWord : Type 0 where
  reads writes creates drops alters : FirstWord
  forbidden : String → FirstWord
  unknown : FirstWord

abbrev pub first_of : List String → List String → Option String
first_of [] tokens = none
first_of (word ∷ rest) tokens = if is_at 0 word tokens then some word else first_of rest tokens

abbrev pub forbidden_words : List String
forbidden_words =
    "attach" ∷ "detach" ∷ "begin" ∷ "commit" ∷ "rollback" ∷ "savepoint" ∷ "release"
    ∷ "load_extension" ∷ []

abbrev pub forbidden_or_unknown : Option String → FirstWord
forbidden_or_unknown none = unknown
forbidden_or_unknown (some word) = forbidden word

unfoldable pub first_word : List String → FirstWord
first_word tokens =
    if is_at 0 "select" tokens || is_at 0 "with" tokens || is_at 0 "explain" tokens
    then reads
    else if is_at 0 "insert" tokens
        || is_at 0 "update" tokens
        || is_at 0 "delete" tokens
        || is_at 0 "replace" tokens
    then writes
    else if is_at 0 "create" tokens
    then creates
    else if is_at 0 "drop" tokens
    then drops
    else if is_at 0 "alter" tokens
    then alters
    else forbidden_or_unknown (first_of forbidden_words tokens)

abbrev pub all_allowed : String
all_allowed =
    "sql_execute allows only single-statement SELECT, WITH, EXPLAIN, INSERT, UPDATE, DELETE, REPLACE, CREATE TABLE, CREATE INDEX, DROP INDEX, and ALTER TABLE ... ADD COLUMN"

-- `validate_sql_execute_ddl` chooses among the three by the first word again.
abbrev pub by_first_word : String → List String → FirstWord → AppResult (String × SqlExecuteMode)
by_first_word stripped tokens reads = ok (stripped, read)
by_first_word stripped tokens writes = ok (stripped, write)
by_first_word stripped tokens creates = validate_create_ddl tokens >> ok (stripped, write)
by_first_word stripped tokens drops = validate_drop_ddl tokens >> ok (stripped, write)
by_first_word stripped tokens alters = validate_alter_ddl tokens >> ok (stripped, write)
by_first_word stripped tokens (forbidden word) =
    err (bad_request ("sql_execute does not allow `" <> word <> "`"))
by_first_word stripped tokens unknown = err (bad_request all_allowed)

abbrev pub strip_sql : String → String
strip_sql trimmed = trim (trim_end_matches b';' trimmed)

unfoldable pub classify_sql_execute : String → AppResult (String × SqlExecuteMode)
classify_sql_execute sql =
    if is_empty (trim sql)
    then err (bad_request "sql cannot be empty")
    else if contains_char b';' (strip_sql (trim sql))
    then err (bad_request "sql_execute accepts a single statement only")
    else by_first_word (strip_sql (trim sql)) (split_whitespace (strip_sql (trim sql)))
        (first_word (split_whitespace (strip_sql (trim sql))))
