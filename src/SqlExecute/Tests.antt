-- ===== src/SqlExecute/Tests.antt =====
-- Statements that are accepted or not, and an instance of the theorem.
use kokoadb.Prelude.{◌≡◌, refl, none}
use kokoadb.Error.{ok, err, bad_request}
use kokoadb.Text.{
  split, trim, trim_start, trim_end, is_whitespace, split_whitespace, lowercase_is, contains_char,
  strip_suffix, starts_with, ends_with,
}
use kokoadb.SqlExecute.{
  trim_end_matches, normalize_sql_identifier, lower_starts_with, is_reserved_name, check_name,
  reject_reserved_sql_identifier, word_at, after_on, validate_index, validate_create_ddl,
  validate_drop_ddl, validate_alter_ddl, first_word, classify_sql_execute, read, write,
}
use kokoadb.SqlExecute.Accepted.{IsAccepted, classify-IsAccepted}

statements : Unit {0}
unfolding split trim trim_start trim_end is_whitespace split_whitespace lowercase_is contains_char
    strip_suffix starts_with ends_with trim_end_matches normalize_sql_identifier lower_starts_with
    is_reserved_name check_name reject_reserved_sql_identifier word_at after_on validate_index
    validate_create_ddl validate_drop_ddl validate_alter_ddl first_word classify_sql_execute
statements = tt

reserved_refused :
    classify_sql_execute "CREATE TABLE __KDB_x (id)"
    ≡ err
        (bad_request "sql_execute cannot target reserved table names with prefix __kdb_ or sqlite_")
unfolding statements
reserved_refused = refl

index_accepted :
    classify_sql_execute " create UNIQUE index if not exists by_sku ON items(sku); "
    ≡ ok ("create UNIQUE index if not exists by_sku ON items(sku)", write)
unfolding statements
index_accepted = refl

-- A quoted name that is followed at once by a parenthesis stays quoted, and is not seen to be reserved.
quoted_reserved :
    classify_sql_execute "create table \"__kdb_x\"(id int)"
    ≡ ok ("create table \"__kdb_x\"(id int)", write)
unfolding statements
quoted_reserved = refl

-- A statement that begins with `with` is run for reading, also one that deletes.
deletes_for_reading :
    classify_sql_execute "with x as (select 1) delete from t"
    ≡ ok ("with x as (select 1) delete from t", read)
unfolding statements
deletes_for_reading = refl

-- A comment has the word that the test asks for.
drops_a_column :
    classify_sql_execute "alter table t drop column c -- add"
    ≡ ok ("alter table t drop column c -- add", write)
unfolding statements
drops_a_column = refl

-- The name is one quotation mark: the slice starts behind its end.
lone_quote : normalize_sql_identifier "\"" ≡ none
unfolding statements
lone_quote = refl

classify-IsAccepted_example :
    IsAccepted "create UNIQUE index if not exists by_sku ON items(sku)" write
classify-IsAccepted_example =
    classify-IsAccepted " create UNIQUE index if not exists by_sku ON items(sku); "
      "create UNIQUE index if not exists by_sku ON items(sku)" write index_accepted
