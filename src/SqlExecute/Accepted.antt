-- ===== src/SqlExecute/Accepted.antt =====
-- src/service/dispatcher/runtime_support.rs: which statements `sql_execute` accepts.
use mathlib.Core.Path.{subst}
use kokoadb.Prelude.{
  ℕ, String, true, false, not, ◌&&◌, ◌||◌, ◌≡◌, refl, ap, List, length, Option, none, some, arith,
  ltb, if◌then◌else◌, Bool-cases, inl, inr,
}
use kokoadb.Error.{ok, bind-ok, ok_injective}
use kokoadb.Text.{trim, is_empty, split_whitespace, contains_char}
use kokoadb.SqlExecute.{
  word_at, is_at, name_at, after_on, requires_on, indexed_table, validate_index,
  validate_create_ddl, validate_drop_ddl, has_word, only_add_column, validate_alter_ddl,
  SqlExecuteMode, write, FirstWord, reads, writes, creates, drops, alters, forbidden, unknown,
  first_word, by_first_word, strip_sql, classify_sql_execute,
}
use kokoadb.SqlExecute.Statements.{
  NameAt, name_at-NameAt, IndexAt, index_place, after_on-FirstOn, Statement, query, change,
  create_table, create_index, drop_index, add_column, FirstIs, first_word-FirstIs, err_not_ok,
}

module _ (tokens : List String) {u : Unit {0}} where
  index-Statement :
      (i : ℕ)
      → IndexAt i tokens
      → is_at 0 "create" tokens ≡ true
      → validate_index i tokens ≡ ok u
      → Statement tokens write
  unfolding validate_index
  index-Statement i x f h =
      let place = index_place i tokens in
      let (v, named, rest) =
        bind-ok (name_at "index" "CREATE INDEX requires an index name" (word_at place tokens))
          (λ v. indexed_table (after_on tokens)) h in
      let index =
        name_at-NameAt "index" "CREATE INDEX requires an index name" tokens place
          (word_at place tokens) refl named in
      on_table index (after_on tokens) refl rest
    where
      on_table :
          NameAt tokens (index_place i tokens)
          → (o : Option (List String)) → after_on tokens ≡ o
          → indexed_table o ≡ ok u
          → Statement tokens write
      on_table index none a h = cc
      on_table index (some after) a h =
          create_index i after f x index (after_on-FirstOn tokens after a)
            (name_at-NameAt "table" requires_on after 0 (word_at 0 after) refl h)

  create-Statement :
      is_at 0 "create" tokens ≡ true → validate_create_ddl tokens ≡ ok u → Statement tokens write
  unfolding validate_create_ddl
  create-Statement f h = elim (Bool-cases (is_at 1 "table" tokens)) [
    | inl t ↦
        create_table f t
          (name_at-NameAt "table" "CREATE TABLE requires a table name" tokens _ _ refl (rw t at h))
    | inr t ↦ elim (Bool-cases (is_at 1 "unique" tokens && is_at 2 "index" tokens)) [
      | inl q ↦
          index-Statement 2 (inr (refl, ground (arith, q), ground (arith, q))) f (rw (t, q) at h)
      | inr q ↦ elim (Bool-cases (is_at 1 "index" tokens)) [
        | inl x ↦ index-Statement 1 (inl (refl, x)) f (rw (t, q, x) at h)
        | inr x ↦ absurd (err_not_ok (rw (t, q, x) at h))
      ]
    ]
  ]

  drop-Statement :
      is_at 0 "drop" tokens ≡ true → validate_drop_ddl tokens ≡ ok u → Statement tokens write
  unfolding validate_drop_ddl
  drop-Statement f h = elim (Bool-cases (is_at 1 "index" tokens)) [
    | inl x ↦
        drop_index f x
          (name_at-NameAt "index" "DROP INDEX requires an index name" tokens _ _ refl (rw x at h))
    | inr x ↦ absurd (err_not_ok (rw x at h))
  ]

  alter-Statement :
      is_at 0 "alter" tokens ≡ true → validate_alter_ddl tokens ≡ ok u → Statement tokens write
  unfolding validate_alter_ddl
  alter-Statement f h = elim (Bool-cases (ltb (length tokens) 6 || not (is_at 1 "table" tokens))) [
    | inl x ↦ absurd (err_not_ok (rw x at h))
    | inr x ↦
        let (v, named, rest) =
          bind-ok (name_at "table" "ALTER TABLE requires a table name" (word_at 2 tokens))
            (λ v.
              if has_word "add" tokens && has_word "column" tokens then ok tt else only_add_column)
            (rw x at h) in
        elim (Bool-cases (has_word "add" tokens && has_word "column" tokens)) [
          | inl w ↦
              add_column f (ground (arith, x))
                (name_at-NameAt "table" "ALTER TABLE requires a table name" tokens 2
                  (word_at 2 tokens) refl named)
                (ground (arith, w)) (ground (arith, w))
          | inr w ↦ absurd (err_not_ok (rw w at rest))
        ]
  ]

pub record IsAccepted (stmt : String) (mode : SqlExecuteMode) : Type 0 where
  single : contains_char b';' stmt ≡ false
  statement : Statement (split_whitespace stmt) mode

by_first_word-Statement :
    (stripped : String) (tokens : List String) (w : FirstWord) (stmt : String)
    (mode : SqlExecuteMode)
    → FirstIs tokens w
    → by_first_word stripped tokens w ≡ ok (stmt, mode)
    → (stripped ≡ stmt) × Statement tokens mode
unfolding FirstIs
by_first_word-Statement stripped tokens reads stmt mode f h =
    let same = ok_injective h in
    (ap (λ p. p.0) same, subst (Statement tokens) (ap (λ p. p.1) same) (query f))
by_first_word-Statement stripped tokens writes stmt mode f h =
    let same = ok_injective h in
    (ap (λ p. p.0) same, subst (Statement tokens) (ap (λ p. p.1) same) (change f))
by_first_word-Statement stripped tokens creates stmt mode f h =
    let (u, valid, rest) = bind-ok (validate_create_ddl tokens) (λ u. ok (stripped, write)) h in
    let same = ok_injective rest in
    (
      ap (λ p. p.0) same,
      subst (Statement tokens) (ap (λ p. p.1) same) (create-Statement tokens f valid),
    )
by_first_word-Statement stripped tokens drops stmt mode f h =
    let (u, valid, rest) = bind-ok (validate_drop_ddl tokens) (λ u. ok (stripped, write)) h in
    let same = ok_injective rest in
    (
      ap (λ p. p.0) same,
      subst (Statement tokens) (ap (λ p. p.1) same) (drop-Statement tokens f valid),
    )
by_first_word-Statement stripped tokens alters stmt mode f h =
    let (u, valid, rest) = bind-ok (validate_alter_ddl tokens) (λ u. ok (stripped, write)) h in
    let same = ok_injective rest in
    (
      ap (λ p. p.0) same,
      subst (Statement tokens) (ap (λ p. p.1) same) (alter-Statement tokens f valid),
    )
by_first_word-Statement stripped tokens (forbidden word) stmt mode f h = cc
by_first_word-Statement stripped tokens unknown stmt mode f h = cc

-- A statement that is accepted has no semicolon and is one of: a statement that begins with `select`,
-- `with` or `explain`, to be run for reading; one that begins with `insert`, `update`, `delete` or
-- `replace`; `create table`, with the name third, or sixth behind `if not exists`; `create index` or
-- `create unique index`, with the index's name next, or behind `if not exists`, and the table's behind the
-- first `on`; `drop index`, with the name third, or fifth behind `if exists`; or `alter table`, with the
-- name third and the words `add` and `column` somewhere. The name that the source reads from the word at
-- each of these places is not empty and begins with neither `__kdb_` nor `sqlite_`, in any case of letters.
pub classify-IsAccepted :
    (sql stmt : String) (mode : SqlExecuteMode)
    → classify_sql_execute sql ≡ ok (stmt, mode)
    → IsAccepted stmt mode
unfolding classify_sql_execute
classify-IsAccepted sql stmt mode h = elim (Bool-cases (is_empty (trim sql))) [
  | inl e ↦ absurd (err_not_ok (rw e at h))
  | inr e ↦ elim (Bool-cases (contains_char b';' (strip_sql (trim sql)))) [
    | inl c ↦ absurd (err_not_ok (rw (e, c) at h))
    | inr c ↦
        let words = split_whitespace (strip_sql (trim sql)) in
        let (same, s) =
          by_first_word-Statement (strip_sql (trim sql)) words (first_word words) stmt mode
            (first_word-FirstIs words) (rw (e, c) at h) in
        record {
          single = rw (← same) c;
          statement = subst (λ x. Statement (split_whitespace x) mode) same s;
        }
  ]
]
