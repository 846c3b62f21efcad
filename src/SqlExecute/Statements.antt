-- ===== src/SqlExecute/Statements.antt =====
-- src/service/dispatcher/runtime_support.rs: the statements of `sql_execute`, described by their words.
use kokoadb.Prelude.{
  ℕ, ◌+◌, String, true, false, ◌&&◌, ◌||◌, ◌≡◌, ◌≢◌, refl, ap, ◌⊎◌, List, [], ◌∷◌, ◌++◌, any,
  length, Option, none, some, arith, ltb, if◌then◌else◌, Bool-cases, inl, inr,
}
use kokoadb.Error.{AppError, ok, err}
use kokoadb.Text.{is_empty, lowercase_is}
use kokoadb.SqlExecute.{
  normalize_sql_identifier, lower_starts_with, is_reserved_name, check_name,
  reject_reserved_sql_identifier, word_at, is_at, name_at, first_of, forbidden_words,
  forbidden_or_unknown, after_on, has_word, SqlExecuteMode, read, write, FirstWord, reads, writes,
  creates, drops, alters, first_word,
}

-- A word that names something, and nothing of the system.
pub record IsName (raw : String) : Type 0 where
  ident : String
  names : normalize_sql_identifier raw ≡ some ident
  given : is_empty ident ≡ false
  not_kdb : lower_starts_with "__kdb_" ident ≡ false
  not_sqlite : lower_starts_with "sqlite_" ident ≡ false

pub record NameAt (tokens : List String) (i : ℕ) : Type 0 where
  raw : String
  stands : word_at i tokens ≡ some raw
  name : IsName raw

-- The words from the first `on` on.
pub record FirstOn (tokens after : List String) : Type 0 where
  before : List String
  on : String
  split_there : tokens ≡ before ++ on ∷ after
  is_on : lowercase_is on "on" ≡ true
  is_first : any (λ w. lowercase_is w "on") before ≡ false

-- The word `index` stands second, or third behind `unique`.
abbrev pub IndexAt : ℕ → List String → Type 0
IndexAt i tokens =
    ((i ≡ 1) × (is_at 1 "index" tokens ≡ true))
    ⊎ ((i ≡ 2) × (is_at 1 "unique" tokens ≡ true) × (is_at 2 "index" tokens ≡ true))

-- Where the words stand that are names.
abbrev pub table_place : List String → ℕ
table_place tokens =
    if is_at 2 "if" tokens && is_at 3 "not" tokens && is_at 4 "exists" tokens then 5 else 2

abbrev pub index_place : ℕ → List String → ℕ
index_place i tokens =
    if is_at (1 + i) "if" tokens
      && is_at (1 + (1 + i)) "not" tokens
      && is_at (2 + (1 + i)) "exists" tokens
    then 4 + i
    else 1 + i

abbrev pub dropped_place : List String → ℕ
dropped_place tokens =
    if ltb 4 (length tokens) && is_at 2 "if" tokens && is_at 3 "exists" tokens then 4 else 2

-- The statements that may run, and whether they write.
pub data Statement (tokens : List String) : SqlExecuteMode → Type 0 where
  query :
      (is_at 0 "select" tokens || is_at 0 "with" tokens || is_at 0 "explain" tokens) ≡ true
      → Statement tokens read
  change :
      (is_at 0 "insert" tokens
          || is_at 0 "update" tokens
          || is_at 0 "delete" tokens
          || is_at 0 "replace" tokens)
        ≡ true
      → Statement tokens write
  create_table :
      is_at 0 "create" tokens ≡ true
      → is_at 1 "table" tokens ≡ true
      → NameAt tokens (table_place tokens)
      → Statement tokens write
  create_index :
      (i : ℕ) (after : List String)
      → is_at 0 "create" tokens ≡ true
      → IndexAt i tokens
      → NameAt tokens (index_place i tokens)
      → FirstOn tokens after
      → NameAt after 0
      → Statement tokens write
  drop_index :
      is_at 0 "drop" tokens ≡ true
      → is_at 1 "index" tokens ≡ true
      → NameAt tokens (dropped_place tokens)
      → Statement tokens write
  add_column :
      is_at 0 "alter" tokens ≡ true
      → is_at 1 "table" tokens ≡ true
      → NameAt tokens 2
      → has_word "add" tokens ≡ true
      → has_word "column" tokens ≡ true
      → Statement tokens write

-- What the first word is, by what it says.
unfoldable pub FirstIs : List String → FirstWord → Type 0
FirstIs tokens reads =
    (is_at 0 "select" tokens || is_at 0 "with" tokens || is_at 0 "explain" tokens) ≡ true
FirstIs tokens writes =
    (is_at 0 "insert" tokens
      || is_at 0 "update" tokens
      || is_at 0 "delete" tokens
      || is_at 0 "replace" tokens)
    ≡ true
FirstIs tokens creates = is_at 0 "create" tokens ≡ true
FirstIs tokens drops = is_at 0 "drop" tokens ≡ true
FirstIs tokens alters = is_at 0 "alter" tokens ≡ true
FirstIs tokens _ = Unit {0}

forbidden-FirstIs :
    (tokens : List String) (o : Option String) → FirstIs tokens (forbidden_or_unknown o)
unfolding FirstIs
forbidden-FirstIs tokens none = tt
forbidden-FirstIs tokens (some w) = tt

pub first_word-FirstIs : (tokens : List String) → FirstIs tokens (first_word tokens)
unfolding first_word FirstIs
first_word-FirstIs tokens =
    elim (Bool-cases
      (is_at 0 "select" tokens || is_at 0 "with" tokens || is_at 0 "explain" tokens)) [
        | inl q ↦ rw q q
        | inr q ↦
            elim (Bool-cases (
              is_at 0 "insert" tokens
              || is_at 0 "update" tokens
              || is_at 0 "delete" tokens
              || is_at 0 "replace" tokens)) [
                | inl r ↦ rw (q, r) r
                | inr r ↦ elim (Bool-cases (is_at 0 "create" tokens)) [
                  | inl c ↦ rw (q, r, c) c
                  | inr c ↦ elim (Bool-cases (is_at 0 "drop" tokens)) [
                    | inl d ↦ rw (q, r, c, d) d
                    | inr d ↦ elim (Bool-cases (is_at 0 "alter" tokens)) [
                      | inl a ↦ rw (q, r, c, d, a) a
                      | inr a ↦
                          rw (q, r, c, d, a)
                            (forbidden-FirstIs tokens (first_of forbidden_words tokens))
                    ]
                  ]
                ]
              ]
      ]

pub after_on-FirstOn :
    (tokens after : List String) → after_on tokens ≡ some after → FirstOn tokens after
unfolding after_on
after_on-FirstOn [] after h = cc
after_on-FirstOn (w ∷ ws) after h = elim (Bool-cases (lowercase_is w "on")) [
  | inl q ↦ record {
    before = [];
    on = w;
    split_there = ap (λ l. w ∷ l) (ground arith);
    is_on = q;
    is_first = refl;
  }
  | inr q ↦
      let next = after_on-FirstOn ws after (rw q at h) in
      record {
        before = w ∷ next.before;
        on = next.on;
        split_there = ap (λ l. w ∷ l) next.split_there;
        is_on = next.is_on;
        is_first = ground (arith, q, next.is_first);
      }
]

pub err_not_ok : {A : Type 0} {e : AppError} {a : A} → err e ≢ ok a
err_not_ok h = cc

check_name-IsName :
    (raw kind : String) (o : Option String) {u : Unit {0}}
    → normalize_sql_identifier raw ≡ o
    → check_name kind o ≡ ok u
    → IsName raw
unfolding check_name is_reserved_name
check_name-IsName raw kind none n h = cc
check_name-IsName raw kind (some ident) n h = elim (Bool-cases (is_empty ident)) [
  | inl e ↦ absurd (err_not_ok (rw e at h))
  | inr e ↦ elim (Bool-cases (is_reserved_name ident)) [
    | inl r ↦ absurd (err_not_ok (rw (e, r) at h))
    | inr r ↦ record {
      ident = ident;
      names = n;
      given = e;
      not_kdb = ground (arith, r);
      not_sqlite = ground (arith, r);
    }
  ]
]

pub name_at-NameAt :
    (kind message : String) (tokens : List String) (i : ℕ) (o : Option String) {u : Unit {0}}
    → word_at i tokens ≡ o
    → name_at kind message o ≡ ok u
    → NameAt tokens i
unfolding reject_reserved_sql_identifier
name_at-NameAt kind message tokens i none w h = cc
name_at-NameAt kind message tokens i (some raw) w h = record {
  raw = raw;
  stands = w;
  name = check_name-IsName raw kind (normalize_sql_identifier raw) refl h;
}
