-- ===== src/Wal/Replicator/Numbering.antt =====
-- src/storage/s3_wal/replicator.rs: the numbers of the records of a segment that is written.
use kokoadb.Prelude.{
  ℕ, suc, ◌+◌, ◌≤◌, ◌<◌, String, ◌≡◌, refl, ap, List, [], ◌∷◌, arith, length, map,
}
use kokoadb.Wal.{WalManifest, WalSegment, WalRecord, WriterLease}
use kokoadb.Wal.Manifest.{u64_mod, first_seq, last_seq, number_records}
use kokoadb.Wal.Manifest.Segments.{first_seq-eq, last_seq-eq}
use kokoadb.Wal.Replicator.{new_segment}

-- Records numbered from k to e without a gap.
abbrev pub Numbered : ℕ → List WalRecord → ℕ → Type 0
Numbered k [] e = k ≡ suc e
Numbered k (x ∷ xs) e = (x.seq ≡ k) × Numbered (suc k) xs e

abbrev pub statement_of : WalRecord → String × String
statement_of x = (x.sql, x.args_json)

-- A segment that goes on after `applied_seq`, with one record for each statement.
pub record IsNumbered (m : WalManifest) (statements : List (String × String)) (g : WalSegment)
    : Type 0 where
  pub starts : g.start_seq ≡ suc m.applied_seq
  pub ends : g.end_seq ≡ m.applied_seq + length statements
  pub numbered : Numbered g.start_seq g.records g.end_seq
  pub same_statements : map statement_of g.records ≡ statements

number_records-Numbered :
    (clock : ℕ → ℕ) (start i k e : ℕ) (statements : List (String × String))
    → k + length statements ≤ u64_mod
    → k ≡ start + i
    → k + length statements ≡ suc e
    → Numbered k (number_records clock start i statements) e
unfolding number_records
number_records-Numbered clock start i k e [] h a b = omega arith
number_records-Numbered clock start i k e ((sql, args) ∷ rest) h a b = (
  omega arith,
  number_records-Numbered clock start (suc i) (suc k) e rest (omega arith) (omega arith)
      (omega arith),
)

number_records-same :
    (clock : ℕ → ℕ) (start i : ℕ) (statements : List (String × String))
    → map statement_of (number_records clock start i statements) ≡ statements
unfolding number_records
number_records-same clock start i [] = refl
number_records-same clock start i ((sql, args) ∷ rest) =
    ap (λ xs. (sql, args) ∷ xs) (number_records-same clock start (suc i) rest)

-- A segment of at least one statement whose numbers fit in a u64 starts after `applied_seq`, its records
-- are numbered without a gap from its first to its last number, and they hold the statements in order.
pub new_segment-IsNumbered :
    (clock : ℕ → ℕ) (tenant : String) (lease : WriterLease) (m : WalManifest) (x : String × String)
    (xs : List (String × String))
    → m.applied_seq + length (x ∷ xs) < u64_mod
    → IsNumbered m (x ∷ xs) (new_segment clock tenant lease m (x ∷ xs))
unfolding new_segment
new_segment-IsNumbered clock tenant lease m x xs fits =
    let n : ℕ = length (x ∷ xs) in
    let start = first_seq-eq m n fits (omega arith) in
    let last = last_seq-eq m n fits (omega arith) in
    record {
      starts = start;
      ends = last;
      numbered =
          number_records-Numbered (λ i. clock (2 + i)) (first_seq m) 0 (first_seq m) (last_seq m n)
            (x ∷ xs) (omega (arith, start)) (omega arith) (omega (arith, start, last));
      same_statements = number_records-same (λ i. clock (2 + i)) (first_seq m) 0 (x ∷ xs);
    }
