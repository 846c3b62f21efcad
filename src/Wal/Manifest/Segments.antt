-- ===== src/Wal/Manifest/Segments.antt =====
-- src/storage/s3_wal/replicator.rs: the segments of a manifest as a log from the compaction watermark to
-- `applied_seq`, under the operations on it.
use Prim.Native.Nat.{max}
use mathlib.Core.Path.{subst}
use kokoadb.Prelude.{
  ℕ, zero, suc, ◌+◌, ◌-◌, ◌≤◌, ◌<◌, String, ◌≡◌, refl, sym, List, [], ◌∷◌, ◌++◌, arith, length, map,
}
use kokoadb.Wal.{WalManifest, ManifestSegment}
use kokoadb.Wal.Manifest.{
  u64_mod, first_seq, last_seq, segment_entry, add_segment, take, drop, max_end, compacted,
  portable, portable_segment, unwrap_or,
}

-- Consecutive ranges that begin after lo and end at hi.
abbrev pub Chain : ℕ → List ManifestSegment → ℕ → Type 0
Chain lo [] hi = lo ≡ hi
Chain lo (g ∷ gs) hi =
    (g.seq ≡ g.start_lsn)
    × (g.start_lsn ≡ suc lo)
    × (g.start_lsn ≤ g.end_lsn)
    × Chain g.end_lsn gs hi

abbrev pub IsContiguous : WalManifest → Type 0
IsContiguous m = Chain (unwrap_or m.compaction_watermark 0) m.segments m.applied_seq

Chain-le : (lo : ℕ) (gs : List ManifestSegment) (hi : ℕ) → Chain lo gs hi → lo ≤ hi
Chain-le lo [] hi h = omega arith
Chain-le lo (g ∷ gs) hi h = omega (arith, Chain-le g.end_lsn gs hi h.3)

Chain-concat :
    (lo : ℕ) (gs : List ManifestSegment) (hi : ℕ) (g : ManifestSegment)
    → Chain lo gs hi
    → g.seq ≡ g.start_lsn
    → g.start_lsn ≡ suc hi
    → g.start_lsn ≤ g.end_lsn
    → Chain lo (gs ++ g ∷ []) g.end_lsn
Chain-concat lo [] hi g h a b c = (a, omega arith, c, refl)
Chain-concat lo (x ∷ gs) hi g h a b c = (h.0, h.1, h.2, Chain-concat x.end_lsn gs hi g h.3 a b c)

-- The numbers of a new segment, where u64 does not overflow.
module _ (m : WalManifest) (n : ℕ) (fits : m.applied_seq + n < u64_mod) (some_records : 0 < n) where
  pub first_seq-eq : first_seq m ≡ suc m.applied_seq
  unfolding first_seq
  first_seq-eq = omega arith

  pub last_seq-eq : last_seq m n ≡ m.applied_seq + n
  unfolding last_seq first_seq
  last_seq-eq = omega arith

-- A segment of n > 0 records whose numbers fit in a u64 goes on where the manifest ends: the manifest
-- stays contiguous, and `applied_seq` grows by n.
pub add_segment-IsContiguous :
    (m : WalManifest) (n now bytes : ℕ) (writer_id key etag : String)
    → m.applied_seq + n < u64_mod
    → 0 < n
    → IsContiguous m
    → IsContiguous (add_segment writer_id now m (segment_entry m n key etag bytes))
      × ((add_segment writer_id now m (segment_entry m n key etag bytes)).applied_seq
          ≡ m.applied_seq + n)
unfolding add_segment segment_entry
add_segment-IsContiguous m n now bytes writer_id key etag fits pos h = (
  Chain-concat (unwrap_or m.compaction_watermark 0) m.segments m.applied_seq
      (segment_entry m n key etag bytes) h refl (first_seq-eq m n fits pos)
      (omega (arith, first_seq-eq m n fits pos, last_seq-eq m n fits pos)),
  last_seq-eq m n fits pos,
)

-- The largest end among the first k segments is the end of the k-th.
Chain-drop :
    (lo : ℕ) (gs : List ManifestSegment) (hi k : ℕ)
    → k ≤ length gs
    → 0 < k
    → Chain lo gs hi
    → Chain (max_end (take k gs)) (drop k gs) hi × (lo ≤ max_end (take k gs))
unfolding take drop max_end
Chain-drop lo gs hi zero h pos c = absurd (omega arith)
Chain-drop lo [] hi (suc k) h pos c = absurd (omega arith)
Chain-drop lo (g ∷ gs) hi (suc zero) h pos c =
    let same : max g.end_lsn 0 ≡ g.end_lsn = omega arith in
    (subst (λ e. Chain e gs hi) (sym same) c.3, omega arith)
Chain-drop lo (g ∷ gs) hi (suc (suc k)) h pos c =
    let (rest, bound) = Chain-drop g.end_lsn gs hi (suc k) (omega arith) (omega arith) c.3 in
    let later : ℕ = max_end (take (suc k) gs) in
    let same : max g.end_lsn later ≡ later = omega arith in
    (subst (λ e. Chain e (drop (suc k) gs) hi) (sym same) rest, omega arith)

length-drop : {A : Type 0} (k : ℕ) (xs : List A) → length (drop k xs) ≡ length xs - k
unfolding drop
length-drop zero xs = omega arith
length-drop (suc k) [] = omega arith
length-drop (suc k) (x ∷ xs) = omega (arith, length-drop k xs)

-- Compacting a contiguous manifest that has more segments than are to be kept leaves it contiguous,
-- with exactly that many segments, the same `applied_seq`, and a watermark that has not gone back.
pub compacted-IsContiguous :
    (m : WalManifest) (writer_id : String) (now retain : ℕ)
    → retain < length m.segments
    → IsContiguous m
    → IsContiguous (compacted writer_id now retain m)
      × (length (compacted writer_id now retain m).segments ≡ retain)
      × ((compacted writer_id now retain m).applied_seq ≡ m.applied_seq)
      × (unwrap_or m.compaction_watermark 0
          ≤ unwrap_or (compacted writer_id now retain m).compaction_watermark 0)
unfolding compacted
compacted-IsContiguous m writer_id now retain more h =
    let (chain, bound) =
      Chain-drop (unwrap_or m.compaction_watermark 0) m.segments m.applied_seq
        (length m.segments - retain) (omega arith) (omega arith) h in
    (chain, omega (arith, length-drop (length m.segments - retain) m.segments), refl, bound)

portable-Chain :
    (lo : ℕ) (gs : List ManifestSegment) (hi : ℕ)
    → Chain lo gs hi
    → Chain lo (map portable_segment gs) hi
portable-Chain lo [] hi h = h
portable-Chain lo (g ∷ gs) hi h = (h.0, h.1, h.2, portable-Chain g.end_lsn gs hi h.3)

-- What is stored is contiguous if the manifest in memory is.
pub portable-IsContiguous :
    (tenant : String) (m : WalManifest) → IsContiguous m → IsContiguous (portable tenant m)
unfolding portable
portable-IsContiguous tenant m h =
    portable-Chain (unwrap_or m.compaction_watermark 0) m.segments m.applied_seq h
