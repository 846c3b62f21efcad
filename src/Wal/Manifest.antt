-- ===== src/Wal/Manifest.antt =====
-- src/storage/s3_wal/replicator.rs: what the operations of the replicator do to a manifest in memory,
-- and how it is made portable before it is written. `+` on u64 wraps around.
pub mod Segments
pub mod Snapshots
pub mod Retention
pub mod Newest
use Prim.Native.Nat.{max}
use Prim.Native.String.{compare}
use text.Mathlib.Text.{is_le}
use kokoadb.Prelude.{
  ℕ, zero, suc, ◌+◌, ◌-◌, ◌*◌, ◌%◌, ◌^◌, String, Bool, true, false, not, List, [], ◌∷◌, ◌++◌,
  Option, none, some, ltb, leb, str_eq, if◌then◌else◌, length, map,
}
use kokoadb.Decimal
use kokoadb.Text.{◌<>◌}
use kokoadb.Wal.{WalManifest, ManifestSegment, SnapshotMeta, WalSegment, WalRecord}
use kokoadb.Wal.Keys.{relative_object_key}

abbrev pub u64_mod : ℕ
u64_mod = 2 ^ 64

abbrev pub add64 : ℕ → ℕ → ℕ
add64 a b = (a + b) % u64_mod

-- `a - b` on u64.
abbrev pub sub64 : ℕ → ℕ → ℕ
sub64 a b = (a + u64_mod - b) % u64_mod

unfoldable pub default_manifest : String → String → ℕ → ℕ → WalManifest
default_manifest writer_id tenant epoch now = record {
  tenant = tenant;
  epoch = epoch;
  writer_id = writer_id;
  applied_seq = 0;
  current_snapshot_id = none;
  current_snapshot_key = none;
  snapshots = [];
  segments = [];
  compaction_watermark = none;
  updated_at = Decimal.show now;
}

-- The copy that `write_manifest` stores.
abbrev pub portable_snapshot : String → SnapshotMeta → SnapshotMeta
portable_snapshot tenant s = record s {
  tenant = tenant;
  object_key = relative_object_key s.object_key;
}

abbrev pub portable_segment : ManifestSegment → ManifestSegment
portable_segment g = record g { object_key = relative_object_key g.object_key }

unfoldable pub portable : String → WalManifest → WalManifest
portable tenant m = record m {
  tenant = tenant;
  current_snapshot_key = none;
  snapshots = map (portable_snapshot tenant) m.snapshots;
  segments = map portable_segment m.segments;
}

-- The records of a segment, numbered from `start_seq`; record i is stamped with the clock's reading i.
unfoldable pub number_records : (ℕ → ℕ) → ℕ → ℕ → List (String × String) → List WalRecord
number_records clock start_seq i [] = []
number_records clock start_seq i ((sql, args) ∷ rest) =
    record {
      seq = add64 start_seq i;
      ts_rfc3339 = Decimal.show (clock i);
      sql = sql;
      args_json = args;
    }
    ∷ number_records clock start_seq (suc i) rest

unfoldable pub first_seq : WalManifest → ℕ
first_seq m = add64 m.applied_seq 1

unfoldable pub last_seq : WalManifest → ℕ → ℕ
last_seq m n = sub64 (add64 (first_seq m) n) 1

-- The manifest after a segment of n records that is stored under `object_key`.
unfoldable pub segment_entry : WalManifest → ℕ → String → String → ℕ → ManifestSegment
segment_entry m n object_key etag bytes = record {
  seq = first_seq m;
  object_key = object_key;
  checksum = etag;
  start_lsn = first_seq m;
  end_lsn = last_seq m n;
  compressed_bytes = bytes;
}

unfoldable pub add_segment : String → ℕ → WalManifest → ManifestSegment → WalManifest
add_segment writer_id now m g = record m {
  applied_seq = g.end_lsn;
  writer_id = writer_id;
  updated_at = Decimal.show now;
  segments = m.segments ++ g ∷ [];
}

-- `segments.drain(0..n)`: what is removed, and what is left.
unfoldable pub take : ℕ → List ManifestSegment → List ManifestSegment
take zero gs = []
take (suc n) [] = []
take (suc n) (g ∷ gs) = g ∷ take n gs

unfoldable pub drop {ℓ} : {A : Type ℓ} → ℕ → List A → List A
drop zero xs = xs
drop (suc n) [] = []
drop (suc n) (x ∷ xs) = drop n xs

-- `removed.iter().map(|s| s.end_lsn).max().unwrap_or(0)`
unfoldable pub max_end : List ManifestSegment → ℕ
max_end [] = 0
max_end (g ∷ gs) = max g.end_lsn (max_end gs)

-- The manifest that `compact_manifest` writes when there are more than `retain` segments.
unfoldable pub compacted : String → ℕ → ℕ → WalManifest → WalManifest
compacted writer_id now retain m =
    let remove_count = length m.segments - retain in
    record m {
      segments = drop remove_count m.segments;
      compaction_watermark = some (max_end (take remove_count m.segments));
      writer_id = writer_id;
      updated_at = Decimal.show now;
    }

-- `retain(|s| s.id != id)`
unfoldable pub without_id : String → List SnapshotMeta → List SnapshotMeta
without_id id [] = []
without_id id (s ∷ ss) = let rest = without_id id ss in if str_eq s.id id then rest else s ∷ rest

-- `sort_by(|a, b| a.created_at.cmp(&b.created_at))`, which keeps the order of equal elements.
unfoldable pub insert_by_age : SnapshotMeta → List SnapshotMeta → List SnapshotMeta
insert_by_age s [] = s ∷ []
insert_by_age s (t ∷ ts) =
    let later = insert_by_age s ts in
    if is_le (compare s.created_at t.created_at) then s ∷ t ∷ ts else t ∷ later

unfoldable pub sort_by_age : List SnapshotMeta → List SnapshotMeta
sort_by_age [] = []
sort_by_age (s ∷ ss) = insert_by_age s (sort_by_age ss)

abbrev pub unwrap_or : Option ℕ → ℕ → ℕ
unwrap_or none d = d
unwrap_or (some n) d = n

-- `now.saturating_sub(created) <= max_age_secs`
unfoldable pub is_young : ℕ → ℕ → SnapshotMeta → Bool
is_young now max_age_secs s = leb (now - unwrap_or (Decimal.parse s.created_at) now) max_age_secs

-- The snapshots that are kept, and the keys of the others.
unfoldable pub retain_young : ℕ → ℕ → List SnapshotMeta → List SnapshotMeta × List String
retain_young now max_age_secs [] = ([], [])
retain_young now max_age_secs (s ∷ ss) =
    let (kept, deleted) = retain_young now max_age_secs ss in
    if is_young now max_age_secs s then (s ∷ kept, deleted) else (kept, s.object_key ∷ deleted)

-- `while snapshots.len() > capped { deleted_keys.push(snapshots.remove(0).object_key) }`
unfoldable pub cap_snapshots : ℕ → List SnapshotMeta → List SnapshotMeta × List String
cap_snapshots capped [] = ([], [])
cap_snapshots capped (s ∷ ss) =
    let (kept, deleted) = cap_snapshots capped ss in
    if ltb capped (suc (length ss)) then (kept, s.object_key ∷ deleted) else (s ∷ ss, [])

unfoldable pub find_id : String → List SnapshotMeta → Option SnapshotMeta
find_id id [] = none
find_id id (s ∷ ss) = let rest = find_id id ss in if str_eq s.id id then some s else rest

unfoldable pub last_snapshot : List SnapshotMeta → Option SnapshotMeta
last_snapshot [] = none
last_snapshot (s ∷ []) = some s
last_snapshot (s ∷ t ∷ ss) = last_snapshot (t ∷ ss)

abbrev pub point_at : Option SnapshotMeta → WalManifest → WalManifest
point_at none m = record m { current_snapshot_id = none; current_snapshot_key = none }
point_at (some s) m = record m {
  current_snapshot_id = some s.id;
  current_snapshot_key = some s.object_key;
}

-- The current snapshot after the pruning: the one that was, or else the last, or none.
unfoldable pub repoint : WalManifest → WalManifest
repoint m = elim m.current_snapshot_id [
  | none ↦ m
  | some id ↦ elim (find_id id m.snapshots) [
    | some s ↦ record m { current_snapshot_key = some s.object_key }
    | none ↦ point_at (last_snapshot m.snapshots) m
  ]
]

-- `max_age_days.saturating_mul(86_400)`
unfoldable pub age_limit : ℕ → ℕ
age_limit days = if ltb (days * 86400) u64_mod then days * 86400 else u64_mod - 1

-- The pruning of `upsert_snapshot`: by age unless the limit is zero, then by number.
unfoldable pub prune : ℕ → ℕ → ℕ → List SnapshotMeta → List SnapshotMeta × List String
prune now max_count max_age_days ss =
    let (young, old_keys) =
      if ltb 0 (age_limit max_age_days)
      then retain_young now (age_limit max_age_days) ss
      else (ss, []) in
    let (kept, more_keys) = cap_snapshots (max max_count 1) young in (kept, old_keys ++ more_keys)

-- The manifest that `upsert_snapshot` writes, and the keys that it reports as deleted.
unfoldable pub with_snapshot :
    String → ℕ → ℕ → ℕ → ℕ → SnapshotMeta → WalManifest → WalManifest × List String
with_snapshot writer_id now written_at max_count max_age_days s m =
    let ordered = sort_by_age (without_id s.id m.snapshots ++ s ∷ []) in
    let (kept, deleted) = prune now max_count max_age_days ordered in
    let pointed = repoint (record m {
      current_snapshot_id = some s.id;
      current_snapshot_key = some s.object_key;
      snapshots = kept;
    }) in
    (record pointed { writer_id = writer_id; updated_at = Decimal.show written_at }, deleted)
