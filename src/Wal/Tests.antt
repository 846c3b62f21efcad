-- ===== src/Wal/Tests.antt =====
-- Runs of the replicator on a store in memory, and instances of its theorems.
use Prim.Native.Nat.{max}
use kokoadb.Prelude.{
  ℕ, ◌+◌, ◌^◌, ◌≤◌, ◌<◌, String, ◌≡◌, ◌≢◌, refl, [], ◌∷◌, ◌++◌, Option, none, some, arith, length,
  eq_iff, All,
}
use kokoadb.Error.{AppResult, ok, err}
use kokoadb.Decimal.{digit, show_from, show, pad, parse_from, parse}
use kokoadb.Wal.{WriterLease, WalManifest, ManifestSegment, SnapshotMeta}
use kokoadb.Wal.Keys.{
  has_prefix, from_last, trim_slashes, relative_object_key, manifest_key, lease_key,
  resolve_object_key,
}
use kokoadb.Wal.Keys.Laws.{relative_object_key_idem}
use kokoadb.Wal.Manifest.{
  default_manifest, portable, number_records, first_seq, last_seq, segment_entry, add_segment,
  compacted, with_snapshot, unwrap_or, without_id,
}
use kokoadb.Wal.Manifest.Segments.{IsContiguous, compacted-IsContiguous}
use kokoadb.Wal.Manifest.Snapshots.{keys_at, listed, IsPointed, with_snapshot-IsPointed}
use kokoadb.Wal.Manifest.Retention.{Among}
use kokoadb.Wal.Manifest.Newest.{Fate, Allowed, with_snapshot-keeps_newest}
use kokoadb.Wal.Store.Memory.{memory, plain, memory_laws, plain_laws, Objects, Document}
use kokoadb.Wal.Replicator.{
  Replicator, held_by, lease_for, segment_key, new_segment, renew_lease, take_lease, ensure_lease,
  decode_stored, load_manifest_with_etag, write_manifest, append_to, append_segment, sync_once,
  upsert_snapshot, compact_manifest,
}
use kokoadb.Wal.Replicator.Numbering.{IsNumbered, new_segment-IsNumbered}
use kokoadb.Wal.Replicator.Lease.{HeldByOther, writer_excluded, Granted, ensure_lease-Granted}
use kokoadb.Wal.Replicator.Append.{
  Stored, IsExtended, append_segment-IsExtended, append_segment-IsContiguous,
}

wal : Unit {0}
unfolding digit show_from show pad parse_from parse has_prefix from_last trim_slashes
    relative_object_key manifest_key lease_key resolve_object_key default_manifest portable
    number_records first_seq last_seq segment_entry add_segment compacted new_segment renew_lease
    take_lease ensure_lease decode_stored load_manifest_with_etag write_manifest append_to
    append_segment
wal = tt

abbrev writer : String → Replicator
writer id = record { writer_id = id; prefix = "kdb"; lease_duration_secs = 30 }

abbrev at_second : ℕ → ℕ → ℕ
at_second n i = n

abbrev nothing_stored : Objects
nothing_stored = record { entries = []; version = 1 }

abbrev statement : String × String
statement = ("DELETE FROM t", "[]")

-- The store after a first append of one record by writer a.
abbrev first_append : AppResult ManifestSegment × Objects
first_append =
    append_segment memory plain (writer "a") (at_second 100) "db" (statement ∷ []) nothing_stored

first_append_range : Option (ℕ × ℕ)
first_append_range = elim first_append.0 [
  | ok g ↦ some (g.start_lsn, g.end_lsn)
  | err e ↦ none
  | AppResult.out_of_fuel ↦ none
]

first_append-range : first_append_range ≡ some (1, 1)
unfolding wal first_append_range
first_append-range = refl

relative_object_key_idem_example :
    relative_object_key (relative_object_key "/old/db/wal/1/7.json")
    ≡ relative_object_key "/old/db/wal/1/7.json"
relative_object_key_idem_example = relative_object_key_idem "/old/db/wal/1/7.json"

abbrev segment_of : ℕ → ℕ → ManifestSegment
segment_of a b = record {
  seq = a;
  object_key = "wal/1/x.json";
  checksum = "e";
  start_lsn = a;
  end_lsn = b;
  compressed_bytes = 1;
}

abbrev snapshot_of : String → SnapshotMeta
snapshot_of id = record {
  id = id;
  tenant = "db";
  object_key = "snapshots/x.db";
  checksum = "e";
  size_bytes = 1;
  created_at = "90";
  from_seq = 0;
  to_seq = 3;
}

abbrev two_segments : WalManifest
two_segments = record {
  tenant = "db";
  epoch = 1;
  writer_id = "a";
  applied_seq = 3;
  current_snapshot_id = some "s1";
  current_snapshot_key = none;
  snapshots = snapshot_of "s1" ∷ [];
  segments = segment_of 1 2 ∷ segment_of 3 3 ∷ [];
  compaction_watermark = none;
  updated_at = "90";
}

two_segments-IsContiguous : IsContiguous two_segments
two_segments-IsContiguous = omega arith

compacted-IsContiguous_example :
    IsContiguous (compacted "a" 100 1 two_segments)
    × (length (compacted "a" 100 1 two_segments).segments ≡ 1)
    × ((compacted "a" 100 1 two_segments).applied_seq ≡ 3)
    × (0 ≤ unwrap_or (compacted "a" 100 1 two_segments).compaction_watermark 0)
compacted-IsContiguous_example =
    compacted-IsContiguous two_segments "a" 100 1 (omega arith) two_segments-IsContiguous

new_snapshot-Among :
    Among (snapshot_of "s2") (without_id "s2" two_segments.snapshots ++ snapshot_of "s2" ∷ [])
unfolding without_id
new_snapshot-Among = ground (arith, eq_iff "s1" "s2")

with_snapshot-keeps_newest_example :
    let (after, deleted) = with_snapshot "a" 100 101 1 7 (snapshot_of "s2") two_segments in
    Fate 100 1 7 (snapshot_of "s2") after.snapshots deleted
    × (length after.snapshots ≤ max 1 1)
    × All (Allowed 100 7) after.snapshots
    × (keys_at "snapshots/x.db" after.snapshots + listed "snapshots/x.db" deleted
        ≡ keys_at "snapshots/x.db"
            (without_id "s2" two_segments.snapshots ++ snapshot_of "s2" ∷ []))
with_snapshot-keeps_newest_example =
    with_snapshot-keeps_newest "a" 100 101 1 7 (snapshot_of "s2") two_segments (snapshot_of "s2")
      "snapshots/x.db" new_snapshot-Among

with_snapshot-IsPointed_example :
    IsPointed (with_snapshot "a" 100 101 1 7 (snapshot_of "s2") two_segments).0
with_snapshot-IsPointed_example =
    with_snapshot-IsPointed "a" 100 101 1 7 (snapshot_of "s2") two_segments

-- Writer a takes the lease; writer b then meets it.
abbrev leased : Objects
leased = (ensure_lease memory plain (writer "a") (at_second 100) "db" nothing_stored).1

abbrev lease_of_a : WriterLease
lease_of_a = lease_for (writer "a") "db" 1 100

leased_by_a : HeldByOther memory plain (writer "b") (at_second 110) "db" lease_of_a leased
unfolding wal
leased_by_a = record {
  raw = Document.lease lease_of_a;
  etag = "1";
  expires_at = 130;
  stored = refl;
  decoded = refl;
  parsed = refl;
  other = ground (arith, eq_iff "a" "b");
  running = omega arith;
}

writer_excluded_example :
    (ensure_lease memory plain (writer "b") (at_second 110) "db" leased
      ≡ (err (held_by lease_of_a), leased))
    × (sync_once memory plain (writer "b") (at_second 110) "db" leased
        ≡ (err (held_by lease_of_a), leased))
    × (append_segment memory plain (writer "b") (at_second 110) "db" (statement ∷ []) leased
        ≡ (err (held_by lease_of_a), leased))
    × (upsert_snapshot memory plain (writer "b") (at_second 110) "db" (snapshot_of "s") 1 7 leased
        ≡ (err (held_by lease_of_a), leased))
    × (compact_manifest memory plain (writer "b") (at_second 110) "db" 3 leased
        ≡ (err (held_by lease_of_a), leased))
writer_excluded_example =
    writer_excluded memory plain (writer "b") (at_second 110) "db" lease_of_a leased statement []
      (snapshot_of "s") 1 7 3 leased_by_a

ensure_a :
    ensure_lease memory plain (writer "a") (at_second 100) "db" nothing_stored
    ≡ (ok lease_of_a, leased)
unfolding wal
ensure_a = refl

ensure_lease-Granted_example :
    Granted memory memory_laws plain
      (writer "a")
      (at_second 100)
      "db"
      lease_of_a
      nothing_stored
      leased
ensure_lease-Granted_example =
    ensure_lease-Granted memory memory_laws plain (writer "a") (at_second 100) "db" lease_of_a
      nothing_stored leased ensure_a

abbrev first_log : WalManifest
first_log =
    let new = default_manifest "a" "db" 1 100 in
    portable "db" (add_segment "a" 100 new (segment_entry new 1 (segment_key 1 1) "2" 1))

abbrev once : Objects
once = first_append.1

first_log-Stored : Stored memory memory_laws plain plain_laws (writer "a") "db" first_log once
unfolding wal
first_log-Stored = (Document.manifest first_log, "3", refl, refl)

abbrev second_entry : ManifestSegment
second_entry = segment_entry first_log 1 (segment_key 1 2) "5" 1

abbrev twice : Objects
twice = (append_segment memory plain (writer "a") (at_second 110) "db" (statement ∷ []) once).1

second_append :
    append_segment memory plain (writer "a") (at_second 110) "db" (statement ∷ []) once
    ≡ (ok second_entry, twice)
unfolding wal
second_append = refl

first_log-runs : first_log.epoch ≢ 0
unfolding wal
first_log-runs = omega arith

first_log-fits : first_log.applied_seq + 1 < 2 ^ 64
unfolding wal
first_log-fits = omega arith

first_log-IsContiguous : IsContiguous first_log
unfolding wal
first_log-IsContiguous = omega arith

append_segment-IsExtended_example :
    IsExtended memory memory_laws plain plain_laws (writer "a") "db" first_log 1 second_entry twice
append_segment-IsExtended_example =
    append_segment-IsExtended memory memory_laws plain plain_laws (writer "a") "db" (at_second 110)
      statement [] first_log once twice second_entry first_log-Stored first_log-runs first_log-fits
      second_append

new_segment-IsNumbered_example :
    IsNumbered first_log
      (statement ∷ statement ∷ [])
      (new_segment (at_second 110) "db" lease_of_a first_log (statement ∷ statement ∷ []))
unfolding wal
new_segment-IsNumbered_example =
    new_segment-IsNumbered (at_second 110) "db" lease_of_a first_log statement (statement ∷ [])
      (omega arith)

append_segment-IsContiguous_example :
    (m' : WalManifest) × Stored memory memory_laws plain plain_laws (writer "a") "db" m' twice
    × IsContiguous m'
    × (m'.applied_seq ≡ first_log.applied_seq + 1)
append_segment-IsContiguous_example =
    append_segment-IsContiguous memory memory_laws plain plain_laws (writer "a") "db"
      (at_second 110) statement [] first_log once twice second_entry first_log-Stored first_log-runs
      first_log-fits first_log-IsContiguous second_append
