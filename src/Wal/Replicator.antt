-- ===== src/Wal/Replicator.antt =====
-- src/storage/s3_wal/replicator.rs: the operations of `Replicator`, as actions on the object store.
-- `clock i` is the i-th reading of the clock within an operation: the lease takes reading 0, a new
-- manifest reading 1, and what follows is said at each operation. The text that serde and the number
-- parser add to an error is left out.
pub mod Lease
pub mod Append
pub mod Numbering
use kokoadb.Prelude.{
  ℕ, zero, suc, ◌+◌, ◌-◌, String, Bool, true, false, not, ◌&&◌, List, [], ◌∷◌, Option, none, some,
  ltb, leb, ◌==◌, str_eq, if◌then◌else◌, length,
}
use kokoadb.Error.{AppError, AppResult, ok, err, out_of_fuel, bad_request, conflict, internal}
use kokoadb.Text.{◌<>◌}
use kokoadb.Decimal
use kokoadb.Wal.{WriterLease, WalManifest, WalSegment, WalRecord, ManifestSegment, SnapshotMeta}
use kokoadb.Wal.Keys.{manifest_key, lease_key, resolve_object_key}
use kokoadb.Wal.Manifest.{
  add64, default_manifest, portable, number_records, first_seq, last_seq, segment_entry,
  add_segment, compacted, with_snapshot,
}
use kokoadb.Wal.Action.{Action, ◌>>=◌, ◌>>◌, pure, raise, expect}
use kokoadb.Wal.Store.{ObjectStore, Codec}

-- `Replicator` with the fields of its configuration that it reads.
pub record Replicator : Type 0 where
  pub writer_id : String
  pub prefix : String
  pub lease_duration_secs : ℕ

pub record SyncReport : Type 0 where
  pub tenant : String
  pub epoch : ℕ
  pub applied_seq : ℕ
  pub segment_count : ℕ

unfoldable pub held_by : WriterLease → AppError
held_by l = conflict ("writer lease held by " <> l.writer_id <> " until " <> l.lease_until_rfc3339)

abbrev pub segment_key : ℕ → ℕ → String
segment_key epoch start_seq =
    "wal/" <> Decimal.show epoch <> "/" <> Decimal.pad 20 start_seq <> ".json"

abbrev pub lease_for : Replicator → String → ℕ → ℕ → WriterLease
lease_for r tenant epoch now = record {
  tenant = tenant;
  epoch = epoch;
  writer_id = r.writer_id;
  lease_until_rfc3339 = Decimal.show (add64 now r.lease_duration_secs);
}

-- Record i of the segment is stamped with reading 2 + i.
unfoldable pub new_segment :
    (ℕ → ℕ) → String → WriterLease → WalManifest → List (String × String) → WalSegment
new_segment clock tenant lease m records = record {
  tenant = tenant;
  epoch = lease.epoch;
  start_seq = first_seq m;
  end_seq = last_seq m (length records);
  checksum = Decimal.show (first_seq m) <> "-" <> Decimal.show (last_seq m (length records));
  records = number_records (λ i. clock (2 + i)) (first_seq m) 0 records;
}

-- The manifest to change: a stored one with an epoch, or else a new one in the lease's epoch.
abbrev pub initialised : Replicator → (ℕ → ℕ) → String → WriterLease → WalManifest → WalManifest
initialised r clock tenant lease m =
    if m.epoch == 0 then default_manifest r.writer_id tenant lease.epoch (clock 1) else m

module _ (O : ObjectStore) (J : Codec O.Bytes) (r : Replicator) where
  abbrev read : String → Action O.State (Option (O.Bytes × String))
  read key s = (O.get key s, s)

  unfoldable pub renew_lease : ℕ → String → WriterLease → String → ℕ → Action O.State WriterLease
  renew_lease now tenant existing etag expires_at =
      if not (str_eq existing.writer_id r.writer_id) && ltb now expires_at
      then raise (held_by existing)
      else (O.put_if_match (lease_key r.prefix tenant)
            (J.encode_lease (lease_for r tenant existing.epoch now)) (some etag)
          >> pure (lease_for r tenant existing.epoch now))

  unfoldable pub take_lease : ℕ → String → Option (O.Bytes × String) → Action O.State WriterLease
  take_lease now tenant (some (raw, etag)) = do
    existing ← expect (J.decode_lease raw) (internal "lease decode failed")
    expires_at ←
        expect (Decimal.parse existing.lease_until_rfc3339) (internal "lease time parse failed")
    renew_lease now tenant existing etag expires_at
  take_lease now tenant none =
      O.put (lease_key r.prefix tenant) (J.encode_lease (lease_for r tenant 1 now))
      >> pure (lease_for r tenant 1 now)

  unfoldable pub ensure_lease : (ℕ → ℕ) → String → Action O.State WriterLease
  ensure_lease clock tenant = read (lease_key r.prefix tenant) >>= take_lease (clock 0) tenant

  unfoldable pub decode_stored :
      (ℕ → ℕ) → String → Option (O.Bytes × String) → Action O.State (WalManifest × Option String)
  decode_stored clock tenant none = pure (default_manifest r.writer_id tenant 0 (clock 1), none)
  decode_stored clock tenant (some (raw, etag)) = do
    manifest ← expect (J.decode_manifest raw) (internal "manifest decode failed")
    pure (manifest, some etag)

  unfoldable pub load_manifest_with_etag :
      (ℕ → ℕ) → String → Action O.State (WalManifest × Option String)
  load_manifest_with_etag clock tenant =
      read (manifest_key r.prefix tenant) >>= decode_stored clock tenant

  unfoldable pub write_manifest : String → WalManifest → Option String → Action O.State (Unit {0})
  write_manifest tenant manifest expected_etag =
      O.put_if_match (manifest_key r.prefix tenant) (J.encode_manifest (portable tenant manifest))
        expected_etag
      >> pure tt

  decode_read : Option (O.Bytes × String) → Action O.State (Option WalManifest)
  decode_read none = pure none
  decode_read (some (raw, etag)) = do
    manifest ← expect (J.decode_manifest raw) (internal "manifest decode failed")
    pure (some manifest)

  unfoldable pub read_manifest : String → Action O.State (Option WalManifest)
  unfolding decode_read
  read_manifest tenant = read (manifest_key r.prefix tenant) >>= decode_read

  load_or_init : (ℕ → ℕ) → String → ℕ → WalManifest × Option String → Action O.State WalManifest
  load_or_init clock tenant epoch (m, etag) =
      if not (m.epoch == 0)
      then pure m
      else (write_manifest tenant (default_manifest r.writer_id tenant epoch (clock 1)) etag
          >> pure (default_manifest r.writer_id tenant epoch (clock 1)))

  unfoldable pub load_or_init_manifest : (ℕ → ℕ) → String → ℕ → Action O.State WalManifest
  unfolding load_or_init
  load_or_init_manifest clock tenant epoch =
      load_manifest_with_etag clock tenant >>= load_or_init clock tenant epoch

  unfoldable pub sync_once : (ℕ → ℕ) → String → Action O.State SyncReport
  sync_once clock tenant = do
    lease ← ensure_lease clock tenant
    m ← load_or_init_manifest clock tenant lease.epoch
    pure (record {
      tenant = tenant;
      epoch = m.epoch;
      applied_seq = m.applied_seq;
      segment_count = length m.segments;
    })

  -- What `append_segment` writes, given its lease and the manifest; `updated_at` is the reading after
  -- those of the records.
  unfoldable pub append_to :
      (ℕ → ℕ)
      → String
      → List (String × String)
      → WriterLease
      → WalManifest
      → Option String
      → Action O.State ManifestSegment
  append_to clock tenant records lease m etag =
      let key = segment_key lease.epoch (first_seq m) in
      let raw = J.encode_segment (new_segment clock tenant lease m records) in
      let n = length records in
      do
        seg_etag ← O.put (resolve_object_key r.prefix tenant key) raw
        write_manifest tenant
            (add_segment r.writer_id (clock (2 + n)) m
              (segment_entry m n key seg_etag (J.size raw)))
            etag
        pure (segment_entry m n key seg_etag (J.size raw))

  unfoldable pub append_segment :
      (ℕ → ℕ) → String → List (String × String) → Action O.State ManifestSegment
  append_segment clock tenant [] = raise (bad_request "append_segment requires at least one record")
  append_segment clock tenant (x ∷ xs) = do
    lease ← ensure_lease clock tenant
    (m, etag) ← load_manifest_with_etag clock tenant
    append_to clock tenant (x ∷ xs) lease (initialised r clock tenant lease m) etag

  -- Reading 2 is `now`, reading 3 the time of writing.
  unfoldable pub upsert_snapshot :
      (ℕ → ℕ) → String → SnapshotMeta → ℕ → ℕ → Action O.State (WalManifest × List String)
  upsert_snapshot clock tenant snapshot max_count max_age_days = do
    lease ← ensure_lease clock tenant
    (m, etag) ← load_manifest_with_etag clock tenant
    let result =
        with_snapshot r.writer_id (clock 2) (clock 3) max_count max_age_days snapshot
          (initialised r clock tenant lease m)
    write_manifest tenant result.0 etag
    pure result

  -- Reading 2 is the time of writing.
  unfoldable pub compact_to :
      (ℕ → ℕ) → String → ℕ → WalManifest → Option String → Action O.State (WalManifest × ℕ)
  compact_to clock tenant retain m etag =
      if leb (length m.segments) retain
      then pure (m, 0)
      else (write_manifest tenant (compacted r.writer_id (clock 2) retain m) etag
          >> pure (compacted r.writer_id (clock 2) retain m, length m.segments - retain))

  unfoldable pub compact_manifest : (ℕ → ℕ) → String → ℕ → Action O.State (WalManifest × ℕ)
  compact_manifest clock tenant retain = do
    lease ← ensure_lease clock tenant
    (m, etag) ← load_manifest_with_etag clock tenant
    compact_to clock tenant retain (initialised r clock tenant lease m) etag
