-- ===== src/Wal.antt =====
-- src/storage/s3_wal: the write-ahead log in an object store. This file has the stored structures of
-- lease.rs, manifest.rs, segment.rs and snapshot.rs; a text field `.._rfc3339`, `created_at` or
-- `updated_at` holds seconds in decimal, as the code writes them.
pub mod Keys
pub mod Manifest
pub mod Store
pub mod Action
pub mod Replicator
mod Tests
use kokoadb.Prelude.{ℕ, String, List, Option}

pub record WriterLease : Type 0 where
  pub tenant : String
  pub epoch : ℕ
  pub writer_id : String
  pub lease_until_rfc3339 : String

pub record SnapshotMeta : Type 0 where
  pub id : String
  pub tenant : String
  pub object_key : String
  pub checksum : String
  pub size_bytes : ℕ
  pub created_at : String
  pub from_seq : ℕ
  pub to_seq : ℕ

pub record WalRecord : Type 0 where
  pub seq : ℕ
  pub ts_rfc3339 : String
  pub sql : String
  pub args_json : String

pub record WalSegment : Type 0 where
  pub tenant : String
  pub epoch : ℕ
  pub start_seq : ℕ
  pub end_seq : ℕ
  pub checksum : String
  pub records : List WalRecord

pub record ManifestSegment : Type 0 where
  pub seq : ℕ
  pub object_key : String
  pub checksum : String
  pub start_lsn : ℕ
  pub end_lsn : ℕ
  pub compressed_bytes : ℕ

-- `Manifest`
pub record WalManifest : Type 0 where
  pub tenant : String
  pub epoch : ℕ
  pub writer_id : String
  pub applied_seq : ℕ
  pub current_snapshot_id : Option String
  pub current_snapshot_key : Option String
  pub snapshots : List SnapshotMeta
  pub segments : List ManifestSegment
  pub compaction_watermark : Option ℕ
  pub updated_at : String
