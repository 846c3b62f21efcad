-- ===== src/Wal/Store.antt =====
-- src/storage/s3_wal/object_store.rs: the interface `ObjectStore`, which an S3 service implements, and
-- the codec of the stored JSON; both are parameters of the replicator. `StoreLaws` and `CodecLaws` are
-- what S3 and serde document: a put is read back, a conditional put succeeds only on the etag that is
-- stored, and a document decodes to what was encoded.
pub mod Memory
use kokoadb.Prelude.{ℕ, String, ◌≡◌, ◌≢◌, Option, none, some}
use kokoadb.Error.{AppError, AppResult, ok, err, out_of_fuel}
use kokoadb.Wal.{WriterLease, WalSegment, WalManifest}

pub record ObjectStore : Type 1 where
  pub State : Type 0
  pub Bytes : Type 0
  pub get : String → State → AppResult (Option (Bytes × String))
  pub put : String → Bytes → State → AppResult String × State
  pub put_if_match : String → Bytes → Option String → State → AppResult String × State

-- `serde_json` on the three kinds of documents; `size` is the length of the bytes.
pub record Codec (Bytes : Type 0) : Type 1 where
  pub encode_lease : WriterLease → Bytes
  pub decode_lease : Bytes → Option WriterLease
  pub encode_manifest : WalManifest → Bytes
  pub decode_manifest : Bytes → Option WalManifest
  pub encode_segment : WalSegment → Bytes
  pub decode_segment : Bytes → Option WalSegment
  pub size : Bytes → ℕ

-- What is stored under a key, if it can be read.
abbrev pub Holds : (O : ObjectStore) → String → O.Bytes → String → O.State → Type 0
Holds O key bytes etag s = O.get key s ≡ ok (some (bytes, etag))

pub record StoreLaws (O : ObjectStore) : Type 1 where
  pub get-put :
      (k e : String) (b : O.Bytes) (s t : O.State) → O.put k b s ≡ (ok e, t) → Holds O k b e t
  pub get-put_ne :
      (k j : String) (b : O.Bytes) (s : O.State) → k ≢ j → O.get j (O.put k b s).1 ≡ O.get j s
  pub get-put_if_match :
      (k e : String) (b : O.Bytes) (m : Option String) (s t : O.State)
      → O.put_if_match k b m s ≡ (ok e, t)
      → Holds O k b e t
  pub get-put_if_match_ne :
      (k j : String) (b : O.Bytes) (m : Option String) (s : O.State)
      → k ≢ j
      → O.get j (O.put_if_match k b m s).1 ≡ O.get j s
  pub put_if_match-etag :
      (k e etag : String) (b : O.Bytes) (s t : O.State)
      → O.put_if_match k b (some etag) s ≡ (ok e, t)
      → (old : O.Bytes) × Holds O k old etag s

-- A manifest is stored without `current_snapshot_key`, which serde skips.
pub record CodecLaws {Bytes : Type 0} (J : Codec Bytes) : Type 0 where
  pub decode-encode_lease : (l : WriterLease) → J.decode_lease (J.encode_lease l) ≡ some l
  pub decode-encode_manifest :
      (m : WalManifest)
      → J.decode_manifest (J.encode_manifest m) ≡ some (record m { current_snapshot_key = none })
  pub decode-encode_segment : (g : WalSegment) → J.decode_segment (J.encode_segment g) ≡ some g
