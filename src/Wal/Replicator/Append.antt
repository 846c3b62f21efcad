-- ===== src/Wal/Replicator/Append.antt =====
-- src/storage/s3_wal/replicator.rs: what the store holds after a segment was appended.
use text.Mathlib.TextLemmas.{append_cancel_left}
use mathlib.Core.Path.{subst}
use kokoadb.Prelude.{
  suc, [], ◌++◌, map, ℕ, ◌+◌, ◌<◌, String, ◌≡◌, refl, sym, ap, ◌∙◌, ◌≢◌, List, ◌∷◌, Option, none,
  some, arith, length, eq_iff, ltb, not, ◌&&◌, str_eq, Bool-cases, Option-cases, inl, inr,
}
use kokoadb.Error.{AppResult, ok, err, out_of_fuel}
use kokoadb.Decimal
use kokoadb.Wal.{WriterLease, WalManifest, ManifestSegment}
use kokoadb.Wal.Keys.{relative_object_key, manifest_key, lease_key, resolve_object_key}
use kokoadb.Wal.Manifest.Segments.{
  first_seq-eq, last_seq-eq, IsContiguous, add_segment-IsContiguous, portable-IsContiguous,
}
use kokoadb.Wal.Manifest.{
  u64_mod, portable, portable_segment, segment_entry, add_segment, first_seq,
}
use kokoadb.Wal.Store.{ObjectStore, Codec, Holds, StoreLaws, CodecLaws}
use kokoadb.Wal.Action.{continue, pure, bind-ok, then_pure-ok}
use kokoadb.Wal.Replicator.{
  Replicator, segment_key, new_segment, ensure_lease, load_manifest_with_etag, initialised,
  write_manifest, append_to, append_segment, renew_lease, take_lease, decode_stored,
}

-- A segment as a manifest is stored with it.
abbrev pub relative_segment : ManifestSegment → ManifestSegment
relative_segment g = record {
  seq = g.seq;
  object_key = relative_object_key g.object_key;
  checksum = g.checksum;
  start_lsn = g.start_lsn;
  end_lsn = g.end_lsn;
  compressed_bytes = g.compressed_bytes;
}

map-append_one :
    {A B : Type 0} (f : A → B) (xs : List A) (x : A) → map f (xs ++ x ∷ []) ≡ map f xs ++ f x ∷ []
map-append_one f [] x = refl
map-append_one f (y ∷ ys) x = ap (λ zs. f y ∷ zs) (map-append_one f ys x)

-- A lease and a manifest have different keys.
lease_key-ne-manifest_key :
    (prefix tenant : String) → lease_key prefix tenant ≢ manifest_key prefix tenant
unfolding lease_key manifest_key
lease_key-ne-manifest_key prefix tenant h =
    let after_prefix = append_cancel_left prefix _ _ h in
    let after_slash = append_cancel_left "/" _ _ after_prefix in
    let names = append_cancel_left tenant _ _ after_slash in
    ground (arith, names, eq_iff "/lease.json" "/manifest.json")

module _ (O : ObjectStore) (laws : StoreLaws O) (J : Codec O.Bytes) (codec : CodecLaws J)
    (r : Replicator) (tenant : String) where
  -- The manifest m is stored for the tenant, as far as a manifest is stored.
  abbrev pub Stored : WalManifest → O.State → Type 0
  Stored m s =
      (raw : O.Bytes) × (etag : String) × Holds O (manifest_key r.prefix tenant) raw etag s
      × (J.decode_manifest raw ≡ some m)

  write_manifest-Stored :
      (m : WalManifest) (etag : Option String) (s t : O.State)
      → write_manifest O J r tenant m etag s ≡ (ok tt, t)
      → Stored (portable tenant m) t
  unfolding write_manifest
  write_manifest-Stored m etag s t h =
      let raw = J.encode_manifest (portable tenant m) in
      let write = O.put_if_match (manifest_key r.prefix tenant) raw etag in
      let (e, put, _) = then_pure-ok write tt s h in
      (
        raw,
        e,
        laws.get-put_if_match _ e raw etag s t put,
        unfold portable in codec.decode-encode_manifest (portable tenant m),
      )

  continue-pure-state :
      {A B : Type 0} (w : AppResult A) (x : B) (s : O.State) → (continue w (λ _. pure x) s).1 ≡ s
  continue-pure-state (ok a) x s = refl
  continue-pure-state (err e) x s = refl
  continue-pure-state out_of_fuel x s = refl

  -- Taking the lease writes its own key only.
  module _ (clock : ℕ → ℕ) (j : String) (other : lease_key r.prefix tenant ≢ j) where
    renew_lease-frame :
        (existing : WriterLease) (etag : String) (expires_at : ℕ) (s : O.State)
        → O.get j (renew_lease O J r (clock 0) tenant existing etag expires_at s).1 ≡ O.get j s
    unfolding renew_lease
    renew_lease-frame existing etag expires_at s =
        elim (Bool-cases
          (not (str_eq existing.writer_id r.writer_id) && ltb (clock 0) expires_at)) [
            | inl q ↦ rw (q, renew_lease)
            | inr q ↦
                rw (q, renew_lease)
                  (ap (O.get j) (continue-pure-state _ _ _)
                    ∙ laws.get-put_if_match_ne (lease_key r.prefix tenant) j _ (some etag) s other)
          ]

    take_lease-frame :
        (found : Option (O.Bytes × String)) (s : O.State)
        → O.get j (take_lease O J r (clock 0) tenant found s).1 ≡ O.get j s
    unfolding take_lease
    take_lease-frame none s =
        ap (O.get j) (continue-pure-state _ _ _)
        ∙ laws.get-put_ne (lease_key r.prefix tenant) j _ s other
    take_lease-frame (some (raw, etag)) s = elim (Option-cases (J.decode_lease raw)) [
      | inl q ↦ rw (q, take_lease)
      | inr (l, q) ↦ elim (Option-cases (Decimal.parse l.lease_until_rfc3339)) [
        | inl p ↦ rw (q, take_lease, p)
        | inr (e, p) ↦ rw (q, take_lease, p) (renew_lease-frame l etag e s)
      ]
    ]

    ensure_lease-frame : (s : O.State) → O.get j (ensure_lease O J r clock tenant s).1 ≡ O.get j s
    unfolding ensure_lease
    ensure_lease-frame s = by_read (O.get (lease_key r.prefix tenant) s)
      where
        by_read :
            (w : AppResult (Option (O.Bytes × String)))
            → O.get j (continue w (take_lease O J r (clock 0) tenant) s).1 ≡ O.get j s
        by_read (ok found) = take_lease-frame found s
        by_read (err e) = refl
        by_read out_of_fuel = refl

  -- The manifest that is stored has one more entry, for the segment that was written.
  abbrev pub Appended :
      (ℕ → ℕ) → List (String × String) → WalManifest → ManifestSegment → O.State → Type 0
  Appended clock records m g t =
      (key etag : String) × (bytes : ℕ) × (g ≡ segment_entry m (length records) key etag bytes)
      × Stored (portable tenant (add_segment r.writer_id (clock (2 + length records)) m g)) t

  append_to-Stored :
      (clock : ℕ → ℕ) (records : List (String × String)) (lease : WriterLease) (m : WalManifest)
      (etag : Option String) (s t : O.State) (g : ManifestSegment)
      → append_to O J r clock tenant records lease m etag s ≡ (ok g, t)
      → Appended clock records m g t
  unfolding append_to
  append_to-Stored clock records lease m etag s t g h =
      let key = segment_key lease.epoch (first_seq m) in
      let raw = J.encode_segment (new_segment clock tenant lease m records) in
      let n = length records in
      let (seg_etag, _, rest) =
        bind-ok (O.put (resolve_object_key r.prefix tenant key) raw) _ s h in
      let entry = segment_entry m n key seg_etag (J.size raw) in
      let after = add_segment r.writer_id (clock (2 + n)) m entry in
      let (done, wrote, same) =
        then_pure-ok (write_manifest O J r tenant after etag) entry _ rest in
      (
        key,
        seg_etag,
        J.size raw,
        same,
        subst (λ e. Stored (portable tenant (add_segment r.writer_id (clock (2 + n)) m e)) t)
            (sym same) (write_manifest-Stored after etag _ t wrote),
      )

  load_manifest-Stored :
      (clock : ℕ → ℕ) (m : WalManifest) (etag : String) (raw : O.Bytes) (s : O.State)
      → Holds O (manifest_key r.prefix tenant) raw etag s
      → J.decode_manifest raw ≡ some m
      → load_manifest_with_etag O J r clock tenant s ≡ (ok (m, some etag), s)
  unfolding load_manifest_with_etag decode_stored
  load_manifest-Stored clock m etag raw s stored decoded = rw (stored, decode_stored, decoded)

  initialised-eq :
      (clock : ℕ → ℕ) (lease : WriterLease) (m : WalManifest)
      → m.epoch ≢ 0
      → initialised r clock tenant lease m ≡ m
  initialised-eq clock lease m running = ground arith

  append_segment-Appended :
      (clock : ℕ → ℕ) (x : String × String) (xs : List (String × String)) (m : WalManifest)
      (s t : O.State) (g : ManifestSegment)
      → Stored m s
      → m.epoch ≢ 0
      → append_segment O J r clock tenant (x ∷ xs) s ≡ (ok g, t)
      → Appended clock (x ∷ xs) m g t
  unfolding append_segment
  append_segment-Appended clock x xs m s t g (raw, etag, stored, decoded) running h =
      let (lease, _, rest) = bind-ok (ensure_lease O J r clock tenant) _ s h in
      let s' = (ensure_lease O J r clock tenant s).1 in
      let still : O.get (manifest_key r.prefix tenant) s' ≡ ok (some (raw, etag)) =
        ensure_lease-frame clock (manifest_key r.prefix tenant)
          (lease_key-ne-manifest_key r.prefix tenant) s
        ∙ stored in
      let loaded = load_manifest-Stored clock m etag raw s' still decoded in
      let appended = rw (loaded, initialised-eq clock lease m running) at rest in
      append_to-Stored clock (x ∷ xs) lease m (some etag) s' t g appended

  -- The manifest that is stored has the segments of m and then g, and is otherwise m as it is stored.
  pub record IsExtended (m : WalManifest) (n : ℕ) (g : ManifestSegment) (t : O.State) : Type 0 where
    pub after : WalManifest
    pub stored : Stored after t
    pub one_more : after.segments ≡ map relative_segment m.segments ++ relative_segment g ∷ []
    pub starts : g.start_lsn ≡ suc m.applied_seq
    pub ends : g.end_lsn ≡ m.applied_seq + n
    pub applied : after.applied_seq ≡ g.end_lsn
    pub same_epoch : after.epoch ≡ m.epoch
    pub same_watermark : after.compaction_watermark ≡ m.compaction_watermark
    pub same_snapshot : after.current_snapshot_id ≡ m.current_snapshot_id

  -- An append of at least one record that succeeds on a stored manifest in an epoch, where the numbers fit
  -- in a u64, leaves a manifest stored whose segments are the earlier ones and then, as the only new one,
  -- the segment that is returned, all with relative keys. That segment has one number for each record,
  -- from the one after the old `applied_seq`; the new `applied_seq` is its last number. The epoch, the
  -- watermark and the current snapshot are as before.
  pub append_segment-IsExtended :
      (clock : ℕ → ℕ) (x : String × String) (xs : List (String × String)) (m : WalManifest)
      (s t : O.State) (g : ManifestSegment)
      → Stored m s
      → m.epoch ≢ 0
      → m.applied_seq + length (x ∷ xs) < u64_mod
      → append_segment O J r clock tenant (x ∷ xs) s ≡ (ok g, t)
      → IsExtended m (length (x ∷ xs)) g t
  unfolding portable add_segment segment_entry
  append_segment-IsExtended clock x xs m s t g stored running fits h =
      let n : ℕ = length (x ∷ xs) in
      let (key, etag, bytes, same, after) =
        append_segment-Appended clock x xs m s t g stored running h in
      record {
        after = portable tenant (add_segment r.writer_id (clock (2 + n)) m g);
        stored = after;
        one_more = map-append_one portable_segment m.segments g;
        starts = ap (λ e. e.start_lsn) same ∙ first_seq-eq m n fits (omega arith);
        ends = ap (λ e. e.end_lsn) same ∙ last_seq-eq m n fits (omega arith);
        applied = refl;
        same_epoch = refl;
        same_watermark = refl;
        same_snapshot = refl;
      }

  -- Appending n > 0 records to a stored contiguous log whose numbers fit in a u64 leaves a contiguous
  -- log stored, with n more records.
  pub append_segment-IsContiguous :
      (clock : ℕ → ℕ) (x : String × String) (xs : List (String × String)) (m : WalManifest)
      (s t : O.State) (g : ManifestSegment)
      → Stored m s
      → m.epoch ≢ 0
      → m.applied_seq + length (x ∷ xs) < u64_mod
      → IsContiguous m
      → append_segment O J r clock tenant (x ∷ xs) s ≡ (ok g, t)
      → (m' : WalManifest) × Stored m' t
        × IsContiguous m'
        × (m'.applied_seq ≡ m.applied_seq + length (x ∷ xs))
  unfolding portable
  append_segment-IsContiguous clock x xs m s t g stored running fits whole h =
      let n = length (x ∷ xs) in
      let now = clock (2 + n) in
      let (key, etag, bytes, same, after) =
        append_segment-Appended clock x xs m s t g stored running h in
      let entry = segment_entry m n key etag bytes in
      let (chain, total) =
        add_segment-IsContiguous m n now bytes r.writer_id key etag fits (omega arith) whole in
      (
        portable tenant (add_segment r.writer_id now m entry),
        subst (λ e. Stored (portable tenant (add_segment r.writer_id now m e)) t) same after,
        portable-IsContiguous tenant (add_segment r.writer_id now m entry) chain,
        total,
      )
