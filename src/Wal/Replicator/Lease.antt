-- ===== src/Wal/Replicator/Lease.antt =====
-- src/storage/s3_wal/replicator.rs: who is given the writer lease.
use mathlib.Core.Path.{subst}
use kokoadb.Prelude.{
  false, ℕ, ◌+◌, ◌%◌, ◌^◌, ◌≤◌, ◌<◌, String, ◌≡◌, refl, sym, ◌⊎◌, ap, ◌≢◌, not, ◌&&◌, List, ◌∷◌,
  Option, none, some, arith, ltb, lt→ltb, str_eq, eq_iff, Bool-cases, Option-cases, inl, inr,
}
use kokoadb.Error.{ok, err}
use kokoadb.Decimal
use kokoadb.Wal.{WriterLease, SnapshotMeta}
use kokoadb.Wal.Keys.{lease_key}
use kokoadb.Wal.Store.{ObjectStore, Codec, Holds, StoreLaws}
use kokoadb.Wal.Action.{bind-ok, then_pure-ok}
use kokoadb.Wal.Replicator.{
  Replicator, held_by, lease_for, renew_lease, take_lease, ensure_lease, sync_once, append_segment,
  upsert_snapshot, compact_manifest,
}

module _ (O : ObjectStore) (J : Codec O.Bytes) (r : Replicator) (clock : ℕ → ℕ)
    (tenant : String) where
  -- Another writer's lease is stored, and has not run out at the first reading of the clock.
  pub record HeldByOther (l : WriterLease) (s : O.State) : Type 0 where
    pub raw : O.Bytes
    pub etag : String
    pub expires_at : ℕ
    pub stored : Holds O (lease_key r.prefix tenant) raw etag s
    pub decoded : J.decode_lease raw ≡ some l
    pub parsed : Decimal.parse l.lease_until_rfc3339 ≡ some expires_at
    pub other : l.writer_id ≢ r.writer_id
    pub running : clock 0 < expires_at

  module _ {l : WriterLease} {s : O.State} (h : HeldByOther l s) where
    renew_lease-conflict :
        (etag : String)
        → renew_lease O J r (clock 0) tenant l etag h.expires_at s ≡ (err (held_by l), s)
    unfolding renew_lease
    renew_lease-conflict etag =
        ground
          (arith, eq_iff l.writer_id r.writer_id, lt→ltb (clock 0) h.expires_at h.running, h.other)

    ensure_lease-conflict : ensure_lease O J r clock tenant s ≡ (err (held_by l), s)
    unfolding ensure_lease take_lease
    ensure_lease-conflict =
        rw (h.stored, take_lease, h.decoded, h.parsed) (renew_lease-conflict h.etag)

    sync_once-conflict : sync_once O J r clock tenant s ≡ (err (held_by l), s)
    unfolding sync_once
    sync_once-conflict = rw (ensure_lease-conflict)

    append_segment-conflict :
        (x : String × String) (xs : List (String × String))
        → append_segment O J r clock tenant (x ∷ xs) s ≡ (err (held_by l), s)
    unfolding append_segment
    append_segment-conflict x xs = rw (ensure_lease-conflict)

    upsert_snapshot-conflict :
        (snapshot : SnapshotMeta) (max_count max_age_days : ℕ)
        → upsert_snapshot O J r clock tenant snapshot max_count max_age_days s
          ≡ (err (held_by l), s)
    unfolding upsert_snapshot
    upsert_snapshot-conflict snapshot c d = rw (ensure_lease-conflict)

    compact_manifest-conflict :
        (retain : ℕ) → compact_manifest O J r clock tenant retain s ≡ (err (held_by l), s)
    unfolding compact_manifest
    compact_manifest-conflict retain = rw (ensure_lease-conflict)

-- While a lease of another writer runs, each of the five operations of the replicator that begin by
-- taking the lease (`ensure_lease` itself, a sync, an append of at least one record, a snapshot, a
-- compaction) fails with the conflict that names the holder, and leaves the whole object store as it was.
pub writer_excluded :
    (O : ObjectStore) (J : Codec O.Bytes) (r : Replicator) (clock : ℕ → ℕ) (tenant : String)
    (l : WriterLease) (s : O.State) (record_ : String × String) (records : List (String × String))
    (snapshot : SnapshotMeta) (max_count max_age_days retain : ℕ)
    → HeldByOther O J r clock tenant l s
    → (ensure_lease O J r clock tenant s ≡ (err (held_by l), s))
      × (sync_once O J r clock tenant s ≡ (err (held_by l), s))
      × (append_segment O J r clock tenant (record_ ∷ records) s ≡ (err (held_by l), s))
      × (upsert_snapshot O J r clock tenant snapshot max_count max_age_days s
          ≡ (err (held_by l), s))
      × (compact_manifest O J r clock tenant retain s ≡ (err (held_by l), s))
writer_excluded O J r clock tenant l s x xs snapshot c d retain h = (
  ensure_lease-conflict O J r clock tenant h,
  sync_once-conflict O J r clock tenant h,
  append_segment-conflict O J r clock tenant h x xs,
  upsert_snapshot-conflict O J r clock tenant h snapshot c d,
  compact_manifest-conflict O J r clock tenant h retain,
)

-- What `ensure_lease` returns, beside the lease that was stored before.
module _ (O : ObjectStore) (laws : StoreLaws O) (J : Codec O.Bytes) (r : Replicator) (clock : ℕ → ℕ)
    (tenant : String) where
  -- The epoch of a lease that may be taken: epoch 1 if none is stored, or else that of a stored lease
  -- which is the writer's own or has run out at the first reading of the clock.
  abbrev pub Available : Option (O.Bytes × String) → ℕ → Type 0
  Available none epoch = epoch ≡ 1
  Available (some (raw, etag)) epoch =
      (before : WriterLease) × (expires_at : ℕ) × (J.decode_lease raw ≡ some before)
      × (Decimal.parse before.lease_until_rfc3339 ≡ some expires_at)
      × (epoch ≡ before.epoch)
      × ((before.writer_id ≡ r.writer_id) ⊎ (expires_at ≤ clock 0))

  pub record Granted (l : WriterLease) (s t : O.State) : Type 0 where
    pub before : Option (O.Bytes × String)
    pub etag : String
    pub was_stored : O.get (lease_key r.prefix tenant) s ≡ ok before
    pub available : Available before l.epoch
    pub own : l.writer_id ≡ r.writer_id
    pub of_tenant : l.tenant ≡ tenant
    pub runs : l.lease_until_rfc3339 ≡ Decimal.show ((clock 0 + r.lease_duration_secs) % 2 ^ 64)
    pub is_stored : Holds O (lease_key r.prefix tenant) (J.encode_lease l) etag t

  granted :
      (before : Option (O.Bytes × String)) (l : WriterLease) (epoch : ℕ) (etag : String)
      (s t : O.State)
      → O.get (lease_key r.prefix tenant) s ≡ ok before
      → Available before epoch
      → l ≡ lease_for r tenant epoch (clock 0)
      → Holds O (lease_key r.prefix tenant) (J.encode_lease l) etag t
      → Granted l s t
  granted before l epoch etag s t was available same is = record {
    before = before;
    etag = etag;
    was_stored = was;
    available = subst (Available before) (sym (ap (λ x. x.epoch) same)) available;
    own = ap (λ x. x.writer_id) same;
    of_tenant = ap (λ x. x.tenant) same;
    runs = ap (λ x. x.lease_until_rfc3339) same;
    is_stored = is;
  }

  renew_lease-Granted :
      (existing l : WriterLease) (raw : O.Bytes) (etag : String) (expires_at : ℕ) (s t : O.State)
      → O.get (lease_key r.prefix tenant) s ≡ ok (some (raw, etag))
      → J.decode_lease raw ≡ some existing
      → Decimal.parse existing.lease_until_rfc3339 ≡ some expires_at
      → renew_lease O J r (clock 0) tenant existing etag expires_at s ≡ (ok l, t)
      → Granted l s t
  unfolding renew_lease
  renew_lease-Granted existing l raw etag expires_at s t was decoded parsed h =
      elim (Bool-cases (not (str_eq existing.writer_id r.writer_id) && ltb (clock 0) expires_at)) [
        | inl q ↦ cc (ap (λ p. p.0) (rw (q, renew_lease) at h))
        | inr q ↦
            let renewed = lease_for r tenant existing.epoch (clock 0) in
            let write =
              O.put_if_match (lease_key r.prefix tenant) (J.encode_lease renewed) (some etag) in
            let (e, put, same) = then_pure-ok write renewed s (rw (q, renew_lease) at h) in
            granted (some (raw, etag)) l existing.epoch e s t was
              (existing, expires_at, decoded, parsed, refl, may_take existing expires_at q) same
              (rw same (laws.get-put_if_match _ e _ (some etag) s t put))
      ]
    where
      may_take :
          (existing : WriterLease) (expires_at : ℕ)
          → (not (str_eq existing.writer_id r.writer_id) && ltb (clock 0) expires_at) ≡ false
          → (existing.writer_id ≡ r.writer_id) ⊎ (expires_at ≤ clock 0)
      may_take existing expires_at q = elim (Bool-cases (str_eq existing.writer_id r.writer_id)) [
        | inl e ↦ inl ((eq_iff existing.writer_id r.writer_id).0 e)
        | inr e ↦ inr (ground (arith, e, q))
      ]

  take_lease-Granted :
      (found : Option (O.Bytes × String)) (l : WriterLease) (s t : O.State)
      → O.get (lease_key r.prefix tenant) s ≡ ok found
      → take_lease O J r (clock 0) tenant found s ≡ (ok l, t)
      → Granted l s t
  unfolding take_lease
  take_lease-Granted none l s t was h =
      let first = lease_for r tenant 1 (clock 0) in
      let write = O.put (lease_key r.prefix tenant) (J.encode_lease first) in
      let (e, put, same) = then_pure-ok write first s h in
      granted none l 1 e s t was refl same (rw same (laws.get-put _ e _ s t put))
  take_lease-Granted (some (raw, etag)) l s t was h = elim (Option-cases (J.decode_lease raw)) [
    | inl q ↦ cc (ap (λ p. p.0) (rw (q, take_lease) at h))
    | inr (existing, q) ↦ elim (Option-cases (Decimal.parse existing.lease_until_rfc3339)) [
      | inl p ↦ cc (ap (λ p. p.0) (rw (q, take_lease, p) at h))
      | inr (expires_at, p) ↦
          renew_lease-Granted existing l raw etag expires_at s t was q p
            (rw (q, take_lease, p) at h)
    ]
  ]

  -- A lease is granted only where none is stored, or where the stored one is the writer's own or has run
  -- out at the first reading of the clock. It is the writer's own for the tenant, runs from that reading
  -- for the configured time, has the epoch of the stored lease, or epoch 1 if none was stored, and is what
  -- the store then holds.
  pub ensure_lease-Granted :
      (l : WriterLease) (s t : O.State)
      → ensure_lease O J r clock tenant s ≡ (ok l, t)
      → Granted l s t
  unfolding ensure_lease
  ensure_lease-Granted l s t h =
      let (found, was, rest) =
        bind-ok (λ (u : O.State). (O.get (lease_key r.prefix tenant) u, u)) _ s h in
      take_lease-Granted found l s t was rest
