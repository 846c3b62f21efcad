-- ===== src/Wal/Manifest/Newest.antt =====
-- src/storage/s3_wal/replicator.rs: what becomes of each snapshot when `upsert_snapshot` adds one.
use Prim.Native.Nat.{max}
use kokoadb.Prelude.{
  ℕ, ◌+◌, ◌≤◌, ◌<◌, String, ◌≡◌, ◌⊎◌, inl, inr, List, [], ◌∷◌, ◌++◌, arith, length, ltb, Bool-cases,
  All,
}
use kokoadb.Wal.{WalManifest, SnapshotMeta}
use kokoadb.Wal.Manifest.{
  without_id, sort_by_age, retain_young, cap_snapshots, prune, with_snapshot, age_limit,
}
use kokoadb.Wal.Manifest.Snapshots.{
  keys_at, listed, listed-append, snapshots-repoint, with_snapshot-accounts,
}
use kokoadb.Wal.Manifest.Retention.{
  Among, Sorted, sort-Sorted, sort-Among, age, retain-Sorted, retain-young, retain-Among, PushedOut,
  All-cap, cap-Among,
}

-- A snapshot stays, or its key is deleted: it is older than the age allowed, if there is a limit, or as
-- many as may be stay and none of them is older.
pub data Fate (now max_count days : ℕ) (x : SnapshotMeta) (left : List SnapshotMeta)
    (deleted : List String) : Type 0 where
  stays : Among x left → Fate now max_count days x left deleted
  too_old :
      0 < age_limit days
      → age_limit days < age now x
      → 0 < listed x.object_key deleted
      → Fate now max_count days x left deleted
  pushed_out : PushedOut (max max_count 1) x left deleted → Fate now max_count days x left deleted

-- Young enough, if there is a limit.
abbrev pub Allowed : ℕ → ℕ → SnapshotMeta → Type 0
Allowed now days y = (age_limit days ≡ 0) ⊎ (age now y ≤ age_limit days)

All-map :
    (P Q : SnapshotMeta → Type 0)
    → ((y : SnapshotMeta) → P y → Q y)
    → (ss : List SnapshotMeta) → All P ss
    → All Q ss
All-map P Q f [] h = tt
All-map P Q f (s ∷ ss) h = (f s h.0, All-map P Q f ss h.1)

All-any :
    (Q : SnapshotMeta → Type 0) → ((y : SnapshotMeta) → Q y) → (ss : List SnapshotMeta) → All Q ss
All-any Q f [] = tt
All-any Q f (s ∷ ss) = (f s, All-any Q f ss)

module _ (now max_count days : ℕ) where
  prune-Allowed : (ss : List SnapshotMeta) → All (Allowed now days) (prune now max_count days ss).0
  unfolding prune
  prune-Allowed ss = elim (Bool-cases (ltb 0 (age_limit days))) [
    | inl q ↦ rw q (
        All-cap (max max_count 1) (Allowed now days) (retain_young now (age_limit days) ss).0 (
          All-map (λ y. age now y ≤ age_limit days) (Allowed now days) (λ y h. inr h)
            (retain_young now (age_limit days) ss).0 (retain-young now (age_limit days) ss)))
    | inr q ↦ All-any (Allowed now days) (λ y. inl (ground (arith, q))) _
  ]

  prune-Fate :
      (x : SnapshotMeta) (ss : List SnapshotMeta)
      → Sorted ss
      → Among x ss
      → Fate now max_count days x (prune now max_count days ss).0 (prune now max_count days ss).1
  unfolding prune
  prune-Fate x ss h m = elim (Bool-cases (ltb 0 (age_limit days))) [
    | inl q ↦
        let (young, old_keys) = retain_young now (age_limit days) ss in
        let cut = listed-append x.object_key old_keys (cap_snapshots (max max_count 1) young).1 in
        rw q (elim (retain-Among now (age_limit days) x ss m) [
          | inr (old, d) ↦ Fate.too_old (ground (arith, q)) old (omega (arith, d, cut))
          | inl k ↦
              elim (cap-Among (max max_count 1) x young (retain-Sorted now (age_limit days) ss h)
                k) [
                  | inl stay ↦ Fate.stays stay
                  | inr (n, newer, d) ↦ Fate.pushed_out (n, newer, omega (arith, d, cut))
                ]
        ])
    | inr q ↦ rw q (elim (cap-Among (max max_count 1) x ss h m) [
      | inl stay ↦ Fate.stays stay
      | inr out ↦ Fate.pushed_out out
    ])
  ]

-- Adding a snapshot to a manifest, for any snapshot x that is the new one or an earlier one with another
-- id: x stays; or its key is deleted, and x is older than the limit of age, or the number of snapshots
-- that stay is exactly `max_count` (one if that is zero) and none of them was created before x, by the
-- text of the times. At most that many stay, each within the limit of age if there is one. A key stands
-- as often among the snapshots that stay and the keys to delete together as among the snapshots x may be.
pub with_snapshot-keeps_newest :
    (writer_id : String) (now written_at max_count days : ℕ) (s : SnapshotMeta) (m : WalManifest)
    (x : SnapshotMeta) (k : String)
    → Among x (without_id s.id m.snapshots ++ s ∷ [])
    → let (after, deleted) = with_snapshot writer_id now written_at max_count days s m in
      Fate now max_count days x after.snapshots deleted
      × (length after.snapshots ≤ max max_count 1)
      × All (Allowed now days) after.snapshots
      × (keys_at k after.snapshots + listed k deleted
          ≡ keys_at k (without_id s.id m.snapshots ++ s ∷ []))
unfolding with_snapshot
with_snapshot-keeps_newest writer_id now written_at max_count days s m x k h =
    let candidates = without_id s.id m.snapshots ++ s ∷ [] in
    let ordered = sort_by_age candidates in
    let (counts, few) = with_snapshot-accounts writer_id now written_at max_count days s m in
    (
      rw snapshots-repoint (
          prune-Fate now max_count days x ordered (sort-Sorted candidates)
            (sort-Among x candidates h)),
      few,
      rw snapshots-repoint (prune-Allowed now max_count days ordered),
      counts k,
    )
