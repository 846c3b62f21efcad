-- ===== src/Wal/Manifest/Snapshots.antt =====
-- src/storage/s3_wal/replicator.rs: what `upsert_snapshot` does to the snapshots of a manifest.
use Prim.Native.Nat.{max}
use mathlib.Core.List.{Memᴰ}
use mathlib.Core.Path.{subst}
use kokoadb.Prelude.{
  ℕ, suc, ◌+◌, ◌≤◌, String, ◌≡◌, refl, sym, ◌∙◌, ap, ◌⊎◌, inl, inr, Bool, List, [], ◌∷◌, ◌++◌, none,
  some, arith, length, ltb, str_eq, eq_iff, if◌then◌else◌, Bool-cases, Option-cases,
}
use kokoadb.Wal.{WalManifest, SnapshotMeta}
use kokoadb.Wal.Manifest.{
  without_id, insert_by_age, sort_by_age, is_young, retain_young, cap_snapshots, find_id,
  last_snapshot, point_at, repoint, prune, with_snapshot, age_limit,
}

-- How many snapshots have an id, and how often a key is listed.
abbrev occurrence : Bool → ℕ
occurrence b = if b then 1 else 0

abbrev pub keys_at : String → List SnapshotMeta → ℕ
keys_at k [] = 0
keys_at k (s ∷ ss) = occurrence (str_eq s.object_key k) + keys_at k ss

abbrev pub listed : String → List String → ℕ
listed k [] = 0
listed k (j ∷ js) = occurrence (str_eq j k) + listed k js

pub listed-append :
    (k : String) (xs ys : List String) → listed k (xs ++ ys) ≡ listed k xs + listed k ys
listed-append k [] ys = omega arith
listed-append k (x ∷ xs) ys = omega (arith, listed-append k xs ys)

keys_at-insert :
    (k : String) (s : SnapshotMeta) (ss : List SnapshotMeta)
    → keys_at k (insert_by_age s ss) ≡ keys_at k (s ∷ ss)
unfolding insert_by_age
keys_at-insert k s [] = refl
keys_at-insert k s (t ∷ ts) = ground (arith, keys_at-insert k s ts)

keys_at-sort : (k : String) (ss : List SnapshotMeta) → keys_at k (sort_by_age ss) ≡ keys_at k ss
unfolding sort_by_age
keys_at-sort k [] = refl
keys_at-sort k (s ∷ ss) = omega (arith, keys_at-insert k s (sort_by_age ss), keys_at-sort k ss)

retain_young-keys :
    (now limit : ℕ) (k : String) (ss : List SnapshotMeta)
    → keys_at k (retain_young now limit ss).0 + listed k (retain_young now limit ss).1
      ≡ keys_at k ss
unfolding retain_young
retain_young-keys now limit k [] = refl
retain_young-keys now limit k (s ∷ ss) = elim (Bool-cases (is_young now limit s)) [
  | inl q ↦ rw (q) (omega (arith, retain_young-keys now limit k ss))
  | inr q ↦ rw (q) (omega (arith, retain_young-keys now limit k ss))
]

cap_snapshots-keys :
    (capped : ℕ) (k : String) (ss : List SnapshotMeta)
    → keys_at k (cap_snapshots capped ss).0 + listed k (cap_snapshots capped ss).1 ≡ keys_at k ss
unfolding cap_snapshots
cap_snapshots-keys capped k [] = refl
cap_snapshots-keys capped k (s ∷ ss) = elim (Bool-cases (ltb capped (suc (length ss)))) [
  | inl q ↦ rw (q) (omega (arith, cap_snapshots-keys capped k ss))
  | inr q ↦ rw (q) (omega arith)
]

pub length-cap_snapshots :
    (capped : ℕ) (ss : List SnapshotMeta) → length (cap_snapshots capped ss).0 ≤ capped
unfolding cap_snapshots
length-cap_snapshots capped [] = omega arith
length-cap_snapshots capped (s ∷ ss) = ground (arith, length-cap_snapshots capped ss)

prune-keys :
    (now max_count days : ℕ) (k : String) (ss : List SnapshotMeta)
    → keys_at k (prune now max_count days ss).0 + listed k (prune now max_count days ss).1
      ≡ keys_at k ss
unfolding prune
prune-keys now max_count days k ss = elim (Bool-cases (ltb 0 (age_limit days))) [
  | inl q ↦
      let (young, old_keys) = retain_young now (age_limit days) ss in
      rw q (
        omega (
          arith,
          listed-append k old_keys (cap_snapshots (max max_count 1) young).1,
          retain_young-keys now (age_limit days) k ss,
          cap_snapshots-keys (max max_count 1) k young,
        ))
  | inr q ↦ rw q (cap_snapshots-keys (max max_count 1) k ss)
]

length-prune :
    (now max_count days : ℕ) (ss : List SnapshotMeta)
    → length (prune now max_count days ss).0 ≤ max max_count 1
unfolding prune
length-prune now max_count days ss = elim (Bool-cases (ltb 0 (age_limit days))) [
  | inl q ↦ rw q (length-cap_snapshots (max max_count 1) (retain_young now (age_limit days) ss).0)
  | inr q ↦ rw q (length-cap_snapshots (max max_count 1) ss)
]

pub snapshots-repoint : (m : WalManifest) → (repoint m).snapshots ≡ m.snapshots
unfolding repoint
snapshots-repoint m = ground arith

segments-repoint :
    (m : WalManifest)
    → ((repoint m).segments ≡ m.segments)
      × ((repoint m).applied_seq ≡ m.applied_seq)
      × ((repoint m).compaction_watermark ≡ m.compaction_watermark)
unfolding repoint
segments-repoint m = ground arith

find_id-mem :
    (id : String) (ss : List SnapshotMeta) (x : SnapshotMeta)
    → find_id id ss ≡ some x
    → Memᴰ x ss × (x.id ≡ id)
unfolding find_id
find_id-mem id [] x h = cc
find_id-mem id (s ∷ ss) x h = elim (Bool-cases (str_eq s.id id)) [
  | inl q ↦
      let e : s ≡ x = ground arith in
      (Memᴰ.head (sym e), ap (λ y. y.id) (sym e) ∙ (eq_iff s.id id).0 q)
  | inr q ↦ let (m, e) = find_id-mem id ss x (ground arith) in (Memᴰ.tail m, e)
]

last_snapshot-mem :
    (ss : List SnapshotMeta) (x : SnapshotMeta) → last_snapshot ss ≡ some x → Memᴰ x ss
unfolding last_snapshot
last_snapshot-mem [] x h = cc
last_snapshot-mem (s ∷ []) x h = Memᴰ.head (ground arith)
last_snapshot-mem (s ∷ t ∷ ss) x h = Memᴰ.tail (last_snapshot-mem (t ∷ ss) x h)

last_snapshot-none : (ss : List SnapshotMeta) → last_snapshot ss ≡ none → ss ≡ []
unfolding last_snapshot
last_snapshot-none [] h = refl
last_snapshot-none (s ∷ []) h = cc
last_snapshot-none (s ∷ t ∷ ss) h = cc (last_snapshot-none (t ∷ ss) h)

-- The current snapshot of a manifest is one of its snapshots, with its key, or there is none at all.
abbrev pub IsPointed : WalManifest → Type 0
IsPointed m =
    ((m.current_snapshot_id ≡ none) × (m.snapshots ≡ []))
    ⊎ ((x : SnapshotMeta) × Memᴰ x m.snapshots
        × (m.current_snapshot_id ≡ some x.id)
        × (m.current_snapshot_key ≡ some x.object_key))

repoint-IsPointed :
    (m : WalManifest) (id : String) → m.current_snapshot_id ≡ some id → IsPointed (repoint m)
unfolding repoint
repoint-IsPointed m id h = elim (Option-cases (find_id id m.snapshots)) [
  | inr (x, e) ↦
      let (mem, same) = find_id-mem id m.snapshots x e in
      let eq : repoint m ≡ record m { current_snapshot_key = some x.object_key } = ground arith in
      subst IsPointed (sym eq) (inr (x, mem, cc (h, same), refl))
  | inl e ↦ elim (Option-cases (last_snapshot m.snapshots)) [
    | inr (x, f) ↦
        let eq : repoint m ≡ point_at (some x) m = ground arith in
        subst IsPointed (sym eq) (inr (x, last_snapshot-mem m.snapshots x f, refl, refl))
    | inl f ↦
        let eq : repoint m ≡ point_at none m = ground arith in
        subst IsPointed (sym eq) (inl (refl, last_snapshot-none m.snapshots f))
  ]
]

module _ (writer_id : String) (now written_at max_count days : ℕ) (s : SnapshotMeta)
    (m : WalManifest) where
  abbrev result : WalManifest × List String
  result = with_snapshot writer_id now written_at max_count days s m

  -- A key stands as often among the snapshots that are kept and the keys to delete as among the earlier
  -- snapshots with another id and the new one. At most `max_count` snapshots are kept, or one if that is zero.
  pub with_snapshot-accounts :
      ((k : String)
        → keys_at k result.0.snapshots + listed k result.1
          ≡ keys_at k (without_id s.id m.snapshots ++ s ∷ []))
      × (length result.0.snapshots ≤ max max_count 1)
  unfolding with_snapshot
  with_snapshot-accounts =
      let ordered = sort_by_age (without_id s.id m.snapshots ++ s ∷ []) in
      (
        λ k. rw snapshots-repoint (prune-keys now max_count days k ordered ∙ keys_at-sort k _),
        rw snapshots-repoint (length-prune now max_count days ordered),
      )

  -- After a snapshot is added the current snapshot is among those that are kept, with its key, or no
  -- snapshot is left and there is no current one.
  pub with_snapshot-IsPointed : IsPointed result.0
  unfolding with_snapshot
  with_snapshot-IsPointed = repoint-IsPointed _ s.id refl

  -- Adding a snapshot changes nothing of the log.
  pub with_snapshot-log :
      (result.0.segments ≡ m.segments)
      × (result.0.applied_seq ≡ m.applied_seq)
      × (result.0.compaction_watermark ≡ m.compaction_watermark)
  unfolding with_snapshot
  with_snapshot-log = segments-repoint _
