-- ===== src/Wal/Manifest/Retention.antt =====
-- src/storage/s3_wal/replicator.rs: which snapshots `upsert_snapshot` keeps.
use Prim.Native.String.{compare}
use text.Mathlib.Text.{is_le}
use mathlib.Core.Path.{subst}
use kokoadb.Prelude.{
  ℕ, suc, ◌-◌, ◌≤◌, ◌<◌, String, ◌≡◌, ap, ◌⊎◌, inl, inr, true, false, List, [], ◌∷◌, arith, length,
  ltb, eq_iff, Bool-cases, All,
}
use kokoadb.Decimal
use kokoadb.Text.Order.{text_le_total, text_le_trans}
use kokoadb.Wal.{SnapshotMeta}
use kokoadb.Wal.Manifest.{
  insert_by_age, sort_by_age, is_young, retain_young, cap_snapshots, unwrap_or,
}
use kokoadb.Wal.Manifest.Snapshots.{listed}

-- Created no later, by the order of the texts of the times.
abbrev pub NoLater : SnapshotMeta → SnapshotMeta → Type 0
NoLater s t = is_le (compare s.created_at t.created_at) ≡ true

-- A key is listed that was put first.
found_first :
    (x s : SnapshotMeta) → s ≡ x → (ks : List String) → 0 < listed x.object_key (s.object_key ∷ ks)
found_first x s e ks =
    ground (arith, (eq_iff s.object_key x.object_key).1 (ap (λ y. y.object_key) e))

abbrev pub Sorted : List SnapshotMeta → Type 0
Sorted [] = Unit
Sorted (s ∷ ss) = All (NoLater s) ss × Sorted ss

All-insert :
    (P : SnapshotMeta → Type 0) (s : SnapshotMeta) (ss : List SnapshotMeta)
    → P s
    → All P ss
    → All P (insert_by_age s ss)
unfolding insert_by_age
All-insert P s [] p h = (p, tt)
All-insert P s (t ∷ ts) p h = elim (Bool-cases (is_le (compare s.created_at t.created_at))) [
  | inl q ↦ rw q (p, h)
  | inr q ↦ rw q (h.0, All-insert P s ts p h.1)
]

All-later :
    (s t : SnapshotMeta) (ss : List SnapshotMeta)
    → NoLater s t
    → All (NoLater t) ss
    → All (NoLater s) ss
All-later s t [] h k = tt
All-later s t (u ∷ us) h k =
    (text_le_trans s.created_at t.created_at u.created_at h k.0, All-later s t us h k.1)

insert-Sorted :
    (s : SnapshotMeta) (ss : List SnapshotMeta) → Sorted ss → Sorted (insert_by_age s ss)
unfolding insert_by_age
insert-Sorted s [] h = (tt, tt)
insert-Sorted s (t ∷ ts) h = elim (Bool-cases (is_le (compare s.created_at t.created_at))) [
  | inl q ↦ rw q ((q, All-later s t ts q h.0), h)
  | inr q ↦ rw q (
    All-insert (NoLater t) s ts (text_le_total s.created_at t.created_at q) h.0,
    insert-Sorted s ts h.1,
  )
]

pub sort-Sorted : (ss : List SnapshotMeta) → Sorted (sort_by_age ss)
unfolding sort_by_age
sort-Sorted [] = tt
sort-Sorted (s ∷ ss) = insert-Sorted s (sort_by_age ss) (sort-Sorted ss)

-- A snapshot is one of the list.
abbrev pub Among : SnapshotMeta → List SnapshotMeta → Type 0
Among x [] = ⊥
Among x (s ∷ ss) = (s ≡ x) ⊎ Among x ss

insert-Among :
    (x s : SnapshotMeta) (ss : List SnapshotMeta) → Among x (s ∷ ss) → Among x (insert_by_age s ss)
unfolding insert_by_age
insert-Among x s [] h = h
insert-Among x s (t ∷ ts) h = elim (Bool-cases (is_le (compare s.created_at t.created_at))) [
  | inl q ↦ rw q h
  | inr q ↦ rw q (elim h [
    | inl e ↦ inr (insert-Among x s ts (inl e))
    | inr rest ↦ elim rest [ inl e ↦ inl e | inr m ↦ inr (insert-Among x s ts (inr m)) ]
  ])
]

pub sort-Among : (x : SnapshotMeta) (ss : List SnapshotMeta) → Among x ss → Among x (sort_by_age ss)
unfolding sort_by_age
sort-Among x [] h = h
sort-Among x (s ∷ ss) (inl e) = insert-Among x s (sort_by_age ss) (inl e)
sort-Among x (s ∷ ss) (inr m) = insert-Among x s (sort_by_age ss) (inr (sort-Among x ss m))

-- The age of a snapshot: zero if its time is not a number or lies ahead.
abbrev pub age : ℕ → SnapshotMeta → ℕ
age now s = now - unwrap_or (Decimal.parse s.created_at) now

is_young-age : (now limit : ℕ) (s : SnapshotMeta) → is_young now limit s ≡ true → age now s ≤ limit
unfolding is_young
is_young-age now limit s h = ground (arith, h)

not_young-age :
    (now limit : ℕ) (s : SnapshotMeta) → is_young now limit s ≡ false → limit < age now s
unfolding is_young
not_young-age now limit s h = ground (arith, h)

module _ (now limit : ℕ) where
  All-retain :
      (P : SnapshotMeta → Type 0) (ss : List SnapshotMeta)
      → All P ss
      → All P (retain_young now limit ss).0
  unfolding retain_young
  All-retain P [] h = tt
  All-retain P (s ∷ ss) h = elim (Bool-cases (is_young now limit s)) [
    | inl q ↦ rw q (h.0, All-retain P ss h.1)
    | inr q ↦ rw q (All-retain P ss h.1)
  ]

  pub retain-Sorted : (ss : List SnapshotMeta) → Sorted ss → Sorted (retain_young now limit ss).0
  unfolding retain_young
  retain-Sorted [] h = tt
  retain-Sorted (s ∷ ss) h = elim (Bool-cases (is_young now limit s)) [
    | inl q ↦ rw q (All-retain (NoLater s) ss h.0, retain-Sorted ss h.1)
    | inr q ↦ rw q (retain-Sorted ss h.1)
  ]

  pub retain-young :
      (ss : List SnapshotMeta) → All (λ y. age now y ≤ limit) (retain_young now limit ss).0
  unfolding retain_young
  retain-young [] = tt
  retain-young (s ∷ ss) = elim (Bool-cases (is_young now limit s)) [
    | inl q ↦ rw q (is_young-age now limit s q, retain-young ss)
    | inr q ↦ rw q (retain-young ss)
  ]

  pub retain-Among :
      (x : SnapshotMeta) (ss : List SnapshotMeta)
      → Among x ss
      → Among x (retain_young now limit ss).0
        ⊎ ((limit < age now x) × (0 < listed x.object_key (retain_young now limit ss).1))
  unfolding retain_young
  retain-Among x [] h = absurd h
  retain-Among x (s ∷ ss) (inl e) = elim (Bool-cases (is_young now limit s)) [
    | inl q ↦ rw q (inl (inl e))
    | inr q ↦ rw q (
        inr (
          subst (λ y. limit < age now y) e (not_young-age now limit s q),
          found_first x s e (retain_young now limit ss).1,
        ))
  ]
  retain-Among x (s ∷ ss) (inr m) = elim (Bool-cases (is_young now limit s)) [
    | inl q ↦ rw q (elim (retain-Among x ss m) [ inl k ↦ inl (inr k) | inr d ↦ inr d ])
    | inr q ↦
        rw q (elim (retain-Among x ss m) [
          | inl k ↦ inl k
          | inr (old, d) ↦ inr (old, omega (arith, d))
        ])
  ]

module _ (capped : ℕ) where
  pub All-cap :
      (P : SnapshotMeta → Type 0) (ss : List SnapshotMeta)
      → All P ss
      → All P (cap_snapshots capped ss).0
  unfolding cap_snapshots
  All-cap P [] h = tt
  All-cap P (s ∷ ss) h = elim (Bool-cases (ltb capped (suc (length ss)))) [
    | inl q ↦ rw q (All-cap P ss h.1)
    | inr q ↦ rw q h
  ]

  length-cap :
      (ss : List SnapshotMeta) → capped ≤ length ss → length (cap_snapshots capped ss).0 ≡ capped
  unfolding cap_snapshots
  length-cap [] h = omega arith
  length-cap (s ∷ ss) h = elim (Bool-cases (ltb capped (suc (length ss)))) [
    | inl q ↦ rw q (length-cap ss (ground (arith, q)))
    | inr q ↦ rw q (ground (arith, q, h))
  ]

  -- Pushed out: the key is deleted, and as many are kept as may be, none of them older.
  abbrev pub PushedOut : SnapshotMeta → List SnapshotMeta → List String → Type 0
  PushedOut x kept deleted =
      (length kept ≡ capped) × All (NoLater x) kept × (0 < listed x.object_key deleted)

  pub cap-Among :
      (x : SnapshotMeta) (ss : List SnapshotMeta)
      → Sorted ss
      → Among x ss
      → Among x (cap_snapshots capped ss).0
        ⊎ PushedOut x (cap_snapshots capped ss).0 (cap_snapshots capped ss).1
  unfolding cap_snapshots
  cap-Among x [] h m = absurd m
  cap-Among x (s ∷ ss) h (inl e) = elim (Bool-cases (ltb capped (suc (length ss)))) [
    | inl q ↦ rw q (
        inr (
          length-cap ss (ground (arith, q)),
          All-cap (NoLater x) ss (subst (λ y. All (NoLater y) ss) e h.0),
          found_first x s e (cap_snapshots capped ss).1,
        ))
    | inr q ↦ rw q (inl (inl e))
  ]
  cap-Among x (s ∷ ss) h (inr m) = elim (Bool-cases (ltb capped (suc (length ss)))) [
    | inl q ↦ rw q (elim (cap-Among x ss h.1 m) [
      | inl k ↦ inl k
      | inr (n, newer, d) ↦ inr (n, newer, omega (arith, d))
    ])
    | inr q ↦ rw q (inl (inr m))
  ]
