-- ===== src/Wal/Store/Memory.antt =====
-- An object store in memory and documents that are not encoded: a model of the laws that the
-- replicator's theorems assume.
use mathlib.Core.Path.{subst}
use text.Mathlib.TextPositions.{eq_refl}
use kokoadb.Prelude.{
  ℕ, suc, String, ◌≡◌, refl, ap, ◌≢◌, List, [], ◌∷◌, Option, none, some, arith, str_eq, eq_iff,
  if◌then◌else◌, Bool-cases, inl, inr,
}
use kokoadb.Error.{AppResult, ok, err, conflict}
use kokoadb.Decimal
use kokoadb.Wal.{WriterLease, WalSegment, WalManifest}
use kokoadb.Wal.Store.{ObjectStore, Codec, StoreLaws, CodecLaws}

pub data Document : Type 0 where
  lease : WriterLease → Document
  manifest : WalManifest → Document
  segment : WalSegment → Document

pub record Objects : Type 0 where
  pub entries : List (String × (Document × String))
  pub version : ℕ

abbrev lookup : String → List (String × (Document × String)) → Option (Document × String)
lookup k [] = none
lookup k ((j, v) ∷ rest) = if str_eq j k then some v else lookup k rest

abbrev store : String → Document → Objects → AppResult String × Objects
store k d o = (
  ok (Decimal.show o.version),
  record { entries = (k, (d, Decimal.show o.version)) ∷ o.entries; version = suc o.version },
)

abbrev store_if :
    Option (Document × String) → String → Document → String → Objects → AppResult String × Objects
store_if none k d etag o = (err (conflict "no such object"), o)
store_if (some (old, current)) k d etag o =
    if str_eq current etag then store k d o else (err (conflict "etag mismatch"), o)

abbrev store_match : String → Document → Option String → Objects → AppResult String × Objects
store_match k d none o = store k d o
store_match k d (some etag) o = store_if (lookup k o.entries) k d etag o

abbrev pub memory : ObjectStore
memory = record {
  State = Objects;
  Bytes = Document;
  get = λ k o. ok (lookup k o.entries);
  put = store;
  put_if_match = store_match;
}

abbrev as_lease : Document → Option WriterLease
as_lease (lease l) = some l
as_lease _ = none

abbrev as_manifest : Document → Option WalManifest
as_manifest (manifest m) = some m
as_manifest _ = none

abbrev as_segment : Document → Option WalSegment
as_segment (segment g) = some g
as_segment _ = none

abbrev pub plain : Codec Document
plain = record {
  encode_lease = lease;
  decode_lease = as_lease;
  encode_manifest = λ m. manifest (record m { current_snapshot_key = none });
  decode_manifest = as_manifest;
  encode_segment = segment;
  decode_segment = as_segment;
  size = λ d. 1;
}

pub plain_laws : CodecLaws plain
plain_laws = record {
  decode-encode_lease = λ l. refl;
  decode-encode_manifest = λ m. refl;
  decode-encode_segment = λ g. refl;
}

ok_injective : {A : Type 0} {a b : A} → ok a ≡ ok b → a ≡ b
ok_injective h = cc

lookup-store :
    (k e : String) (d : Document) (s t : Objects)
    → store k d s ≡ (ok e, t)
    → ok (lookup k t.entries) ≡ ok (some (d, e))
lookup-store k e d s t h =
    let etag : Decimal.show s.version ≡ e = ok_injective (ap (λ p. p.0) h) in
    subst (λ (u : Objects). ok (lookup k u.entries) ≡ ok (some (d, e))) (ap (λ p. p.1) h)
      (rw (eq_refl k) (ap (λ x. ok (some (d, x))) etag))

lookup-store_ne :
    (k j : String) (d : Document) (s : Objects)
    → k ≢ j
    → ok (lookup j (store k d s).1.entries) ≡ ok (lookup j s.entries)
lookup-store_ne k j d s h = ground (arith, eq_iff k j)

-- A conditional put that succeeds was an unconditional one, on the etag that was stored.
store_if-ok :
    (o : Option (Document × String)) (k e etag : String) (d : Document) (s t : Objects)
    → store_if o k d etag s ≡ (ok e, t)
    → (old : Document) × (o ≡ some (old, etag)) × (store k d s ≡ (ok e, t))
store_if-ok none k e etag d s t h = cc (ap (λ p. p.0) h)
store_if-ok (some (old, current)) k e etag d s t h = elim (Bool-cases (str_eq current etag)) [
  | inl q ↦ (old, ap (λ x. some (old, x)) ((eq_iff current etag).0 q), rw q at h)
  | inr q ↦ cc (ap (λ p. p.0) (rw q at h))
]

store_match-ok :
    (k e : String) (d : Document) (m : Option String) (s t : Objects)
    → store_match k d m s ≡ (ok e, t)
    → store k d s ≡ (ok e, t)
store_match-ok k e d none s t h = h
store_match-ok k e d (some etag) s t h = (store_if-ok (lookup k s.entries) k e etag d s t h).2

store_if-ne :
    (o : Option (Document × String)) (k j etag : String) (d : Document) (s : Objects)
    → k ≢ j
    → ok (lookup j (store_if o k d etag s).1.entries) ≡ ok (lookup j s.entries)
store_if-ne none k j etag d s h = refl
store_if-ne (some (old, current)) k j etag d s h = elim (Bool-cases (str_eq current etag)) [
  | inl q ↦ rw q (lookup-store_ne k j d s h)
  | inr q ↦ rw q
]

store_match-ne :
    (k j : String) (d : Document) (m : Option String) (s : Objects)
    → k ≢ j
    → ok (lookup j (store_match k d m s).1.entries) ≡ ok (lookup j s.entries)
store_match-ne k j d none s h = lookup-store_ne k j d s h
store_match-ne k j d (some etag) s h = store_if-ne (lookup k s.entries) k j etag d s h

store_match-etag :
    (k e etag : String) (d : Document) (s t : Objects)
    → store_match k d (some etag) s ≡ (ok e, t)
    → (old : Document) × (ok (lookup k s.entries) ≡ ok (some (old, etag)))
store_match-etag k e etag d s t h =
    let (old, found, _) = store_if-ok (lookup k s.entries) k e etag d s t h in (old, ap ok found)

pub memory_laws : StoreLaws memory
memory_laws = record {
  get-put = λ k e b s t h. lookup-store k e b s t h;
  get-put_ne = λ k j b s h. lookup-store_ne k j b s h;
  get-put_if_match = λ k e b m s t h. lookup-store k e b s t (store_match-ok k e b m s t h);
  get-put_if_match_ne = λ k j b m s h. store_match-ne k j b m s h;
  put_if_match-etag = λ k e etag b s t h. store_match-etag k e etag b s t h;
}
