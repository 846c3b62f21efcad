-- ===== src/Wal/Keys/Laws.antt =====
-- src/storage/s3_wal/replicator.rs: relative keys of relative keys.
use mathlib.Core.Path.{subst}
use kokoadb.Prelude.{String, none, some, ◌≡◌, refl, arith, Option-cases, inl, inr}
use kokoadb.Wal.Keys.{from_last, trim_slashes, relative_object_key}

from_last-empty : (marker t : String) → from_last marker "" ≡ some t → "" ≡ t
unfolding from_last
from_last-empty marker t h = ground arith

from_last_idem : (marker s t : String) → from_last marker s ≡ some t → from_last marker t ≡ some t
unfolding from_last
from_last_idem marker String.[] t h =
    subst (λ x. from_last marker x ≡ some t) (from_last-empty marker t h) h
from_last_idem marker (String.◌∷◌ c s) t h = elim (Option-cases (from_last marker s)) [
  | inl e ↦ ground (arith, e)
  | inr (u, e) ↦ ground (arith, e, from_last_idem marker s t)
]

-- A marker that does not stand in a text does not stand in what another marker cuts from it.
from_last-none :
    (a b s t : String) → from_last a s ≡ none → from_last b s ≡ some t → from_last a t ≡ none
unfolding from_last
from_last-none a b String.[] t h k = subst (λ x. from_last a x ≡ none) (from_last-empty b t k) h
from_last-none a b (String.◌∷◌ c s) t h k = elim (Option-cases (from_last b s)) [
  | inl e ↦ ground (arith, e)
  | inr (u, e) ↦ elim (Option-cases (from_last a s)) [
    | inl f ↦ ground (arith, e, f, from_last-none a b s t)
    | inr (w, f) ↦ ground (arith, f)
  ]
]

trim-none : (a s : String) → from_last a s ≡ none → from_last a (trim_slashes s) ≡ none
unfolding trim_slashes from_last
trim-none a String.[] h = h
trim-none a (String.◌∷◌ c s) h = elim (Option-cases (from_last a s)) [
  | inl f ↦ ground (arith, f, trim-none a s f)
  | inr (w, f) ↦ ground (arith, f)
]

trim_idem : (s : String) → trim_slashes (trim_slashes s) ≡ trim_slashes s
unfolding trim_slashes
trim_idem String.[] = refl
trim_idem (String.◌∷◌ c s) = ground (arith, trim_idem s)

-- Taking the relative key of a relative key changes nothing.
pub relative_object_key_idem :
    (key : String) → relative_object_key (relative_object_key key) ≡ relative_object_key key
unfolding relative_object_key
relative_object_key_idem key = elim (Option-cases (from_last "snapshots/" key)) [
  | inr (t, e) ↦
      rw (e, relative_object_key) (rw (from_last_idem "snapshots/" key t e, relative_object_key))
  | inl e ↦ elim (Option-cases (from_last "wal/" key)) [
    | inr (t, f) ↦
        ground (arith, from_last-none "snapshots/" "wal/" key t e f, from_last_idem "wal/" key t f)
    | inl f ↦ ground (arith, trim-none "snapshots/" key e, trim-none "wal/" key f, trim_idem key)
  ]
]
