-- ===== src/Doc/Drops.antt =====
-- What stands at a path of a document after a path was dropped from it.
use kokoadb.Prelude.{
  String, true, ◌≡◌, refl, List, [], ◌∷◌, none, arith, str_eq, eq_iff, if◌then◌else◌, Bool-cases,
  Option-cases, inl, inr,
}
use kokoadb.Json.{Value, object}
use kokoadb.Doc.{get_field, fields_or_empty, get_key, get_at, drop_at, without_key}
use kokoadb.Doc.Maps.{get-insert_self, get-insert_ne, get-remove}
use kokoadb.Doc.Paths.{apart, changed-apart, same_key}

-- Without a key, an object has every other field.
pub get-without_key :
    (p q : String) (v : Value)
    → get_key q (without_key p v) ≡ (if str_eq p q then none else get_key q v)
unfolding get_field
get-without_key p q (object fs) = get-remove q p fs
get-without_key p q _ = ground arith

pub get-drop_at :
    (p : String) (ps : List String) (v : Value) → get_at (p ∷ ps) (drop_at (p ∷ ps) v) ≡ none
unfolding get_at drop_at
get-drop_at p [] v = rw (get_at, get-without_key p p v, (eq_iff p p).1 refl) refl
get-drop_at p (t ∷ ps) v = elim (Option-cases (get_key p v)) [
  | inl n ↦ rw (n, get_at, n) refl
  | inr (x, e) ↦
      rw (e, get_at, get-insert_self p (drop_at (t ∷ ps) x) (fields_or_empty v))
        (get-drop_at t ps x)
]

pub get-drop_apart :
    (ps qs : List String) (v : Value) → apart ps qs ≡ true → get_at qs (drop_at ps v) ≡ get_at qs v
unfolding get_at drop_at apart
get-drop_apart [] qs v h = cc
get-drop_apart (p ∷ ps) [] v h = cc
get-drop_apart (p ∷ []) (q ∷ qs) v h = elim (Bool-cases (str_eq p q)) [
  | inl e ↦ absurd (ground (arith, e, h))
  | inr e ↦ rw (get_at, get-without_key p q v, e) refl
]
get-drop_apart (p ∷ t ∷ ps) (q ∷ qs) v h =
    changed-apart p q qs (drop_at (t ∷ ps)) v (λ e x. get-drop_apart (t ∷ ps) qs x (ground arith))

-- Where a document has nothing, it has nothing after a drop.
pub drop-keeps_none :
    (ps qs : List String) (v : Value) → get_at qs v ≡ none → get_at qs (drop_at ps v) ≡ none
unfolding get_at drop_at
drop-keeps_none ps [] v h = cc
drop-keeps_none [] (q ∷ qs) v h = h
drop-keeps_none (p ∷ []) (q ∷ qs) v h = elim (Bool-cases (str_eq p q)) [
  | inl e ↦ rw (get_at, get-without_key p q v, e) refl
  | inr e ↦ rw (get_at, get-without_key p q v, e) h
]
drop-keeps_none (p ∷ t ∷ ps) (q ∷ qs) v h = elim (Option-cases (get_key p v)) [
  | inl n ↦ rw n h
  | inr (x, e) ↦ elim (Bool-cases (str_eq p q)) [
    | inl same ↦
        rw
          (
            e,
            ← same_key p q same,
            get_at,
            get-insert_self p (drop_at (t ∷ ps) x) (fields_or_empty v),
          )
          (drop-keeps_none (t ∷ ps) qs x (rw (← same_key p q same, e) at h))
    | inr other ↦ rw (e, get_at, get-insert_ne q p (drop_at (t ∷ ps) x) (fields_or_empty v) other) h
  ]
]
