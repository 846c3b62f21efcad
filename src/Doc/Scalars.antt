-- ===== src/Doc/Scalars.antt =====
-- Where the scalars of a document come from after it was written at a path.
use kokoadb.Prelude.{
  String, Bool, true, false, ◌≡◌, ◌≢◌, refl, ap, sym, ◌⊎◌, List, [], ◌∷◌, ◌++◌, Option, none, some,
  str_eq, Bool-cases, Option-cases, inl, inr,
}
use kokoadb.Json.{Value, object, Fields}
use kokoadb.Doc.{
  follow, get_field, found_fields, fields_or_empty, get_key, get_at, set_at, drop_at, remove_field,
}
use kokoadb.Doc.Maps.{get-insert_self, get-insert_ne}
use kokoadb.Doc.Drops.{get-without_key}
use kokoadb.Doc.Paths.{same_key, get_at-found, some_injective}

-- A value that is no object.
unfoldable pub is_scalar : Value → Bool
is_scalar (object fs) = false
is_scalar _ = true

pub get_at-append :
    (ps qs : List String) (v : Value) → get_at (ps ++ qs) v ≡ follow (get_at ps v) (get_at qs)
unfolding get_at
get_at-append [] qs v = refl
get_at-append (p ∷ ps) qs v = elim (Option-cases (get_key p v)) [
  | inl n ↦ rw (n) refl
  | inr (x, e) ↦ rw (e) (get_at-append ps qs x)
]

pub object-not_scalar : (fs : Fields) (x : Value) → is_scalar x ≡ true → some (object fs) ≢ some x
unfolding is_scalar
object-not_scalar fs x s h = cc (rw (← some_injective h) at s)

none_not_some : {x : Value} → none ≢ some x
none_not_some h = cc

-- A path that leads to a scalar below an object that takes the place of a value led there before.
below-scalar :
    (qs : List String) (o : Option Value) (x : Value)
    → is_scalar x ≡ true
    → get_at qs (object (found_fields o)) ≡ some x
    → follow o (get_at qs) ≡ some x
unfolding get_at
below-scalar [] o x s h = absurd (object-not_scalar (found_fields o) x s h)
below-scalar (q ∷ qs) o x s h = rw (get_at-found q qs o) at h

-- A scalar of a document that was written at a path stood there before, or is of the value written.
pub set-scalar :
    (p : String) (ps qs : List String) (v x : Value) (fs : Fields)
    → is_scalar x ≡ true
    → get_at qs (object (set_at (p ∷ ps) v fs)) ≡ some x
    → (get_at qs (object fs) ≡ some x)
      ⊎ ((r : List String) × (qs ≡ (p ∷ ps) ++ r) × (get_at r v ≡ some x))
unfolding get_at set_at is_scalar
set-scalar p ps [] v x fs s h = absurd (object-not_scalar (set_at (p ∷ ps) v fs) x s h)
set-scalar p [] (q ∷ qs) v x fs s h = elim (Bool-cases (str_eq p q)) [
  | inl e ↦ inr (
    qs,
    ap (λ k. k ∷ qs) (sym (same_key p q e)),
    rw (← same_key p q e, get_at, get-insert_self p v fs) at h,
  )
  | inr e ↦ inl (rw (get_at, get-insert_ne q p v fs e) at h)
]
set-scalar p (t ∷ ps) (q ∷ qs) v x fs s h =
    let inner = object (set_at (t ∷ ps) v (found_fields (get_field p fs))) in
    elim (Bool-cases (str_eq p q)) [
      | inl e ↦
          let deep = rw (← same_key p q e, get_at, get-insert_self p inner fs) at h in
          elim (set-scalar t ps qs v x (found_fields (get_field p fs)) s deep) [
            | inl k ↦ inl (rw (← same_key p q e) (below-scalar qs (get_field p fs) x s k))
            | inr (r, at_r, g) ↦ inr (r, cc (same_key p q e), g)
          ]
      | inr e ↦ inl (rw (get_at, get-insert_ne q p inner fs e) at h)
    ]

-- A scalar of a document from which a path was dropped stood there before.
pub drop-scalar :
    (ps qs : List String) (v x : Value)
    → is_scalar x ≡ true
    → get_at qs (drop_at ps v) ≡ some x
    → get_at qs v ≡ some x
unfolding get_at drop_at
drop-scalar [] qs v x s h = h
drop-scalar (p ∷ []) [] (object fs) x s h = absurd (object-not_scalar (remove_field p fs) x s h)
drop-scalar (p ∷ []) [] v x s h = h
drop-scalar (p ∷ []) (q ∷ qs) v x s h = elim (Bool-cases (str_eq p q)) [
  | inl e ↦ absurd (none_not_some (rw (get_at, get-without_key p q v, e) at h))
  | inr e ↦ rw (get_at, get-without_key p q v, e) at h
]
drop-scalar (p ∷ t ∷ ps) [] v x s h = elim (Option-cases (get_key p v)) [
  | inl n ↦ rw n at h
  | inr (w, e) ↦ absurd (object-not_scalar _ x s (rw e at h))
]
drop-scalar (p ∷ t ∷ ps) (q ∷ qs) v x s h = elim (Option-cases (get_key p v)) [
  | inl n ↦ rw n at h
  | inr (w, e) ↦ elim (Bool-cases (str_eq p q)) [
    | inl same ↦
        let deep =
          rw
            (
              e,
              ← same_key p q same,
              get_at,
              get-insert_self p (drop_at (t ∷ ps) w) (fields_or_empty v),
            )
            at h in
        rw (← same_key p q same, e) (drop-scalar (t ∷ ps) qs w x s deep)
    | inr other ↦
        rw (e, get_at, get-insert_ne q p (drop_at (t ∷ ps) w) (fields_or_empty v) other) at h
  ]
]
