-- ===== src/Doc/Paths.antt =====
-- What stands at a path of a document after it was written, dropped or updated at a path.
use kokoadb.Prelude.{
  String, Bool, true, false, not, ◌||◌, ◌≡◌, refl, ap, ◌∙◌, List, [], ◌∷◌, Option, none, some,
  arith, str_eq, eq_iff, Bool-cases, Option-cases, inl, inr,
}
use kokoadb.Json.{Value, object, Fields}
use kokoadb.Doc.{
  follow, change_field, get_field, found_fields, fields_or_empty, get_key, get_at, set_at,
  update_at,
}
use kokoadb.Doc.Maps.{get-insert_self, get-insert_ne}

-- Neither path leads to a part of what the other leads to.
unfoldable pub apart : List String → List String → Bool
apart [] qs = false
apart (p ∷ ps) [] = false
apart (p ∷ ps) (q ∷ qs) = not (str_eq p q) || apart ps qs

pub get-set_at :
    (s : String) (rest : List String) (v : Value) (fs : Fields)
    → get_at (s ∷ rest) (object (set_at (s ∷ rest) v fs)) ≡ some v
unfolding get_at set_at
get-set_at s [] v fs = rw (get_at, get-insert_self s v fs) refl
get-set_at s (t ∷ rest) v fs =
    rw (get_at, get-insert_self s (object (set_at (t ∷ rest) v (found_fields (get_field s fs)))) fs)
      (get-set_at t rest v (found_fields (get_field s fs)))

-- Below an object that takes the place of a value, a path leads where it led before.
pub get_at-found :
    (q : String) (qs : List String) (o : Option Value)
    → get_at (q ∷ qs) (object (found_fields o)) ≡ follow o (get_at (q ∷ qs))
unfolding get_at get_field
get_at-found q qs none = refl
get_at-found q qs (some w) = refl

-- Two paths that begin with equal keys.
pub same_key : (p q : String) → str_eq p q ≡ true → p ≡ q
same_key p q e = (eq_iff p q).0 e

pub get_at-below :
    (ps qs : List String) (o : Option Value)
    → apart ps qs ≡ true
    → get_at qs (object (found_fields o)) ≡ follow o (get_at qs)
unfolding apart
get_at-below [] qs o h = cc
get_at-below (p ∷ ps) [] o h = cc
get_at-below (p ∷ ps) (q ∷ qs) o h = get_at-found q qs o

pub some_injective : {A : Type 0} {a b : A} → some a ≡ some b → a ≡ b
some_injective h = cc

-- What is changed under one key is not seen by a path that the change respects.
pub changed-apart :
    (p q : String) (qs : List String) (f : Value → Value) (v : Value)
    → (str_eq p q ≡ true → (x : Value) → get_at qs (f x) ≡ get_at qs x)
    → get_at (q ∷ qs) (change_field v p f (get_key p v)) ≡ get_at (q ∷ qs) v
unfolding get_at
changed-apart p q qs f v keep = elim (Option-cases (get_key p v)) [
  | inl n ↦ rw n refl
  | inr (x, e) ↦ elim (Bool-cases (str_eq p q)) [
    | inl same ↦
        rw (e, ← same_key p q same, get_at, get-insert_self p (f x) (fields_or_empty v), e)
          (keep same x)
    | inr other ↦ rw (e, get_at, get-insert_ne q p (f x) (fields_or_empty v) other) refl
  ]
]

pub get-set_apart :
    (ps qs : List String) (v : Value) (fs : Fields)
    → apart ps qs ≡ true
    → get_at qs (object (set_at ps v fs)) ≡ get_at qs (object fs)
unfolding get_at set_at apart
get-set_apart [] qs v fs h = cc
get-set_apart (p ∷ ps) [] v fs h = cc
get-set_apart (p ∷ []) (q ∷ qs) v fs h = rw (get_at, get-insert_ne q p v fs (ground (arith))) refl
get-set_apart (p ∷ t ∷ ps) (q ∷ qs) v fs h = elim (Bool-cases (str_eq p q)) [
  | inl e ↦
      let inner = set_at (t ∷ ps) v (found_fields (get_field p fs)) in
      let later = get-set_apart (t ∷ ps) qs v (found_fields (get_field p fs)) (ground arith) in
      rw (← same_key p q e, get_at, get-insert_self p (object inner) fs)
        (later ∙ get_at-below (t ∷ ps) qs (get_field p fs) (ground arith))
  | inr e ↦
      rw
        (
          get_at,
          get-insert_ne q p (object (set_at (t ∷ ps) v (found_fields (get_field p fs)))) fs e,
        )
        refl
]

-- An update at a path is seen there, and nowhere apart from it.
pub get-update_at :
    (ps : List String) (f : Value → Value) (v w : Value)
    → get_at ps v ≡ some w
    → get_at ps (update_at ps f v) ≡ some (f w)
unfolding get_at update_at
get-update_at [] f v w h = ap (λ x. some (f x)) (some_injective h)
get-update_at (p ∷ ps) f v w h = elim (Option-cases (get_key p v)) [
  | inl e ↦ absurd (ground (arith, e))
  | inr (x, e) ↦
      rw (e, get_at, get-insert_self p (update_at ps f x) (fields_or_empty v))
        (get-update_at ps f x w (rw e at h))
]

pub get-update_apart :
    (ps qs : List String) (f : Value → Value) (v : Value)
    → apart ps qs ≡ true
    → get_at qs (update_at ps f v) ≡ get_at qs v
unfolding get_at update_at apart
get-update_apart [] qs f v h = cc
get-update_apart (p ∷ ps) [] f v h = cc
get-update_apart (p ∷ ps) (q ∷ qs) f v h =
    changed-apart p q qs (update_at ps f) v (λ e x. get-update_apart ps qs f x (ground arith))
