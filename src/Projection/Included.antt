-- ===== src/Projection/Included.antt =====
-- src/service/dispatcher/query_support.rs: what a projection returns, beside the document it is made from.
use kokoadb.Prelude.{
  String, true, ◌≡◌, refl, List, [], ◌∷◌, Option, none, some, Bool-cases, Option-cases, inl, inr,
}
use kokoadb.Error.{Ensures, holds, failed, Ensures-bind}
use kokoadb.Json.{Value, object, Fields, end}
use kokoadb.Text.{split}
use kokoadb.Text.Laws.{split-parts}
use kokoadb.Sort.Parts.{validate-Ensures}
use kokoadb.Doc.{
  get_field, get_key, get_at, set_at, fields_or_empty, value_by_path, set_value_by_path,
  remove_value_by_path,
}
use kokoadb.Doc.Scalars.{is_scalar, set-scalar, get_at-append, object-not_scalar, drop-scalar}
use kokoadb.Projection.{
  is_reserved, insert_found, with_reserved, copy_found, include_path, include_paths, included,
  exclude_path, exclude_paths, excluded, apply_projection,
}

-- Every value of the first that is no object stands in the second, at the same path.
pub record IsPart (out doc : Value) : Type 0 where
  pub at :
      (qs : List String) (x : Value)
      → is_scalar x ≡ true
      → get_at qs out ≡ some x
      → get_at qs doc ≡ some x

module _ (doc : Value) where
  set-IsPart :
      (p : String) (ps : List String) (v : Value) (fs : Fields)
      → get_at (p ∷ ps) doc ≡ some v
      → IsPart (object fs) doc
      → IsPart (object (set_at (p ∷ ps) v fs)) doc
  set-IsPart p ps v fs found part = record {
    at = λ qs x s h. elim (set-scalar p ps qs v x fs s h) [
      | inl k ↦ part.at qs x s k
      | inr (r, e, g) ↦ rw (e, get_at-append (p ∷ ps) r doc, found) g
    ];
  }

  copy-IsPart :
      (path : String) (fs : Fields)
      → IsPart (object fs) doc
      → IsPart (object (copy_found path (value_by_path doc path) fs)) doc
  unfolding value_by_path set_value_by_path
  copy-IsPart path fs part =
      let (p, ps, e) = split-parts b'.' path in
      elim (Option-cases (get_at (split b'.' path) doc)) [
        | inl n ↦ rw n part
        | inr (v, f) ↦ rw (f, e) (set-IsPart p ps v fs (rw e at f) part)
      ]

  insert-IsPart :
      (key : String) (fs : Fields)
      → IsPart (object fs) doc
      → IsPart (object (insert_found key (get_key key doc) fs)) doc
  unfolding get_at set_at
  insert-IsPart key fs part = elim (Option-cases (get_key key doc)) [
    | inl n ↦ rw n part
    | inr (v, f) ↦ rw f (set-IsPart key [] v fs (rw f refl) part)
  ]

  reserved-IsPart :
      (fs : Fields) → IsPart (object fs) doc → IsPart (object (with_reserved doc fs)) doc
  unfolding with_reserved
  reserved-IsPart fs part =
      insert-IsPart "_namespace" _ (insert-IsPart "_user_id" _ (insert-IsPart "_id" fs part))

  include-IsPart :
      (path : String) (fs : Fields)
      → IsPart (object fs) doc
      → IsPart (object (include_path doc path fs)) doc
  unfolding include_path
  include-IsPart path fs part = elim (Bool-cases (is_reserved path)) [
    | inl r ↦ rw r part
    | inr r ↦ rw r (copy-IsPart path fs part)
  ]

  include_paths-IsPart :
      (paths : List String) (fs : Fields)
      → IsPart (object fs) doc
      → Ensures (λ (out : Fields). IsPart (object out) doc) (include_paths doc paths fs)
  unfolding include_paths
  include_paths-IsPart [] fs part = holds part
  include_paths-IsPart (path ∷ rest) fs part =
      Ensures-bind _ (validate-Ensures path "fields")
        λ u _. include_paths-IsPart rest (include_path doc path fs) (include-IsPart path fs part)

  empty-IsPart : IsPart (object end) doc
  unfolding get_at get_field is_scalar
  empty-IsPart = record { at = λ qs x s h. none_of qs x s h }
    where
      none_of :
          (qs : List String) (x : Value)
          → is_scalar x ≡ true
          → get_at qs (object end) ≡ some x
          → get_at qs doc ≡ some x
      none_of [] x s h = absurd (object-not_scalar end x s h)
      none_of (q ∷ qs) x s h = cc

  pub included-IsPart :
      (fields : Option (List String))
      → Ensures (λ (out : Value). IsPart out doc) (included doc fields)
  unfolding included
  included-IsPart none = holds (record { at = λ qs x s h. h })
  included-IsPart (some []) = failed
  included-IsPart (some (path ∷ rest)) =
      Ensures-bind _
        (include_paths-IsPart (path ∷ rest) (with_reserved doc end)
          (reserved-IsPart end empty-IsPart))
        λ fs part. holds part

  drop-IsPart : (path : String) (v : Value) → IsPart v doc → IsPart (exclude_path path v) doc
  unfolding exclude_path remove_value_by_path
  drop-IsPart path v part = elim (Bool-cases (is_reserved path)) [
    | inl r ↦ rw r part
    | inr r ↦
        rw r (record { at = λ qs x s h. part.at qs x s (drop-scalar (split b'.' path) qs v x s h) })
  ]

  exclude_paths-IsPart :
      (paths : List String) (v : Value)
      → IsPart v doc
      → Ensures (λ (out : Value). IsPart out doc) (exclude_paths paths v)
  unfolding exclude_paths
  exclude_paths-IsPart [] v part = holds part
  exclude_paths-IsPart (path ∷ rest) v part =
      Ensures-bind _ (validate-Ensures path "exclude_fields")
        λ u _. exclude_paths-IsPart rest (exclude_path path v) (drop-IsPart path v part)

  object-IsPart : (v : Value) → IsPart v doc → IsPart (object (fields_or_empty v)) doc
  object-IsPart (object fs) part = part
  object-IsPart _ part = empty-IsPart

  excluded-IsPart :
      (exclude_fields : Option (List String)) (v : Value)
      → IsPart v doc
      → Ensures (λ (out : Value). IsPart out doc) (excluded doc exclude_fields v)
  unfolding excluded
  excluded-IsPart none v part = holds part
  excluded-IsPart (some []) v part = failed
  excluded-IsPart (some (path ∷ rest)) v part =
      Ensures-bind _ (exclude_paths-IsPart (path ∷ rest) v part)
        λ less p. holds (reserved-IsPart (fields_or_empty less) (object-IsPart less p))

-- A projection ends in an error or in a document without foreign data: every value of it that is
-- no object stands in the document projected, at the same path.
pub apply_projection-IsPart :
    (doc : Value) (fields exclude_fields : Option (List String))
    → Ensures (λ (out : Value). IsPart out doc) (apply_projection doc fields exclude_fields)
unfolding apply_projection
apply_projection-IsPart (object fs) fields exclude_fields =
    Ensures-bind _ (included-IsPart (object fs) fields) (excluded-IsPart (object fs) exclude_fields)
apply_projection-IsPart _ fields exclude_fields = holds (record { at = λ qs x s h. h })
