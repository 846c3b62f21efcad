-- ===== src/Projection/Excluded.antt =====
-- src/service/dispatcher/query_support.rs: what a projection leaves out.
use kokoadb.Prelude.{
  String, Bool, true, false, ◌&&◌, ◌≡◌, ◌≢◌, refl, sym, ap, ◌∙◌, List, [], ◌∷◌, Option, none, some,
  arith, str_eq, eq_iff, Bool-cases, inl, inr,
}
use kokoadb.Error.{Ensures, holds, failed, Ensures-bind}
use kokoadb.Json.{Value, object, Fields, end}
use kokoadb.Text.{split, contains_text}
use kokoadb.Sort.Parts.{validate-Ensures}
use kokoadb.Doc.{
  get_field, get_at, fields_or_empty, value_by_path, set_value_by_path, remove_value_by_path,
}
use kokoadb.Doc.Maps.{get-insert_ne}
use kokoadb.Doc.Paths.{apart, get-set_apart}
use kokoadb.Doc.Drops.{get-drop_at, drop-keeps_none}
use kokoadb.Projection.Included.{included-IsPart}
use kokoadb.Projection.{
  is_reserved, insert_found, with_reserved, copy_found, include_path, include_paths, included,
  exclude_path, exclude_paths, excluded, apply_projection,
}

-- None of the paths leads to the place, above it or below it.
unfoldable pub all_apart : List String → List String → Bool
all_apart [] qs = true
all_apart (path ∷ rest) qs = apart (split b'.' path) qs && all_apart rest qs

true_not_false : true ≢ false
true_not_false h = cc

one_part :
    {key path q : String} {qs : List String}
    → split b'.' key ≡ key ∷ []
    → split b'.' path ≡ q ∷ qs
    → path ≡ key
    → key ≡ q
one_part k e same = cc (rw (same, k) at e)

-- The place below a key that is not reserved.
module _ (q : String) (qs : List String) (free : is_reserved q ≡ false) where
  insert-none :
      (key : String) (v : Option Value) (fs : Fields)
      → is_reserved key ≡ true
      → get_at (q ∷ qs) (object (insert_found key v fs)) ≡ get_at (q ∷ qs) (object fs)
  unfolding get_at
  insert-none key none fs r = refl
  insert-none key (some v) fs r = elim (Bool-cases (str_eq key q)) [
    | inl e ↦ cc ((eq_iff key q).0 e, r, free)
    | inr e ↦ rw (get_at, get-insert_ne q key v fs e) refl
  ]

  reserved-none :
      (doc : Value) (fs : Fields)
      → get_at (q ∷ qs) (object (with_reserved doc fs)) ≡ get_at (q ∷ qs) (object fs)
  unfolding with_reserved is_reserved
  reserved-none doc fs =
      insert-none "_namespace" _ _ refl
      ∙ insert-none "_user_id" _ _ refl
      ∙ insert-none "_id" _ _ refl

  copy-none :
      (path : String) (v : Option Value) (fs : Fields)
      → apart (split b'.' path) (q ∷ qs) ≡ true
      → get_at (q ∷ qs) (object (copy_found path v fs)) ≡ get_at (q ∷ qs) (object fs)
  unfolding set_value_by_path
  copy-none path none fs a = refl
  copy-none path (some v) fs a = get-set_apart (split b'.' path) (q ∷ qs) v fs a

  include-none :
      (doc : Value) (path : String) (fs : Fields)
      → apart (split b'.' path) (q ∷ qs) ≡ true
      → get_at (q ∷ qs) (object (include_path doc path fs)) ≡ get_at (q ∷ qs) (object fs)
  unfolding include_path
  include-none doc path fs a = elim (Bool-cases (is_reserved path)) [
    | inl r ↦ rw r refl
    | inr r ↦ rw r (copy-none path (value_by_path doc path) fs a)
  ]

  include_paths-none :
      (doc : Value) (paths : List String) (fs : Fields)
      → all_apart paths (q ∷ qs) ≡ true
      → get_at (q ∷ qs) (object fs) ≡ none
      → Ensures (λ (out : Fields). get_at (q ∷ qs) (object out) ≡ none) (include_paths doc paths fs)
  unfolding include_paths all_apart
  include_paths-none doc [] fs a h = holds h
  include_paths-none doc (path ∷ rest) fs a h =
      Ensures-bind _ (validate-Ensures path "fields") λ u _.
        include_paths-none doc rest (include_path doc path fs) (ground arith)
          (include-none doc path fs (ground arith) ∙ h)

  exclude-none :
      (path : String) (v : Value)
      → get_at (q ∷ qs) v ≡ none
      → get_at (q ∷ qs) (exclude_path path v) ≡ none
  unfolding exclude_path remove_value_by_path
  exclude-none path v h = elim (Bool-cases (is_reserved path)) [
    | inl r ↦ rw r h
    | inr r ↦ rw r (drop-keeps_none (split b'.' path) (q ∷ qs) v h)
  ]

  exclude_paths-none :
      (paths : List String) (v : Value)
      → get_at (q ∷ qs) v ≡ none
      → Ensures (λ (out : Value). get_at (q ∷ qs) out ≡ none) (exclude_paths paths v)
  unfolding exclude_paths
  exclude_paths-none [] v h = holds h
  exclude_paths-none (path ∷ rest) v h =
      Ensures-bind _ (validate-Ensures path "exclude_fields")
        λ u _. exclude_paths-none rest (exclude_path path v) (exclude-none path v h)

  excluded-none :
      (doc : Value) (exclude_fields : Option (List String)) (v : Value)
      → get_at (q ∷ qs) v ≡ none
      → Ensures (λ (out : Value). get_at (q ∷ qs) out ≡ none) (excluded doc exclude_fields v)
  unfolding excluded get_at
  excluded-none doc none v h = holds h
  excluded-none doc (some []) v h = failed
  excluded-none doc (some (path ∷ rest)) v h =
      Ensures-bind _ (exclude_paths-none (path ∷ rest) v h)
        λ less n. holds (reserved-none doc (fields_or_empty less) ∙ n)

  -- A projection by `fields` ends in an error or in a document that has nothing at a place which
  -- is apart from every path of `fields` and not below a reserved key.
  pub not_included :
      (fs : Fields) (path : String) (rest : List String) (exclude_fields : Option (List String))
      → all_apart (path ∷ rest) (q ∷ qs) ≡ true
      → Ensures
          (λ (out : Value). get_at (q ∷ qs) out ≡ none)
          (apply_projection (object fs) (some (path ∷ rest)) exclude_fields)
  unfolding apply_projection included get_at get_field
  not_included fs path rest exclude_fields a =
      Ensures-bind _
        (Ensures-bind _
          (include_paths-none (object fs) (path ∷ rest) (with_reserved (object fs) end) a
            (reserved-none (object fs) end ∙ refl))
          λ out n. holds n)
        λ out n. excluded-none (object fs) exclude_fields out n

  no_key :
      (key path : String)
      → split b'.' key ≡ key ∷ []
      → is_reserved key ≡ true
      → split b'.' path ≡ q ∷ qs
      → str_eq path key ≡ false
  no_key key path k r e = elim (Bool-cases (str_eq path key)) [
    | inl same ↦
        absurd
          (true_not_false (sym r ∙ ap is_reserved (one_part k e ((eq_iff path key).0 same)) ∙ free))
    | inr other ↦ other
  ]

  reserved-split : (path : String) → split b'.' path ≡ q ∷ qs → is_reserved path ≡ false
  unfolding is_reserved split
  reserved-split path e = ground (
    arith,
    no_key "_id" path refl refl e,
    no_key "_user_id" path refl refl e,
    no_key "_namespace" path refl refl e,
  )

  exclude_listed :
      (path : String) (paths : List String) (v : Value)
      → split b'.' path ≡ q ∷ qs
      → contains_text path paths ≡ true
      → Ensures (λ (out : Value). get_at (q ∷ qs) out ≡ none) (exclude_paths paths v)
  unfolding exclude_paths contains_text exclude_path remove_value_by_path
  exclude_listed path [] v e c = cc
  exclude_listed path (p ∷ rest) v e c = Ensures-bind _ (validate-Ensures p "exclude_fields") λ u _.
      elim (Bool-cases (str_eq p path)) [
        | inl same ↦
            exclude_paths-none rest (exclude_path p v)
              (rw ((eq_iff p path).0 same, reserved-split path e, e) (get-drop_at q qs v))
        | inr other ↦ exclude_listed path rest (exclude_path p v) e (ground arith)
      ]

  -- A projection that excludes a path that is not below a reserved key ends in an error or in a
  -- document that has nothing at that path, whatever `fields` asks for.
  pub listed_excluded :
      (fs : Fields) (fields : Option (List String)) (path p : String) (rest : List String)
      → split b'.' path ≡ q ∷ qs
      → contains_text path (p ∷ rest) ≡ true
      → Ensures
          (λ (out : Value). value_by_path out path ≡ none)
          (apply_projection (object fs) fields (some (p ∷ rest)))
  unfolding apply_projection excluded value_by_path get_at
  listed_excluded fs fields path p rest e c =
      Ensures-bind _ (included-IsPart (object fs) fields) λ out _.
        Ensures-bind _ (exclude_listed path (p ∷ rest) out e c)
          λ less n. holds (rw e (reserved-none (object fs) (fields_or_empty less) ∙ n))
