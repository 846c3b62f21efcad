-- ===== src/Projection/Tests.antt =====
-- A document projected, and instances of the theorems.
use kokoadb.Prelude.{◌≡◌, refl, List, String, [], ◌∷◌, Option, none, some}
use kokoadb.Error.{ok, Ensures}
use kokoadb.Json.{Value, string, object, Fields, field, end, singleton}
use kokoadb.Text.{split, trim, trim_start, trim_end, is_whitespace, contains_text}
use kokoadb.Sort.{validate_projection_path, any_blank}
use kokoadb.Doc.{
  get_field, insert_field, remove_field, get_at, set_at, drop_at, value_by_path, set_value_by_path,
  remove_value_by_path,
}
use kokoadb.Doc.Paths.{apart}
use kokoadb.Projection.{
  is_reserved, with_reserved, include_path, include_paths, included, exclude_path, exclude_paths,
  excluded, apply_projection,
}
use kokoadb.Projection.Included.{IsPart, apply_projection-IsPart}
use kokoadb.Projection.Excluded.{all_apart, not_included, listed_excluded}

projections : Unit {0}
unfolding split trim trim_start trim_end is_whitespace contains_text validate_projection_path
    any_blank get_field insert_field remove_field get_at set_at drop_at value_by_path
    set_value_by_path remove_value_by_path apart is_reserved with_reserved include_path
    include_paths included exclude_path exclude_paths excluded apply_projection all_apart
projections = tt

abbrev address : Fields
address = field "city" (string "Berne") (field "street" (string "Main") end)

abbrev person : Fields
person =
    field "_id" (string "p1") (field "address" (object address) (field "name" (string "Ada") end))

abbrev one_path : Option (List String)
one_path = some ("address.city" ∷ [])

person-projected :
    apply_projection (object person) one_path none
    ≡ ok (
        object
          (field "_id" (string "p1") (field "address" (singleton "city" (string "Berne")) end)))
unfolding projections
person-projected = refl

person-without :
    apply_projection (object person) none (some ("address" ∷ "_id" ∷ []))
    ≡ ok (object (field "_id" (string "p1") (field "name" (string "Ada") end)))
unfolding projections
person-without = refl

apply_projection-IsPart_example :
    Ensures
      (λ (out : Value). IsPart out (object person))
      (apply_projection (object person) one_path (some ("name" ∷ [])))
apply_projection-IsPart_example =
    apply_projection-IsPart (object person) one_path (some ("name" ∷ []))

not_included_example :
    Ensures
      (λ (out : Value). get_at ("address" ∷ "street" ∷ []) out ≡ none)
      (apply_projection (object person) one_path none)
unfolding projections
not_included_example =
    not_included "address" ("street" ∷ []) refl person "address.city" [] none refl

listed_excluded_example :
    Ensures
      (λ (out : Value). value_by_path out "address.street" ≡ none)
      (apply_projection (object person) none (some ("name" ∷ "address.street" ∷ [])))
unfolding projections
listed_excluded_example =
    listed_excluded "address" ("street" ∷ []) refl person none "address.street" "name"
      ("address.street" ∷ []) refl refl
