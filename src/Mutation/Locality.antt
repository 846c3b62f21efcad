-- ===== src/Mutation/Locality.antt =====
-- src/service/dispatcher/tx_mutation.rs: what a patch of several fields leaves as it was.
use kokoadb.Prelude.{
  String, Bool, true, false, ◌&&◌, ◌≡◌, ◌∙◌, List, [], ◌∷◌, ◌++◌, any, Option, none, some, arith,
  if◌then◌else◌, Bool-cases, inl, inr,
}
use kokoadb.Error.{AppResult, ok, Ensures-ok, bind-ok, ok_injective}
use kokoadb.Json.{Value, array, Items, Fields, end, field}
use kokoadb.Sort.{validate_projection_path}
use kokoadb.Text.{split, join}
use kokoadb.Doc.{path_parts, get_at, get_field, get_path}
use kokoadb.Doc.Paths.{apart}
use kokoadb.Host.{Host}
use kokoadb.Mutation.Single.{reject, apply_single_mutation_field}
use kokoadb.Mutation.Contract.{
  is_positional_selector, positional_selector_name, validate_positional_mutation_contract,
}
use kokoadb.Mutation.Patch.{
  on_items, with_filter, with_selector, positional_at, apply_positional_mutation, apply_entry,
  apply_entries, apply_mutation_patch_to_doc,
}
use kokoadb.Mutation.Frame.{
  Keeps, rename_target, target_apart, update_path-Keeps, single_mutation-Keeps,
}

-- The segments before the first selector, after those that were passed.
unfoldable pub selector_prefix : List String → List String → List String
selector_prefix before [] = before
selector_prefix before (segment ∷ rest) =
    let later = selector_prefix (before ++ (segment ∷ [])) rest in
    if is_positional_selector segment then before else later

-- The path of the array that a path with selectors leads to.
abbrev pub array_path : String → String
array_path path = join "." (selector_prefix [] (split b'.' path))

-- A field of a patch writes nowhere to the path, above it or below it.
unfoldable pub entry_apart : String → Value → List String → Bool
entry_apart path spec qs =
    if any is_positional_selector (split b'.' path)
    then apart (path_parts (array_path path)) qs
    else apart (path_parts path) qs && target_apart (rename_target spec) qs

unfoldable pub patch_apart : Fields → List String → Bool
patch_apart end qs = true
patch_apart (field path spec rest) qs = entry_apart path spec qs && patch_apart rest qs

module _ (host : Host) (qs : List String) where
  reject_same :
      (strict : Bool) (m : String) (doc out : Value)
      → reject strict m doc ≡ ok out
      → Keeps qs doc out
  unfolding Keeps
  reject_same true m doc out h = cc
  reject_same false m doc out h = cc

  on_items-Keeps :
      (root : Value) (prefix : String) (strict : Bool) (change : Items → AppResult Items)
      (o : Option Value) (out : Value)
      → apart (path_parts prefix) qs ≡ true
      → on_items root prefix strict change o ≡ ok out
      → Keeps qs root out
  unfolding Keeps
  on_items-Keeps root prefix strict change none out a h = cc
  on_items-Keeps root prefix strict change (some (array xs)) out a h =
      let (ys, e, g) = bind-ok (change xs) _ h in
      rw (← ok_injective g) (update_path-Keeps host prefix qs a (λ found. array ys) root)
  on_items-Keeps root prefix strict change (some _) out a h = reject_same strict _ root out h

  with_selector-Keeps :
      (path : String) (filters : Fields) (o : Option String) (root : Value) (prefix : String)
      (strict : Bool) (change : Value → AppResult Value) (out : Value)
      → apart (path_parts prefix) qs ≡ true
      → with_selector host path filters o root prefix strict change ≡ ok out
      → Keeps qs root out
  with_selector-Keeps path filters none root prefix strict change out a h = cc
  with_selector-Keeps path filters (some name) root prefix strict change out a h =
      with_filter-Keeps (get_field name filters) h
    where
      with_filter-Keeps :
          (o : Option Value)
          → with_filter host name o root prefix strict change ≡ ok out
          → Keeps qs root out
      with_filter-Keeps none h = cc
      with_filter-Keeps (some filter) h =
          on_items-Keeps root prefix strict _ (get_path root prefix) out a h

  positional-Keeps :
      (filters : Fields) (strict : Bool) (spec : Value) (path : String) (before rest : List String)
      (root out : Value)
      → apart (path_parts (join "." (selector_prefix before rest))) qs ≡ true
      → positional_at host filters strict spec path before rest root ≡ ok out
      → Keeps qs root out
  unfolding positional_at selector_prefix
  positional-Keeps filters strict spec path before [] root out a h = cc
  positional-Keeps filters strict spec path before (segment ∷ rest) root out a h =
      elim (Bool-cases (is_positional_selector segment)) [
        | inl s ↦
            with_selector-Keeps path filters (positional_selector_name segment) root
              (join "." before) strict _ out (rw s at a) (rw s at h)
        | inr s ↦
            positional-Keeps filters strict spec path (before ++ (segment ∷ [])) rest root out
              (rw s at a) (rw s at h)
      ]

  entry-Keeps :
      (filters : Fields) (strict : Bool) (path : String) (spec doc out : Value)
      → entry_apart path spec qs ≡ true
      → apply_entry host filters strict path spec doc ≡ ok out
      → Keeps qs doc out
  unfolding apply_entry entry_apart apply_positional_mutation
  entry-Keeps filters strict path spec doc out a h =
      elim (Bool-cases (any is_positional_selector (split b'.' path))) [
        | inl s ↦
            positional-Keeps filters strict spec path [] (split b'.' path) doc out (rw s at a)
              (rw s at h)
        | inr s ↦
            let both = rw s at a in
            let (u, e, g) =
              bind-ok (validate_projection_path path "data")
                (λ u. apply_single_mutation_field host doc path spec strict) (rw s at h) in
            Ensures-ok
              (single_mutation-Keeps host path qs (ground (arith, both)) doc spec strict
                (ground (arith, both)))
              g
      ]

  entries-Keeps :
      (filters : Fields) (strict : Bool) (patch : Fields) (doc out : Value)
      → patch_apart patch qs ≡ true
      → apply_entries host filters strict patch doc ≡ ok out
      → Keeps qs doc out
  unfolding apply_entries patch_apart Keeps
  entries-Keeps filters strict end doc out a h = cc
  entries-Keeps filters strict (field path spec rest) doc out a h =
      let (mid, e, g) = bind-ok _ _ h in
      entries-Keeps filters strict rest mid out (ground (arith)) g
      ∙ entry-Keeps filters strict path spec doc mid (ground (arith)) e

  -- A patch that succeeds, with selectors or without, leaves what stands at a path that is apart
  -- from all it names: the paths of its fields, or the arrays before their selectors, and the targets
  -- of its renames.
  pub patch-Keeps :
      (doc : Value) (patch : Fields) (array_filters : Option Value) (strict : Bool) (out : Value)
      → patch_apart patch qs ≡ true
      → apply_mutation_patch_to_doc host doc patch array_filters strict ≡ ok out
      → get_at qs out ≡ get_at qs doc
  unfolding apply_mutation_patch_to_doc Keeps
  patch-Keeps doc patch array_filters strict out a h =
      let (filters, e, g) =
        bind-ok (validate_positional_mutation_contract patch array_filters)
          (λ filters. apply_entries host filters strict patch doc) h in
      entries-Keeps filters strict patch doc out a g
