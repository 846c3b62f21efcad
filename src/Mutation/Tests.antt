-- ===== src/Mutation/Tests.antt =====
-- Mutations of a document, and instances of the theorems.
use kokoadb.Prelude.{ℕ, ◌≡◌, refl, String, true, [], ◌∷◌, none, some, inl, inr}
use kokoadb.Error.{ok, err, bad_request, Ensures}
use kokoadb.Json.{
  Value, null, string, bool, number, pos_int, array, nil, cons, Items, object, Fields, field, end,
  singleton,
}
use kokoadb.Json.Equality.{same_value, contains_value}
use kokoadb.Text.{
  split, join, trim, trim_start, trim_end, is_whitespace, strip_suffix, contains_char,
  contains_text, contains_part, starts_with, ends_with, is_word_char,
}
use kokoadb.Sort.{validate_projection_path, any_blank}
use kokoadb.Doc.{
  get_field, insert_field, remove_field, get_at, set_at, update_at, drop_at, drop_empty, get_path,
  update_path, set_path, drop_path,
}
use kokoadb.Doc.Paths.{apart}
use kokoadb.Host.Example.{example_host}
use kokoadb.ArrayFilter.Operators.{json_filter_compare, order_holds, order_matches}
use kokoadb.ArrayFilter.Paths.{step_all, walk_path, json_filter_values}
use kokoadb.ArrayFilter.Choices.{operator_matches, json_filter_operator_matches, first_match}
use kokoadb.ArrayFilter.Match.{
  is_negative, values_match, all_operators, combine_answers, field_matches, json_filter_matches,
}
use kokoadb.Mutation.Macros.{is_known_kdb_macro, expand_kdb_macros_in_value, resolve_kdb_macro}
use kokoadb.Mutation.Single.{
  number_value, parse_inc_delta, parse_pop_mode, push_item, extend_items, drop_last, pull_items,
  add_items, apply_array_op, mutation_named, put_expanded, is_protected_target, candidates_of,
  run_mutation, operator_of, apply_single_mutation_field,
}
use kokoadb.Mutation.Contract.{
  is_positional_selector, all_word_chars, positional_selector_name, path_selectors, patch_selectors,
  check_filters, check_selectors, validate_positional_mutation_contract,
}
use kokoadb.Mutation.Patch.{
  change_items, positional_at, apply_positional_mutation, apply_entry, apply_entries,
  apply_mutation_patch_to_doc, apply_json_object_update, apply_merge_patch_object,
}
use kokoadb.Mutation.Frame.{Keeps, target_of, target_apart, rename_target, single_mutation-Keeps}
use kokoadb.Mutation.Locality.{selector_prefix, array_path, entry_apart, patch_apart, patch-Keeps}
use kokoadb.Mutation.Elements.{Aligned, first_selector, positional-keeps_others}
use kokoadb.Mutation.Effects.{
  array_before, free_of, IsIn, repeats, get_path-set_path, apply_array_op-found, pull-removes,
  addset-collects,
}
use kokoadb.Mutation.Renames.{rename-moves}
use kokoadb.Mutation.Selectors.{HasFilter, contract-HasFilter}

mutations : Unit {0}
unfolding same_value contains_value split join trim trim_start trim_end is_whitespace strip_suffix
    contains_char contains_text contains_part starts_with ends_with is_word_char
    validate_projection_path any_blank get_field insert_field remove_field get_at set_at update_at
    drop_at drop_empty get_path update_path set_path drop_path apart json_filter_compare order_holds
    order_matches step_all walk_path json_filter_values operator_matches
    json_filter_operator_matches first_match is_negative values_match all_operators combine_answers
    field_matches json_filter_matches is_known_kdb_macro expand_kdb_macros_in_value
    resolve_kdb_macro number_value parse_inc_delta parse_pop_mode push_item extend_items drop_last
    pull_items add_items apply_array_op mutation_named put_expanded is_protected_target run_mutation
    operator_of apply_single_mutation_field is_positional_selector all_word_chars
    positional_selector_name path_selectors patch_selectors check_filters check_selectors
    validate_positional_mutation_contract change_items positional_at apply_positional_mutation
    apply_entry apply_entries apply_mutation_patch_to_doc apply_json_object_update
    apply_merge_patch_object target_of target_apart rename_target selector_prefix entry_apart
    patch_apart first_selector array_before free_of IsIn
mutations = tt

abbrev line : ℕ → String → Value
line price sku = object (field "price" (number (pos_int price)) (field "sku" (string sku) end))

abbrev lines : Items
lines = cons (line 12 "a") (cons (line 7 "b") nil)

abbrev order : Value
order = object (
    field "lines" (array lines) (
      field "note" (string "gift")
        (field "tags" (array (cons (string "new") (cons (string "big") nil))) end)))

abbrev dear : Fields
dear = field "dear" (singleton "price" (singleton "$gt" (number (pos_int 10)))) end

abbrev patch : Fields
patch =
    field "lines.$[dear].price" (singleton "$inc" (number (pos_int 3)))
      (field "note" (singleton "$rename" (string "remark")) end)

abbrev new_lines : Items
new_lines = cons (line 15 "a") (cons (line 7 "b") nil)

abbrev changed : Value
changed = object (
    field "lines" (array new_lines) (
      field "remark" (string "gift")
        (field "tags" (array (cons (string "new") (cons (string "big") nil))) end)))

order-changed :
    apply_mutation_patch_to_doc example_host order patch (some (object dear)) true ≡ ok changed
unfolding mutations
order-changed = refl

order-unmatched :
    apply_mutation_patch_to_doc example_host order patch none true
    ≡ err (bad_request "array_filters.dear is required by data")
unfolding mutations
order-unmatched = refl

patch-Keeps_example : get_at ("tags" ∷ []) changed ≡ get_at ("tags" ∷ []) order
unfolding mutations
patch-Keeps_example =
    patch-Keeps example_host ("tags" ∷ []) order patch (some (object dear)) true changed refl
      order-changed

single_mutation-Keeps_example :
    Ensures
      (Keeps ("lines" ∷ []) order)
      (apply_single_mutation_field example_host order "note" (singleton "$unset" (bool true)) true)
unfolding mutations
single_mutation-Keeps_example =
    single_mutation-Keeps example_host "note" ("lines" ∷ []) refl order
      (singleton "$unset" (bool true)) true refl

abbrev raised : Value
raised = object (
    field "lines" (array new_lines) (
      field "note" (string "gift")
        (field "tags" (array (cons (string "new") (cons (string "big") nil))) end)))

positional-keeps_others_example :
    (ys : Items) × (get_path raised (array_path "lines.$[dear].price") ≡ some (array ys))
    × Aligned
        (json_filter_matches example_host
          (singleton "price" (singleton "$gt" (number (pos_int 10)))))
        lines
        ys
unfolding mutations
positional-keeps_others_example =
    positional-keeps_others example_host dear true (singleton "$inc" (number (pos_int 3)))
      "lines.$[dear].price" "dear" order raised
      (singleton "price" (singleton "$gt" (number (pos_int 10)))) lines refl refl refl refl

get_path-set_path_example :
    get_path (set_path order "note.by.name" (string "Ada")) "note.by.name" ≡ some (string "Ada")
unfolding mutations
get_path-set_path_example =
    get_path-set_path order "note.by.name" "note" ("by" ∷ "name" ∷ []) (string "Ada") refl

apply_array_op-found_example :
    (out : Value) × (apply_array_op order "log" true (λ arr. push_item arr null) ≡ ok out)
    × (get_path out "log" ≡ some (array (push_item nil null)))
unfolding mutations
apply_array_op-found_example =
    apply_array_op-found order "log" "log" [] true (λ arr. push_item arr null) nil refl refl

pull-removes_example :
    (out : Value) × (left : Items) × (apply_single_mutation_field example_host order "tags"
        (singleton "$pull" (string "new"))
        true
      ≡ ok out)
    × (get_path out "tags" ≡ some (array left))
    × (free_of example_host (candidates_of (string "new")) left ≡ true)
unfolding mutations
pull-removes_example =
    pull-removes example_host order "tags" "tags" [] (string "new") true
      (cons (string "new") (cons (string "big") nil)) refl refl

addset-collects_example :
    (out : Value) × (all_of : Items) × (apply_single_mutation_field example_host order "tags"
        (singleton "$addset" (string "old"))
        true
      ≡ ok out)
    × (get_path out "tags" ≡ some (array all_of))
    × (contains_value example_host.partial_cmp all_of (string "old") ≡ true)
    × (repeats example_host all_of
        ≡ repeats example_host (cons (string "new") (cons (string "big") nil)))
unfolding mutations
addset-collects_example =
    addset-collects example_host order "tags" "tags" [] (string "old") (string "old") true
      (cons (string "new") (cons (string "big") nil)) refl refl (inr (refl, inl refl))

abbrev renamed : Value
renamed = object (
    field "lines" (array lines) (
      field "remark" (string "gift")
        (field "tags" (array (cons (string "new") (cons (string "big") nil))) end)))

rename-moves_example :
    (get_path renamed "remark" ≡ some (string "gift")) × (get_path renamed "note" ≡ none)
unfolding mutations
rename-moves_example =
    rename-moves example_host order "note" " remark " "remark" (string "gift") renamed refl refl
      refl refl

patch-valid : validate_positional_mutation_contract patch (some (object dear)) ≡ ok dear
unfolding mutations
patch-valid = refl

contract-HasFilter_example : HasFilter "dear" dear
unfolding mutations
contract-HasFilter_example =
    contract-HasFilter "dear" patch (some (object dear)) dear "lines.$[dear].price" "$[dear]"
      (singleton "$inc" (number (pos_int 3))) refl refl refl patch-valid
