-- ===== src/ArrayFilter/Opposites.antt =====
-- src/service/dispatcher/tx_mutation.rs: operators of array filters that are each other's negation.
use kokoadb.Prelude.{
  Bool, true, false, not, ◌≡◌, ◌≢◌, refl, ap, sym, List, [], ◌∷◌, all, some, if◌then◌else◌,
  Bool-cases, inl, inr, and-true,
}
use kokoadb.Error.{AppResult, ok, err, out_of_fuel, ◌>>=◌, ok_injective}
use kokoadb.Json.{Value, array, object, Items, nil, cons, end, field}
use kokoadb.Json.Equality.{contains_value}
use kokoadb.Host.{Host}
use kokoadb.ArrayFilter.Choices.{operator_matches, json_filter_operator_matches, first_match}
use kokoadb.ArrayFilter.Match.{
  or_false, is_empty_list, is_negative, values_match, combine_answers, combined, field_matches,
  json_filter_matches, all_operators, items_match, json_field_predicate_matches,
}

true_not_false : true ≢ false
true_not_false h = cc

module _ (host : Host) where
  combined-nor :
      (xs : Items) (answers : AppResult (List Bool)) (b : Bool)
      → combined "$or" (array xs) answers ≡ ok b
      → combined "$nor" (array xs) answers ≡ ok (not b)
  unfolding combine_answers
  combined-nor nil answers b h = cc
  combined-nor (cons x xs) (ok bs) b h = ap (λ v. ok (not v)) (ok_injective h)
  combined-nor (cons x xs) (err e) b h = cc
  combined-nor (cons x xs) out_of_fuel b h = cc

  all_fields :
      (r : AppResult Bool) (b : Bool)
      → (r >>= λ m. if m then ok true else ok false) ≡ ok b
      → r ≡ ok b
  all_fields (ok true) b h = h
  all_fields (ok false) b h = h
  all_fields (err e) b h = cc
  all_fields out_of_fuel b h = cc

  one_field : (b : Bool) → (if b then ok true else ok false) ≡ ok b
  one_field true = refl
  one_field false = refl

  -- Where a filter `$or` of some filters gives an answer for a value, `$nor` of the same filters gives
  -- the opposite one.
  pub or-nor :
      (fs : Items) (candidate : Value) (b : Bool)
      → json_filter_matches host (object (field "$or" (array fs) end)) candidate ≡ ok b
      → json_filter_matches host (object (field "$nor" (array fs) end)) candidate ≡ ok (not b)
  unfolding json_filter_matches field_matches
  or-nor fs candidate b h =
      rw (combined-nor fs (items_match host fs candidate) b (all_fields _ b h)) (one_field (not b))

  -- The answers of `$in` and `$nin` for one value.
  nin-one :
      (nested other : Value → AppResult Bool) (cs v : Value)
      → or_false (json_filter_operator_matches host nested (some v) "$nin" cs) ≡ true
      → json_filter_operator_matches host other (some v) "$in" cs ≡ ok false
  unfolding json_filter_operator_matches operator_matches
  nin-one nested other (array nil) v h = cc
  nin-one nested other (array (cons c cs)) v h =
      elim (Bool-cases (contains_value host.partial_cmp (cons c cs) v)) [
        | inl y ↦ absurd (true_not_false (sym (rw y at h)))
        | inr n ↦ rw n refl
      ]
  nin-one nested other _ v h = cc

  nin-all :
      (nested other : Value → AppResult Bool) (cs : Value) (values : List Value)
      → all (λ v. or_false (json_filter_operator_matches host nested (some v) "$nin" cs)) values
        ≡ true
      → first_match (λ v. json_filter_operator_matches host other (some v) "$in" cs) values
        ≡ ok false
  unfolding first_match
  nin-all nested other cs [] h = refl
  nin-all nested other cs (v ∷ vs) h =
      let (now, later) = and-true _ _ h in
      rw (nin-one nested other cs v now, nin-all nested other cs vs later) refl

  -- Where `$nin` holds of the values found at a path, `$in` with the same choices gives the answer no.
  pub nin-excludes :
      (cs : Value) (values : List Value)
      → json_field_predicate_matches host (object (field "$nin" cs end)) values ≡ ok true
      → json_field_predicate_matches host (object (field "$in" cs end)) values ≡ ok false
  unfolding json_filter_matches values_match is_negative all_operators
  nin-excludes cs values h =
      let inner = json_filter_matches host cs in
      let (some_value, each) =
        and-true (not (is_empty_list values))
          (all (λ v. or_false (json_filter_operator_matches host inner (some v) "$nin" cs)) values)
          (ok_injective (all_fields _ true h)) in
      rw (nin-all inner inner cs values each) refl
