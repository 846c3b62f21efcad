-- ===== src/Mutation/Effects.antt =====
-- src/service/dispatcher/tx_mutation.rs: what stands at the path of a mutation afterwards.
use kokoadb.Prelude.{
  ℕ, ◌+◌, if◌then◌else◌, String, Bool, true, false, ◌∙◌, not, ◌&&◌, ◌||◌, ◌≡◌, refl, ap, ◌⊎◌, List,
  ◌∷◌, Option, none, some, arith, Bool-cases, inl, inr,
}
use kokoadb.Error.{ok}
use kokoadb.Json.{Value, null, array, object, Items, nil, cons, end, field}
use kokoadb.Json.Equality.{same_value, contains_value}
use kokoadb.Doc.{path_parts, fields_or_empty, get_path, set_path, update_path}
use kokoadb.Doc.Paths.{get-set_at, get-update_at, some_injective}
use kokoadb.Host.{Host}
use kokoadb.Mutation.Macros.{is_known_kdb_macro}
use kokoadb.Mutation.Single.{
  push_item, pull_items, add_items, candidates_of, change_array, array_op_on, apply_array_op,
  mutation_named, run_mutation, operator_of, apply_single_mutation_field,
}

-- What is written at a path that has a segment is read there, whatever stood there or on the way.
pub get_path-set_path :
    (root : Value) (path s : String) (rest : List String) (v : Value)
    → path_parts path ≡ s ∷ rest
    → get_path (set_path root path v) path ≡ some v
unfolding get_path set_path
get_path-set_path root path s rest v e = rw e (get-set_at s rest v (fields_or_empty root))

-- The array that an array operator works on: a missing one and `null` count as empty.
unfoldable pub array_before : Option Value → Option Items
array_before none = some nil
array_before (some null) = some nil
array_before (some (array xs)) = some xs
array_before (some _) = none

change_array-found :
    (doc : Value) (path : String) (f : Items → Items) (xs : Items)
    → get_path doc path ≡ some (array xs)
    → (out : Value) × (change_array doc path f ≡ ok out) × (get_path out path ≡ some (array (f xs)))
unfolding get_path update_path
change_array-found doc path f xs h = (
  update_path doc path (λ found. array (f xs)),
  rw h refl,
  get-update_at (path_parts path) (λ found. array (f xs)) doc (array xs) h,
)

array_op_on-found :
    (doc : Value) (path s : String) (rest : List String) (strict : Bool) (f : Items → Items)
    (xs : Items) (o : Option Value)
    → path_parts path ≡ s ∷ rest
    → get_path doc path ≡ o
    → array_before o ≡ some xs
    → (out : Value) × (array_op_on doc path strict f o ≡ ok out)
      × (get_path out path ≡ some (array (f xs)))
unfolding array_before
array_op_on-found doc path s rest strict f xs none e g h = rw (← some_injective h) (
    change_array-found (set_path doc path (array nil)) path f nil
      (get_path-set_path doc path s rest (array nil) e))
array_op_on-found doc path s rest strict f xs (some null) e g h = rw (← some_injective h) (
    change_array-found (set_path doc path (array nil)) path f nil
      (get_path-set_path doc path s rest (array nil) e))
array_op_on-found doc path s rest strict f xs (some (array ys)) e g h =
    rw (← some_injective h) (change_array-found doc path f ys g)
array_op_on-found doc path s rest strict f xs (some _) e g h = cc

-- Where an array stands, `null` or nothing, an array operator succeeds, and leaves there what it makes
-- of the array, or of an empty one. The path has a segment.
pub apply_array_op-found :
    (doc : Value) (path s : String) (rest : List String) (strict : Bool) (f : Items → Items)
    (xs : Items)
    → path_parts path ≡ s ∷ rest
    → array_before (get_path doc path) ≡ some xs
    → (out : Value) × (apply_array_op doc path strict f ≡ ok out)
      × (get_path out path ≡ some (array (f xs)))
unfolding apply_array_op
apply_array_op-found doc path s rest strict f xs e h =
    array_op_on-found doc path s rest strict f xs (get_path doc path) e refl h

-- No element that equals a candidate is left.
unfoldable pub free_of : Host → Items → Items → Bool
free_of host candidates nil = true
free_of host candidates (cons x xs) =
    not (contains_value host.partial_cmp candidates x) && free_of host candidates xs

pull-free :
    (host : Host) (candidates xs : Items)
    → free_of host candidates (pull_items host candidates xs) ≡ true
unfolding free_of pull_items
pull-free host candidates nil = refl
pull-free host candidates (cons x xs) =
    elim (Bool-cases (contains_value host.partial_cmp candidates x)) [
      | inl c ↦ rw c (pull-free host candidates xs)
      | inr c ↦ rw (c, free_of, c) (pull-free host candidates xs)
    ]

-- Where an array stands, `null` or nothing, `$pull` succeeds and leaves an array without the values it
-- is given, whether as a list or as one value. The path has a segment.
pub pull-removes :
    (host : Host) (doc : Value) (path s : String) (rest : List String) (arg : Value) (strict : Bool)
    (xs : Items)
    → path_parts path ≡ s ∷ rest
    → array_before (get_path doc path) ≡ some xs
    → (out : Value) × (left : Items) × (apply_single_mutation_field host doc path
          (object (field "$pull" arg end))
          strict
        ≡ ok out)
      × (get_path out path ≡ some (array left))
      × (free_of host (candidates_of arg) left ≡ true)
unfolding apply_single_mutation_field operator_of run_mutation mutation_named is_known_kdb_macro
pull-removes host doc path s rest arg strict xs e h =
    let (out, run, found) =
      apply_array_op-found doc path s rest strict (pull_items host (candidates_of arg)) xs e h in
    (out, pull_items host (candidates_of arg) xs, run, found, pull-free host (candidates_of arg) xs)

-- A value is one of the elements.
unfoldable pub IsIn : Value → Items → Type 0
IsIn c nil = ⊥
IsIn c (cons x xs) = (x ≡ c) ⊎ IsIn c xs

-- A value is in an array, by `==`.
module _ (host : Host) (c : Value) where
  found-push :
      (xs : Items) (v : Value)
      → contains_value host.partial_cmp (push_item xs v) c
        ≡ (contains_value host.partial_cmp xs c || same_value host.partial_cmp v c)
  unfolding push_item contains_value
  found-push nil v = ground arith
  found-push (cons x xs) v = ground (arith, found-push xs v)

  found-add :
      (candidates xs : Items)
      → contains_value host.partial_cmp xs c ≡ true
      → contains_value host.partial_cmp (add_items host candidates xs) c ≡ true
  unfolding add_items
  found-add nil xs h = h
  found-add (cons d ds) xs h = elim (Bool-cases (contains_value host.partial_cmp xs d)) [
    | inl y ↦ rw y (found-add ds xs h)
    | inr n ↦ rw n (found-add ds (push_item xs d) (ground (arith, found-push xs d)))
  ]

  add-found :
      (candidates xs : Items)
      → same_value host.partial_cmp c c ≡ true
      → IsIn c candidates
      → contains_value host.partial_cmp (add_items host candidates xs) c ≡ true
  unfolding add_items IsIn
  add-found nil xs s i = absurd i
  add-found (cons d ds) xs s (inr later) = add-found ds _ s later
  add-found (cons d ds) xs s (inl now) = elim (Bool-cases (contains_value host.partial_cmp xs d)) [
    | inl y ↦ rw y (found-add ds xs (rw now at y))
    | inr n ↦ rw n (
        found-add ds (push_item xs d)
          (ground (arith, found-push xs d, ap (λ x. same_value host.partial_cmp x c) now)))
  ]

-- How many pairs of elements are equal: the first by `==` to a later one.
unfoldable pub equals_after : Host → Value → Items → ℕ
equals_after host v nil = 0
equals_after host v (cons x xs) =
    (if same_value host.partial_cmp v x then 1 else 0) + equals_after host v xs

unfoldable pub repeats : Host → Items → ℕ
repeats host nil = 0
repeats host (cons x xs) = equals_after host x xs + repeats host xs

equals_after-push :
    (host : Host) (v c : Value) (xs : Items)
    → same_value host.partial_cmp v c ≡ false
    → equals_after host v (push_item xs c) ≡ equals_after host v xs
unfolding equals_after push_item
equals_after-push host v c nil h = rw h refl
equals_after-push host v c (cons x xs) h = omega (arith, equals_after-push host v c xs h)

repeats-push :
    (host : Host) (c : Value) (xs : Items)
    → contains_value host.partial_cmp xs c ≡ false
    → repeats host (push_item xs c) ≡ repeats host xs
unfolding repeats equals_after push_item contains_value
repeats-push host c nil h = refl
repeats-push host c (cons x xs) h = omega (
  arith,
  equals_after-push host x c xs (ground (arith, h)),
  repeats-push host c xs (ground (arith, h)),
)

repeats-add :
    (host : Host) (candidates xs : Items)
    → repeats host (add_items host candidates xs) ≡ repeats host xs
unfolding add_items
repeats-add host nil xs = refl
repeats-add host (cons d ds) xs = elim (Bool-cases (contains_value host.partial_cmp xs d)) [
  | inl y ↦ rw y (repeats-add host ds xs)
  | inr n ↦ rw n (repeats-add host ds (push_item xs d) ∙ repeats-push host d xs n)
]

-- Where an array stands, `null` or nothing, `$addset` succeeds and leaves an array with every value that
-- was in it and every value that it is given and that equals itself, and with no more pairs of equal
-- elements than it had. The path has a segment.
pub addset-collects :
    (host : Host) (doc : Value) (path s : String) (rest : List String) (arg c : Value)
    (strict : Bool) (xs : Items)
    → path_parts path ≡ s ∷ rest
    → array_before (get_path doc path) ≡ some xs
    → (contains_value host.partial_cmp xs c ≡ true)
      ⊎ ((same_value host.partial_cmp c c ≡ true) × IsIn c (candidates_of arg))
    → (out : Value) × (all_of : Items) × (apply_single_mutation_field host doc path
          (object (field "$addset" arg end))
          strict
        ≡ ok out)
      × (get_path out path ≡ some (array all_of))
      × (contains_value host.partial_cmp all_of c ≡ true)
      × (repeats host all_of ≡ repeats host xs)
unfolding apply_single_mutation_field operator_of run_mutation mutation_named is_known_kdb_macro
addset-collects host doc path s rest arg c strict xs e h wanted =
    let (out, run, found) =
      apply_array_op-found doc path s rest strict (add_items host (candidates_of arg)) xs e h in
    (
      out,
      add_items host (candidates_of arg) xs,
      run,
      found,
      elim wanted [
        | inl old ↦ found-add host c (candidates_of arg) xs old
        | inr (self, new) ↦ add-found host c (candidates_of arg) xs self new
      ],
      repeats-add host (candidates_of arg) xs,
    )
