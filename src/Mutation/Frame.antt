-- ===== src/Mutation/Frame.antt =====
-- src/service/dispatcher/tx_mutation.rs: what a mutation leaves as it was.
use kokoadb.Prelude.{String, Bool, true, ◌≡◌, ◌≢◌, refl, ◌∙◌, List, [], ◌∷◌, Option, none, some}
use kokoadb.Error.{AppResult, Ensures, holds, failed, Ensures-bind, Ensures-if}
use kokoadb.Json.{F64, Value, null, number, array, Items, nil}
use kokoadb.Doc.{path_parts, fields_or_empty, get_at, get_path, set_path, drop_path, update_path}
use kokoadb.Doc.Paths.{apart, get-set_apart, get-update_apart}
use kokoadb.Doc.Drops.{get-drop_apart}
use kokoadb.Host.{Host}
use kokoadb.Mutation.Single.{
  reject, changed_array, array_op_on, apply_array_op, put_expanded, put_number, inc_found, inc_by,
  rename_found, rename_valid, rename_to, trimmed_text, extend_by, Mutation, replace, unset, inc,
  push, pop, extend, pull, addset, rename, unknown, mutation_named, run_mutation, operator_of,
  mutate, apply_single_mutation_field, is_object,
}
use kokoadb.Mutation.Ends.{
  Any, expand-Ensures, inc_delta-Ensures, number_value-Ensures, pop_mode-Ensures, validate-Any,
}

-- The same stands at a path of both.
unfoldable pub Keeps : List String → Value → Value → Type 0
Keeps qs doc out = get_at qs out ≡ get_at qs doc

-- The path that a rename writes to, for another operator none.
unfoldable pub target_of : Mutation → Value → Option String
target_of rename arg = trimmed_text arg
target_of _ arg = none

unfoldable pub target_apart : Option String → List String → Bool
target_apart none qs = true
target_apart (some target) qs = apart (path_parts target) qs

abbrev operator_target : Option (String × Value) → Option String
operator_target none = none
operator_target (some (op, arg)) = target_of (mutation_named op) arg

-- The path that a mutation writes to beside its own.
unfoldable pub rename_target : Value → Option String
rename_target spec = operator_target (operator_of spec)

pub apart_nothing : (ps : List String) → apart ps [] ≢ true
unfolding apart
apart_nothing [] h = cc
apart_nothing (p ∷ ps) h = cc

pub set_path-Keeps :
    (path : String) (qs : List String) (v root : Value)
    → apart (path_parts path) qs ≡ true
    → Keeps qs root (set_path root path v)
unfolding set_path Keeps get_at apart
set_path-Keeps path [] v root h = absurd (apart_nothing (path_parts path) h)
set_path-Keeps path (q ∷ qs) v root h =
    get-set_apart (path_parts path) (q ∷ qs) v (fields_or_empty root) h

-- All that is done to a document by one mutation.
module _ (host : Host) (path : String) (qs : List String)
    (free : apart (path_parts path) qs ≡ true) where
  pub update_path-Keeps :
      (f : Value → Value) (root : Value) → Keeps qs root (update_path root path f)
  unfolding update_path Keeps
  update_path-Keeps f root = get-update_apart (path_parts path) qs f root free

  drop_path-Keeps : (root : Value) → Keeps qs root (drop_path root path)
  unfolding drop_path Keeps
  drop_path-Keeps root = get-drop_apart (path_parts path) qs root free

  reject-Keeps :
      (strict : Bool) (m : String) (doc : Value) → Ensures (Keeps qs doc) (reject strict m doc)
  unfolding Keeps
  reject-Keeps strict m doc = Ensures-if strict failed (holds refl)

  changed_array-Keeps :
      (f : Items → Items) (doc now : Value) (o : Option Value)
      → Keeps qs doc now
      → Ensures (Keeps qs doc) (changed_array now path f o)
  unfolding Keeps
  changed_array-Keeps f doc now none k = failed
  changed_array-Keeps f doc now (some (array xs)) k =
      holds (update_path-Keeps (λ found. array (f xs)) now ∙ k)
  changed_array-Keeps f doc now (some _) k = failed

  array_op_on-Keeps :
      (strict : Bool) (f : Items → Items) (doc : Value) (o : Option Value)
      → Ensures (Keeps qs doc) (array_op_on doc path strict f o)
  unfolding Keeps
  array_op_on-Keeps strict f doc none =
      changed_array-Keeps f doc _ _ (set_path-Keeps path qs (array nil) doc free)
  array_op_on-Keeps strict f doc (some null) =
      changed_array-Keeps f doc _ _ (set_path-Keeps path qs (array nil) doc free)
  array_op_on-Keeps strict f doc (some (array xs)) = changed_array-Keeps f doc doc _ refl
  array_op_on-Keeps strict f doc (some _) = reject-Keeps strict _ doc

  apply_array_op-Keeps :
      (strict : Bool) (f : Items → Items) (doc : Value)
      → Ensures (Keeps qs doc) (apply_array_op doc path strict f)
  unfolding apply_array_op
  apply_array_op-Keeps strict f doc = array_op_on-Keeps strict f doc (get_path doc path)

  put_expanded-Keeps : (doc spec : Value) → Ensures (Keeps qs doc) (put_expanded host doc path spec)
  unfolding put_expanded
  put_expanded-Keeps doc spec =
      Ensures-bind _ (expand-Ensures host spec) λ v _. holds (set_path-Keeps path qs v doc free)

  put_number-Keeps : (doc : Value) (n : F64) → Ensures (Keeps qs doc) (put_number host doc path n)
  put_number-Keeps doc n =
      Ensures-bind _ (number_value-Ensures host n) λ v _. holds (set_path-Keeps path qs v doc free)

  inc_found-Keeps :
      (strict : Bool) (delta : F64) (doc : Value) (o : Option Value)
      → Ensures (Keeps qs doc) (inc_found host doc path strict delta o)
  inc_found-Keeps strict delta doc none = put_number-Keeps doc delta
  inc_found-Keeps strict delta doc (some null) = put_number-Keeps doc delta
  inc_found-Keeps strict delta doc (some (number n)) = put_number-Keeps doc _
  inc_found-Keeps strict delta doc (some _) = reject-Keeps strict _ doc

  inc_by-Keeps :
      (strict : Bool) (doc : Value) {r : AppResult F64}
      → Ensures Any r
      → Ensures (Keeps qs doc) (inc_by host doc path strict r)
  unfolding Keeps
  inc_by-Keeps strict doc (holds p) = inc_found-Keeps strict _ doc (get_path doc path)
  inc_by-Keeps strict doc failed = Ensures-if strict failed (holds refl)

  rename_found-Keeps :
      (target : String) (doc : Value) (o : Option Value)
      → apart (path_parts target) qs ≡ true
      → Ensures (Keeps qs doc) (rename_found doc path target o)
  unfolding Keeps
  rename_found-Keeps target doc none t = holds refl
  rename_found-Keeps target doc (some v) t =
      holds (set_path-Keeps target qs v (drop_path doc path) t ∙ drop_path-Keeps doc)

  rename_valid-Keeps :
      (strict : Bool) (target : String) (doc : Value) {r : AppResult (Unit {0})}
      → apart (path_parts target) qs ≡ true
      → Ensures Any r
      → Ensures (Keeps qs doc) (rename_valid doc path strict target r)
  unfolding Keeps
  rename_valid-Keeps strict target doc t (holds p) =
      Ensures-if _ (reject-Keeps strict _ doc)
        (Ensures-if _ (holds refl) (rename_found-Keeps target doc (get_path doc path) t))
  rename_valid-Keeps strict target doc t failed = Ensures-if strict failed (holds refl)

  rename_to-Keeps :
      (strict : Bool) (doc : Value) (o : Option String)
      → target_apart o qs ≡ true
      → Ensures (Keeps qs doc) (rename_to doc path strict o)
  unfolding target_apart
  rename_to-Keeps strict doc none t = reject-Keeps strict _ doc
  rename_to-Keeps strict doc (some target) t =
      rename_valid-Keeps strict target doc t (validate-Any target "$rename target")

  extend_by-Keeps :
      (strict : Bool) (doc arg : Value) → Ensures (Keeps qs doc) (extend_by doc path strict arg)
  extend_by-Keeps strict doc (array ext) = apply_array_op-Keeps strict _ doc
  extend_by-Keeps strict doc _ = reject-Keeps strict _ doc

  run_mutation-Keeps :
      (strict : Bool) (doc : Value) (op : String) (arg : Value) (m : Mutation)
      → target_apart (target_of m arg) qs ≡ true
      → Ensures (Keeps qs doc) (run_mutation host doc path strict op arg m)
  unfolding run_mutation target_of
  run_mutation-Keeps strict doc op arg replace t =
      Ensures-if (is_object arg) (put_expanded-Keeps doc arg) (reject-Keeps strict _ doc)
  run_mutation-Keeps strict doc op arg unset t =
      Ensures-if _ (holds (drop_path-Keeps doc)) (reject-Keeps strict _ doc)
  run_mutation-Keeps strict doc op arg inc t = inc_by-Keeps strict doc (inc_delta-Ensures arg)
  run_mutation-Keeps strict doc op arg push t = apply_array_op-Keeps strict _ doc
  run_mutation-Keeps strict doc op arg pop t =
      Ensures-bind _ (pop_mode-Ensures host arg strict path)
        λ last _. apply_array_op-Keeps strict _ doc
  run_mutation-Keeps strict doc op arg extend t = extend_by-Keeps strict doc arg
  run_mutation-Keeps strict doc op arg pull t = apply_array_op-Keeps strict _ doc
  run_mutation-Keeps strict doc op arg addset t = apply_array_op-Keeps strict _ doc
  run_mutation-Keeps strict doc op arg rename t = rename_to-Keeps strict doc (trimmed_text arg) t
  run_mutation-Keeps strict doc op arg unknown t = reject-Keeps strict _ doc

  mutate-Keeps :
      (strict : Bool) (doc spec : Value) (o : Option (String × Value))
      → target_apart (operator_target o) qs ≡ true
      → Ensures (Keeps qs doc) (mutate host doc path spec strict o)
  mutate-Keeps strict doc spec none t = put_expanded-Keeps doc spec
  mutate-Keeps strict doc spec (some (op, arg)) t =
      run_mutation-Keeps strict doc op arg (mutation_named op) t

  -- Whatever is asked for at a path, a mutation ends in an error or in a document in which every
  -- path that is apart from it, and from the target of a rename, leads where it led before.
  pub single_mutation-Keeps :
      (doc spec : Value) (strict : Bool)
      → target_apart (rename_target spec) qs ≡ true
      → Ensures (Keeps qs doc) (apply_single_mutation_field host doc path spec strict)
  unfolding apply_single_mutation_field rename_target
  single_mutation-Keeps doc spec strict t = mutate-Keeps strict doc spec (operator_of spec) t
