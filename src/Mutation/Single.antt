-- ===== src/Mutation/Single.antt =====
-- src/service/dispatcher/tx_mutation.rs: the mutation of one path.
use kokoadb.Prelude.{
  ◌^◌, ◌-◌, String, Bool, true, false, not, ◌&&◌, ◌||◌, Option, none, some, str_eq, if◌then◌else◌,
}
use kokoadb.Error.{AppResult, ok, err, out_of_fuel, bad_request, internal, ◌>>=◌}
use kokoadb.Json.{
  F64, Number, pos_int, neg_int, float, I64, nonneg, minus, number_as_f64, Value, null, bool,
  number, string, array, object, Items, nil, cons, end, field,
}
use kokoadb.Json.Equality.{same_value, contains_value}
use kokoadb.Text.{◌<>◌, trim, is_empty, starts_with, starts_with_char}
use kokoadb.Sort.{validate_projection_path}
use kokoadb.Doc.{get_path, set_path, drop_path, update_path}
use kokoadb.Host.{Host, float_le}
use kokoadb.Mutation.Macros.{expand_kdb_macros_in_value, is_known_kdb_macro}

-- What a function does with an input that it does not accept.
abbrev pub reject : Bool → String → Value → AppResult Value
reject strict message doc = if strict then err (bad_request message) else ok doc

abbrev or_zero : Option F64 → F64
or_zero none = F64.nearest 0
or_zero (some f) = f

-- `serde_json::Number::from(i)`
abbrev number_from : I64 → Number
number_from (nonneg n) = pos_int n
number_from (minus n) = neg_int n

unfoldable pub number_value : Host → F64 → AppResult Value
number_value host v =
    if host.fract_is_zero v
      && float_le host (F64.nearest_minus (2 ^ 63 - 1)) v
      && float_le host v (F64.nearest (2 ^ 63 - 1))
    then ok (number (number_from (host.as_i64 v)))
    else if host.is_finite v
    then ok (number (float v))
    else err (bad_request "numeric operation produced non-finite value")

-- The three conversions of a number that are tried in turn are this one.
unfoldable pub parse_inc_delta : Value → AppResult F64
parse_inc_delta (bool true) = ok (F64.nearest 1)
parse_inc_delta (number n) = ok (or_zero (number_as_f64 n))
parse_inc_delta _ = err (bad_request "$inc expects true or numeric delta")

-- Whether the last element is removed, and not the first.
unfoldable pub parse_pop_mode : Host → Value → Bool → String → AppResult Bool
parse_pop_mode host arg strict path =
    if same_value host.partial_cmp arg (bool true)
      || same_value host.partial_cmp arg (number (pos_int 1))
    then ok true
    else if same_value host.partial_cmp arg (number (neg_int 0))
    then ok false
    else if strict
    then err (bad_request (path <> ": $pop expects 1|-1|true"))
    else ok true

-- `arr.push(v)`
unfoldable pub push_item : Items → Value → Items
push_item nil v = cons v nil
push_item (cons x xs) v = cons x (push_item xs v)

-- `arr.extend(ext)`
unfoldable pub extend_items : Items → Items → Items
extend_items nil ys = ys
extend_items (cons x xs) ys = cons x (extend_items xs ys)

abbrev drop_first : Items → Items
drop_first nil = nil
drop_first (cons x xs) = xs

-- `arr.pop()`
unfoldable pub drop_last : Items → Items
drop_last nil = nil
drop_last (cons x nil) = nil
drop_last (cons x (cons y ys)) = cons x (drop_last (cons y ys))

abbrev pub pop_item : Bool → Items → Items
pop_item last xs = if last then drop_last xs else drop_first xs

-- `arr.retain(|v| !candidates.contains(v))`
unfoldable pub pull_items : Host → Items → Items → Items
pull_items host candidates nil = nil
pull_items host candidates (cons x xs) =
    let rest = pull_items host candidates xs in
    if contains_value host.partial_cmp candidates x then rest else cons x rest

unfoldable pub add_items : Host → Items → Items → Items
add_items host nil xs = xs
add_items host (cons c cs) xs =
    add_items host cs (if contains_value host.partial_cmp xs c then xs else push_item xs c)

-- An array, or the array of one value.
abbrev pub candidates_of : Value → Items
candidates_of (array xs) = xs
candidates_of v = cons v nil

-- The array that `get_path_mut` finds is what `get_path` finds.
abbrev pub changed_array : Value → String → (Items → Items) → Option Value → AppResult Value
changed_array doc path f (some (array xs)) = ok (update_path doc path (λ found. array (f xs)))
changed_array doc path f _ = err (internal ("failed to access array field for path: " <> path))

abbrev pub change_array : Value → String → (Items → Items) → AppResult Value
change_array doc path f = changed_array doc path f (get_path doc path)

abbrev pub array_op_on : Value → String → Bool → (Items → Items) → Option Value → AppResult Value
array_op_on doc path strict f none = change_array (set_path doc path (array nil)) path f
array_op_on doc path strict f (some null) = change_array (set_path doc path (array nil)) path f
array_op_on doc path strict f (some (array xs)) = change_array doc path f
array_op_on doc path strict f (some _) =
    reject strict (path <> ": target must be array|null|missing") doc

unfoldable pub apply_array_op : Value → String → Bool → (Items → Items) → AppResult Value
apply_array_op doc path strict f = array_op_on doc path strict f (get_path doc path)

pub data Mutation : Type 0 where
  replace unset inc push pop extend pull addset rename unknown : Mutation

unfoldable pub mutation_named : String → Mutation
mutation_named op =
    if str_eq op "$replace"
    then replace
    else if str_eq op "$unset"
    then unset
    else if str_eq op "$inc"
    then inc
    else if str_eq op "$push"
    then push
    else if str_eq op "$pop"
    then pop
    else if str_eq op "$extend"
    then extend
    else if str_eq op "$pull"
    then pull
    else if str_eq op "$addset"
    then addset
    else if str_eq op "$rename"
    then rename
    else unknown

-- A value with its macros expanded is put at the path.
unfoldable pub put_expanded : Host → Value → String → Value → AppResult Value
put_expanded host doc path spec = do
  v ← expand_kdb_macros_in_value host spec
  ok (set_path doc path v)

abbrev pub put_number : Host → Value → String → F64 → AppResult Value
put_number host doc path f = do v ← number_value host f; ok (set_path doc path v)

abbrev pub inc_found : Host → Value → String → Bool → F64 → Option Value → AppResult Value
inc_found host doc path strict delta (some (number n)) =
    put_number host doc path (host.add (or_zero (number_as_f64 n)) delta)
inc_found host doc path strict delta (some null) = put_number host doc path delta
inc_found host doc path strict delta none = put_number host doc path delta
inc_found host doc path strict delta (some _) =
    reject strict (path <> ": $inc requires numeric or null field") doc

abbrev pub inc_by : Host → Value → String → Bool → AppResult F64 → AppResult Value
inc_by host doc path strict (ok delta) = inc_found host doc path strict delta (get_path doc path)
inc_by host doc path strict (err e) = if strict then err e else ok doc
inc_by host doc path strict out_of_fuel = out_of_fuel

unfoldable pub is_protected_target : String → String → Bool
is_protected_target path target =
    str_eq target "_id"
    || str_eq target "_created_at"
    || str_eq target "_modified_at"
    || starts_with "_id." target
    || starts_with "_created_at." target
    || starts_with "_modified_at." target
    || starts_with (path <> ".") target

abbrev pub rename_found : Value → String → String → Option Value → AppResult Value
rename_found doc path target none = ok doc
rename_found doc path target (some v) = ok (set_path (drop_path doc path) target v)

abbrev pub rename_valid : Value → String → Bool → String → AppResult (Unit {0}) → AppResult Value
rename_valid doc path strict target (ok u) =
    if is_protected_target path target
    then reject strict (path <> ": invalid $rename target path: " <> target) doc
    else if str_eq target path
    then ok doc
    else rename_found doc path target (get_path doc path)
rename_valid doc path strict target (err e) = if strict then err e else ok doc
rename_valid doc path strict target out_of_fuel = out_of_fuel

abbrev pub rename_to : Value → String → Bool → Option String → AppResult Value
rename_to doc path strict none =
    reject strict (path <> ": $rename expects a non-empty target path string") doc
rename_to doc path strict (some target) =
    rename_valid doc path strict target (validate_projection_path target "$rename target")

-- `arg.as_str().map(str::trim).filter(|value| !value.is_empty())`
abbrev pub trimmed_text : Value → Option String
trimmed_text (string s) = if is_empty (trim s) then none else some (trim s)
trimmed_text _ = none

abbrev pub is_object : Value → Bool
is_object (object fs) = true
is_object _ = false

abbrev pub extend_by : Value → String → Bool → Value → AppResult Value
extend_by doc path strict (array ext) = apply_array_op doc path strict (λ arr. extend_items arr ext)
extend_by doc path strict _ = reject strict (path <> ": $extend expects array") doc

unfoldable pub run_mutation :
    Host → Value → String → Bool → String → Value → Mutation → AppResult Value
run_mutation host doc path strict op arg replace =
    if is_object arg
    then put_expanded host doc path arg
    else reject strict (path <> ": $replace expects an object") doc
run_mutation host doc path strict op arg unset =
    if same_value host.partial_cmp arg (bool true)
    then ok (drop_path doc path)
    else reject strict (path <> ": $unset expects true") doc
run_mutation host doc path strict op arg inc = inc_by host doc path strict (parse_inc_delta arg)
run_mutation host doc path strict op arg push =
    apply_array_op doc path strict (λ arr. push_item arr arg)
run_mutation host doc path strict op arg pop = do
  last ← parse_pop_mode host arg strict path
  apply_array_op doc path strict (pop_item last)
run_mutation host doc path strict op arg extend = extend_by doc path strict arg
run_mutation host doc path strict op arg pull =
    apply_array_op doc path strict (pull_items host (candidates_of arg))
run_mutation host doc path strict op arg addset =
    apply_array_op doc path strict (add_items host (candidates_of arg))
run_mutation host doc path strict op arg rename = rename_to doc path strict (trimmed_text arg)
run_mutation host doc path strict op arg unknown =
    reject strict (path <> ": unknown mutation operator " <> op) doc

-- An object with one key that begins with `$`: the operator and its argument.
unfoldable pub operator_of : Value → Option (String × Value)
operator_of (object (field op arg end)) =
    if not (starts_with_char b'$' op) || is_known_kdb_macro op then none else some (op, arg)
operator_of _ = none

abbrev pub mutate : Host → Value → String → Value → Bool → Option (String × Value) → AppResult Value
mutate host doc path spec strict none = put_expanded host doc path spec
mutate host doc path spec strict (some (op, arg)) =
    run_mutation host doc path strict op arg (mutation_named op)

unfoldable pub apply_single_mutation_field : Host → Value → String → Value → Bool → AppResult Value
apply_single_mutation_field host doc path spec strict =
    mutate host doc path spec strict (operator_of spec)
