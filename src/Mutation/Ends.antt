-- ===== src/Mutation/Ends.antt =====
-- src/service/dispatcher/tx_mutation.rs: the parts of a mutation that return a value or an error.
use kokoadb.Prelude.{String, Bool, true, false, ◌||◌, ◌⊎◌, inl, inr, str_eq}
use kokoadb.Error.{AppError, AppResult, Ensures, holds, failed, Ensures-bind, Ensures-if}
use kokoadb.Sort.{validate_projection_path}
use kokoadb.Sort.Parts.{Valid, validate-Ensures}
use kokoadb.Json.{
  F64, pos_int, neg_int, Value, bool, number, array, object, Items, nil, cons, Fields, end, field,
}
use kokoadb.Json.Equality.{same_value}
use kokoadb.Host.{Host, returned}
use kokoadb.Mutation.Macros.{
  is_known_kdb_macro, resolve_kdb_macro, expand_object, expand_items, expand_fields,
  expand_kdb_macros_in_value,
}
use kokoadb.Mutation.Single.{number_value, parse_inc_delta, parse_pop_mode}

-- No more is said of the value.
unfoldable pub Any : {A : Type 0} → A → Type 0
Any a = Unit {0}

returned-Ensures : {A : Type 0} (r : AppError ⊎ A) → Ensures Any (returned r)
unfolding Any
returned-Ensures (inl e) = failed
returned-Ensures (inr a) = holds tt

resolve-Ensures :
    (host : Host) (key : String) (arg : Value) → Ensures Any (resolve_kdb_macro host key arg)
unfolding resolve_kdb_macro
resolve-Ensures host key arg = Ensures-if (str_eq key "@now") (returned-Ensures _) (
    Ensures-if (str_eq key "@timestamp") (returned-Ensures _) (
      Ensures-if (str_eq key "@uuidv4") (returned-Ensures _) (
        Ensures-if (str_eq key "@uuidv7") (returned-Ensures _) (
          Ensures-if (str_eq key "@randomid") (returned-Ensures _)
            (Ensures-if (str_eq key "@hash") (returned-Ensures _) failed)))))

expand_object-Ensures :
    (host : Host) (fs : Fields) {r : AppResult Fields}
    → Ensures Any r
    → Ensures Any (expand_object host fs r)
unfolding Any
expand_object-Ensures host end p = Ensures-bind _ p λ a _. holds tt
expand_object-Ensures host (field k v end) p =
    Ensures-if (is_known_kdb_macro k) (resolve-Ensures host k v) (Ensures-bind _ p λ a _. holds tt)
expand_object-Ensures host (field k v (field l w fs)) p = Ensures-bind _ p λ a _. holds tt

mutual
  unfolding Any expand_kdb_macros_in_value

  pub expand-Ensures : (host : Host) (v : Value) → Ensures Any (expand_kdb_macros_in_value host v)
  expand-Ensures host (array xs) = Ensures-bind _ (expand_items-Ensures host xs) λ a _. holds tt
  expand-Ensures host (object fs) = expand_object-Ensures host fs (expand_fields-Ensures host fs)
  expand-Ensures host _ = holds tt

  expand_items-Ensures : (host : Host) (xs : Items) → Ensures Any (expand_items host xs)
  expand_items-Ensures host nil = holds tt
  expand_items-Ensures host (cons v vs) =
      Ensures-bind _ (expand-Ensures host v)
        λ w _. Ensures-bind _ (expand_items-Ensures host vs) λ ws _. holds tt

  expand_fields-Ensures : (host : Host) (fs : Fields) → Ensures Any (expand_fields host fs)
  expand_fields-Ensures host end = holds tt
  expand_fields-Ensures host (field k v fs) =
      Ensures-bind _ (expand-Ensures host v)
        λ w _. Ensures-bind _ (expand_fields-Ensures host fs) λ ws _. holds tt

pub inc_delta-Ensures : (arg : Value) → Ensures Any (parse_inc_delta arg)
unfolding Any parse_inc_delta
inc_delta-Ensures (bool true) = holds tt
inc_delta-Ensures (bool false) = failed
inc_delta-Ensures (number n) = holds tt
inc_delta-Ensures _ = failed

pub pop_mode-Ensures :
    (host : Host) (arg : Value) (strict : Bool) (path : String)
    → Ensures Any (parse_pop_mode host arg strict path)
unfolding Any parse_pop_mode
pop_mode-Ensures host arg strict path =
    Ensures-if
      (same_value host.partial_cmp arg (bool true)
        || same_value host.partial_cmp arg (number (pos_int 1)))
      (holds tt)
      (Ensures-if (same_value host.partial_cmp arg (number (neg_int 0))) (holds tt)
        (Ensures-if strict failed (holds tt)))

pub number_value-Ensures : (host : Host) (n : F64) → Ensures Any (number_value host n)
unfolding number_value Any
number_value-Ensures host n =
    Ensures-if _ (holds tt) (Ensures-if (host.is_finite n) (holds tt) failed)

pub validate-Any : (path name : String) → Ensures Any (validate_projection_path path name)
unfolding Any
validate-Any path name = ends (validate-Ensures path name)
  where
    ends : {r : AppResult (Unit {0})} → Ensures Valid r → Ensures Any r
    ends (holds p) = holds tt
    ends failed = failed
