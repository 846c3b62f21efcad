-- ===== src/Mutation/Macros.antt =====
-- src/service/dispatcher/tx_mutation.rs: an object whose only key is a macro stands for the value that the
-- macro gives.
use kokoadb.Prelude.{String, Bool, true, false, ◌||◌, str_eq, if◌then◌else◌}
use kokoadb.Error.{AppResult, ok, err, bad_request, ◌>>=◌}
use kokoadb.Json.{Value, array, object, Items, nil, cons, Fields, end, field}
use kokoadb.Text.{◌<>◌}
use kokoadb.Host.{Host, returned}

unfoldable pub is_known_kdb_macro : String → Bool
is_known_kdb_macro key =
    str_eq key "@now"
    || str_eq key "@timestamp"
    || str_eq key "@uuidv4"
    || str_eq key "@uuidv7"
    || str_eq key "@randomid"
    || str_eq key "@hash"

unfoldable pub resolve_kdb_macro : Host → String → Value → AppResult Value
resolve_kdb_macro host key arg =
    if str_eq key "@now"
    then returned (host.resolve_kdb_now arg)
    else if str_eq key "@timestamp"
    then returned (host.resolve_kdb_timestamp arg)
    else if str_eq key "@uuidv4"
    then returned (host.resolve_kdb_uuid arg false)
    else if str_eq key "@uuidv7"
    then returned (host.resolve_kdb_uuid arg true)
    else if str_eq key "@randomid"
    then returned (host.rand_id_value arg)
    else if str_eq key "@hash"
    then returned (host.resolve_kdb_hash arg)
    else err (bad_request ("unknown macro key: " <> key))

abbrev wrap_fields : AppResult Fields → AppResult Value
wrap_fields r = r >>= λ fs. ok (object fs)

-- `inner` is the object with its values expanded, which the loop at the end of the function makes.
abbrev pub expand_object : Host → Fields → AppResult Fields → AppResult Value
expand_object host (field k v end) inner =
    if is_known_kdb_macro k then resolve_kdb_macro host k v else wrap_fields inner
expand_object host fs inner = wrap_fields inner

unfoldable mutual
  pub expand_kdb_macros_in_value : Host → Value → AppResult Value
  expand_kdb_macros_in_value host (array xs) = do ys ← expand_items host xs; ok (array ys)
  expand_kdb_macros_in_value host (object fs) =
      let inner = expand_fields host fs in expand_object host fs inner
  expand_kdb_macros_in_value host v = ok v

  pub expand_items : Host → Items → AppResult Items
  expand_items host nil = ok nil
  expand_items host (cons v vs) = do
    w ← expand_kdb_macros_in_value host v
    ws ← expand_items host vs
    ok (cons w ws)

  pub expand_fields : Host → Fields → AppResult Fields
  expand_fields host end = ok end
  expand_fields host (field k v fs) = do
    w ← expand_kdb_macros_in_value host v
    gs ← expand_fields host fs
    ok (field k w gs)
