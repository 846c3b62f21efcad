-- ===== src/Host.antt =====
-- What src/service/dispatcher/tx_mutation.rs uses of the machine and of third-party code: `f64`, Unicode
-- lower case, regular expressions (regex_lite), and the values that macros stand for, which come from a
-- clock, from random numbers and from a digest.
pub mod Example
use Prim.Native.Nat.{Ordering, lt, eq}
use kokoadb.Prelude.{String, Bool, true, false, Option, none, some, ◌⊎◌, inl, inr}
use kokoadb.Error.{AppError, AppResult, ok, err}
use kokoadb.Json.{F64, I64, Value}

-- `rand_id_value` is `resolve_kdb_rand_id`, which takes random numbers. `regex` gives the test that a pattern compiles to, if it is one; `escape` is the pattern of a literal
-- text.
pub record Host : Type 0 where
  pub partial_cmp : F64 → F64 → Option Ordering
  pub add : F64 → F64 → F64
  pub fract_is_zero : F64 → Bool
  pub as_i64 : F64 → I64
  pub is_finite : F64 → Bool
  pub to_lowercase : String → String
  pub regex : String → Option (String → Bool)
  pub escape : String → String
  pub resolve_kdb_now : Value → AppError ⊎ Value
  pub resolve_kdb_timestamp : Value → AppError ⊎ Value
  pub resolve_kdb_uuid : Value → Bool → AppError ⊎ Value
  pub rand_id_value : Value → AppError ⊎ Value
  pub resolve_kdb_hash : Value → AppError ⊎ Value

abbrev is_at_most : Option Ordering → Bool
is_at_most (some lt) = true
is_at_most (some eq) = true
is_at_most _ = false

-- `a <= b`
abbrev pub float_le : Host → F64 → F64 → Bool
float_le host a b = is_at_most (host.partial_cmp a b)

-- The result of a function that is called.
abbrev pub returned : {A : Type 0} → AppError ⊎ A → AppResult A
returned (inl e) = err e
returned (inr a) = ok a
