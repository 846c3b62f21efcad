-- ===== src/Host/Example.antt =====
-- A host for tests: doubles by their numbers, no regular expressions, and fixed values for the macros.
use Prim.Native.Nat
use Prim.Native.Nat.{Ordering, lt, gt}
use kokoadb.Prelude.{◌+◌, String, Bool, true, false, Option, none, some, ◌⊎◌, inr}
use kokoadb.Error.{AppError}
use kokoadb.Json.{F64, bits, nearest, nearest_minus, I64, nonneg, minus, Value, string}
use kokoadb.Host.{Host}

abbrev by_number : F64 → F64 → Option Ordering
by_number (nearest m) (nearest n) = some (Nat.compare m n)
by_number (nearest_minus m) (nearest_minus n) = some (Nat.compare n m)
by_number (nearest_minus m) (nearest n) = some lt
by_number (nearest m) (nearest_minus n) = some gt
by_number _ _ = none

abbrev sum : F64 → F64 → F64
sum (nearest m) (nearest n) = F64.nearest (m + n)
sum f _ = f

abbrev is_whole : F64 → Bool
is_whole (bits n) = false
is_whole _ = true

abbrev whole : F64 → I64
whole (nearest n) = nonneg n
whole (nearest_minus n) = minus n
whole (bits n) = nonneg 0

abbrev fixed : String → Value → AppError ⊎ Value
fixed s arg = inr (string s)

abbrev pub example_host : Host
example_host = record {
  partial_cmp = by_number;
  add = sum;
  fract_is_zero = is_whole;
  as_i64 = whole;
  is_finite = is_whole;
  to_lowercase = λ s. s;
  regex = λ s. none;
  escape = λ s. s;
  resolve_kdb_now = fixed "2024-01-01T00:00:00Z";
  resolve_kdb_timestamp = fixed "1704067200000";
  resolve_kdb_uuid = λ arg v7. inr (string "6f1e");
  rand_id_value = fixed "a1b2";
  resolve_kdb_hash = fixed "e3b0";
}
