-- ===== src/Page.antt =====
-- src/service/dispatcher/runtime_support.rs: the page that a read returns.
pub mod Laws
mod Tests
use Prim.Native.Nat.{min, max}
use kokoadb.Prelude.{
  ℕ, zero, suc, ◌+◌, ◌-◌, ◌*◌, ◌/◌, ◌^◌, Option, none, some, Bool, true, false, ◌||◌, ltb, ◌==◌,
  if◌then◌else◌,
}
use kokoadb.Error.{AppResult, ok, err, bad_request}
use kokoadb.Json.{I64, nonneg, minus, Value, number, pos_int, neg_int}

-- One more than the largest i64.
abbrev pub i64_end : ℕ
i64_end = 2 ^ 63

-- A number that is not negative, as the i64 it wraps around to.
abbrev pub wrap : ℕ → I64
wrap n = if ltb n i64_end then nonneg n else minus (i64_end + i64_end - 1 - n)

-- Numbers that are not negative are held as ℕ: `n.max(least)` for a `least` that is 0 or 1.
abbrev pub at_least : ℕ → I64 → ℕ
at_least least (nonneg n) = max n least
at_least least (minus n) = least

-- A result that does not fit is the largest i64.
abbrev pub saturated : ℕ → ℕ
saturated n = min n (i64_end - 1)

-- The fields of the payload that set the page.
pub record PageArgs : Type 0 where
  pub limit : Option I64
  pub offset : Option I64
  pub per_page : Option I64
  pub page : Option I64

-- `i64::try_from(default_limit).unwrap_or(50).max(1)`
unfoldable pub default_size : ℕ → ℕ
default_size n = if ltb n i64_end then max n 1 else 50

unfoldable pub size_or : ℕ → Option I64 → ℕ
size_or default_limit none = default_limit
size_or default_limit (some n) = at_least 1 n

unfoldable pub offset_or_zero : Option I64 → ℕ
offset_or_zero none = 0
offset_or_zero (some n) = at_least 0 n

-- By limit and offset: the page on which the offset lies.
abbrev pub by_offset : ℕ → ℕ → AppResult (ℕ × ℕ × I64)
by_offset limit offset = ok (limit, offset, wrap (offset / limit + 1))

-- By page.
unfoldable pub by_page : ℕ → Option I64 → AppResult (ℕ × ℕ × I64)
by_page limit none = ok (limit, 0, nonneg 1)
by_page limit (some (nonneg (suc before))) =
    ok (limit, saturated (before * limit), nonneg (suc before))
by_page limit (some (nonneg zero)) = err (bad_request "page must be >= 1")
by_page limit (some (minus n)) = err (bad_request "page must be >= 1")

abbrev pub is_set : Option I64 → Bool
is_set none = false
is_set (some n) = true

unfoldable pub resolve_sizes : ℕ → PageArgs → AppResult (ℕ × ℕ × I64)
resolve_sizes size payload =
    if is_set payload.limit || is_set payload.offset
    then by_offset (size_or size payload.limit) (offset_or_zero payload.offset)
    else by_page (size_or size payload.per_page) payload.page

unfoldable pub resolve_pagination_args : PageArgs → ℕ → AppResult (ℕ × ℕ × I64)
resolve_pagination_args payload default_limit = resolve_sizes (default_size default_limit) payload

-- `Value::from` of `offset - limit`, which may be negative.
unfoldable pub previous : ℕ → ℕ → Value
previous offset limit =
    if ltb offset limit
    then number (neg_int (limit - offset - 1))
    else number (pos_int (offset - limit))

-- The offset of the next page, if there are items after this one, and of the one before.
unfoldable pub build_offsets : ℕ → ℕ → ℕ → ℕ → Value × Value
build_offsets total_count count limit offset =
    let progressed = saturated (offset + saturated count) in
    (
      if ltb progressed total_count then number (pos_int progressed) else Value.null,
      if ltb 0 offset then previous offset limit else Value.null,
    )
